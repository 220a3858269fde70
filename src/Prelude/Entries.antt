-- ===== src/Prelude/Entries.antt =====
-- What holds of every entry of a list.
use Prim.Native.Nat.{ℕ, zero, suc}
use mathlib.Core.Path.{◌≡◌, refl, ap, subst}
use mathlib.Core.List.{List, [], ◌∷◌, ◌++◌}
use mathlib.Core.Option.{Option, none, some}
use native.Mathlib.Omega.{arith}
use nimble_server_lib.Prelude.Lists.{get_elem?, set}

abbrev pub All {ℓ κ} : {A : Type ℓ} → (A → Type κ) → List A → Type κ
All P [] = Unit
All P (x ∷ xs) = P x × All P xs

-- What holds of the value of an option, if it has one.
abbrev pub Some {ℓ κ} : {A : Type ℓ} → (A → Type κ) → Option A → Type κ
Some P none = Unit
Some P (some x) = P x

module _ {ℓ κ} {A : Type ℓ} where
  pub All-get :
      (P : A → Type κ) (xs : List A) (i : ℕ) (x : A) → All P xs → get_elem? xs i ≡ some x → P x
  All-get P [] i x h at = absurd (cc)
  All-get P (y ∷ xs) zero x h at = subst P (ground arith) h.0
  All-get P (y ∷ xs) (suc i) x h at = All-get P xs i x h.1 at

  pub All-set : (P : A → Type κ) (xs : List A) (i : ℕ) (x : A) → All P xs → P x → All P (set xs i x)
  All-set P [] i x h hx = h
  All-set P (y ∷ xs) zero x h hx = (hx, h.1)
  All-set P (y ∷ xs) (suc i) x h hx = (h.0, All-set P xs i x h.1 hx)

  pub All-append : (P : A → Type κ) (xs ys : List A) → All P xs → All P ys → All P (xs ++ ys)
  All-append P [] ys hx hy = hy
  All-append P (x ∷ xs) ys hx hy = (hx.0, All-append P xs ys hx.1 hy)

  pub All-mono : (P Q : A → Type κ) (xs : List A) → ((x : A) → P x → Q x) → All P xs → All Q xs
  All-mono P Q [] f h = h
  All-mono P Q (x ∷ xs) f h = (f x h.0, All-mono P Q xs f h.1)

  pub All-intro :
      (P : A → Type κ) (xs : List A) → ((i : ℕ) (x : A) → get_elem? xs i ≡ some x → P x) → All P xs
  All-intro P [] f = tt
  All-intro P (x ∷ xs) f = (f zero x refl, All-intro P xs (λ i. f (suc i)))

module _ {ℓ} {A : Type ℓ} where
  -- Writing what stands there already changes nothing.
  pub set_same : (xs : List A) (i : ℕ) (x : A) → get_elem? xs i ≡ some x → set xs i x ≡ xs
  set_same [] i x h = refl
  set_same (y ∷ xs) zero x h = ap (λ z. z ∷ xs) (ground arith)
  set_same (y ∷ xs) (suc i) x h = ap (◌∷◌ y) (set_same xs i x h)

  -- Of two writes to one place the later one counts.
  pub set_twice : (xs : List A) (i : ℕ) (x y : A) → set (set xs i x) i y ≡ set xs i y
  set_twice [] i x y = refl
  set_twice (z ∷ xs) zero x y = refl
  set_twice (z ∷ xs) (suc i) x y = ap (◌∷◌ z) (set_twice xs i x y)
