-- ===== src/Participants/Slots.antt =====
-- The array of participants of src/lib/participants.c: which slots are free, how many are used, and
-- what a write to one slot changes.
use nimble_server_lib.Prelude.{
  ℕ, zero, suc, ◌+◌, ◌<◌, ◌≡◌, refl, subst, false, not, List, [], ◌∷◌, some, get_elem?, set, to_ℕ,
  ◌==◌, if◌then◌else◌, arith,
}
use nimble_server_lib.External.{StepsLib}
use nimble_server_lib.Participant.{Participant}

module _ {sl : StepsLib} where
  abbrev pub used_count : List (Participant sl) → ℕ
  used_count [] = 0
  used_count (p ∷ ps) = to_ℕ p.is_used + used_count ps

  -- 1 at the index of a slot that is not used, 0 elsewhere.
  abbrev pub free_at : List (Participant sl) → ℕ → ℕ
  free_at [] i = 0
  free_at (p ∷ ps) zero = to_ℕ (not p.is_used)
  free_at (p ∷ ps) (suc i) = free_at ps i

  pub used_count-set :
      (ps : List (Participant sl)) (i : ℕ) (p q : Participant sl)
      → get_elem? ps i ≡ some p
      → used_count (set ps i q) + to_ℕ p.is_used ≡ used_count ps + to_ℕ q.is_used
  used_count-set [] i p q h = absurd (cc)
  used_count-set (x ∷ ps) zero p q h = ground arith
  used_count-set (x ∷ ps) (suc i) p q h = omega (arith, used_count-set ps i p q h)

  pub free_at-set :
      (ps : List (Participant sl)) (i j : ℕ) (p q : Participant sl)
      → get_elem? ps i ≡ some p
      → free_at (set ps i q) j ≡ (if i == j then to_ℕ (not q.is_used) else free_at ps j)
  free_at-set [] i j p q h = absurd (cc)
  free_at-set (x ∷ ps) zero zero p q h = refl
  free_at-set (x ∷ ps) zero (suc j) p q h = ground arith
  free_at-set (x ∷ ps) (suc i) zero p q h = ground arith
  free_at-set (x ∷ ps) (suc i) (suc j) p q h = ground (arith, free_at-set ps i j p q h)

  pub free_at-of :
      (ps : List (Participant sl)) (i : ℕ) (p : Participant sl)
      → get_elem? ps i ≡ some p
      → free_at ps i ≡ to_ℕ (not p.is_used)
  free_at-of [] i p h = absurd (cc)
  free_at-of (x ∷ ps) zero p h = ground arith
  free_at-of (x ∷ ps) (suc i) p h = free_at-of ps i p h

  pub free_slot :
      (ps : List (Participant sl)) (i : ℕ)
      → 0 < free_at ps i
      → (p : Participant sl) × (get_elem? ps i ≡ some p) × (p.is_used ≡ false)
  free_slot [] i h = absurd (omega arith)
  free_slot (p ∷ ps) zero h = (p, refl, ground arith)
  free_slot (p ∷ ps) (suc i) h = free_slot ps i h

  -- What holds of every slot, with its index.
  abbrev pub Every : (ℕ → Participant sl → Type 0) → List (Participant sl) → Type 0
  Every P ps = (i : ℕ) (p : Participant sl) → get_elem? ps i ≡ some p → P i p

  pub Every-set :
      (P : ℕ → Participant sl → Type 0) (ps : List (Participant sl)) (i : ℕ) (q : Participant sl)
      → Every P ps
      → P i q
      → Every P (set ps i q)
  Every-set P [] i q h hq j p e = absurd (cc)
  Every-set P (x ∷ ps) zero q h hq zero p e = subst (P zero) (ground arith) hq
  Every-set P (x ∷ ps) zero q h hq (suc j) p e = h (suc j) p e
  Every-set P (x ∷ ps) (suc i) q h hq zero p e = h zero p e
  Every-set P (x ∷ ps) (suc i) q h hq (suc j) p e =
      Every-set (λ k. P (suc k)) ps i q (λ k r. h (suc k) r) hq j p e
