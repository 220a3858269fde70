-- ===== src/CircularBuffer/Fifo.antt =====
-- A valid circular buffer is a queue of at most 64 octets.
use nimble_server_lib.Prelude.{
  ℕ, zero, suc, ◌+◌, ◌%◌, ◌≤◌, ◌<◌, ◌≡◌, ◌↔◌, refl, ap, ap₂, ◌∙◌, sym, ◌≢◌, true, false, List, [],
  ◌∷◌, ◌++◌, length, length-append, length-set, get_or, set, get_or-set_self, get_or-set_ne, arith,
}
use nimble_server_lib.CircularBuffer.{
  CircularBuffer, buffer_size, init, write, read, is_empty, is_full, count,
}

pub record IsValid (b : CircularBuffer) : Type 0 where
  pub size : length b.octets ≡ buffer_size
  pub head_in : b.head < buffer_size
  pub tail_in : b.tail < buffer_size
  pub full_at : b.is_full ≡ true → b.head ≡ b.tail

-- The `n` octets from index `start` on, going round at the end of the array.
abbrev segment : List ℕ → ℕ → ℕ → List ℕ
segment octets start zero = []
segment octets start (suc n) =
    segment octets start n ++ get_or octets ((start + n) % buffer_size) 0 ∷ []

-- What the buffer holds, the oldest octet first.
unfoldable pub contents : CircularBuffer → List ℕ
contents b = segment b.octets b.tail (count b)

length-segment : (xs : List ℕ) (start n : ℕ) → length (segment xs start n) ≡ n
length-segment xs start zero = refl
length-segment xs start (suc n) = omega (
  arith,
  length-append {0} (segment xs start n) (get_or xs ((start + n) % buffer_size) 0 ∷ []),
  length-segment xs start n,
)

-- A write outside a segment leaves the segment alone.
segment-set :
    (xs : List ℕ) (start n k i x : ℕ)
    → i ≡ (start + k) % buffer_size
    → n ≤ k
    → k < buffer_size
    → segment (set xs i x) start n ≡ segment xs start n
segment-set xs start zero k i x e hn hk = refl
segment-set xs start (suc n) k i x e hn hk =
    ap₂ (λ ys y. ys ++ y ∷ []) (segment-set xs start n k i x e (omega arith) hk)
      (get_or-set_ne xs i ((start + n) % buffer_size) x 0 (omega arith))

-- The oldest octet stands first.
segment-suc :
    (xs : List ℕ) (start n : ℕ)
    → start < buffer_size
    → segment xs start (suc n) ≡ get_or xs start 0 ∷ segment xs ((start + 1) % buffer_size) n
segment-suc xs start zero h = ap (λ i. get_or xs i 0 ∷ []) (omega arith)
segment-suc xs start (suc n) h =
    ap₂ (λ ys y. ys ++ y ∷ []) (segment-suc xs start n h) (ap (λ i. get_or xs i 0) (omega arith))

-- The buffer counts the octets that it holds.
pub length-contents : (b : CircularBuffer) → length (contents b) ≡ count b
unfolding contents
length-contents b = length-segment b.octets b.tail (count b)

-- A buffer whose array has 64 octets is valid and empty once it is initialised.
pub init_lem :
    (b : CircularBuffer)
    → length b.octets ≡ buffer_size
    → IsValid (init b) × (contents (init b) ≡ [])
unfolding init contents count
init_lem b h =
    (record { size = h; head_in = omega arith; tail_in = omega arith; full_at = λ e. cc }, refl)

count-le : (b : CircularBuffer) → IsValid b → count b ≤ buffer_size
unfolding count
count-le b v = ground arith

-- The next free octet is `count` places after the oldest one.
head_lem : (b : CircularBuffer) → IsValid b → (b.tail + count b) % buffer_size ≡ b.head
unfolding count
head_lem b v = ground (arith, v.full_at)

count-write :
    (b : CircularBuffer) (x : ℕ)
    → IsValid b
    → b.is_full ≡ false
    → count b < buffer_size × (count (write b x) ≡ suc (count b))
unfolding count write
count-write b x v h = ground arith

pub not_full :
    (b : CircularBuffer) → IsValid b → length (contents b) < buffer_size → b.is_full ≡ false
unfolding count
not_full b v h = ground (arith, length-contents b)

pub write-IsValid : (b : CircularBuffer) (x : ℕ) → IsValid b → IsValid (write b x)
unfolding write
write-IsValid b x v = ground (arith, length-set b.octets b.head x)

contents-write :
    (b : CircularBuffer) (x : ℕ)
    → IsValid b
    → b.is_full ≡ false
    → contents (write b x) ≡ contents b ++ x ∷ []
unfolding contents
contents-write b x v h = rw ((count-write b x v h).1) (unfold write in grown)
  where
    open b use {octets, head, tail}

    grown :
        segment (set octets head x) tail (suc (count b)) ≡ segment octets tail (count b) ++ x ∷ []
    grown =
        ap₂ (λ ys y. ys ++ y ∷ [])
          (segment-set octets tail (count b) (count b) head x (sym (head_lem b v)) (omega arith)
            (count-write b x v h).0)
          (rw (head_lem b v) (get_or-set_self octets head x 0 (omega arith)))

-- Writing to a valid buffer that is not full keeps it valid and puts the octet last.
pub write_lem :
    (b : CircularBuffer) (x : ℕ)
    → IsValid b
    → b.is_full ≡ false
    → IsValid (write b x) × (contents (write b x) ≡ contents b ++ x ∷ [])
write_lem b x v h = (write-IsValid b x v, contents-write b x v h)

count-read :
    (b : CircularBuffer)
    → IsValid b
    → count b ≢ 0
    → (count b ≡ suc (count (read b).1)) × IsValid (read b).1
unfolding count read
count-read b v h = ground (arith, v.full_at)

contents-read :
    (b : CircularBuffer) → IsValid b → count b ≢ 0 → contents b ≡ (read b).0 ∷ contents (read b).1
unfolding contents
contents-read b v h = rw ((count-read b v h).0) (
    segment-suc b.octets b.tail (count (read b).1) v.tail_in
    ∙ unfold read in
      ap (λ i. get_or b.octets b.tail 0 ∷ segment b.octets i (count (read b).1)) (omega arith))

count-ne-zero : (b : CircularBuffer) (x : ℕ) (xs : List ℕ) → contents b ≡ x ∷ xs → count b ≢ 0
count-ne-zero b x xs h = omega (arith, length-contents b, ap length h)

-- Reading a valid buffer that holds `x` first and `xs` behind it returns `x`, keeps the buffer valid
-- and leaves `xs`.
pub read_lem :
    (b : CircularBuffer) (x : ℕ) (xs : List ℕ)
    → IsValid b
    → contents b ≡ x ∷ xs
    → ((read b).0 ≡ x) × IsValid (read b).1 × (contents (read b).1 ≡ xs)
read_lem b x xs v h =
    let filled = count-ne-zero b x xs h in
    let split = contents-read b v filled in (cc, (count-read b v filled).1, cc)

-- `is_empty` and `is_full` say whether the buffer holds nothing, and whether it holds 64 octets.
pub is_empty_iff :
    (b : CircularBuffer)
    → IsValid b
    → ((is_empty b ≡ true) ↔ (count b ≡ 0)) × ((is_full b ≡ true) ↔ (count b ≡ buffer_size))
unfolding is_empty is_full count
is_empty_iff b v = ground (arith, v.full_at)
