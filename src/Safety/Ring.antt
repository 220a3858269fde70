-- ===== src/Safety/Ring.antt =====
-- The list of free connections of src/lib/server.c.
use nimble_server_lib.Prelude.{
  ℕ, ◌<◌, ◌≡◌, sym, subst, refl, false, List, [], ◌∷◌, arith, All, All-append, Bool-cases, inl, inr,
}
use nimble_server_lib.CircularBuffer.{CircularBuffer, write, read, is_empty}
use nimble_server_lib.CircularBuffer.Fifo.{
  contents, write-IsValid, write_lem, read_lem, length-contents,
}
use nimble_server_lib.CircularBuffer.Fifo as Fifo
use nimble_server_lib.CircularBuffer.Overrun.{write_full}
use nimble_server_lib.Safety.Valid.{RingValid}

-- The index of a connection may be written, also to a full list, which then forgets the others.
pub write-RingValid : (b : CircularBuffer) (x : ℕ) → RingValid b → x < 64 → RingValid (write b x)
write-RingValid b x v h = record {
  ring = write-IsValid b x v.ring;
  small = elim (Bool-cases b.is_full) [
    | inl full ↦ subst (All (λ i. i < 64)) (sym (write_full b x v.ring full)) (h, tt)
    | inr room ↦
        subst (All (λ i. i < 64)) (sym (write_lem b x v.ring room).1)
          (All-append (λ i. i < 64) (contents b) (x ∷ []) v.small (h, tt))
  ];
}

-- What is read from a list that is not empty is the index of a connection.
pub read-RingValid :
    (b : CircularBuffer)
    → RingValid b
    → is_empty b ≡ false
    → ((read b).0 < 64) × RingValid (read b).1
read-RingValid b v h = taken (contents b) refl
  where
    taken : (xs : List ℕ) → contents b ≡ xs → ((read b).0 < 64) × RingValid (read b).1
    taken [] e = absurd (ground (arith, length-contents b, Fifo.is_empty_iff b v.ring, e, h))
    taken (x ∷ xs) e =
        let (first, valid, rest) = read_lem b x xs v.ring e in
        let small = subst (All (λ i. i < 64)) e v.small in
        (
          omega (arith, first, small.0),
          record { ring = valid; small = subst (All (λ i. i < 64)) (sym rest) small.1 },
        )
