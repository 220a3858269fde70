-- ===== src/Participants/Fill.antt =====
-- How the ring of free ids is filled, in `nimbleServerParticipantsInit` of src/lib/participants.c and
-- at the end of `nimbleServerHostMigration` of src/lib/server.c; and that a new collection is valid.
use nimble_server_lib.Prelude.{
  ℕ, zero, suc, ◌+◌, ◌<◌, ◌≤◌, ◌≡◌, refl, ap, ◌∙◌, Bool, false, not, ◌&&◌, List, [], ◌∷◌, ◌++◌,
  arith, length, length-append, occurrences, to_u8, if◌then◌else◌, ◌==◌, leb, ltb, to_ℕ, Bool-cases,
  inl, inr, ==→eq, dec_lt,
}
use native.Mathlib.Nat.{add-zero}
use mathlib.Core.List.{append-nil, append_assoc}
use nimble_server_lib.External.{StepsLib}
use nimble_server_lib.CircularBuffer.{CircularBuffer, buffer_size}
use nimble_server_lib.CircularBuffer as Ring
use nimble_server_lib.CircularBuffer.Fifo.{contents, length-contents, write_lem, not_full, init_lem}
use nimble_server_lib.CircularBuffer.Fifo as Fifo
use nimble_server_lib.Participant
use nimble_server_lib.Participant.{Participant}
use nimble_server_lib.Participants.{Participants, init, init_slots, write_ids}
use nimble_server_lib.Participants.Slots.{used_count, free_at, Every}
use nimble_server_lib.Participants.Inv.{IsValid, SlotValid}

-- The ids from `from` on, `n` of them, that are not skipped.
abbrev pub kept : (ℕ → Bool) → ℕ → ℕ → List ℕ
kept skip from zero = []
kept skip from (suc n) =
    let rest = kept skip (from + 1) n in if skip from then rest else from ∷ rest

pub length-kept-le : (skip : ℕ → Bool) (from n : ℕ) → length (kept skip from n) ≤ n
length-kept-le skip from zero = omega arith
length-kept-le skip from (suc n) = ground (arith, length-kept-le skip (from + 1) n)

pub occurrences-kept :
    (skip : ℕ → Bool) (from n j : ℕ)
    → occurrences j (kept skip from n)
      ≡ (if leb from j && ltb j (from + n) then to_ℕ (not (skip j)) else 0)
occurrences-kept skip from zero j = ground arith
occurrences-kept skip from (suc n) j = elim (Bool-cases (from == j)) [
  | inl same ↦
      let e : from ≡ j = ==→eq from j same in
      ground (arith, occurrences-kept skip (from + 1) n j, e, ap skip e)
  | inr other ↦ ground (arith, occurrences-kept skip (from + 1) n j)
]

-- The loop appends the ids that it does not skip, in order, to a ring with room for all.
pub write_ids_lem :
    (skip : ℕ → Bool) (b : CircularBuffer) (from n : ℕ)
    → Fifo.IsValid b
    → length (contents b) + n ≤ buffer_size
    → from + n ≤ 256
    → Fifo.IsValid (write_ids skip b from n)
      × (contents (write_ids skip b from n) ≡ contents b ++ kept skip from n)
unfolding write_ids
write_ids_lem skip b from zero v h f = (v, simp append-nil)
write_ids_lem skip b from (suc n) v h f = elim (Bool-cases (skip from)) [
  | inl yes_skip ↦ rw yes_skip (write_ids_lem skip b (from + 1) n v (omega arith) (omega arith))
  | inr no_skip ↦
      let small : to_u8 from ≡ from = omega arith in
      let step = write_lem b from v (not_full b v (omega arith)) in
      let longer = ap length step.1 ∙ length-append (contents b) (from ∷ []) in
      let rest =
        write_ids_lem skip (Ring.write b from) (from + 1) n step.0 (omega (arith, longer))
          (omega arith) in
      rw (no_skip, small)
        (
          rest.0,
          rest.1
              ∙ ap (λ ys. ys ++ kept skip (from + 1) n) step.1
              ∙ append_assoc (contents b) (from ∷ []) (kept skip (from + 1) n),
        )
]

module _ {sl : StepsLib} where
  -- The slots that are not used are those whose ids are not skipped.
  abbrev pub Agrees : (ℕ → Bool) → ℕ → List (Participant sl) → Type 0
  Agrees skip from ps = (i : ℕ) → i < length ps → free_at ps i ≡ to_ℕ (not (skip (from + i)))

  free_at_out_of_range : (ps : List (Participant sl)) (i : ℕ) → length ps ≤ i → free_at ps i ≡ 0
  free_at_out_of_range [] i h = refl
  free_at_out_of_range (p ∷ ps) zero h = absurd (omega arith)
  free_at_out_of_range (p ∷ ps) (suc i) h = free_at_out_of_range ps i (omega arith)

  used_count-kept :
      (skip : ℕ → Bool) (from : ℕ) (ps : List (Participant sl))
      → Agrees skip from ps
      → length (kept skip from (length ps)) + used_count ps ≡ length ps
  used_count-kept skip from [] h = refl
  used_count-kept skip from (p ∷ ps) h =
      ground (arith, used_count-kept skip (from + 1) ps shifted, h 0 (omega arith), add-zero from)
    where
      shifted : Agrees skip (from + 1) ps
      shifted i l =
          let e : from + suc i ≡ from + 1 + i = omega arith in rw (← e) (h (suc i) (omega arith))

  -- A collection whose slots are in order becomes valid once the free ids are written to an empty
  -- ring.
  pub filled-IsValid :
      (skip : ℕ → Bool) (ps : Participants sl) (b : CircularBuffer)
      → length ps.participants ≡ ps.participant_capacity
      → ps.participant_capacity < buffer_size
      → Every SlotValid ps.participants
      → ps.participant_count ≡ used_count ps.participants
      → Agrees skip 0 ps.participants
      → Fifo.IsValid b
      → contents b ≡ []
      → IsValid (record ps { free_list = write_ids skip b 0 ps.participant_capacity })
  filled-IsValid skip ps b size small slots counted agrees v e = record {
    size = size;
    small = small;
    slots = slots;
    counted = counted;
    ring = filled.0;
    free = λ i. elim (dec_lt i (length ps.participants)) [
      | yes l ↦
          ground (arith, all_kept, occurrences-kept skip 0 ps.participant_capacity i, agrees i l)
      | no l ↦ ground (
        arith,
        all_kept,
        occurrences-kept skip 0 ps.participant_capacity i,
        free_at_out_of_range ps.participants i (omega arith),
      )
    ];
    balance = ground (arith, all_kept, used_count-kept skip 0 ps.participants agrees);
  }
    where
      filled :
          Fifo.IsValid (write_ids skip b 0 ps.participant_capacity)
          × (contents (write_ids skip b 0 ps.participant_capacity)
              ≡ contents b ++ kept skip 0 ps.participant_capacity)
      filled =
          write_ids_lem skip b 0 ps.participant_capacity v (omega (arith, ap length e))
            (omega arith)

      all_kept :
          contents (write_ids skip b 0 ps.participant_capacity)
          ≡ kept skip 0 ps.participant_capacity
      all_kept = filled.1 ∙ ap (λ ys. ys ++ kept skip 0 ps.participant_capacity) e

module _ (sl : StepsLib) where
  pub length-init_slots : (size from n : ℕ) → length (init_slots sl size from n) ≡ n
  unfolding init_slots
  length-init_slots size from zero = refl
  length-init_slots size from (suc n) = ap suc (length-init_slots size (from + 1) n)

  used_count-init_slots : (size from n : ℕ) → used_count (init_slots sl size from n) ≡ 0
  unfolding init_slots Participant.init
  used_count-init_slots size from zero = refl
  used_count-init_slots size from (suc n) = omega (arith, used_count-init_slots size (from + 1) n)

  pub free_at-init_slots : (size from n i : ℕ) → i < n → free_at (init_slots sl size from n) i ≡ 1
  unfolding init_slots Participant.init
  free_at-init_slots size from zero i h = absurd (omega arith)
  free_at-init_slots size from (suc n) zero h = refl
  free_at-init_slots size from (suc n) (suc i) h =
      free_at-init_slots size (from + 1) n i (omega arith)

  pub init_slots-SlotValid :
      (size from n : ℕ)
      → from + n ≤ 256
      → Every (λ i p. (p.id ≡ from + i) × (p.is_used ≡ false)) (init_slots sl size from n)
  unfolding init_slots Participant.init
  init_slots-SlotValid size from zero h i p e = absurd (cc)
  init_slots-SlotValid size from (suc n) h zero p e = ground arith
  init_slots-SlotValid size from (suc n) h (suc i) p e =
      let rest = init_slots-SlotValid size (from + 1) n (omega arith) i p e in
      (omega (arith, rest.0), rest.1)

  -- A new collection of fewer than 64 participants is valid, and nobody is in it.
  pub init-IsValid :
      (memory : CircularBuffer) (n size : ℕ)
      → length memory.octets ≡ buffer_size
      → n < buffer_size
      → IsValid (init sl memory n size) × ((init sl memory n size).participant_count ≡ 0)
  unfolding init
  init-IsValid memory n size m h =
      let ready = init_lem memory m in
      (
        filled-IsValid (λ _. false)
            (record {
              participants = init_slots sl size 0 n;
              participant_capacity = n;
              participant_count = 0;
              free_list = memory;
            })
            (Ring.init memory) (length-init_slots size 0 n) h
            (λ i p e.
              let s = init_slots-SlotValid size 0 n (omega arith) i p e in
              (omega (arith, s.0), λ u. cc))
            (omega (arith, used_count-init_slots size 0 n))
            (λ i l. free_at-init_slots size 0 n i (omega (arith, length-init_slots size 0 n)))
            ready.0 ready.1,
        refl,
      )
