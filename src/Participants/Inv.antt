-- ===== src/Participants/Inv.antt =====
-- The invariant of src/lib/participants.c: the slots carry their ids, the count is the number of
-- used slots, and the ring holds the id of each free slot once.
use nimble_server_lib.Prelude.{
  ℕ, ◌+◌, ◌<◌, ◌≡◌, refl, ◌∙◌, true, [], ◌∷◌, ◌++◌, some, arith, get_elem?, length, length-append,
  length-set, set, occurrences, occurrences-append, sub_size, ◌>>=◌,
}
use nimble_server_lib.External.{StepsLib}
use nimble_server_lib.CircularBuffer.{CircularBuffer, buffer_size}
use nimble_server_lib.CircularBuffer as Ring
use nimble_server_lib.CircularBuffer.Fifo.{contents, length-contents, write_lem, not_full}
use nimble_server_lib.CircularBuffer.Fifo as Fifo
use nimble_server_lib.Participant
use nimble_server_lib.Participant.{Participant}
use nimble_server_lib.Participants.{Participants, destroy}
use nimble_server_lib.Participants.Slots.{
  used_count, free_at, used_count-set, free_at-set, free_at-of, Every, Every-set,
}

module _ {sl : StepsLib} where
  -- A slot carries its index as its id, and a used one is in a party.
  abbrev pub SlotValid : ℕ → Participant sl → Type 0
  SlotValid i p = (p.id ≡ i) × (p.is_used ≡ true → (party : ℕ) × (p.in_party ≡ some party))

  pub record IsValid (ps : Participants sl) : Type 0 where
    pub size : length ps.participants ≡ ps.participant_capacity
    pub small : ps.participant_capacity < buffer_size
    pub slots : Every SlotValid ps.participants
    pub counted : ps.participant_count ≡ used_count ps.participants
    pub ring : Fifo.IsValid ps.free_list
    pub free : (i : ℕ) → occurrences i (contents ps.free_list) ≡ free_at ps.participants i
    pub balance : length (contents ps.free_list) + ps.participant_count ≡ ps.participant_capacity

  -- In a valid collection the slot of a used participant can be destroyed: the collection stays
  -- valid, has one participant less and the same capacity, no other slot changes, and the slot's id
  -- goes to the end of the free ids.
  pub destroy-IsValid :
      (ps : Participants sl) (i : ℕ) (p : Participant sl)
      → IsValid ps
      → get_elem? ps.participants i ≡ some p
      → p.is_used ≡ true
      → (qs : Participants sl) × (destroy ps i ≡ some qs)
        × IsValid qs
        × (qs.participant_count + 1 ≡ ps.participant_count)
        × (qs.participants ≡ set ps.participants i (Participant.destroy p))
        × (qs.participant_capacity ≡ ps.participant_capacity)
        × (contents qs.free_list ≡ contents ps.free_list ++ i ∷ [])
  unfolding destroy Participant.destroy
  destroy-IsValid ps i p v h u =
      (qs, rw (h, ◌>>=◌) (refl), valid, omega (arith, fewer), refl, refl, ring.1)
    where
      d : Participant sl
      d = Participant.destroy p

      b : CircularBuffer
      b = ps.free_list

      qs : Participants sl
      qs = record ps {
        participant_count = sub_size ps.participant_count 1;
        free_list = Ring.write b i;
        participants = set ps.participants i d;
      }

      fewer : used_count (set ps.participants i d) + 1 ≡ used_count ps.participants
      fewer = ground (arith, used_count-set ps.participants i p d h)

      ring : Fifo.IsValid (Ring.write b i) × (contents (Ring.write b i) ≡ contents b ++ i ∷ [])
      ring = write_lem b i v.ring (not_full b v.ring (omega (arith, fewer)))

      valid : IsValid qs
      valid = record {
        size = length-set ps.participants i d ∙ v.size;
        small = v.small;
        slots = Every-set SlotValid ps.participants i d v.slots ((v.slots i p h).0, λ e. cc);
        counted = omega (arith, fewer);
        ring = ring.0;
        free = λ j. ground (
          arith,
          ring.1,
          v.free j,
          occurrences-append j (contents b) (i ∷ []),
          free_at-set ps.participants i j p d h,
          free_at-of ps.participants i p h,
        );
        balance = ground (arith, ring.1, length-append (contents b) (i ∷ []), fewer);
      }
