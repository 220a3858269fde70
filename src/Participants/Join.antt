-- ===== src/Participants/Join.antt =====
-- `nimbleServerParticipantsJoin` of src/lib/participants.c on a valid collection.
use nimble_server_lib.Prelude.{
  ℕ, ◌+◌, ◌^◌, ◌<◌, ◌≡◌, refl, ap, ◌∙◌, sym, pos, true, false, List, [], ◌∷◌, some, arith,
  get_elem?, length, length-set, set, not_ltb, lt→ltb, add_size,
}
use nimble_server_lib.Errors.{err_session_full}
use nimble_server_lib.External.{StepsLib, JoinPlayer}
use nimble_server_lib.CircularBuffer.{CircularBuffer, buffer_size}
use nimble_server_lib.CircularBuffer as Ring
use nimble_server_lib.CircularBuffer.Fifo.{contents, read_lem}
use nimble_server_lib.CircularBuffer.Fifo as Fifo
use nimble_server_lib.Participant.{Participant}
use nimble_server_lib.Participant
use nimble_server_lib.Participants.{Participants, join, joined}
use nimble_server_lib.Participants.Slots.{
  free_at, free_slot, free_at-of, used_count-set, free_at-set, Every-set,
}
use nimble_server_lib.Participants.Inv.{IsValid, SlotValid}

-- A list that is not empty, taken apart.
uncons : (xs : List ℕ) → 0 < length xs → (x : ℕ) × (ys : List ℕ) × (xs ≡ x ∷ ys)
uncons [] h = absurd (omega arith)
uncons (x ∷ ys) h = (x, ys, refl)

module _ {sl : StepsLib} where
  -- In a collection that is full nobody joins: the error tells, and nothing changes.
  pub join-full :
      (ps : Participants sl) (players : List JoinPlayer) (n party step_id : ℕ)
      → ps.participant_count + n < 2 ^ 64
      → ps.participant_capacity < ps.participant_count + n
      → join ps players n party step_id ≡ some (err_session_full, [], ps)
  unfolding join
  join-full ps players n party step_id w h =
      rw (lt→ltb ps.participant_capacity (add_size ps.participant_count n) (omega arith))

  -- What a join has done: slot `id` was free and holds the new participant, the collection is
  -- valid with one participant more, and `id` was the oldest free id.
  pub record Joined (ps : Participants sl) (local_index party step_id : ℕ) (id : ℕ)
      (qs : Participants sl) : Type 0 where
    pub slot : Participant sl
    pub was : get_elem? ps.participants id ≡ some slot
    pub was_free : slot.is_used ≡ false
    pub now : qs.participants ≡ set ps.participants id (joined slot id local_index party step_id)
    pub more : qs.participant_count ≡ ps.participant_count + 1
    pub oldest : contents ps.free_list ≡ id ∷ contents qs.free_list
    pub valid : IsValid qs

  -- With room left in a valid collection one participant joins, in a slot that was free.
  pub join-Joined :
      (ps : Participants sl) (player : JoinPlayer) (players : List JoinPlayer) (party step_id : ℕ)
      → IsValid ps
      → ps.participant_count < ps.participant_capacity
      → (id : ℕ) × (qs : Participants sl) × (join ps (player ∷ players) 1 party step_id
          ≡ some (pos 0, id ∷ [], qs))
        × Joined ps player.local_index party step_id id qs
  unfolding join
  join-Joined ps player players party step_id v h = (
    id,
    qs,
    result,
    record {
      slot = p;
      was = at;
      was_free = unused;
      now = refl;
      more = omega (arith, v.small);
      oldest = split ∙ ap (λ ys. id ∷ ys) (sym taken.2);
      valid = valid;
    },
  )
    where
      b : CircularBuffer
      b = ps.free_list

      first : (x : ℕ) × (ys : List ℕ) × (contents b ≡ x ∷ ys)
      first = uncons (contents b) (omega (arith, v.balance))

      id : ℕ
      id = first.0

      split : contents b ≡ id ∷ first.1
      split = first.2

      taken :
          ((Ring.read b).0 ≡ id)
          × Fifo.IsValid (Ring.read b).1
          × (contents (Ring.read b).1 ≡ first.1)
      taken = read_lem b id first.1 v.ring split

      room : 0 < free_at ps.participants id
      room = ground (arith, split, v.free id)

      found : (p : Participant sl) × (get_elem? ps.participants id ≡ some p) × (p.is_used ≡ false)
      found = free_slot ps.participants id room

      p : Participant sl
      p = found.0

      at : get_elem? ps.participants id ≡ some p
      at = found.1

      unused : p.is_used ≡ false
      unused = found.2

      q : Participant sl
      q = joined p id player.local_index party step_id

      qs : Participants sl
      qs = record ps {
        free_list = (Ring.read b).1;
        participants = set ps.participants id q;
        participant_count = add_size ps.participant_count 1;
      }

      result : join ps (player ∷ players) 1 party step_id ≡ some (pos 0, id ∷ [], qs)
      result =
          rw
            (
              not_ltb ps.participant_capacity (add_size ps.participant_count 1) (omega arith),
              taken.0,
              at,
            )
            refl

      q_used : q.is_used ≡ true
      q_used = unfold joined in refl

      valid : IsValid qs
      valid = record {
        size = length-set ps.participants id q ∙ v.size;
        small = v.small;
        slots =
            Every-set SlotValid ps.participants id q v.slots
              (unfold joined Participant.re_init in (refl, λ _. (party, refl)));
        counted =
            ground
              (arith, v.counted, used_count-set ps.participants id p q at, q_used, v.small, unused);
        ring = taken.1;
        free = λ j. ground (
          arith,
          taken.2,
          split,
          v.free j,
          q_used,
          unused,
          free_at-set ps.participants id j p q at,
          free_at-of ps.participants id p at,
        );
        balance = ground (arith, taken.2, split, v.balance, v.small);
      }
