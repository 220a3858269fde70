-- ===== src/Participants/Prepare.antt =====
-- `nimbleServerParticipantsPrepare` of src/lib/participants.c. It takes an id without the ring of
-- free ids, which the host migration fills anew afterwards.
use nimble_server_lib.Prelude.{
  ℕ, ◌+◌, ◌<◌, ◌≤◌, ◌≡◌, refl, ◌∙◌, pos, negsuc, true, false, List, [], ◌∷◌, some, arith, get_elem?,
  length, length-set, set, not_ltb, add_size, if◌then◌else◌, ◌==◌,
}
use nimble_server_lib.External.{StepsLib}
use nimble_server_lib.CircularBuffer.{buffer_size}
use nimble_server_lib.Participant.{Participant, ParticipantState}
use nimble_server_lib.Participant
use nimble_server_lib.Participants.{Participants, prepare, prepared}
use nimble_server_lib.Participants.Slots.{
  used_count, free_at, free_slot, used_count-set, free_at-set, Every, Every-set,
}
use nimble_server_lib.Participants.Inv.{SlotValid}

module _ {sl : StepsLib} where
  -- The part of the invariant that does not speak of the ring.
  pub record SlotsValid (ps : Participants sl) : Type 0 where
    pub size : length ps.participants ≡ ps.participant_capacity
    pub small : ps.participant_capacity < buffer_size
    pub slots : Every SlotValid ps.participants
    pub counted : ps.participant_count ≡ used_count ps.participants

  used_count-le : (ps : List (Participant sl)) → used_count ps ≤ length ps
  used_count-le [] = omega arith
  used_count-le (p ∷ ps) = ground (arith, used_count-le ps)

  -- What preparing an id has done: its slot, which was free, is in use by the participant of that id,
  -- which is in the party and waits for a rejoin; the other slots and the ring are as they were.
  pub record Prepared (ps : Participants sl) (id party : ℕ) (qs : Participants sl) : Type 0 where
    pub before : Participant sl
    pub slot : Participant sl
    pub was : get_elem? ps.participants id ≡ some before
    pub was_free : before.is_used ≡ false
    pub now : qs.participants ≡ set ps.participants id slot
    pub in_use : slot.is_used ≡ true
    pub waits : slot.state ≡ ParticipantState.waiting_for_rejoin
    pub its_id : slot.id ≡ id
    pub its_party : slot.in_party ≡ some party
    pub count : qs.participant_count ≡ ps.participant_count + 1
    pub valid : SlotsValid qs
    pub free :
        (j : ℕ) → free_at qs.participants j ≡ (if id == j then 0 else free_at ps.participants j)
    pub capacity : qs.participant_capacity ≡ ps.participant_capacity
    pub ring : qs.free_list ≡ ps.free_list

  -- An id whose slot is free is prepared: its slot is in use by the participant of that id, which is
  -- in the party and waits for a rejoin. The other slots and the ring of free ids stay as they are,
  -- and the count of the participants follows.
  pub prepare_lem :
      (ps : Participants sl) (id party step_id : ℕ)
      → SlotsValid ps
      → 0 < free_at ps.participants id
      → (qs : Participants sl) × (prepare ps id party step_id ≡ some (pos 0, id ∷ [], qs))
        × Prepared ps id party qs
  unfolding prepare prepared Participant.re_init
  prepare_lem ps id party step_id v h = (
    qs,
    rw (not_ltb ps.participant_capacity (add_size ps.participant_count 1) room, at, unused) refl,
    record {
      before = p;
      slot = q;
      was = at;
      was_free = unused;
      now = refl;
      in_use = refl;
      waits = refl;
      its_id = refl;
      its_party = refl;
      count = omega (arith, grown, below, v.size, v.counted, v.small);
      valid = valid;
      free = taken;
      capacity = refl;
      ring = refl;
    },
  )
    where
      found : (p : Participant sl) × (get_elem? ps.participants id ≡ some p) × (p.is_used ≡ false)
      found = free_slot ps.participants id h

      p : Participant sl
      p = found.0

      at : get_elem? ps.participants id ≡ some p
      at = found.1

      unused : p.is_used ≡ false
      unused = found.2

      q : Participant sl
      q = prepared p id party step_id

      q_used : q.is_used ≡ true
      q_used = refl

      qs : Participants sl
      qs = record ps {
        participants = set ps.participants id q;
        participant_count = add_size ps.participant_count 1;
      }

      grown : used_count (set ps.participants id q) ≡ used_count ps.participants + 1
      grown = ground (arith, used_count-set ps.participants id p q at, unused, q_used)

      below : used_count (set ps.participants id q) ≤ length ps.participants
      below =
          omega
            (arith, used_count-le (set ps.participants id q), length-set {0} ps.participants id q)

      room : add_size ps.participant_count 1 ≤ ps.participant_capacity
      room = omega (arith, grown, below, v.size, v.counted, v.small)

      valid : SlotsValid qs
      valid = record {
        size = length-set ps.participants id q ∙ v.size;
        small = v.small;
        slots = Every-set SlotValid ps.participants id q v.slots (refl, λ _. (party, refl));
        counted = omega (arith, grown, below, v.size, v.counted, v.small);
      }

      taken :
          (j : ℕ) → free_at qs.participants j ≡ (if id == j then 0 else free_at ps.participants j)
      taken j = ground (arith, free_at-set ps.participants id j p q at, q_used)

  -- An id whose slot is used is refused, and nothing changes.
  pub prepare_used :
      (ps : Participants sl) (id party step_id : ℕ) (p : Participant sl)
      → SlotsValid ps
      → ps.participant_count < ps.participant_capacity
      → get_elem? ps.participants id ≡ some p
      → p.is_used ≡ true
      → prepare ps id party step_id ≡ some (negsuc 1, [], ps)
  unfolding prepare Participant.re_init
  prepare_used ps id party step_id p v h at u =
      rw
        (
          not_ltb ps.participant_capacity (add_size ps.participant_count 1)
              (omega (arith, v.small)),
          at,
          u,
        )
        refl
