-- ===== src/Participants.antt =====
-- src/lib/participants.c and its header: the pool of participants of a game, and the ring of the
-- ids that are free.
-- The outer `none` of a result is undefined behaviour: an access outside the array of participants.
-- The log, and the assertions and messages that only log, are left out.
pub mod Slots
pub mod Inv
pub mod Join
pub mod Fill
pub mod Prepare
pub mod Queue
use nimble_server_lib.Prelude.{
  ℕ, zero, suc, ◌+◌, ℤ, pos, negsuc, ◌>>=◌, Bool, true, false, List, [], ◌∷◌, Option, none, some,
  get_elem?, set, ltb, leb, if◌then◌else◌, add_size, sub_size, to_u8,
}
use nimble_server_lib.External.{StepsLib, JoinPlayer}
use nimble_server_lib.CircularBuffer as Ring
use nimble_server_lib.CircularBuffer.{CircularBuffer}
use nimble_server_lib.Participant
use nimble_server_lib.Participant.{Participant, ParticipantState}
use nimble_server_lib.Errors.{err_session_full}

pub record Participants (sl : StepsLib) : Type 0 where
  pub participants : List (Participant sl)
  pub participant_capacity : ℕ
  pub participant_count : ℕ
  pub free_list : CircularBuffer

-- The loop over the `n` ids from `from` on that writes those which are not to be skipped to the ring,
-- as `uint8_t`. `nimbleServerParticipantsInit` skips none; the host migration skips the ids in use.
unfoldable pub write_ids : (ℕ → Bool) → CircularBuffer → ℕ → ℕ → CircularBuffer
write_ids skip b from zero = b
write_ids skip b from (suc n) =
    write_ids skip (if skip from then b else Ring.write b (to_u8 from)) (from + 1) n

unfoldable pub init_slots : (sl : StepsLib) → ℕ → ℕ → ℕ → List (Participant sl)
init_slots sl size from zero = []
init_slots sl size from (suc n) =
    Participant.init sl (to_u8 from) size ∷ init_slots sl size (from + 1) n

-- `memory` is what the ring's memory held before.
unfoldable pub init : (sl : StepsLib) → CircularBuffer → ℕ → ℕ → Participants sl
init sl memory max_count max_step_octet_size = record {
  participants = init_slots sl max_step_octet_size 0 max_count;
  participant_capacity = max_count;
  participant_count = 0;
  free_list = write_ids (λ _. false) (Ring.init memory) 0 max_count;
}

module _ {sl : StepsLib} where
  unfoldable pub destroy : Participants sl → ℕ → Option (Participants sl)
  destroy ps participant_id = do
    p ← get_elem? ps.participants participant_id
    some (record ps {
      participant_count = sub_size ps.participant_count 1;
      free_list = Ring.write ps.free_list participant_id;
      participants = set ps.participants participant_id (Participant.destroy p);
    })

  unfoldable pub prepared : Participant sl → ℕ → ℕ → ℕ → Participant sl
  prepared p participant_id party step_id = record (Participant.re_init p party step_id) {
    local_index = 0;
    is_used = true;
    state = ParticipantState.waiting_for_rejoin;
    id = participant_id;
  }

  -- The result, the participants that were created, and the new collection.
  unfoldable pub prepare : Participants sl → ℕ → ℕ → ℕ → Option (ℤ × List ℕ × Participants sl)
  unfolding prepared
  prepare ps participant_id party step_id =
      if ltb ps.participant_capacity (add_size ps.participant_count 1)
      then some (err_session_full, [], ps)
      else do
        p ← get_elem? ps.participants participant_id
        if p.is_used
            then some (negsuc 1, [], ps)
            else some (
              pos 0,
              participant_id ∷ [],
              record ps {
                participants =
                    set ps.participants participant_id (prepared p participant_id party step_id);
                participant_count = add_size ps.participant_count 1;
              },
            )

  -- `none` is NULL.
  unfoldable pub find : Participants sl → ℕ → Option ℕ
  find ps participant_id =
      if leb ps.participant_capacity participant_id then none else some participant_id

  unfoldable pub joined : Participant sl → ℕ → ℕ → ℕ → ℕ → Participant sl
  joined p participant_id local_index party step_id = record (Participant.re_init p party step_id) {
    local_index = local_index;
    is_used = true;
    state = ParticipantState.just_joined;
    id = participant_id;
  }

  unfoldable pub join :
      Participants sl → List JoinPlayer → ℕ → ℕ → ℕ → Option (ℤ × List ℕ × Participants sl)
  unfolding joined
  join ps local_players local_participant_count party step_id =
      if ltb ps.participant_capacity (add_size ps.participant_count local_participant_count)
      then some (err_session_full, [], ps)
      else let (participant_id, free_list) = Ring.read ps.free_list in
        do
          p ← get_elem? ps.participants participant_id
          player ← get_elem? local_players 0
          some (
            pos 0,
            participant_id ∷ [],
            record ps {
              free_list = free_list;
              participants =
                  set ps.participants participant_id
                    (joined p participant_id player.local_index party step_id);
              participant_count = add_size ps.participant_count 1;
            },
          )
