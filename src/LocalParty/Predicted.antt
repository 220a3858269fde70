-- ===== src/LocalParty/Predicted.antt =====
-- `nimbleServerLocalPartyDeserializePredictedSteps` of src/lib/local_party.c, and
-- `nimbleServerParticipantDeserializeSingleStep` of src/lib/participant.c: the predicted steps of a
-- datagram move to the participants' buffers. `nbsStepsDropped` only feeds the log and is left out.
use nimble_server_lib.Prelude.{
  ℕ, zero, suc, ℤ, pos, negsuc, is_negative, ◌>>=◌, List, Option, some, get_elem?, set, length, ltb,
  leb, ◌==◌, if◌then◌else◌, add_size, add_u32, sub_u32,
}
use nimble_server_lib.External.{StepsLib, StatsLib, InStreamLib}
use nimble_server_lib.Participant.{Participant}
use nimble_server_lib.Quality
use nimble_server_lib.LocalParty.{LocalParty}

-- The octet count or step count of a result that is not negative.
abbrev pub value : ℤ → ℕ
value (pos n) = n
value (negsuc n) = 0

module _ {sl : StepsLib} (in_lib : InStreamLib sl) where
  unfoldable pub deserialize_single_step :
      Participant sl → ℕ → in_lib.InStream → ℤ × in_lib.InStream × Participant sl
  deserialize_single_step p step_id stream =
      let (result, stream', steps) = in_lib.steps_in_single stream step_id p.steps in
      (result, stream', record p { steps = steps })

  -- The loop over the `n` steps from `step_id` on, with the number of steps added so far: the error
  -- that stopped it, or else 0, and the number of steps added.
  unfoldable pub read_steps :
      ℕ → ℕ → ℕ → Participant sl → in_lib.InStream → ℤ × ℕ × in_lib.InStream × Participant sl
  unfolding deserialize_single_step
  read_steps zero step_id total p stream = (pos 0, total, stream, p)
  read_steps (suc n) step_id total p stream =
      let (result, stream', p') = deserialize_single_step p step_id stream in
      let rest = read_steps n (add_u32 step_id 1) (add_size total (value result)) p' stream' in
      if is_negative result then (result, total, stream', p') else rest

module _ {st : StatsLib} {sl : StepsLib} where
  -- What a party takes note of once its participant's steps are in: `total` steps were added.
  unfoldable pub note_added : LocalParty st → Participant sl → ℕ → LocalParty st
  note_added party p total =
      if total == 0
      then record party {
        warning_about_zero_added_steps = add_u32 party.warning_about_zero_added_steps 1;
      }
      else let up_to : ℕ = sub_u32 (sl.expected_write_id p.steps) 1 in
        let quality = Quality.added_steps_to_buffer party.quality total in
        if ltb party.highest_received_step_id up_to
        then record party {
          quality = quality;
          highest_received_step_id = up_to;
          steps_in_buffer_count = sl.steps_count p.steps;
        }
        else record party { quality = quality }

-- A result, the party, the participants and the rest of the stream.
abbrev pub Outcome : (st : StatsLib) {sl : StepsLib} → InStreamLib sl → Type 0
Outcome st {sl} in_lib = ℤ × LocalParty st × List (Participant sl) × in_lib.InStream

module _ {st : StatsLib} {sl : StepsLib} (in_lib : InStreamLib sl) where
  -- One round of the outer loop: the steps of one participant.
  unfoldable pub read_participant :
      LocalParty st → List (Participant sl) → in_lib.InStream → Option (Outcome st in_lib)
  unfolding read_steps note_added
  read_participant party ps stream =
      let (participant_index, stream₁) = in_lib.read_u8 stream in
      if leb (length party.participant_references) participant_index
      then some (negsuc 3, party, ps, stream₁)
      else do
        r ← get_elem? party.participant_references participant_index
        p ← get_elem? ps r
        let (header, first_step_id, steps_that_follow, stream₂) = in_lib.steps_in_header stream₁
        let (result, total, stream₃, p') =
            read_steps in_lib steps_that_follow first_step_id 0 p stream₂
        if is_negative header
            then some (header, party, ps, stream₂)
            else if is_negative result
            then some (result, party, set ps r p', stream₃)
            else some (pos 0, note_added party p' total, set ps r p', stream₃)

  unfoldable pub read_participants :
      ℕ → LocalParty st → List (Participant sl) → in_lib.InStream → Option (Outcome st in_lib)
  unfolding read_participant
  read_participants zero party ps stream = some (pos 0, party, ps, stream)
  read_participants (suc n) party ps stream = do
    (result, party', ps', stream') ← read_participant party ps stream
    let rest = read_participants n party' ps' stream'
    if is_negative result then some (result, party', ps', stream') else rest

  unfoldable pub deserialize_predicted_steps :
      LocalParty st → List (Participant sl) → in_lib.InStream → Option (Outcome st in_lib)
  unfolding read_participants
  deserialize_predicted_steps party ps stream =
      let (participant_count, stream') = in_lib.read_u8 stream in
      read_participants participant_count party ps stream'
