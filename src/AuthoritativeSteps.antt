-- ===== src/AuthoritativeSteps.antt =====
-- The second half of src/lib/authoritative_steps.c: weaving the participants' predicted steps into authoritative steps.
-- The outer `none` of a result is undefined behaviour: an access outside an array, or the use of a
-- participant's party where it has none. The log and the count that only an assertion reads are
-- left out.
pub mod Slot
pub mod Entry
pub mod One
pub mod Round
pub mod Loop
use Prim.Native.Nat.{bit_or}
use nimble_server_lib.Prelude.{
  ℕ, zero, suc, ◌+◌, ◌/◌, ℤ, pos, negsuc, is_negative, eqb_ℤ, ◌>>=◌, Bool, true, false, ◌&&◌, ◌||◌,
  not, List, [], ◌∷◌, Option, none, some, get_elem?, set, take, ltb, leb, ◌==◌, if◌then◌else◌,
  add_size, sub_u32, add_u32, to_u8,
}
use nimble_server_lib.External.{External, StepsLib, StatsLib, StepType}
use nimble_server_lib.Quality.{ConnectionQuality, added_forced_steps, provided_usable_step}
use nimble_server_lib.Participant.{Participant, ParticipantState}
use nimble_server_lib.Participants
use nimble_server_lib.Participants.{Participants}
use nimble_server_lib.LocalParty.{LocalParty}
use nimble_server_lib.Game.{Game}
use nimble_server_lib.Advance.{should_advance_authoritative}

-- What composing a step changes: the participants, the parties' qualities and the stream.
pub record Weave (e : External) : Type 0 where
  pub participants : Participants e.steps
  pub parties : List (LocalParty e.stats)
  pub stream : e.out.OutStream

abbrev pub is_normal : StepType → Bool
is_normal StepType.normal = true
is_normal StepType.step_not_provided_in_time = false
is_normal StepType.waiting_for_rejoin = false
is_normal StepType.joined = false
is_normal StepType.left = false

abbrev pub is_joined : StepType → Bool
is_joined StepType.joined = true
is_joined StepType.normal = false
is_joined StepType.step_not_provided_in_time = false
is_joined StepType.waiting_for_rejoin = false
is_joined StepType.left = false

-- `result <= 0`
abbrev pub not_positive : ℤ → Bool
not_positive (pos n) = n == 0
not_positive (negsuc n) = true

module _ {st : StatsLib} where
  -- `inParty->quality` changes.
  unfoldable pub rate :
      (ConnectionQuality → ConnectionQuality)
      → Option ℕ
      → List (LocalParty st)
      → Option (List (LocalParty st))
  rate f none parties = none
  rate f (some i) parties = do
    party ← get_elem? parties i
    some (set parties i (record party { quality = f party.quality }))

  -- `inParty->id`.
  unfoldable pub party_id : Option ℕ → List (LocalParty st) → Option ℕ
  party_id none parties = none
  party_id (some i) parties = do party ← get_elem? parties i; some party.id

module _ {sl : StepsLib} where
  -- The switch on the participant's state, after its slot `i` was written back.
  unfoldable pub settle_state :
      Participants sl → ℕ → Participant sl → StepType → Option (StepType × Participants sl)
  settle_state ps i p read = elim p.state [
    | ParticipantState.waiting_for_rejoin ↦ some (StepType.waiting_for_rejoin, ps)
    | ParticipantState.just_joined ↦ some (
      StepType.joined,
      record ps {
        participants = set ps.participants i (record p { state = ParticipantState.normal });
      },
    )
    | ParticipantState.leaving ↦ Participants.destroy ps p.id >>= λ ps'. some (StepType.left, ps')
    | ParticipantState.normal ↦ some (read, ps)
    | ParticipantState.destroyed ↦ some (read, ps)
  ]

-- A result, the game and the parties.
abbrev pub Composed : External → Type 0
Composed e = ℤ × Game e.steps × List (LocalParty e.stats)

module _ (e : External) where
  open e.steps use {steps_read_exact, err_collection_is_empty, convert_u8}
  open e.out use {OutStream, write_u8, write_octets}

  -- The step of one participant: how it goes into the authoritative step, its number of octets and
  -- the buffer that holds them. An error other than an empty collection is logged, and rates nobody.
  unfoldable pub read_step :
      Participant e.steps
      → ℕ
      → List (LocalParty e.stats)
      → Option (StepType × ℕ × List ℕ × Participant e.steps × List (LocalParty e.stats))
  unfolding rate
  read_step p looking_for parties =
      let (result, buffer, steps) = steps_read_exact p.steps looking_for 1024 in
      let p' = record p { steps = steps } in
      if is_negative result
      then if eqb_ℤ result err_collection_is_empty
        then (do
          parties' ← rate (λ q. added_forced_steps q 1) p.in_party parties
          some (StepType.step_not_provided_in_time, convert_u8 (pos 0), buffer, p', parties'))
        else some (StepType.normal, convert_u8 result, buffer, p', parties)
      else do
        parties' ← rate provided_usable_step p.in_party parties
        some (StepType.normal, convert_u8 result, buffer, p', parties')

  -- What follows the first octet of an entry whose kind is not normal.
  unfoldable pub write_kind :
      Participant e.steps → StepType → List (LocalParty e.stats) → OutStream → Option OutStream
  unfolding party_id
  write_kind p kind parties stream =
      let stream' = (write_u8 stream (to_u8 (e.serialize.step_type_code kind))).1 in
      if is_joined kind
      then (do id ← party_id p.in_party parties; some (write_u8 stream' id).1)
      else some stream'

  unfoldable pub write_payload : StepType → ℕ → List ℕ → OutStream → OutStream
  write_payload kind count buffer stream =
      if is_normal kind || is_joined kind
      then (write_octets (write_u8 stream count).1 (take (convert_u8 (pos count)) buffer)).1
      else stream

  -- An entry: the id with the top bit as a mask, what follows it, and the octets of the step.
  unfoldable pub write_entry :
      Participant e.steps
      → StepType
      → ℕ
      → List ℕ
      → List (LocalParty e.stats)
      → OutStream
      → Option (ℤ × OutStream)
  unfolding write_kind write_payload
  write_entry p kind count buffer parties stream =
      let mask : ℕ = if is_normal kind then 0 else 0x80 in
      let (result, stream') = write_u8 stream (bit_or mask p.id) in
      if is_negative result then some (result, stream') else do
        stream'' ← (if is_normal kind then some stream' else write_kind p kind parties stream')
        some (pos 0, write_payload kind count buffer stream'')

  -- One round of the loop over the slots, for a slot that is used.
  unfoldable pub compose_used : ℕ → ℕ → Weave e → Participant e.steps → Option (ℤ × Weave e)
  compose_used looking_for i w p = do
    (read, count, buffer, p', parties) ← read_step p looking_for w.parties
    let ps = record (w.participants) { participants = set w.participants.participants i p' }
    (kind, ps') ← settle_state ps i p' read
    (result, stream) ← write_entry p' kind count buffer parties w.stream
    some (result, record { participants = ps'; parties = parties; stream = stream })

  unfoldable pub compose_slot : ℕ → ℕ → Weave e → Option (ℤ × Weave e)
  compose_slot looking_for i w = do
    p ← get_elem? w.participants.participants i
    if not p.is_used then some (pos 0, w) else compose_used looking_for i w p

  -- The `n` slots from `i` on; an error stops the loop.
  unfoldable pub compose_slots : ℕ → ℕ → ℕ → Weave e → Option (ℤ × Weave e)
  compose_slots looking_for i zero w = some (pos 0, w)
  compose_slots looking_for i (suc n) w = do
    (result, w') ← compose_slot looking_for i w
    let rest = compose_slots looking_for (i + 1) n w'
    if is_negative result then some (result, w') else rest

  -- The number of octets composed or an error, and what was composed.
  unfoldable pub compose_one_authoritative_step :
      Participants e.steps → List (LocalParty e.stats) → ℕ → ℕ → Option (ℤ × Weave e)
  compose_one_authoritative_step ps parties looking_for max_length = do
    let stream = (write_u8 (e.out.out_init max_length) (to_u8 ps.participant_count)).1
    let start : Weave e = record { participants = ps; parties = parties; stream = stream }
    (result, w) ← compose_slots looking_for 0 ps.participant_capacity start
    some (if is_negative result then result else pos (e.out.pos w.stream), w)

  -- The loop with `written` steps composed so far. Each round but the last adds an authoritative
  -- step, so rounds for half a window are enough; `none` also stands for fuel that ran out.
  unfoldable pub compose_from :
      ℕ → ℕ → Game e.steps → List (LocalParty e.stats) → Option (Composed e)
  compose_from zero written game parties = none
  compose_from (suc fuel) written game parties =
      let steps = game.authoritative_steps in
      let looking_for : ℕ = e.steps.expected_write_id steps in
      let compose : Option (Composed e) = (do
        (count, w) ← compose_one_authoritative_step game.participants parties looking_for 1024
        let game' = record game { participants = w.participants }
        let (result, steps') = e.steps.steps_write steps looking_for (e.out.octets w.stream)
        let game'' = record game' { authoritative_steps = steps' }
        let rest = compose_from fuel (written + 1) game'' w.parties
        if not_positive count
            then some (pos 0, game', w.parties)
            else if is_negative result
            then some (result, game'', w.parties)
            else rest) in
      if should_advance_authoritative e.steps game.participants steps
      then compose
      else some (pos written, game, parties)

  unfoldable pub compose_authoritative_steps :
      Game e.steps → List (LocalParty e.stats) → Option (Composed e)
  compose_authoritative_steps game parties =
      compose_from (e.steps.window_size / 2 + 1) 0 game parties
