-- ===== src/Requests/Step.antt =====
-- src/lib/req_step.c and src/lib/incoming_predicted_steps.c: a client sends predicted steps and gets
-- authoritative ones. The outer `none` of a result is undefined behaviour. The log is left out.
pub mod Room
use nimble_server_lib.Prelude.{
  ℕ, ◌/◌, ◌-◌, ℤ, pos, is_negative, ◌>>=◌, Bool, true, false, List, Option, none, some, get_elem?,
  set, ltb, if◌then◌else◌, add_u32,
}
use nimble_server_lib.Errors.{err_serialize, err_datagram_from_disconnected_connection}
use nimble_server_lib.External.{External, StepsLib}
use nimble_server_lib.Participants.{Participants}
use nimble_server_lib.LocalParty.{LocalParty, PartyState}
use nimble_server_lib.LocalParty.Predicted.{deserialize_predicted_steps}
use nimble_server_lib.LocalParties.{LocalParties}
use nimble_server_lib.TransportConnection.{TransportConnection}
use nimble_server_lib.AuthoritativeSteps.{compose_authoritative_steps}
use nimble_server_lib.Game.{Game}
use nimble_server_lib.Requests.Send.{send_step_ranges, update_stats}

module _ {sl : StepsLib} where
  unfoldable pub discard_authoritative_steps_if_buffer_getting_full : Game sl → ℤ × Game sl
  discard_authoritative_steps_if_buffer_getting_full game =
      let count : ℕ = sl.steps_count game.authoritative_steps in
      let max_capacity : ℕ = sl.window_size / 3 in
      let (err, steps) = sl.steps_discard_count game.authoritative_steps (count - max_capacity) in
      if ltb max_capacity count
      then (if is_negative err then err else pos 0, record game { authoritative_steps = steps })
      else (pos 0, game)

-- What a request changes: the game, the parties and the rest of the stream.
pub record Intake (e : External) : Type 0 where
  pub game : Game e.steps
  pub parties : List (LocalParty e.stats)
  pub stream : e.input.InStream

-- A result, the step id that the client waits for, its receive mask and what changed. The two
-- numbers mean nothing where the result is an error.
abbrev pub Received : External → Type 0
Received e = ℤ × ℕ × ℕ × Intake e

module _ (e : External) where
  unfoldable pub take_steps : Intake e → ℕ → LocalParty e.stats → Option (Received e)
  take_steps w i party = do
    let (err, waiting_for, mask, stream) = e.input.pending_in_header w.stream
    let slots = w.game.participants.participants
    if is_negative err then some (err, 0, 0, record w { stream = stream }) else do
      (result, party', ps, stream') ← deserialize_predicted_steps e.input party slots stream
      some (
        result,
        waiting_for,
        mask,
        record {
          game = record (w.game) {
            participants = record (w.game.participants) { participants = ps };
          };
          parties = set w.parties i party';
          stream = stream';
        },
      )

  abbrev pub is_dissolved : PartyState → Bool
  is_dissolved PartyState.dissolved = true
  is_dissolved PartyState.normal = false
  is_dissolved PartyState.waiting_for_re_join = false

  unfoldable pub handle_incoming_steps : Intake e → Option ℕ → Option (Received e)
  unfolding take_steps
  handle_incoming_steps w none = some (err_serialize, 0, 0, w)
  handle_incoming_steps w (some i) = do
    party ← get_elem? w.parties i
    if is_dissolved party.state
        then some (
          err_datagram_from_disconnected_connection,
          0,
          0,
          record w {
            parties =
                set w.parties i (record party { warning_count = add_u32 party.warning_count 1 });
          },
        )
        else take_steps w i party

  -- With the statistics of the steps composed per second.
  unfoldable pub read_incoming_steps_and_create_authoritative_steps :
      Intake e → Option ℕ → e.stats.StatsPerSecond → Option (Received e × e.stats.StatsPerSecond)
  unfolding discard_authoritative_steps_if_buffer_getting_full handle_incoming_steps
  read_incoming_steps_and_create_authoritative_steps w assigned_party per_second = do
    let (err, game) = discard_authoritative_steps_if_buffer_getting_full w.game
    let w₁ = record w { game = game }
    if is_negative err then some ((err, 0, 0, w₁), per_second) else do
      (received, waiting_for, mask, w₂) ← handle_incoming_steps w₁ assigned_party
      if is_negative received
          then some ((received, 0, 0, w₂), per_second)
          else if w₂.game.debug_is_frozen
          then some ((pos 0, waiting_for, mask, w₂), per_second)
          else do
            (advance, game', parties) ← compose_authoritative_steps e w₂.game w₂.parties
            let w₃ = record w₂ { game = game'; parties = parties }
            some (
              (advance, waiting_for, mask, w₃),
              if is_negative advance then per_second else e.stats.per_second_add per_second advance,
            )

-- What the handler of a game step changes.
pub record StepReply (e : External) : Type 0 where
  pub intake : Intake e
  pub connection : TransportConnection e
  pub per_second : e.stats.StatsPerSecond
  pub out : e.out.OutStream

module _ (e : External) where
  unfoldable pub req_game_step : StepReply e → Option (ℤ × StepReply e)
  unfolding read_incoming_steps_and_create_authoritative_steps
  req_game_step r = do
    ((result, waiting_for, mask, w), per_second) ←
        read_incoming_steps_and_create_authoritative_steps e r.intake r.connection.assigned_party
          r.per_second
    if is_negative result
        then some (result, record r { intake = w; per_second = per_second })
        else do
          (t, parties) ←
              update_stats e r.connection w.parties w.game.authoritative_steps waiting_for
          (sent, t', out) ←
              send_step_ranges e r.out t w.game.authoritative_steps parties waiting_for mask
          some (
            sent,
            record {
              intake = record w { parties = parties };
              connection = t';
              per_second = per_second;
              out = out;
            },
          )
