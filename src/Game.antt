-- ===== src/Game.antt =====
-- src/lib/game.c and its header: the authoritative steps of a game and its participants.
use nimble_server_lib.Prelude.{ℕ, Bool, false}
use nimble_server_lib.External.{StepsLib}
use nimble_server_lib.CircularBuffer.{CircularBuffer}
use nimble_server_lib.Participants
use nimble_server_lib.Participants.{Participants}

pub record Game (sl : StepsLib) : Type 0 where
  pub authoritative_steps : sl.Steps
  pub participants : Participants sl
  pub debug_is_frozen : Bool

-- `memory` is what the memory of the ring of free ids held before.
unfoldable pub init : (sl : StepsLib) → CircularBuffer → ℕ → ℕ → Game sl
init sl memory max_step_octet_count max_participant_count =
    let combined : ℕ = sl.combined_size max_participant_count max_step_octet_count in
    record {
      authoritative_steps = sl.steps_re_init (sl.steps_init combined) 0;
      participants = Participants.init sl memory max_participant_count max_step_octet_count;
      debug_is_frozen = false;
    }
