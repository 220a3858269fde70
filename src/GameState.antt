-- ===== src/GameState.antt =====
-- src/lib/game_state.c and its header: a game state that was captured at a step, in memory of a
-- fixed capacity. The log is left out.
pub mod Monotone
use nimble_server_lib.Prelude.{
  ℕ, ℤ, pos, negsuc, ◌&&◌, not, List, ◌++◌, length, ltb, leb, ◌==◌, if◌then◌else◌, replicate, drop,
  take,
}

pub record GameState : Type 0 where
  pub state : List ℕ
  pub octet_count : ℕ
  pub capacity : ℕ
  pub step_id : ℕ

-- The memory that is reserved is not cleared; which octets it holds is never seen.
unfoldable pub init : ℕ → GameState
init octet_count = record {
  state = replicate octet_count 0;
  octet_count = 0;
  capacity = octet_count;
  step_id = 0;
}

-- Copying `from` over the start of the memory.
abbrev copy_octets : List ℕ → List ℕ → List ℕ
copy_octets from memory = from ++ drop (length from) memory

unfoldable pub set : GameState → ℕ → List ℕ → ℤ × GameState
set s step_id game_state =
    if not (s.octet_count == 0) && leb step_id s.step_id
    then (pos 0, s)
    else if ltb s.capacity (length game_state)
    then (negsuc 3, s)
    else (
      pos 1,
      record s {
        state = copy_octets game_state s.state;
        octet_count = length game_state;
        step_id = step_id;
      },
    )

-- The octets of a game state: the first `octet_count` of its memory.
abbrev pub octets : GameState → List ℕ
octets s = take s.octet_count s.state

unfoldable pub copy : GameState → GameState → ℤ × GameState
copy s from = set s from.step_id (octets from)
