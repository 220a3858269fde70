-- ===== src/GameState/Monotone.antt =====
-- What `nimbleServerGameStateSet` of src/lib/game_state.c keeps: the memory's bounds, and that the
-- state only gets newer.
use nimble_server_lib.Prelude.{
  ℕ, ◌≤◌, ◌<◌, ◌≡◌, ◌⊎◌, pos, negsuc, List, length, length-append, length-drop, length-replicate,
  length-take, take-length, drop, arith,
}
use nimble_server_lib.GameState.{GameState, init, set, octets, copy}

pub record IsValid (s : GameState) : Type 0 where
  pub memory : length s.state ≡ s.capacity
  pub fits : s.octet_count ≤ s.capacity

pub init-IsValid : (n : ℕ) → IsValid (init n)
unfolding init
init-IsValid n = record { memory = length-replicate n 0; fits = omega arith }

-- Setting a state never writes outside the memory that was reserved, whatever it is given.
pub set-IsValid :
    (s : GameState) (step_id : ℕ) (xs : List ℕ) → IsValid s → IsValid (set s step_id xs).1
unfolding set
set-IsValid s step_id xs v =
    ground (arith, length-append xs (drop (length xs) s.state), length-drop (length xs) s.state)

-- The three outcomes of setting a state: an old one is ignored (0), one that does not fit is an
-- error (-4), and in both cases nothing changes; any other is stored whole (1), under its step id,
-- which is newer than that of the state it replaces.
pub set_outcomes :
    (s : GameState) (step_id : ℕ) (xs : List ℕ)
    → ((set s step_id xs ≡ (pos 0, s)) × (0 < s.octet_count) × (step_id ≤ s.step_id))
      ⊎ ((set s step_id xs ≡ (negsuc 3, s)) × (s.capacity < length xs))
      ⊎ (((set s step_id xs).0 ≡ pos 1)
          × (octets (set s step_id xs).1 ≡ xs)
          × ((set s step_id xs).1.step_id ≡ step_id)
          × ((s.octet_count ≡ 0) ⊎ (s.step_id < step_id)))
unfolding set
set_outcomes s step_id xs = ground (arith, take-length xs (drop (length xs) s.state))

-- Copying a valid state of more than no octets to one that is empty and large enough makes the two
-- hold the same octets under the same step id.
pub copy_lem :
    (s from : GameState)
    → IsValid from
    → s.octet_count ≡ 0
    → from.octet_count ≤ s.capacity
    → ((copy s from).0 ≡ pos 1)
      × (octets (copy s from).1 ≡ octets from)
      × ((copy s from).1.step_id ≡ from.step_id)
unfolding copy set
copy_lem s from v e h = ground (
  arith,
  length-take from.octet_count from.state,
  take-length (octets from) (drop (length (octets from)) s.state),
)
