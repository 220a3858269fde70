-- ===== src/Requests/Step/Room.antt =====
-- How src/lib/req_step.c keeps room for authoritative steps.
use nimble_server_lib.Prelude.{ℕ, ◌-◌, ◌/◌, min, ◌≡◌, ◌⊎◌, true, false, arith, is_negative}
use nimble_server_lib.External.{StepsLib}
use nimble_server_lib.Game.{Game}
use nimble_server_lib.Requests.Step.{discard_authoritative_steps_if_buffer_getting_full}

-- A discard that succeeds takes as many steps from the window as it is asked to.
abbrev pub DiscardTakes : StepsLib → Type 0
DiscardTakes sl =
    (s : sl.Steps) (n : ℕ)
    → is_negative (sl.steps_discard_count s n).0 ≡ false
    → sl.steps_count (sl.steps_discard_count s n).1 ≡ sl.steps_count s - n

module _ {sl : StepsLib} where
  -- If a discard that succeeds takes as many steps as it is asked to, then making room fails with an
  -- error or leaves the lesser of what was there and a third of a window of authoritative steps; the
  -- participants stay as they are in both cases.
  pub make_room_lem :
      (game : Game sl)
      → DiscardTakes sl
      → ((is_negative (discard_authoritative_steps_if_buffer_getting_full game).0 ≡ true)
          ⊎ (sl.steps_count
                (discard_authoritative_steps_if_buffer_getting_full game).1.authoritative_steps
              ≡ min (sl.steps_count game.authoritative_steps) (sl.window_size / 3)))
        × ((discard_authoritative_steps_if_buffer_getting_full game).1.participants
            ≡ game.participants)
  unfolding discard_authoritative_steps_if_buffer_getting_full
  make_room_lem game law =
      let count : ℕ = sl.steps_count game.authoritative_steps in
      ground (arith, law game.authoritative_steps (count - sl.window_size / 3))
