-- ===== src/Witnesses/Qualities.antt =====
-- Tests of the qualities, the waiting for a rejoin and the states of the game.
use nimble_server_lib.Prelude.{
  ℕ, zero, suc, ◌+◌, ◌≤◌, ◌<◌, ◌≡◌, refl, ◌⊎◌, ◌↔◌, pos, negsuc, true, false, List, [], ◌∷◌, some,
  arith, length, replicate, if◌then◌else◌,
}
use nimble_server_lib.Quality.{
  ConnectionQuality, check_if_should_disconnect, reset, delayed_reset, delayed_tick,
}
use nimble_server_lib.Quality.Laws.{
  Event, run, forced_in_row, any_usable, check_iff, failing, give_up_needs_failing,
  give_up_after_failing,
}
use nimble_server_lib.Quality.Laws as Quality_laws
use nimble_server_lib.UpdateQuality.{UpdateQuality, UpdateState, re_init, tick}
use nimble_server_lib.UpdateQuality.Laws.{is_working, failed_for_good, fails_after_late}
use nimble_server_lib.UpdateQuality.Laws as Update_laws
use nimble_server_lib.LocalParty.{PartyState, set_to_waiting_for_re_join, waiting}
use nimble_server_lib.LocalParty.Tick.{waits_until_limit}
use nimble_server_lib.LocalParty.Tick as Party_tick
use nimble_server_lib.Participant.{Participant, ParticipantState, for_references}
use nimble_server_lib.GameState.{init, set, octets, copy}
use nimble_server_lib.GameState.Monotone.{
  IsValid, init-IsValid, set-IsValid, set_outcomes, copy_lem,
}
use nimble_server_lib.Samples.{
  steps_lib, stats_lib, quality, delayed_quality, update_quality, party_in,
}

abbrev events : List Event
events = Event.usable ∷ replicate 20 Event.forced

abbrev bad : ConnectionQuality
bad = record quality { forced_step_in_row_counter = 200 }

abbrev member : Participant steps_lib
member = record {
  local_index = 0;
  id = 0;
  is_used = true;
  steps = (0, 0, 0);
  in_party = some 0;
  state = ParticipantState.normal;
}

check_iff_example :
    (check_if_should_disconnect (run (reset quality) events) ≡ true)
    ↔ ((if any_usable false events then 20 else 200) ≤ forced_in_row 0 events)
check_iff_example = check_iff quality events (omega arith)

given_up :
    (delayed_tick (Quality_laws.ticks (delayed_reset delayed_quality) (replicate 180 bad)) bad).0
    ≡ false
unfolding check_if_should_disconnect
given_up =
    give_up_after_failing delayed_quality (replicate 180 bad) bad (omega arith) (omega arith) refl

give_up_after_failing_example :
    (delayed_tick (Quality_laws.ticks (delayed_reset delayed_quality) (replicate 180 bad)) bad).0
    ≡ false
unfolding check_if_should_disconnect
give_up_after_failing_example =
    give_up_after_failing delayed_quality (replicate 180 bad) bad (omega arith) (omega arith) refl

give_up_needs_failing_example :
    (check_if_should_disconnect bad ≡ true) × (180 ≤ failing (replicate 180 bad))
give_up_needs_failing_example =
    give_up_needs_failing delayed_quality (replicate 180 bad) bad (omega arith) given_up

-- 61 ticks, the first at 100, each 100 milliseconds after the one before.
abbrev times : ℕ → ℕ → List ℕ
times zero t = []
times (suc n) t = t ∷ times n (t + 100)

fails_after_late_example :
    (is_working (Update_laws.ticks (re_init update_quality 0) (times 61 100)).state ≡ false)
    × ((tick (Update_laws.ticks (re_init update_quality 0) (times 61 100)) 9000).0 ≡ negsuc 0)
fails_after_late_example = fails_after_late update_quality 0 (times 61 100) 9000 refl (omega arith)

abbrev failed : UpdateQuality stats_lib
failed = record update_quality { state = UpdateState.failed_tick_time }

waits_until_limit_example :
    Party_tick.ticks 3 (party_in PartyState.waiting_for_re_join (0 ∷ [])) (waiting member ∷ [])
    ≡ some (
      false,
      record (party_in PartyState.waiting_for_re_join (0 ∷ [])) { waiting_for_reconnect_timer = 3 },
      waiting member ∷ [],
    )
unfolding set_to_waiting_for_re_join for_references
waits_until_limit_example =
    waits_until_limit 2 (party_in PartyState.normal (0 ∷ []))
      (party_in PartyState.waiting_for_re_join (0 ∷ [])) (member ∷ []) (waiting member ∷ []) refl
      (omega arith)

abbrev two_octets : List ℕ
two_octets = 1 ∷ 2 ∷ []

set-IsValid_example : IsValid (set (init 3) 5 two_octets).1
set-IsValid_example = set-IsValid (init 3) 5 two_octets (init-IsValid 3)

set_outcomes_example :
    ((set (init 3) 5 two_octets ≡ (pos 0, init 3))
      × (0 < (init 3).octet_count)
      × (5 ≤ (init 3).step_id))
    ⊎ ((set (init 3) 5 two_octets ≡ (negsuc 3, init 3)) × ((init 3).capacity < length two_octets))
    ⊎ (((set (init 3) 5 two_octets).0 ≡ pos 1)
        × (octets (set (init 3) 5 two_octets).1 ≡ two_octets)
        × ((set (init 3) 5 two_octets).1.step_id ≡ 5)
        × (((init 3).octet_count ≡ 0) ⊎ ((init 3).step_id < 5)))
set_outcomes_example = set_outcomes (init 3) 5 two_octets

copy_lem_example :
    ((copy (init 3) (set (init 3) 5 two_octets).1).0 ≡ pos 1)
    × (octets (copy (init 3) (set (init 3) 5 two_octets).1).1
        ≡ octets (set (init 3) 5 two_octets).1)
    × ((copy (init 3) (set (init 3) 5 two_octets).1).1.step_id
        ≡ (set (init 3) 5 two_octets).1.step_id)
unfolding init set
copy_lem_example =
    copy_lem (init 3) (set (init 3) 5 two_octets).1
      (set-IsValid (init 3) 5 two_octets (init-IsValid 3)) refl (omega arith)
