-- ===== src/Quality/Laws.antt =====
-- When connection_quality.c and delayed_quality.c give a party up.
use nimble_server_lib.Prelude.{
  ℕ, ◌+◌, ◌%◌, ◌^◌, ◌≤◌, ◌<◌, ◌≡◌, ◌↔◌, refl, Bool, true, false, List, [], ◌∷◌, if◌then◌else◌,
  arith, length,
}
use nimble_server_lib.Quality.{
  ConnectionQuality, reset, provided_usable_step, added_forced_steps, added_steps_to_buffer,
  check_if_should_disconnect, DelayedQuality, delayed_reset, delayed_tick,
}

-- What may happen to a party's steps between two ticks.
pub data Event : Type 0 where
  usable : Event
  forced : Event
  buffered : ℕ → Event

pub step : ConnectionQuality → Event → ConnectionQuality
step q Event.usable = provided_usable_step q
step q Event.forced = added_forced_steps q 1
step q (Event.buffered n) = added_steps_to_buffer q n

pub run : ConnectionQuality → List Event → ConnectionQuality
run q [] = q
run q (e ∷ es) = run (step q e) es

-- The specification: the forced steps since the last usable one, and whether there was a usable one,
-- from a start at `n` and `b`.
abbrev pub forced_in_row : ℕ → List Event → ℕ
forced_in_row n [] = n
forced_in_row n (Event.usable ∷ es) = forced_in_row 0 es
forced_in_row n (Event.forced ∷ es) = forced_in_row (n + 1) es
forced_in_row n (Event.buffered k ∷ es) = forced_in_row n es

abbrev pub any_usable : Bool → List Event → Bool
any_usable b [] = b
any_usable b (Event.usable ∷ es) = any_usable true es
any_usable b (Event.forced ∷ es) = any_usable b es
any_usable b (Event.buffered k ∷ es) = any_usable b es

run_lem :
    (q : ConnectionQuality) (es : List Event)
    → q.forced_step_in_row_counter + length es < 2 ^ 64
    → ((run q es).forced_step_in_row_counter ≡ forced_in_row q.forced_step_in_row_counter es)
      × ((run q es).has_added_first_accepted_steps ≡ any_usable q.has_added_first_accepted_steps es)
unfolding run step provided_usable_step added_forced_steps added_steps_to_buffer
run_lem q [] h = (refl, refl)
run_lem q (Event.usable ∷ es) h = run_lem (step q Event.usable) es (omega arith)
run_lem q (Event.forced ∷ es) h =
    let next : ℕ = (q.forced_step_in_row_counter + 1) % 2 ^ 64 in
    let same : next ≡ q.forced_step_in_row_counter + 1 = omega arith in
    rw (← same) (run_lem (step q Event.forced) es (omega arith))
run_lem q (Event.buffered n ∷ es) h = run_lem (step q (Event.buffered n)) es (omega arith)

-- From a reset quality on, over fewer than 2^64 events, a disconnect is advised exactly when the
-- forced steps since the last usable one are 20 or more, or 200 or more if no step was ever usable.
pub check_iff :
    (q : ConnectionQuality) (es : List Event)
    → length es < 2 ^ 64
    → (check_if_should_disconnect (run (reset q) es) ≡ true)
      ↔ ((if any_usable false es then 20 else 200) ≤ forced_in_row 0 es)
unfolding reset check_if_should_disconnect
check_iff q es h = ground (arith, run_lem (reset q) es)

-- The qualities that a run of ticks sees, one after the other.
pub ticks : DelayedQuality → List ConnectionQuality → DelayedQuality
ticks d [] = d
ticks d (q ∷ qs) = ticks (delayed_tick d q).1 qs

-- How many of them advise a disconnect.
abbrev pub failing : List ConnectionQuality → ℕ
failing [] = 0
failing (q ∷ qs) = (if check_if_should_disconnect q then 1 else 0) + failing qs

delayed_tick-le :
    (d : DelayedQuality) (q : ConnectionQuality)
    → d.impeding_disconnect_counter + 1 < 2 ^ 64
    → (delayed_tick d q).1.impeding_disconnect_counter
      ≤ d.impeding_disconnect_counter + (if check_if_should_disconnect q then 1 else 0)
unfolding delayed_tick
delayed_tick-le d q h = ground arith

failing-le : (qs : List ConnectionQuality) → failing qs ≤ length qs
failing-le [] = omega arith
failing-le (q ∷ qs) = ground (arith, failing-le qs)

failing-cons :
    (q : ConnectionQuality) (qs : List ConnectionQuality)
    → failing (q ∷ qs) ≡ length (q ∷ qs)
    → (check_if_should_disconnect q ≡ true) × (failing qs ≡ length qs)
failing-cons q qs e = ground (arith, failing-le qs)

delayed_tick_failing :
    (d : DelayedQuality) (q : ConnectionQuality)
    → d.impeding_disconnect_counter + 1 < 2 ^ 64
    → check_if_should_disconnect q ≡ true
    → (delayed_tick d q).1.impeding_disconnect_counter ≡ d.impeding_disconnect_counter + 1
unfolding delayed_tick
delayed_tick_failing d q h e = ground arith

ticks-le :
    (d : DelayedQuality) (qs : List ConnectionQuality)
    → d.impeding_disconnect_counter + length qs < 2 ^ 64
    → (ticks d qs).impeding_disconnect_counter ≤ d.impeding_disconnect_counter + failing qs
unfolding ticks
ticks-le d [] h = omega arith
ticks-le d (q ∷ qs) h = ground (arith, delayed_tick-le d q, ticks-le (delayed_tick d q).1 qs)

ticks-failing :
    (d : DelayedQuality) (qs : List ConnectionQuality)
    → d.impeding_disconnect_counter + length qs < 2 ^ 64
    → failing qs ≡ length qs
    → (ticks d qs).impeding_disconnect_counter ≡ d.impeding_disconnect_counter + length qs
unfolding ticks
ticks-failing d [] h e = omega arith
ticks-failing d (q ∷ qs) h e =
    let (bad, rest) = failing-cons q qs e in
    let one = delayed_tick_failing d q (omega arith) bad in
    omega (arith, ticks-failing (delayed_tick d q).1 qs (omega arith) rest)

-- From a reset on, a tick that gives the connection up sees a failing quality, and at least 180 of
-- the ticks before it did.
pub give_up_needs_failing :
    (d : DelayedQuality) (qs : List ConnectionQuality) (q : ConnectionQuality)
    → length qs + 1 < 2 ^ 64
    → (delayed_tick (ticks (delayed_reset d) qs) q).0 ≡ false
    → (check_if_should_disconnect q ≡ true) × (180 ≤ failing qs)
unfolding delayed_tick delayed_reset
give_up_needs_failing d qs q h e = ground (arith, ticks-le (delayed_reset d) qs)

-- From a reset on, after 180 or more ticks that all saw a failing quality, the next one that does
-- gives the connection up.
pub give_up_after_failing :
    (d : DelayedQuality) (qs : List ConnectionQuality) (q : ConnectionQuality)
    → length qs + 1 < 2 ^ 64
    → 180 ≤ length qs
    → failing (q ∷ qs) ≡ length (q ∷ qs)
    → (delayed_tick (ticks (delayed_reset d) qs) q).0 ≡ false
unfolding delayed_tick delayed_reset
give_up_after_failing d qs q h n e =
    ground (arith, failing-cons q qs e, ticks-failing (delayed_reset d) qs)
