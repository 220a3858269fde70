-- ===== src/Quality.antt =====
-- src/lib/connection_quality.c and src/lib/delayed_quality.c with their headers: how well a party
-- provides its steps, and the delay before a bad quality counts.
-- The log and its texts are left out.
pub mod Laws
use nimble_server_lib.Prelude.{
  ℕ, ◌-◌, ◌==◌, Bool, true, false, not, ltb, leb, if◌then◌else◌, add_size,
}

-- NimbleServerConnectionQualityDisconnectReason
pub data DisconnectReason : Type 0 where
  keep not_providing_steps_in_time : DisconnectReason

pub record ConnectionQuality : Type 0 where
  pub forced_step_in_row_counter : ℕ
  pub provided_steps_in_a_row : ℕ
  pub added_steps_to_buffer_counter : ℕ
  pub has_added_first_accepted_steps : Bool

unfoldable pub reset : ConnectionQuality → ConnectionQuality
reset q = record {
  forced_step_in_row_counter = 0;
  provided_steps_in_a_row = 0;
  added_steps_to_buffer_counter = 0;
  has_added_first_accepted_steps = false;
}

unfoldable pub init : ConnectionQuality → ConnectionQuality
unfolding reset
init q = reset q

unfoldable pub re_init : ConnectionQuality → ConnectionQuality
unfolding reset
re_init q = reset q

unfoldable pub is_failing_to_provide_steps_in_time : ConnectionQuality → Bool
is_failing_to_provide_steps_in_time q =
    let threshold : ℕ = if not q.has_added_first_accepted_steps then 200 else 20 in
    leb threshold q.forced_step_in_row_counter

unfoldable pub evaluate : ConnectionQuality → DisconnectReason
unfolding is_failing_to_provide_steps_in_time
evaluate q =
    if is_failing_to_provide_steps_in_time q
    then DisconnectReason.not_providing_steps_in_time
    else DisconnectReason.keep

unfoldable pub provided_usable_step : ConnectionQuality → ConnectionQuality
provided_usable_step q = record {
  forced_step_in_row_counter = 0;
  provided_steps_in_a_row = add_size q.provided_steps_in_a_row 1;
  added_steps_to_buffer_counter = 0;
  has_added_first_accepted_steps = true;
}

unfoldable pub added_steps_to_buffer : ConnectionQuality → ℕ → ConnectionQuality
added_steps_to_buffer q n = record q {
  added_steps_to_buffer_counter = add_size q.added_steps_to_buffer_counter n;
}

unfoldable pub added_forced_steps : ConnectionQuality → ℕ → ConnectionQuality
added_forced_steps q n = record q {
  provided_steps_in_a_row = 0;
  forced_step_in_row_counter = add_size q.forced_step_in_row_counter n;
}

unfoldable pub check_if_should_disconnect : ConnectionQuality → Bool
unfolding evaluate
check_if_should_disconnect q = elim (evaluate q) [
  | DisconnectReason.keep ↦ false
  | DisconnectReason.not_providing_steps_in_time ↦ true
]

-- NimbleServerConnectionQualityDelayed
pub record DelayedQuality : Type 0 where
  pub impeding_disconnect_counter : ℕ

unfoldable pub delayed_init : DelayedQuality → DelayedQuality
delayed_init d = record { impeding_disconnect_counter = 0 }

unfoldable pub delayed_reset : DelayedQuality → DelayedQuality
delayed_reset d = record { impeding_disconnect_counter = 0 }

abbrev raised : DelayedQuality → DelayedQuality
raised d = record { impeding_disconnect_counter = add_size d.impeding_disconnect_counter 1 }

-- The result is whether the connection should be kept.
unfoldable pub delayed_tick : DelayedQuality → ConnectionQuality → Bool × DelayedQuality
delayed_tick d q =
    if check_if_should_disconnect q
    then (if ltb 180 (raised d).impeding_disconnect_counter
        then (false, raised d)
        else (true, raised d))
    else if ltb 0 d.impeding_disconnect_counter
    then (true, record { impeding_disconnect_counter = d.impeding_disconnect_counter - 1 })
    else (true, d)
