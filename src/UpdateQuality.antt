-- ===== src/UpdateQuality.antt =====
-- src/lib/update_quality.c and its header: whether the host manages to update the server in time.
-- The clock is an argument of each call, `monotonicTimeMsNow()`; the log is left out.
pub mod Laws
use nimble_server_lib.Prelude.{
  ℕ, ℤ, pos, negsuc, Bool, true, false, not, ◌&&◌, ltb, leb, if◌then◌else◌, add_size, sub_size, ◌%◌,
  ◌-◌, ◌^◌, ◌<◌,
}
use nimble_server_lib.External.{StatsLib}

-- NimbleServerUpdateQualityState
pub data UpdateState : Type 0 where
  working failed_tick_time failed_average_tick_time : UpdateState

pub record UpdateQuality (st : StatsLib) : Type 0 where
  pub last_time_ms : ℕ
  pub measured_delta_time_ms_stat : st.StatsInt
  pub average_tick_time_failed_in_a_row : ℕ
  pub delta_tick_time_failed_in_a_row : ℕ
  pub target_time_ms : ℕ
  pub state : UpdateState

-- A conversion to `int`, of 32 bits.
abbrev pub to_int : ℕ → ℤ
to_int n = let r : ℕ = n % 2 ^ 32 in if ltb r (2 ^ 31) then pos r else negsuc (2 ^ 32 - r - 1)

-- The test `a > b` on two results.
abbrev pub gtb_ℤ : ℤ → ℤ → Bool
gtb_ℤ (pos a) (pos b) = ltb b a
gtb_ℤ (pos a) (negsuc b) = true
gtb_ℤ (negsuc a) (pos b) = false
gtb_ℤ (negsuc a) (negsuc b) = ltb a b

module _ {st : StatsLib} where
  unfoldable pub re_init : UpdateQuality st → ℕ → UpdateQuality st
  re_init u now = record u {
    measured_delta_time_ms_stat = st.stats_init 10;
    delta_tick_time_failed_in_a_row = 0;
    average_tick_time_failed_in_a_row = 0;
    last_time_ms = now;
    state = UpdateState.working;
  }

  unfoldable pub init : UpdateQuality st → ℕ → ℕ → UpdateQuality st
  unfolding re_init
  init u target_time_ms now = re_init (record u { target_time_ms = target_time_ms }) now

  -- The measurements of a tick, before they are judged.
  unfoldable pub measure : UpdateQuality st → ℕ → UpdateQuality st
  measure u now =
      let delta : ℕ = sub_size now u.last_time_ms in
      let stat = st.stats_add u.measured_delta_time_ms_stat (to_int delta) in
      record u {
        measured_delta_time_ms_stat = stat;
        last_time_ms = now;
        delta_tick_time_failed_in_a_row =
            if ltb u.target_time_ms delta then add_size u.delta_tick_time_failed_in_a_row 1 else 0;
        average_tick_time_failed_in_a_row =
            if st.avg_is_set stat
            then (if gtb_ℤ (st.avg stat) (to_int u.target_time_ms)
                then add_size u.average_tick_time_failed_in_a_row 1
                else 0)
            else u.average_tick_time_failed_in_a_row;
      }

  unfoldable pub judge : UpdateQuality st → ℤ × UpdateQuality st
  judge u =
      if ltb 60 u.delta_tick_time_failed_in_a_row
      then (negsuc 0, record u { state = UpdateState.failed_tick_time })
      else if ltb 50 u.average_tick_time_failed_in_a_row
      then (negsuc 0, record u { state = UpdateState.failed_average_tick_time })
      else (pos 0, u)

  unfoldable pub tick : UpdateQuality st → ℕ → ℤ × UpdateQuality st
  unfolding measure judge
  tick u now = elim u.state [
    | UpdateState.working ↦ judge (measure u now)
    | UpdateState.failed_tick_time ↦ (negsuc 0, u)
    | UpdateState.failed_average_tick_time ↦ (negsuc 0, u)
  ]
