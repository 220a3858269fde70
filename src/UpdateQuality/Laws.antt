-- ===== src/UpdateQuality/Laws.antt =====
-- When the updates of src/lib/update_quality.c are found to fail.
use nimble_server_lib.Prelude.{
  ℕ, ◌+◌, ◌≤◌, ◌≡◌, refl, negsuc, Bool, true, false, ◌&&◌, List, [], ◌∷◌, arith, length, ltb,
  sub_size, Bool-cases, inl, inr,
}
use nimble_server_lib.External.{StatsLib}
use nimble_server_lib.UpdateQuality.{UpdateQuality, UpdateState, re_init, tick, measure, judge}

abbrev pub is_working : UpdateState → Bool
is_working UpdateState.working = true
is_working UpdateState.failed_tick_time = false
is_working UpdateState.failed_average_tick_time = false

-- Whether each tick comes more than the target time after the one before.
abbrev pub late : ℕ → ℕ → List ℕ → Bool
late target last [] = true
late target last (t ∷ ts) = ltb target (sub_size t last) && late target t ts

module _ {st : StatsLib} where
  -- The state after ticks at these times.
  pub ticks : UpdateQuality st → List ℕ → UpdateQuality st
  ticks u [] = u
  ticks u (t ∷ ts) = ticks (tick u t).1 ts

  failed_tick :
      (u : UpdateQuality st) (t : ℕ) → is_working u.state ≡ false → tick u t ≡ (negsuc 0, u)
  unfolding tick
  failed_tick u t h = ground arith

  failed_ticks : (u : UpdateQuality st) (ts : List ℕ) → is_working u.state ≡ false → ticks u ts ≡ u
  unfolding ticks
  failed_ticks u [] h = refl
  failed_ticks u (t ∷ ts) h = simp (failed_tick u t h, failed_ticks u ts h)

  -- Once failed, every later tick returns the error and changes nothing.
  pub failed_for_good :
      (u : UpdateQuality st) (ts : List ℕ) (t : ℕ)
      → is_working u.state ≡ false
      → (ticks u ts ≡ u) × (tick (ticks u ts) t ≡ (negsuc 0, u))
  failed_for_good u ts t h = (failed_ticks u ts h, simp (failed_ticks u ts h, failed_tick u t h))

  late_tick :
      (u : UpdateQuality st) (t : ℕ)
      → is_working u.state ≡ true
      → ltb u.target_time_ms (sub_size t u.last_time_ms) ≡ true
      → u.delta_tick_time_failed_in_a_row ≤ 60
      → is_working (tick u t).1.state ≡ true
      → ((tick u t).1.delta_tick_time_failed_in_a_row ≡ u.delta_tick_time_failed_in_a_row + 1)
        × ((tick u t).1.last_time_ms ≡ t)
        × ((tick u t).1.target_time_ms ≡ u.target_time_ms)
        × (u.delta_tick_time_failed_in_a_row + 1 ≤ 60)
  unfolding tick measure judge
  late_tick u t w l small w' = ground arith

  late-ticks :
      (u : UpdateQuality st) (ts : List ℕ)
      → is_working u.state ≡ true
      → late u.target_time_ms u.last_time_ms ts ≡ true
      → u.delta_tick_time_failed_in_a_row ≤ 60
      → 61 ≤ u.delta_tick_time_failed_in_a_row + length ts
      → is_working (ticks u ts).state ≡ false
  unfolding ticks
  late-ticks u [] w l small h = absurd (omega arith)
  late-ticks u (t ∷ ts) w l small h = elim (Bool-cases (is_working (tick u t).1.state)) [
    | inr failed ↦ simp (failed_ticks (tick u t).1 ts failed, failed)
    | inl fine ↦
        let s = late_tick u t w (ground arith) small fine in
        late-ticks (tick u t).1 ts fine (ground (arith, s)) (omega (arith, s)) (omega (arith, s))
  ]

  -- After an initialisation, 61 or more ticks in a row that all come too late are reported: the
  -- state is a failed one, and the next tick returns the error.
  pub fails_after_late :
      (u : UpdateQuality st) (now : ℕ) (ts : List ℕ) (t : ℕ)
      → late u.target_time_ms now ts ≡ true
      → 61 ≤ length ts
      → (is_working (ticks (re_init u now) ts).state ≡ false)
        × ((tick (ticks (re_init u now) ts) t).0 ≡ negsuc 0)
  unfolding re_init
  fails_after_late u now ts t l h =
      let failed = late-ticks (re_init u now) ts refl l (omega arith) (omega arith) in
      (failed, simp (failed_tick (ticks (re_init u now) ts) t failed))
