-- ===== src/Advance/Decision.antt =====
-- When src/lib/authoritative_steps.c decides to compose another step, in terms of single participants.
use nimble_server_lib.Prelude.{
  ℕ, ◌+◌, ◌^◌, ◌<◌, ◌≡◌, Bool, true, false, ◌&&◌, ◌||◌, not, List, [], ◌∷◌, arith, length, ltb,
  ◌==◌, if◌then◌else◌, add_size, leb, All,
}
use nimble_server_lib.External.{StepsLib}
use nimble_server_lib.Participant.{Participant}
use nimble_server_lib.Participants.{Participants}
use nimble_server_lib.Advance.{
  advance_count, can_contribute, contribution_from, max_predicted_step_contribution,
  should_compose_new_authoritative_step,
}

module _ (sl : StepsLib) where
  -- Whether a participant in use has steps, and the next step id that it would write is at least `k`
  -- after the one looked for.
  abbrev pub any_ahead : ℕ → ℕ → List (Participant sl) → Bool
  any_ahead k looking_for [] = false
  any_ahead k looking_for (p ∷ ps) =
      (p.is_used
        && ltb 0 (sl.steps_count p.steps)
        && leb (looking_for + k) (sl.expected_write_id p.steps))
      || any_ahead k looking_for ps

  -- Whether every participant in use has steps, and would write a step id after the one looked for.
  abbrev pub all_ready : ℕ → List (Participant sl) → Bool
  all_ready looking_for [] = true
  all_ready looking_for (p ∷ ps) =
      (not p.is_used
        || ltb 0 (sl.steps_count p.steps) && ltb looking_for (sl.expected_write_id p.steps))
      && all_ready looking_for ps

  -- No participant has come to the last number of a `uint32_t`.
  abbrev pub BeforeLast : List (Participant sl) → Type 0
  BeforeLast ps = All (λ p. sl.expected_write_id p.steps + 1 < 2 ^ 32) ps

  -- The number of steps is one more than the difference of the two step ids.
  advance_count_lem :
      (k looking_for : ℕ) (p : Participant sl)
      → 0 < k
      → sl.expected_write_id p.steps + 1 < 2 ^ 32
      → ltb k (advance_count sl p looking_for)
        ≡ (ltb 0 (sl.steps_count p.steps) && leb (looking_for + k) (sl.expected_write_id p.steps))
  unfolding advance_count
  advance_count_lem k looking_for p some_steps h = ground arith

  most_ahead :
      (k looking_for most without : ℕ) (ps : List (Participant sl))
      → 0 < k
      → BeforeLast ps
      → ltb k (contribution_from sl ps looking_for most without).0
        ≡ (ltb k most || any_ahead k looking_for ps)
  unfolding contribution_from
  most_ahead k looking_for most without [] some_steps h = ground arith
  most_ahead k looking_for most without (p ∷ ps) some_steps (h, hs) = ground (
    arith,
    advance_count_lem k looking_for p some_steps h,
    most_ahead k looking_for
        (if p.is_used && ltb most (advance_count sl p looking_for)
          then advance_count sl p looking_for
          else most)
        (if p.is_used && not (can_contribute sl p looking_for) then add_size without 1 else without)
        ps some_steps hs,
  )

  none_without :
      (looking_for most without : ℕ) (ps : List (Participant sl))
      → without + length ps < 2 ^ 64
      → ((contribution_from sl ps looking_for most without).1 == 0)
        ≡ ((without == 0) && all_ready looking_for ps)
  unfolding contribution_from can_contribute
  none_without looking_for most without [] h = ground arith
  none_without looking_for most without (p ∷ ps) h = ground (
    arith,
    none_without looking_for
        (if p.is_used && ltb most (advance_count sl p looking_for)
          then advance_count sl p looking_for
          else most)
        (if p.is_used && not (can_contribute sl p looking_for) then add_size without 1 else without)
        ps,
  )

  -- For an array of fewer than 2^64 participants, none of which has come to the last number of a
  -- uint32_t, a new step is to be composed exactly in two cases. Either a participant in use has steps
  -- and would next write a step id at least five after the one looked for, or one would write a step
  -- id at least three after it, and every participant in use has steps and would write a step id after
  -- it.
  pub should_compose_lem :
      (ps : Participants sl) (looking_for : ℕ)
      → length ps.participants < 2 ^ 64
      → BeforeLast ps.participants
      → should_compose_new_authoritative_step sl ps looking_for ≡ (
          (any_ahead 3 looking_for ps.participants && all_ready looking_for ps.participants)
          || any_ahead 5 looking_for ps.participants)
  unfolding should_compose_new_authoritative_step max_predicted_step_contribution
  should_compose_lem ps looking_for h before = ground (
    arith,
    most_ahead 3 looking_for 0 0 ps.participants (omega arith) before,
    most_ahead 5 looking_for 0 0 ps.participants (omega arith) before,
    none_without looking_for 0 0 ps.participants (omega (arith, h)),
  )
