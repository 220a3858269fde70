-- ===== src/Advance.antt =====
-- The first half of src/lib/authoritative_steps.c: whether another authoritative step is composed.
-- The log is left out.
pub mod Decision
use nimble_server_lib.Prelude.{
  ℕ, ◌/◌, Bool, ◌&&◌, ◌||◌, not, List, [], ◌∷◌, ltb, ◌==◌, if◌then◌else◌, add_size, sub_u32,
  add_u32,
}
use nimble_server_lib.External.{StepsLib}
use nimble_server_lib.Participant.{Participant}
use nimble_server_lib.Participants.{Participants}

module _ (sl : StepsLib) where
  -- The most steps that a participant has ahead of `looking_for`, and how many have none, over the
  -- array from the two numbers so far. The difference is taken in `uint32_t`.
  unfoldable pub advance_count : Participant sl → ℕ → ℕ
  advance_count p looking_for =
      if ltb 0 (sl.steps_count p.steps) && ltb looking_for (sl.expected_write_id p.steps)
      then add_u32 (sub_u32 (sl.expected_write_id p.steps) looking_for) 1
      else 0

  unfoldable pub can_contribute : Participant sl → ℕ → Bool
  can_contribute p looking_for =
      ltb 0 (sl.steps_count p.steps) && ltb looking_for (sl.expected_write_id p.steps)

  unfoldable pub contribution_from : List (Participant sl) → ℕ → ℕ → ℕ → ℕ × ℕ
  unfolding advance_count can_contribute
  contribution_from [] looking_for most without = (most, without)
  contribution_from (p ∷ ps) looking_for most without =
      contribution_from ps looking_for
        (if p.is_used && ltb most (advance_count p looking_for)
          then advance_count p looking_for
          else most)
        (if p.is_used && not (can_contribute p looking_for) then add_size without 1 else without)

  -- The most steps ahead, and the number of participants that cannot contribute.
  unfoldable pub max_predicted_step_contribution : Participants sl → ℕ → ℕ × ℕ
  unfolding contribution_from
  max_predicted_step_contribution ps looking_for = contribution_from ps.participants looking_for 0 0

  unfoldable pub should_compose_new_authoritative_step : Participants sl → ℕ → Bool
  unfolding max_predicted_step_contribution
  should_compose_new_authoritative_step ps looking_for =
      let (most, without) = max_predicted_step_contribution ps looking_for in
      (ltb 3 most && without == 0) || ltb 5 most

  unfoldable pub can_advance_due_to_distance_from_last_state : sl.Steps → Bool
  can_advance_due_to_distance_from_last_state steps =
      ltb (sl.steps_count steps) (sl.window_size / 2)

  unfoldable pub should_advance_authoritative : Participants sl → sl.Steps → Bool
  unfolding should_compose_new_authoritative_step can_advance_due_to_distance_from_last_state
  should_advance_authoritative ps steps =
      should_compose_new_authoritative_step ps (sl.expected_write_id steps)
      && can_advance_due_to_distance_from_last_state steps
