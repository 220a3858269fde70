-- ===== src/LocalParty.antt =====
-- src/lib/local_party.c and its header: the participants that joined from one connection, and the
-- state machine that gives them up. The log is left out.
-- A party refers to its participants by their indices in the participants' array, which the
-- functions that change them take and return; `none` is a reference outside that array.
pub mod Tick
pub mod Predicted
use nimble_server_lib.Prelude.{
  ℕ, ◌*◌, ℤ, pos, negsuc, is_negative, zero, suc, ◌>>=◌, Bool, true, false, not, ◌&&◌, List, [],
  ◌∷◌, Option, none, some, get_elem?, set, length, ltb, leb, ◌==◌, if◌then◌else◌, add_size, add_u32,
  sub_u32,
}
use nimble_server_lib.External.{StepsLib, StatsLib, InStreamLib}
use nimble_server_lib.Participant
use nimble_server_lib.Participant.{Participant, ParticipantState, for_references}
use nimble_server_lib.Quality
use nimble_server_lib.Quality.{ConnectionQuality, DelayedQuality}

pub data PartyState : Type 0 where
  normal waiting_for_re_join dissolved : PartyState

-- `participant_references` is the part of the array that participantReferenceCount counts.
pub record LocalParty (st : StatsLib) : Type 0 where
  pub id : ℕ
  pub is_used : Bool
  pub state : PartyState
  pub participant_references : List ℕ
  pub incoming_step_count_in_buffer_stats : st.StatsInt
  pub transport_connection : Option ℕ
  pub waiting_for_reconnect_timer : ℕ
  pub waiting_for_reconnect_max_timer : ℕ
  pub quality : ConnectionQuality
  pub delayed_quality : DelayedQuality
  pub warning_count : ℕ
  pub warning_about_zero_added_steps : ℕ
  pub highest_received_step_id : ℕ
  pub steps_in_buffer_count : ℕ

module _ {st : StatsLib} where
  unfoldable pub re_init : LocalParty st → Option ℕ → LocalParty st
  unfolding Quality.re_init Quality.delayed_reset
  re_init p transport_connection = record p {
    state = PartyState.normal;
    quality = Quality.re_init p.quality;
    delayed_quality = Quality.delayed_reset p.delayed_quality;
    incoming_step_count_in_buffer_stats = st.stats_init 60;
    transport_connection = transport_connection;
    waiting_for_reconnect_timer = 0;
    warning_count = 0;
    warning_about_zero_added_steps = 0;
  }

  unfoldable pub init : LocalParty st → ℕ → LocalParty st
  unfolding re_init Quality.init Quality.delayed_init
  init p id =
      re_init
        (record p {
          id = id;
          participant_references = [];
          waiting_for_reconnect_max_timer = 62 * 20;
          is_used = false;
          warning_count = 0;
          quality = Quality.init p.quality;
          delayed_quality = Quality.delayed_init p.delayed_quality;
        })
        none

  unfoldable pub reset : LocalParty st → LocalParty st
  unfolding Quality.reset Quality.delayed_reset
  reset p = record p {
    is_used = false;
    participant_references = [];
    waiting_for_reconnect_timer = 0;
    warning_count = 0;
    warning_about_zero_added_steps = 0;
    quality = Quality.reset p.quality;
    delayed_quality = Quality.delayed_reset p.delayed_quality;
  }

  unfoldable pub rejoin : LocalParty st → Option ℕ → LocalParty st
  unfolding re_init
  rejoin p transport_connection = re_init p transport_connection

  unfoldable pub destroy : LocalParty st → LocalParty st
  destroy p = record p { state = PartyState.dissolved }

  -- The result is whether to go on waiting.
  unfoldable pub tick_waiting_for_reconnect : LocalParty st → Bool × LocalParty st
  tick_waiting_for_reconnect p =
      let timer : ℕ = add_size p.waiting_for_reconnect_timer 1 in
      (
        ltb timer p.waiting_for_reconnect_max_timer,
        record p { waiting_for_reconnect_timer = timer },
      )

abbrev pub waiting : {sl : StepsLib} → Participant sl → Participant sl
waiting p = record p { state = ParticipantState.waiting_for_rejoin }

abbrev pub is_waiting : PartyState → Bool
is_waiting PartyState.waiting_for_re_join = true
is_waiting PartyState.normal = false
is_waiting PartyState.dissolved = false

module _ {st : StatsLib} {sl : StepsLib} where
  unfoldable pub set_to_waiting_for_re_join :
      LocalParty st → List (Participant sl) → Option (LocalParty st × List (Participant sl))
  unfolding for_references
  set_to_waiting_for_re_join p ps = do
    ps' ← for_references waiting p.participant_references ps
    some (record p { state = PartyState.waiting_for_re_join; waiting_for_reconnect_timer = 0 }, ps')

  unfoldable pub tick_normal :
      LocalParty st → List (Participant sl) → Option (LocalParty st × List (Participant sl))
  unfolding set_to_waiting_for_re_join
  tick_normal p ps =
      let (should_keep, d) = Quality.delayed_tick p.delayed_quality p.quality in
      let p' = record p { delayed_quality = d } in
      if not should_keep && not (is_waiting p.state)
      then set_to_waiting_for_re_join p' ps
      else some (p', ps)

  -- The result is whether to keep the party.
  unfoldable pub tick :
      LocalParty st → List (Participant sl) → Option (Bool × LocalParty st × List (Participant sl))
  unfolding tick_normal tick_waiting_for_reconnect
  tick p ps = elim p.state [
    | PartyState.normal ↦ do (p', ps') ← tick_normal p ps; some (true, p', ps')
    | PartyState.waiting_for_re_join ↦
        let (keep, p') = tick_waiting_for_reconnect p in some (keep, p', ps)
    | PartyState.dissolved ↦ some (true, p, ps)
  ]

  -- Whether one of the participants has the id.
  unfoldable pub has_participant_id : LocalParty st → List (Participant sl) → ℕ → Option Bool
  unfolding Participant.references_find
  has_participant_id p ps participant_id = do
    found ← Participant.references_find ps p.participant_references participant_id
    elim found [ none ↦ some false | some _ ↦ some true ]
