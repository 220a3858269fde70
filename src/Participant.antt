-- ===== src/Participant.antt =====
-- src/lib/participant.c and src/lib/participant_references.c with their headers: one player's slot.
-- A pointer to a party is the party's index in the parties' array, NULL is `none`; a pointer to a
-- participant is its index in the participants' array. The log is left out.
use nimble_server_lib.Prelude.{
  ℕ, ◌==◌, Bool, true, false, List, [], ◌∷◌, Option, none, some, get_elem?, set, if◌then◌else◌,
  ◌>>=◌,
}
use nimble_server_lib.External.{StepsLib}

pub data ParticipantState : Type 0 where
  just_joined normal waiting_for_rejoin leaving destroyed : ParticipantState

pub record Participant (sl : StepsLib) : Type 0 where
  pub local_index : ℕ
  pub id : ℕ
  pub is_used : Bool
  pub steps : sl.Steps
  pub in_party : Option ℕ
  pub state : ParticipantState

-- A participant in cleared memory, as `nimbleServerParticipantInit` leaves it.
unfoldable pub init : (sl : StepsLib) → ℕ → ℕ → Participant sl
init sl id max_step_octet_size = record {
  local_index = 0;
  id = id;
  is_used = false;
  steps = sl.steps_init max_step_octet_size;
  in_party = none;
  state = ParticipantState.destroyed;
}

module _ {sl : StepsLib} where
  unfoldable pub re_init : Participant sl → ℕ → ℕ → Participant sl
  re_init p party step_id = record p {
    steps = sl.steps_re_init p.steps step_id;
    in_party = some party;
    is_used = true;
    state = ParticipantState.just_joined;
  }

  unfoldable pub destroy : Participant sl → Participant sl
  destroy p = record p {
    is_used = false;
    in_party = none;
    local_index = 0;
    state = ParticipantState.destroyed;
  }

  unfoldable pub mark_as_leaving : Participant sl → Participant sl
  mark_as_leaving p = record p { state = ParticipantState.leaving }

  -- `nimbleParticipantReferencesFind`: the outer `none` is a reference outside the array.
  unfoldable pub references_find : List (Participant sl) → List ℕ → ℕ → Option (Option ℕ)
  references_find ps [] id = some none
  references_find ps (r ∷ rs) id =
      let rest = references_find ps rs id in
      do p ← get_elem? ps r; if p.id == id then some (some r) else rest

  -- The loop over the references that changes each participant.
  unfoldable pub for_references :
      (Participant sl → Participant sl)
      → List ℕ
      → List (Participant sl)
      → Option (List (Participant sl))
  for_references f [] ps = some ps
  for_references f (r ∷ rs) ps = do p ← get_elem? ps r; for_references f rs (set ps r (f p))
