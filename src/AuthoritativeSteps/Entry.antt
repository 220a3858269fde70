-- ===== src/AuthoritativeSteps/Entry.antt =====
-- The entry of one participant in an authoritative step, in `composeOneAuthoritativeStep` of
-- src/lib/authoritative_steps.c.
use nimble_server_lib.Prelude.{
  ℕ, ◌<◌, ◌≡◌, ◌≢◌, refl, ℤ, pos, List, some, arith, get_elem?_in_range, length, length-set, set,
  Bool-cases, inl, inr, some_of_ne_none, none, is_negative, eqb_ℤ,
}
use nimble_server_lib.External.{External, StatsLib, StepType}
use nimble_server_lib.Quality.{ConnectionQuality, added_forced_steps, provided_usable_step}
use nimble_server_lib.Participant.{Participant}
use nimble_server_lib.LocalParty.{LocalParty}
use nimble_server_lib.AuthoritativeSteps.{rate, party_id, read_step, write_kind, write_entry}

module _ {st : StatsLib} where
  rate_lem :
      (f : ConnectionQuality → ConnectionQuality) (k : ℕ) (parties : List (LocalParty st))
      → k < length parties
      → (parties' : List (LocalParty st)) × (rate f (some k) parties ≡ some parties')
        × (length parties' ≡ length parties)
  unfolding rate
  rate_lem f k parties h =
      let (party, at) = get_elem?_in_range parties k h in
      let rated = record party { quality = f party.quality } in
      (set parties k rated, rw at refl, length-set parties k rated)

  party_id_lem :
      (k : ℕ) (parties : List (LocalParty st))
      → k < length parties
      → (id : ℕ) × (party_id (some k) parties ≡ some id)
  unfolding party_id
  party_id_lem k parties h =
      let (party, at) = get_elem?_in_range parties k h in (party.id, rw at refl)

module _ (e : External) where
  open e.steps use {steps_read_exact, err_collection_is_empty, convert_u8}

  -- What reading the step of a participant that is in party `k` comes to.
  abbrev pub Read : Participant e.steps → ℕ → List (LocalParty e.stats) → Type 0
  Read p looking_for parties =
      (kind : StepType) × (count : ℕ) × (buffer : List ℕ) × (steps : e.steps.Steps)
      × (parties' : List (LocalParty e.stats)) × (read_step e p looking_for parties
          ≡ some (kind, count, buffer, record p { steps = steps }, parties'))
      × (length parties' ≡ length parties)

  pub read_step_lem :
      (p : Participant e.steps) (looking_for : ℕ) (parties : List (LocalParty e.stats)) (k : ℕ)
      → p.in_party ≡ some k
      → k < length parties
      → Read p looking_for parties
  unfolding read_step
  read_step_lem p looking_for parties k home h =
      let (result, buffer, steps) = steps_read_exact p.steps looking_for 1024 in
      let (missed, is_missed, same_missed) = rate_lem (λ q. added_forced_steps q 1) k parties h in
      let (used, is_used, same_used) = rate_lem provided_usable_step k parties h in
      elim (Bool-cases (is_negative result)) [
        | inl bad ↦ elim (Bool-cases (eqb_ℤ result err_collection_is_empty)) [
          | inl empty ↦ (
            StepType.step_not_provided_in_time,
            convert_u8 (pos 0),
            buffer,
            steps,
            missed,
            rw (bad, empty, home, is_missed) refl,
            same_missed,
          )
          | inr corrupt ↦ (
            StepType.normal,
            convert_u8 result,
            buffer,
            steps,
            parties,
            rw (bad, corrupt) refl,
            refl,
          )
        ]
        | inr good ↦ (
          StepType.normal,
          convert_u8 result,
          buffer,
          steps,
          used,
          rw (good, home, is_used) refl,
          same_used,
        )
      ]

  pub write_entry_lem :
      (p : Participant e.steps) (kind : StepType) (count : ℕ) (buffer : List ℕ)
      (parties : List (LocalParty e.stats)) (stream : e.out.OutStream) (k : ℕ)
      → p.in_party ≡ some k
      → k < length parties
      → (result : ℤ) × (stream' : e.out.OutStream) × (write_entry e p kind count buffer parties
            stream
          ≡ some (result, stream'))
  unfolding write_entry
  write_entry_lem p kind count buffer parties stream k home h =
      let (answer, is_answer) =
        some_of_ne_none (write_entry e p kind count buffer parties stream) written in
      (answer.0, answer.1, is_answer)
    where
      written : write_entry e p kind count buffer parties stream ≢ none
      written = unfold write_kind in ground (arith, party_id_lem k parties h, home)
