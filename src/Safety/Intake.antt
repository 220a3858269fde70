-- ===== src/Safety/Intake.antt =====
-- Reading a client's steps and composing authoritative ones, in src/lib/incoming_predicted_steps.c
-- and src/lib/req_step.c, keeps the parties and the participants tied.
use nimble_server_lib.Prelude.{
  ℕ, ◌<◌, ◌≤◌, ◌≡◌, refl, sym, ◌∙◌, subst, ℤ, pos, List, Option, none, some, arith, get_elem?,
  get_elem?_in_range, set, length, All-get, Some, Bool-cases, inl, inr, is_negative, add_u32,
  if◌then◌else◌,
}
use nimble_server_lib.Errors.{err_serialize, err_datagram_from_disconnected_connection}
use nimble_server_lib.External.{External}
use nimble_server_lib.LocalParty.{LocalParty}
use nimble_server_lib.LocalParties.{LocalParties}
use nimble_server_lib.AuthoritativeSteps.Loop.{
  WriteAdds, Composition, compose_authoritative-Composition,
}
use nimble_server_lib.Game.{Game}
use nimble_server_lib.Requests.Step.{
  Intake, Received, is_dissolved, discard_authoritative_steps_if_buffer_getting_full, take_steps,
  handle_incoming_steps, read_incoming_steps_and_create_authoritative_steps,
}
use nimble_server_lib.Safety.Shapes.{Link, shape, shapes, get_elem?-shapes, ShapeValid}
use nimble_server_lib.Safety.Valid.{Tied}
use nimble_server_lib.Safety.Tied.{Tied-Members, Tied-slots, Tied-pool, Tied-parties, Tied-party}
use nimble_server_lib.Safety.Predicted.{deserialize-Read}
use nimble_server_lib.Safety.Streams.{Sized}

module _ (e : External) (sized : Sized e) where
  -- The parties of an intake, in the places of `parties`, are tied to its participants.
  abbrev pub IntakeTied : List Link → LocalParties e.stats → Intake e → Type 0
  IntakeTied ls parties w = Tied ls (record parties { parties = w.parties }) w.game.participants

  abbrev pub Less : Intake e → Intake e → Type 0
  Less w w' = sized.input.size w'.stream ≤ sized.input.size w.stream

  -- A request that was read, and what it left tied.
  abbrev Taken : List Link → LocalParties e.stats → Intake e → Option (Received e) → Type 0
  Taken ls parties w run =
      (result : ℤ) × (waiting_for : ℕ) × (mask : ℕ) × (w' : Intake e) × (run
        ≡ some (result, waiting_for, mask, w'))
      × IntakeTied ls parties w'
      × Less w w'

  take_steps-Taken :
      (ls : List Link) (parties : LocalParties e.stats) (w : Intake e) (i : ℕ)
      (p : LocalParty e.stats)
      → IntakeTied ls parties w
      → get_elem? w.parties i ≡ some p
      → Taken ls parties w (take_steps e w i p)
  unfolding take_steps
  take_steps-Taken ls parties w i p t at =
      let (err, waiting_for, mask, stream) = e.input.pending_in_header w.stream in
      let slots = w.game.participants.participants in
      let valid =
        All-get (ShapeValid (length slots) ls) (shapes w.parties) i (shape p) t.shaped
          (get_elem?-shapes w.parties i p at) in
      let (result, p', xs, stream', read, same, members, less) =
        deserialize-Read e.input sized.input (length w.parties) w.game.participants p slots stream
          (Tied-Members t) valid.0 in
      elim (Bool-cases (is_negative err)) [
        | inl bad ↦ (
          err,
          0,
          0,
          record w { stream = stream },
          simp bad,
          t,
          sized.input.of_pending_header w.stream,
        )
        | inr good ↦ (
          result,
          waiting_for,
          mask,
          record {
            game = record (w.game) {
              participants = record (w.game.participants) { participants = xs };
            };
            parties = set w.parties i p';
            stream = stream';
          },
          simp (good, read),
          Tied-party i p p' (Tied-slots t members) at same,
          omega (arith, less, sized.input.of_pending_header w.stream),
        )
      ]

  handle_incoming_steps-Taken :
      (ls : List Link) (parties : LocalParties e.stats) (w : Intake e) (o : Option ℕ)
      → IntakeTied ls parties w
      → Some (λ i. i < parties.capacity_count) o
      → Taken ls parties w (handle_incoming_steps e w o)
  unfolding handle_incoming_steps
  handle_incoming_steps-Taken ls parties w none t h = (err_serialize, 0, 0, w, refl, t, omega arith)
  handle_incoming_steps-Taken ls parties w (some i) t h =
      let (p, at) = get_elem?_in_range w.parties i (omega (arith, t.capacity)) in of_party p at
    where
      of_party :
          (p : LocalParty e.stats)
          → get_elem? w.parties i ≡ some p
          → Taken ls parties w (handle_incoming_steps e w (some i))
      of_party p at =
          let warned : LocalParty e.stats = record p {
            warning_count = add_u32 p.warning_count 1;
          } in
          let (result, waiting_for, mask, w', run, t', less) =
            take_steps-Taken ls parties w i p t at in
          elim (Bool-cases (is_dissolved e p.state)) [
            | inl dissolved ↦ (
              err_datagram_from_disconnected_connection,
              0,
              0,
              record w { parties = set w.parties i warned },
              simp (at, dissolved),
              Tied-party i p warned t at refl,
              omega arith,
            )
            | inr alive ↦ (result, waiting_for, mask, w', simp (at, alive, run), t', less)
          ]

  discard-participants :
      (game : Game e.steps)
      → (discard_authoritative_steps_if_buffer_getting_full game).1.participants ≡ game.participants
  unfolding discard_authoritative_steps_if_buffer_getting_full
  discard-participants game = ground arith

  composed-IntakeTied :
      (ls : List Link) (parties : LocalParties e.stats) (w : Intake e) (game' : Game e.steps)
      (ps' : List (LocalParty e.stats))
      → IntakeTied ls parties w
      → Composition e w.game w.parties game' ps'
      → IntakeTied ls parties (record w { game = game'; parties = ps' })
  composed-IntakeTied ls parties w game' ps' t c =
      Tied-pool game'.participants (Tied-parties t c.same) c.valid.valid c.valid.housed
        (c.valid.valid.size ∙ c.capacity ∙ sym t.valid.size)

  abbrev Composing :
      List Link
      → LocalParties e.stats
      → Intake e
      → Option (Received e × e.stats.StatsPerSecond)
      → Type 0
  Composing ls parties w run =
      (result : ℤ) × (waiting_for : ℕ) × (mask : ℕ) × (w' : Intake e)
      × (per_second : e.stats.StatsPerSecond) × (run
          ≡ some ((result, waiting_for, mask, w'), per_second))
      × IntakeTied ls parties w'
      × Less w w'

  pub read_incoming_steps-Composing :
      (ls : List Link) (parties : LocalParties e.stats) (w : Intake e) (o : Option ℕ)
      (per_second : e.stats.StatsPerSecond)
      → WriteAdds e.steps
      → IntakeTied ls parties w
      → Some (λ i. i < parties.capacity_count) o
      → Composing ls parties w (read_incoming_steps_and_create_authoritative_steps e w o per_second)
  unfolding read_incoming_steps_and_create_authoritative_steps
  read_incoming_steps-Composing ls parties w o per_second law t h =
      let (err, game) = discard_authoritative_steps_if_buffer_getting_full w.game in
      let w₁ : Intake e = record w { game = game } in
      let t₁ : IntakeTied ls parties w₁ =
        subst (Tied ls (record parties { parties = w.parties })) (sym (discard-participants w.game))
          t in
      let (received, waiting_for, mask, w₂, taken, t₂, less) =
        handle_incoming_steps-Taken ls parties w₁ o t₁ h in
      let (advance, game', ps', composed, c) =
        compose_authoritative-Composition e w₂.game w₂.parties law
          (record { valid = t₂.valid; housed = t₂.housed }) in
      let t₃ = composed-IntakeTied ls parties w₂ game' ps' t₂ c in
      elim (Bool-cases (is_negative err)) [
        | inl full ↦ (err, 0, 0, w₁, per_second, simp full, t₁, omega arith)
        | inr room ↦ elim (Bool-cases (is_negative received)) [
          | inl bad ↦ (received, 0, 0, w₂, per_second, simp (room, taken, bad), t₂, less)
          | inr good ↦ elim (Bool-cases w₂.game.debug_is_frozen) [
            | inl frozen ↦ (
              pos 0,
              waiting_for,
              mask,
              w₂,
              per_second,
              simp (room, taken, good, frozen),
              t₂,
              less,
            )
            | inr runs ↦ (
              advance,
              waiting_for,
              mask,
              record w₂ { game = game'; parties = ps' },
              if is_negative advance then per_second else e.stats.per_second_add per_second advance,
              simp (room, taken, good, runs, composed),
              t₃,
              less,
            )
          ]
        ]
      ]
