-- ===== src/AuthoritativeSteps/Loop.antt =====
-- `nimbleServerComposeAuthoritativeSteps` of src/lib/authoritative_steps.c: the loop ends within its
-- fuel and keeps the game valid.
use nimble_server_lib.Prelude.{
  ℕ, zero, suc, ◌+◌, ◌/◌, ◌<◌, ◌≡◌, refl, ◌∙◌, ℤ, pos, true, false, List, some, arith, length,
  Bool-cases, inl, inr, is_negative,
}
use nimble_server_lib.External.{External, StepsLib}
use nimble_server_lib.Participants.Slots.{Every}
use nimble_server_lib.Participants.Inv.{IsValid}
use nimble_server_lib.LocalParty.{LocalParty}
use nimble_server_lib.Game.{Game}
use nimble_server_lib.Advance.{should_advance_authoritative}
use nimble_server_lib.AuthoritativeSteps.{
  Weave, not_positive, compose_from, compose_authoritative_steps,
}
use nimble_server_lib.AuthoritativeSteps.Slot.{Housed}
use nimble_server_lib.AuthoritativeSteps.Round.{compose_one_lem}
use nimble_server_lib.Safety.Shapes.{shapes}
use nimble_server_lib.Safety.Compose.{compose_one-shapes}

-- A write that succeeds adds one step to the window.
abbrev pub WriteAdds : StepsLib → Type 0
WriteAdds sl =
    (s : sl.Steps) (id : ℕ) (octets : List ℕ)
    → is_negative (sl.steps_write s id octets).0 ≡ false
    → sl.steps_count (sl.steps_write s id octets).1 ≡ sl.steps_count s + 1

-- A game whose participants are valid and each in one of the parties.
pub record GameValid (e : External) (game : Game e.steps) (parties : List (LocalParty e.stats))
    : Type 0 where
  pub valid : IsValid game.participants
  pub housed : Every (λ i p. Housed (length parties) p) game.participants.participants

-- What the loop makes of a game and its parties: a valid game of the same capacity, and of each
-- party what other parts rely on.
pub record Composition (e : External) (game : Game e.steps) (parties : List (LocalParty e.stats))
    (game' : Game e.steps) (parties' : List (LocalParty e.stats)) : Type 0 where
  pub valid : GameValid e game' parties'
  pub capacity : game'.participants.participant_capacity ≡ game.participants.participant_capacity
  pub same : shapes parties' ≡ shapes parties

module _ (e : External) where
  advance_room :
      (game : Game e.steps)
      → should_advance_authoritative e.steps game.participants game.authoritative_steps ≡ true
      → e.steps.steps_count game.authoritative_steps < e.steps.window_size / 2
  unfolding should_advance_authoritative
  advance_room game h = ground arith

  compose_from-Composition :
      (fuel written : ℕ) (game : Game e.steps) (parties : List (LocalParty e.stats))
      → WriteAdds e.steps
      → GameValid e game parties
      → e.steps.window_size / 2 < fuel + e.steps.steps_count game.authoritative_steps
      → 0 < fuel
      → (result : ℤ) × (game' : Game e.steps) × (parties' : List (LocalParty e.stats))
        × (compose_from e fuel written game parties ≡ some (result, game', parties'))
        × Composition e game parties game' parties'
  unfolding compose_from
  compose_from-Composition zero written game parties law v h positive = absurd (omega arith)
  compose_from-Composition (suc fuel) written game parties law v h positive =
      let steps = game.authoritative_steps in
      let looking_for : ℕ = e.steps.expected_write_id steps in
      let one = compose_one_lem e game.participants parties looking_for 1024 v.valid v.housed in
      let w : Weave e = one.1 in
      let game' : Game e.steps = record game { participants = w.participants } in
      let result : ℤ = (e.steps.steps_write steps looking_for (e.out.octets w.stream)).0 in
      let game'' : Game e.steps = record game' {
        authoritative_steps = (e.steps.steps_write steps looking_for (e.out.octets w.stream)).1;
      } in
      let same = compose_one-shapes e game.participants parties looking_for 1024 one.0 w one.2 in
      let valid : GameValid e game' w.parties = record {
        valid = one.3.valid;
        housed = one.3.housed;
      } in
      let written_valid : GameValid e game'' w.parties = record {
        valid = one.3.valid;
        housed = one.3.housed;
      } in
      elim (Bool-cases (should_advance_authoritative e.steps game.participants steps)) [
        | inr stop ↦ (
          pos written,
          game,
          parties,
          simp stop,
          record { valid = v; capacity = refl; same = refl },
        )
        | inl go ↦ elim (Bool-cases (not_positive one.0)) [
          | inl bad ↦ (
            pos 0,
            game',
            w.parties,
            simp (go, one.2, bad),
            record { valid = valid; capacity = one.4; same = same },
          )
          | inr good ↦ elim (Bool-cases (is_negative result)) [
            | inl refused ↦ (
              result,
              game'',
              w.parties,
              simp (go, one.2, good, refused),
              record { valid = written_valid; capacity = one.4; same = same },
            )
            | inr written' ↦
                let rest =
                  compose_from-Composition fuel (written + 1) game'' w.parties law written_valid
                    (omega (arith, law steps looking_for (e.out.octets w.stream) written'))
                    (omega (arith, advance_room game go)) in
                (
                  rest.0,
                  rest.1,
                  rest.2,
                  simp (go, one.2, good, written', rest.3),
                  record {
                    valid = rest.4.valid;
                    capacity = rest.4.capacity ∙ one.4;
                    same = rest.4.same ∙ same;
                  },
                )
          ]
        ]
      ]

  pub compose_authoritative-Composition :
      (game : Game e.steps) (parties : List (LocalParty e.stats))
      → WriteAdds e.steps
      → GameValid e game parties
      → (result : ℤ) × (game' : Game e.steps) × (parties' : List (LocalParty e.stats))
        × (compose_authoritative_steps e game parties ≡ some (result, game', parties'))
        × Composition e game parties game' parties'
  unfolding compose_authoritative_steps
  compose_authoritative-Composition game parties law v =
      compose_from-Composition (e.steps.window_size / 2 + 1) 0 game parties law v (omega arith)
        (omega arith)

  -- If each write that succeeds adds one step to the authoritative steps, then from a valid game
  -- the loop returns: half a window of rounds is enough, no array is left and no NULL is followed,
  -- and the game it returns is valid, whatever the result.
  pub compose_authoritative_lem :
      (game : Game e.steps) (parties : List (LocalParty e.stats))
      → WriteAdds e.steps
      → GameValid e game parties
      → (result : ℤ) × (game' : Game e.steps) × (parties' : List (LocalParty e.stats))
        × (compose_authoritative_steps e game parties ≡ some (result, game', parties'))
        × GameValid e game' parties'
  compose_authoritative_lem game parties law v =
      let (result, game', parties', done, c) =
        compose_authoritative-Composition game parties law v in
      (result, game', parties', done, c.valid)
