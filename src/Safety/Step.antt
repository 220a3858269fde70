-- ===== src/Safety/Step.antt =====
-- A client's game step, in src/lib/req_step.c and src/lib/incoming_predicted_steps.c, keeps the
-- parties and the participants tied.
use nimble_server_lib.Prelude.{
  ℕ, ◌<◌, ◌≡◌, refl, ap, sym, ◌∙◌, subst, ℤ, List, Option, none, some, arith, length, Some,
  Bool-cases, inl, inr, is_negative,
}
use nimble_server_lib.External.{External}
use nimble_server_lib.LocalParty.{LocalParty}
use nimble_server_lib.LocalParties.{LocalParties}
use nimble_server_lib.AuthoritativeSteps.Loop.{WriteAdds}
use nimble_server_lib.Requests.Step.{StepReply, req_game_step}
use nimble_server_lib.Safety.Shapes.{Link, link}
use nimble_server_lib.Safety.Tied.{Tied-parties}
use nimble_server_lib.Safety.Reply.{send_step_ranges-link, update_stats-shapes}
use nimble_server_lib.Safety.Streams.{Sized}
use nimble_server_lib.Safety.Intake.{IntakeTied, Less, read_incoming_steps-Composing}

module _ (e : External) (sized : Sized e) where
  -- What a game step on the connection leaves: the connection keeps its id, its use and its party.
  abbrev pub Stepped :
      List Link → LocalParties e.stats → StepReply e → Option (ℤ × StepReply e) → Type 0
  Stepped ls parties r run =
      (result : ℤ) × (r' : StepReply e) × (run ≡ some (result, r'))
      × IntakeTied e sized ls parties r'.intake
      × (link r'.connection ≡ link r.connection)
      × Less e sized r.intake r'.intake

  -- A game step returns, and keeps the parties and the participants tied.
  pub req_game_step-Stepped :
      (ls : List Link) (parties : LocalParties e.stats) (r : StepReply e)
      → WriteAdds e.steps
      → IntakeTied e sized ls parties r.intake
      → Some (λ i. i < parties.capacity_count) r.connection.assigned_party
      → Stepped ls parties r (req_game_step e r)
  unfolding req_game_step
  req_game_step-Stepped ls parties r law t h =
      let (result, waiting_for, mask, w, per_second, read, t₁, less) =
        read_incoming_steps-Composing e sized ls parties r.intake r.connection.assigned_party
          r.per_second law t h in
      let steps = w.game.authoritative_steps in
      let (c, ps, stats, same, shaped) =
        update_stats-shapes e r.connection w.parties steps waiting_for
          (in_range w.parties r.connection.assigned_party t₁.capacity h) in
      let t₂ : IntakeTied e sized ls parties (record w { parties = ps }) = Tied-parties t₁ shaped in
      let (sent, c', out, replied, same') =
        send_step_ranges-link e r.out c steps ps waiting_for mask (
          in_range ps c.assigned_party t₂.capacity (
            subst (Some (λ i. i < parties.capacity_count)) (sym (ap (λ (l : Link). l.party) same))
              h)) in
      elim (Bool-cases (is_negative result)) [
        | inl bad ↦ (
          result,
          record r { intake = w; per_second = per_second },
          simp (read, bad),
          t₁,
          refl,
          less,
        )
        | inr good ↦ (
          sent,
          record {
            intake = record w { parties = ps };
            connection = c';
            per_second = per_second;
            out = out;
          },
          simp (read, good, stats, replied),
          t₂,
          same' ∙ same,
          less,
        )
      ]
    where
      in_range :
          (ps : List (LocalParty e.stats)) (o : Option ℕ)
          → length ps ≡ parties.capacity_count
          → Some (λ i. i < parties.capacity_count) o
          → Some (λ i. i < length ps) o
      in_range ps none e h = tt
      in_range ps (some i) e h = omega (arith, e, h)
