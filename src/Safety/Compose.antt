-- ===== src/Safety/Compose.antt =====
-- Composing steps, in src/lib/authoritative_steps.c, changes nothing of a party that other parts
-- rely on, and keeps the number of slots.
use nimble_server_lib.Prelude.{
  ℕ, zero, suc, ◌+◌, ◌≡◌, refl, ap, ◌∙◌, sym, ℤ, >>=-eq-some, List, Option, none, some, arith,
  get_elem?, set, Bool-cases, Option-cases, inl, inr, is_negative, eqb_ℤ, to_u8,
}
use nimble_server_lib.External.{External, StatsLib, StepType}
use nimble_server_lib.Quality.{ConnectionQuality, added_forced_steps, provided_usable_step}
use nimble_server_lib.Participant.{Participant}
use nimble_server_lib.Participants.{Participants}
use nimble_server_lib.LocalParty.{LocalParty}
use nimble_server_lib.AuthoritativeSteps.{
  Weave, rate, read_step, settle_state, write_entry, compose_used, compose_slot, compose_slots,
  compose_one_authoritative_step,
}
use nimble_server_lib.Safety.Shapes.{shapes, shapes-set_same}

module _ {st : StatsLib} where
  rate-shapes :
      (f : ConnectionQuality → ConnectionQuality) (o : Option ℕ)
      (parties parties' : List (LocalParty st))
      → rate f o parties ≡ some parties'
      → shapes parties' ≡ shapes parties
  unfolding rate
  rate-shapes f none parties parties' h = absurd (ground arith)
  rate-shapes f (some i) parties parties' h = elim (Option-cases (get_elem? parties i)) [
    | inl outside ↦ absurd (ground (arith, h, outside))
    | inr (p, at) ↦
        let q = record p { quality = f p.quality } in
        let same : set parties i q ≡ parties' = ground (arith, h, at) in
        ap shapes (sym same) ∙ shapes-set_same parties i p q at refl
  ]

module _ (e : External) where
  open e.steps use {steps_read_exact, err_collection_is_empty, convert_u8}

  read_step-shapes :
      (p p' : Participant e.steps) (looking_for count : ℕ) (kind : StepType) (buffer : List ℕ)
      (parties parties' : List (LocalParty e.stats))
      → read_step e p looking_for parties ≡ some (kind, count, buffer, p', parties')
      → shapes parties' ≡ shapes parties
  unfolding read_step
  read_step-shapes p p' looking_for count kind buffer parties parties' h =
      let (result, octets, steps) = steps_read_exact p.steps looking_for 1024 in
      elim (Bool-cases (is_negative result)) [
        | inl bad ↦ elim (Bool-cases (eqb_ℤ result err_collection_is_empty)) [
          | inl empty ↦
              elim (Option-cases (rate (λ q. added_forced_steps q 1) p.in_party parties)) [
                | inl none_found ↦ absurd (ground (arith, h, bad, empty, none_found))
                | inr (qs, rated) ↦
                    ap shapes {x = parties'} {y = qs} (ground (arith, h, bad, empty, rated))
                    ∙ rate-shapes (λ q. added_forced_steps q 1) p.in_party parties qs rated
              ]
          | inr corrupt ↦ ap shapes {x = parties'} {y = parties} (ground (arith, h, bad, corrupt))
        ]
        | inr good ↦ elim (Option-cases (rate provided_usable_step p.in_party parties)) [
          | inl none_found ↦ absurd (ground (arith, h, good, none_found))
          | inr (qs, rated) ↦
              ap shapes {x = parties'} {y = qs} (ground (arith, h, good, rated))
              ∙ rate-shapes provided_usable_step p.in_party parties qs rated
        ]
      ]

  compose_used-shapes :
      (looking_for i : ℕ) (w w' : Weave e) (p : Participant e.steps) (result : ℤ)
      → compose_used e looking_for i w p ≡ some (result, w')
      → shapes w'.parties ≡ shapes w.parties
  unfolding compose_used
  compose_used-shapes looking_for i w w' p result h =
      let (r, read, h₁) = >>=-eq-some (read_step e p looking_for w.parties) _ h in
      let (s, settled, h₂) =
        >>=-eq-some
          (settle_state
            (record (w.participants) { participants = set w.participants.participants i r.3 }) i r.3
            r.0)
          _ h₁ in
      let (x, written, h₃) = >>=-eq-some (write_entry e r.3 s.0 r.1 r.2 r.4 w.stream) _ h₂ in
      ap shapes {x = w'.parties} {y = r.4} (ground (arith, h₃))
      ∙ read_step-shapes p r.3 looking_for r.1 r.0 r.2 w.parties r.4 read

  compose_slot-shapes :
      (looking_for i : ℕ) (w w' : Weave e) (result : ℤ)
      → compose_slot e looking_for i w ≡ some (result, w')
      → shapes w'.parties ≡ shapes w.parties
  unfolding compose_slot
  compose_slot-shapes looking_for i w w' result h =
      let (p, at, h₁) = >>=-eq-some (get_elem? w.participants.participants i) _ h in
      elim (Bool-cases p.is_used) [
        | inr unused ↦
            ap (λ (x : Weave e). shapes x.parties) {x = w'} {y = w} (ground (arith, h₁, unused))
        | inl used ↦ compose_used-shapes looking_for i w w' p result (ground (arith, h₁, used))
      ]

  compose_slots-shapes :
      (looking_for i n : ℕ) (w w' : Weave e) (result : ℤ)
      → compose_slots e looking_for i n w ≡ some (result, w')
      → shapes w'.parties ≡ shapes w.parties
  unfolding compose_slots
  compose_slots-shapes looking_for i zero w w' result h =
      ap (λ (x : Weave e). shapes x.parties) {x = w'} {y = w} (ground (arith, h))
  compose_slots-shapes looking_for i (suc n) w w' result h =
      let (r, one, h₁) = >>=-eq-some (compose_slot e looking_for i w) _ h in
      elim (Bool-cases (is_negative r.0)) [
        | inl bad ↦
            ap (λ (x : Weave e). shapes x.parties) {x = w'} {y = r.1} (ground (arith, h₁, bad))
            ∙ compose_slot-shapes looking_for i w r.1 r.0 one
        | inr good ↦
            compose_slots-shapes looking_for (i + 1) n r.1 w' result (ground (arith, h₁, good))
            ∙ compose_slot-shapes looking_for i w r.1 r.0 one
      ]

  pub compose_one-shapes :
      (ps : Participants e.steps) (parties : List (LocalParty e.stats)) (looking_for size : ℕ)
      (count : ℤ) (w : Weave e)
      → compose_one_authoritative_step e ps parties looking_for size ≡ some (count, w)
      → shapes w.parties ≡ shapes parties
  unfolding compose_one_authoritative_step
  compose_one-shapes ps parties looking_for size count w h =
      let start : Weave e = record {
        participants = ps;
        parties = parties;
        stream = (e.out.write_u8 (e.out.out_init size) (to_u8 ps.participant_count)).1;
      } in
      let (r, all, h₁) =
        >>=-eq-some (compose_slots e looking_for 0 ps.participant_capacity start) _ h in
      ap (λ (x : Weave e). shapes x.parties) {x = w} {y = r.1} (ground (arith, h₁))
      ∙ compose_slots-shapes looking_for 0 ps.participant_capacity start r.1 r.0 all
