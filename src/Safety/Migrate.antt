-- ===== src/Safety/Migrate.antt =====
-- The parties that `nimbleServerHostMigration` of src/lib/server.c prepares, through
-- src/lib/local_parties.c and src/lib/participants.c, are tied to their participants.
use nimble_server_lib.Prelude.{
  ℕ, ◌+◌, ◌<◌, ◌≤◌, ◌^◌, ◌≡◌, refl, ap, sym, ◌∙◌, subst, ℤ, pos, true, false, List, [], ◌∷◌, Option,
  none, some, ◌>>=◌, >>=-eq-some, arith, is_negative, get_elem?, get_elem?-lt-length,
  get_elem?-set_self, set, set_twice, take?, length, length-set, All, All-set, Bool-cases,
  Option-cases, inl, inr, add_size, to_u8, to_ℕ,
}
use nimble_server_lib.External.{StepsLib, StatsLib}
use nimble_server_lib.Participants.{Participants}
use nimble_server_lib.Participants.Slots.{Every}
use nimble_server_lib.AuthoritativeSteps.Slot.{Housed}
use nimble_server_lib.LocalParty
use nimble_server_lib.LocalParty.{LocalParty}
use nimble_server_lib.LocalParties
use nimble_server_lib.LocalParties.{
  LocalParties, LocalPartyInfo, find_free_from, find_free_party_place, prepare_participants,
  add_party, added, waiting_party,
}
use nimble_server_lib.LocalParties.Create.{first_place}
use nimble_server_lib.HostMigration.{prepare_parties}
use nimble_server_lib.Safety.Shapes.{
  Shape, Link, shape, shapes, length-shapes, shapes-set, get_elem?-shapes, used_shapes,
  used_shapes-set, used_shapes-le, ShapeValid,
}
use nimble_server_lib.Safety.Housing.{Housing, prepare_participants-Housing}

module _ {st : StatsLib} {sl : StepsLib} where
  -- What preparing parties keeps: the participants are in parties, the parties refer to slots of the
  -- array, and the parties in use are counted.
  pub record Settled (ls : List Link) (n : ℕ) (parties : LocalParties st) (ps : Participants sl)
      : Type 0 where
    pub housed : Every (λ i p. Housed (length parties.parties) p) ps.participants
    pub slots : length ps.participants ≡ n
    pub shaped : All (ShapeValid n ls) (shapes parties.parties)
    pub counted : parties.parties_count ≡ used_shapes (shapes parties.parties)
    pub capacity : length parties.parties ≡ parties.capacity_count
    pub small : parties.capacity_count + 1 < 2 ^ 64

  -- A party in use that refers to slots of the array, and has no connection, takes a free place.
  placed-Settled :
      (ls : List Link) (n : ℕ) (parties : LocalParties st) (ps qs : Participants sl) (i x : ℕ)
      (p q : LocalParty st)
      → Settled ls n parties ps
      → Housing (length parties.parties) ps (pos 0, x ∷ [], qs)
      → get_elem? parties.parties i ≡ some p
      → p.is_used ≡ false
      → shape q ≡ record { used = true; refs = x ∷ []; connection = none }
      → Settled ls n
          (record parties {
            parties_count = add_size parties.parties_count 1;
            parties = set parties.parties i q;
          })
          qs
  placed-Settled ls n parties ps qs i x p q s h at free its = record {
    housed = subst (λ m. Every (λ i p. Housed m p) qs.participants) as_many h.housed;
    slots = h.slots ∙ s.slots;
    shaped = subst (All (ShapeValid n ls)) (sym now) (
        All-set (ShapeValid n ls) (shapes parties.parties) i (shape q) s.shaped
          (subst (ShapeValid n ls) (sym its) ((subst (λ k. x < k) s.slots h.inside.0, tt), tt)));
    counted = omega (
      arith,
      more,
      s.counted,
      room,
      ap used_shapes now,
      in_use,
      nobody,
      used_shapes-set (shapes parties.parties) i (shape p) (shape q)
          (get_elem?-shapes parties.parties i p at),
    );
    capacity = sym as_many ∙ s.capacity;
    small = s.small;
  }
    where
      now : shapes (set parties.parties i q) ≡ set (shapes parties.parties) i (shape q)
      now = shapes-set parties.parties i q

      as_many : length parties.parties ≡ length (set parties.parties i q)
      as_many = sym (length-set parties.parties i q)

      room : parties.parties_count ≤ length parties.parties
      room =
          omega (
            arith,
            s.counted,
            used_shapes-le (shapes parties.parties),
            length-shapes parties.parties,
          )

      more : add_size parties.parties_count 1 ≡ parties.parties_count + 1
      more = omega (arith, room, s.capacity, s.small)

      in_use : to_ℕ (shape q).used ≡ 1
      in_use = ap (λ (y : Shape). to_ℕ y.used) its

      nobody : to_ℕ p.is_used ≡ 0
      nobody = ap to_ℕ free

  -- What `nimbleServerLocalPartiesPrepare` does once the participants are there.
  abbrev placing :
      LocalParties st
      → Participants sl
      → ℕ
      → LocalParty st
      → List ℕ
      → Option (LocalParties.Made st sl)
  placing parties qs i p created = do
    ls₂ ←
        add_party (record parties { parties = set parties.parties i (record p { id = to_u8 i }) }) i
          none created 1
    q ← get_elem? ls₂.parties i
    some (pos 0, some i, record ls₂ { parties = set ls₂.parties i (waiting_party q) }, qs)

  placing-Settled :
      (ls : List Link) (n : ℕ) (parties : LocalParties st) (ps qs : Participants sl) (i : ℕ)
      (p : LocalParty st) (result : ℤ) (created : List ℕ) (out : LocalParties.Made st sl)
      → Settled ls n parties ps
      → Housing (length parties.parties) ps (result, created, qs)
      → get_elem? parties.parties i ≡ some p
      → p.is_used ≡ false
      → placing parties qs i p created ≡ some out
      → Settled ls n out.2 out.3
  unfolding add_party LocalParty.re_init
  placing-Settled ls n parties ps qs i p result created out s h at free run =
      of_created created h run
    where
      p₁ : LocalParty st
      p₁ = record p { id = to_u8 i }

      parties₁ : List (LocalParty st)
      parties₁ = set parties.parties i p₁

      at₁ : get_elem? parties₁ i ≡ some p₁
      at₁ = get_elem?-set_self parties.parties i p₁ (get_elem?-lt-length parties.parties i p at)

      of_created :
          (created : List ℕ)
          → Housing (length parties.parties) ps (result, created, qs)
          → placing parties qs i p created ≡ some out
          → Settled ls n out.2 out.3
      of_created [] h run = absurd (ground (arith, run, at₁))
      of_created (x ∷ xs) h run =
          let p₂ : LocalParty st = added p₁ none (x ∷ []) in
          let q : LocalParty st = waiting_party p₂ in
          let at₂ : get_elem? (set parties₁ i p₂) i ≡ some p₂ =
            get_elem?-set_self parties₁ i p₂ (get_elem?-lt-length parties₁ i p₁ at₁) in
          let final =
            placed-Settled ls n parties ps qs i x p q s
              (record { housed = h.housed; slots = h.slots; inside = (h.inside.0, tt) }) at free
              refl in
          let once : set (set parties₁ i p₂) i q ≡ set parties.parties i q =
            set_twice parties₁ i p₂ q ∙ set_twice parties.parties i p₁ q in
          let moved =
            subst
              (λ ys.
                Settled ls n
                  (record parties {
                    parties_count = add_size parties.parties_count 1;
                    parties = ys;
                  })
                  qs)
              (sym once) final in
          let placed : LocalParties st = record parties {
            parties_count = add_size parties.parties_count 1;
            parties = set (set parties₁ i p₂) i q;
          } in
          let run' : some (pos 0, some i, placed, qs) ≡ some out =
            sym (simp (add_party, at₁, at₂)) ∙ run in
          subst (λ (o : LocalParties.Made st sl). Settled ls n o.2 o.3)
            {x = (pos 0, some i, placed, qs)} {y = out} (ground (arith, run')) moved

  prepare-Settled :
      (ls : List Link) (n : ℕ) (parties : LocalParties st) (ps : Participants sl) (step_id : ℕ)
      (info : LocalPartyInfo) (out : LocalParties.Made st sl)
      → Settled ls n parties ps
      → LocalParties.prepare parties ps step_id info ≡ some out
      → is_negative out.0 ≡ false
      → Settled ls n out.2 out.3
  unfolding LocalParties.prepare find_free_party_place
  prepare-Settled ls n parties ps step_id info out s run good =
      elim (Option-cases (find_free_from 0 parties.parties)) [
        | inl nowhere ↦ absurd (ground (arith, run, nowhere, good))
        | inr (i, found) ↦
            let (p, at, free) = first_place i parties.parties found in of_place i p found at free
      ]
    where
      of_place :
          (i : ℕ) (p : LocalParty st)
          → find_free_from 0 parties.parties ≡ some i
          → get_elem? parties.parties i ≡ some p
          → p.is_used ≡ false
          → Settled ls n out.2 out.3
      of_place i p found at free =
          let run₀ = simp (LocalParties.prepare, find_free_party_place, found, at) at run in
          let (ids, given, run₁) =
            >>=-eq-some (take? info.participant_count info.participant_ids) _ run₀ in
          let (r, prepares, run₂) = >>=-eq-some (prepare_participants ps 0 ids i step_id) _ run₁ in
          let h =
            prepare_participants-Housing (length parties.parties) ps 0 ids i step_id r
              (get_elem?-lt-length parties.parties i p at) s.housed prepares in
          elim (Bool-cases (is_negative r.0)) [
            | inl bad ↦ absurd (ground (arith, run₂, bad, good))
            | inr fine ↦
                placing-Settled ls n parties ps r.2 i p r.0 r.1 out s h at free
                  (ground (arith, run₂, fine))
          ]

  -- The loop over the parties of the old host, unless it ends with an error.
  pub prepare_parties-Settled :
      (ls : List Link) (n : ℕ) (parties : LocalParties st) (ps : Participants sl) (step_id : ℕ)
      (infos : List LocalPartyInfo) (out : ℤ × LocalParties st × Participants sl)
      → Settled ls n parties ps
      → prepare_parties parties ps step_id infos ≡ some out
      → is_negative out.0 ≡ false
      → Settled ls n out.1 out.2
  unfolding prepare_parties
  prepare_parties-Settled ls n parties ps step_id [] out s run good =
      subst (λ (o : ℤ × LocalParties st × Participants sl). Settled ls n o.1 o.2)
        {x = (pos 0, parties, ps)} {y = out} (ground (arith, run)) s
  prepare_parties-Settled ls n parties ps step_id (info ∷ infos) out s run good =
      let (r, one, run₁) = >>=-eq-some (LocalParties.prepare parties ps step_id info) _ run in
      elim (Bool-cases (is_negative r.0)) [
        | inl bad ↦ absurd (ground (arith, run₁, bad, good))
        | inr fine ↦
            prepare_parties-Settled ls n r.2 r.3 step_id infos out
              (prepare-Settled ls n parties ps step_id info r s one fine)
              (ground (arith, run₁, fine)) good
      ]
