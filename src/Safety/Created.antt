-- ===== src/Safety/Created.antt =====
-- A party that src/lib/local_parties.c creates for a client keeps the parties and the participants
-- tied.
use nimble_server_lib.Prelude.{
  ℕ, ◌+◌, ◌<◌, ◌≤◌, ◌≡◌, refl, ap, sym, ◌∙◌, subst, ℤ, pos, true, List, ◌∷◌, Option, none, some,
  arith, is_negative, get_elem?-lt-length, set, length, length-set, All, Some, Bool-cases,
  Option-cases, inl, inr, add_size, to_u8, ltb, ◌⊎◌,
}
use nimble_server_lib.Errors.{err_session_full, err_out_of_participant_memory}
use nimble_server_lib.External.{StepsLib, StatsLib, JoinPlayer}
use nimble_server_lib.Participants.{Participants, joined}
use nimble_server_lib.Participants.Slots.{Every, Every-set}
use nimble_server_lib.Participants.Join.{Joined, join-full}
use nimble_server_lib.AuthoritativeSteps.Slot.{Housed}
use nimble_server_lib.Participant
use nimble_server_lib.LocalParty.{LocalParty}
use nimble_server_lib.LocalParties.{LocalParties, find_free_from, find_free_party_place, create}
use nimble_server_lib.LocalParties.Create.{Placed, first_place, create_lem, create_no_place}
use nimble_server_lib.Safety.Shapes.{Link, shape, ShapeValid, Opened}
use nimble_server_lib.Safety.Valid.{Tied}
use nimble_server_lib.Safety.Tied.{Tied-pool, Tied-party, Tied-replace, parties_count-le}

module _ {st : StatsLib} {sl : StepsLib} where
  Joined-Tied :
      {ls : List Link} {parties : LocalParties st} {ps : Participants sl}
      (local_index i step_id id : ℕ) (qs : Participants sl)
      → Tied ls parties ps
      → i < length parties.parties
      → Joined ps local_index i step_id id qs
      → Tied ls parties qs
  Joined-Tied {ls} {parties} {ps} local_index i step_id id qs t h j =
      Tied-pool qs t j.valid
        (subst (Every (λ k p. Housed (length parties.parties) p)) (sym j.now) (
          Every-set (λ k p. Housed (length parties.parties) p) ps.participants id
            (joined j.slot id local_index i step_id) t.housed
            (unfold joined Participant.re_init in (λ u. (i, refl, h)))))
        (ap length j.now ∙ length-set ps.participants id (joined j.slot id local_index i step_id))

  Placed-Tied :
      {ls : List Link} {parties : LocalParties st} {ps : Participants sl} (i connection id : ℕ)
      (parties' : LocalParties st)
      → Tied ls parties ps
      → id < length ps.participants
      → Opened ls connection
      → Placed parties i connection id parties'
      → Tied ls parties' ps
  Placed-Tied {ls} {parties} {ps} i connection id parties' t h opened p =
      let room : add_size parties.parties_count 1 ≡ parties.parties_count + 1 =
        omega (arith, parties_count-le t, t.capacity, t.small) in
      let valid : ShapeValid (length ps.participants) ls (shape p.party) = (
        subst (All (λ r. r < length ps.participants)) (sym p.its_participants) (h, tt),
        subst (Some (Opened ls)) (sym p.its_connection) opened,
      ) in
      let replaced =
        Tied-replace i (add_size parties.parties_count 1) p.place p.party t p.was valid
          (ground (arith, room, p.was_free, p.in_use)) in
      let same : record parties {
        parties = set parties.parties i p.party;
        parties_count = add_size parties.parties_count 1;
      }
          ≡ parties' =
        λ k. record {
          parties = sym p.rest k;
          parties_count = sym p.more k;
          capacity_count = sym p.capacity k;
        } in
      subst (λ x. Tied ls x ps) same replaced

  -- What a party created for a connection that was opened leaves: the parties and the participants
  -- tied, and the place of the party, unless the result is an error.
  abbrev pub Creation :
      List Link → ℕ → Option (ℤ × Option ℕ × LocalParties st × Participants sl) → Type 0
  Creation ls capacity run =
      (result : ℤ) × (made : Option ℕ) × (parties' : LocalParties st) × (ps' : Participants sl)
      × (run ≡ some (result, made, parties', ps'))
      × Tied ls parties' ps'
      × ((is_negative result ≡ true) ⊎ ((i : ℕ) × (made ≡ some i) × (i < length parties'.parties)))

  pub create-Creation :
      (ls : List Link) (parties : LocalParties st) (ps : Participants sl) (connection : ℕ)
      (player : JoinPlayer) (players : List JoinPlayer) (step_id : ℕ)
      → Tied ls parties ps
      → Opened ls connection
      → Creation ls parties.capacity_count
          (create parties ps connection (player ∷ players) step_id 1)
  create-Creation ls parties ps connection player players step_id t opened =
      elim (Option-cases (find_free_from 0 parties.parties)) [
        | inl nowhere ↦ (
          err_out_of_participant_memory,
          none,
          parties,
          ps,
          create_no_place parties ps connection (player ∷ players) step_id 1 nowhere,
          t,
          inl refl,
        )
        | inr (i, here) ↦ elim (Bool-cases (ltb ps.participant_count ps.participant_capacity)) [
          | inl room ↦
              let (id, parties', qs, run, before, placed, joins) =
                create_lem parties ps connection player players step_id i here t.valid
                  (ground arith) in
              let in_range : i < length parties.parties =
                get_elem?-lt-length parties.parties i placed.place placed.was in
              let slot : id < length qs.participants = omega (
                arith,
                get_elem?-lt-length ps.participants id joins.slot joins.was,
                ap length joins.now,
                length-set ps.participants id (joined joins.slot id player.local_index i step_id),
              ) in
              (
                pos 0,
                some i,
                parties',
                qs,
                run,
                Placed-Tied i connection id parties'
                    (Joined-Tied player.local_index i step_id id qs t in_range joins) slot opened
                    placed,
                inr (
                  i,
                  refl,
                  omega (
                    arith,
                    in_range,
                    ap length placed.rest,
                    length-set parties.parties i placed.party,
                  ),
                ),
              )
          | inr full ↦ full_session i here (ground arith)
        ]
      ]
    where
      full_session :
          (i : ℕ)
          → find_free_from 0 parties.parties ≡ some i
          → ps.participant_capacity ≤ ps.participant_count
          → Creation ls parties.capacity_count
              (create parties ps connection (player ∷ players) step_id 1)
      full_session i here full =
          let (p, at, free) = first_place i parties.parties here in
          let named : LocalParty st = record p { id = to_u8 i } in
          (
            err_session_full,
            none,
            record parties { parties = set parties.parties i named },
            ps,
            unfold create find_free_party_place in
                simp (
                  create,
                  find_free_party_place,
                  here,
                  at,
                  join-full ps (player ∷ players) 1 i step_id
                      (omega (arith, t.valid.balance, t.valid.small)) (omega (arith, full)),
                ),
            Tied-party i p named t at refl,
            inl refl,
          )
