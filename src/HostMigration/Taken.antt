-- ===== src/HostMigration/Taken.antt =====
-- What preparing parties in `nimbleServerHostMigration` of src/lib/server.c does to the slots of the
-- participants.
use nimble_server_lib.Prelude.{
  ℕ, zero, suc, ◌+◌, ◌<◌, ◌≤◌, ◌≡◌, refl, ◌∙◌, ℤ, false, List, [], ◌∷◌, ◌++◌, Option, none, some,
  pos, arith, get_elem?, get_elem?-set_self, set, take?, take, Bool-cases, inl, inr, add_size,
  to_u8, length, is_negative, occurrences, occurrences-append, get_elem?-lt-length, Option-cases,
  ==→eq, leb, length-take,
}
use nimble_server_lib.External.{StepsLib, StatsLib}
use nimble_server_lib.Participant.{Participant}
use nimble_server_lib.Participants.{Participants}
use nimble_server_lib.Participants.Slots.{free_at}
use nimble_server_lib.Participants.Prepare.{SlotsValid, prepare_lem}
use nimble_server_lib.LocalParties
use nimble_server_lib.LocalParties.{
  LocalParties, LocalPartyInfo, prepare_participants, find_free_from, find_free_party_place,
  add_party, added, waiting_party,
}
use nimble_server_lib.LocalParties.Create.{first_place}
use nimble_server_lib.LocalParty.{LocalParty}
use nimble_server_lib.Errors.{err_out_of_participant_memory}
use nimble_server_lib.HostMigration.{prepare_parties}

-- The ids of a party.
abbrev pub ids_of : LocalPartyInfo → List ℕ
ids_of info = take info.participant_count info.participant_ids

-- The ids of all parties.
abbrev pub all_ids : List LocalPartyInfo → List ℕ
all_ids [] = []
all_ids (info ∷ infos) = ids_of info ++ all_ids infos

module _ {sl : StepsLib} where
  -- What preparing slots for `ids` makes of a collection.
  pub record Taken (ids : List ℕ) (ps qs : Participants sl) : Type 0 where
    pub valid : SlotsValid qs
    pub gone : (j : ℕ) → free_at qs.participants j + occurrences j ids ≡ free_at ps.participants j
    pub capacity : qs.participant_capacity ≡ ps.participant_capacity
    pub ring : qs.free_list ≡ ps.free_list

  pub free_at-le : (ps : List (Participant sl)) (j : ℕ) → free_at ps j ≤ 1
  free_at-le [] j = omega arith
  free_at-le (p ∷ ps) zero = ground arith
  free_at-le (p ∷ ps) (suc j) = free_at-le ps j

  prepare_participants-Taken :
      (ps : Participants sl) (index : ℕ) (ids : List ℕ) (party step_id : ℕ)
      → SlotsValid ps
      → index + length ids ≤ 16
      → ((j : ℕ) → occurrences j ids ≤ free_at ps.participants j)
      → (qs : Participants sl) × (prepare_participants ps index ids party step_id
          ≡ some (pos 0, ids, qs))
        × Taken ids ps qs
  unfolding prepare_participants
  prepare_participants-Taken ps index [] party step_id v few h =
      (ps, refl, record { valid = v; gone = λ j. omega arith; capacity = refl; ring = refl })
  prepare_participants-Taken ps index (id ∷ ids) party step_id v few h =
      let (qs, done, q) = prepare_lem ps id party step_id v (ground (arith, h id)) in
      let fits : leb 16 index ≡ false = ground (arith, few) in
      let (rs, rest, t) =
        prepare_participants-Taken qs (index + 1) ids party step_id q.valid (omega (arith, few))
          (λ j. ground (arith, h j, q.free j, free_at-le ps.participants j, ==→eq id j)) in
      (
        rs,
        simp (done, fits, rest),
        record {
          valid = t.valid;
          gone = λ j.
              ground (arith, h j, q.free j, t.gone j, free_at-le ps.participants j, ==→eq id j);
          capacity = t.capacity ∙ q.capacity;
          ring = t.ring ∙ q.ring;
        },
      )

-- Each party has an id at least and 16 at most, and all its ids are set.
abbrev pub Complete : List LocalPartyInfo → Type 0
Complete infos =
    (i : ℕ) (info : LocalPartyInfo)
    → get_elem? infos i ≡ some info
    → (0 < info.participant_count)
      × (info.participant_count ≤ 16)
      × (info.participant_count ≤ length info.participant_ids)

take?-take : (n : ℕ) (xs : List ℕ) → n ≤ length xs → take? n xs ≡ some (take n xs)
take?-take zero xs h = refl
take?-take (suc n) [] h = absurd (omega arith)
take?-take (suc n) (x ∷ xs) h = simp (take?-take n xs (omega arith))

take?-one :
    (n : ℕ) (xs : List ℕ) → 0 < n → n ≤ length xs → (x : ℕ) × (take? 1 (take n xs) ≡ some (x ∷ []))
take?-one zero xs h l = absurd (omega arith)
take?-one (suc n) [] h l = absurd (omega arith)
take?-one (suc n) (x ∷ xs) h l = (x, refl)

module _ {st : StatsLib} {sl : StepsLib} where
  -- A party is prepared for an entry or refused with an error.
  prepare-Taken :
      (ls : LocalParties st) (ps : Participants sl) (step_id : ℕ) (info : LocalPartyInfo)
      → SlotsValid ps
      → 0 < info.participant_count
      → info.participant_count ≤ 16
      → info.participant_count ≤ length info.participant_ids
      → ((j : ℕ) → occurrences j (ids_of info) ≤ free_at ps.participants j)
      → (result : ℤ) × (party : Option ℕ) × (ls' : LocalParties st) × (qs : Participants sl)
        × (LocalParties.prepare ls ps step_id info ≡ some (result, party, ls', qs))
        × (is_negative result ≡ false → Taken (ids_of info) ps qs)
  unfolding LocalParties.prepare find_free_party_place add_party
  prepare-Taken ls ps step_id info v some_id few ids_set free =
      elim (Option-cases (find_free_from 0 ls.parties)) [
        | inl full ↦ (
          err_out_of_participant_memory,
          none,
          ls,
          ps,
          simp (LocalParties.prepare, find_free_party_place, full),
          λ good. absurd (ground arith),
        )
        | inr (i, found) ↦
            let (p, at, unused) = first_place i ls.parties found in
            let (qs, done, taken) =
              prepare_participants-Taken ps 0 (ids_of info) i step_id v
                (omega
                  (arith, few, ids_set, length-take info.participant_count info.participant_ids))
                free in
            let (x, one) = take?-one info.participant_count info.participant_ids some_id ids_set in
            let p₁ : LocalParty st = record p { id = to_u8 i } in
            let parties₁ : List (LocalParty st) = set ls.parties i p₁ in
            let at₁ : get_elem? parties₁ i ≡ some p₁ =
              get_elem?-set_self ls.parties i p₁ (get_elem?-lt-length ls.parties i p at) in
            let p₂ : LocalParty st = added p₁ none (x ∷ []) in
            let parties₂ : List (LocalParty st) = set parties₁ i p₂ in
            let at₂ : get_elem? parties₂ i ≡ some p₂ =
              get_elem?-set_self parties₁ i p₂ (get_elem?-lt-length parties₁ i p₁ at₁) in
            (
              pos 0,
              some i,
              record ls {
                parties_count = add_size ls.parties_count 1;
                parties = set parties₂ i (waiting_party p₂);
              },
              qs,
              simp (
                LocalParties.prepare,
                find_free_party_place,
                add_party,
                found,
                at,
                take?-take info.participant_count info.participant_ids ids_set,
                done,
                at₁,
                one,
                at₂,
              ),
              λ good. taken,
            )
      ]

  pub prepare_parties-Taken :
      (ls : LocalParties st) (ps : Participants sl) (step_id : ℕ) (infos : List LocalPartyInfo)
      → SlotsValid ps
      → Complete infos
      → ((j : ℕ) → occurrences j (all_ids infos) ≤ free_at ps.participants j)
      → (result : ℤ) × (ls' : LocalParties st) × (qs : Participants sl) × (prepare_parties ls ps
            step_id infos
          ≡ some (result, ls', qs))
        × (is_negative result ≡ false → Taken (all_ids infos) ps qs)
  unfolding prepare_parties
  prepare_parties-Taken ls ps step_id [] v c free = (
    pos 0,
    ls,
    ps,
    refl,
    λ good. record { valid = v; gone = λ j. omega arith; capacity = refl; ring = refl },
  )
  prepare_parties-Taken ls ps step_id (info ∷ infos) v c free =
      let split : (j : ℕ)
          → occurrences j (all_ids (info ∷ infos))
            ≡ occurrences j (ids_of info) + occurrences j (all_ids infos) =
        λ j. occurrences-append j (ids_of info) (all_ids infos) in
      let (some_id, few, ids_set) = c 0 info refl in
      let (result, party, ls', qs, done, takes) =
        prepare-Taken ls ps step_id info v some_id few ids_set
          (λ j. omega (arith, free j, split j)) in
      elim (Bool-cases (is_negative result)) [
        | inl bad ↦ (result, ls', qs, simp (done, bad), λ good. absurd (ground arith))
        | inr good ↦
            let t = takes good in
            let (result', ls'', rs, rest, takes') =
              prepare_parties-Taken ls' qs step_id infos t.valid (λ i. c (suc i))
                (λ j. omega (arith, free j, split j, t.gone j)) in
            (
              result',
              ls'',
              rs,
              simp (done, good, rest),
              λ good'.
                  let t' = takes' good' in
                  record {
                    valid = t'.valid;
                    gone = λ j. omega (arith, split j, t.gone j, t'.gone j);
                    capacity = t'.capacity ∙ t.capacity;
                    ring = t'.ring ∙ t.ring;
                  },
            )
      ]
