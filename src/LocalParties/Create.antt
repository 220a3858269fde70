-- ===== src/LocalParties/Create.antt =====
-- `nimbleServerLocalPartiesCreate` of src/lib/local_parties.c.
use nimble_server_lib.Prelude.{
  ℕ, suc, ◌+◌, ◌<◌, ◌≡◌, refl, ap, ◌∙◌, true, false, List, [], ◌∷◌, none, some, pos, arith,
  get_elem?, get_elem?-lt-length, get_elem?-set_self, set, set_twice, Bool-cases, inl, inr,
  add_size, to_u8, ◌^◌, All, take, subst,
}
use nimble_server_lib.Errors.{err_session_full, err_out_of_participant_memory}
use nimble_server_lib.External.{StepsLib, StatsLib, JoinPlayer}
use nimble_server_lib.Participants.{Participants}
use nimble_server_lib.Participants.Inv.{IsValid}
use nimble_server_lib.Participants.Join.{Joined, join-Joined, join-full}
use nimble_server_lib.LocalParty
use nimble_server_lib.LocalParty.{LocalParty}
use nimble_server_lib.LocalParties.{
  LocalParties, find_free_from, find_free_party_place, add_party, create, added,
}

module _ {st : StatsLib} where
  free_place :
      (start i : ℕ) (ps : List (LocalParty st))
      → find_free_from start ps ≡ some i
      → (j : ℕ) × (i ≡ start + j)
        × (p : LocalParty st) × (get_elem? ps j ≡ some p)
        × (p.is_used ≡ false)
        × All (λ q. q.is_used ≡ true) (take j ps)
  unfolding find_free_from
  free_place start i [] h = absurd (ground arith)
  free_place start i (p ∷ ps) h = elim (Bool-cases p.is_used) [
    | inr free ↦ (0, ground arith, p, refl, free, tt)
    | inl used ↦
        let (j, at, q, here, free, before) = free_place (start + 1) i ps (ground arith) in
        (suc j, omega (arith, at), q, here, free, (used, before))
  ]

  pub first_place :
      (i : ℕ) (ps : List (LocalParty st))
      → find_free_from 0 ps ≡ some i
      → (p : LocalParty st) × (get_elem? ps i ≡ some p) × (p.is_used ≡ false)
  first_place i ps h =
      let (j, e, p, at, free, before) = free_place 0 i ps h in
      let same : i ≡ j = omega (arith, e) in (p, ap (get_elem? ps) same ∙ at, free)

  used_before :
      (i : ℕ) (ps : List (LocalParty st))
      → find_free_from 0 ps ≡ some i
      → All (λ p. p.is_used ≡ true) (take i ps)
  used_before i ps h =
      let (j, e, p, at, free, before) = free_place 0 i ps h in
      subst (λ k. All (λ p. p.is_used ≡ true) (take k ps)) {x = j} {y = i} (omega (arith, e)) before

  -- What a creation does to the place `i`: it was free, and holds a party in use with the one
  -- participant `id`, the connection and the place's index as its id.
  pub record Placed (ls : LocalParties st) (i connection id : ℕ) (ls' : LocalParties st)
      : Type 0 where
    pub place : LocalParty st
    pub was : get_elem? ls.parties i ≡ some place
    pub was_free : place.is_used ≡ false
    pub party : LocalParty st
    pub now : get_elem? ls'.parties i ≡ some party
    pub in_use : party.is_used ≡ true
    pub its_id : party.id ≡ to_u8 i
    pub its_participants : party.participant_references ≡ id ∷ []
    pub its_connection : party.transport_connection ≡ some connection
    pub more : ls'.parties_count ≡ add_size ls.parties_count 1
    pub rest : ls'.parties ≡ set ls.parties i party
    pub capacity : ls'.capacity_count ≡ ls.capacity_count

module _ {st : StatsLib} {sl : StepsLib} where
  -- With a free place and room left in a valid collection of participants, a party with one player
  -- is created at the first free place, all places before which are used: its participant has joined
  -- in a slot that was free, and the party refers to it, and no other place changes.
  pub create_lem :
      (ls : LocalParties st) (ps : Participants sl) (connection : ℕ) (player : JoinPlayer)
      (players : List JoinPlayer) (step_id i : ℕ)
      → find_free_from 0 ls.parties ≡ some i
      → IsValid ps
      → ps.participant_count < ps.participant_capacity
      → (id : ℕ) × (ls' : LocalParties st) × (qs : Participants sl) × (create ls ps connection
            (player ∷ players)
            step_id
            1
          ≡ some (pos 0, some i, ls', qs))
        × All (λ p. p.is_used ≡ true) (take i ls.parties)
        × Placed ls i connection id ls'
        × Joined ps player.local_index i step_id id qs
  unfolding create find_free_party_place add_party LocalParty.re_init
  create_lem ls ps connection player players step_id i h v room =
      let (p, at, free) = first_place i ls.parties h in
      let (id, qs, done, joins) = join-Joined ps player players i step_id v room in
      let p₁ : LocalParty st = record p { id = to_u8 i } in
      let parties₁ : List (LocalParty st) = set ls.parties i p₁ in
      let q : LocalParty st = added p₁ (some connection) (id ∷ []) in
      let at₁ : get_elem? parties₁ i ≡ some p₁ =
        get_elem?-set_self ls.parties i p₁ (get_elem?-lt-length ls.parties i p at) in
      (
        id,
        record ls { parties_count = add_size ls.parties_count 1; parties = set parties₁ i q },
        qs,
        simp (create, find_free_party_place, add_party, h, at, done, at₁),
        used_before i ls.parties h,
        record {
          place = p;
          was = at;
          was_free = free;
          party = q;
          now = get_elem?-set_self parties₁ i q (get_elem?-lt-length parties₁ i p₁ at₁);
          in_use = refl;
          its_id = refl;
          its_participants = refl;
          its_connection = refl;
          more = refl;
          rest = set_twice ls.parties i p₁ q;
          capacity = refl;
        },
        joins,
      )

  -- Without a free place no party is created, and nothing changes.
  pub create_no_place :
      (ls : LocalParties st) (ps : Participants sl) (connection : ℕ) (players : List JoinPlayer)
      (step_id n : ℕ)
      → find_free_from 0 ls.parties ≡ none
      → create ls ps connection players step_id n
        ≡ some (err_out_of_participant_memory, none, ls, ps)
  unfolding create find_free_party_place
  create_no_place ls ps connection players step_id n h = simp (create, find_free_party_place, h)

  -- With a free place but no room for the players, the session is full: the participants stay as
  -- they are and no party is added.
  pub create_full :
      (ls : LocalParties st) (ps : Participants sl) (connection : ℕ) (players : List JoinPlayer)
      (step_id n i : ℕ)
      → ps.participant_count + n < 2 ^ 64
      → find_free_from 0 ls.parties ≡ some i
      → ps.participant_capacity < ps.participant_count + n
      → (ls' : LocalParties st) × (create ls ps connection players step_id n
          ≡ some (err_session_full, none, ls', ps))
        × (ls'.parties_count ≡ ls.parties_count)
  unfolding create find_free_party_place
  create_full ls ps connection players step_id n i w h full =
      let (p, at, free) = first_place i ls.parties h in
      (
        record ls { parties = set ls.parties i (record p { id = to_u8 i }) },
        simp (create, find_free_party_place, h, at, join-full ps players n i step_id w full),
        refl,
      )
