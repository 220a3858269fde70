-- ===== src/Server/Dissolve.antt =====
-- What `tickParties` of src/lib/server.c does to a party that has waited too long for a rejoin.
use nimble_server_lib.Prelude.{
  ℕ, ◌<◌, ◌≡◌, refl, ap, sym, ◌∙◌, true, false, List, [], ◌∷◌, some, arith, get_elem?,
  get_elem?-lt-length, get_elem?-set_self, get_elem?-set_ne, set, ltb, ◌==◌, ==→eq, add_size,
  sub_size, to_u8, occurrences, Bool-cases, Option-cases, inl, inr, ◌⊎◌, subst,
}
use native.Mathlib.Decide.{ℕ_discrete}
use nimble_server_lib.External.{External, StepsLib}
use nimble_server_lib.CircularBuffer as Ring
use nimble_server_lib.Participant.{Participant, ParticipantState, for_references, mark_as_leaving}
use nimble_server_lib.LocalParty
use nimble_server_lib.LocalParty.{LocalParty, PartyState}
use nimble_server_lib.LocalParties
use nimble_server_lib.LocalParties.{LocalParties}
use nimble_server_lib.TransportConnection
use nimble_server_lib.TransportConnection.{TransportConnection}
use nimble_server_lib.Server.{
  Server, tick_party, destroy_party, disconnect_transport_connection, with_participants,
}

module _ {sl : StepsLib} where
  abbrev pub Leaving : List (Participant sl) → ℕ → Type 0
  Leaving ps j =
      (q : Participant sl) × (get_elem? ps j ≡ some q) × (q.state ≡ ParticipantState.leaving)

  mark_one :
      (ps : List (Participant sl)) (r j : ℕ) (p : Participant sl)
      → get_elem? ps r ≡ some p
      → Leaving ps j ⊎ (r ≡ j)
      → Leaving (set ps r (mark_as_leaving p)) j
  unfolding mark_as_leaving
  mark_one ps r j p at known = elim (ℕ_discrete r j) [
    | yes same ↦ (
      mark_as_leaving p,
      ap (get_elem? (set ps r (mark_as_leaving p))) (sym same)
          ∙ get_elem?-set_self ps r (mark_as_leaving p) (get_elem?-lt-length ps r p at),
      refl,
    )
    | no other ↦ elim known [
      | inr same ↦ absurd (other same)
      | inl (q, here, leaving) ↦
          (q, get_elem?-set_ne ps r j (mark_as_leaving p) other ∙ here, leaving)
    ]
  ]

  marked-Leaving :
      (rs : List ℕ) (ps qs : List (Participant sl)) (j : ℕ)
      → for_references mark_as_leaving rs ps ≡ some qs
      → Leaving ps j ⊎ (0 < occurrences j rs)
      → Leaving qs j
  unfolding for_references
  marked-Leaving [] ps qs j h (inl l) =
      subst (λ (xs : List (Participant sl)). Leaving xs j) (ground (arith, h)) l
  marked-Leaving [] ps qs j h (inr m) = absurd (omega arith)
  marked-Leaving (r ∷ rs) ps qs j h known = elim (Option-cases (get_elem? ps r)) [
    | inl outside ↦ absurd (ground (arith, h, outside))
    | inr (p, at) ↦
        let rest : for_references mark_as_leaving rs (set ps r (mark_as_leaving p)) ≡ some qs =
          ground (arith, h, at) in
        marked-Leaving rs (set ps r (mark_as_leaving p)) qs j rest (elim known [
          | inl l ↦ inl (mark_one ps r j p at (inl l))
          | inr m ↦ elim (Bool-cases (r == j)) [
            | inl same ↦ inl (mark_one ps r j p at (inr (==→eq r j same)))
            | inr other ↦ inr (ground (arith, m, other))
          ]
        ])
  ]

-- What is left of a party that is dissolved: its place is free and has no participants, those it had
-- are leaving, it is not counted any more, and its connection is disconnected and free again.
pub record Dissolved {e : External} (self : Server e) (i t : ℕ) (p : LocalParty e.stats)
    (c : TransportConnection e) (self' : Server e) : Type 0 where
  pub place : LocalParty e.stats
  pub now : get_elem? self'.local_parties.parties i ≡ some place
  pub unused : place.is_used ≡ false
  pub nobody : place.participant_references ≡ []
  pub fewer : self'.local_parties.parties_count ≡ sub_size self.local_parties.parties_count 1
  pub leaving :
      (j : ℕ)
      → 0 < occurrences j p.participant_references
      → Leaving self'.game.participants.participants j
  pub closed : get_elem? self'.transport_connections t ≡ some (TransportConnection.disconnect c)
  pub free :
      self'.free_transport_connection_list
      ≡ Ring.write self.free_transport_connection_list (to_u8 c.id)

module _ {e : External} where
  -- When a party in use that waits for a rejoin reaches its limit, and its participants and its
  -- connection stand in their arrays, the tick dissolves it: its place is free and without
  -- participants, those it had are leaving, the parties are one fewer, and its connection is
  -- disconnected and listed as free.
  pub tick_party-Dissolved :
      (self : Server e) (i t : ℕ) (p : LocalParty e.stats) (c : TransportConnection e)
      (ps : List (Participant e.steps))
      → get_elem? self.local_parties.parties i ≡ some p
      → p.is_used ≡ true
      → p.state ≡ PartyState.waiting_for_re_join
      → ltb (add_size p.waiting_for_reconnect_timer 1) p.waiting_for_reconnect_max_timer ≡ false
      → for_references mark_as_leaving p.participant_references self.game.participants.participants
        ≡ some ps
      → p.transport_connection ≡ some t
      → get_elem? self.transport_connections t ≡ some c
      → (self' : Server e) × (tick_party self i ≡ some self') × Dissolved self i t p c self'
  unfolding tick_party LocalParty.tick LocalParty.tick_waiting_for_reconnect destroy_party
      LocalParties.remove LocalParty.destroy LocalParty.reset disconnect_transport_connection
  tick_party-Dissolved self i t p c ps at used waits over marked its here =
      let p₁ : LocalParty e.stats = record p {
        waiting_for_reconnect_timer = add_size p.waiting_for_reconnect_timer 1;
      } in
      let p₂ : LocalParty e.stats = LocalParty.destroy p₁ in
      let p₃ : LocalParty e.stats = LocalParty.reset p₂ in
      let parties₁ = set self.local_parties.parties i p₁ in
      let parties₂ = set parties₁ i p₂ in
      let one_set : (x : LocalParty e.stats)
          → get_elem? (set self.local_parties.parties i x) i ≡ some x =
        λ x.
          get_elem?-set_self self.local_parties.parties i x
            (get_elem?-lt-length self.local_parties.parties i p at) in
      let two_set : (x y : LocalParty e.stats)
          → get_elem? (set (set self.local_parties.parties i x) i y) i ≡ some y =
        λ x y.
          get_elem?-set_self (set self.local_parties.parties i x) i y
            (get_elem?-lt-length (set self.local_parties.parties i x) i x (one_set x)) in
      let ls = record (self.local_parties) {
        parties_count = sub_size self.local_parties.parties_count 1;
        parties = set parties₂ i p₃;
      } in
      let self₁ = with_participants (record self { local_parties = ls }) ps in
      (
        record self₁ {
          free_transport_connection_list =
              Ring.write self.free_transport_connection_list (to_u8 c.id);
          transport_connections =
              set self.transport_connections t (TransportConnection.disconnect c);
        },
        simp (
          tick_party, LocalParty.tick, destroy_party, LocalParties.remove,
          disconnect_transport_connection, at, used, waits, over, one_set, two_set, marked, its,
          here,
        ),
        record {
          place = p₃;
          now =
              get_elem?-set_self parties₂ i p₃ (get_elem?-lt-length parties₂ i p₂ (two_set p₁ p₂));
          unused = refl;
          nobody = refl;
          fewer = refl;
          leaving = λ j m.
              marked-Leaving p.participant_references self.game.participants.participants ps j
                marked (inr m);
          closed =
              get_elem?-set_self self.transport_connections t (TransportConnection.disconnect c)
                (get_elem?-lt-length self.transport_connections t c here);
          free = refl;
        },
      )
