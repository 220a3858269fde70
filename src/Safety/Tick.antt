-- ===== src/Safety/Tick.antt =====
-- The ticks of the parties, in src/lib/local_party.c and `tickParties` of src/lib/server.c, keep the
-- server valid.
use nimble_server_lib.Prelude.{
  ℕ, zero, suc, ◌+◌, ◌<◌, ◌≤◌, ◌≡◌, refl, ap, sym, ◌∙◌, subst, true, false, List, none, some, arith,
  get_elem?, get_elem?_in_range, get_elem?-lt-length, get_elem?-set_self, set, length, All-get,
  Some, Bool-cases, Option-cases, inl, inr,
}
use nimble_server_lib.External.{External}
use nimble_server_lib.Participant.{Participant}
use nimble_server_lib.LocalParty
use nimble_server_lib.LocalParty.{
  LocalParty, PartyState, waiting, is_waiting, set_to_waiting_for_re_join, tick_normal,
}
use nimble_server_lib.LocalParties.{LocalParties}
use nimble_server_lib.Server.{
  Server, tick_party, tick_parties_from, tick_parties, destroy_party,
  disconnect_transport_connection, with_participants,
}
use nimble_server_lib.Safety.Shapes.{
  Shape, shape, shapes, links, get_elem?-shapes, ShapeValid, Opened,
}
use nimble_server_lib.Safety.Tied.{Tied-Members, Tied-slots, Tied-party}
use nimble_server_lib.Safety.Valid.{Tied, ServerValid}
use nimble_server_lib.Safety.Dissolve.{tick-Ticked, destroy_party-Tied, disconnect-ServerValid}

module _ {e : External} where
  -- A round of the loop over a party that is dissolved.
  dissolved_run :
      (self : Server e) (i : ℕ) (p p' : LocalParty e.stats) (xs ys : List (Participant e.steps))
      (ls' : LocalParties e.stats)
      → get_elem? self.local_parties.parties i ≡ some p
      → p.is_used ≡ true
      → LocalParty.tick p self.game.participants.participants ≡ some (false, p', xs)
      → destroy_party
          (record (self.local_parties) { parties = set self.local_parties.parties i p' })
          xs
          i
        ≡ some (ls', ys)
      → tick_party self i ≡ elim p'.transport_connection [
        | none ↦ some (with_participants (record self { local_parties = ls' }) ys)
        | some t ↦
            disconnect_transport_connection
              (with_participants (record self { local_parties = ls' }) ys)
              t
      ]
  unfolding tick_party
  dissolved_run self i p p' xs ys ls' at used ticked gone =
      simp (tick_party, at, used, ticked, gone)

  -- A round of the loop over the parties, at the party `p`.
  tick_place-ServerValid :
      (self : Server e) (i : ℕ) (p : LocalParty e.stats)
      → ServerValid self
      → get_elem? self.local_parties.parties i ≡ some p
      → ShapeValid
          (length self.game.participants.participants)
          (links self.transport_connections)
          (shape p)
      → p.is_used ≡ true
      → (self' : Server e) × (tick_party self i ≡ some self')
        × ServerValid self'
        × (self'.local_parties.capacity_count ≡ self.local_parties.capacity_count)
  unfolding tick_party
  tick_place-ServerValid self i p v at valid used =
      let parties = self.local_parties in
      let ps = self.game.participants in
      let (keep, p', xs, ticked, same, w) =
        tick-Ticked (length parties.parties) ps p ps.participants (Tied-Members v.tied) valid.0
          p.state refl in
      let ls : LocalParties e.stats = record parties { parties = set parties.parties i p' } in
      let tied : Tied (links self.transport_connections) ls (record ps { participants = xs }) =
        Tied-party i p p' (Tied-slots v.tied w) at same in
      let self₁ : Server e = with_participants (record self { local_parties = ls }) xs in
      elim (Bool-cases keep) [
        | inl stays ↦ (
          self₁,
          simp (tick_party, at, used, ticked, stays),
          record { tied = tied; free = v.free },
          refl,
        )
        | inr goes ↦
            let there : get_elem? ls.parties i ≡ some p' =
              get_elem?-set_self parties.parties i p'
                (get_elem?-lt-length parties.parties i p at) in
            let (ls', ys, gone, tied', capacity) =
              destroy_party-Tied (links self.transport_connections) ls
                (record ps { participants = xs }) i p' tied there
                (ap (λ (s : Shape). s.used) same ∙ used) in
            let self₂ : Server e = with_participants (record self₁ { local_parties = ls' }) ys in
            let v₂ : ServerValid self₂ = record { tied = tied'; free = v.free } in
            let run = dissolved_run self i p p' xs ys ls' at used (simp (ticked, goes)) gone in
            elim (Option-cases p'.transport_connection) [
              | inl alone ↦ (self₂, ground (arith, run, alone), v₂, capacity)
              | inr (t, its) ↦
                  let opened : Opened (links self.transport_connections) t =
                    subst (Some (Opened (links self.transport_connections)))
                      (sym (ap (λ (s : Shape). s.connection) same) ∙ its) valid.1 in
                  let (self₃, closed, v₃, kept) = disconnect-ServerValid self₂ t v₂ opened in
                  (
                    self₃,
                    ground (arith, run, its, closed),
                    v₃,
                    ap (λ (x : LocalParties e.stats). x.capacity_count) kept ∙ capacity,
                  )
            ]
      ]

  tick_party-ServerValid :
      (self : Server e) (i : ℕ)
      → ServerValid self
      → i < self.local_parties.capacity_count
      → (self' : Server e) × (tick_party self i ≡ some self')
        × ServerValid self'
        × (self'.local_parties.capacity_count ≡ self.local_parties.capacity_count)
  unfolding tick_party
  tick_party-ServerValid self i v h =
      let parties = self.local_parties in
      let (p, at) = get_elem?_in_range parties.parties i (omega (arith, v.tied.capacity)) in
      elim (Bool-cases p.is_used) [
        | inr unused ↦ (self, simp (tick_party, at, unused), v, refl)
        | inl used ↦
            tick_place-ServerValid self i p v at
              (All-get
                (ShapeValid (length self.game.participants.participants)
                  (links self.transport_connections))
                (shapes parties.parties) i (shape p) v.tied.shaped
                (get_elem?-shapes parties.parties i p at))
              used
      ]

  tick_parties_from-ServerValid :
      (i n : ℕ) (self : Server e)
      → ServerValid self
      → i + n ≤ self.local_parties.capacity_count
      → (self' : Server e) × (tick_parties_from i n self ≡ some self') × ServerValid self'
  unfolding tick_parties_from
  tick_parties_from-ServerValid i zero self v h = (self, refl, v)
  tick_parties_from-ServerValid i (suc n) self v h =
      let (self₁, one, v₁, same) = tick_party-ServerValid self i v (omega arith) in
      let (self₂, rest, v₂) =
        tick_parties_from-ServerValid (i + 1) n self₁ v₁ (omega (arith, same)) in
      (self₂, simp (one, rest), v₂)

  -- Ticking the parties of a valid server never leaves an array, and leaves it valid.
  pub tick_parties-ServerValid :
      (self : Server e)
      → ServerValid self
      → (self' : Server e) × (tick_parties self ≡ some self') × ServerValid self'
  unfolding tick_parties
  tick_parties-ServerValid self v =
      tick_parties_from-ServerValid 0 self.local_parties.capacity_count self v (omega arith)
