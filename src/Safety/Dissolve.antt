-- ===== src/Safety/Dissolve.antt =====
-- What a tick does to one party, in src/lib/local_party.c, and the end of a party and of its
-- connection, in src/lib/server.c, keep the server valid.
use nimble_server_lib.Prelude.{
  ℕ, ◌+◌, ◌<◌, ◌≡◌, refl, sym, subst, Bool, true, List, some, arith, to_ℕ, to_u8, get_elem?,
  get_elem?_in_range, get_elem?-lt-length, get_elem?-set_self, set, length, All, All-get,
  Bool-cases, inl, inr, sub_size, add_size, set_twice, ltb,
}
use nimble_server_lib.External.{External, StepsLib, StatsLib}
use nimble_server_lib.CircularBuffer as Ring
use nimble_server_lib.Quality
use nimble_server_lib.Participant.{Participant, mark_as_leaving}
use nimble_server_lib.Participants.{Participants}
use nimble_server_lib.LocalParty
use nimble_server_lib.LocalParty.{
  LocalParty, PartyState, waiting, is_waiting, set_to_waiting_for_re_join, tick_normal,
}
use nimble_server_lib.LocalParties
use nimble_server_lib.LocalParties.{LocalParties}
use nimble_server_lib.TransportConnection
use nimble_server_lib.TransportConnection.{TransportConnection}
use nimble_server_lib.Server.{Server, destroy_party, disconnect_transport_connection}
use nimble_server_lib.Safety.Members.{
  Members, for_references-Members, waiting-Mild, mark_as_leaving-Mild,
}
use nimble_server_lib.Safety.Shapes.{
  Link, shape, shapes, link, links, length-links, get_elem?-links, get_elem?-shapes, links-set,
  used_shapes-set, LinkValid, ShapeValid, Opened,
}
use nimble_server_lib.Safety.Ring.{write-RingValid}
use nimble_server_lib.Safety.Tied.{
  Tied-Members, Tied-slots, Tied-replace, Tied-link, parties_count-le,
}
use nimble_server_lib.Safety.Valid.{Tied, ServerValid}

module _ {st : StatsLib} {sl : StepsLib} where
  -- What a tick makes of a party whose participants stand in the array.
  abbrev pub Ticked : ℕ → Participants sl → LocalParty st → List (Participant sl) → Type 0
  Ticked m ps p qs =
      (keep : Bool) × (p' : LocalParty st) × (xs : List (Participant sl)) × (LocalParty.tick p qs
        ≡ some (keep, p', xs))
      × (shape p' ≡ shape p)
      × Members m ps xs

  pub tick-Ticked :
      (m : ℕ) (ps : Participants sl) (p : LocalParty st) (qs : List (Participant sl))
      → Members m ps qs
      → All (λ r. r < length qs) p.participant_references
      → (s : PartyState) → p.state ≡ s
      → Ticked m ps p qs
  unfolding LocalParty.tick LocalParty.tick_waiting_for_reconnect tick_normal
      set_to_waiting_for_re_join
  tick-Ticked m ps p qs v h PartyState.dissolved e =
      (true, p, qs, simp (LocalParty.tick, e), refl, v)
  tick-Ticked m ps p qs v h PartyState.waiting_for_re_join e =
      let timer : ℕ = add_size p.waiting_for_reconnect_timer 1 in
      (
        ltb timer p.waiting_for_reconnect_max_timer,
        record p { waiting_for_reconnect_timer = timer },
        qs,
        simp (LocalParty.tick, e),
        refl,
        v,
      )
  tick-Ticked m ps p qs v h PartyState.normal e =
      let (keep, d) = Quality.delayed_tick p.delayed_quality p.quality in
      let p₁ : LocalParty st = record p { delayed_quality = d } in
      let (xs, marked, w) =
        for_references-Members waiting m ps p.participant_references qs waiting-Mild v h in
      elim (Bool-cases keep) [
        | inl stays ↦ (true, p₁, qs, simp (LocalParty.tick, e, stays), refl, v)
        | inr goes ↦ (
          true,
          record p₁ { state = PartyState.waiting_for_re_join; waiting_for_reconnect_timer = 0 },
          xs,
          simp (LocalParty.tick, e, goes, marked),
          refl,
          w,
        )
      ]

  -- Destroying a party in use whose participants stand in the array marks them as leaving, frees
  -- the party's place and keeps its connection.
  pub destroy_party-Tied :
      (ls : List Link) (parties : LocalParties st) (ps : Participants sl) (i : ℕ)
      (p : LocalParty st)
      → Tied ls parties ps
      → get_elem? parties.parties i ≡ some p
      → p.is_used ≡ true
      → (parties' : LocalParties st) × (xs : List (Participant sl)) × (destroy_party parties
            ps.participants i
          ≡ some (parties', xs))
        × Tied ls parties' (record ps { participants = xs })
        × (parties'.capacity_count ≡ parties.capacity_count)
  unfolding destroy_party LocalParties.remove LocalParty.destroy LocalParty.reset
  destroy_party-Tied ls parties ps i p t at used =
      let valid : ShapeValid (length ps.participants) ls (shape p) =
        All-get (ShapeValid (length ps.participants) ls) (shapes parties.parties) i (shape p)
          t.shaped (get_elem?-shapes parties.parties i p at) in
      let (xs, marked, w) =
        for_references-Members mark_as_leaving (length parties.parties) ps p.participant_references
          ps.participants mark_as_leaving-Mild (Tied-Members t) valid.0 in
      let p₁ : LocalParty st = LocalParty.destroy p in
      let p₂ : LocalParty st = LocalParty.reset p₁ in
      let there : get_elem? (set parties.parties i p₁) i ≡ some p₁ =
        get_elem?-set_self parties.parties i p₁ (get_elem?-lt-length parties.parties i p at) in
      let fewer =
        used_shapes-set (shapes parties.parties) i (shape p) (shape p₂)
          (get_elem?-shapes parties.parties i p at) in
      let counted : sub_size parties.parties_count 1 + to_ℕ p.is_used
          ≡ parties.parties_count + to_ℕ p₂.is_used =
        ground (arith, fewer, used, t.counted, parties_count-le t, t.small, t.capacity) in
      let xs_tied = Tied-slots t w in
      (
        record parties {
          parties_count = sub_size parties.parties_count 1;
          parties = set (set parties.parties i p₁) i p₂;
        },
        xs,
        simp (destroy_party, LocalParties.remove, at, marked, there),
        subst
            (λ q.
              Tied ls
                (record parties { parties_count = sub_size parties.parties_count 1; parties = q })
                (record ps { participants = xs }))
            (sym (set_twice parties.parties i p₁ p₂))
            (Tied-replace i (sub_size parties.parties_count 1) p p₂ xs_tied at (tt, valid.1)
              counted),
        refl,
      )

module _ {e : External} where
  pub disconnect-ServerValid :
      (self : Server e) (t : ℕ)
      → ServerValid self
      → Opened (links self.transport_connections) t
      → (self' : Server e) × (disconnect_transport_connection self t ≡ some self')
        × ServerValid self'
        × (self'.local_parties ≡ self.local_parties)
  unfolding disconnect_transport_connection TransportConnection.disconnect
  disconnect-ServerValid self t v (l, linked, small) =
      let ts = self.transport_connections in
      let (c, at) =
        get_elem?_in_range ts t
          (omega (arith, get_elem?-lt-length (links ts) t l linked, length-links ts)) in
      let same : l ≡ link c = ground (arith, linked, get_elem?-links ts t c at) in
      let c' : TransportConnection e = TransportConnection.disconnect c in
      let id_small : c.id < 64 = subst (λ (k : Link). k.id < 64) same small in
      let fine =
        All-get (LinkValid (length self.local_parties.parties)) (links ts) t (link c) v.tied.linked
          (get_elem?-links ts t c at) in
      let tied = Tied-link t (link c') v.tied id_small fine.1 in
      (
        record self {
          free_transport_connection_list =
              Ring.write self.free_transport_connection_list (to_u8 c.id);
          transport_connections = set ts t c';
        },
        simp (disconnect_transport_connection, at),
        record {
          tied =
              subst (λ ls. Tied ls self.local_parties self.game.participants)
                (sym (links-set ts t c')) tied;
          free =
              write-RingValid self.free_transport_connection_list (to_u8 c.id) v.free (omega arith);
        },
        refl,
      )
