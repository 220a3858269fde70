-- ===== src/Safety/Feed.antt =====
-- A datagram, in `nimbleServerFeed` of src/lib/server.c, is read to its end and keeps the server
-- valid.
use nimble_server_lib.Prelude.{
  ℕ, zero, suc, ◌<◌, ◌≡◌, refl, sym, subst, ℤ, pos, false, List, [], Option, some, arith, get_elem?,
  get_elem?_in_range, length, All-get, Bool-cases, Option-cases, inl, inr, is_negative, ◌==◌, leb,
  get_elem?-set_self, Some, Bool, ◌||◌, ◌∙◌, ap,
}
use nimble_server_lib.Errors.{err_serialize}
use nimble_server_lib.External.{External}
use nimble_server_lib.TransportConnection
use nimble_server_lib.TransportConnection.{TransportConnection}
use nimble_server_lib.Server.{Server, max_transport_connections}
use nimble_server_lib.Feed.{Session, first_contact, with_connection, feed_commands, feed}
use nimble_server_lib.Safety.Shapes.{
  link, links, length-links, get_elem?-links, links-set, LinkValid, Opened,
}
use nimble_server_lib.Feed.Fuel.{at_its_end, stopped, goes_on}
use nimble_server_lib.Safety.Valid.{Tied, ServerValid}
use nimble_server_lib.Safety.Tied.{Tied-link}
use nimble_server_lib.Safety.Connect.{Kept}
use nimble_server_lib.Safety.Dispatch.{Reliable}
use nimble_server_lib.Safety.Command.{feed_command-Left}
use nimble_server_lib.Safety.Faults.{command_faults, commands_faults, feed_faults}

module _ (e : External) where
  -- A connection that a datagram came in on has the id of a connection, and keeps its party.
  first_contact-link :
      (t : TransportConnection e) (i octets m : ℕ)
      → i < 64
      → LinkValid m (link t)
      → ((first_contact e t i octets).id < 64)
        × ((first_contact e t i octets).assigned_party ≡ t.assigned_party)
  unfolding first_contact TransportConnection.init
  first_contact-link t i octets m h v = elim (Bool-cases t.is_used) [
    | inl used ↦ simp used (v.0 used, refl)
    | inr unused ↦ simp unused (h, refl)
  ]

  -- A connection that was opened takes the place of another of the same party.
  placed-Kept :
      (self : Server e) (i : ℕ) (t t' : TransportConnection e)
      → ServerValid self
      → get_elem? self.transport_connections i ≡ some t
      → i < 64
      → t'.id < 64
      → t'.assigned_party ≡ t.assigned_party
      → Kept (with_connection e self i t') i
  placed-Kept self i t t' v at h small same =
      let ts = self.transport_connections in
      let fine =
        All-get (LinkValid (length self.local_parties.parties)) (links ts) i (link t) v.tied.linked
          (get_elem?-links ts i t at) in
      let party = subst (Some (λ k. k < length self.local_parties.parties)) (sym same) fine.1 in
      record {
        valid = record {
          tied =
              subst (λ ls. Tied ls self.local_parties self.game.participants)
                (sym (links-set ts i t')) (Tied-link i (link t') v.tied small party);
          free = v.free;
        };
        is_open =
            subst (λ ls. Opened ls i) (sym (links-set ts i t'))
              (
                link t',
                get_elem?-set_self (links ts) i (link t') (omega (arith, h, v.tied.connections)),
                small,
              );
      }

-- Neither of two tests fires.
pub both_false : (a : Bool) {b : Bool} → (a || b) ≡ false → (a ≡ false) × (b ≡ false)
both_false a h = elim (Bool-cases a) [
  | inl fires ↦ absurd (ground (arith, h, fires))
  | inr quiet ↦ (quiet, ground (arith, h, quiet))
]

module _ (e : External) (reliable : Reliable e) where
  feed_commands-Kept :
      (fuel : ℕ) (s : Session e) (i client_time secret now : ℕ)
      → Kept s.server i
      → reliable.sized.input.size s.stream < fuel
      → commands_faults e fuel s i client_time secret now ≡ false
      → (result : ℤ) × (s' : Session e) × (feed_commands e fuel s i client_time secret now
          ≡ some (result, s'))
        × Kept s'.server i
  unfolding commands_faults
  feed_commands-Kept zero s i client_time secret now k h sound = absurd (omega arith)
  feed_commands-Kept (suc fuel) s i client_time secret now k h sound =
      elim (Bool-cases (e.input.at_end s.stream)) [
        | inl done ↦ (pos 0, s, at_its_end e fuel s i client_time secret now done, k)
        | inr more ↦
            let (here, further) = both_false (command_faults e s i) (simp more at sound) in
            let (stop, s', run, k', less) =
              feed_command-Left e reliable s i client_time secret now k more here in
            elim (Option-cases stop) [
              | inr (ended, stops) ↦ (
                ended,
                s',
                stopped e fuel s s' i client_time secret now ended more
                    (run ∙ ap (λ o. some (o, s')) stops),
                k',
              )
              | inl none_yet ↦
                  let (result, s'', rest, k'') =
                    feed_commands-Kept fuel s' i client_time secret now k' (omega (arith, less, h))
                      (simp (run, none_yet) at further) in
                  (
                    result,
                    s'',
                    goes_on e fuel s s' i client_time secret now more
                          (run ∙ ap (λ o. some (o, s')) none_yet)
                        ∙ rest,
                    k'',
                  )
            ]
      ]

  -- What a datagram leaves: a valid server.
  abbrev pub Fed : Option (ℤ × Session e) → Type 0
  Fed run = (result : ℤ) × (s : Session e) × (run ≡ some (result, s)) × ServerValid s.server

  -- If reading goes forward and a write of a step that succeeds adds one step, then a datagram on a
  -- valid server is dealt with, if no command of it that is reached asks for what was never set: a
  -- blob stream that was never initialized is not used, and a request to join is of one player, or
  -- comes with the secret of a party that has as many participants. No array is left, as many rounds
  -- as the datagram has octets and one more are enough, and the server is valid afterwards, whatever
  -- the result.
  pub feed-ServerValid :
      (self : Server e) (i : ℕ) (octets : List ℕ) (fuel secret now : ℕ)
      → ServerValid self
      → length octets < fuel
      → feed_faults e self i octets fuel secret now ≡ false
      → Fed (feed e self i octets fuel secret now)
  unfolding feed feed_faults
  feed-ServerValid self i octets fuel secret now v h sound =
      let s : Session e = record { server = self; stream = e.input.in_init octets; sent = [] } in
      elim (Bool-cases (leb max_transport_connections i)) [
        | inl big ↦ (err_serialize, s, simp big, v)
        | inr small ↦
            let in_range : i < 64 = ground (arith, small) in
            let (t, at) = get_elem?_in_range self.transport_connections i (
              omega
                (arith, in_range, v.tied.connections, length-links self.transport_connections)) in
            contact t at small in_range
      ]
    where
      contact :
          (t : TransportConnection e)
          → get_elem? self.transport_connections i ≡ some t
          → leb max_transport_connections i ≡ false
          → i < 64
          → Fed (feed e self i octets fuel secret now)
      contact t at small in_range =
          let s : Session e = record {
            server = self;
            stream = e.input.in_init octets;
            sent = [];
          } in
          let t₁ = first_contact e t i self.setup.max_game_state_octet_count in
          let fine =
            All-get (LinkValid (length self.local_parties.parties))
              (links self.transport_connections) i (link t) v.tied.linked
              (get_elem?-links self.transport_connections i t at) in
          let (id_small, same_party) =
            first_contact-link e t i self.setup.max_game_state_octet_count
              (length self.local_parties.parties) in_range fine in
          let (err, ordered_in, stream₁) = e.ordered.ordered_in_receive t₁.ordered_in s.stream in
          let t₂ : TransportConnection e = record t₁ { ordered_in = ordered_in } in
          let s₁ : Session e = record s { server = with_connection e self i t₁ } in
          let s₂ : Session e = record s {
            server = with_connection e self i t₂;
            stream = stream₁;
          } in
          let k₁ = placed-Kept e self i t t₁ v at in_range id_small same_party in
          let k₂ = placed-Kept e self i t t₂ v at in_range id_small same_party in
          let (client_time, stream₂) = e.input.read_u16 stream₁ in
          elim (Bool-cases (t₁.transport_index == i)) [
            | inr other ↦ (err_serialize, s₁, simp (small, at, other), k₁.valid)
            | inl same ↦ elim (Bool-cases (is_negative err)) [
              | inl late ↦ (err_serialize, s₂, simp (small, at, same, late), k₂.valid)
              | inr good ↦
                  let (result, s₃, run, k₃) =
                    feed_commands-Kept fuel (record s₂ { stream = stream₂ }) i client_time secret
                      now k₂
                      (omega (
                        arith,
                        h,
                        reliable.sized.input.of_octets octets,
                        reliable.sized.of_ordered t₁.ordered_in s.stream,
                        reliable.sized.input.of_u16 stream₁,
                      ))
                      (simp (feed_faults, small, at, same, good) at sound) in
                  (result, s₃, simp (small, at, same, good, run), k₃.valid)
            ]
          ]
