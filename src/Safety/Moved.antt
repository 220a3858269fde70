-- ===== src/Safety/Moved.antt =====
-- What the host migration of src/lib/server.c leaves of a server whose parties were reset.
use nimble_server_lib.Prelude.{
  ℕ, suc, ◌≡◌, refl, ap, sym, ◌∙◌, subst, ℤ, pos, false, List, [], ◌∷◌, map, some, >>=-eq-some,
  arith, is_negative, length, All, Bool-cases, inl, inr, sub_u32,
}
use nimble_server_lib.External.{External, StatsLib}
use nimble_server_lib.CircularBuffer as Ring
use nimble_server_lib.Participants.{write_ids}
use nimble_server_lib.Participants.Slots.{Every}
use nimble_server_lib.AuthoritativeSteps.Slot.{Housed}
use nimble_server_lib.Participants.Inv.{IsValid}
use nimble_server_lib.LocalParty
use nimble_server_lib.LocalParty.{LocalParty}
use nimble_server_lib.LocalParties
use nimble_server_lib.LocalParties.{LocalParties, LocalPartyInfo}
use nimble_server_lib.TransportConnection.{TransportConnection}
use nimble_server_lib.Server.{Server, Setup, init, re_init_with_game}
use nimble_server_lib.HostMigration.{host_migration, prepare_parties, contains_participant_id}
use nimble_server_lib.Safety.Shapes.{Shape, Link, shapes, links, ShapeValid, LinkValid}
use nimble_server_lib.Safety.Valid.{RingValid, ServerValid}
use nimble_server_lib.Safety.Start.{started, empty_shape, empty_lem, shapes-init}
use nimble_server_lib.Safety.Migrate.{Settled, prepare_parties-Settled}

module _ {st : StatsLib} where
  reset_empty :
      (ps : List (LocalParty st))
      → All (λ s. s ≡ empty_shape) (shapes ps)
      → All (λ s. s ≡ empty_shape) (shapes (map LocalParty.reset ps))
  unfolding LocalParty.reset
  reset_empty [] h = tt
  reset_empty (p ∷ ps) (same, h) = (
    ap (λ (s : Shape). record { used = false; refs = []; connection = s.connection }) same,
    reset_empty ps h,
  )

  length-reset : (ps : List (LocalParty st)) → length (map LocalParty.reset ps) ≡ length ps
  length-reset [] = refl
  length-reset (p ∷ ps) = ap suc (length-reset ps)

module _ {e : External} where
  -- What the migration keeps, unless it ends with an error.
  pub record Moved (ls : List Link) (n : ℕ) (self self' : Server e) : Type 0 where
    pub settled : Settled ls n self'.local_parties self'.game.participants
    pub connections : self'.transport_connections ≡ self.transport_connections
    pub free : self'.free_transport_connection_list ≡ self.free_transport_connection_list

  pub host_migration-Moved :
      (ls : List Link) (n : ℕ) (self : Server e) (infos : List LocalPartyInfo) (out : ℤ × Server e)
      → Settled ls n (LocalParties.reset self.local_parties) self.game.participants
      → host_migration self infos ≡ some out
      → is_negative out.0 ≡ false
      → Moved ls n self out.1
  unfolding host_migration
  host_migration-Moved ls n self infos out s run good =
      let step_id : ℕ = sub_u32 (e.steps.expected_write_id self.game.authoritative_steps) 1 in
      let (r, one, run₁) =
        >>=-eq-some
          (prepare_parties (LocalParties.reset self.local_parties) self.game.participants step_id
            infos)
          _ run in
      elim (Bool-cases (is_negative r.0)) [
        | inl bad ↦ absurd (ground (arith, run₁, bad, good))
        | inr fine ↦
            let settled =
              prepare_parties-Settled ls n (LocalParties.reset self.local_parties)
                self.game.participants step_id infos r s one fine in
            let after : Server e = record self {
              local_parties = r.1;
              game = record (self.game) {
                participants = record (r.2) {
                  free_list =
                      write_ids (contains_participant_id infos) (Ring.init r.2.free_list) 0
                        r.2.participant_capacity;
                };
              };
            } in
            subst (λ (o : ℤ × Server e). Moved ls n self o.1) {x = (pos 0, after)} {y = out}
              (ground (arith, run₁, fine))
              (record {
                settled = record {
                  housed = settled.housed;
                  slots = settled.slots;
                  shaped = settled.shaped;
                  counted = settled.counted;
                  capacity = settled.capacity;
                  small = settled.small;
                };
                connections = refl;
                free = refl;
              })
      ]

  -- A server whose parties are settled again, with a valid pool, is valid, if no connection is used.
  pub Moved-ServerValid :
      (self self' : Server e)
      → ServerValid self
      → ((m : ℕ) → All (LinkValid m) (links self.transport_connections))
      → Moved
          (links self.transport_connections)
          (length self.game.participants.participants)
          self
          self'
      → IsValid self'.game.participants
      → ServerValid self'
  Moved-ServerValid self self' v unused m pool = record {
    tied = record {
      valid = pool;
      housed = m.settled.housed;
      connections =
          ap (λ (ts : List (TransportConnection e)). length (links ts)) m.connections
          ∙ v.tied.connections;
      linked =
          subst
            (λ (ts : List (TransportConnection e)).
              All (LinkValid (length self'.local_parties.parties)) (links ts))
            (sym m.connections) (unused (length self'.local_parties.parties));
      shaped =
          subst
            (λ (ts : List (TransportConnection e)).
              All (ShapeValid (length self'.game.participants.participants) (links ts))
                (shapes self'.local_parties.parties))
            (sym m.connections)
            (subst
              (λ n.
                All (ShapeValid n (links self.transport_connections))
                  (shapes self'.local_parties.parties))
              (sym m.settled.slots) m.settled.shaped);
      counted = m.settled.counted;
      capacity = m.settled.capacity;
      small = m.settled.small;
    };
    free = subst RingValid (sym m.free) v.free;
  }

  -- The parties of a server that is set up, reset once more, are settled.
  pub started-Settled :
      (memory : Server e) (parties : List (LocalParty e.stats)) (setup : Setup e)
      (step_id now clock : ℕ)
      → ServerValid (started memory parties setup step_id now clock)
      → Settled
          (links (started memory parties setup step_id now clock).transport_connections)
          (length (started memory parties setup step_id now clock).game.participants.participants)
          (LocalParties.reset (started memory parties setup step_id now clock).local_parties)
          (started memory parties setup step_id now clock).game.participants
  unfolding init re_init_with_game LocalParties.init LocalParties.reset
  started-Settled memory parties setup step_id now clock v =
      let self : Server e = started memory parties setup step_id now clock in
      let ps = self.local_parties.parties in
      let n : ℕ = length self.game.participants.participants in
      let (nobody, shaped) =
        empty_lem n (links self.transport_connections) (shapes (map LocalParty.reset ps))
          (reset_empty ps (shapes-init 0 parties)) in
      record {
        housed =
            subst (λ m. Every (λ i p. Housed m p) self.game.participants.participants)
              (sym (length-reset ps)) v.tied.housed;
        slots = refl;
        shaped = shaped;
        counted = sym nobody;
        capacity = length-reset ps ∙ v.tied.capacity;
        small = v.tied.small;
      }
