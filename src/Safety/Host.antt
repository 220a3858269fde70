-- ===== src/Safety/Host.antt =====
-- A server that takes over the parties of another host, with `nimbleServerHostMigration` of
-- src/lib/server.c, is valid.
use nimble_server_lib.Prelude.{
  ℕ, ◌<◌, ◌≤◌, ◌≡◌, ℤ, true, List, some, arith, is_negative, length, Bool-cases, inl, inr, ◌⊎◌, ltb,
  to_ℕ, occurrences,
}
use nimble_server_lib.External.{External}
use nimble_server_lib.Participants.{init_slots, write_ids}
use nimble_server_lib.Participants
use nimble_server_lib.Participants.Fill.{free_at-init_slots}
use nimble_server_lib.Participants.Slots.{free_at}
use nimble_server_lib.Participants.Inv.{IsValid}
use nimble_server_lib.Game
use nimble_server_lib.LocalParty.{LocalParty}
use nimble_server_lib.LocalParties.{LocalPartyInfo}
use nimble_server_lib.Server.{Server, Setup, init, re_init_with_game}
use nimble_server_lib.HostMigration.{host_migration}
use nimble_server_lib.HostMigration.Taken.{all_ids, Complete}
use nimble_server_lib.HostMigration.Valid.{host_migration-IsValid}
use nimble_server_lib.Safety.Shapes.{links}
use nimble_server_lib.Safety.Valid.{ServerValid}
use nimble_server_lib.Safety.Start.{
  Memory, started, started-ServerValid, init_connections-LinkValid,
}
use nimble_server_lib.Safety.Moved.{host_migration-Moved, Moved-ServerValid, started-Settled}

module _ {e : External} where
  -- The parties of the old host have an id each at least and 16 at most, and all ids are distinct and below the
  -- number of participants.
  abbrev pub Movable : Setup e → List LocalPartyInfo → Type 0
  Movable setup infos =
      Complete infos
      × ((j : ℕ) → occurrences j (all_ids infos) ≤ to_ℕ (ltb j setup.max_participant_count))

  -- In memory of the sizes of the source, with fewer than 64 participants, a server that is set up,
  -- gets a game and then the parties of another host, which have an id each at least and 16 at most,
  -- all ids distinct and below the number of participants, never leaves an array: the migration ends with an
  -- error, or the server is valid.
  pub host_migration-ServerValid :
      (memory : Server e) (parties : List (LocalParty e.stats)) (setup : Setup e)
      (step_id now clock : ℕ) (infos : List LocalPartyInfo)
      → Memory memory parties setup
      → Movable setup infos
      → (result : ℤ) × (self : Server e) × (host_migration
            (started memory parties setup step_id now clock)
            infos
          ≡ some (result, self))
        × ((is_negative result ≡ true) ⊎ ServerValid self)
  unfolding init re_init_with_game Game.init Participants.init
  host_migration-ServerValid memory parties setup step_id now clock infos m (complete, distinct) =
      let v = started-ServerValid memory parties setup step_id now clock m in
      let pool = v.tied.valid in
      let slot_free : (j : ℕ)
          → j < setup.max_participant_count
          → free_at
              (init_slots e.steps setup.max_single_participant_step_octet_count 0
                setup.max_participant_count)
              j
            ≡ 1 =
        λ j h.
          free_at-init_slots e.steps setup.max_single_participant_step_octet_count 0
            setup.max_participant_count j h in
      moved (
        host_migration-IsValid (started memory parties setup step_id now clock) infos
          (record {
            size = pool.size;
            small = pool.small;
            slots = pool.slots;
            counted = pool.counted;
          })
          pool.ring.size slot_free complete
          (λ j. elim (Bool-cases (ltb j setup.max_participant_count)) [
            | inl small ↦ ground (arith, distinct j, small, slot_free j (ground (arith, small)))
            | inr big ↦ ground (arith, distinct j, big)
          ]))
    where
      moved :
          ((result : ℤ) × (self : Server e) × (host_migration
                (started memory parties setup step_id now clock)
                infos
              ≡ some (result, self))
            × ((is_negative result ≡ true) ⊎ IsValid self.game.participants))
          → (result : ℤ) × (self : Server e) × (host_migration
                (started memory parties setup step_id now clock)
                infos
              ≡ some (result, self))
            × ((is_negative result ≡ true) ⊎ ServerValid self)
      moved (result, self, run, inl bad) = (result, self, run, inl bad)
      moved (result, self, run, inr pool) =
          let first : Server e = started memory parties setup step_id now clock in
          let v = started-ServerValid memory parties setup step_id now clock m in
          elim (Bool-cases (is_negative result)) [
            | inl bad ↦ (result, self, run, inl bad)
            | inr good ↦ (
              result,
              self,
              run,
              inr (
                  Moved-ServerValid first self v
                    (λ k. init_connections-LinkValid k 0 memory.transport_connections)
                    (host_migration-Moved (links first.transport_connections)
                      (length first.game.participants.participants) first infos (result, self)
                      (started-Settled memory parties setup step_id now clock v) run good)
                    pool),
            )
          ]
