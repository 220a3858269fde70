-- ===== src/Safety/Reach.antt =====
-- What can become of a server of src/lib/server.c: it is set up with a game, it may take over the
-- parties of another host, and then it is updated and fed again and again.
use nimble_server_lib.Prelude.{
  is_negative, false, inl, inr, ℕ, ◌<◌, ◌≡◌, ℤ, List, some, arith, length, All, subst,
}
use nimble_server_lib.External.{External}
use nimble_server_lib.LocalParty.{LocalParty}
use nimble_server_lib.LocalParties.{LocalPartyInfo}
use nimble_server_lib.HostMigration.{host_migration}
use nimble_server_lib.Safety.Host.{Movable, host_migration-ServerValid}
use nimble_server_lib.Server.{Server, Setup}
use nimble_server_lib.Feed.{Session, Incoming, feed, update}
use nimble_server_lib.Safety.Valid.{ServerValid}
use nimble_server_lib.Safety.Faults.{feed_faults, update_faults}
use nimble_server_lib.Safety.Dispatch.{Reliable}
use nimble_server_lib.Safety.Feed.{Fed, feed-ServerValid}
use nimble_server_lib.Safety.Update.{Fits, Updated, update-ServerValid}
use nimble_server_lib.Safety.Start.{Memory, started}
use nimble_server_lib.Safety.Start.{started-ServerValid}

-- The servers that a host reaches, on datagrams that do not ask for what was never set.
pub data Reachable (e : External) : Server e → Type 0 where
  starts :
      (memory : Server e) (parties : List (LocalParty e.stats)) (setup : Setup e)
      (step_id now clock : ℕ)
      → Memory memory parties setup
      → Reachable e (started memory parties setup step_id now clock)
  migrates :
      (memory self : Server e) (parties : List (LocalParty e.stats)) (setup : Setup e)
      (step_id now clock : ℕ) (infos : List LocalPartyInfo) (result : ℤ)
      → Memory memory parties setup
      → Movable setup infos
      → host_migration (started memory parties setup step_id now clock) infos ≡ some (result, self)
      → is_negative result ≡ false
      → Reachable e self
  updates :
      (self self' : Server e) (now clock fuel secret : ℕ) (incoming : List Incoming) (result : ℤ)
      (sent : List (List ℕ))
      → Reachable e self
      → All (Fits fuel) incoming
      → update_faults e self clock incoming fuel secret ≡ false
      → update e self now clock incoming fuel secret ≡ some (result, self', sent)
      → Reachable e self'
  feeds :
      (self : Server e) (i fuel secret now : ℕ) (octets : List ℕ) (result : ℤ) (s : Session e)
      → Reachable e self
      → length octets < fuel
      → feed_faults e self i octets fuel secret now ≡ false
      → feed e self i octets fuel secret now ≡ some (result, s)
      → Reachable e s.server

module _ (e : External) (reliable : Reliable e) where
  Reachable-ServerValid : (self : Server e) → Reachable e self → ServerValid self
  Reachable-ServerValid self (Reachable.starts memory parties setup step_id now clock m) =
      started-ServerValid memory parties setup step_id now clock m
  Reachable-ServerValid self
        (Reachable.migrates memory self' parties setup step_id now clock infos result m movable run
          good) =
      let (result', self'', run', either) =
        host_migration-ServerValid memory parties setup step_id now clock infos m movable in
      elim either [
        | inl bad ↦ absurd (ground (arith, run, run', bad, good))
        | inr v ↦ subst (ServerValid {e = e}) {x = self''} {y = self'} (ground (arith, run, run')) v
      ]
  Reachable-ServerValid self
        (Reachable.updates self₀ self' now clock fuel secret incoming result sent r fits sound
          run) =
      let (result', self'', sent', run', v) =
        update-ServerValid e reliable self₀ now clock incoming fuel secret
          (Reachable-ServerValid self₀ r) fits sound in
      subst (ServerValid {e = e}) {x = self''} {y = self'} (ground (arith, run, run')) v
  Reachable-ServerValid self
        (Reachable.feeds self₀ i fuel secret now octets result s r fits sound run) =
      let (result', s', run', v) =
        feed-ServerValid e reliable self₀ i octets fuel secret now (Reachable-ServerValid self₀ r)
          fits sound in
      subst (λ (x : Session e). ServerValid x.server) {x = s'} {y = s} (ground (arith, run, run')) v

  -- If reading goes forward and a write of a step that succeeds adds one step, take a server that a
  -- host reaches from its set-up, with the parties of another host or without, by updates and
  -- datagrams none of whose commands asked for what was never set. Then the next update returns, on
  -- any datagrams that are shorter than the fuel and do not ask for it either, and so does the next
  -- datagram. What was never set is asked for where a blob stream that was never initialized is used,
  -- and by a request to join that is not of one player and does not come with the secret of a party
  -- that has as many participants.
  pub Reachable-returns :
      (self : Server e) (now clock : ℕ) (incoming : List Incoming) (fuel secret i : ℕ)
      (octets : List ℕ)
      → Reachable e self
      → All (Fits fuel) incoming
      → length octets < fuel
      → update_faults e self clock incoming fuel secret ≡ false
      → feed_faults e self i octets fuel secret clock ≡ false
      → Updated e reliable (update e self now clock incoming fuel secret)
        × Fed e reliable (feed e self i octets fuel secret clock)
  Reachable-returns self now clock incoming fuel secret i octets r fits short sound sound' =
      let v = Reachable-ServerValid self r in
      (
        update-ServerValid e reliable self now clock incoming fuel secret v fits sound,
        feed-ServerValid e reliable self i octets fuel secret clock v short sound',
      )
