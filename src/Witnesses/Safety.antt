-- ===== src/Witnesses/Safety.antt =====
-- Tests of what keeps a server within its arrays.
use nimble_server_lib.Prelude.{
  ℤ, is_negative, ◌⊎◌, occurrences, to_ℕ, ltb, ℕ, zero, suc, ◌≤◌, ◌≡◌, refl, pos, true, List, [],
  ◌∷◌, some, none, arith,
}
use nimble_server_lib.CircularBuffer.{CircularBuffer}
use nimble_server_lib.CircularBuffer as Ring
use nimble_server_lib.CircularBuffer.Fifo.{contents}
use nimble_server_lib.Participants
use nimble_server_lib.Participants.{Participants, write_ids}
use nimble_server_lib.Participants.Queue.{Op, StandsFor, pool_run, queue_run, pool_run-refines}
use nimble_server_lib.LocalParty.{PartyState}
use nimble_server_lib.HostMigration.{host_migration}
use nimble_server_lib.HostMigration.Taken.{Complete, all_ids}
use nimble_server_lib.Safety.Host.{Movable, host_migration-ServerValid}
use nimble_server_lib.LocalParties.{LocalPartyInfo, LocalParties, create, find_party_for_transport}
use nimble_server_lib.Safety.Tick.{tick_parties-ServerValid}
use nimble_server_lib.Server.{Server, tick_parties, re_init_with_game}
use nimble_server_lib.Requests.Join.{req_game_join}
use nimble_server_lib.Requests.Step.{StepReply, req_game_step}
use nimble_server_lib.Feed.{Incoming, feed, update}
use nimble_server_lib.Safety.Shapes.{link, links}
use nimble_server_lib.Safety.Valid.{ServerValid}
use nimble_server_lib.Safety.Step.{Stepped, req_game_step-Stepped}
use nimble_server_lib.Safety.Connect.{Answered}
use nimble_server_lib.Safety.Join.{req_game_join-Answered}
use nimble_server_lib.Safety.Feed.{Fed, feed-ServerValid}
use nimble_server_lib.Safety.Update.{Updated, update-ServerValid}
use nimble_server_lib.Safety.Start.{Memory, started-ServerValid}
use nimble_server_lib.Safety.Reach.{Reachable, Reachable-returns}
use nimble_server_lib.Safety.Recount.{re_init-overrun}
use nimble_server_lib.Witnesses.Pool.{nobody-IsValid}
use nimble_server_lib.Samples.{
  party_in, steps_lib, stats_lib, external, player, nobody, free_party, connection, server,
}
use nimble_server_lib.Witnesses.Sound.{
  a_step, a_join, blank, fresh, a_step_sound, an_update_sound, join_sound, fresh_update_sound,
  fresh_feed_sound,
}
use nimble_server_lib.Witnesses.Hosts.{reliable, busy, busy-ServerValid}

feed-ServerValid_example : Fed external reliable (feed external busy 0 a_step 6 7 10)
feed-ServerValid_example =
    feed-ServerValid external reliable busy 0 a_step 6 7 10 busy-ServerValid (omega arith)
      a_step_sound

tick_parties-ServerValid_example :
    (self : Server external) × (tick_parties busy ≡ some self) × ServerValid self
tick_parties-ServerValid_example = tick_parties-ServerValid busy busy-ServerValid

update-ServerValid_example :
    Updated external reliable (update external busy 0 10 (Incoming.datagram 0 a_step ∷ []) 6 7)
update-ServerValid_example =
    update-ServerValid external reliable busy 0 10 (Incoming.datagram 0 a_step ∷ []) 6 7
      busy-ServerValid (omega arith, tt) an_update_sound

abbrev a_reply : StepReply external
a_reply = record {
  intake = record { game = busy.game; parties = busy.local_parties.parties; stream = 0 ∷ [] };
  connection = connection true 0 (some 0);
  per_second = pos 0;
  out = [];
}

req_game_step-Stepped_example :
    Stepped external reliable.sized
      (links busy.transport_connections)
      busy.local_parties
      a_reply
      (req_game_step external a_reply)
req_game_step-Stepped_example =
    req_game_step-Stepped external reliable.sized (links busy.transport_connections)
      busy.local_parties a_reply reliable.write_adds busy-ServerValid.tied (omega arith)

req_game_join-Answered_example :
    Answered reliable.sized 0 (1 ∷ []) (req_game_join busy 0 (1 ∷ []) [])
req_game_join-Answered_example =
    req_game_join-Answered reliable.sized busy 0 (1 ∷ []) [] join_sound (record {
      valid = busy-ServerValid;
      is_open = (link {e = external} (connection true 0 (some 0)), refl, omega arith);
    })

blank-Memory : Memory blank (free_party ∷ free_party ∷ []) server.setup
blank-Memory = record {
  connections = refl;
  free_connections = refl;
  free_ids = refl;
  places = refl;
  few_parties = omega arith;
  few_participants = omega arith;
}

started-ServerValid_example : ServerValid fresh
started-ServerValid_example =
    started-ServerValid blank (free_party ∷ free_party ∷ []) server.setup 5 0 0 blank-Memory

Reachable-returns_example :
    Updated external reliable (
      update external fresh 0 10 (Incoming.datagram 0 a_join ∷ Incoming.datagram 0 a_step ∷ []) 6 7)
    × Fed external reliable (feed external fresh 0 a_join 6 7 10)
Reachable-returns_example =
    Reachable-returns external reliable fresh 0 10
      (Incoming.datagram 0 a_join ∷ Incoming.datagram 0 a_step ∷ []) 6 7 0 a_join
      (Reachable.starts blank (free_party ∷ free_party ∷ []) server.setup 5 0 0 blank-Memory)
      (omega arith, (omega arith, tt)) (omega arith) fresh_update_sound fresh_feed_sound

-- Two join, the first leaves and joins again, and nobody else can.
abbrev ops : List Op
ops =
    Op.joins player 0 0
    ∷ Op.joins player 1 0
    ∷ Op.leaves 0
    ∷ Op.joins player 0 0
    ∷ Op.joins player 0 0
    ∷ []

pool_run-refines_example :
    (ps : Participants steps_lib) × (pool_run nobody ops
      ≡ some ((queue_run (0 ∷ 1 ∷ []) ops).0, ps))
    × StandsFor (queue_run (0 ∷ 1 ∷ []) ops).1 2 ps
unfolding Participants.init write_ids Ring.init Ring.write contents Ring.count
pool_run-refines_example =
    pool_run-refines ops (0 ∷ 1 ∷ []) 2 nobody
      (record { valid = nobody-IsValid.0; ids = refl; size = refl }) ((omega arith, refl), tt)

-- One place, which is in use.
abbrev crowded : Server external
crowded = record blank {
  local_parties = record {
    parties = party_in PartyState.normal (0 ∷ []) ∷ [];
    parties_count = 1;
    capacity_count = 1;
  };
}

re_init-overrun_example :
    (made : ℕ) × (ls : LocalParties stats_lib) × (ps : Participants steps_lib) × (create
        (re_init_with_game crowded 5 0 0).1.local_parties
        (re_init_with_game crowded 5 0 0).1.game.participants
        0
        (player ∷ [])
        5
        1
      ≡ some (pos 0, some made, ls, ps))
    × (find_party_for_transport {e = external} ls (connection true 0 none ∷ []) 7 ≡ none)
re_init-overrun_example =
    re_init-overrun crowded 5 0 0 0 7 player (connection true 0 none ∷ []) (connection true 0 none)
      refl (omega arith) (omega arith) refl (omega arith) (omega arith) refl refl

-- One party of the old host, with participant 1: of its ids only the first is read.
abbrev moved_party : LocalPartyInfo
moved_party = record { participant_count = 1; participant_ids = 1 ∷ 0 ∷ [] }

one-Movable : Movable server.setup (moved_party ∷ [])
one-Movable = (complete, distinct)
  where
    complete : Complete (moved_party ∷ [])
    complete zero info at = ground arith
    complete (suc i) info at = absurd (cc)

    distinct : (j : ℕ) → occurrences j (all_ids (moved_party ∷ [])) ≤ to_ℕ (ltb j 2)
    distinct zero = ground arith
    distinct (suc zero) = ground arith
    distinct (suc (suc j)) = ground arith

host_migration-ServerValid_example :
    (result : ℤ) × (self : Server external) × (host_migration fresh (moved_party ∷ [])
      ≡ some (result, self))
    × ((is_negative result ≡ true) ⊎ ServerValid self)
host_migration-ServerValid_example =
    host_migration-ServerValid blank (free_party ∷ free_party ∷ []) server.setup 5 0 0
      (moved_party ∷ []) blank-Memory one-Movable
