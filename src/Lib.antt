-- ===== src/Lib.antt =====
-- nimble-server-lib: the server of a deterministic multiplayer game. Clients send predicted steps,
-- and the server composes them to authoritative steps, which it sends back.
--
-- The parts, and the files that model them:
--   * src/lib/circular_buffer.c, a ring of 64 octets: CircularBuffer (`init`, `write`, `read`,
--     `is_empty`, `is_full`, `count`). It keeps the ids that are free.
--   * src/lib/connection_quality.c and src/lib/delayed_quality.c: Quality. Forced and usable steps
--     of a party are counted, and a failing quality counts once it lasts.
--   * src/lib/participant.c, src/lib/participants.c and src/lib/participant_references.c:
--     Participant and Participants, the pool of participants with the ring of free ids.
--     Participants.Slots, Inv, Join, Fill and Prepare are about the array, its invariant and each
--     operation; Participants.Queue has the queue of ids that the pool stands for.
--   * src/lib/local_party.c: LocalParty, the participants that came from one connection, and
--     LocalParty.Predicted, which reads their predicted steps.
--   * src/lib/local_parties.c: LocalParties, the array of parties.
--   * src/lib/game_state.c and src/lib/game.c: GameState and Game.
--   * src/lib/authoritative_steps.c: Advance, the decision to compose a step, and
--     AuthoritativeSteps, the composition and its loop.
--   * src/lib/transport_connection.c: TransportConnection.
--   * src/lib/update_quality.c: UpdateQuality, whether the host updates in time.
--   * src/lib/server.c: Server (setting up, ticks, connections), HostMigration and Feed (datagrams
--     and `nimbleServerUpdate`).
--   * src/lib/req_connect.c, src/lib/req_game_join.c, src/lib/req_step.c with
--     src/lib/incoming_predicted_steps.c, src/lib/send_authoritative_steps.c with
--     src/lib/transport_connection_stats.c, and src/lib/req_game_state.c with
--     src/lib/req_game_state_ack.c: Requests.Connect, Join, Step, Send and Download.
--   * src/include/nimble-server/errors.h: Errors.
-- Safety has the invariant of the whole server, and that the parts keep it: Safety.Shapes says what a
-- part may rely on of a party and of a connection, Valid has the invariant, Members, Ring and Tied
-- what keeps its parts. From the bottom up, Dissolve and Tick follow the ticks; Predicted, Compose,
-- Intake, Reply and Step a game step; Connect a request for a connection; Created, Joinable, Choose and
-- Join a request to join; Sending and Download the blob streams, and Again a download that is repeated.
-- Faults has the tests for memory that was never set. Dispatch, Command, Feed and Update follow the
-- calls of src/lib/server.c. Start has the set-up, Housing, Migrate, Moved and Host the host
-- migration, and Reach the servers reached from them; Recount shows where the parties are counted
-- wrongly.
-- Prelude has what the modules share: C arrays as lists with native indices, the arithmetic of
-- `size_t`, `uint32_t` and `uint8_t` with its wrap-around, and results of type `int`.
-- Samples has small concrete libraries and values, Witnesses the theorems at concrete inputs.
--
-- How the state corresponds: a struct is a record with the fields that the code reads; a function
-- that updates `*self` returns the new value, after its result. A pointer into an array is an
-- index, and NULL is `none`; so an array is changed where the server keeps it, and all who refer to
-- it see the change. Where the code has undefined behaviour, such as an access outside an array, the
-- result is `none` of an outer Option.
--
-- The libraries that are not in this repository (nimble-steps, nimble-serialize, flood, stats,
-- ordered-datagram, blob-stream) are parameters: the records of External, of which each definition
-- takes those that it uses. The hypotheses on them are
-- AuthoritativeSteps.Loop.WriteAdds and Requests.Step.Room.DiscardTakes, that a write or a discard
-- that succeeds changes the number of steps by what was asked for, and Safety.Streams.Sized, that no
-- reader adds to what is left of a datagram and that reading an octet takes from it.
--
-- Where the code uses memory that was never set, what is proved of datagrams takes a hypothesis on
-- those datagrams: Safety.Faults has tests that run beside the code and fire where a command uses the
-- outgoing blob stream of a connection before a download has initialized it, or where a request to
-- join is neither of one player nor with the secret of a party that has as many participants. The
-- code does not deal with other requests: of two players only one gets an id, and the id of a party
-- that comes with a secret is an index that is not checked. The array of 16 places in which
-- `nimbleServerLocalPartiesPrepare` keeps the participants that it creates is a bound of the host
-- migration.
--
-- Fuel: the loop of AuthoritativeSteps has half a window and one round, since each round but the last
-- adds a step and the loop stops at half a window. The loop of Feed over a datagram's commands takes
-- its fuel as an argument, and `none` also stands for fuel that ran out; one round more than the
-- datagram has octets is enough, since each round reads one at least.
--
-- Not modelled: the log with the assertions and texts that only feed it; the allocators; the sending
-- functions of the transport, in whose place the datagrams are listed; the example daemon and the
-- test runner; and src/lib/participant_connection.c and src/lib/forced_step.c, whose headers do not
-- exist, which src/lib/CMakeLists.txt does not build and which nothing calls.
pub mod Prelude
pub mod CircularBuffer
pub mod Quality
pub mod External
pub mod Errors
pub mod Participant
pub mod Participants
pub mod GameState
pub mod TransportConnection
pub mod LocalParty
pub mod LocalParties
pub mod Game
pub mod Advance
pub mod AuthoritativeSteps
pub mod UpdateQuality
pub mod Server
pub mod HostMigration
pub mod Requests
pub mod Feed
pub mod Safety
pub mod Samples
pub mod Witnesses
