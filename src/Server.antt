-- ===== src/Server.antt =====
-- src/include/nimble-server/server.h and the part of src/lib/server.c that sets the server up, ticks
-- its parties and follows the transport's connections.
-- Pointers between the parts are indices: a party's connection and a connection's party into the
-- arrays of the server. The outer `none` of a result is undefined behaviour. The log, the
-- allocators and the transport's functions are left out; the clock is an argument.
pub mod Disconnect
pub mod Dissolve
use nimble_server_lib.Prelude.{
  ℕ, zero, suc, ◌+◌, ◌%◌, ◌^◌, ℤ, pos, negsuc, is_negative, ◌>>=◌, Bool, true, false, ◌||◌, not,
  List, [], ◌∷◌, Option, none, some, get_elem?, set, take, ltb, leb, ◌==◌, if◌then◌else◌, sub_u32,
  to_u8,
}
use nimble_server_lib.External.{External, StatsLib, StepsLib}
use nimble_server_lib.CircularBuffer as Ring
use nimble_server_lib.CircularBuffer.{CircularBuffer}
use nimble_server_lib.Participant
use nimble_server_lib.Participant.{Participant, for_references, mark_as_leaving}
use nimble_server_lib.Participants.{Participants, write_ids}
use nimble_server_lib.LocalParty
use nimble_server_lib.LocalParty.{LocalParty}
use nimble_server_lib.LocalParties
use nimble_server_lib.LocalParties.{LocalParties, LocalPartyInfo}
use nimble_server_lib.TransportConnection
use nimble_server_lib.TransportConnection.{TransportConnection}
use nimble_server_lib.Game
use nimble_server_lib.Game.{Game}
use nimble_server_lib.UpdateQuality
use nimble_server_lib.UpdateQuality.{UpdateQuality}

-- NIMBLE_NIMBLE_SERVER_MAX_TRANSPORT_CONNECTIONS
abbrev pub max_transport_connections : ℕ
max_transport_connections = 64

-- NimbleServerSetup, and the call of `authoritativeStateSerializeFn`, which gives the step id and
-- the octets of the game state.
pub record Setup (e : External) : Type 0 where
  pub application_version : e.serialize.Version
  pub max_connection_count : ℕ
  pub max_participant_count : ℕ
  pub max_single_participant_step_octet_count : ℕ
  pub max_waiting_for_reconnect_ticks : ℕ
  pub max_game_state_octet_count : ℕ
  pub now : ℕ
  pub target_tick_time_ms : ℕ
  pub serialize_authoritative_state : ℕ × List ℕ

pub record Server (e : External) : Type 0 where
  pub transport_connections : List (TransportConnection e)
  pub local_parties : LocalParties e.stats
  pub game : Game e.steps
  pub application_version : e.serialize.Version
  pub setup : Setup e
  pub stats_counter : ℕ
  pub authoritative_steps_per_second_stat : e.stats.StatsPerSecond
  pub update_quality : UpdateQuality e.stats
  pub free_transport_connection_list : CircularBuffer
  pub session_secret : ℕ

module _ {st : StatsLib} {sl : StepsLib} where
  -- `destroyParty`, of the party at an index.
  unfoldable pub destroy_party :
      LocalParties st → List (Participant sl) → ℕ → Option (LocalParties st × List (Participant sl))
  destroy_party ls ps i = do
    party ← get_elem? ls.parties i
    let ls₁ = record ls { parties = set ls.parties i (LocalParty.destroy party) }
    ps' ← for_references mark_as_leaving party.participant_references ps
    ls₂ ← LocalParties.remove ls₁ i
    some (ls₂, ps')

module _ {e : External} where
  -- The loop that clears the connections from `i` on; `init` lists those from 1 on as free.
  unfoldable pub init_connections : ℕ → List (TransportConnection e) → List (TransportConnection e)
  init_connections i [] = []
  init_connections i (t ∷ ts) =
      record t { assigned_party = none; transport_connection_id = to_u8 i; is_used = false }
      ∷ init_connections (i + 1) ts

  -- `memory` is the server's memory before, and `parties` the cleared memory of the parties. The
  -- limits on the setup are only logged.
  unfoldable pub init : Server e → List (LocalParty e.stats) → Setup e → ℕ → ℤ × Server e
  init memory parties setup clock = (
    pos 0,
    record memory {
      local_parties = LocalParties.init parties setup.max_connection_count;
      application_version = setup.application_version;
      setup = setup;
      transport_connections = init_connections 0 memory.transport_connections;
      free_transport_connection_list =
          write_ids (λ _. false) (Ring.init memory.free_transport_connection_list) 1 63;
      authoritative_steps_per_second_stat = e.stats.per_second_init setup.now 1000;
      update_quality = UpdateQuality.init memory.update_quality setup.target_tick_time_ms clock;
    },
  )

  unfoldable pub re_init_with_game : Server e → ℕ → ℕ → ℕ → ℤ × Server e
  unfolding Game.init
  re_init_with_game self step_id now clock =
      let game =
        Game.init e.steps self.game.participants.free_list
          self.setup.max_single_participant_step_octet_count self.setup.max_participant_count in
      (
        pos 0,
        record self {
          game = record game {
            authoritative_steps = e.steps.steps_re_init game.authoritative_steps step_id;
          };
          authoritative_steps_per_second_stat = e.stats.per_second_init now 1000;
          local_parties = LocalParties.reset self.local_parties;
          update_quality = UpdateQuality.re_init self.update_quality clock;
          stats_counter = 0;
        },
      )

  unfoldable pub disconnect_transport_connection : Server e → ℕ → Option (Server e)
  disconnect_transport_connection self i = do
    t ← get_elem? self.transport_connections i
    some (record self {
      free_transport_connection_list = Ring.write self.free_transport_connection_list (to_u8 t.id);
      transport_connections = set self.transport_connections i (TransportConnection.disconnect t);
    })

  abbrev pub with_participants : Server e → List (Participant e.steps) → Server e
  with_participants self ps = record self {
    game = record (self.game) {
      participants = record (self.game.participants) { participants = ps };
    };
  }

  -- One round of the loop over the parties. The party's connection is read after the party was
  -- reset, which leaves it as it was.
  unfoldable pub tick_party : Server e → ℕ → Option (Server e)
  unfolding destroy_party
  tick_party self i = do
    party ← get_elem? self.local_parties.parties i
    if not party.is_used then some self else do
      (is_working, party', ps) ← LocalParty.tick party self.game.participants.participants
      let ls = record (self.local_parties) { parties = set self.local_parties.parties i party' }
      if is_working then some (with_participants (record self { local_parties = ls }) ps) else do
        (ls', ps') ← destroy_party ls ps i
        let self' = with_participants (record self { local_parties = ls' }) ps'
        elim party'.transport_connection [
          | none ↦ some self'
          | some t ↦ disconnect_transport_connection self' t
        ]

  unfoldable pub tick_parties_from : ℕ → ℕ → Server e → Option (Server e)
  unfolding tick_party
  tick_parties_from i zero self = some self
  tick_parties_from i (suc n) self = do self' ← tick_party self i; tick_parties_from (i + 1) n self'

  unfoldable pub tick_parties : Server e → Option (Server e)
  unfolding tick_parties_from
  tick_parties self = tick_parties_from 0 self.local_parties.capacity_count self

module _ {e : External} where
  unfoldable pub connection_connected : Server e → ℕ → Option (ℤ × Server e)
  connection_connected self i = do
    t ← get_elem? self.transport_connections i
    if t.is_used
        then some (negsuc 43, self)
        else some (
          pos 0,
          record self {
            transport_connections = set self.transport_connections i (record t { is_used = true });
          },
        )

  -- The index of the connection is taken for the index of the party. `-2` is never returned, since
  -- the search never gives NULL.
  unfoldable pub connection_disconnected : Server e → ℕ → Option (ℤ × Server e)
  connection_disconnected self i = do
    party ← get_elem? self.local_parties.parties (LocalParties.find_party self.local_parties i)
    if not party.is_used then some (negsuc 3, self) else do
      t ← get_elem? self.transport_connections i
      some (
        pos 0,
        record self {
          local_parties = record (self.local_parties) {
            parties =
                set self.local_parties.parties i (record party { id = 0xff; is_used = false });
          };
          transport_connections =
              set self.transport_connections i
                (record t { ordered_in = e.ordered.ordered_in_forget t.ordered_in });
        },
      )

  -- Nothing is reset.
  unfoldable pub reset : Server e → Server e
  reset self = self
