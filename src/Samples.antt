-- ===== src/Samples.antt =====
-- Values for the tests, over small concrete libraries.
mod Libraries
pub use Libraries.*
use nimble_server_lib.Prelude.{
  ℕ, ◌+◌, ◌-◌, ◌*◌, ℤ, pos, negsuc, true, false, List, [], ◌∷◌, ◌++◌, none, some, Option, length,
  replicate, ◌==◌, if◌then◌else◌, Bool,
}
use nimble_server_lib.External.{
  External, StepsLib, StatsLib, OutStreamLib, InStreamLib, OrderedLib, BlobLib, SerializeLib,
  JoinPlayer, JoinGameType,
}
use nimble_server_lib.CircularBuffer.{CircularBuffer}
use nimble_server_lib.Participants
use nimble_server_lib.Participants.{Participants}
use nimble_server_lib.LocalParty.{LocalParty, PartyState}
use nimble_server_lib.LocalParty.Predicted.{value}
use nimble_server_lib.LocalParties.{LocalParties}
use nimble_server_lib.GameState.{GameState}
use nimble_server_lib.TransportConnection.{TransportConnection, Phase}
use nimble_server_lib.Game.{Game}
use nimble_server_lib.Quality.{ConnectionQuality, DelayedQuality}
use nimble_server_lib.UpdateQuality.{UpdateQuality, UpdateState}
use nimble_server_lib.Server.{Server, Setup}

-- The memory of a ring, before it is initialised.
abbrev pub ring_memory : CircularBuffer
ring_memory = record { octets = replicate 64 0; head = 3; tail = 5; is_full = true }

abbrev pub player : JoinPlayer
player = record { local_index = 0 }

-- A new collection for two participants.
abbrev pub nobody : Participants steps_lib
nobody = Participants.init steps_lib ring_memory 2 8

abbrev pub joined_in : Option (ℤ × List ℕ × Participants steps_lib) → Participants steps_lib
joined_in none = nobody
joined_in (some (result, created, ps)) = ps

-- One participant of party 0 joined at step 0.
abbrev pub crew : Participants steps_lib
crew = joined_in (Participants.join nobody (player ∷ []) 1 0 0)

abbrev pub quality : ConnectionQuality
quality = record {
  forced_step_in_row_counter = 0;
  provided_steps_in_a_row = 0;
  added_steps_to_buffer_counter = 0;
  has_added_first_accepted_steps = false;
}

abbrev pub delayed_quality : DelayedQuality
delayed_quality = record { impeding_disconnect_counter = 0 }

-- A party in use, in a state and with participants.
abbrev pub party_in : PartyState → List ℕ → LocalParty stats_lib
party_in state refs = record {
  id = 0;
  is_used = true;
  state = state;
  participant_references = refs;
  incoming_step_count_in_buffer_stats = pos 0;
  transport_connection = some 1;
  waiting_for_reconnect_timer = 0;
  waiting_for_reconnect_max_timer = 3;
  quality = quality;
  delayed_quality = delayed_quality;
  warning_count = 0;
  warning_about_zero_added_steps = 0;
  highest_received_step_id = 0;
  steps_in_buffer_count = 0;
}

abbrev pub free_party : LocalParty stats_lib
free_party = record (party_in PartyState.normal []) { is_used = false }

-- One party in use, and a free place.
abbrev pub parties : LocalParties stats_lib
parties = record {
  parties = party_in PartyState.normal (0 ∷ []) ∷ free_party ∷ [];
  parties_count = 1;
  capacity_count = 2;
}

abbrev pub game_state : GameState
game_state = record { state = 0 ∷ 0 ∷ 0 ∷ []; octet_count = 0; capacity = 3; step_id = 0 }

-- A connection, used or not, opened from a transport index, of a party.
abbrev pub connection : Bool → ℕ → Option ℕ → TransportConnection external
connection is_used index party = record {
  id = index;
  transport_connection_id = index;
  transport_index = index;
  connected_from_connect_request_id = 0;
  secret = 0;
  assigned_party = party;
  ordered_in = 0;
  ordered_out = 0;
  blob_stream_logic_out = none;
  next_blob_stream_out_channel = 127;
  blob_stream_out_client_request_id = 0;
  steps_behind_stats = pos 0;
  is_used = is_used;
  use_debug_streams = false;
  no_ranges_to_send_counter = 0;
  phase = Phase.idle;
  game_state = game_state;
}

abbrev pub game : Game steps_lib
game = record { authoritative_steps = (0, 0, 0); participants = crew; debug_is_frozen = false }

abbrev pub setup : Setup external
setup = record {
  application_version = 1;
  max_connection_count = 2;
  max_participant_count = 2;
  max_single_participant_step_octet_count = 8;
  max_waiting_for_reconnect_ticks = 3;
  max_game_state_octet_count = 3;
  now = 0;
  target_tick_time_ms = 16;
  serialize_authoritative_state = (0, []);
}

abbrev pub update_quality : UpdateQuality stats_lib
update_quality = record {
  last_time_ms = 0;
  measured_delta_time_ms_stat = pos 0;
  average_tick_time_failed_in_a_row = 0;
  delta_tick_time_failed_in_a_row = 0;
  target_time_ms = 16;
  state = UpdateState.working;
}

-- Connection 1 is free, connection 2 was opened from index 1.
abbrev pub server : Server external
server = record {
  transport_connections =
      connection true 0 (some 0) ∷ connection false 1 none ∷ connection true 1 none ∷ [];
  local_parties = parties;
  game = game;
  application_version = 1;
  setup = setup;
  stats_counter = 0;
  authoritative_steps_per_second_stat = pos 0;
  update_quality = update_quality;
  free_transport_connection_list = record {
    octets = replicate 64 1;
    head = 1;
    tail = 0;
    is_full = false;
  };
  session_secret = 0;
}
