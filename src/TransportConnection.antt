-- ===== src/TransportConnection.antt =====
-- src/lib/transport_connection.c and its header: what the server keeps for one connection of the
-- transport. The log, the allocators and the counter of the debug output are left out.
-- `BlobStreamLogicOut` points at `BlobStreamOut`, which the server never touches again after the
-- two are initialised together, so the logic stands for both.
use nimble_server_lib.Prelude.{ℕ, ℤ, Bool, true, false, Option}
use nimble_server_lib.External.{External}
use nimble_server_lib.GameState
use nimble_server_lib.GameState.{GameState}

-- NimbleServerTransportConnectionPhase
pub data Phase : Type 0 where
  idle waiting_for_valid_connect connected initial_state_determined disconnected : Phase

pub record TransportConnection (e : External) : Type 0 where
  pub id : ℕ
  pub transport_connection_id : ℕ
  pub transport_index : ℕ
  pub connected_from_connect_request_id : ℕ
  pub secret : ℕ
  pub assigned_party : Option ℕ
  pub ordered_in : e.ordered.OrderedIn
  pub ordered_out : e.ordered.OrderedOut
  -- `none` until a download of the game state initializes it: its use before is undefined behaviour.
  pub blob_stream_logic_out : Option e.blobs.BlobStreamLogicOut
  pub next_blob_stream_out_channel : ℕ
  pub blob_stream_out_client_request_id : ℕ
  pub steps_behind_stats : e.stats.StatsInt
  pub is_used : Bool
  pub use_debug_streams : Bool
  pub no_ranges_to_send_counter : ℕ
  pub phase : Phase
  pub game_state : GameState

module _ {e : External} where
  unfoldable pub init : TransportConnection e → ℕ → TransportConnection e
  init t max_game_state_octet_size = record t {
    ordered_out = e.ordered.ordered_out_init;
    ordered_in = e.ordered.ordered_in_init;
    game_state = GameState.init max_game_state_octet_size;
    next_blob_stream_out_channel = 127;
    is_used = true;
    no_ranges_to_send_counter = 0;
    phase = Phase.idle;
    blob_stream_out_client_request_id = 0;
    use_debug_streams = true;
    steps_behind_stats = e.stats.stats_init 60;
  }

  unfoldable pub disconnect : TransportConnection e → TransportConnection e
  disconnect t = record t { is_used = false; phase = Phase.disconnected }

  unfoldable pub set_game_state_tick_id : TransportConnection e → TransportConnection e
  set_game_state_tick_id t = record t { phase = Phase.initial_state_determined }

  unfoldable pub write_header :
      TransportConnection e → e.out.OutStream → ℕ → ℤ × TransportConnection e × e.out.OutStream
  write_header t out client_time =
      let (ordered_out, out') = e.ordered.ordered_out_prepare t.ordered_out out in
      let (result, out'') = e.out.write_u16 out' client_time in
      (result, record t { ordered_out = ordered_out }, out'')

  unfoldable pub commit_header : TransportConnection e → TransportConnection e
  commit_header t = record t { ordered_out = e.ordered.ordered_out_commit t.ordered_out }
