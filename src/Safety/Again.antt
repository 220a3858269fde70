-- ===== src/Safety/Again.antt =====
-- A download of the game state that is asked for twice under the same request id, in
-- src/lib/req_game_state.c.
use nimble_server_lib.Prelude.{ℕ, List, ◌==◌, if◌then◌else◌}
use nimble_server_lib.External.{External}
use nimble_server_lib.GameState
use nimble_server_lib.GameState.{GameState}
use nimble_server_lib.TransportConnection.{TransportConnection}
use nimble_server_lib.Safety.Sending.{held}

module _ (e : External) where
  -- What a connection holds of a download is what it held, if the request was answered last, or
  -- else the state that the callback gave, under the new request, on the next channel.
  abbrev pub fetched : TransportConnection e → ℕ → ℕ × List ℕ → GameState × ℕ × ℕ
  fetched t request_id current =
      if request_id == t.blob_stream_out_client_request_id then held e t else (
        (GameState.set t.game_state current.0 current.1).1,
        request_id,
        e.blobs.next_transfer_id t.next_blob_stream_out_channel,
      )
