-- ===== src/Requests/Download.antt =====
-- src/lib/req_game_state.c and src/lib/req_game_state_ack.c: a client downloads the game state as a
-- blob stream. Datagrams that are sent are listed in order, each as its octets. The outer `none` of a
-- result is undefined behaviour: the logic of the stream is used and was never initialized. The log
-- is left out.
use nimble_server_lib.Prelude.{
  ℕ, ℤ, pos, is_negative, List, [], ◌∷◌, ◌++◌, ltb, ◌==◌, if◌then◌else◌, Option, some, ◌>>=◌,
}
use nimble_server_lib.Errors.{err_serialize}
use nimble_server_lib.External.{External}
use nimble_server_lib.GameState
use nimble_server_lib.TransportConnection
use nimble_server_lib.TransportConnection.{TransportConnection, set_game_state_tick_id}

-- A result, the connection and the datagrams sent.
abbrev pub Sent : External → Type 0
Sent e = ℤ × TransportConnection e × List (List ℕ)

module _ (e : External) where
  open e.blobs use {BlobEntry, logic_receive, logic_prepare_send, logic_send_entry, transfer_id}

  -- The loop over the entries that are due, of the transfer of an id: a datagram that is too long
  -- ends it.
  unfoldable pub send_entries : List BlobEntry → TransportConnection e → ℕ → ℕ → Sent e
  send_entries [] t transfer client_time = (pos 0, t, [])
  send_entries (entry ∷ entries) t transfer client_time =
      let (_, t₁, out₁) =
        TransportConnection.write_header t (e.out.out_init e.serialize.datagram_max_size)
          client_time in
      let out₂ = e.serialize.write_command out₁ e.serialize.cmd_server_out_blob_stream in
      let out₃ = logic_send_entry out₂ entry transfer in
      let t₂ = TransportConnection.commit_header t₁ in
      let (result, t₃, sent) = send_entries entries t₂ transfer client_time in
      if ltb e.serialize.datagram_max_size (e.out.pos out₃)
      then (err_serialize, t₂, [])
      else (result, t₃, e.out.octets out₃ ∷ sent)

  -- The time of the clock is `now`; at most 4 entries are sent.
  unfoldable pub send_blob_stream : TransportConnection e → ℕ → ℕ → Option (Sent e)
  unfolding send_entries
  send_blob_stream t client_time now = do
    before ← t.blob_stream_logic_out
    let (entries, logic) = logic_prepare_send before now 4
    some (
        send_entries entries (record t { blob_stream_logic_out = some logic }) (transfer_id logic)
          client_time)

  unfoldable pub req_blob_stream :
      TransportConnection e → e.input.InStream → ℕ → ℕ → Option (Sent e × e.input.InStream)
  unfolding send_blob_stream
  req_blob_stream t stream client_time now = do
    before ← t.blob_stream_logic_out
    let (result, logic, stream') = logic_receive before stream
    let t' = record t { blob_stream_logic_out = some logic }
    if is_negative result
        then some ((result, t', []), stream')
        else do sent ← send_blob_stream t' client_time now; some (sent, stream')

  -- The current state is fetched and a new transfer set up, for a request not answered before.
  -- The result of `nimbleServerGameStateSet` is not looked at.
  unfoldable pub fetch_state : TransportConnection e → ℕ → ℕ × List ℕ → TransportConnection e
  fetch_state t request_id (step_id, state) =
      let game_state = (GameState.set t.game_state step_id state).1 in
      let blob = e.blobs.blob_init (GameState.octets game_state) in
      set_game_state_tick_id (record t {
        game_state = game_state;
        blob_stream_logic_out = some (e.blobs.logic_init blob t.next_blob_stream_out_channel);
        next_blob_stream_out_channel = e.blobs.next_transfer_id t.next_blob_stream_out_channel;
        blob_stream_out_client_request_id = request_id;
      })

  -- The datagram with the response and the start of the transfer.
  unfoldable pub send_state_response : TransportConnection e → ℕ → Option (Sent e)
  send_state_response t client_time = do
    before ← t.blob_stream_logic_out
    let (_, t₁, out₁) = TransportConnection.write_header t (e.out.out_init 256) client_time
    let (err, out₂) =
        e.serialize.out_game_state_response out₁ t.game_state.step_id
          (GameState.octets t.game_state) t.blob_stream_out_client_request_id (transfer_id before)
    let out₃ = e.serialize.write_command out₂ e.serialize.cmd_server_out_blob_stream
    let (err', logic, out₄) = e.blobs.logic_start_transfer before out₃
    let t₂ = record t₁ { blob_stream_logic_out = some logic }
    some (
        if is_negative err
        then (err, t₁, [])
        else if is_negative err'
        then (err', t₂, [])
        else (pos 0, TransportConnection.commit_header t₂, e.out.octets out₄ ∷ []))

  -- `current` is the state that the callback gives.
  unfoldable pub req_download_game_state :
      TransportConnection e
      → e.input.InStream
      → ℕ × List ℕ
      → ℕ
      → ℕ
      → Option (Sent e × e.input.InStream)
  unfolding fetch_state send_state_response send_blob_stream
  req_download_game_state t stream current client_time now =
      let (request_id, stream') = e.input.read_u8 stream in
      let t₁ =
        if request_id == t.blob_stream_out_client_request_id
        then t
        else fetch_state t request_id current in
      do
        (err, t₂, response) ← send_state_response t₁ client_time
        if is_negative err then some ((err, t₂, response), stream') else do
          (result, t₃, chunks) ← send_blob_stream t₂ client_time now
          some ((result, t₃, response ++ chunks), stream')
