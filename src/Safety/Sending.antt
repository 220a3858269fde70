-- ===== src/Safety/Sending.antt =====
-- What is sent of a blob stream, in src/lib/req_game_state_ack.c, changes nothing of a connection that
-- other parts rely on.
use nimble_server_lib.Prelude.{
  ℕ, ap, ◌>>=◌, ◌≤◌, ◌≡◌, refl, List, [], ◌∷◌, Option, some, Bool-cases, inl, inr, is_negative, ltb,
  false,
}
use nimble_server_lib.External.{External}
use nimble_server_lib.GameState.{GameState}
use nimble_server_lib.TransportConnection
use nimble_server_lib.TransportConnection.{TransportConnection, set_game_state_tick_id}
use nimble_server_lib.Requests.Download.{Sent, send_entries, send_blob_stream, req_blob_stream}
use nimble_server_lib.Safety.Shapes.{link}
use nimble_server_lib.Safety.Streams.{Sized}

module _ (e : External) where
  open e.blobs use {
    BlobEntry, BlobStreamLogicOut, logic_receive, logic_prepare_send, logic_send_entry,
    logic_start_transfer, transfer_id,
  }

  -- What a connection holds of a download: the state that was fetched, the request that it was
  -- fetched for, and the next channel.
  abbrev pub held : TransportConnection e → GameState × ℕ × ℕ
  held t = (t.game_state, t.blob_stream_out_client_request_id, t.next_blob_stream_out_channel)

  -- The outgoing blob stream of a connection is initialized.
  abbrev pub Initialized : TransportConnection e → Type 0
  Initialized t = (logic : BlobStreamLogicOut) × (t.blob_stream_logic_out ≡ some logic)

  -- Sending keeps the connection's id, its use, its party and its download.
  abbrev pub SameConnection : TransportConnection e → TransportConnection e → Type 0
  SameConnection t' t = (link t' ≡ link t) × (held t' ≡ held t)

  send_entries-same :
      (entries : List BlobEntry) (t : TransportConnection e) (transfer client_time : ℕ)
      → SameConnection (send_entries e entries t transfer client_time).1 t
        × ((send_entries e entries t transfer client_time).1.blob_stream_logic_out
            ≡ t.blob_stream_logic_out)
  unfolding send_entries TransportConnection.write_header TransportConnection.commit_header
  send_entries-same [] t transfer client_time = ((refl, refl), refl)
  send_entries-same (entry ∷ entries) t transfer client_time =
      let (_, t₁, out₁) =
        TransportConnection.write_header t (e.out.out_init e.serialize.datagram_max_size)
          client_time in
      let out₂ = e.serialize.write_command out₁ e.serialize.cmd_server_out_blob_stream in
      let out₃ = logic_send_entry out₂ entry transfer in
      let t₂ = TransportConnection.commit_header t₁ in
      let rest = send_entries-same entries t₂ transfer client_time in
      elim (Bool-cases (ltb e.serialize.datagram_max_size (e.out.pos out₃))) [
        | inl long ↦ simp (send_entries, long) ((refl, refl), refl)
        | inr fits ↦ simp (send_entries, fits) rest
      ]

  -- What was sent, on a connection whose stream is initialized.
  abbrev pub SendsFrom : TransportConnection e → Option (Sent e) → Type 0
  SendsFrom t run = (r : Sent e) × (run ≡ some r) × SameConnection r.1 t × Initialized r.1

  pub send_blob_stream-SendsFrom :
      (t : TransportConnection e) (logic : BlobStreamLogicOut) (client_time now : ℕ)
      → t.blob_stream_logic_out ≡ some logic
      → SendsFrom t (send_blob_stream e t client_time now)
  unfolding send_blob_stream
  send_blob_stream-SendsFrom t logic client_time now its =
      let (entries, logic') = logic_prepare_send logic now 4 in
      (
        send_entries e entries (record t { blob_stream_logic_out = some logic' })
            (transfer_id logic') client_time,
        simp its,
        (send_entries-same entries (record t { blob_stream_logic_out = some logic' })
            (transfer_id logic') client_time).0,
        (
          logic',
          (send_entries-same entries (record t { blob_stream_logic_out = some logic' })
              (transfer_id logic') client_time).1,
        ),
      )

  -- What a handler leaves: the connection's id, its use and its party, and no more to read.
  abbrev pub Streams :
      Sized e
      → TransportConnection e
      → e.input.InStream
      → Option (Sent e × e.input.InStream)
      → Type 0
  Streams sized t stream run =
      (r : Sent e) × (stream' : e.input.InStream) × (run ≡ some (r, stream'))
      × (link r.1 ≡ link t)
      × (sized.input.size stream' ≤ sized.input.size stream)

  -- An acknowledgement of a blob stream, on a connection whose stream was initialized.
  pub req_blob_stream-Streams :
      (sized : Sized e) (t : TransportConnection e) (logic : BlobStreamLogicOut)
      (stream : e.input.InStream) (client_time now : ℕ)
      → t.blob_stream_logic_out ≡ some logic
      → Streams sized t stream (req_blob_stream e t stream client_time now)
  unfolding req_blob_stream
  req_blob_stream-Streams sized t logic stream client_time now its =
      let (result, logic', stream') = logic_receive logic stream in
      let t' : TransportConnection e = record t { blob_stream_logic_out = some logic' } in
      let less = sized.of_blob logic stream in
      elim (Bool-cases (is_negative result)) [
        | inl bad ↦ ((result, t', []), stream', simp (its, bad), refl, less)
        | inr good ↦ sent good (send_blob_stream-SendsFrom t' logic' client_time now refl)
      ]
    where
      received : TransportConnection e
      received = record t { blob_stream_logic_out = some (logic_receive logic stream).1 }

      sent :
          is_negative (logic_receive logic stream).0 ≡ false
          → SendsFrom received (send_blob_stream e received client_time now)
          → Streams sized t stream (req_blob_stream e t stream client_time now)
      sent good (r, run, same, set) = (
        r,
        (logic_receive logic stream).2,
        simp (req_blob_stream, its, good)
            (ap (λ o. o >>= (λ x. some (x, (logic_receive logic stream).2))) run),
        same.0,
        sized.of_blob logic stream,
      )
