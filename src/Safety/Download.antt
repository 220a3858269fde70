-- ===== src/Safety/Download.antt =====
-- The download of the game state, in src/lib/req_game_state.c, changes nothing of a connection that
-- other parts rely on.
use nimble_server_lib.Prelude.{
  ℕ, ◌≡◌, refl, List, [], ◌∷◌, Option, some, Bool-cases, inl, inr, is_negative, ◌==◌, ◌∙◌, ◌++◌,
  arith, false, pos, ◌⊎◌, if◌then◌else◌,
}
use nimble_server_lib.External.{External}
use nimble_server_lib.GameState
use nimble_server_lib.GameState.{GameState}
use nimble_server_lib.TransportConnection
use nimble_server_lib.TransportConnection.{TransportConnection, set_game_state_tick_id}
use nimble_server_lib.Requests.Download.{
  Sent, send_blob_stream, fetch_state, send_state_response, req_download_game_state,
}
use nimble_server_lib.Safety.Shapes.{link}
use nimble_server_lib.Safety.Streams.{Sized}
use nimble_server_lib.Safety.Sending.{
  Initialized, SameConnection, SendsFrom, send_blob_stream-SendsFrom, Streams,
}

module _ (e : External) where
  open e.blobs use {
    BlobEntry, BlobStreamLogicOut, logic_receive, logic_prepare_send, logic_send_entry,
    logic_start_transfer, transfer_id,
  }

  fetch_state-link :
      (t : TransportConnection e) (request_id : ℕ) (current : ℕ × List ℕ)
      → link (fetch_state e t request_id current) ≡ link t
  unfolding fetch_state set_game_state_tick_id
  fetch_state-link t request_id (step_id, state) = refl

  fetch_state-initialized :
      (t : TransportConnection e) (request_id : ℕ) (current : ℕ × List ℕ)
      → (logic : BlobStreamLogicOut) × ((fetch_state e t request_id current).blob_stream_logic_out
          ≡ some logic)
  unfolding fetch_state set_game_state_tick_id
  fetch_state-initialized t request_id (step_id, state) = (_, refl)

  send_state_response-SendsFrom :
      (t : TransportConnection e) (logic : BlobStreamLogicOut) (client_time : ℕ)
      → t.blob_stream_logic_out ≡ some logic
      → SendsFrom e t (send_state_response e t client_time)
  unfolding send_state_response TransportConnection.write_header TransportConnection.commit_header
  send_state_response-SendsFrom t logic client_time its =
      let (_, t₁, out₁) = TransportConnection.write_header t (e.out.out_init 256) client_time in
      let (err, out₂) =
        e.serialize.out_game_state_response out₁ t.game_state.step_id
          (GameState.octets t.game_state) t.blob_stream_out_client_request_id (transfer_id logic) in
      let out₃ = e.serialize.write_command out₂ e.serialize.cmd_server_out_blob_stream in
      let (err', logic', out₄) = logic_start_transfer logic out₃ in
      let t₂ : TransportConnection e = record t₁ { blob_stream_logic_out = some logic' } in
      elim (Bool-cases (is_negative err)) [
        | inl bad ↦ ((err, t₁, []), simp (its, bad), (refl, refl), (logic, its))
        | inr good ↦ elim (Bool-cases (is_negative err')) [
          | inl stopped ↦ ((err', t₂, []), simp (its, good, stopped), (refl, refl), (logic', refl))
          | inr started ↦ (
            (pos 0, TransportConnection.commit_header t₂, e.out.octets out₄ ∷ []),
            simp (its, good, started),
            (refl, refl),
            (logic', refl),
          )
        ]
      ]

  -- What a request for the game state leaves of a connection that was prepared for the answer.
  abbrev pub Downloads :
      TransportConnection e → e.input.InStream → Option (Sent e × e.input.InStream) → Type 0
  Downloads t₁ stream run =
      (r : Sent e) × (run ≡ some (r, (e.input.read_u8 stream).1))
      × SameConnection e r.1 t₁
      × Initialized e r.1

  -- The connection that a request is answered from.
  abbrev pub answered_from :
      TransportConnection e → e.input.InStream → ℕ × List ℕ → TransportConnection e
  answered_from t stream current =
      if (e.input.read_u8 stream).0 == t.blob_stream_out_client_request_id
      then t
      else fetch_state e t (e.input.read_u8 stream).0 current

  -- The response and the start of the transfer, of a connection whose stream was initialized.
  responds :
      (t : TransportConnection e) (stream : e.input.InStream) (current : ℕ × List ℕ)
      (client_time now : ℕ) (t₁ : TransportConnection e) (logic : BlobStreamLogicOut)
      → answered_from t stream current ≡ t₁
      → t₁.blob_stream_logic_out ≡ some logic
      → Downloads t₁ stream (req_download_game_state e t stream current client_time now)
  unfolding req_download_game_state
  responds t stream current client_time now t₁ logic chosen its =
      answered (send_state_response-SendsFrom t₁ logic client_time its)
    where
      chunked :
          (r : Sent e)
          → send_state_response e t₁ client_time ≡ some r
          → is_negative r.0 ≡ false
          → SameConnection e r.1 t₁
          → SendsFrom e r.1 (send_blob_stream e r.1 client_time now)
          → Downloads t₁ stream (req_download_game_state e t stream current client_time now)
      chunked (err, t₂, response) run good same ((result, t₃, chunks), run', same', set) = (
        (result, t₃, response ++ chunks),
        simp (req_download_game_state, chosen, run, good, run'),
        (same'.0 ∙ same.0, same'.1 ∙ same.1),
        set,
      )

      answered :
          SendsFrom e t₁ (send_state_response e t₁ client_time)
          → Downloads t₁ stream (req_download_game_state e t stream current client_time now)
      answered ((err, t₂, response), run, same, (logic', its')) =
          elim (Bool-cases (is_negative err)) [
            | inl bad ↦ (
              (err, t₂, response),
              simp (req_download_game_state, chosen, run, bad),
              same,
              (logic', its'),
            )
            | inr good ↦
                chunked (err, t₂, response) run good same
                  (send_blob_stream-SendsFrom e t₂ logic' client_time now its')
          ]

  -- A request for the game state that is new, or on a connection whose stream was initialized.
  pub req_download_game_state-Downloads :
      (t : TransportConnection e) (stream : e.input.InStream) (current : ℕ × List ℕ)
      (client_time now : ℕ)
      → (((e.input.read_u8 stream).0 == t.blob_stream_out_client_request_id) ≡ false)
        ⊎ Initialized e t
      → Downloads
          (answered_from t stream current)
          stream
          (req_download_game_state e t stream current client_time now)
  req_download_game_state-Downloads t stream current client_time now h =
      let request_id : ℕ = (e.input.read_u8 stream).0 in
      let (logic', its') = fetch_state-initialized t request_id current in
      elim (Bool-cases (request_id == t.blob_stream_out_client_request_id)) [
        | inr new ↦
            responds t stream current client_time now (answered_from t stream current) logic' refl
              (simp new its')
        | inl again ↦ elim h [
          | inl new ↦ absurd (ground (arith, again, new))
          | inr (logic, its) ↦
              responds t stream current client_time now (answered_from t stream current) logic refl
                (simp again its)
        ]
      ]

  answered_from-link :
      (t : TransportConnection e) (stream : e.input.InStream) (current : ℕ × List ℕ)
      → link (answered_from t stream current) ≡ link t
  answered_from-link t stream current =
      elim (Bool-cases ((e.input.read_u8 stream).0 == t.blob_stream_out_client_request_id)) [
        | inl again ↦ simp again
        | inr new ↦ simp new (fetch_state-link t (e.input.read_u8 stream).0 current)
      ]

  -- The same request, seen by the rest of the server.
  pub req_download_game_state-Streams :
      (sized : Sized e) (t : TransportConnection e) (stream : e.input.InStream)
      (current : ℕ × List ℕ) (client_time now : ℕ)
      → (((e.input.read_u8 stream).0 == t.blob_stream_out_client_request_id) ≡ false)
        ⊎ Initialized e t
      → Streams e sized t stream (req_download_game_state e t stream current client_time now)
  req_download_game_state-Streams sized t stream current client_time now h =
      let (r, run, same, set) =
        req_download_game_state-Downloads t stream current client_time now h in
      (
        r,
        (e.input.read_u8 stream).1,
        run,
        same.0 ∙ answered_from-link t stream current,
        sized.input.of_u8 stream,
      )
