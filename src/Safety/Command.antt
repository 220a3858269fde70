-- ===== src/Safety/Command.antt =====
-- One command of a datagram, in src/lib/server.c, keeps the server valid.
use nimble_server_lib.Prelude.{
  ℕ, ◌<◌, ◌≡◌, refl, ℤ, pos, true, false, [], ◌∷◌, ◌++◌, Option, none, some, arith, get_elem?,
  get_elem?-lt-length, get_elem?-set_self, Bool-cases, inl, inr, is_negative, ◌==◌, leb, ltb, ◌-◌,
  if◌then◌else◌,
}
use nimble_server_lib.Errors.{err_serialize}
use nimble_server_lib.External.{External}
use nimble_server_lib.TransportConnection
use nimble_server_lib.TransportConnection.{TransportConnection}
use nimble_server_lib.Requests.Download.{req_blob_stream}
use nimble_server_lib.Feed.{
  Session, with_connection, dispatch, reply, handle_command, handle_blob, feed_command,
}
use nimble_server_lib.Safety.Connect.{Kept}
use nimble_server_lib.Safety.Sending.{Streams, req_blob_stream-Streams}
use nimble_server_lib.Safety.Faults.{dispatch_faults, join_faults, download_faults, command_faults}
use nimble_server_lib.Safety.Dispatch.{
  Reliable, Left, HandledLeft, with_connection-Kept, Kept-connection, is_unset-cases, dispatch-Left,
}

module _ (e : External) (reliable : Reliable e) where
  -- A result and what is left of the session.
  abbrev pub ReturnsLeft : {A : Type 0} → ℕ → Session e → Option (A × Session e) → Type 0
  ReturnsLeft {A} i s run =
      (result : A) × (s' : Session e) × (run ≡ some (result, s')) × Left e reliable i s s'

  reply-Left :
      (result : ℤ) (s : Session e) (i : ℕ) (out : e.out.OutStream)
      → Kept s.server i
      → ReturnsLeft i s (reply e result s i out)
  unfolding reply TransportConnection.commit_header
  reply-Left result s i out k =
      let (t, at) = Kept-connection e s.server i k in
      let t' : TransportConnection e = TransportConnection.commit_header t in
      let s' : Session e = record s { server = with_connection e s.server i t' } in
      let k' = with_connection-Kept e s.server i i t t' k at refl in
      elim (Bool-cases (is_negative result)) [
        | inl bad ↦ (result, s, simp (reply, bad), record { kept = k; less = omega arith })
        | inr good ↦ elim (Bool-cases (leb (e.out.pos out) 4)) [
          | inl short ↦
              (err_serialize, s, simp (reply, good, short), record { kept = k; less = omega arith })
          | inr long ↦ elim (Bool-cases (ltb e.serialize.datagram_max_size (e.out.pos out))) [
            | inl too_long ↦ (
              err_serialize,
              s',
              simp (reply, good, long, at, too_long),
              record { kept = k'; less = omega arith },
            )
            | inr fits ↦ (
              pos 0,
              record s' { sent = s'.sent ++ (e.out.octets out ∷ []) },
              simp (reply, good, long, at, fits),
              record { kept = k'; less = omega arith },
            )
          ]
        ]
      ]

  handle_blob-Left :
      (s : Session e) (i : ℕ) (t : TransportConnection e) (client_time now : ℕ)
      → Kept s.server i
      → Streams e reliable.sized t s.stream (req_blob_stream e t s.stream client_time now)
      → get_elem? s.server.transport_connections i ≡ some t
      → ReturnsLeft i s (handle_blob e s i client_time now)
  unfolding handle_blob
  handle_blob-Left s i t client_time now k ((result, t', sent), stream, run, same, less) at = (
    if is_negative result then some result else none,
    record { server = with_connection e s.server i t'; stream = stream; sent = s.sent ++ sent },
    simp (at, run),
    record { kept = with_connection-Kept e s.server i i t t' k at same; less = less },
  )

  handle_command-Left :
      (s : Session e) (i : ℕ) (t : TransportConnection e) (cmd client_time secret now : ℕ)
      → Kept s.server i
      → get_elem? s.server.transport_connections i ≡ some t
      → dispatch_faults e s t cmd ≡ false
      → ReturnsLeft i s (handle_command e s i cmd client_time secret now)
  unfolding handle_command TransportConnection.write_header dispatch_faults join_faults
      download_faults
  handle_command-Left s i t cmd client_time secret now k at sound =
      let (err, t', out) =
        TransportConnection.write_header t (e.out.out_init (e.serialize.datagram_max_size - 32))
          client_time in
      let s₁ : Session e = record s { server = with_connection e s.server i t' } in
      let k₁ = with_connection-Kept e s.server i i t t' k at refl in
      let there : get_elem? s₁.server.transport_connections i ≡ some t' =
        get_elem?-set_self s.server.transport_connections i t'
          (get_elem?-lt-length s.server.transport_connections i t at) in
      elim (Bool-cases (is_negative err)) [
        | inl bad ↦
            (some err, s₁, simp (handle_command, at, bad), record { kept = k₁; less = omega arith })
        | inr good ↦
            replied t at good
              (dispatch-Left e reliable s₁ i t' cmd client_time secret now out k₁ there sound)
      ]
    where
      begun : TransportConnection e → ℤ × TransportConnection e × e.out.OutStream
      begun t =
          TransportConnection.write_header t (e.out.out_init (e.serialize.datagram_max_size - 32))
            client_time

      started : TransportConnection e → Session e
      started t = record s { server = with_connection e s.server i (begun t).1 }

      replied :
          (t : TransportConnection e)
          → get_elem? s.server.transport_connections i ≡ some t
          → is_negative (begun t).0 ≡ false
          → HandledLeft e reliable i
              (started t)
              (dispatch e (started t) i (begun t).1 cmd client_time secret now (begun t).2)
          → ReturnsLeft i s (handle_command e s i cmd client_time secret now)
      replied t at good (none, s₂, out, run, left) = (
        some (pos 0),
        s₂,
        simp (handle_command, at, good, run),
        record { kept = left.kept; less = left.less },
      )
      replied t at good (some result, s₂, out, run, left) =
          let (sent, s₃, done, left₃) = reply-Left result s₂ i out left.kept in
          (
            if is_negative sent then some sent else none,
            s₃,
            simp (handle_command, at, good, run, done),
            record { kept = left₃.kept; less = omega (arith, left.less, left₃.less) },
          )

  -- A command returns, and leaves the server valid. It reads at least one octet of the datagram.
  pub feed_command-Left :
      (s : Session e) (i client_time secret now : ℕ)
      → Kept s.server i
      → e.input.at_end s.stream ≡ false
      → command_faults e s i ≡ false
      → (stop : Option ℤ) × (s' : Session e) × (feed_command e s i client_time secret now
          ≡ some (stop, s'))
        × Kept s'.server i
        × (reliable.sized.input.size s'.stream < reliable.sized.input.size s.stream)
  unfolding feed_command command_faults
  feed_command-Left s i client_time secret now k more sound =
      let (t, at) = Kept-connection e s.server i k in
      let (cmd, stream) = e.input.read_u8 s.stream in
      let s' : Session e = record s { stream = stream } in
      let fewer = reliable.sized.input.of_u8_before_end s.stream more in
      elim (Bool-cases (cmd == e.serialize.cmd_client_out_blob_stream)) [
        | inl blob ↦
            let (stop, s'', run, left) =
              handle_blob-Left s' i t client_time now k (sends t at blob) at in
            (stop, s'', simp (feed_command, blob, run), left.kept, omega (arith, left.less, fewer))
        | inr other ↦
            let (stop, s'', run, left) =
              handle_command-Left s' i t cmd client_time secret now k at
                (simp (command_faults, at, other) at sound) in
            (stop, s'', simp (feed_command, other, run), left.kept, omega (arith, left.less, fewer))
      ]
    where
      sends :
          (t : TransportConnection e)
          → get_elem? s.server.transport_connections i ≡ some t
          → ((e.input.read_u8 s.stream).0 == e.serialize.cmd_client_out_blob_stream) ≡ true
          → Streams e reliable.sized t
              (e.input.read_u8 s.stream).1
              (req_blob_stream e t (e.input.read_u8 s.stream).1 client_time now)
      sends t at blob =
          let (logic, its) =
            is_unset-cases e t.blob_stream_logic_out (simp (command_faults, at, blob) at sound) in
          req_blob_stream-Streams e reliable.sized t logic (e.input.read_u8 s.stream).1 client_time
            now its
