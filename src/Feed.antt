-- ===== src/Feed.antt =====
-- The part of src/lib/server.c that handles datagrams: `nimbleServerFeed`,
-- `nimbleServerReadFromMultiTransport` and `nimbleServerUpdate`.
-- The datagrams sent back are listed in order. The random secret and the clock, which stands still
-- for one call, are arguments. The outer `none` of a result is undefined behaviour. The log is left
-- out.
pub mod Fuel
use nimble_server_lib.Prelude.{
  ℕ, zero, suc, ◌+◌, ◌%◌, ◌^◌, ℤ, pos, is_negative, ◌>>=◌, Bool, true, false, not, List, [], ◌∷◌,
  ◌++◌, Option, none, some, get_elem?, set, ltb, leb, ◌==◌, if◌then◌else◌, ◌-◌, to_u8,
}
use nimble_server_lib.Errors.{err_serialize}
use nimble_server_lib.External.{External}
use nimble_server_lib.TransportConnection
use nimble_server_lib.TransportConnection.{TransportConnection, Phase}
use nimble_server_lib.Server.{Server, max_transport_connections, tick_parties}
use nimble_server_lib.UpdateQuality
use nimble_server_lib.Requests.Connect.{req_connect}
use nimble_server_lib.Requests.Join.{req_game_join}
use nimble_server_lib.Requests.Step.{req_game_step, StepReply}
use nimble_server_lib.Requests.Download.{req_blob_stream, req_download_game_state}

module _ (e : External) where
  -- The server, the rest of the datagram, and what was sent so far.
  pub record Session : Type 0 where
    pub server : Server e
    pub stream : e.input.InStream
    pub sent : List (List ℕ)

  -- A connection that a datagram comes in on for the first time.
  unfoldable pub first_contact : TransportConnection e → ℕ → ℕ → TransportConnection e
  first_contact t transport_index max_game_state_octet_count =
      if t.is_used
      then t
      else TransportConnection.init
          (record t {
            is_used = true;
            transport_index = transport_index;
            connected_from_connect_request_id = 0;
            secret = 0;
            use_debug_streams = false;
            phase = Phase.connected;
            id = transport_index;
          })
          max_game_state_octet_count

  abbrev pub with_connection : Server e → ℕ → TransportConnection e → Server e
  with_connection self i t = record self {
    transport_connections = set self.transport_connections i t;
  }

  -- A handler that writes one reply: what it returns, the session and the reply.
  abbrev pub Handled : Type 0
  Handled = Option (Option ℤ × Session × e.out.OutStream)

  unfoldable pub handle_step : Session → ℕ → TransportConnection e → e.out.OutStream → Handled
  handle_step s i t out = do
    let self = s.server
    (result, r) ← req_game_step e (record {
      intake = record { game = self.game; parties = self.local_parties.parties; stream = s.stream };
      connection = t;
      per_second = self.authoritative_steps_per_second_stat;
      out = out;
    })
    let self' = record (with_connection self i r.connection) {
      game = r.intake.game;
      local_parties = record (self.local_parties) { parties = r.intake.parties };
      authoritative_steps_per_second_stat = r.per_second;
    }
    some (some result, record s { server = self'; stream = r.intake.stream }, r.out)

  -- The switch on the command; the inner `none` is an unknown command, which ends the datagram.
  unfoldable pub dispatch :
      Session → ℕ → TransportConnection e → ℕ → ℕ → ℕ → ℕ → e.out.OutStream → Handled
  unfolding handle_step
  dispatch s i t cmd client_time secret now out =
      if cmd == e.serialize.cmd_connect_request
      then (do
        (result, self, stream, out') ← req_connect s.server i secret s.stream out
        some (some result, record s { server = self; stream = stream }, out'))
      else if cmd == e.serialize.cmd_game_step
      then handle_step s i t out
      else if cmd == e.serialize.cmd_join_game_request
      then (do
        (result, self, stream, out') ← req_game_join s.server i s.stream out
        some (some result, record s { server = self; stream = stream }, out'))
      else if cmd == e.serialize.cmd_download_game_state_request
      then (do
        ((result, t', sent), stream) ←
            req_download_game_state e t s.stream s.server.setup.serialize_authoritative_state
              client_time now
        some (
          some result,
          record { server = with_connection s.server i t'; stream = stream; sent = s.sent ++ sent },
          out,
        ))
      else some (none, s, out)

  -- The reply goes out, unless the handler failed or the reply has 4 octets or fewer.
  unfoldable pub reply : ℤ → Session → ℕ → e.out.OutStream → Option (ℤ × Session)
  reply result s i out =
      if is_negative result
      then some (result, s)
      else if leb (e.out.pos out) 4
      then some (err_serialize, s)
      else do
        t ← get_elem? s.server.transport_connections i
        let s' = record s {
          server = with_connection s.server i (TransportConnection.commit_header t);
        }
        if ltb e.serialize.datagram_max_size (e.out.pos out)
            then some (err_serialize, s')
            else some (pos 0, record s' { sent = s'.sent ++ (e.out.octets out ∷ []) })

  -- A command that answers by one datagram of at most the transport's size less 32 octets. The
  -- inner result is that of `nimbleServerFeed` if it returns, `none` if it goes on.
  unfoldable pub handle_command : Session → ℕ → ℕ → ℕ → ℕ → ℕ → Option (Option ℤ × Session)
  unfolding dispatch reply
  handle_command s i cmd client_time secret now = do
    t ← get_elem? s.server.transport_connections i
    let (err, t', out) =
        TransportConnection.write_header t (e.out.out_init (e.serialize.datagram_max_size - 32))
          client_time
    let s₁ = record s { server = with_connection s.server i t' }
    if is_negative err then some (some err, s₁) else do
      (handled, s₂, out') ← dispatch s₁ i t' cmd client_time secret now out
      elim handled [
        | none ↦ some (some (pos 0), s₂)
        | some result ↦ do
          (replied, s₃) ← reply result s₂ i out'
          some (if is_negative replied then some replied else none, s₃)
      ]

  unfoldable pub handle_blob : Session → ℕ → ℕ → ℕ → Option (Option ℤ × Session)
  handle_blob s i client_time now = do
    t ← get_elem? s.server.transport_connections i
    ((result, t', sent), stream) ← req_blob_stream e t s.stream client_time now
    some (
      if is_negative result then some result else none,
      record { server = with_connection s.server i t'; stream = stream; sent = s.sent ++ sent },
    )

  -- One command of a datagram.
  unfoldable pub feed_command : Session → ℕ → ℕ → ℕ → ℕ → Option (Option ℤ × Session)
  unfolding handle_command handle_blob
  feed_command s i client_time secret now =
      let (cmd, stream) = e.input.read_u8 s.stream in
      let s' = record s { stream = stream } in
      if cmd == e.serialize.cmd_client_out_blob_stream
      then handle_blob s' i client_time now
      else handle_command s' i cmd client_time secret now

  -- The commands of a datagram, one after the other. `none` also stands for fuel that ran out.
  unfoldable pub feed_commands : ℕ → Session → ℕ → ℕ → ℕ → ℕ → Option (ℤ × Session)
  unfolding feed_command
  feed_commands zero s i client_time secret now = none
  feed_commands (suc fuel) s i client_time secret now =
      let further : Option (ℤ × Session) = (do
        (stop, s') ← feed_command s i client_time secret now
        let rest = feed_commands fuel s' i client_time secret now
        elim stop [ some result ↦ some (result, s') | none ↦ rest ]) in
      if e.input.at_end s.stream then some (pos 0, s) else further

  -- `nimbleServerFeed`: a datagram that comes in on a connection of the transport.
  unfoldable pub feed : Server e → ℕ → List ℕ → ℕ → ℕ → ℕ → Option (ℤ × Session)
  unfolding first_contact feed_commands
  feed self transport_index data_octets fuel secret now =
      let stream = e.input.in_init data_octets in
      let s : Session = record { server = self; stream = stream; sent = [] } in
      if leb max_transport_connections transport_index then some (err_serialize, s) else do
        t ← get_elem? self.transport_connections transport_index
        let t₁ = first_contact t transport_index self.setup.max_game_state_octet_count
        let s₁ = record s { server = with_connection self transport_index t₁ }
        let (err, ordered_in, stream₁) = e.ordered.ordered_in_receive t₁.ordered_in stream
        let t₂ = record t₁ { ordered_in = ordered_in }
        let s₂ = record s { server = with_connection self transport_index t₂; stream = stream₁ }
        let (client_time, stream₂) = e.input.read_u16 stream₁
        if not (t₁.transport_index == transport_index)
            then some (err_serialize, s₁)
            else if is_negative err
            then some (err_serialize, s₂)
            else feed_commands fuel (record s₂ { stream = stream₂ }) transport_index client_time
                secret now

-- What the transport's `receiveFrom` gives: nothing, an error, or a datagram of a connection.
pub data Incoming : Type 0 where
  nothing : Incoming
  failed : ℤ → Incoming
  datagram : ℕ → List ℕ → Incoming

module _ (e : External) where
  -- The loop over at most `n` datagrams; `incoming` is what the transport gives, in order, and
  -- nothing once it ends. The index is converted to `uint8_t`. What was sent is listed.
  unfoldable pub read_from :
      ℕ → Server e → List Incoming → ℕ → ℕ → ℕ → Option (ℤ × Server e × List (List ℕ))
  read_from zero self incoming fuel secret now = some (pos 0, self, [])
  read_from (suc n) self [] fuel secret now = some (pos 0, self, [])
  read_from (suc n) self (Incoming.nothing ∷ rest) fuel secret now = some (pos 0, self, [])
  read_from (suc n) self (Incoming.failed err ∷ rest) fuel secret now = some (err, self, [])
  read_from (suc n) self (Incoming.datagram i xs ∷ rest) fuel secret now = do
    (err, s) ← feed e self (to_u8 i) xs fuel secret now
    let further : Option (ℤ × Server e × List (List ℕ)) = (do
      (result, self', sent) ← read_from n s.server rest fuel secret now
      some (result, self', s.sent ++ sent))
    if is_negative err then some (err, s.server, s.sent) else further

  unfoldable pub read_from_multi_transport :
      Server e → List Incoming → ℕ → ℕ → ℕ → Option (ℤ × Server e × List (List ℕ))
  unfolding read_from
  read_from_multi_transport self incoming fuel secret now =
      read_from 64 self incoming fuel secret now

  -- The result of reading the datagrams is not looked at.
  unfoldable pub update :
      Server e → ℕ → ℕ → List Incoming → ℕ → ℕ → Option (ℤ × Server e × List (List ℕ))
  unfolding read_from_multi_transport
  update self now clock incoming fuel secret =
      let (quality_error, update_quality) = UpdateQuality.tick self.update_quality clock in
      let self₁ = record self { update_quality = update_quality } in
      if is_negative quality_error then some (quality_error, self₁, []) else do
        self₂ ← tick_parties self₁
        (_, self₃, sent) ← read_from_multi_transport self₂ incoming fuel secret clock
        some (
          pos 0,
          record self₃ {
            authoritative_steps_per_second_stat =
                e.stats.per_second_update self₃.authoritative_steps_per_second_stat now;
            stats_counter = (self₃.stats_counter + 1) % 2 ^ 16;
          },
          sent,
        )
