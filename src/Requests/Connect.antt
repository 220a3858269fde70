-- ===== src/Requests/Connect.antt =====
-- src/lib/req_connect.c: a client asks for a connection. The outer `none` of a result is undefined
-- behaviour; the random secret is an argument; the log is left out.
pub mod Again
use nimble_server_lib.Prelude.{
  ℕ, zero, suc, ◌+◌, ℤ, is_negative, ◌>>=◌, Bool, true, ◌&&◌, not, List, [], ◌∷◌, Option, none,
  some, get_elem?, set, ◌==◌, if◌then◌else◌, take,
}
use nimble_server_lib.Errors.{err_serialize, err_serialize_version}
use nimble_server_lib.External.{External, ConnectRequest}
use nimble_server_lib.CircularBuffer as Ring
use nimble_server_lib.TransportConnection
use nimble_server_lib.TransportConnection.{TransportConnection, Phase}
use nimble_server_lib.Server.{Server, max_transport_connections}

module _ {e : External} where
  -- The first used connection from `i` on with the index and the request id; NULL is `none`.
  unfoldable pub find_existing_from : ℕ → List (TransportConnection e) → ℕ → ℕ → Option ℕ
  find_existing_from i [] transport_index request_id = none
  find_existing_from i (t ∷ ts) transport_index request_id =
      let rest = find_existing_from (i + 1) ts transport_index request_id in
      if t.is_used
        && (t.transport_index == transport_index
            && t.connected_from_connect_request_id == request_id)
      then some i
      else rest

  unfoldable pub find_existing_connection_request : Server e → ℕ → ℕ → Option ℕ
  unfolding find_existing_from
  find_existing_connection_request self transport_index request_id =
      find_existing_from 0 self.transport_connections transport_index request_id

  -- The connection `t` taken from the free list under `id`.
  unfoldable pub opened :
      TransportConnection e
      → ℕ
      → ℕ
      → ℕ
      → ConnectRequest e.serialize.Version
      → ℕ
      → TransportConnection e
  opened t id transport_index secret request max_game_state_octet_count =
      TransportConnection.init
        (record t {
          is_used = true;
          transport_index = transport_index;
          connected_from_connect_request_id = request.client_request_id;
          secret = secret;
          use_debug_streams = request.use_debug_streams;
          phase = Phase.connected;
          id = id;
        })
        max_game_state_octet_count

  -- The connection that answers the request, found or taken from the free list; `none` is that no
  -- connection is free.
  unfoldable pub connection_for :
      Server e
      → ℕ
      → ℕ
      → ConnectRequest e.serialize.Version
      → Option (Option (TransportConnection e × Server e))
  connection_for self transport_index secret request =
      elim (find_existing_connection_request self transport_index request.client_request_id) [
        | some i ↦ do t ← get_elem? self.transport_connections i; some (some (t, self))
        | none ↦
            if Ring.is_empty self.free_transport_connection_list
            then some none
            else let (id, free_list) = Ring.read self.free_transport_connection_list in
              do
                t ← get_elem? self.transport_connections id
                let t' =
                    opened t id transport_index secret request self.setup.max_game_state_octet_count
                some (
                    some (
                      t',
                      record self {
                        free_transport_connection_list = free_list;
                        transport_connections = set self.transport_connections id t';
                      },
                    ))
      ]

  unfoldable pub req_connect :
      Server e
      → ℕ
      → ℕ
      → e.input.InStream
      → e.out.OutStream
      → Option (ℤ × Server e × e.input.InStream × e.out.OutStream)
  unfolding connection_for
  req_connect self transport_index secret stream out =
      let (err, request, stream') = e.serialize.in_connect_request stream in
      if is_negative err
      then some (err_serialize_version, self, stream', out)
      else if not
          (e.serialize.version_is_equal self.application_version request.application_version)
      then some (err_serialize_version, self, stream', out)
      else do
        answer ← connection_for self transport_index secret request
        elim answer [
          | none ↦ some (err_serialize, self, stream', out)
          | some (t, self') ↦
              let (result, out') = e.serialize.out_connect_response out (record {
                use_debug_streams = t.use_debug_streams;
                connection_id = t.id;
                response_to_request_id = request.client_request_id;
              }) in
              some (result, self', stream', out')
        ]
