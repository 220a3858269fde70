-- ===== src/Server/Disconnect.antt =====
-- The connections of src/lib/server.c: the list of free ones, and a connection that is lost.
use nimble_server_lib.Prelude.{ℕ, ◌≡◌, false, List, arith, length}
use nimble_server_lib.External.{External}
use nimble_server_lib.CircularBuffer.{buffer_size}
use nimble_server_lib.CircularBuffer as Ring
use nimble_server_lib.CircularBuffer.Fifo.{contents, init_lem}
use nimble_server_lib.CircularBuffer.Fifo as Fifo
use nimble_server_lib.Participants.Fill.{kept, write_ids_lem}
use nimble_server_lib.LocalParty.{LocalParty}
use nimble_server_lib.Server.{Server, Setup, init}

module _ {e : External} where
  -- A new server's list of free connections is well formed and holds 1 to 63 in order: connection 0
  -- is never taken from it.
  pub init_free_list :
      (memory : Server e) (parties : List (LocalParty e.stats)) (setup : Setup e) (clock : ℕ)
      → length memory.free_transport_connection_list.octets ≡ buffer_size
      → Fifo.IsValid (init memory parties setup clock).1.free_transport_connection_list
        × (contents (init memory parties setup clock).1.free_transport_connection_list
            ≡ kept (λ _. false) 1 63)
  unfolding init
  init_free_list memory parties setup clock h =
      let ready = init_lem memory.free_transport_connection_list h in
      let filled =
        write_ids_lem (λ _. false) (Ring.init memory.free_transport_connection_list) 1 63 ready.0
          (simp ready.1 (omega arith)) (omega arith) in
      (filled.0, simp (filled.1, ready.1))
