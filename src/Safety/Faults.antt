-- ===== src/Safety/Faults.antt =====
-- Where src/lib/req_game_join.c, src/lib/req_game_state.c and src/lib/req_game_state_ack.c, called
-- from src/lib/server.c, use memory that was never set: tests that run beside the code and say
-- whether a command, a datagram or a call of update may come to such a place.
use nimble_server_lib.Prelude.{
  ℕ, zero, suc, Bool, true, false, not, ◌||◌, List, [], ◌∷◌, Option, none, some, get_elem?, length,
  is_negative, leb, ◌==◌, if◌then◌else◌, to_u8,
}
use nimble_server_lib.External.{External, StatsLib, JoinGameRequest, JoinGameType, JoinPlayer}
use nimble_server_lib.LocalParties.{LocalParties, find_party}
use nimble_server_lib.TransportConnection.{TransportConnection}
use nimble_server_lib.UpdateQuality
use nimble_server_lib.Server.{Server, max_transport_connections, tick_parties}
use nimble_server_lib.Feed.{Session, Incoming, first_contact, with_connection, feed_command, feed}

unfoldable pub has_player : List JoinPlayer → Bool
has_player [] = false
has_player (player ∷ players) = true

module _ {st : StatsLib} where
  -- Without a secret, the request is of one player; with the secret of a party, it is of as many
  -- players as the party at the place of that id has participants.
  unfoldable pub joinable_as : JoinGameType → LocalParties st → JoinGameRequest → Bool
  joinable_as JoinGameType.no_secret ls request =
      if request.player_count == 1 then has_player request.players else false
  joinable_as JoinGameType.party_secret ls request =
      elim (get_elem? ls.parties (find_party ls request.party_id)) [
        | none ↦ false
        | some p ↦ length p.participant_references == request.player_count
      ]

  abbrev pub joinable : LocalParties st → JoinGameRequest → Bool
  joinable ls request = joinable_as request.join_game_type ls request

module _ (e : External) where
  -- A request to join that is read from the stream is not joinable.
  unfoldable pub join_faults : Server e → e.input.InStream → Bool
  join_faults self stream =
      let (err, request, stream') = e.serialize.in_join_game_request stream in
      if is_negative err then false else not (joinable self.local_parties request)

  -- The outgoing blob stream of a connection was never initialized.
  unfoldable pub is_unset : Option e.blobs.BlobStreamLogicOut → Bool
  is_unset none = true
  is_unset (some logic) = false

  -- A download whose request id is the one that the connection answered last, on a blob stream that
  -- was never initialized.
  unfoldable pub download_faults : TransportConnection e → e.input.InStream → Bool
  download_faults t stream =
      if (e.input.read_u8 stream).0 == t.blob_stream_out_client_request_id
      then is_unset t.blob_stream_logic_out
      else false

  unfoldable pub dispatch_faults : Session e → TransportConnection e → ℕ → Bool
  unfolding join_faults download_faults
  dispatch_faults s t cmd =
      if cmd == e.serialize.cmd_join_game_request
      then join_faults s.server s.stream
      else if cmd == e.serialize.cmd_download_game_state_request
      then download_faults t s.stream
      else false

  unfoldable pub command_faults : Session e → ℕ → Bool
  unfolding dispatch_faults is_unset
  command_faults s i =
      let (cmd, stream) = e.input.read_u8 s.stream in
      elim (get_elem? s.server.transport_connections i) [
        | none ↦ false
        | some t ↦
            if cmd == e.serialize.cmd_client_out_blob_stream
            then is_unset t.blob_stream_logic_out
            else dispatch_faults (record s { stream = stream }) t cmd
      ]

  -- The commands of a datagram: `feed_command` is run to come to the next one.
  unfoldable pub commands_faults : ℕ → Session e → ℕ → ℕ → ℕ → ℕ → Bool
  unfolding command_faults
  commands_faults zero s i client_time secret now = false
  commands_faults (suc fuel) s i client_time secret now =
      let further : Bool = elim (feed_command e s i client_time secret now) [
        | none ↦ false
        | some (some result, s') ↦ false
        | some (none, s') ↦ commands_faults fuel s' i client_time secret now
      ] in
      if e.input.at_end s.stream then false else (command_faults s i || further)

  -- A datagram: the tests before its first command are those of `feed`.
  unfoldable pub feed_faults : Server e → ℕ → List ℕ → ℕ → ℕ → ℕ → Bool
  unfolding commands_faults
  feed_faults self i octets fuel secret now =
      if leb max_transport_connections i
      then false
      else (elim (get_elem? self.transport_connections i) [
        | none ↦ false
        | some t ↦
            let t₁ = first_contact e t i self.setup.max_game_state_octet_count in
            let (err, ordered_in, stream₁) =
              e.ordered.ordered_in_receive t₁.ordered_in (e.input.in_init octets) in
            let t₂ = record t₁ { ordered_in = ordered_in } in
            let (client_time, stream₂) = e.input.read_u16 stream₁ in
            let s : Session e = record {
              server = with_connection e self i t₂;
              stream = stream₂;
              sent = [];
            } in
            let commands = commands_faults fuel s i client_time secret now in
            if not (t₁.transport_index == i) || is_negative err then false else commands
      ])

  -- At most `n` datagrams.
  unfoldable pub read_faults : ℕ → Server e → List Incoming → ℕ → ℕ → ℕ → Bool
  unfolding feed_faults
  read_faults zero self incoming fuel secret now = false
  read_faults (suc n) self [] fuel secret now = false
  read_faults (suc n) self (Incoming.nothing ∷ rest) fuel secret now = false
  read_faults (suc n) self (Incoming.failed err ∷ rest) fuel secret now = false
  read_faults (suc n) self (Incoming.datagram i xs ∷ rest) fuel secret now =
      let further : Bool = elim (feed e self (to_u8 i) xs fuel secret now) [
        | none ↦ false
        | some (err, s) ↦
            let later = read_faults n s.server rest fuel secret now in
            if is_negative err then false else later
      ] in
      feed_faults self (to_u8 i) xs fuel secret now || further

  -- A call of update.
  unfoldable pub update_faults : Server e → ℕ → List Incoming → ℕ → ℕ → Bool
  unfolding read_faults
  update_faults self clock incoming fuel secret =
      let (quality_error, update_quality) = UpdateQuality.tick self.update_quality clock in
      elim (tick_parties (record self { update_quality = update_quality })) [
        | none ↦ false
        | some self' ↦
            let datagrams = read_faults 64 self' incoming fuel secret clock in
            if is_negative quality_error then false else datagrams
      ]
