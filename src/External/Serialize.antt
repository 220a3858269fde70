-- ===== src/External/Serialize.antt =====
-- The libraries ordered-datagram, blob-stream and nimble-serialize, and datagram-transport's size
-- limit, as parameters, with the messages that the server reads and writes.
use nimble_server_lib.Prelude.{ℕ, ℤ, Bool, List}
use nimble_server_lib.External.Streams.{StepsLib, StepType, InStreamLib, OutStreamLib}

module _ {sl : StepsLib} (in_lib : InStreamLib sl) (out_lib : OutStreamLib) where
  open in_lib use {InStream}
  open out_lib use {OutStream}

  -- ordered-datagram: sequence numbers that let a receiver drop what comes late.
  pub record OrderedLib : Type 1 where
    -- OrderedDatagramInLogic, its Init and Receive, and `hasReceivedInitialDatagram = false`
    pub OrderedIn : Type 0
    pub ordered_in_init : OrderedIn
    pub ordered_in_receive : OrderedIn → InStream → ℤ × OrderedIn × InStream
    pub ordered_in_forget : OrderedIn → OrderedIn
    -- OrderedDatagramOutLogic, its Init, Prepare and Commit
    pub OrderedOut : Type 0
    pub ordered_out_init : OrderedOut
    pub ordered_out_prepare : OrderedOut → OutStream → OrderedOut × OutStream
    pub ordered_out_commit : OrderedOut → OrderedOut

  -- blob-stream: a large block of octets sent in chunks.
  pub record BlobLib : Type 1 where
    -- BlobStreamOut and its Init over the octets to send
    pub BlobStreamOut : Type 0
    pub blob_init : List ℕ → BlobStreamOut
    -- BlobStreamLogicOut, its Init over a stream and a transfer id, its field transferId, and the
    -- next transfer id in the width of BlobStreamTransferId
    pub BlobStreamLogicOut : Type 0
    pub logic_init : BlobStreamOut → ℕ → BlobStreamLogicOut
    pub transfer_id : BlobStreamLogicOut → ℕ
    pub next_transfer_id : ℕ → ℕ
    -- blobStreamLogicOutReceive, -PrepareSend (now, at most so many), -SendEntry, -StartTransfer
    pub BlobEntry : Type 0
    pub logic_receive : BlobStreamLogicOut → InStream → ℤ × BlobStreamLogicOut × InStream
    pub logic_prepare_send : BlobStreamLogicOut → ℕ → ℕ → List BlobEntry × BlobStreamLogicOut
    pub logic_send_entry : OutStream → BlobEntry → ℕ → OutStream
    pub logic_start_transfer : BlobStreamLogicOut → OutStream → ℤ × BlobStreamLogicOut × OutStream

-- NimbleSerializeConnectRequest and NimbleSerializeConnectResponse
pub record ConnectRequest (Version : Type 0) : Type 0 where
  pub application_version : Version
  pub client_request_id : ℕ
  pub use_debug_streams : Bool

pub record ConnectResponse : Type 0 where
  pub use_debug_streams : Bool
  pub connection_id : ℕ
  pub response_to_request_id : ℕ

-- NimbleSerializeJoinGameRequestPlayer
pub record JoinPlayer : Type 0 where
  pub local_index : ℕ

-- NimbleSerializeJoinGameType
pub data JoinGameType : Type 0 where
  no_secret party_secret : JoinGameType

-- NimbleSerializeJoinGameRequest: `party_id` is partyAndSessionSecret.partyId, and `player_count`
-- entries of the array `players` are set.
pub record JoinGameRequest : Type 0 where
  pub nonce : ℕ
  pub join_game_type : JoinGameType
  pub party_id : ℕ
  pub players : List JoinPlayer
  pub player_count : ℕ

-- NimbleSerializeJoinGameResponse: a pair is a participant id and a local index.
pub record JoinGameResponse : Type 0 where
  pub participants : List (ℕ × ℕ)
  pub party_id : ℕ
  pub session_secret : ℕ
  pub participant_count : ℕ

-- NbsPendingRange
pub record PendingRange : Type 0 where
  pub start_id : ℕ
  pub count : ℕ

module _ {sl : StepsLib} (in_lib : InStreamLib sl) (out_lib : OutStreamLib) where
  open in_lib use {InStream}
  open out_lib use {OutStream}

  -- nimble-serialize, and the writing side of nimble-steps-serialize.
  pub record SerializeLib : Type 1 where
    -- the commands: ClientOutBlobStream, ConnectRequest, GameStep, JoinGameRequest,
    -- DownloadGameStateRequest and ServerOutBlobStream
    pub cmd_client_out_blob_stream : ℕ
    pub cmd_connect_request : ℕ
    pub cmd_game_step : ℕ
    pub cmd_join_game_request : ℕ
    pub cmd_download_game_state_request : ℕ
    pub cmd_server_out_blob_stream : ℕ
    pub write_command : OutStream → ℕ → OutStream
    -- NimbleSerializeVersion and nimbleSerializeVersionIsEqual
    pub Version : Type 0
    pub version_is_equal : Version → Version → Bool
    -- nimbleSerializeServerInConnectRequest and -OutConnectResponse
    pub in_connect_request : InStream → ℤ × ConnectRequest Version × InStream
    pub out_connect_response : OutStream → ConnectResponse → ℤ × OutStream
    -- nimbleSerializeServerInJoinGameRequest, -OutJoinGameResponse and
    -- -OutJoinGameOutOfParticipantSlotsResponse
    pub in_join_game_request : InStream → ℤ × JoinGameRequest × InStream
    pub out_join_game_response : OutStream → JoinGameResponse → OutStream
    pub out_join_game_out_of_slots : OutStream → ℕ → OutStream
    -- nimbleSerializeServerOutStepHeader: the last received step id, the steps in the buffer and the
    -- `int8_t` distance to the authoritative steps, as an octet
    pub out_step_header : OutStream → ℕ → ℕ → ℕ → ℤ × OutStream
    -- nbsPendingStepsRanges (from, up to, receive mask, at most so many ranges and steps) and
    -- nbsPendingStepsSerializeOutRanges
    pub pending_ranges : ℕ → ℕ → ℕ → ℕ → ℕ → ℤ × List PendingRange
    pub out_ranges : OutStream → sl.Steps → List PendingRange → ℤ × OutStream
    -- nimbleSerializeServerOutGameStateResponse: step id, octets, client request id, transfer id
    pub out_game_state_response : OutStream → ℕ → List ℕ → ℕ → ℕ → ℤ × OutStream
    -- NimbleSerializeStepType as an octet
    pub step_type_code : StepType → ℕ
    -- DATAGRAM_TRANSPORT_MAX_SIZE
    pub datagram_max_size : ℕ
