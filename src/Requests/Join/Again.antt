-- ===== src/Requests/Join/Again.antt =====
-- A client that joins its party again with the party's secret, through src/lib/req_game_join.c.
use nimble_server_lib.Prelude.{ℕ, ◌≡◌, pos, List, some, set, length}
use nimble_server_lib.External.{External, JoinPlayer, JoinGameRequest, JoinGameType}
use nimble_server_lib.LocalParty
use nimble_server_lib.LocalParty.{LocalParty, PartyState}
use nimble_server_lib.TransportConnection.{TransportConnection}
use nimble_server_lib.Server.{Server}
use nimble_server_lib.Requests.Join.{req_game_join}

-- A request with the secret of a party.
abbrev pub request_with_secret : ℕ → ℕ → List JoinPlayer → ℕ → JoinGameRequest
request_with_secret nonce party_id players player_count = record {
  nonce = nonce;
  join_game_type = JoinGameType.party_secret;
  party_id = party_id;
  players = players;
  player_count = player_count;
}

module _ {e : External} where
  -- What a client gets that rejoins the party `before` at place `i`, and what it changes: the reply
  -- names the participants of the party, which is in its normal state on the new connection and has
  -- the participants that it had, and no longer has waited; the other parties, the game and all else
  -- of the connection stay as they were.
  pub record Rejoined (self : Server e) (connection i : ℕ) (before : LocalParty e.stats)
      (t : TransportConnection e) (names : List (ℕ × ℕ)) (stream stream' : e.input.InStream)
      (out : e.out.OutStream) : Type 0 where
    pub after : Server e
    pub run :
        req_game_join self connection stream out
        ≡ some (
          pos 0,
          after,
          stream',
          e.serialize.out_join_game_response out (record {
            participants = names;
            party_id = before.id;
            session_secret = self.session_secret;
            participant_count = length before.participant_references;
          }),
        )
    pub party : LocalParty e.stats
    pub now : after.local_parties.parties ≡ set self.local_parties.parties i party
    pub normal : party.state ≡ PartyState.normal
    pub its_connection : party.transport_connection ≡ some connection
    pub its_participants : party.participant_references ≡ before.participant_references
    pub waited : party.waiting_for_reconnect_timer ≡ 0
    pub limit : party.waiting_for_reconnect_max_timer ≡ self.setup.max_waiting_for_reconnect_ticks
    pub count : after.local_parties.parties_count ≡ self.local_parties.parties_count
    pub assigned :
        after.transport_connections
        ≡ set self.transport_connections connection (record t { assigned_party = some i })
    pub game : after.game ≡ self.game
