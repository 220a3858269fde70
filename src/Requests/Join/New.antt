-- ===== src/Requests/Join/New.antt =====
-- A player that joins the game anew, through src/lib/req_game_join.c.
use nimble_server_lib.Prelude.{
  ℕ, ◌+◌, ◌<◌, ◌≡◌, refl, ap, ◌∙◌, pos, List, [], ◌∷◌, none, some, get_elem?, get_elem?-lt-length,
  get_elem?-set_self, set, to_u8, true, false,
}
use nimble_server_lib.External.{External, JoinPlayer, JoinGameRequest, JoinGameType}
use nimble_server_lib.Participant
use nimble_server_lib.Participant.{Participant, ParticipantState}
use nimble_server_lib.LocalParty.{LocalParty}
use nimble_server_lib.Participants.{joined}
use nimble_server_lib.Participants.Inv.{IsValid}
use nimble_server_lib.LocalParties.{find_free_from, find_party_for_transport}
use nimble_server_lib.LocalParties.Create.{create_lem}
use nimble_server_lib.TransportConnection.{TransportConnection}
use nimble_server_lib.Server.{Server}
use nimble_server_lib.Requests.Join.{
  create_party, reply_participants, join_local_party, answer_join, req_game_join,
}

-- A request of one player without a secret.
abbrev pub request_of : ℕ → ℕ → JoinPlayer → List JoinPlayer → JoinGameRequest
request_of nonce party_id player players = record {
  nonce = nonce;
  join_game_type = JoinGameType.no_secret;
  party_id = party_id;
  players = player ∷ players;
  player_count = 1;
}

module _ {e : External} where
  -- What a new player gets and what it changes. The reply names the slot of a participant, which was
  -- free and now is in use by the participant of that id, in the party `i`; the party at place `i` has
  -- that participant alone; the participants stay valid with one more, and the connection has the
  -- party.
  pub record Welcomed (self : Server e) (connection i : ℕ) (player : JoinPlayer)
      (stream stream' : e.input.InStream) (out : e.out.OutStream) : Type 0 where
    pub id : ℕ
    pub after : Server e
    pub run :
        req_game_join self connection stream out
        ≡ some (
          pos 0,
          after,
          stream',
          e.serialize.out_join_game_response out (record {
            participants = (id, player.local_index) ∷ [];
            party_id = to_u8 i;
            session_secret = self.session_secret;
            participant_count = 1;
          }),
        )
    pub slot : Participant e.steps
    pub its_participant : Participant e.steps
    pub was : get_elem? self.game.participants.participants id ≡ some slot
    pub was_free : slot.is_used ≡ false
    pub joins : get_elem? after.game.participants.participants id ≡ some its_participant
    pub in_use : its_participant.is_used ≡ true
    pub its_id : its_participant.id ≡ id
    pub in_party : its_participant.in_party ≡ some i
    pub just_joined : its_participant.state ≡ ParticipantState.just_joined
    pub its_party : LocalParty e.stats
    pub placed : get_elem? after.local_parties.parties i ≡ some its_party
    pub party_in_use : its_party.is_used ≡ true
    pub refers : its_party.participant_references ≡ id ∷ []
    pub valid : IsValid after.game.participants
    pub more :
        after.game.participants.participant_count ≡ self.game.participants.participant_count + 1
    pub its_connection : TransportConnection e
    pub now : get_elem? after.transport_connections connection ≡ some its_connection
    pub assigned : its_connection.assigned_party ≡ some i

  -- A request of one player without a secret, on a connection that has no party yet, is answered if
  -- there is a free place for a party and room among the valid participants. The reply names a slot
  -- that was free, and now is in use by the participant of that id, which has just joined in the party
  -- at that place; the party is in use and has that participant alone; the participants stay valid and
  -- are one more, and the connection has the party.
  pub req_game_join-Welcomed :
      (self : Server e) (connection i nonce party_id : ℕ) (player : JoinPlayer)
      (players : List JoinPlayer) (t : TransportConnection e) (stream stream' : e.input.InStream)
      (out : e.out.OutStream)
      → e.serialize.in_join_game_request stream
        ≡ (pos 0, request_of nonce party_id player players, stream')
      → get_elem? self.transport_connections connection ≡ some t
      → find_party_for_transport self.local_parties self.transport_connections
          t.transport_connection_id
        ≡ some none
      → find_free_from 0 self.local_parties.parties ≡ some i
      → IsValid self.game.participants
      → self.game.participants.participant_count < self.game.participants.participant_capacity
      → Welcomed self connection i player stream stream' out
  unfolding req_game_join join_local_party create_party answer_join reply_participants joined
      Participant.re_init
  req_game_join-Welcomed self connection i nonce party_id player players t stream stream' out read
        here fresh place v room =
      let ps = self.game.participants in
      let step_id : ℕ = e.steps.expected_write_id self.game.authoritative_steps in
      let (id, ls, qs, done, before, placed, joins) =
        create_lem self.local_parties ps connection player players step_id i place v room in
      let q = joined joins.slot id player.local_index i step_id in
      let at_id : get_elem? qs.participants id ≡ some q =
        ap (λ xs. get_elem? xs id) joins.now
        ∙ get_elem?-set_self ps.participants id q
            (get_elem?-lt-length ps.participants id joins.slot joins.was) in
      let party = record (placed.party) {
        waiting_for_reconnect_max_timer = self.setup.max_waiting_for_reconnect_ticks;
      } in
      let t' = record t { assigned_party = some i } in
      record {
        id = id;
        after = record self {
          local_parties = record ls { parties = set ls.parties i party };
          game = record (self.game) { participants = qs };
          transport_connections = set self.transport_connections connection t';
        };
        run = simp (
          req_game_join, join_local_party, create_party, answer_join, reply_participants, read,
          here, fresh, done, placed.now, placed.its_participants, placed.its_id, at_id,
        );
        slot = joins.slot;
        its_participant = q;
        was = joins.was;
        was_free = joins.was_free;
        joins = at_id;
        in_use = refl;
        its_id = refl;
        in_party = refl;
        just_joined = refl;
        its_party = party;
        placed =
            get_elem?-set_self ls.parties i party
              (get_elem?-lt-length ls.parties i placed.party placed.now);
        party_in_use = placed.in_use;
        refers = placed.its_participants;
        valid = joins.valid;
        more = joins.more;
        its_connection = t';
        now =
            get_elem?-set_self self.transport_connections connection t'
              (get_elem?-lt-length self.transport_connections connection t here);
        assigned = refl;
      }
