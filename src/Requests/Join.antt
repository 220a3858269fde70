-- ===== src/Requests/Join.antt =====
-- src/lib/req_game_join.c: a client joins the game with its local players, or rejoins its party.
-- The outer `none` of a result is undefined behaviour, the use of a pointer that was never set
-- included. The log is left out.
pub mod New
pub mod Again
use nimble_server_lib.Prelude.{
  ℕ, ℤ, pos, is_negative, ◌>>=◌, List, [], ◌∷◌, Option, none, some, get_elem?, set, length, ◌==◌,
  if◌then◌else◌,
}
use nimble_server_lib.External.{External, StatsLib, StepsLib, JoinGameRequest, JoinGameType}
use nimble_server_lib.Participants.{Participants}
use nimble_server_lib.Participant.{Participant}
use nimble_server_lib.LocalParty
use nimble_server_lib.LocalParty.{LocalParty}
use nimble_server_lib.LocalParties
use nimble_server_lib.LocalParties.{LocalParties, Made}
use nimble_server_lib.TransportConnection.{TransportConnection}
use nimble_server_lib.Server.{Server}

-- What `*outConnection` holds: nothing was written to it, NULL, or a party.
pub data OutParty : Type 0 where
  unset : OutParty
  null : OutParty
  party : ℕ → OutParty

abbrev pub Answer : StatsLib → StepsLib → Type 0
Answer st sl = ℤ × OutParty × LocalParties st × Participants sl

module _ {st : StatsLib} {sl : StepsLib} where
  -- The party with the id that comes with the secret; the secret itself is not looked at.
  unfoldable pub rejoin_with_secret :
      LocalParties st → Participants sl → ℕ → JoinGameRequest → Option (Answer st sl)
  rejoin_with_secret ls ps connection request =
      let i : ℕ = LocalParties.find_party ls request.party_id in
      do
        p ← get_elem? ls.parties i
        if length p.participant_references == request.player_count
            then some (
              pos 0,
              OutParty.party i,
              record ls { parties = set ls.parties i (LocalParty.rejoin p (some connection)) },
              ps,
            )
            else some (pos 0, OutParty.unset, ls, ps)

  unfoldable pub create_party :
      LocalParties st → Participants sl → ℕ → JoinGameRequest → ℕ → Option (Answer st sl)
  create_party ls ps connection request step_id = do
    (result, made, ls', ps') ←
        LocalParties.create ls ps connection request.players step_id request.player_count
    let out : OutParty = elim made [ none ↦ OutParty.null | some i ↦ OutParty.party i ]
    if is_negative result
        then some (result, OutParty.null, ls', ps')
        else some (pos 0, out, ls', ps')

module _ {sl : StepsLib} where
  -- The participants' ids and local indices, for the reply.
  unfoldable pub reply_participants : List (Participant sl) → List ℕ → Option (List (ℕ × ℕ))
  reply_participants ps [] = some []
  reply_participants ps (r ∷ rs) = do
    p ← get_elem? ps r
    rest ← reply_participants ps rs
    some ((p.id, p.local_index) ∷ rest)

module _ {e : External} where
  -- `connection` is the index of the client's connection `t`.
  unfoldable pub join_local_party :
      LocalParties e.stats
      → Participants e.steps
      → List (TransportConnection e)
      → ℕ
      → JoinGameRequest
      → ℕ
      → Option (Answer e.stats e.steps)
  unfolding rejoin_with_secret create_party
  join_local_party ls ps ts connection request step_id = do
    t ← get_elem? ts connection
    found ← LocalParties.find_party_for_transport ls ts t.transport_connection_id
    elim found [
      | some i ↦ some (pos 0, OutParty.party i, ls, ps)
      | none ↦ elim request.join_game_type [
        | JoinGameType.no_secret ↦ create_party ls ps connection request step_id
        | JoinGameType.party_secret ↦ rejoin_with_secret ls ps connection request
      ]
    ]

  unfoldable pub read_and_join_participants :
      LocalParties e.stats
      → Participants e.steps
      → List (TransportConnection e)
      → ℕ
      → JoinGameRequest
      → ℕ
      → Option (Answer e.stats e.steps)
  unfolding join_local_party
  read_and_join_participants ls ps ts connection request step_id = do
    (result, out, ls', ps') ← join_local_party ls ps ts connection request step_id
    some (if is_negative result then result else pos 0, out, ls', ps')

  -- The party that joined is tied to the connection, and the reply is written.
  unfoldable pub answer_join :
      Server e → ℕ → ℕ → e.out.OutStream → Option (Server e × e.out.OutStream)
  unfolding reply_participants
  answer_join self connection i out = do
    p ← get_elem? self.local_parties.parties i
    t ← get_elem? self.transport_connections connection
    let p' = record p {
      waiting_for_reconnect_max_timer = self.setup.max_waiting_for_reconnect_ticks;
    }
    participants ← reply_participants self.game.participants.participants p.participant_references
    let self' = record self {
      local_parties = record (self.local_parties) { parties = set self.local_parties.parties i p' };
      transport_connections =
          set self.transport_connections connection (record t { assigned_party = some i });
    }
    some (
      self',
      e.serialize.out_join_game_response out (record {
        participants = participants;
        party_id = p.id;
        session_secret = self.session_secret;
        participant_count = length p.participant_references;
      }),
    )

  -- `party` is used without a look at whether it was set.
  unfoldable pub req_game_join :
      Server e
      → ℕ
      → e.input.InStream
      → e.out.OutStream
      → Option (ℤ × Server e × e.input.InStream × e.out.OutStream)
  unfolding answer_join read_and_join_participants
  req_game_join self connection stream out =
      let (err, request, stream') = e.serialize.in_join_game_request stream in
      if is_negative err then some (err, self, stream', out) else do
        (result, out_party, ls, ps) ←
            read_and_join_participants self.local_parties self.game.participants
              self.transport_connections connection request
              (e.steps.expected_write_id self.game.authoritative_steps)
        let self' = record self {
          local_parties = ls;
          game = record (self.game) { participants = ps };
        }
        if is_negative result
            then some
                (result, self', stream', e.serialize.out_join_game_out_of_slots out request.nonce)
            else (elim out_party [
              | OutParty.unset ↦ none
              | OutParty.null ↦ none
              | OutParty.party i ↦ do
                (self'', out') ← answer_join self' connection i out
                some (pos 0, self'', stream', out')
            ])
