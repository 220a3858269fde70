-- ===== src/Safety/Joinable.antt =====
-- The requests to join that src/lib/req_game_join.c can answer.
use nimble_server_lib.Prelude.{
  ◌≡◌, refl, subst, true, false, List, [], ◌∷◌, some, arith, get_elem?, length, Bool-cases,
  Option-cases, inl, inr, ◌⊎◌, ◌==◌, if◌then◌else◌,
}
use nimble_server_lib.External.{StatsLib, JoinGameRequest, JoinGameType, JoinPlayer}
use nimble_server_lib.LocalParty.{LocalParty}
use nimble_server_lib.LocalParties.{LocalParties, find_party}
use nimble_server_lib.Safety.Faults.{has_player, joinable, joinable_as}

-- A request to join of one player, without the secret of a party.
abbrev pub OfOnePlayer : JoinGameRequest → Type 0
OfOnePlayer request =
    (request.join_game_type ≡ JoinGameType.no_secret)
    × (request.player_count ≡ 1)
    × (player : JoinPlayer) × (players : List JoinPlayer) × (request.players ≡ player ∷ players)

-- A request with the secret of a party that has as many participants as the request has players.
abbrev pub Rejoins : {st : StatsLib} → LocalParties st → JoinGameRequest → Type 0
Rejoins {st} parties request =
    (request.join_game_type ≡ JoinGameType.party_secret)
    × (p : LocalParty st) × (get_elem? parties.parties (find_party parties request.party_id)
        ≡ some p)
    × ((length p.participant_references == request.player_count) ≡ true)

pub joinable_cases :
    {st : StatsLib} (parties : LocalParties st) (request : JoinGameRequest)
    → joinable parties request ≡ true
    → OfOnePlayer request ⊎ Rejoins parties request
unfolding has_player joinable_as
joinable_cases {st} parties request h = by_kind request.join_game_type refl
  where
    players_cases :
        (players : List JoinPlayer)
        → has_player players ≡ true
        → (player : JoinPlayer) × (others : List JoinPlayer) × (players ≡ player ∷ others)
    players_cases [] given = absurd (cc)
    players_cases (player ∷ players) given = (player, players, refl)

    by_kind :
        (kind : JoinGameType)
        → request.join_game_type ≡ kind
        → OfOnePlayer request ⊎ Rejoins parties request
    by_kind JoinGameType.no_secret kind =
        let one : (if request.player_count == 1 then has_player request.players else false) ≡ true =
          subst (λ k. joinable_as k parties request ≡ true) kind h in
        elim (Bool-cases (request.player_count == 1)) [
          | inr many ↦ absurd (ground (arith, one, many))
          | inl single ↦
              let (player, others, its) =
                players_cases request.players (ground (arith, one, single)) in
              inl (kind, ground (arith, single), player, others, its)
        ]
    by_kind JoinGameType.party_secret kind =
        let some_party : joinable_as JoinGameType.party_secret parties request ≡ true =
          subst (λ k. joinable_as k parties request ≡ true) kind h in
        elim (Option-cases (get_elem? parties.parties (find_party parties request.party_id))) [
          | inl nowhere ↦ absurd (let none_there = simp (joinable_as, nowhere) at some_party in cc)
          | inr (p, at) ↦ inr (kind, p, at, simp (joinable_as, at) at some_party)
        ]
