-- ===== src/LocalParties.antt =====
-- src/lib/local_parties.c and its header: the array of parties, some of them in use.
-- A pointer to a party is its index; the outer `none` of a result is undefined behaviour. The log,
-- the allocator and the two sizes that are only stored are left out.
pub mod Search
pub mod Create
use nimble_server_lib.Prelude.{
  leb, ℕ, zero, suc, ◌+◌, ◌*◌, ℤ, pos, negsuc, is_negative, ◌>>=◌, Bool, true, false, ◌&&◌, List,
  [], ◌∷◌, ◌++◌, map, Option, none, some, get_elem?, set, take?, ◌==◌, if◌then◌else◌, add_size,
  sub_size, to_u8,
}
use nimble_server_lib.Errors.{err_out_of_participant_memory}
use nimble_server_lib.External.{External, StepsLib, StatsLib, JoinPlayer}
use nimble_server_lib.Participants
use nimble_server_lib.Participants.{Participants}
use nimble_server_lib.TransportConnection.{TransportConnection}
use nimble_server_lib.LocalParty
use nimble_server_lib.LocalParty.{LocalParty, PartyState}

pub record LocalParties (st : StatsLib) : Type 0 where
  pub parties : List (LocalParty st)
  pub parties_count : ℕ
  pub capacity_count : ℕ

module _ {st : StatsLib} where
  -- The loop that initialises each party of the cleared memory, under its index as `uint8_t`.
  unfoldable pub init_parties : ℕ → List (LocalParty st) → List (LocalParty st)
  init_parties i [] = []
  init_parties i (p ∷ ps) = LocalParty.init p (to_u8 i) ∷ init_parties (i + 1) ps

  -- `memory` is the cleared memory of the `max_count` parties.
  unfoldable pub init : List (LocalParty st) → ℕ → LocalParties st
  unfolding init_parties
  init memory max_count = record {
    parties = init_parties 0 memory;
    parties_count = 0;
    capacity_count = max_count;
  }

  unfoldable pub reset : LocalParties st → LocalParties st
  reset ls = record ls { parties = map LocalParty.reset ls.parties }

  -- An id beyond the capacity is logged, and the pointer computed all the same.
  unfoldable pub find_party : LocalParties st → ℕ → ℕ
  find_party ls party_id = party_id

  -- The index of the first party from `i` on that is not used; NULL is the inner `none`.
  unfoldable pub find_free_from : ℕ → List (LocalParty st) → Option ℕ
  find_free_from i [] = none
  find_free_from i (p ∷ ps) =
      let rest = find_free_from (i + 1) ps in if p.is_used then rest else some i

  -- The place found gets its index as its id, and is not marked as used.
  unfoldable pub find_free_party_place : LocalParties st → Option (ℕ × LocalParties st)
  unfolding find_free_from
  find_free_party_place ls = do
    i ← find_free_from 0 ls.parties
    p ← get_elem? ls.parties i
    some (i, record ls { parties = set ls.parties i (record p { id = to_u8 i }) })

  abbrev pub added : LocalParty st → Option ℕ → List ℕ → LocalParty st
  added p transport_connection refs = record (LocalParty.re_init p transport_connection) {
    is_used = true;
    participant_references = refs;
  }

  -- The first `local_participant_count` of the created participants become the party's.
  unfoldable pub add_party : LocalParties st → ℕ → Option ℕ → List ℕ → ℕ → Option (LocalParties st)
  add_party ls party transport_connection created local_participant_count = do
    p ← get_elem? ls.parties party
    refs ← take? local_participant_count created
    some (record ls {
      parties_count = add_size ls.parties_count 1;
      parties = set ls.parties party (added p transport_connection refs);
    })

  unfoldable pub remove : LocalParties st → ℕ → Option (LocalParties st)
  remove ls party = do
    p ← get_elem? ls.parties party
    some (record ls {
      parties_count = sub_size ls.parties_count 1;
      parties = set ls.parties party (LocalParty.reset p);
    })

-- The search goes through the first `partiesCount` places of the array.
module _ {e : External} where
  unfoldable pub is_for_transport :
      List (TransportConnection e) → ℕ → LocalParty e.stats → Option Bool
  is_for_transport ts transport_connection_id p =
      if p.is_used
      then (elim p.transport_connection [
        | none ↦ some false
        | some t ↦
            get_elem? ts t >>= λ c. some (c.transport_connection_id == transport_connection_id)
      ])
      else some false

  unfoldable pub find_for_transport_from :
      List (TransportConnection e) → ℕ → ℕ → ℕ → List (LocalParty e.stats) → Option (Option ℕ)
  unfolding is_for_transport
  find_for_transport_from ts transport_connection_id i zero ps = some none
  find_for_transport_from ts transport_connection_id i (suc n) [] = none
  find_for_transport_from ts transport_connection_id i (suc n) (p ∷ ps) =
      let rest = find_for_transport_from ts transport_connection_id (i + 1) n ps in
      do hit ← is_for_transport ts transport_connection_id p; if hit then some (some i) else rest

  unfoldable pub find_party_for_transport :
      LocalParties e.stats → List (TransportConnection e) → ℕ → Option (Option ℕ)
  unfolding find_for_transport_from
  find_party_for_transport ls ts transport_connection_id =
      find_for_transport_from ts transport_connection_id 0 ls.parties_count ls.parties

-- NimbleSerializeLocalPartyInfo: the ids of the first `participant_count` entries are set.
pub record LocalPartyInfo : Type 0 where
  pub participant_count : ℕ
  pub participant_ids : List ℕ

-- A result, the party that was made (NULL is `none`), and the two collections.
abbrev pub Made : StatsLib → StepsLib → Type 0
Made st sl = ℤ × Option ℕ × LocalParties st × Participants sl

abbrev pub waiting_party : {st : StatsLib} → LocalParty st → LocalParty st
waiting_party p = record p {
  is_used = true;
  state = PartyState.waiting_for_re_join;
  waiting_for_reconnect_timer = 0;
}

module _ {sl : StepsLib} where
  -- The loop over the ids, from an index on: the error that stopped it or else 0, and the
  -- participants created. The array that these are written to has 16 places: a participant that is
  -- created at an index of 16 or more is undefined behaviour.
  unfoldable pub prepare_participants :
      Participants sl → ℕ → List ℕ → ℕ → ℕ → Option (ℤ × List ℕ × Participants sl)
  prepare_participants ps index [] party step_id = some (pos 0, [], ps)
  prepare_participants ps index (id ∷ ids) party step_id = do
    (result, created, ps') ← Participants.prepare ps id party step_id
    let rest = prepare_participants ps' (index + 1) ids party step_id
    if is_negative result
        then some (result, [], ps')
        else if leb 16 index
        then none
        else rest >>= λ (result', created', ps''). some (result', created ++ created', ps'')

module _ {st : StatsLib} {sl : StepsLib} where
  -- One participant is referred to, however many the party has.
  unfoldable pub prepare :
      LocalParties st → Participants sl → ℕ → LocalPartyInfo → Option (Made st sl)
  unfolding find_free_party_place prepare_participants add_party
  prepare ls ps step_id info = elim (find_free_party_place ls) [
    | none ↦ some (err_out_of_participant_memory, none, ls, ps)
    | some (party, ls₁) ↦ do
      ids ← take? info.participant_count info.participant_ids
      (result, created, ps') ← prepare_participants ps 0 ids party step_id
      if is_negative result then some (result, none, ls₁, ps') else do
        ls₂ ← add_party ls₁ party none created 1
        p ← get_elem? ls₂.parties party
        some (
          pos 0,
          some party,
          record ls₂ { parties = set ls₂.parties party (waiting_party p) },
          ps',
        )
  ]

  unfoldable pub create :
      LocalParties st → Participants sl → ℕ → List JoinPlayer → ℕ → ℕ → Option (Made st sl)
  unfolding find_free_party_place add_party
  create ls ps transport_connection join_info step_id local_participant_count =
      elim (find_free_party_place ls) [
        | none ↦ some (err_out_of_participant_memory, none, ls, ps)
        | some (party, ls₁) ↦ do
          (result, created, ps') ←
              Participants.join ps join_info local_participant_count party step_id
          if is_negative result then some (result, none, ls₁, ps') else do
            ls₂ ← add_party ls₁ party (some transport_connection) created local_participant_count
            some (pos 0, some party, ls₂, ps')
      ]
