-- ===== src/HostMigration.antt =====
-- `nimbleServerHostMigration` of src/lib/server.c: a new host gets the parties of the old one, each
-- waiting for its client to rejoin. The outer `none` of a result is undefined behaviour.
pub mod Taken
pub mod Valid
use nimble_server_lib.Prelude.{
  ℕ, ℤ, pos, is_negative, ◌>>=◌, Bool, false, ◌||◌, List, [], ◌∷◌, Option, some, take, ◌==◌,
  if◌then◌else◌, sub_u32,
}
use nimble_server_lib.External.{External, StatsLib, StepsLib}
use nimble_server_lib.CircularBuffer as Ring
use nimble_server_lib.Participants.{Participants, write_ids}
use nimble_server_lib.LocalParties
use nimble_server_lib.LocalParties.{LocalParties, LocalPartyInfo}
use nimble_server_lib.Server.{Server}

-- Whether an id is among those of the parties.
unfoldable pub contains_id : List ℕ → ℕ → Bool
contains_id [] id = false
contains_id (x ∷ xs) id = id == x || contains_id xs id

unfoldable pub contains_participant_id : List LocalPartyInfo → ℕ → Bool
unfolding contains_id
contains_participant_id [] id = false
contains_participant_id (info ∷ infos) id =
    contains_id (take info.participant_count info.participant_ids) id
    || contains_participant_id infos id

module _ {st : StatsLib} {sl : StepsLib} where
  -- The loop that prepares a party for each entry: the error that stopped it, or else 0.
  unfoldable pub prepare_parties :
      LocalParties st
      → Participants sl
      → ℕ
      → List LocalPartyInfo
      → Option (ℤ × LocalParties st × Participants sl)
  prepare_parties ls ps step_id [] = some (pos 0, ls, ps)
  prepare_parties ls ps step_id (info ∷ infos) = do
    (result, party, ls', ps') ← LocalParties.prepare ls ps step_id info
    let rest = prepare_parties ls' ps' step_id infos
    if is_negative result then some (result, ls', ps') else rest

module _ {e : External} where
  unfoldable pub host_migration : Server e → List LocalPartyInfo → Option (ℤ × Server e)
  host_migration self infos = do
    let step_id = sub_u32 (e.steps.expected_write_id self.game.authoritative_steps) 1
    (result, ls, ps) ←
        prepare_parties (LocalParties.reset self.local_parties) self.game.participants step_id infos
    let self' = record self { local_parties = ls; game = record (self.game) { participants = ps } }
    let filled = record ps {
      free_list =
          write_ids (contains_participant_id infos) (Ring.init ps.free_list) 0
            ps.participant_capacity;
    }
    if is_negative result
        then some (result, self')
        else some (pos 0, record self' { game = record (self'.game) { participants = filled } })
