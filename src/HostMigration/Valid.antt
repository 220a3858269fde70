-- ===== src/HostMigration/Valid.antt =====
-- The participants after `nimbleServerHostMigration` of src/lib/server.c.
use nimble_server_lib.Prelude.{
  ℕ, ◌<◌, ◌≤◌, ◌≡◌, ap, ◌∙◌, ℤ, true, List, [], ◌∷◌, some, pos, arith, Bool-cases, inl, inr, ◌⊎◌,
  length, is_negative, occurrences, occurrences-append, ltb, sub_u32,
}
use nimble_server_lib.External.{External}
use nimble_server_lib.CircularBuffer.{CircularBuffer, buffer_size}
use nimble_server_lib.CircularBuffer as Ring
use nimble_server_lib.CircularBuffer.Fifo.{init_lem}
use nimble_server_lib.Participants.{write_ids}
use nimble_server_lib.Participants.Slots.{free_at}
use nimble_server_lib.Participants.Inv.{IsValid}
use nimble_server_lib.Participants.Prepare.{SlotsValid}
use nimble_server_lib.Participants.Fill.{filled-IsValid}
use nimble_server_lib.LocalParties
use nimble_server_lib.LocalParties.{
  LocalParties, LocalPartyInfo, prepare_participants, find_free_from, find_free_party_place,
  add_party, added, waiting_party,
}
use nimble_server_lib.Server.{Server}
use nimble_server_lib.HostMigration.{contains_id, contains_participant_id, host_migration}
use nimble_server_lib.HostMigration.Taken.{ids_of, all_ids, Complete, prepare_parties-Taken}

contains_id_lem : (xs : List ℕ) (i : ℕ) → contains_id xs i ≡ ltb 0 (occurrences i xs)
unfolding contains_id
contains_id_lem [] i = ground arith
contains_id_lem (x ∷ xs) i = ground (arith, contains_id_lem xs i)

contains_participant_id_lem :
    (infos : List LocalPartyInfo) (i : ℕ)
    → contains_participant_id infos i ≡ ltb 0 (occurrences i (all_ids infos))
unfolding contains_participant_id
contains_participant_id_lem [] i = ground arith
contains_participant_id_lem (info ∷ infos) i = ground (
  arith,
  contains_participant_id_lem infos i,
  contains_id_lem (ids_of info) i,
  occurrences-append i (ids_of info) (all_ids infos),
)

module _ {e : External} where
  -- From a collection of participants whose slots are in order and all free, and parties that have
  -- from one id to 16 each, all ids distinct and below the capacity, the host migration never leaves
  -- an array; it returns an error, or leaves a valid collection: the ring of free ids holds exactly
  -- the ids of no party.
  pub host_migration-IsValid :
      (self : Server e) (infos : List LocalPartyInfo)
      → SlotsValid self.game.participants
      → length self.game.participants.free_list.octets ≡ buffer_size
      → ((j : ℕ)
          → j < self.game.participants.participant_capacity
          → free_at self.game.participants.participants j ≡ 1)
      → Complete infos
      → ((j : ℕ) → occurrences j (all_ids infos) ≤ free_at self.game.participants.participants j)
      → (result : ℤ) × (self' : Server e) × (host_migration self infos ≡ some (result, self'))
        × ((is_negative result ≡ true) ⊎ IsValid self'.game.participants)
  unfolding host_migration
  host_migration-IsValid self infos v ring empty c free =
      let ps = self.game.participants in
      let step_id : ℕ = sub_u32 (e.steps.expected_write_id self.game.authoritative_steps) 1 in
      let (result, ls, qs, done, takes) =
        prepare_parties-Taken (LocalParties.reset self.local_parties) ps step_id infos v c free in
      elim (Bool-cases (is_negative result)) [
        | inl bad ↦ (
          result,
          record self { local_parties = ls; game = record (self.game) { participants = qs } },
          simp (done, bad),
          inl bad,
        )
        | inr good ↦
            let t = takes good in
            let ready =
              init_lem qs.free_list (ap (λ (b : CircularBuffer). length b.octets) t.ring ∙ ring) in
            (
              pos 0,
              record self {
                local_parties = ls;
                game = record (self.game) {
                  participants = record qs {
                    free_list =
                        write_ids (contains_participant_id infos) (Ring.init qs.free_list) 0
                          qs.participant_capacity;
                  };
                };
              },
              simp (done, good),
              inr (
                  filled-IsValid (contains_participant_id infos) qs (Ring.init qs.free_list)
                    t.valid.size t.valid.small t.valid.slots t.valid.counted
                    (λ i l. ground (
                      arith,
                      t.gone i,
                      empty i (omega (arith, l, t.valid.size, t.capacity)),
                      contains_participant_id_lem infos i,
                    ))
                    ready.0 ready.1),
            )
      ]
