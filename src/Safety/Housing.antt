-- ===== src/Safety/Housing.antt =====
-- The participants that `nimbleServerHostMigration` of src/lib/server.c prepares for a party, through
-- src/lib/participants.c, are in that party.
use nimble_server_lib.Prelude.{
  ℕ, ◌<◌, ◌≡◌, refl, ◌∙◌, subst, ℤ, pos, negsuc, List, [], ◌∷◌, ◌++◌, some, ◌>>=◌, >>=-eq-some,
  arith, is_negative, get_elem?, get_elem?-lt-length, set, length, length-set, All, All-append,
  Bool-cases, Option-cases, inl, inr, add_size, ltb, leb, ◌+◌, false,
}
use nimble_server_lib.Errors.{err_session_full}
use nimble_server_lib.External.{StepsLib}
use nimble_server_lib.Participant
use nimble_server_lib.Participant.{Participant}
use nimble_server_lib.Participants
use nimble_server_lib.Participants.{Participants, prepared}
use nimble_server_lib.Participants.Slots.{Every, Every-set}
use nimble_server_lib.AuthoritativeSteps.Slot.{Housed}
use nimble_server_lib.LocalParties.{prepare_participants}

module _ {sl : StepsLib} where
  -- What preparing participants for a party below `m` leaves, with the created ones in the array.
  pub record Housing (m : ℕ) (ps : Participants sl) (out : ℤ × List ℕ × Participants sl)
      : Type 0 where
    pub housed : Every (λ i p. Housed m p) out.2.participants
    pub slots : length out.2.participants ≡ length ps.participants
    pub inside : All (λ r. r < length ps.participants) out.1

  prepare-Housing :
      (m : ℕ) (ps : Participants sl) (id party step_id : ℕ) (out : ℤ × List ℕ × Participants sl)
      → party < m
      → Every (λ i p. Housed m p) ps.participants
      → Participants.prepare ps id party step_id ≡ some out
      → Housing m ps out
  unfolding Participants.prepare prepared Participant.re_init
  prepare-Housing m ps id party step_id out h v run =
      elim (Bool-cases (ltb ps.participant_capacity (add_size ps.participant_count 1))) [
        | inl full ↦
            subst (Housing m ps) {x = (err_session_full, [], ps)} {y = out}
              (ground (arith, run, full)) (record { housed = v; slots = refl; inside = tt })
        | inr room ↦ elim (Option-cases (get_elem? ps.participants id)) [
          | inl outside ↦ absurd (ground (arith, run, room, outside))
          | inr (p, at) ↦
              let q : Participant sl = prepared p id party step_id in
              let qs : Participants sl = record ps {
                participants = set ps.participants id q;
                participant_count = add_size ps.participant_count 1;
              } in
              elim (Bool-cases p.is_used) [
                | inl used ↦
                    subst (Housing m ps) {x = (negsuc 1, [], ps)} {y = out}
                      (ground (arith, run, room, at, used))
                      (record { housed = v; slots = refl; inside = tt })
                | inr unused ↦
                    subst (Housing m ps) {x = (pos 0, id ∷ [], qs)} {y = out}
                      (ground (arith, run, room, at, unused))
                      (record {
                        housed =
                            Every-set (λ i p. Housed m p) ps.participants id q v
                              (λ u. (party, refl, h));
                        slots = length-set ps.participants id q;
                        inside = (get_elem?-lt-length ps.participants id p at, tt);
                      })
              ]
        ]
      ]

  pub prepare_participants-Housing :
      (m : ℕ) (ps : Participants sl) (index : ℕ) (ids : List ℕ) (party step_id : ℕ)
      (out : ℤ × List ℕ × Participants sl)
      → party < m
      → Every (λ i p. Housed m p) ps.participants
      → prepare_participants ps index ids party step_id ≡ some out
      → Housing m ps out
  unfolding prepare_participants
  prepare_participants-Housing m ps index [] party step_id out h v run =
      subst (Housing m ps) {x = (pos 0, [], ps)} {y = out} (ground (arith, run))
        (record { housed = v; slots = refl; inside = tt })
  prepare_participants-Housing m ps index (id ∷ ids) party step_id out h v run =
      let (r, one, run₁) = >>=-eq-some (Participants.prepare ps id party step_id) _ run in
      let first = prepare-Housing m ps id party step_id r h v one in
      elim (Bool-cases (is_negative r.0)) [
        | inl bad ↦
            subst (Housing m ps) {x = (r.0, [], r.2)} {y = out} (ground (arith, run₁, bad))
              (record { housed = first.housed; slots = first.slots; inside = tt })
        | inr good ↦
            let within : leb 16 index ≡ false = ground (arith, run₁, good) in
            let rest : (prepare_participants r.2 (index + 1) ids party step_id >>= λ x.
            some (x.0, r.1 ++ x.1, x.2))
                ≡ some out =
              ground (arith, run₁, good, within) in
            let (s, further, run₂) =
              >>=-eq-some (prepare_participants r.2 (index + 1) ids party step_id) _ rest in
            let second =
              prepare_participants-Housing m r.2 (index + 1) ids party step_id s h first.housed
                further in
            subst (Housing m ps) {x = (s.0, r.1 ++ s.1, s.2)} {y = out} (ground (arith, run₂))
              (record {
                housed = second.housed;
                slots = second.slots ∙ first.slots;
                inside =
                    All-append (λ i. i < length ps.participants) r.1 s.1 first.inside
                      (subst (λ n. All (λ i. i < n) s.1) first.slots second.inside);
              })
      ]
