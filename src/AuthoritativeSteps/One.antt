-- ===== src/AuthoritativeSteps/One.antt =====
-- One round of `composeOneAuthoritativeStep` of src/lib/authoritative_steps.c: what it leaves of the
-- slot of one participant, and of the others.
use nimble_server_lib.Prelude.{
  ℕ, ◌<◌, ◌≡◌, ◌≢◌, refl, sym, subst, ◌∙◌, ℤ, pos, true, false, List, some, arith, get_elem?,
  get_elem?_in_range, get_elem?-lt-length, get_elem?-set_self, get_elem?-set_ne, length, set,
  Bool-cases, inl, inr, ◌⊎◌,
}
use native.Mathlib.Decide.{ℕ_discrete}
use nimble_server_lib.External.{External, StepsLib, StepType}
use nimble_server_lib.Participant.{Participant}
use nimble_server_lib.Participants.{Participants}
use nimble_server_lib.Participants.Slots.{Every}
use nimble_server_lib.Participants.Inv.{IsValid}
use nimble_server_lib.LocalParty.{LocalParty}
use nimble_server_lib.AuthoritativeSteps.{
  Weave, read_step, settle_state, write_entry, compose_used, compose_slot,
}
use nimble_server_lib.AuthoritativeSteps.Slot.{
  Housed, Settled, SettledAt, replace-IsValid, settle_state_lem,
}
use nimble_server_lib.AuthoritativeSteps.Entry.{Read, read_step_lem, write_entry_lem}

-- A valid collection each of whose participants is in one of the parties.
pub record WeaveValid {e : External} (w : Weave e) : Type 0 where
  pub valid : IsValid w.participants
  pub housed : Every (λ i p. Housed (length w.parties) p) w.participants.participants

module _ {sl : StepsLib} where
  -- How composing a step changes a slot: not at all if it is not used.
  abbrev pub Change : Participant sl → Participant sl → Type 0
  Change p q =
      ((p.is_used ≡ false) × (q ≡ p))
      ⊎ ((p.is_used ≡ true) × ((kind : StepType) × Settled p.state q kind))

-- What a round at slot `i` makes of `w`.
pub record Round {e : External} (i : ℕ) (w w' : Weave e) : Type 0 where
  pub valid : WeaveValid w'
  pub capacity : w'.participants.participant_capacity ≡ w.participants.participant_capacity
  pub here :
      (p : Participant e.steps)
      → get_elem? w.participants.participants i ≡ some p
      → (q : Participant e.steps) × (get_elem? w'.participants.participants i ≡ some q) × Change p q
  pub others :
      (j : ℕ)
      → i ≢ j
      → get_elem? w'.participants.participants j ≡ get_elem? w.participants.participants j

module _ (e : External) where
  unused_Round :
      (i : ℕ) (w : Weave e) (p : Participant e.steps)
      → WeaveValid w
      → get_elem? w.participants.participants i ≡ some p
      → p.is_used ≡ false
      → Round i w w
  unused_Round i w p v at u = record {
    valid = v;
    capacity = refl;
    here = λ p' at'. (p', at', inl (ground arith, refl));
    others = λ j ne. refl;
  }

  -- The participants' array after a round, from that before it and slot `i`.
  settled_Every :
      (n m : ℕ) (ps qs : List (Participant e.steps)) (i : ℕ) (p q : Participant e.steps)
      → n ≡ m
      → Every (λ j r. Housed n r) ps
      → get_elem? qs i ≡ some q
      → Housed m q
      → ((j : ℕ) → i ≢ j → get_elem? qs j ≡ get_elem? ps j)
      → Every (λ j r. Housed m r) qs
  settled_Every n m ps qs i p q same old now hq others j r at = elim (ℕ_discrete i j) [
    | yes eq ↦ let one : q ≡ r = cc in subst (Housed m) one hq
    | no ne ↦ subst (λ k. Housed k r) same (old j r (sym (others j ne) ∙ at))
  ]

  -- The round of a slot that is used, in party `k`.
  used_slot-Round :
      (looking_for i k : ℕ) (w : Weave e) (p : Participant e.steps)
      → WeaveValid w
      → get_elem? w.participants.participants i ≡ some p
      → p.is_used ≡ true
      → p.in_party ≡ some k
      → k < length w.parties
      → (result : ℤ) × (w' : Weave e) × (compose_used e looking_for i w p ≡ some (result, w'))
        × Round i w w'
  unfolding compose_used
  used_slot-Round looking_for i k w p v at u home k_in = (
    result,
    w',
    simp (is_read, is_settled, is_written),
    record {
      valid = record {
        valid = settled.valid;
        housed =
            settled_Every (length w.parties) (length parties) ps qs.participants i p settled.slot
              (sym same) v.housed settled.now
              (settled.housed (length parties) (λ _. (k, home, omega (arith, same)))) others;
      };
      capacity = settled.capacity;
      here = λ r at'.
          let one : p ≡ r = cc in
          (
            settled.slot,
            settled.now,
            inr (
              subst (λ (x : Participant e.steps). x.is_used ≡ true) one u,
              (
                kind,
                subst (λ (x : Participant e.steps). Settled x.state settled.slot kind) one
                    settled.settled,
              ),
            ),
          );
      others = others;
    },
  )
    where
      ps : List (Participant e.steps)
      ps = w.participants.participants

      read : Read e p looking_for w.parties
      read = read_step_lem e p looking_for w.parties k home k_in

      p' : Participant e.steps
      p' = record p { steps = read.3 }

      parties : List (LocalParty e.stats)
      parties = read.4

      is_read : read_step e p looking_for w.parties ≡ some (read.0, read.1, read.2, p', parties)
      is_read = read.5

      same : length parties ≡ length w.parties
      same = read.6

      stored : Participants e.steps
      stored = record (w.participants) { participants = set ps i p' }

      after :
          (kind : StepType) × (qs : Participants e.steps) × (settle_state stored i p' read.0
            ≡ some (kind, qs))
          × SettledAt stored i p' kind qs
      after =
          settle_state_lem stored i p' read.0
            (replace-IsValid w.participants i p p' v.valid at refl refl refl)
            (get_elem?-set_self ps i p' (get_elem?-lt-length ps i p at)) u p'.state refl

      kind : StepType
      kind = after.0

      qs : Participants e.steps
      qs = after.1

      is_settled : settle_state stored i p' read.0 ≡ some (kind, qs)
      is_settled = after.2

      settled : SettledAt stored i p' kind qs
      settled = after.3

      written :
          (result : ℤ) × (stream' : e.out.OutStream) × (write_entry e p' kind read.1 read.2 parties
              w.stream
            ≡ some (result, stream'))
      written =
          write_entry_lem e p' kind read.1 read.2 parties w.stream k home (omega (arith, same))

      result : ℤ
      result = written.0

      is_written : write_entry e p' kind read.1 read.2 parties w.stream ≡ some (result, written.1)
      is_written = written.2

      w' : Weave e
      w' = record { participants = qs; parties = parties; stream = written.1 }

      others : (j : ℕ) → i ≢ j → get_elem? qs.participants j ≡ get_elem? ps j
      others j ne = settled.others j ne ∙ get_elem?-set_ne ps i j p' ne

  pub compose_slot-Round :
      (looking_for i : ℕ) (w : Weave e)
      → WeaveValid w
      → i < w.participants.participant_capacity
      → (result : ℤ) × (w' : Weave e) × (compose_slot e looking_for i w ≡ some (result, w'))
        × Round i w w'
  unfolding compose_slot
  compose_slot-Round looking_for i w v h =
      let (p, at) =
        get_elem?_in_range w.participants.participants i (omega (arith, v.valid.size)) in
      elim (Bool-cases p.is_used) [
        | inl used ↦
            let (k, home, k_in) = v.housed i p at used in
            let (result, w', done, round) =
              used_slot-Round looking_for i k w p v at used home k_in in
            (result, w', simp (at, used) done, round)
        | inr unused ↦
            (pos 0, w, rw (compose_slot, at, unused) refl, unused_Round i w p v at unused)
      ]
