-- ===== src/AuthoritativeSteps/Round.antt =====
-- `composeOneAuthoritativeStep` of src/lib/authoritative_steps.c over all slots.
use nimble_server_lib.Prelude.{
  ℕ, zero, suc, ◌+◌, ◌<◌, ◌≤◌, ◌≡◌, refl, sym, ◌∙◌, ℤ, pos, true, false, List, some, arith,
  get_elem?, get_elem?-lt-length, length, Bool-cases, inl, inr, ◌⊎◌, is_negative, to_u8,
  if◌then◌else◌,
}
use native.Mathlib.Decide.{ℕ_discrete}
use mathlib.Core.Bool.{false≢true}
use nimble_server_lib.External.{External}
use nimble_server_lib.Participant.{Participant}
use nimble_server_lib.Participants.{Participants}
use nimble_server_lib.Participants.Slots.{Every}
use nimble_server_lib.Participants.Inv.{IsValid}
use nimble_server_lib.LocalParty.{LocalParty}
use nimble_server_lib.AuthoritativeSteps.{Weave, compose_slots, compose_one_authoritative_step}
use nimble_server_lib.AuthoritativeSteps.Slot.{Housed}
use nimble_server_lib.AuthoritativeSteps.One.{WeaveValid, Change, Round, compose_slot-Round}

-- What the rounds at the `n` slots from `i` on make of `w`, with their result.
pub record Sweep {e : External} (i n : ℕ) (w : Weave e) (result : ℤ) (w' : Weave e) : Type 0 where
  pub valid : WeaveValid w'
  pub capacity : w'.participants.participant_capacity ≡ w.participants.participant_capacity
  pub before :
      (j : ℕ)
      → j < i
      → get_elem? w'.participants.participants j ≡ get_elem? w.participants.participants j
  pub swept :
      is_negative result ≡ false
      → (j : ℕ) (p : Participant e.steps) → i ≤ j
      → j < i + n
      → get_elem? w.participants.participants j ≡ some p
      → (q : Participant e.steps) × (get_elem? w'.participants.participants j ≡ some q) × Change p q

module _ (e : External) where
  stopped :
      (i n : ℕ) (w w' : Weave e) (result : ℤ)
      → is_negative result ≡ true
      → Round i w w'
      → Sweep i n w result w'
  stopped i n w w' result bad r = record {
    valid = r.valid;
    capacity = r.capacity;
    before = λ j h. r.others j (omega arith);
    swept = λ good. absurd (false≢true (sym good ∙ bad));
  }

  continued :
      (i n : ℕ) (w w' w'' : Weave e) (result : ℤ)
      → Round i w w'
      → Sweep (i + 1) n w' result w''
      → Sweep i (suc n) w result w''
  continued i n w w' w'' result r s = record {
    valid = s.valid;
    capacity = s.capacity ∙ r.capacity;
    before = λ j h. s.before j (omega arith) ∙ r.others j (omega arith);
    swept = λ good j p lo hi at. elim (ℕ_discrete i j) [
      | yes eq ↦
          let (q, now, change) = r.here p (rw eq at) in
          (q, rw (← eq) (s.before i (omega arith) ∙ now), change)
      | no ne ↦ s.swept good j p (omega arith) (omega arith) (r.others j ne ∙ at)
    ];
  }

  compose_slots-Sweep :
      (looking_for i n : ℕ) (w : Weave e)
      → WeaveValid w
      → i + n ≤ w.participants.participant_capacity
      → (result : ℤ) × (w' : Weave e) × (compose_slots e looking_for i n w ≡ some (result, w'))
        × Sweep i n w result w'
  unfolding compose_slots
  compose_slots-Sweep looking_for i zero w v h = (
    pos 0,
    w,
    refl,
    record {
      valid = v;
      capacity = refl;
      before = λ j l. refl;
      swept = λ good j p lo hi at. absurd (omega arith);
    },
  )
  compose_slots-Sweep looking_for i (suc n) w v h =
      let (result, w', done, round) = compose_slot-Round e looking_for i w v (omega arith) in
      elim (Bool-cases (is_negative result)) [
        | inl bad ↦ (result, w', simp (done, bad), stopped i (suc n) w w' result bad round)
        | inr good ↦
            let (result', w'', rest, sweep) =
              compose_slots-Sweep looking_for (i + 1) n w' round.valid
                (omega (arith, round.capacity)) in
            (result', w'', simp (done, good, rest), continued i n w w' w'' result' round sweep)
      ]

  -- Composing a step from a valid collection, each of whose participants is in a party, never
  -- leaves an array or follows a NULL, and leaves a valid collection of the same capacity, each of
  -- whose participants is in a party. If it does not end in an error every slot in use is settled:
  -- who joined becomes normal, who leaves is gone, and all others keep their state; slots that are
  -- not used stay as they are.
  pub compose_one_lem :
      (ps : Participants e.steps) (parties : List (LocalParty e.stats)) (looking_for max_length : ℕ)
      → IsValid ps
      → Every (λ i p. Housed (length parties) p) ps.participants
      → (count : ℤ) × (w' : Weave e) × (compose_one_authoritative_step e ps parties looking_for
            max_length
          ≡ some (count, w'))
        × WeaveValid w'
        × (w'.participants.participant_capacity ≡ ps.participant_capacity)
        × ((is_negative count ≡ true)
            ⊎ ((j : ℕ) (p : Participant e.steps)
                → get_elem? ps.participants j ≡ some p
                → (q : Participant e.steps) × (get_elem? w'.participants.participants j ≡ some q)
                  × Change p q))
  unfolding compose_one_authoritative_step
  compose_one_lem ps parties looking_for max_length v housed = (
    if is_negative result then result else pos (e.out.pos w'.stream),
    w',
    simp done,
    sweep.valid,
    sweep.capacity,
    elim (Bool-cases (is_negative result)) [
      | inl bad ↦ inl (ground arith)
      | inr good ↦ inr (λ j p at.
          sweep.swept good j p (omega arith)
            (omega (arith, get_elem?-lt-length ps.participants j p at, v.size)) at)
    ],
  )
    where
      start : Weave e
      start = record {
        participants = ps;
        parties = parties;
        stream = (e.out.write_u8 (e.out.out_init max_length) (to_u8 ps.participant_count)).1;
      }

      swept :
          (result : ℤ) × (w' : Weave e) × (compose_slots e looking_for 0 ps.participant_capacity
              start
            ≡ some (result, w'))
          × Sweep 0 ps.participant_capacity start result w'
      swept =
          compose_slots-Sweep looking_for 0 ps.participant_capacity start
            (record { valid = v; housed = housed }) (omega arith)

      result : ℤ
      result = swept.0

      w' : Weave e
      w' = swept.1

      done : compose_slots e looking_for 0 ps.participant_capacity start ≡ some (result, w')
      done = swept.2

      sweep : Sweep 0 ps.participant_capacity start result w'
      sweep = swept.3
