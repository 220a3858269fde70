-- ===== src/AuthoritativeSteps/Slot.antt =====
-- One round of `composeOneAuthoritativeStep` of src/lib/authoritative_steps.c: the slot of one
-- participant.
use nimble_server_lib.Prelude.{
  ℕ, ◌<◌, ◌≡◌, ◌≢◌, refl, sym, ◌∙◌, true, false, some, arith, get_elem?, get_elem?-lt-length,
  get_elem?-set_self, get_elem?-set_ne, length-set, set,
}
use nimble_server_lib.External.{StepsLib, StepType}
use nimble_server_lib.Participant
use nimble_server_lib.Participant.{Participant, ParticipantState}
use nimble_server_lib.Participants.{Participants}
use nimble_server_lib.Participants.Slots.{Every-set, used_count-set, free_at-set, free_at-of}
use nimble_server_lib.Participants.Inv.{IsValid, SlotValid, destroy-IsValid}
use nimble_server_lib.AuthoritativeSteps.{settle_state}

module _ {sl : StepsLib} where
  -- A used participant is in one of the `n` parties.
  abbrev pub Housed : ℕ → Participant sl → Type 0
  Housed n p = p.is_used ≡ true → (k : ℕ) × (p.in_party ≡ some k) × (k < n)

  -- A slot may be replaced by one of the same id, use and party.
  pub replace-IsValid :
      (ps : Participants sl) (i : ℕ) (p q : Participant sl)
      → IsValid ps
      → get_elem? ps.participants i ≡ some p
      → q.id ≡ p.id
      → q.is_used ≡ p.is_used
      → q.in_party ≡ p.in_party
      → IsValid (record ps { participants = set ps.participants i q })
  replace-IsValid ps i p q v at id used party = record {
    size = length-set ps.participants i q ∙ v.size;
    small = v.small;
    slots =
        Every-set SlotValid ps.participants i q v.slots
          (id ∙ old.0, λ u. let (k, e) = old.1 (sym used ∙ u) in (k, party ∙ e));
    counted = ground (arith, v.counted, used_count-set ps.participants i p q at, used);
    ring = v.ring;
    free = λ j. ground (
      arith,
      v.free j,
      free_at-set ps.participants i j p q at,
      free_at-of ps.participants i p at,
      used,
    );
    balance = v.balance;
  }
    where
      old : SlotValid i p
      old = v.slots i p at

  -- How composing a step changes a slot: a participant that just joined is a normal one from now
  -- on, one that leaves is gone, and nothing else changes but the buffered steps.
  pub data Settled (s : ParticipantState) : Participant sl → StepType → Type 0 where
    joins :
        (q : Participant sl)
        → s ≡ ParticipantState.just_joined
        → q.state ≡ ParticipantState.normal
        → q.is_used ≡ true
        → Settled s q StepType.joined
    leaves :
        (q : Participant sl)
        → s ≡ ParticipantState.leaving
        → q.state ≡ ParticipantState.destroyed
        → q.is_used ≡ false
        → Settled s q StepType.left
    waits :
        (q : Participant sl)
        → s ≡ ParticipantState.waiting_for_rejoin
        → q.state ≡ s
        → q.is_used ≡ true
        → Settled s q StepType.waiting_for_rejoin
    stays :
        (q : Participant sl) (read : StepType)
        → s ≢ ParticipantState.just_joined
        → s ≢ ParticipantState.leaving
        → q.state ≡ s
        → q.is_used ≡ true
        → Settled s q read

  -- What `settle_state` leaves of a valid collection: slot `i` is settled, the others stay.
  pub record SettledAt (ps : Participants sl) (i : ℕ) (p : Participant sl) (kind : StepType)
      (qs : Participants sl) : Type 0 where
    pub slot : Participant sl
    pub now : get_elem? qs.participants i ≡ some slot
    pub settled : Settled p.state slot kind
    pub others : (j : ℕ) → i ≢ j → get_elem? qs.participants j ≡ get_elem? ps.participants j
    pub capacity : qs.participant_capacity ≡ ps.participant_capacity
    pub valid : IsValid qs
    pub housed : (n : ℕ) → Housed n p → Housed n slot

  unchanged :
      (ps : Participants sl) (i : ℕ) (p : Participant sl) (kind : StepType)
      → IsValid ps
      → get_elem? ps.participants i ≡ some p
      → Settled p.state p kind
      → SettledAt ps i p kind ps
  unchanged ps i p kind v at settled = record {
    slot = p;
    now = at;
    settled = settled;
    others = λ j ne. refl;
    capacity = refl;
    valid = v;
    housed = λ n h. h;
  }

  pub settle_state_lem :
      (ps : Participants sl) (i : ℕ) (p : Participant sl) (read : StepType)
      → IsValid ps
      → get_elem? ps.participants i ≡ some p
      → p.is_used ≡ true
      → (state : ParticipantState) → p.state ≡ state
      → (kind : StepType) × (qs : Participants sl) × (settle_state ps i p read ≡ some (kind, qs))
        × SettledAt ps i p kind qs
  unfolding settle_state
  settle_state_lem ps i p read v at u ParticipantState.just_joined e =
      let q = record p { state = ParticipantState.normal } in
      let bound = get_elem?-lt-length ps.participants i p at in
      (
        StepType.joined,
        record ps { participants = set ps.participants i q },
        rw (e, settle_state) refl,
        record {
          slot = q;
          now = get_elem?-set_self ps.participants i q bound;
          settled = Settled.joins q e refl u;
          others = λ j ne. get_elem?-set_ne ps.participants i j q ne;
          capacity = refl;
          valid = replace-IsValid ps i p q v at refl refl refl;
          housed = λ n h. h;
        },
      )
  settle_state_lem ps i p read v at u ParticipantState.normal e = (
    read,
    ps,
    rw (e, settle_state) refl,
    unchanged ps i p read v at (Settled.stays p read (λ h. cc) (λ h. cc) refl u),
  )
  settle_state_lem ps i p read v at u ParticipantState.waiting_for_rejoin e = (
    StepType.waiting_for_rejoin,
    ps,
    rw (e, settle_state) refl,
    unchanged ps i p StepType.waiting_for_rejoin v at (Settled.waits p e refl u),
  )
  settle_state_lem ps i p read v at u ParticipantState.leaving e =
      let q = Participant.destroy p in
      let own = (v.slots i p at).0 in
      let bound = get_elem?-lt-length ps.participants i p at in
      let (qs, destroyed, valid, fewer, now, capacity, ring) = destroy-IsValid ps i p v at u in
      (
        StepType.left,
        qs,
        rw (e, settle_state, own, destroyed) refl,
        record {
          slot = q;
          now = rw now (get_elem?-set_self ps.participants i q bound);
          settled =
              Settled.leaves q e (unfold Participant.destroy in refl)
                (unfold Participant.destroy in refl);
          others = λ j ne. rw now (get_elem?-set_ne ps.participants i j q ne);
          capacity = capacity;
          valid = valid;
          housed = λ n h used. unfold Participant.destroy in cc;
        },
      )
  settle_state_lem ps i p read v at u ParticipantState.destroyed e = (
    read,
    ps,
    rw (e, settle_state) refl,
    unchanged ps i p read v at (Settled.stays p read (λ h. cc) (λ h. cc) refl u),
  )
