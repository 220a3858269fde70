-- ===== src/Safety/Members.antt =====
-- Changes of participants that leave the pool of src/lib/participants.c as it is: their state and
-- their steps.
use nimble_server_lib.Prelude.{
  ℕ, ◌<◌, ◌≡◌, refl, subst, ◌∙◌, sym, List, [], ◌∷◌, some, get_elem?, get_elem?_in_range, set,
  length, length-set, All,
}
use nimble_server_lib.External.{StepsLib}
use nimble_server_lib.Participant.{Participant, for_references, mark_as_leaving}
use nimble_server_lib.Participants.{Participants}
use nimble_server_lib.Participants.Slots.{Every, Every-set}
use nimble_server_lib.Participants.Inv.{IsValid}
use nimble_server_lib.AuthoritativeSteps.Slot.{Housed, replace-IsValid}
use nimble_server_lib.LocalParty.{waiting}

module _ {sl : StepsLib} where
  -- The participants of a game, in one of `m` parties each, in as many slots as before.
  pub record Members (m : ℕ) (ps : Participants sl) (qs : List (Participant sl)) : Type 0 where
    pub valid : IsValid (record ps { participants = qs })
    pub housed : Every (λ i p. Housed m p) qs
    pub slots : length qs ≡ length ps.participants

  -- A change that leaves the id, the use and the party.
  abbrev pub Mild : Participant sl → Participant sl → Type 0
  Mild p q = (q.id ≡ p.id) × (q.is_used ≡ p.is_used) × (q.in_party ≡ p.in_party)

  pub Members-set :
      (m : ℕ) (ps : Participants sl) (qs : List (Participant sl)) (i : ℕ) (p q : Participant sl)
      → Members m ps qs
      → get_elem? qs i ≡ some p
      → Mild p q
      → Members m ps (set qs i q)
  Members-set m ps qs i p q v at (id, used, party) = record {
    valid = replace-IsValid (record ps { participants = qs }) i p q v.valid at id used party;
    housed =
        Every-set (λ i p. Housed m p) qs i q v.housed
          (λ u. let (k, home, h) = v.housed i p at (sym used ∙ u) in (k, party ∙ home, h));
    slots = length-set qs i q ∙ v.slots;
  }

  -- The loop over references that stand in the array returns, and keeps the pool.
  pub for_references-Members :
      (f : Participant sl → Participant sl) (m : ℕ) (ps : Participants sl) (rs : List ℕ)
      (qs : List (Participant sl))
      → ((p : Participant sl) → Mild p (f p))
      → Members m ps qs
      → All (λ r. r < length qs) rs
      → (xs : List (Participant sl)) × (for_references f rs qs ≡ some xs) × Members m ps xs
  unfolding for_references
  for_references-Members f m ps [] qs mild v h = (qs, refl, v)
  for_references-Members f m ps (r ∷ rs) qs mild v (in_range, h) =
      let (p, at) = get_elem?_in_range qs r in_range in
      let next = Members-set m ps qs r p (f p) v at (mild p) in
      let (xs, done, w) =
        for_references-Members f m ps rs (set qs r (f p)) mild next
          (subst (λ n. All (λ r. r < n) rs) (sym (length-set qs r (f p))) h) in
      (xs, simp (at, done), w)

  pub waiting-Mild : (p : Participant sl) → Mild p (waiting p)
  waiting-Mild p = (refl, refl, refl)

  pub mark_as_leaving-Mild : (p : Participant sl) → Mild p (mark_as_leaving p)
  unfolding mark_as_leaving
  mark_as_leaving-Mild p = (refl, refl, refl)
