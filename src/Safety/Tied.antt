-- ===== src/Safety/Tied.antt =====
-- What keeps the parties, the participants and the connections tied to one another.
use nimble_server_lib.Prelude.{
  ℕ, ◌+◌, ◌<◌, ◌≤◌, ◌≡◌, refl, ap, ◌∙◌, sym, subst, List, arith, length, length-set, All, All-set,
  Some, some, get_elem?, set, to_ℕ,
}
use nimble_server_lib.External.{StepsLib, StatsLib}
use nimble_server_lib.Participant.{Participant}
use nimble_server_lib.Participants.{Participants}
use nimble_server_lib.Participants.Slots.{Every}
use nimble_server_lib.Participants.Inv.{IsValid}
use nimble_server_lib.AuthoritativeSteps.Slot.{Housed}
use nimble_server_lib.LocalParty.{LocalParty}
use nimble_server_lib.LocalParties.{LocalParties}
use nimble_server_lib.Safety.Members.{Members}
use nimble_server_lib.Safety.Shapes.{
  Link, shape, shapes, length-shapes, shapes-set, get_elem?-shapes, shapes-set_same, used_shapes,
  used_shapes-set, used_shapes-le, LinkValid, ShapeValid, ShapeValid-set,
}
use nimble_server_lib.Safety.Valid.{Tied}

module _ {st : StatsLib} {sl : StepsLib} where
  pub Tied-Members :
      {ls : List Link} {parties : LocalParties st} {ps : Participants sl}
      → Tied ls parties ps
      → Members (length parties.parties) ps ps.participants
  Tied-Members t = record { valid = t.valid; housed = t.housed; slots = refl }

  -- Another pool of participants of as many slots.
  pub Tied-pool :
      {ls : List Link} {parties : LocalParties st} {ps : Participants sl} (qs : Participants sl)
      → Tied ls parties ps
      → IsValid qs
      → Every (λ i p. Housed (length parties.parties) p) qs.participants
      → length qs.participants ≡ length ps.participants
      → Tied ls parties qs
  Tied-pool {ls} {parties} qs t valid housed slots = record {
    valid = valid;
    housed = housed;
    connections = t.connections;
    linked = t.linked;
    shaped = subst (λ n. All (ShapeValid n ls) (shapes parties.parties)) (sym slots) t.shaped;
    counted = t.counted;
    capacity = t.capacity;
    small = t.small;
  }

  -- New participants in as many slots, each in a party.
  pub Tied-slots :
      {ls : List Link} {parties : LocalParties st} {ps : Participants sl}
      {qs : List (Participant sl)}
      → Tied ls parties ps
      → Members (length parties.parties) ps qs
      → Tied ls parties (record ps { participants = qs })
  Tied-slots t m = Tied-pool _ t m.valid m.housed m.slots

  -- The parties may change in what no other part relies on.
  pub Tied-parties :
      {ls : List Link} {parties : LocalParties st} {ps : Participants sl}
      {xs : List (LocalParty st)}
      → Tied ls parties ps
      → shapes xs ≡ shapes parties.parties
      → Tied ls (record parties { parties = xs }) ps
  Tied-parties {ls} {parties} {ps} {xs} t same = record {
    valid = t.valid;
    housed = subst (λ n. Every (λ i p. Housed n p) ps.participants) as_many t.housed;
    connections = t.connections;
    linked = subst (λ n. All (LinkValid n) ls) as_many t.linked;
    shaped = subst (All (ShapeValid (length ps.participants) ls)) (sym same) t.shaped;
    counted = t.counted ∙ ap used_shapes (sym same);
    capacity = sym as_many ∙ t.capacity;
    small = t.small;
  }
    where
      as_many : length parties.parties ≡ length xs
      as_many = sym (length-shapes parties.parties) ∙ ap length (sym same) ∙ length-shapes xs

  pub Tied-party :
      {ls : List Link} {parties : LocalParties st} {ps : Participants sl} (i : ℕ)
      (p q : LocalParty st)
      → Tied ls parties ps
      → get_elem? parties.parties i ≡ some p
      → shape q ≡ shape p
      → Tied ls (record parties { parties = set parties.parties i q }) ps
  Tied-party {ls} {parties} i p q t at same =
      Tied-parties t (shapes-set_same parties.parties i p q at same)

  -- A party whose shape is valid takes a place, and the count follows its use.
  pub Tied-replace :
      {ls : List Link} {parties : LocalParties st} {ps : Participants sl} (i count : ℕ)
      (p q : LocalParty st)
      → Tied ls parties ps
      → get_elem? parties.parties i ≡ some p
      → ShapeValid (length ps.participants) ls (shape q)
      → count + to_ℕ p.is_used ≡ parties.parties_count + to_ℕ q.is_used
      → Tied ls (record parties { parties = set parties.parties i q; parties_count = count }) ps
  Tied-replace {ls} {parties} {ps} i count p q t at valid counts = record {
    valid = t.valid;
    housed = subst (λ n. Every (λ i p. Housed n p) ps.participants) as_many t.housed;
    connections = t.connections;
    linked = subst (λ n. All (LinkValid n) ls) as_many t.linked;
    shaped = subst (All (ShapeValid (length ps.participants) ls)) (sym now) (
        All-set (ShapeValid (length ps.participants) ls) (shapes parties.parties) i (shape q)
          t.shaped valid);
    counted = omega (
      arith,
      counts,
      t.counted,
      ap used_shapes now,
      used_shapes-set (shapes parties.parties) i (shape p) (shape q)
          (get_elem?-shapes parties.parties i p at),
    );
    capacity = sym as_many ∙ t.capacity;
    small = t.small;
  }
    where
      now : shapes (set parties.parties i q) ≡ set (shapes parties.parties) i (shape q)
      now = shapes-set parties.parties i q

      as_many : length parties.parties ≡ length (set parties.parties i q)
      as_many = sym (length-set parties.parties i q)

  -- A connection changes, and keeps an id of a connection and a party in range.
  pub Tied-link :
      {ls : List Link} {parties : LocalParties st} {ps : Participants sl} (i : ℕ) (l : Link)
      → Tied ls parties ps
      → l.id < 64
      → Some (λ k. k < length parties.parties) l.party
      → Tied (set ls i l) parties ps
  Tied-link {ls} {parties} {ps} i l t small party = record {
    valid = t.valid;
    housed = t.housed;
    connections = length-set ls i l ∙ t.connections;
    linked = All-set (LinkValid (length parties.parties)) ls i l t.linked ((λ u. small), party);
    shaped = ShapeValid-set (length ps.participants) ls i l (shapes parties.parties) small t.shaped;
    counted = t.counted;
    capacity = t.capacity;
    small = t.small;
  }

  -- The parties in use are no more than the array holds.
  pub parties_count-le :
      {ls : List Link} {parties : LocalParties st} {ps : Participants sl}
      → Tied ls parties ps
      → parties.parties_count ≤ length parties.parties
  parties_count-le {ls} {parties} t =
      omega
        (arith, t.counted, used_shapes-le (shapes parties.parties), length-shapes parties.parties)
