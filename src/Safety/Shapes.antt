-- ===== src/Safety/Shapes.antt =====
-- What other parts rely on of a party of src/lib/local_parties.c and of a connection of
-- src/lib/transport_connection.c.
use nimble_server_lib.Prelude.{
  ℕ, zero, suc, ◌+◌, ◌<◌, ◌≤◌, ◌≡◌, refl, ap, ◌∙◌, sym, Bool, true, List, [], ◌∷◌, Option, none,
  some, arith, get_elem?, set, length, to_ℕ, All, Some, All-mono, get_elem?-set_self,
  get_elem?-set_ne, get_elem?-lt-length,
}
use native.Mathlib.Decide.{ℕ_discrete}
use nimble_server_lib.External.{External, StatsLib}
use nimble_server_lib.LocalParty.{LocalParty}
use nimble_server_lib.TransportConnection.{TransportConnection}

-- Of a party: whether it is in use, its participants and its connection.
pub record Shape : Type 0 where
  pub used : Bool
  pub refs : List ℕ
  pub connection : Option ℕ

-- Of a connection: its id, whether it is in use and its party.
pub record Link : Type 0 where
  pub id : ℕ
  pub used : Bool
  pub party : Option ℕ

module _ {st : StatsLib} where
  abbrev pub shape : LocalParty st → Shape
  shape p = record {
    used = p.is_used;
    refs = p.participant_references;
    connection = p.transport_connection;
  }

  abbrev pub shapes : List (LocalParty st) → List Shape
  shapes [] = []
  shapes (p ∷ ps) = shape p ∷ shapes ps

  pub length-shapes : (ps : List (LocalParty st)) → length (shapes ps) ≡ length ps
  length-shapes [] = refl
  length-shapes (p ∷ ps) = ap suc (length-shapes ps)

  pub shapes-set :
      (ps : List (LocalParty st)) (i : ℕ) (p : LocalParty st)
      → shapes (set ps i p) ≡ set (shapes ps) i (shape p)
  shapes-set [] i p = refl
  shapes-set (q ∷ ps) zero p = refl
  shapes-set (q ∷ ps) (suc i) p = ap (◌∷◌ (shape q)) (shapes-set ps i p)

  pub get_elem?-shapes :
      (ps : List (LocalParty st)) (i : ℕ) (p : LocalParty st)
      → get_elem? ps i ≡ some p
      → get_elem? (shapes ps) i ≡ some (shape p)
  get_elem?-shapes [] i p h = absurd (cc)
  get_elem?-shapes (q ∷ ps) zero p h = ap some (ap shape {x = q} {y = p} (ground arith))
  get_elem?-shapes (q ∷ ps) (suc i) p h = get_elem?-shapes ps i p h

  -- A party is replaced by one of the same shape.
  pub shapes-set_same :
      (ps : List (LocalParty st)) (i : ℕ) (p q : LocalParty st)
      → get_elem? ps i ≡ some p
      → shape q ≡ shape p
      → shapes (set ps i q) ≡ shapes ps
  shapes-set_same [] i p q h e = refl
  shapes-set_same (x ∷ ps) zero p q h e =
      ap (λ s. s ∷ shapes ps) (e ∙ ap shape {x = p} {y = x} (ground arith))
  shapes-set_same (x ∷ ps) (suc i) p q h e = ap (◌∷◌ (shape x)) (shapes-set_same ps i p q h e)

module _ {e : External} where
  abbrev pub link : TransportConnection e → Link
  link t = record { id = t.id; used = t.is_used; party = t.assigned_party }

  abbrev pub links : List (TransportConnection e) → List Link
  links [] = []
  links (t ∷ ts) = link t ∷ links ts

  pub length-links : (ts : List (TransportConnection e)) → length (links ts) ≡ length ts
  length-links [] = refl
  length-links (t ∷ ts) = ap suc (length-links ts)

  pub links-set :
      (ts : List (TransportConnection e)) (i : ℕ) (t : TransportConnection e)
      → links (set ts i t) ≡ set (links ts) i (link t)
  links-set [] i t = refl
  links-set (u ∷ ts) zero t = refl
  links-set (u ∷ ts) (suc i) t = ap (◌∷◌ (link u)) (links-set ts i t)

  pub get_elem?-links :
      (ts : List (TransportConnection e)) (i : ℕ) (t : TransportConnection e)
      → get_elem? ts i ≡ some t
      → get_elem? (links ts) i ≡ some (link t)
  get_elem?-links [] i t h = absurd (cc)
  get_elem?-links (u ∷ ts) zero t h = ap some (ap link {x = u} {y = t} (ground arith))
  get_elem?-links (u ∷ ts) (suc i) t h = get_elem?-links ts i t h

  pub links-set_same :
      (ts : List (TransportConnection e)) (i : ℕ) (t u : TransportConnection e)
      → get_elem? ts i ≡ some t
      → link u ≡ link t
      → links (set ts i u) ≡ links ts
  links-set_same [] i t u h same = refl
  links-set_same (x ∷ ts) zero t u h same =
      ap (λ l. l ∷ links ts) (same ∙ ap link {x = t} {y = x} (ground arith))
  links-set_same (x ∷ ts) (suc i) t u h same = ap (◌∷◌ (link x)) (links-set_same ts i t u h same)

-- The number of parties in use.
abbrev pub used_shapes : List Shape → ℕ
used_shapes [] = 0
used_shapes (s ∷ ss) = to_ℕ s.used + used_shapes ss

pub used_shapes-set :
    (ss : List Shape) (i : ℕ) (s s' : Shape)
    → get_elem? ss i ≡ some s
    → used_shapes (set ss i s') + to_ℕ s.used ≡ used_shapes ss + to_ℕ s'.used
used_shapes-set [] i s s' h = absurd (cc)
used_shapes-set (x ∷ ss) zero s s' h = ground arith
used_shapes-set (x ∷ ss) (suc i) s s' h = omega (arith, used_shapes-set ss i s s' h)

pub used_shapes-le : (ss : List Shape) → used_shapes ss ≤ length ss
used_shapes-le [] = omega arith
used_shapes-le (s ∷ ss) = ground (arith, used_shapes-le ss)

-- The connection at an index was opened: its id is the index of a connection.
abbrev pub Opened : List Link → ℕ → Type 0
Opened ls i = (l : Link) × (get_elem? ls i ≡ some l) × (l.id < 64)

-- A connection in use was opened, and its party stands among the `m` parties.
abbrev pub LinkValid : ℕ → Link → Type 0
LinkValid m l = (l.used ≡ true → l.id < 64) × Some (λ i. i < m) l.party

-- The participants of a party stand among the `n` participants, and its connection was opened.
abbrev pub ShapeValid : ℕ → List Link → Shape → Type 0
ShapeValid n ls s = All (λ r. r < n) s.refs × Some (Opened ls) s.connection

pub Opened-set :
    (ls : List Link) (i j : ℕ) (l : Link) → l.id < 64 → Opened ls j → Opened (set ls i l) j
Opened-set ls i j l small (l', at, h) = elim (ℕ_discrete i j) [
  | yes same ↦ (
    l,
    ap (get_elem? (set ls i l)) (sym same)
        ∙ get_elem?-set_self ls i l (omega (arith, get_elem?-lt-length ls j l' at, same)),
    small,
  )
  | no other ↦ (l', get_elem?-set_ne ls i j l other ∙ at, h)
]

pub ShapeValid-set :
    (n : ℕ) (ls : List Link) (i : ℕ) (l : Link) (ss : List Shape)
    → l.id < 64
    → All (ShapeValid n ls) ss
    → All (ShapeValid n (set ls i l)) ss
ShapeValid-set n ls i l ss small h =
    All-mono (ShapeValid n ls) (ShapeValid n (set ls i l)) ss
      (λ s v. (v.0, opened s.connection v.1)) h
  where
    opened : (o : Option ℕ) → Some (Opened ls) o → Some (Opened (set ls i l)) o
    opened none v = v
    opened (some j) v = Opened-set ls i j l small v
