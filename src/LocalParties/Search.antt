-- ===== src/LocalParties/Search.antt =====
-- `nimbleServerLocalPartiesFindPartyForTransport` of src/lib/local_parties.c.
use nimble_server_lib.Prelude.{
  ℕ, zero, suc, ◌+◌, ◌<◌, ◌≡◌, refl, subst, true, false, List, [], ◌∷◌, Option, none, some, arith,
  get_elem?, inl, inr, Option-cases,
}
use nimble_server_lib.External.{External}
use nimble_server_lib.TransportConnection.{TransportConnection}
use nimble_server_lib.LocalParty.{LocalParty}
use nimble_server_lib.LocalParties.{
  LocalParties, is_for_transport, find_for_transport_from, find_party_for_transport,
}

module _ {e : External} where
  -- What an answer says of the first `n` parties, which stand from index `start` on.
  abbrev pub Answers :
      List (TransportConnection e) → ℕ → ℕ → ℕ → List (LocalParty e.stats) → Option ℕ → Type 0
  Answers ts id start n ps none =
      (j : ℕ) (p : LocalParty e.stats)
      → j < n
      → get_elem? ps j ≡ some p
      → is_for_transport ts id p ≡ some false
  Answers ts id start n ps (some i) =
      (j : ℕ) × (i ≡ start + j)
      × (j < n)
      × (p : LocalParty e.stats) × (get_elem? ps j ≡ some p)
      × (is_for_transport ts id p ≡ some true)

  further_none :
      (ts : List (TransportConnection e)) (id start n : ℕ) (p : LocalParty e.stats)
      (ps : List (LocalParty e.stats))
      → is_for_transport ts id p ≡ some false
      → Answers ts id (start + 1) n ps none
      → Answers ts id start (suc n) (p ∷ ps) none
  further_none ts id start n p ps miss rest zero q l at =
      subst (λ x. is_for_transport ts id x ≡ some false) (ground arith) miss
  further_none ts id start n p ps miss rest (suc j) q l at = rest j q (omega arith) at

  further :
      (ts : List (TransportConnection e)) (id start n : ℕ) (p : LocalParty e.stats)
      (ps : List (LocalParty e.stats)) (a : Option ℕ)
      → is_for_transport ts id p ≡ some false
      → Answers ts id (start + 1) n ps a
      → Answers ts id start (suc n) (p ∷ ps) a
  further ts id start n p ps none miss rest = further_none ts id start n p ps miss rest
  further ts id start n p ps (some i) miss (j, at, l, q, here, hit) =
      (suc j, omega (arith, at), omega (arith, l), q, here, hit)

  find_from_lem :
      (ts : List (TransportConnection e)) (id start n : ℕ) (ps : List (LocalParty e.stats))
      (a : Option ℕ)
      → find_for_transport_from ts id start n ps ≡ some a
      → Answers ts id start n ps a
  unfolding find_for_transport_from
  find_from_lem ts id start zero ps none h = λ j p l at. absurd (omega arith)
  find_from_lem ts id start zero ps (some i) h = absurd (ground arith)
  find_from_lem ts id start (suc n) [] a h = absurd (ground arith)
  find_from_lem ts id start (suc n) (p ∷ ps) a h = elim (Option-cases (is_for_transport ts id p)) [
    | inl bad ↦ absurd (ground arith)
    | inr (true, hit) ↦
        subst (Answers ts id start (suc n) (p ∷ ps)) (found hit)
          (zero, omega arith, omega arith, p, refl, hit)
    | inr (false, miss) ↦
        further ts id start n p ps a miss (find_from_lem ts id (start + 1) n ps a (ground arith))
  ]
    where
      found : is_for_transport ts id p ≡ some true → some start ≡ a
      found hit = ground arith

  pub find_party_for_transport_lem :
      (ls : LocalParties e.stats) (ts : List (TransportConnection e)) (id : ℕ) (a : Option ℕ)
      → find_party_for_transport ls ts id ≡ some a
      → Answers ts id 0 ls.parties_count ls.parties a
  unfolding find_party_for_transport
  find_party_for_transport_lem ls ts id a h = find_from_lem ts id 0 ls.parties_count ls.parties a h
