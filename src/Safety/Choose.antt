-- ===== src/Safety/Choose.antt =====
-- Which party a request to join is answered with, in src/lib/req_game_join.c.
use nimble_server_lib.Prelude.{
  ℕ, zero, suc, ◌+◌, ◌<◌, ◌≤◌, ◌≡◌, refl, subst, ℤ, pos, Bool, true, false, List, [], ◌∷◌, Option,
  none, some, arith, is_negative, get_elem?, get_elem?_in_range, get_elem?-lt-length, length, All,
  Some, Bool-cases, Option-cases, inl, inr, ◌⊎◌, ◌==◌, All-get, set, length-set,
}
use nimble_server_lib.External.{External, StatsLib, StepsLib, JoinGameRequest}
use nimble_server_lib.Participants.{Participants}
use nimble_server_lib.LocalParty
use nimble_server_lib.LocalParty.{LocalParty}
use nimble_server_lib.LocalParties.{
  LocalParties, create, find_party, is_for_transport, find_for_transport_from,
  find_party_for_transport,
}
use nimble_server_lib.LocalParties.Search.{find_party_for_transport_lem}
use nimble_server_lib.TransportConnection.{TransportConnection}
use nimble_server_lib.Requests.Join.{
  OutParty, Answer, create_party, rejoin_with_secret, join_local_party,
}
use nimble_server_lib.Safety.Shapes.{
  Link, shape, shapes, links, length-links, get_elem?-shapes, ShapeValid, Opened,
}
use nimble_server_lib.Safety.Valid.{Tied}
use nimble_server_lib.Safety.Tied.{Tied-replace, parties_count-le}
use nimble_server_lib.Safety.Faults.{joinable}
use nimble_server_lib.Safety.Created.{Creation, create-Creation}
use nimble_server_lib.Safety.Joinable.{OfOnePlayer, Rejoins, joinable_cases}

module _ {st : StatsLib} {sl : StepsLib} where
  -- What the choice of a party leaves: the parties and the participants tied, and the place of a
  -- party, unless the result is an error.
  abbrev pub Chosen : List Link → Option (Answer st sl) → Type 0
  Chosen ls run =
      (result : ℤ) × (out : OutParty) × (parties' : LocalParties st) × (ps' : Participants sl)
      × (run ≡ some (result, out, parties', ps'))
      × Tied ls parties' ps'
      × ((is_negative result ≡ true)
          ⊎ ((i : ℕ) × (out ≡ OutParty.party i) × (i < length parties'.parties)))

  create_party-Chosen :
      (ls : List Link) (parties : LocalParties st) (ps : Participants sl) (connection : ℕ)
      (request : JoinGameRequest) (step_id : ℕ)
      → OfOnePlayer request
      → Tied ls parties ps
      → Opened ls connection
      → Chosen ls (create_party parties ps connection request step_id)
  unfolding create_party
  create_party-Chosen ls parties ps connection request step_id (kind, one, player, players, its) t
        opened =
      chosen (create-Creation ls parties ps connection player players step_id t opened)
    where
      chosen :
          Creation ls parties.capacity_count
            (create parties ps connection (player ∷ players) step_id 1)
          → Chosen ls (create_party parties ps connection request step_id)
      chosen (result, made, parties', ps', run, t', inl bad) =
          (result, OutParty.null, parties', ps', simp (its, one, run, bad), t', inl bad)
      chosen (result, made, parties', ps', run, t', inr (i, placed, h)) =
          elim (Bool-cases (is_negative result)) [
            | inl bad ↦
                (result, OutParty.null, parties', ps', simp (its, one, run, bad), t', inl bad)
            | inr good ↦ (
              pos 0,
              OutParty.party i,
              parties',
              ps',
              simp (its, one, run, good, placed),
              t',
              inr (i, refl, h),
            )
          ]

  -- A party that is joined again takes the connection as its own.
  rejoin_with_secret-Chosen :
      (ls : List Link) (parties : LocalParties st) (ps : Participants sl) (connection : ℕ)
      (request : JoinGameRequest)
      → Rejoins parties request
      → Tied ls parties ps
      → Opened ls connection
      → Chosen ls (rejoin_with_secret parties ps connection request)
  unfolding rejoin_with_secret LocalParty.rejoin LocalParty.re_init
  rejoin_with_secret-Chosen ls parties ps connection request (kind, p, at, as_many) t opened =
      let i : ℕ = find_party parties request.party_id in
      let q : LocalParty st = LocalParty.rejoin p (some connection) in
      let valid =
        All-get (ShapeValid (length ps.participants) ls) (shapes parties.parties) i (shape p)
          t.shaped (get_elem?-shapes parties.parties i p at) in
      (
        pos 0,
        OutParty.party i,
        record parties { parties = set parties.parties i q },
        ps,
        simp (at, as_many),
        Tied-replace i parties.parties_count p q t at (valid.0, opened) refl,
        inr (
          i,
          refl,
          omega (arith, get_elem?-lt-length parties.parties i p at, length-set parties.parties i q),
        ),
      )

module _ {e : External} where
  is_for_transport-returns :
      (n : ℕ) (ts : List (TransportConnection e)) (id : ℕ) (p : LocalParty e.stats)
      → ShapeValid n (links ts) (shape p)
      → (hit : Bool) × (is_for_transport ts id p ≡ some hit)
  unfolding is_for_transport
  is_for_transport-returns n ts id p v = elim (Bool-cases p.is_used) [
    | inr unused ↦ (false, simp unused)
    | inl used ↦ elim (Option-cases p.transport_connection) [
      | inl alone ↦ (false, simp (used, alone))
      | inr (t, its) ↦
          let (l, linked, small) = subst (Some (Opened (links ts))) its v.1 in
          let (c, at) =
            get_elem?_in_range ts t
              (omega (arith, get_elem?-lt-length (links ts) t l linked, length-links ts)) in
          (c.transport_connection_id == id, simp (used, its, at))
    ]
  ]

  find_from-returns :
      (n : ℕ) (ts : List (TransportConnection e)) (id i count : ℕ) (ps : List (LocalParty e.stats))
      → All (ShapeValid n (links ts)) (shapes ps)
      → count ≤ length ps
      → (a : Option ℕ) × (find_for_transport_from ts id i count ps ≡ some a)
  unfolding find_for_transport_from
  find_from-returns n ts id i zero ps v h = (none, refl)
  find_from-returns n ts id i (suc count) [] v h = absurd (omega arith)
  find_from-returns n ts id i (suc count) (p ∷ ps) v h =
      let (hit, here) = is_for_transport-returns n ts id p v.0 in
      let (a, further) = find_from-returns n ts id (i + 1) count ps v.1 (omega arith) in
      elim (Bool-cases hit) [
        | inl found ↦ (some i, simp (here, found))
        | inr missed ↦ (a, simp (here, missed, further))
      ]

  pub join_local_party-Chosen :
      (parties : LocalParties e.stats) (ps : Participants e.steps)
      (ts : List (TransportConnection e)) (connection : ℕ) (request : JoinGameRequest) (step_id : ℕ)
      → joinable parties request ≡ true
      → Tied (links ts) parties ps
      → Opened (links ts) connection
      → Chosen (links ts) (join_local_party {e = e} parties ps ts connection request step_id)
  unfolding join_local_party find_party_for_transport
  join_local_party-Chosen parties ps ts connection request step_id may t (l, linked, small) =
      let (c, at) =
        get_elem?_in_range ts connection
          (omega (arith, get_elem?-lt-length (links ts) connection l linked, length-links ts)) in
      let (a, searched) =
        find_from-returns (length ps.participants) ts c.transport_connection_id 0
          parties.parties_count parties.parties t.shaped (parties_count-le t) in
      chosen c a at searched
    where
      chosen :
          (c : TransportConnection e) (a : Option ℕ)
          → get_elem? ts connection ≡ some c
          → find_for_transport_from ts c.transport_connection_id 0 parties.parties_count
              parties.parties
            ≡ some a
          → Chosen (links ts) (join_local_party {e = e} parties ps ts connection request step_id)
      chosen c (some i) at searched =
          let (j, place, before, p, here, hit) =
            find_party_for_transport_lem parties ts c.transport_connection_id (some i) searched in
          (
            pos 0,
            OutParty.party i,
            parties,
            ps,
            simp (join_local_party, find_party_for_transport, at, searched),
            t,
            inr (i, refl, omega (arith, place, get_elem?-lt-length parties.parties j p here)),
          )
      chosen c none at searched = elim (joinable_cases parties request may) [
        | inl one ↦ anew c one at searched (
            create_party-Chosen (links ts) parties ps connection request step_id one t
              (l, linked, small))
        | inr again ↦ rejoined c again at searched (
            rejoin_with_secret-Chosen (links ts) parties ps connection request again t
              (l, linked, small))
      ]
        where
          rejoined :
              (c : TransportConnection e)
              → Rejoins parties request
              → get_elem? ts connection ≡ some c
              → find_for_transport_from ts c.transport_connection_id 0 parties.parties_count
                  parties.parties
                ≡ some none
              → Chosen (links ts) (rejoin_with_secret parties ps connection request)
              → Chosen
                  (links ts)
                  (join_local_party {e = e} parties ps ts connection request step_id)
          rejoined c again at searched (result, out, parties', ps', run, t', made) = (
            result,
            out,
            parties',
            ps',
            simp (join_local_party, find_party_for_transport, at, searched, again.0, run),
            t',
            made,
          )

          anew :
              (c : TransportConnection e)
              → OfOnePlayer request
              → get_elem? ts connection ≡ some c
              → find_for_transport_from ts c.transport_connection_id 0 parties.parties_count
                  parties.parties
                ≡ some none
              → Chosen (links ts) (create_party parties ps connection request step_id)
              → Chosen
                  (links ts)
                  (join_local_party {e = e} parties ps ts connection request step_id)
          anew c one at searched (result, out, parties', ps', run, t', made) = (
            result,
            out,
            parties',
            ps',
            simp (join_local_party, find_party_for_transport, at, searched, one.0, run),
            t',
            made,
          )
