-- ===== src/Safety/Recount.antt =====
-- Where src/lib/server.c and src/lib/local_parties.c lose count of the parties: what follows when a
-- server gets a new game while it has parties.
use nimble_server_lib.Prelude.{
  length-set, set, All, All-get, pos, ◌==◌, ◌^◌, subst, ap, ℕ, zero, suc, ◌+◌, ◌<◌, ◌≡◌, refl,
  false, List, [], ◌∷◌, map, none, some, arith, get_elem?, length,
}
use nimble_server_lib.External.{External, StatsLib, JoinPlayer}
use nimble_server_lib.CircularBuffer.{buffer_size}
use nimble_server_lib.Participants
use nimble_server_lib.Participants.{Participants}
use nimble_server_lib.Participants.Fill.{init-IsValid}
use nimble_server_lib.Game
use nimble_server_lib.LocalParties.Create.{create_lem}
use nimble_server_lib.LocalParty
use nimble_server_lib.LocalParty.{LocalParty}
use nimble_server_lib.LocalParties
use nimble_server_lib.LocalParties.{
  LocalParties, create, find_free_from, is_for_transport, find_for_transport_from,
  find_party_for_transport,
}
use nimble_server_lib.TransportConnection.{TransportConnection}
use nimble_server_lib.Server.{Server, re_init_with_game}

module _ {st : StatsLib} where
  unused : (ps : List (LocalParty st)) → All (λ p. p.is_used ≡ false) (map LocalParty.reset ps)
  unfolding LocalParty.reset
  unused [] = tt
  unused (p ∷ ps) = (refl, unused ps)

  length-map-reset : (ps : List (LocalParty st)) → length (map LocalParty.reset ps) ≡ length ps
  length-map-reset [] = refl
  length-map-reset (p ∷ ps) = ap suc (length-map-reset ps)

  first_free :
      (ps : List (LocalParty st))
      → 0 < length ps
      → (i : ℕ) × (find_free_from 0 (map LocalParty.reset ps) ≡ some i)
  unfolding find_free_from LocalParty.reset
  first_free [] h = absurd (omega arith)
  first_free (p ∷ ps) h = (0, refl)

module _ {e : External} where
  find_from_overrun :
      (ts : List (TransportConnection e)) (id i n : ℕ) (ps : List (LocalParty e.stats))
      → length ps < n
      → ((j : ℕ) (p : LocalParty e.stats)
          → get_elem? ps j ≡ some p
          → is_for_transport ts id p ≡ some false)
      → find_for_transport_from ts id i n ps ≡ none
  unfolding find_for_transport_from
  find_from_overrun ts id i zero ps h miss = absurd (omega arith)
  find_from_overrun ts id i (suc n) [] h miss = refl
  find_from_overrun ts id i (suc n) (p ∷ ps) h miss =
      simp (miss 0 p refl, find_from_overrun ts id (i + 1) n ps (omega arith) (λ j. miss (suc j)))

  -- If more parties are counted than there are places, then the search for the party of a
  -- connection that has none reads past the array.
  pub find_party-overrun :
      (ls : LocalParties e.stats) (ts : List (TransportConnection e)) (id : ℕ)
      → length ls.parties < ls.parties_count
      → ((j : ℕ) (p : LocalParty e.stats)
          → get_elem? ls.parties j ≡ some p
          → is_for_transport ts id p ≡ some false)
      → find_party_for_transport ls ts id ≡ none
  unfolding find_party_for_transport
  find_party-overrun ls ts id h miss = find_from_overrun ts id 0 ls.parties_count ls.parties h miss

module _ {e : External} where
  -- Where one place of an array without used parties holds a party that is not of a connection, no
  -- party is.
  missed :
      (ts : List (TransportConnection e)) (tid : ℕ) (ps : List (LocalParty e.stats)) (i j : ℕ)
      (q p : LocalParty e.stats)
      → All (λ p. p.is_used ≡ false) ps
      → is_for_transport ts tid q ≡ some false
      → get_elem? (set ps i q) j ≡ some p
      → is_for_transport ts tid p ≡ some false
  unfolding is_for_transport
  missed ts tid [] i j q p h miss at = absurd (cc)
  missed ts tid (x ∷ ps) zero zero q p h miss at =
      subst (λ (y : LocalParty e.stats). is_for_transport ts tid y ≡ some false) {x = q} {y = p}
        (ground (arith, at)) miss
  missed ts tid (x ∷ ps) zero (suc j) q p (free, h) miss at =
      simp (All-get (λ (y : LocalParty e.stats). y.is_used ≡ false) ps j p h at)
  missed ts tid (x ∷ ps) (suc i) zero q p (free, h) miss at =
      subst (λ (y : LocalParty e.stats). is_for_transport ts tid y ≡ some false) {x = x} {y = p}
        (ground (arith, at)) (simp free)
  missed ts tid (x ∷ ps) (suc i) (suc j) q p (free, h) miss at = missed ts tid ps i j q p h miss at

  -- A server each of whose places is counted, that gets a new game and then a party, counts one
  -- party more than it has places: if the party's connection has another id, then the search for
  -- the party of a connection with an id reads past the array.
  pub re_init-overrun :
      (self : Server e) (step_id now clock connection tid : ℕ) (player : JoinPlayer)
      (ts : List (TransportConnection e)) (c : TransportConnection e)
      → self.local_parties.parties_count ≡ length self.local_parties.parties
      → 0 < length self.local_parties.parties
      → length self.local_parties.parties + 1 < 2 ^ 64
      → length self.game.participants.free_list.octets ≡ buffer_size
      → 0 < self.setup.max_participant_count
      → self.setup.max_participant_count < buffer_size
      → get_elem? ts connection ≡ some c
      → (c.transport_connection_id == tid) ≡ false
      → (made : ℕ) × (ls : LocalParties e.stats) × (ps : Participants e.steps) × (create
            (re_init_with_game self step_id now clock).1.local_parties
            (re_init_with_game self step_id now clock).1.game.participants
            connection
            (player ∷ [])
            step_id
            1
          ≡ some (pos 0, some made, ls, ps))
        × (find_party_for_transport ls ts tid ≡ none)
  unfolding re_init_with_game Game.init Participants.init LocalParties.reset is_for_transport
  re_init-overrun self step_id now clock connection tid player ts c counted some_place small ring
        some_slot few at other =
      let after : Server e = (re_init_with_game self step_id now clock).1 in
      let ps = self.local_parties.parties in
      let (valid, nobody) =
        init-IsValid e.steps self.game.participants.free_list self.setup.max_participant_count
          self.setup.max_single_participant_step_octet_count ring few in
      let (i, found) = first_free ps some_place in
      let (id, ls, qs, run, before, placed, joins) =
        create_lem after.local_parties after.game.participants connection player [] step_id i found
          valid (omega (arith, nobody, some_slot)) in
      (
        i,
        ls,
        qs,
        run,
        find_party-overrun ls ts tid
            (omega (
              arith,
              placed.more,
              counted,
              ap length placed.rest,
              length-set (map LocalParty.reset ps) i placed.party,
              length-map-reset ps,
              small,
            ))
            (λ j p here.
              missed ts tid (map LocalParty.reset ps) i j placed.party p (unused ps)
                (simp (is_for_transport, placed.in_use, placed.its_connection, at, other))
                (subst (λ xs. get_elem? xs j ≡ some p) placed.rest here)),
      )
