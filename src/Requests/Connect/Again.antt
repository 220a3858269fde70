-- ===== src/Requests/Connect/Again.antt =====
-- A client of src/lib/req_connect.c that repeats its request.
use nimble_server_lib.Prelude.{
  ℕ, zero, suc, ◌+◌, ◌<◌, ◌≡◌, ap, ◌∙◌, subst, ◌==◌, ◌&&◌, Bool, true, List, [], ◌∷◌, none, some,
  arith, get_elem?, get_elem?_in_range, get_elem?-lt-length, get_elem?-set_self, set, length, ◌⊎◌,
  Bool-cases, Option-cases, inl, inr,
}
use nimble_server_lib.External.{External, ConnectRequest}
use nimble_server_lib.CircularBuffer as Ring
use nimble_server_lib.TransportConnection
use nimble_server_lib.TransportConnection.{TransportConnection}
use nimble_server_lib.Server.{Server}
use nimble_server_lib.Requests.Connect.{
  find_existing_from, find_existing_connection_request, opened, connection_for,
}

module _ {e : External} where
  abbrev matches : TransportConnection e → ℕ → ℕ → Bool
  matches t transport_index request_id =
      t.is_used
      && (t.transport_index == transport_index && t.connected_from_connect_request_id == request_id)

  found_again :
      (start : ℕ) (ts : List (TransportConnection e)) (transport_index request_id j : ℕ)
      (t : TransportConnection e)
      → get_elem? ts j ≡ some t
      → matches t transport_index request_id ≡ true
      → (k : ℕ) × (found : ℕ) × (find_existing_from start ts transport_index request_id
          ≡ some found)
        × (found ≡ start + k)
        × (k < length ts)
  unfolding find_existing_from
  found_again start [] ti rq j t at m = absurd (cc)
  found_again start (x ∷ ts) ti rq zero t at m =
      let first : matches x ti rq ≡ true =
        ap (λ (y : TransportConnection e). matches y ti rq) {x = x} {y = t} (ground arith) ∙ m in
      (0, start, simp first, omega arith, omega arith)
  found_again start (x ∷ ts) ti rq (suc j) t at m = elim (Bool-cases (matches x ti rq)) [
    | inl hit ↦ (0, start, simp hit, omega arith, omega arith)
    | inr miss ↦
        let (k, found, is_found, e', small) = found_again (start + 1) ts ti rq j t at m in
        (suc k, found, simp (miss, is_found), omega (arith, e'), omega (arith, small))
  ]

  answered :
      (self : Server e) (ti secret i : ℕ) (request : ConnectRequest e.serialize.Version)
      → find_existing_connection_request self ti request.client_request_id ≡ some i
      → i < length self.transport_connections
      → (t : TransportConnection e) × (connection_for self ti secret request
          ≡ some (some (t, self)))
  unfolding connection_for
  answered self ti secret i request h small =
      let (t, at) = get_elem?_in_range self.transport_connections i small in
      (t, simp (connection_for, h, at))

  new_connection :
      Server e
      → ℕ
      → ℕ
      → ConnectRequest e.serialize.Version
      → TransportConnection e
      → TransportConnection e
  new_connection self ti secret request t =
      opened t (Ring.read self.free_transport_connection_list).0 ti secret request
        self.setup.max_game_state_octet_count

  with_new :
      Server e → ℕ → ℕ → ConnectRequest e.serialize.Version → TransportConnection e → Server e
  unfolding new_connection
  with_new self ti secret request t = record self {
    free_transport_connection_list = (Ring.read self.free_transport_connection_list).1;
    transport_connections =
        set self.transport_connections (Ring.read self.free_transport_connection_list).0
          (new_connection self ti secret request t);
  }

  -- The answer in each case.
  answers :
      (self : Server e) (ti secret : ℕ) (request : ConnectRequest e.serialize.Version)
      → ((i : ℕ) × (find_existing_connection_request self ti request.client_request_id ≡ some i)
          × (t : TransportConnection e) × (get_elem? self.transport_connections i ≡ some t)
          × (connection_for self ti secret request ≡ some (some (t, self))))
        ⊎ (connection_for self ti secret request ≡ none)
        ⊎ (connection_for self ti secret request ≡ some none)
        ⊎ ((t : TransportConnection e) × (get_elem? self.transport_connections
                (Ring.read self.free_transport_connection_list).0
              ≡ some t)
            × (connection_for self ti secret request
                ≡ some (
                    some (
                      new_connection self ti secret request t,
                      with_new self ti secret request t,
                    ))))
  unfolding connection_for new_connection with_new
  answers self ti secret request =
      elim (Option-cases (find_existing_connection_request self ti request.client_request_id)) [
        | inr (i, found) ↦ elim (Option-cases (get_elem? self.transport_connections i)) [
          | inl outside ↦ inr (inl (simp (connection_for, found, outside)))
          | inr (t, at) ↦ inl (i, found, t, at, simp (connection_for, found, at))
        ]
        | inl missing ↦ elim (Bool-cases (Ring.is_empty self.free_transport_connection_list)) [
          | inl empty ↦ inr (inr (inl (simp (connection_for, missing, empty))))
          | inr some_left ↦
              elim (Option-cases (
                get_elem? self.transport_connections
                  (Ring.read self.free_transport_connection_list).0)) [
                    | inl outside ↦ inr (inl (simp (connection_for, missing, some_left, outside)))
                    | inr (t, at) ↦
                        inr (inr (inr (t, at, simp (connection_for, missing, some_left, at))))
                  ]
        ]
      ]

  -- A connect request that was given a connection and is repeated, by the same transport index
  -- under the same request id, is given a connection again, and the server does not change: no
  -- second connection is taken.
  pub connect_again :
      (self self' : Server e) (transport_index secret secret' : ℕ)
      (request : ConnectRequest e.serialize.Version) (t : TransportConnection e)
      → connection_for self transport_index secret request ≡ some (some (t, self'))
      → (t' : TransportConnection e) × (connection_for self' transport_index secret' request
          ≡ some (some (t', self')))
  unfolding find_existing_connection_request opened TransportConnection.init new_connection with_new
  connect_again self self' ti secret secret' request t h = elim (answers self ti secret request) [
    | inl (i, found, t', at, done) ↦ subst Again (ground (arith, done, h)) (
        answered self ti secret' i request found
          (get_elem?-lt-length self.transport_connections i t' at))
    | inr (inl broken) ↦ absurd (ground (arith, broken, h))
    | inr (inr (inl full)) ↦ absurd (ground (arith, full, h))
    | inr (inr (inr (t', at, done))) ↦
        let ts = self.transport_connections in
        let id : ℕ = (Ring.read self.free_transport_connection_list).0 in
        let here =
          get_elem?-set_self ts id (new_connection self ti secret request t')
            (get_elem?-lt-length ts id t' at) in
        let (k, found, is_found, e', small) =
          found_again 0 (set ts id (new_connection self ti secret request t')) ti
            request.client_request_id id (new_connection self ti secret request t') here
            (ground arith) in
        subst Again (ground (arith, done, h)) (
          answered (with_new self ti secret request t') ti secret' found request is_found
            (omega (arith, e', small)))
  ]
    where
      Again : Server e → Type 0
      Again s =
          (t'' : TransportConnection e) × (connection_for s ti secret' request
            ≡ some (some (t'', s)))
