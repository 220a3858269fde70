-- ===== src/Safety/Connect.antt =====
-- A request for a connection, in src/lib/req_connect.c, keeps the server valid.
use nimble_server_lib.Prelude.{
  ℕ, ◌+◌, ◌<◌, ◌≤◌, ◌≡◌, refl, sym, subst, ℤ, true, false, Bool, List, [], ◌∷◌, Option, none, some,
  arith, get_elem?, get_elem?_in_range, set, length, All-get, Bool-cases, Option-cases, inl, inr,
  is_negative, ◌&&◌, ◌==◌,
}
use nimble_server_lib.Errors.{err_serialize, err_serialize_version}
use nimble_server_lib.External.{External, ConnectRequest}
use nimble_server_lib.CircularBuffer as Ring
use nimble_server_lib.TransportConnection
use nimble_server_lib.TransportConnection.{TransportConnection}
use nimble_server_lib.Server.{Server}
use nimble_server_lib.Requests.Connect.{
  find_existing_from, find_existing_connection_request, opened, connection_for, req_connect,
}
use nimble_server_lib.Safety.Shapes.{
  Link, link, links, length-links, links-set, get_elem?-links, LinkValid, Opened, Opened-set,
}
use nimble_server_lib.Safety.Valid.{Tied, ServerValid}
use nimble_server_lib.Safety.Tied.{Tied-link}
use nimble_server_lib.Safety.Ring.{read-RingValid}
use nimble_server_lib.Safety.Streams.{Sized}

module _ {e : External} where
  found_in_range :
      (i : ℕ) (ts : List (TransportConnection e)) (index request j : ℕ)
      → find_existing_from i ts index request ≡ some j
      → j < i + length ts
  unfolding find_existing_from
  found_in_range i [] index request j h = absurd (cc)
  found_in_range i (t ∷ ts) index request j h =
      elim (Bool-cases (
        t.is_used
        && (t.transport_index == index && t.connected_from_connect_request_id == request))) [
          | inl here ↦ ground (arith, h, here)
          | inr further ↦
              omega (arith, found_in_range (i + 1) ts index request j (ground (arith, h, further)))
        ]

  opened-link :
      (t : TransportConnection e) (id index secret octets : ℕ)
      (request : ConnectRequest e.serialize.Version)
      → link (opened t id index secret request octets)
        ≡ record { id = id; used = true; party = t.assigned_party }
  unfolding opened TransportConnection.init
  opened-link t id index secret octets request = refl

  -- What stays of a valid server whose connection `i` was opened.
  pub record Kept (self : Server e) (i : ℕ) : Type 0 where
    pub valid : ServerValid self
    pub is_open : Opened (links self.transport_connections) i

  -- The answer to a request, found or taken from the free list.
  abbrev Served : ℕ → Option (Option (TransportConnection e × Server e)) → Type 0
  Served i run =
      (answer : Option (TransportConnection e × Server e)) × (run ≡ some answer)
      × ((t : TransportConnection e) (self' : Server e) → answer ≡ some (t, self') → Kept self' i)

  taken-Kept :
      (self : Server e) (i index secret : ℕ) (request : ConnectRequest e.serialize.Version)
      (t : TransportConnection e)
      → Kept self i
      → Ring.is_empty self.free_transport_connection_list ≡ false
      → get_elem? self.transport_connections (Ring.read self.free_transport_connection_list).0
        ≡ some t
      → Kept
          (record self {
            free_transport_connection_list = (Ring.read self.free_transport_connection_list).1;
            transport_connections =
                set self.transport_connections (Ring.read self.free_transport_connection_list).0 (
                  opened t
                    (Ring.read self.free_transport_connection_list).0
                    index
                    secret
                    request
                    self.setup.max_game_state_octet_count);
          })
          i
  taken-Kept self i index secret request t k left at =
      let (id, free_list) = Ring.read self.free_transport_connection_list in
      let (small, free) = read-RingValid self.free_transport_connection_list k.valid.free left in
      let ts = self.transport_connections in
      let t' : TransportConnection e =
        opened t id index secret request self.setup.max_game_state_octet_count in
      let fine =
        All-get (LinkValid (length self.local_parties.parties)) (links ts) id (link t)
          k.valid.tied.linked (get_elem?-links ts id t at) in
      let l : Link = record { id = id; used = true; party = t.assigned_party } in
      let now : set (links ts) id l ≡ links (set ts id t') =
        subst (λ x. set (links ts) id x ≡ links (set ts id t'))
          (opened-link t id index secret self.setup.max_game_state_octet_count request)
          (sym (links-set ts id t')) in
      record {
        valid = record {
          tied =
              subst (λ ls. Tied ls self.local_parties self.game.participants) now
                (Tied-link id l k.valid.tied small fine.1);
          free = free;
        };
        is_open = subst (λ ls. Opened ls i) now (Opened-set (links ts) id i l small k.is_open);
      }

  connection_for-Served :
      (self : Server e) (i index secret : ℕ) (request : ConnectRequest e.serialize.Version)
      → Kept self i
      → Served i (connection_for self index secret request)
  unfolding connection_for find_existing_connection_request
  connection_for-Served self i index secret request k =
      elim (Option-cases
        (find_existing_from 0 self.transport_connections index request.client_request_id)) [
          | inr (j, found) ↦
              let (t, at) = get_elem?_in_range self.transport_connections j (
                omega (
                  arith,
                  found_in_range 0 self.transport_connections index request.client_request_id j
                      found,
                )) in
              (
                some (t, self),
                simp (connection_for, find_existing_connection_request, found, at),
                λ t' self' same. subst (λ x. Kept x i) (ground (arith, same)) k,
              )
          | inl new ↦ elim (Bool-cases (Ring.is_empty self.free_transport_connection_list)) [
            | inl nobody ↦ (
              none,
              simp (connection_for, find_existing_connection_request, new, nobody),
              λ t' self' same. absurd (cc),
            )
            | inr left ↦
                let (id, free_list) = Ring.read self.free_transport_connection_list in
                let (small, free) =
                  read-RingValid self.free_transport_connection_list k.valid.free left in
                let (t, at) = get_elem?_in_range self.transport_connections id (
                  omega (
                    arith,
                    small,
                    k.valid.tied.connections,
                    length-links self.transport_connections,
                  )) in
                let t' : TransportConnection e =
                  opened t id index secret request self.setup.max_game_state_octet_count in
                let self₁ : Server e = record self {
                  free_transport_connection_list = free_list;
                  transport_connections = set self.transport_connections id t';
                } in
                (
                  some (t', self₁),
                  simp (connection_for, find_existing_connection_request, new, left, at),
                  λ t'' self' same.
                      subst (λ x. Kept x i) (ground (arith, same))
                        (taken-Kept self i index secret request t k left at),
                )
          ]
        ]

  -- What a request leaves that returns: a valid server, whose connection `i` was opened.
  abbrev pub Answered :
      Sized e
      → ℕ
      → e.input.InStream
      → Option (ℤ × Server e × e.input.InStream × e.out.OutStream)
      → Type 0
  Answered sized i stream run =
      (result : ℤ) × (self' : Server e) × (stream' : e.input.InStream) × (out' : e.out.OutStream)
      × (run ≡ some (result, self', stream', out'))
      × Kept self' i
      × (sized.input.size stream' ≤ sized.input.size stream)

  -- A request for a connection returns, and leaves the server valid.
  pub req_connect-Answered :
      (sized : Sized e) (self : Server e) (i index secret : ℕ) (stream : e.input.InStream)
      (out : e.out.OutStream)
      → Kept self i
      → Answered sized i stream (req_connect self index secret stream out)
  unfolding req_connect
  req_connect-Answered sized self i index secret stream out k =
      let (err, request, stream') = e.serialize.in_connect_request stream in
      let less = sized.of_connect_request stream in
      let same_version : Bool =
        e.serialize.version_is_equal self.application_version request.application_version in
      elim (Bool-cases (is_negative err)) [
        | inl bad ↦ (err_serialize_version, self, stream', out, simp bad, k, less)
        | inr good ↦ elim (Bool-cases same_version) [
          | inr other ↦ (err_serialize_version, self, stream', out, simp (good, other), k, less)
          | inl same ↦ answered good same (connection_for-Served self i index secret request k)
        ]
      ]
    where
      answered :
          is_negative (e.serialize.in_connect_request stream).0 ≡ false
          → e.serialize.version_is_equal self.application_version
              (e.serialize.in_connect_request stream).1.application_version
            ≡ true
          → Served i (connection_for self index secret (e.serialize.in_connect_request stream).1)
          → Answered sized i stream (req_connect self index secret stream out)
      answered good same (none, served, keeps) = (
        err_serialize,
        self,
        (e.serialize.in_connect_request stream).2,
        out,
        simp (good, same, served),
        k,
        sized.of_connect_request stream,
      )
      answered good same (some (t, self'), served, keeps) =
          let (err, request, stream') = e.serialize.in_connect_request stream in
          let (result, out') = e.serialize.out_connect_response out (record {
            use_debug_streams = t.use_debug_streams;
            connection_id = t.id;
            response_to_request_id = request.client_request_id;
          }) in
          (
            result,
            self',
            stream',
            out',
            simp (good, same, served),
            keeps t self' refl,
            sized.of_connect_request stream,
          )
