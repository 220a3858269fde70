-- ===== src/Safety/Join.antt =====
-- A request to join, in src/lib/req_game_join.c, keeps the server valid, if it is of one player or
-- comes with the secret of a party of as many participants.
use nimble_server_lib.Prelude.{
  ℕ, ◌<◌, ◌≡◌, refl, sym, subst, pos, true, false, List, [], ◌∷◌, some, arith, is_negative,
  get_elem?, get_elem?_in_range, get_elem?-lt-length, set, length, All, All-get, Bool-cases, inl,
  inr,
}
use nimble_server_lib.External.{External, StepsLib}
use nimble_server_lib.Participant.{Participant}
use nimble_server_lib.Participants.{Participants}
use nimble_server_lib.LocalParty.{LocalParty}
use nimble_server_lib.LocalParties.{LocalParties}
use nimble_server_lib.TransportConnection.{TransportConnection}
use nimble_server_lib.Server.{Server}
use nimble_server_lib.Requests.Join.{
  read_and_join_participants, reply_participants, join_local_party, answer_join, req_game_join,
}
use nimble_server_lib.Safety.Shapes.{
  Link, shape, shapes, link, links, length-links, links-set, get_elem?-links, get_elem?-shapes,
  ShapeValid, Opened, Opened-set,
}
use nimble_server_lib.Safety.Valid.{Tied}
use nimble_server_lib.Safety.Tied.{Tied-party, Tied-link}
use nimble_server_lib.Safety.Streams.{Sized}
use nimble_server_lib.Safety.Connect.{Kept, Answered}
use nimble_server_lib.Safety.Choose.{Chosen, join_local_party-Chosen}
use nimble_server_lib.Safety.Faults.{joinable, join_faults}

module _ {sl : StepsLib} where
  reply-returns :
      (ps : List (Participant sl)) (rs : List ℕ)
      → All (λ r. r < length ps) rs
      → (xs : List (ℕ × ℕ)) × (reply_participants ps rs ≡ some xs)
  unfolding reply_participants
  reply-returns ps [] h = ([], refl)
  reply-returns ps (r ∷ rs) (in_range, h) =
      let (p, at) = get_elem?_in_range ps r in_range in
      let (xs, rest) = reply-returns ps rs h in ((p.id, p.local_index) ∷ xs, simp (at, rest))

module _ {e : External} where
  answer_join-Kept :
      (self : Server e) (connection i : ℕ) (out : e.out.OutStream)
      → Kept self connection
      → i < length self.local_parties.parties
      → (self' : Server e) × (out' : e.out.OutStream) × (answer_join self connection i out
          ≡ some (self', out'))
        × Kept self' connection
  unfolding answer_join
  answer_join-Kept self connection i out k h =
      let ts = self.transport_connections in
      let parties = self.local_parties in
      let (p, here) = get_elem?_in_range parties.parties i h in
      let (l, linked, small) = k.is_open in
      let (c, at) =
        get_elem?_in_range ts connection
          (omega (arith, get_elem?-lt-length (links ts) connection l linked, length-links ts)) in
      answered p c here at (
        subst (λ (x : Link). x.id < 64) {x = l} {y = link c}
          (ground (arith, linked, get_elem?-links ts connection c at)) small)
    where
      answered :
          (p : LocalParty e.stats) (c : TransportConnection e)
          → get_elem? self.local_parties.parties i ≡ some p
          → get_elem? self.transport_connections connection ≡ some c
          → c.id < 64
          → (self' : Server e) × (out' : e.out.OutStream) × (answer_join self connection i out
              ≡ some (self', out'))
            × Kept self' connection
      answered p c here at small =
          let ts = self.transport_connections in
          let parties = self.local_parties in
          let ps = self.game.participants.participants in
          let valid =
            All-get (ShapeValid (length ps) (links ts)) (shapes parties.parties) i (shape p)
              k.valid.tied.shaped (get_elem?-shapes parties.parties i p here) in
          let (names, replied) = reply-returns ps p.participant_references valid.0 in
          let p' : LocalParty e.stats = record p {
            waiting_for_reconnect_max_timer = self.setup.max_waiting_for_reconnect_ticks;
          } in
          let c' : TransportConnection e = record c { assigned_party = some i } in
          let tied =
            Tied-party i p p' (Tied-link connection (link c') k.valid.tied small h) here refl in
          let self' : Server e = record self {
            local_parties = record parties { parties = set parties.parties i p' };
            transport_connections = set ts connection c';
          } in
          let out' : e.out.OutStream = e.serialize.out_join_game_response out (record {
            participants = names;
            party_id = p.id;
            session_secret = self.session_secret;
            participant_count = length p.participant_references;
          }) in
          (
            self',
            out',
            simp (here, at, replied),
            record {
              valid = record {
                tied =
                    subst (λ ls. Tied ls self'.local_parties self'.game.participants)
                      (sym (links-set ts connection c')) tied;
                free = k.valid.free;
              };
              is_open =
                  subst (λ ls. Opened ls connection) (sym (links-set ts connection c'))
                    (Opened-set (links ts) connection connection (link c') small k.is_open);
            },
          )

  -- On a valid server, the request to join that is read from the stream returns, and leaves the
  -- server valid, if it is one that the code can answer: of one player without a secret, or with the
  -- secret of a party that has as many participants as the request has players. If reading it fails
  -- that holds as well.
  pub req_game_join-Answered :
      (sized : Sized e) (self : Server e) (i : ℕ) (stream : e.input.InStream)
      (out : e.out.OutStream)
      → join_faults e self stream ≡ false
      → Kept self i
      → Answered sized i stream (req_game_join self i stream out)
  unfolding req_game_join read_and_join_participants join_faults
  req_game_join-Answered sized self i stream out answerable k =
      let (err, request, stream') = e.serialize.in_join_game_request stream in
      elim (Bool-cases (is_negative err)) [
        | inl bad ↦ (err, self, stream', out, simp bad, k, sized.of_join_request stream)
        | inr good ↦ answered good (
            join_local_party-Chosen self.local_parties self.game.participants
              self.transport_connections i request
              (e.steps.expected_write_id self.game.authoritative_steps) (may good) k.valid.tied
              k.is_open)
      ]
    where
      may :
          is_negative (e.serialize.in_join_game_request stream).0 ≡ false
          → joinable self.local_parties (e.serialize.in_join_game_request stream).1 ≡ true
      may good =
          elim (Bool-cases
            (joinable self.local_parties (e.serialize.in_join_game_request stream).1)) [
              | inl it_may ↦ it_may
              | inr it_may_not ↦
                  absurd (let x = simp (join_faults, good, it_may_not) at answerable in cc)
            ]

      with_answer : LocalParties e.stats → Participants e.steps → Server e
      with_answer ls ps = record self {
        local_parties = ls;
        game = record (self.game) { participants = ps };
      }

      kept :
          (ls : LocalParties e.stats) (ps : Participants e.steps)
          → Tied (links self.transport_connections) ls ps
          → Kept (with_answer ls ps) i
      kept ls ps t = record {
        valid = record { tied = t; free = k.valid.free };
        is_open = k.is_open;
      }

      answered :
          is_negative (e.serialize.in_join_game_request stream).0 ≡ false
          → Chosen (links self.transport_connections) (
              join_local_party {e = e} self.local_parties self.game.participants
                self.transport_connections i
                (e.serialize.in_join_game_request stream).1
                (e.steps.expected_write_id self.game.authoritative_steps))
          → Answered sized i stream (req_game_join self i stream out)
      answered good (result, out_party, ls, ps, run, t, inl bad) =
          let (err, request, stream') = e.serialize.in_join_game_request stream in
          (
            result,
            with_answer ls ps,
            stream',
            e.serialize.out_join_game_out_of_slots out request.nonce,
            simp (good, run, bad),
            kept ls ps t,
            sized.of_join_request stream,
          )
      answered good (result, out_party, ls, ps, run, t, inr (p, at, h)) =
          let (err, request, stream') = e.serialize.in_join_game_request stream in
          let (self', out', replied, k') =
            answer_join-Kept (with_answer ls ps) i p out (kept ls ps t) h in
          elim (Bool-cases (is_negative result)) [
            | inl bad ↦ (
              result,
              with_answer ls ps,
              stream',
              e.serialize.out_join_game_out_of_slots out request.nonce,
              simp (good, run, bad),
              kept ls ps t,
              sized.of_join_request stream,
            )
            | inr fine ↦ (
              pos 0,
              self',
              stream',
              out',
              simp (good, run, fine, at, replied),
              k',
              sized.of_join_request stream,
            )
          ]
