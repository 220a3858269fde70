-- ===== src/Safety/Dispatch.antt =====
-- The commands of a datagram, in src/lib/server.c, keep the server valid.
use nimble_server_lib.Prelude.{
  ℕ, ◌<◌, ◌≤◌, ◌≡◌, ◌>>=◌, refl, sym, subst, ℤ, ◌++◌, Option, none, some, arith, get_elem?,
  get_elem?_in_range, get_elem?-lt-length, length, Some, All-get, Bool-cases, inl, inr, ◌==◌, ◌⊎◌,
  false,
}
use nimble_server_lib.External.{External}
use nimble_server_lib.AuthoritativeSteps.Loop.{WriteAdds}
use nimble_server_lib.TransportConnection.{TransportConnection}
use nimble_server_lib.Server.{Server}
use nimble_server_lib.Requests.Step.{req_game_step, StepReply}
use nimble_server_lib.Requests.Download.{req_download_game_state}
use nimble_server_lib.Requests.Connect.{req_connect}
use nimble_server_lib.Requests.Join.{req_game_join}
use nimble_server_lib.Feed.{Session, Handled, with_connection, handle_step, dispatch}
use nimble_server_lib.Safety.Shapes.{
  link, links, length-links, get_elem?-links, links-set_same, LinkValid, Opened,
}
use nimble_server_lib.Safety.Valid.{Tied}
use nimble_server_lib.Safety.Streams.{Sized}
use nimble_server_lib.Safety.Step.{Stepped, req_game_step-Stepped}
use nimble_server_lib.Safety.Connect.{Kept, Answered, req_connect-Answered}
use nimble_server_lib.Safety.Join.{req_game_join-Answered}
use nimble_server_lib.Safety.Faults.{is_unset, download_faults, dispatch_faults}
use nimble_server_lib.Safety.Download.{req_download_game_state-Streams}
use nimble_server_lib.Safety.Sending.{Streams}

-- What the commands rely on in the libraries: reading goes forward, and a write of a step that
-- succeeds adds one step.
pub record Reliable (e : External) : Type 0 where
  pub sized : Sized e
  pub write_adds : WriteAdds e.steps

module _ (e : External) where
  -- The connection changes, and keeps its id, its use and its party.
  pub with_connection-Kept :
      (self : Server e) (i j : ℕ) (t t' : TransportConnection e)
      → Kept self i
      → get_elem? self.transport_connections j ≡ some t
      → link t' ≡ link t
      → Kept (with_connection e self j t') i
  with_connection-Kept self i j t t' k at same =
      let now = links-set_same self.transport_connections j t t' at same in
      record {
        valid = record {
          tied =
              subst (λ ls. Tied ls self.local_parties self.game.participants) (sym now)
                k.valid.tied;
          free = k.valid.free;
        };
        is_open = subst (λ ls. Opened ls i) (sym now) k.is_open;
      }

  -- A connection that was opened stands in the array.
  pub Kept-connection :
      (self : Server e) (i : ℕ)
      → Kept self i
      → (t : TransportConnection e) × (get_elem? self.transport_connections i ≡ some t)
  Kept-connection self i k =
      let (l, linked, small) = k.is_open in
      get_elem?_in_range self.transport_connections i (
        omega (
          arith,
          get_elem?-lt-length (links self.transport_connections) i l linked,
          length-links self.transport_connections,
        ))

  -- A blob stream that is not unset.
  pub is_unset-cases :
      (o : Option e.blobs.BlobStreamLogicOut)
      → is_unset e o ≡ false
      → (logic : e.blobs.BlobStreamLogicOut) × (o ≡ some logic)
  unfolding is_unset
  is_unset-cases none h = absurd (cc)
  is_unset-cases (some logic) h = (logic, refl)

  download_cases :
      (t : TransportConnection e) (stream : e.input.InStream)
      → download_faults e t stream ≡ false
      → (((e.input.read_u8 stream).0 == t.blob_stream_out_client_request_id) ≡ false)
        ⊎ ((logic : e.blobs.BlobStreamLogicOut) × (t.blob_stream_logic_out ≡ some logic))
  unfolding download_faults
  download_cases t stream sound =
      elim (Bool-cases ((e.input.read_u8 stream).0 == t.blob_stream_out_client_request_id)) [
        | inr new ↦ inl new
        | inl again ↦
            inr (is_unset-cases t.blob_stream_logic_out (simp (download_faults, again) at sound))
      ]

module _ (e : External) (reliable : Reliable e) where
  -- What is left of the session, with no more of the datagram to read than before.
  pub record Left (i : ℕ) (s s' : Session e) : Type 0 where
    pub kept : Kept s'.server i
    pub less : reliable.sized.input.size s'.stream ≤ reliable.sized.input.size s.stream

  abbrev pub HandledLeft : ℕ → Session e → Handled e → Type 0
  HandledLeft i s run =
      (handled : Option ℤ) × (s' : Session e) × (out : e.out.OutStream) × (run
        ≡ some (handled, s', out))
      × Left i s s'

  handle_step-Left :
      (s : Session e) (i : ℕ) (t : TransportConnection e) (out : e.out.OutStream)
      → Kept s.server i
      → get_elem? s.server.transport_connections i ≡ some t
      → HandledLeft i s (handle_step e s i t out)
  unfolding handle_step
  handle_step-Left s i t out k at =
      let self = s.server in
      let r : StepReply e = record {
        intake = record {
          game = self.game;
          parties = self.local_parties.parties;
          stream = s.stream;
        };
        connection = t;
        per_second = self.authoritative_steps_per_second_stat;
        out = out;
      } in
      let ls = links self.transport_connections in
      let valid =
        All-get (LinkValid (length self.local_parties.parties)) ls i (link t) k.valid.tied.linked
          (get_elem?-links self.transport_connections i t at) in
      stepped (
        req_game_step-Stepped e reliable.sized ls self.local_parties r reliable.write_adds
          k.valid.tied
          (subst (λ n. Some (λ j. j < n) t.assigned_party) k.valid.tied.capacity valid.1))
    where
      r : StepReply e
      r = record {
        intake = record {
          game = s.server.game;
          parties = s.server.local_parties.parties;
          stream = s.stream;
        };
        connection = t;
        per_second = s.server.authoritative_steps_per_second_stat;
        out = out;
      }

      stepped :
          Stepped e reliable.sized
            (links s.server.transport_connections)
            s.server.local_parties
            r
            (req_game_step e r)
          → HandledLeft i s (handle_step e s i t out)
      stepped (result, r', run, tied, same, less) =
          let self' = record (with_connection e s.server i r'.connection) {
            game = r'.intake.game;
            local_parties = record (s.server.local_parties) { parties = r'.intake.parties };
            authoritative_steps_per_second_stat = r'.per_second;
          } in
          let now = links-set_same s.server.transport_connections i t r'.connection at same in
          (
            some result,
            record s { server = self'; stream = r'.intake.stream },
            r'.out,
            simp run,
            record {
              kept = record {
                valid = record {
                  tied =
                      subst (λ ls. Tied ls self'.local_parties self'.game.participants) (sym now)
                        tied;
                  free = k.valid.free;
                };
                is_open = subst (λ ls. Opened ls i) (sym now) k.is_open;
              };
              less = less;
            },
          )

  Answered-Left :
      (s : Session e) (i : ℕ) (run : Option (ℤ × Server e × e.input.InStream × e.out.OutStream))
      → Answered reliable.sized i s.stream run
      → HandledLeft i s (do
        (result, self, stream, out) ← run
        some (some result, record s { server = self; stream = stream }, out))
  Answered-Left s i run (result, self', stream', out', done, k, less) = (
    some result,
    record s { server = self'; stream = stream' },
    out',
    simp done,
    record { kept = k; less = less },
  )

  -- A download that was answered, on the connection.
  downloaded :
      (s : Session e) (i : ℕ) (t : TransportConnection e) (out : e.out.OutStream)
      → Kept s.server i
      → get_elem? s.server.transport_connections i ≡ some t
      → (client_time now : ℕ)
      → Streams e reliable.sized t s.stream (
          req_download_game_state e t s.stream s.server.setup.serialize_authoritative_state
            client_time now)
      → HandledLeft i s (do
        ((result, t', sent), stream) ←
            req_download_game_state e t s.stream s.server.setup.serialize_authoritative_state
              client_time now
        some (
          some result,
          record {
            server = with_connection e s.server i t';
            stream = stream;
            sent = s.sent ++ sent;
          },
          out,
        ))
  downloaded s i t out k at client_time now ((result, t', sent), stream, run, same, less) = (
    some result,
    record { server = with_connection e s.server i t'; stream = stream; sent = s.sent ++ sent },
    out,
    simp run,
    record { kept = with_connection-Kept e s.server i i t t' k at same; less = less },
  )

  pub dispatch-Left :
      (s : Session e) (i : ℕ) (t : TransportConnection e) (cmd client_time secret now : ℕ)
      (out : e.out.OutStream)
      → Kept s.server i
      → get_elem? s.server.transport_connections i ≡ some t
      → dispatch_faults e s t cmd ≡ false
      → HandledLeft i s (dispatch e s i t cmd client_time secret now out)
  unfolding dispatch dispatch_faults
  dispatch-Left s i t cmd client_time secret now out k at sound =
      elim (Bool-cases (cmd == e.serialize.cmd_connect_request)) [
        | inl connects ↦ simp connects (
            Answered-Left s i (req_connect s.server i secret s.stream out)
              (req_connect-Answered reliable.sized s.server i i secret s.stream out k))
        | inr other ↦ elim (Bool-cases (cmd == e.serialize.cmd_game_step)) [
          | inl steps ↦ simp (other, steps) (handle_step-Left s i t out k at)
          | inr other' ↦ elim (Bool-cases (cmd == e.serialize.cmd_join_game_request)) [
            | inl joins ↦
                simp (other, other', joins)
                  (Answered-Left s i (req_game_join s.server i s.stream out) (
                    req_game_join-Answered reliable.sized s.server i s.stream out
                      (simp (dispatch_faults, joins) at sound) k))
            | inr other'' ↦ elim (Bool-cases (cmd == e.serialize.cmd_download_game_state_request)) [
              | inl downloads ↦
                  simp (other, other', other'', downloads)
                    (downloaded s i t out k at client_time now (
                      req_download_game_state-Streams e reliable.sized t s.stream
                        s.server.setup.serialize_authoritative_state client_time now
                        (download_cases e t s.stream
                          (simp (dispatch_faults, other'', downloads) at sound))))
              | inr unknown ↦
                  simp (other, other', other'', unknown)
                    (none, s, out, refl, record { kept = k; less = omega arith })
            ]
          ]
        ]
      ]
