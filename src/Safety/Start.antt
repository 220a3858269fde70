-- ===== src/Safety/Start.antt =====
-- A server that src/lib/server.c has set up, with a game, is valid.
use nimble_server_lib.Prelude.{
  ℕ, zero, suc, ◌+◌, ◌<◌, ◌≤◌, ◌^◌, ◌≡◌, refl, ap, sym, ◌∙◌, subst, false, List, [], ◌∷◌, map, none,
  arith, length, All,
}
use nimble_server_lib.External.{External, StatsLib}
use nimble_server_lib.CircularBuffer.{buffer_size}
use nimble_server_lib.Participants
use nimble_server_lib.Participants.{init_slots}
use nimble_server_lib.Participants.Fill.{kept, init-IsValid, init_slots-SlotValid}
use nimble_server_lib.Game
use nimble_server_lib.LocalParty
use nimble_server_lib.LocalParty.{LocalParty}
use nimble_server_lib.LocalParties
use nimble_server_lib.LocalParties.{init_parties}
use nimble_server_lib.TransportConnection.{TransportConnection}
use nimble_server_lib.Server.{Server, Setup, init, init_connections, re_init_with_game}
use nimble_server_lib.Server.Disconnect.{init_free_list}
use nimble_server_lib.Safety.Shapes.{Shape, Link, shapes, links, used_shapes, LinkValid, ShapeValid}
use nimble_server_lib.Safety.Valid.{ServerValid}

-- The memory of a server that is set up: 64 connections and two rings of 64 octets, and a party for
-- each connection allowed; fewer than 64 participants, and a number of parties that fits a `size_t`.
pub record Memory {e : External} (memory : Server e) (parties : List (LocalParty e.stats))
    (setup : Setup e) : Type 0 where
  pub connections : length memory.transport_connections ≡ 64
  pub free_connections : length memory.free_transport_connection_list.octets ≡ buffer_size
  pub free_ids : length memory.game.participants.free_list.octets ≡ buffer_size
  pub places : length parties ≡ setup.max_connection_count
  pub few_parties : setup.max_connection_count + 1 < 2 ^ 64
  pub few_participants : setup.max_participant_count < buffer_size

kept_small : (from n : ℕ) → from + n ≤ 64 → All (λ i. i < 64) (kept (λ _. false) from n)
kept_small from zero h = tt
kept_small from (suc n) h = (omega arith, kept_small (from + 1) n (omega arith))

-- A place that is not used, whose party has no participants and no connection.
abbrev pub empty_shape : Shape
empty_shape = record { used = false; refs = []; connection = none }

pub empty_lem :
    (n : ℕ) (ls : List Link) (ss : List Shape)
    → All (λ s. s ≡ empty_shape) ss
    → (used_shapes ss ≡ 0) × All (ShapeValid n ls) ss
empty_lem n ls [] h = (refl, tt)
empty_lem n ls (s ∷ ss) (same, h) =
    let (nobody, valid) = empty_lem n ls ss h in
    (
      omega (arith, nobody, ap (λ (x : Shape). used_shapes (x ∷ [])) same),
      (subst (ShapeValid n ls) (sym same) (tt, tt), valid),
    )

module _ {st : StatsLib} where
  pub shapes-init :
      (i : ℕ) (ps : List (LocalParty st))
      → All (λ s. s ≡ empty_shape) (shapes (map LocalParty.reset (init_parties i ps)))
  unfolding init_parties LocalParty.init LocalParty.re_init LocalParty.reset
  shapes-init i [] = tt
  shapes-init i (p ∷ ps) = (refl, shapes-init (i + 1) ps)

  pub length-init :
      (i : ℕ) (ps : List (LocalParty st))
      → length (map LocalParty.reset (init_parties i ps)) ≡ length ps
  unfolding init_parties
  length-init i [] = refl
  length-init i (p ∷ ps) = ap suc (length-init (i + 1) ps)

module _ {e : External} where
  pub init_connections-LinkValid :
      (m i : ℕ) (ts : List (TransportConnection e))
      → All (LinkValid m) (links (init_connections i ts))
  unfolding init_connections
  init_connections-LinkValid m i [] = tt
  init_connections-LinkValid m i (t ∷ ts) =
      ((λ u. absurd (cc), tt), init_connections-LinkValid m (i + 1) ts)

  pub length-init_connections :
      (i : ℕ) (ts : List (TransportConnection e))
      → length (links (init_connections i ts)) ≡ length ts
  unfolding init_connections
  length-init_connections i [] = refl
  length-init_connections i (t ∷ ts) = ap suc (length-init_connections (i + 1) ts)

  -- The server as a new host sets it up, with a game from a step id on.
  abbrev pub started : Server e → List (LocalParty e.stats) → Setup e → ℕ → ℕ → ℕ → Server e
  started memory parties setup step_id now clock =
      (re_init_with_game (init memory parties setup clock).1 step_id now clock).1

  -- In memory of the sizes of the source, with fewer than 64 participants, a server that is set up
  -- and gets a game is valid.
  pub started-ServerValid :
      (memory : Server e) (parties : List (LocalParty e.stats)) (setup : Setup e)
      (step_id now clock : ℕ)
      → Memory memory parties setup
      → ServerValid (started memory parties setup step_id now clock)
  unfolding init re_init_with_game LocalParties.init LocalParties.reset Game.init Participants.init
  started-ServerValid memory parties setup step_id now clock m =
      let self : Server e = started memory parties setup step_id now clock in
      let n : ℕ = length self.game.participants.participants in
      let ls = links self.transport_connections in
      let (nobody, shaped) =
        empty_lem n ls (shapes self.local_parties.parties) (shapes-init 0 parties) in
      let (ring, free) = init_free_list memory parties setup clock m.free_connections in
      record {
        tied = record {
          valid =
              (init-IsValid e.steps memory.game.participants.free_list setup.max_participant_count
                setup.max_single_participant_step_octet_count m.free_ids m.few_participants).0;
          housed = λ i p at u.
              let (_, unused) =
                init_slots-SlotValid e.steps setup.max_single_participant_step_octet_count 0
                  setup.max_participant_count (omega (arith, m.few_participants)) i p at in
              absurd (cc);
          connections = length-init_connections 0 memory.transport_connections ∙ m.connections;
          linked =
              init_connections-LinkValid (length self.local_parties.parties) 0
                memory.transport_connections;
          shaped = shaped;
          counted = sym nobody;
          capacity = length-init 0 parties ∙ m.places;
          small = m.few_parties;
        };
        free = record {
          ring = ring;
          small = subst (All (λ i. i < 64)) (sym free) (kept_small 1 63 (omega arith));
        };
      }
