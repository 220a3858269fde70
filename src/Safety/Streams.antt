-- ===== src/Safety/Streams.antt =====
-- What the loops over the octets of a datagram rely on in the streams of flood, and in those who
-- read them: reading goes forward.
use nimble_server_lib.Prelude.{ℕ, ◌<◌, ◌≤◌, ◌≡◌, false, List, length}
use nimble_server_lib.External.{External, StepsLib, InStreamLib}

-- The octets left of a stream. No reader adds to them, and reading an octet before the end of the
-- stream takes from them.
pub record SizedInput {sl : StepsLib} (in_lib : InStreamLib sl) : Type 0 where
  pub size : in_lib.InStream → ℕ
  pub of_octets : (xs : List ℕ) → size (in_lib.in_init xs) ≤ length xs
  pub of_u8 : (s : in_lib.InStream) → size (in_lib.read_u8 s).1 ≤ size s
  pub of_u8_before_end :
      (s : in_lib.InStream) → in_lib.at_end s ≡ false → size (in_lib.read_u8 s).1 < size s
  pub of_u16 : (s : in_lib.InStream) → size (in_lib.read_u16 s).1 ≤ size s
  pub of_steps_header : (s : in_lib.InStream) → size (in_lib.steps_in_header s).3 ≤ size s
  pub of_single_step :
      (s : in_lib.InStream) (id : ℕ) (steps : sl.Steps)
      → size (in_lib.steps_in_single s id steps).1 ≤ size s
  pub of_pending_header : (s : in_lib.InStream) → size (in_lib.pending_in_header s).3 ≤ size s

pub record Sized (e : External) : Type 0 where
  pub input : SizedInput e.input
  pub of_ordered :
      (o : e.ordered.OrderedIn) (s : e.input.InStream)
      → input.size (e.ordered.ordered_in_receive o s).2 ≤ input.size s
  pub of_connect_request :
      (s : e.input.InStream) → input.size (e.serialize.in_connect_request s).2 ≤ input.size s
  pub of_join_request :
      (s : e.input.InStream) → input.size (e.serialize.in_join_game_request s).2 ≤ input.size s
  pub of_blob :
      (b : e.blobs.BlobStreamLogicOut) (s : e.input.InStream)
      → input.size (e.blobs.logic_receive b s).2 ≤ input.size s
