-- ===== src/Witnesses/Hosts.antt =====
-- Values for the tests of a server: libraries that do what is relied on, and a server that is valid.
use nimble_server_lib.Prelude.{
  ℕ, zero, suc, ◌<◌, ◌≤◌, ◌≡◌, refl, sym, subst, true, false, List, [], ◌∷◌, some, arith, All,
  Bool-cases, inl, inr, ◌==◌, length, replicate,
}
use nimble_server_lib.CircularBuffer.{CircularBuffer}
use nimble_server_lib.CircularBuffer as Ring
use nimble_server_lib.CircularBuffer.Fifo.{init_lem}
use nimble_server_lib.Participants
use nimble_server_lib.Participants.{Participants, write_ids}
use nimble_server_lib.Server.{Server}
use nimble_server_lib.Safety.Shapes.{link, links, LinkValid, Opened}
use nimble_server_lib.Safety.Valid.{RingValid, ServerValid}
use nimble_server_lib.Safety.Streams.{SizedInput}
use nimble_server_lib.Safety.Dispatch.{Reliable}
use nimble_server_lib.Witnesses.Pool.{crew-IsValid, crew-Housed}
use nimble_server_lib.Samples.{in_lib, head_or_zero, external, ring_memory, connection, server}

shorter : (s : List ℕ) → length (head_or_zero s).1 ≤ length s
shorter [] = omega arith
shorter (x ∷ s) = omega arith

taken : (s : List ℕ) → in_lib.at_end s ≡ false → length (head_or_zero s).1 < length s
taken [] h = absurd (ground (arith, h))
taken (x ∷ s) h = omega arith

abbrev sized_input : SizedInput in_lib
sized_input = record {
  size = length;
  of_octets = λ xs. omega arith;
  of_u8 = shorter;
  of_u8_before_end = taken;
  of_u16 = shorter;
  of_steps_header = λ s. omega arith;
  of_single_step = λ s id steps. omega arith;
  of_pending_header = λ s. omega arith;
}

in_order : (o : ℕ) (s : List ℕ) → length (external.ordered.ordered_in_receive o s).2 ≤ length s
in_order o s = elim (Bool-cases ((head_or_zero s).0 == o)) [
  | inl next ↦ simp next (shorter s)
  | inr late ↦ simp late (omega arith)
]

pub reliable : Reliable external
reliable = record {
  sized = record {
    input = sized_input;
    of_ordered = in_order;
    of_connect_request = shorter;
    of_join_request = shorter;
    of_blob = λ b s. omega arith;
  };
  write_adds = λ s id xs h. refl;
}

-- Each of 64 connections was opened from index 0 and is of party 0.
abbrev pub busy : Server external
busy = record server {
  transport_connections = replicate 64 (connection true 0 (some 0));
  free_transport_connection_list = Ring.init ring_memory;
}

links_valid :
    (n : ℕ) → All (LinkValid 2) (links {e = external} (replicate n (connection true 0 (some 0))))
links_valid zero = tt
links_valid (suc n) = ((λ u. omega arith, omega arith), links_valid n)

ring_valid : RingValid busy.free_transport_connection_list
ring_valid =
    let (valid, empty) = init_lem ring_memory refl in
    record { ring = valid; small = subst (All (λ i. i < 64)) (sym empty) tt }

pub busy-ServerValid : ServerValid busy
unfolding Participants.join Participants.joined Participants.init Participants.init_slots Ring.read
    write_ids Ring.write Ring.init
busy-ServerValid = record {
  tied = record {
    valid = crew-IsValid;
    housed = crew-Housed;
    connections = refl;
    linked = links_valid 64;
    shaped = (((omega arith, tt), opened), ((tt, opened), tt));
    counted = refl;
    capacity = refl;
    small = omega arith;
  };
  free = ring_valid;
}
  where
    opened : Opened (links {e = external} busy.transport_connections) 1
    opened = (link {e = external} (connection true 0 (some 0)), refl, omega arith)
