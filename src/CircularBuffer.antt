-- ===== src/CircularBuffer.antt =====
-- src/lib/circular_buffer.c and its header: the ring of 64 octets that keeps the free participant
-- ids and the free transport connection ids.
-- A function that updates `*self` returns the new buffer, beside what it returns.
pub mod Fifo
pub mod Overrun
use nimble_server_lib.Prelude.{
  ℕ, ◌+◌, ◌-◌, ◌%◌, Bool, true, false, ◌&&◌, not, List, set, get_or, leb, ◌==◌, if◌then◌else◌,
  sub_size, add_size,
}

-- NIMBLE_SERVER_CIRCULAR_BUFFER_SIZE
abbrev pub buffer_size : ℕ
buffer_size = 64

-- `octets` is the array `data`.
pub record CircularBuffer : Type 0 where
  pub octets : List ℕ
  pub head : ℕ
  pub tail : ℕ
  pub is_full : Bool

-- The array keeps what it held.
unfoldable pub init : CircularBuffer → CircularBuffer
init b = record b { head = 0; tail = 0; is_full = false }

-- A full buffer is logged and overwritten all the same.
unfoldable pub write : CircularBuffer → ℕ → CircularBuffer
write b x =
    let head' : ℕ = add_size b.head 1 % buffer_size in
    record b { octets = set b.octets b.head x; head = head'; is_full = head' == b.tail }

-- An empty buffer is logged and read all the same. The array has 64 octets and `tail` is below 64
-- (`Fifo.IsValid`), so the 0 of a read out of range is never seen.
unfoldable pub read : CircularBuffer → ℕ × CircularBuffer
read b =
    (get_or b.octets b.tail 0, record b { tail = add_size b.tail 1 % buffer_size; is_full = false })

unfoldable pub is_empty : CircularBuffer → Bool
is_empty b = b.head == b.tail && not b.is_full

unfoldable pub is_full : CircularBuffer → Bool
is_full b = b.is_full

unfoldable pub count : CircularBuffer → ℕ
count b =
    if b.is_full
    then buffer_size
    else if leb b.tail b.head
    then sub_size b.head b.tail
    else sub_size (add_size buffer_size b.head) b.tail
