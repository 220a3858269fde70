-- ===== src/CircularBuffer/Overrun.antt =====
-- What circular_buffer.c does past its bounds, where it logs an error and goes on.
use nimble_server_lib.Prelude.{ℕ, ◌+◌, ◌%◌, ◌≡◌, ap, true, [], ◌∷◌, get_or-set_self, arith}
use nimble_server_lib.CircularBuffer.{CircularBuffer, buffer_size, write, read, count}
use nimble_server_lib.CircularBuffer.Fifo.{IsValid, contents}

count-write_full :
    (b : CircularBuffer) (x : ℕ) → IsValid b → b.is_full ≡ true → count (write b x) ≡ 1
unfolding count write
count-write_full b x v h = ground (arith, v.full_at)

tail_lem : (b : CircularBuffer) → IsValid b → b.is_full ≡ true → (b.tail + 0) % buffer_size ≡ b.head
tail_lem b v h = omega (arith, v.full_at h)

-- A write to a full valid buffer forgets all 64 octets: the buffer then holds the new one alone.
pub write_full :
    (b : CircularBuffer) (x : ℕ) → IsValid b → b.is_full ≡ true → contents (write b x) ≡ x ∷ []
unfolding contents
write_full b x v h = rw (count-write_full b x v h) (
    unfold write in
    ap (λ y. y ∷ []) (rw (tail_lem b v h) (get_or-set_self b.octets b.head x 0 (omega arith))))

-- A read from an empty valid buffer leaves one that claims to hold 63 octets.
pub read_empty : (b : CircularBuffer) → IsValid b → count b ≡ 0 → count (read b).1 ≡ 63
unfolding count read
read_empty b v h = ground arith
