-- ===== src/Requests/Send.antt =====
-- src/lib/send_authoritative_steps.c and src/lib/transport_connection_stats.c: the reply to a
-- client's steps, and the statistics of its connection. The log is left out.
use nimble_server_lib.Prelude.{
  ℕ, ◌+◌, ℤ, pos, is_negative, ◌>>=◌, List, [], ◌∷◌, ◌++◌, Option, none, some, get_elem?, set, ltb,
  if◌then◌else◌, sub_u32, to_u8,
}
use nimble_server_lib.External.{External, PendingRange}
use nimble_server_lib.LocalParty.{LocalParty}
use nimble_server_lib.TransportConnection.{TransportConnection}
use nimble_server_lib.UpdateQuality.{to_int}

-- The ranges that are sent, if the client waits for nothing older than the oldest step kept: those
-- that the mask says are missing, and a range from the step waited for on, of 20 steps at most.
-- An error of the first search ends it.
module _ (e : External) where
  unfoldable pub continuation_range : ℕ → ℕ → List PendingRange
  continuation_range waiting_for write_id =
      let available : ℕ = sub_u32 write_id waiting_for in
      if ltb waiting_for write_id
      then record { start_id = waiting_for; count = if ltb 20 available then 20 else available }
        ∷ []
      else []

  unfoldable pub choose_ranges : e.steps.Steps → ℕ → ℕ → ℤ × List PendingRange
  unfolding continuation_range
  choose_ranges steps waiting_for receive_mask =
      let write_id : ℕ = e.steps.expected_write_id steps in
      let (result, ranges) = e.serialize.pending_ranges waiting_for write_id receive_mask 3 8 in
      if is_negative result
      then (result, [])
      else (pos 0, ranges ++ continuation_range waiting_for write_id)

  -- The counter is a `uint8_t`; past 8 it is only logged.
  unfoldable pub count_no_ranges : TransportConnection e → List PendingRange → TransportConnection e
  count_no_ranges t [] = record t {
    no_ranges_to_send_counter = to_u8 (t.no_ranges_to_send_counter + 1);
  }
  count_no_ranges t (r ∷ rs) = record t { no_ranges_to_send_counter = 0 }

  -- What the header says of the client's steps: the highest step received, the number in the
  -- buffer, and the distance to the authoritative steps as an `int8_t`.
  unfoldable pub buffer_report : List (LocalParty e.stats) → Option ℕ → ℕ → Option (ℕ × ℕ × ℕ)
  buffer_report parties none write_id = some (0, 0, 0)
  buffer_report parties (some i) write_id = do
    p ← get_elem? parties i
    some (
      p.highest_received_step_id,
      p.steps_in_buffer_count,
      to_u8 (sub_u32 p.highest_received_step_id write_id),
    )

  abbrev pub write_ranges :
      e.out.OutStream → e.steps.Steps → ℕ × ℕ × ℕ → List PendingRange → ℤ × e.out.OutStream
  write_ranges out steps (received, buffered, distance) ranges =
      let (err, out') = e.serialize.out_step_header out received buffered distance in
      if is_negative err then (err, out') else e.serialize.out_ranges out' steps ranges

  unfoldable pub send_step_ranges :
      e.out.OutStream
      → TransportConnection e
      → e.steps.Steps
      → List (LocalParty e.stats)
      → ℕ
      → ℕ
      → Option (ℤ × TransportConnection e × e.out.OutStream)
  unfolding choose_ranges count_no_ranges buffer_report
  send_step_ranges out t steps parties waiting_for receive_mask =
      if ltb waiting_for (e.steps.expected_read_id steps)
      then (let (result, out') = write_ranges out steps (0, 0, 0) [] in some (result, t, out'))
      else let (err, ranges) = choose_ranges steps waiting_for receive_mask in
        if is_negative err then some (err, t, out) else do
          report ← buffer_report parties t.assigned_party (e.steps.expected_write_id steps)
          let (result, out') = write_ranges out steps report ranges
          some (result, count_no_ranges t ranges, out')

  -- `nimbleServerTransportConnectionUpdateStats`; the statistics are shown every 3000th call.
  unfoldable pub update_party_stats :
      List (LocalParty e.stats) → Option ℕ → Option (List (LocalParty e.stats))
  update_party_stats parties none = some parties
  update_party_stats parties (some i) = do
    p ← get_elem? parties i
    let stats =
        e.stats.stats_add p.incoming_step_count_in_buffer_stats (to_int p.steps_in_buffer_count)
    some (set parties i (record p { incoming_step_count_in_buffer_stats = stats }))

  unfoldable pub update_stats :
      TransportConnection e
      → List (LocalParty e.stats)
      → e.steps.Steps
      → ℕ
      → Option (TransportConnection e × List (LocalParty e.stats))
  unfolding update_party_stats
  update_stats t parties steps waiting_for = do
    parties' ← update_party_stats parties t.assigned_party
    let behind : ℕ = sub_u32 (e.steps.expected_write_id steps) waiting_for
    some (
      record t { steps_behind_stats = e.stats.stats_add t.steps_behind_stats (to_int behind) },
      parties',
    )
