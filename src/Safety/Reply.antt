-- ===== src/Safety/Reply.antt =====
-- The replies to a client's steps, in src/lib/send_authoritative_steps.c and
-- src/lib/transport_connection_stats.c, stay within the arrays.
use nimble_server_lib.Prelude.{
  ℕ, ◌<◌, ◌≡◌, refl, ℤ, [], ◌∷◌, sub_u32, to_u8, List, Option, none, some, get_elem?_in_range, set,
  length, Some, Bool-cases, inl, inr, is_negative, ltb,
}
use nimble_server_lib.External.{External, PendingRange}
use nimble_server_lib.LocalParty.{LocalParty}
use nimble_server_lib.TransportConnection.{TransportConnection}
use nimble_server_lib.UpdateQuality.{to_int}
use nimble_server_lib.Requests.Send.{
  write_ranges, choose_ranges, count_no_ranges, buffer_report, send_step_ranges, update_party_stats,
  update_stats,
}
use nimble_server_lib.Safety.Shapes.{shapes, shapes-set_same, link}

module _ (e : External) where
  count_no_ranges-link :
      (t : TransportConnection e) (ranges : List PendingRange)
      → link (count_no_ranges e t ranges) ≡ link t
  unfolding count_no_ranges
  count_no_ranges-link t [] = refl
  count_no_ranges-link t (r ∷ rs) = refl

  buffer_report-returns :
      (parties : List (LocalParty e.stats)) (o : Option ℕ) (write_id : ℕ)
      → Some (λ i. i < length parties) o
      → (r : ℕ × ℕ × ℕ) × (buffer_report e parties o write_id ≡ some r)
  unfolding buffer_report
  buffer_report-returns parties none write_id h = ((0, 0, 0), refl)
  buffer_report-returns parties (some i) write_id h =
      let (p, at) = get_elem?_in_range parties i h in
      (
        (
          p.highest_received_step_id,
          p.steps_in_buffer_count,
          to_u8 (sub_u32 p.highest_received_step_id write_id),
        ),
        simp at,
      )

  -- The reply is made, and the connection keeps its id, its use and its party.
  pub send_step_ranges-link :
      (out : e.out.OutStream) (t : TransportConnection e) (steps : e.steps.Steps)
      (parties : List (LocalParty e.stats)) (waiting_for mask : ℕ)
      → Some (λ i. i < length parties) t.assigned_party
      → (result : ℤ) × (t' : TransportConnection e) × (out' : e.out.OutStream) × (send_step_ranges e
            out t steps parties waiting_for mask
          ≡ some (result, t', out'))
        × (link t' ≡ link t)
  unfolding send_step_ranges
  send_step_ranges-link out t steps parties waiting_for mask h =
      let (report, reported) =
        buffer_report-returns parties t.assigned_party (e.steps.expected_write_id steps) h in
      elim (Bool-cases (ltb waiting_for (e.steps.expected_read_id steps))) [
        | inl old ↦
            let (result, out') = write_ranges e out steps (0, 0, 0) [] in
            (result, t, out', simp old, refl)
        | inr recent ↦
            let (err, ranges) = choose_ranges e steps waiting_for mask in
            elim (Bool-cases (is_negative err)) [
              | inl bad ↦ (err, t, out, simp (recent, bad), refl)
              | inr good ↦
                  let (result, out') = write_ranges e out steps report ranges in
                  (
                    result,
                    count_no_ranges e t ranges,
                    out',
                    simp (recent, good, reported),
                    count_no_ranges-link t ranges,
                  )
            ]
      ]

  update_party_stats-shapes :
      (parties : List (LocalParty e.stats)) (o : Option ℕ)
      → Some (λ i. i < length parties) o
      → (parties' : List (LocalParty e.stats)) × (update_party_stats e parties o ≡ some parties')
        × (shapes parties' ≡ shapes parties)
  unfolding update_party_stats
  update_party_stats-shapes parties none h = (parties, refl, refl)
  update_party_stats-shapes parties (some i) h =
      let (p, at) = get_elem?_in_range parties i h in
      let p' : LocalParty e.stats = record p {
        incoming_step_count_in_buffer_stats =
            e.stats.stats_add p.incoming_step_count_in_buffer_stats
              (to_int p.steps_in_buffer_count);
      } in
      (set parties i p', simp at, shapes-set_same parties i p p' at refl)

  -- The statistics are taken, and neither the party nor the connection changes otherwise.
  pub update_stats-shapes :
      (t : TransportConnection e) (parties : List (LocalParty e.stats)) (steps : e.steps.Steps)
      (waiting_for : ℕ)
      → Some (λ i. i < length parties) t.assigned_party
      → (t' : TransportConnection e) × (parties' : List (LocalParty e.stats)) × (update_stats e t
            parties steps waiting_for
          ≡ some (t', parties'))
        × (link t' ≡ link t)
        × (shapes parties' ≡ shapes parties)
  unfolding update_stats
  update_stats-shapes t parties steps waiting_for h =
      let (parties', done, same) = update_party_stats-shapes parties t.assigned_party h in
      let behind : ℕ = sub_u32 (e.steps.expected_write_id steps) waiting_for in
      (
        record t { steps_behind_stats = e.stats.stats_add t.steps_behind_stats (to_int behind) },
        parties',
        simp done,
        refl,
        same,
      )
