-- ===== src/Safety/Update.antt =====
-- A call of `nimbleServerUpdate` of src/lib/server.c keeps the server valid.
use nimble_server_lib.Prelude.{
  ℕ, zero, suc, ◌+◌, ◌%◌, ◌^◌, ◌<◌, ◌≡◌, refl, ℤ, pos, List, [], ◌∷◌, ◌++◌, Option, some, length,
  All, false, Bool-cases, inl, inr, is_negative, to_u8,
}
use nimble_server_lib.External.{External}
use nimble_server_lib.Server.{Server}
use nimble_server_lib.UpdateQuality
use nimble_server_lib.Feed.{Incoming, read_from, read_from_multi_transport, update}
use nimble_server_lib.Safety.Valid.{ServerValid}
use nimble_server_lib.Safety.Tick.{tick_parties-ServerValid}
use nimble_server_lib.Safety.Dispatch.{Reliable}
use nimble_server_lib.Safety.Feed.{both_false, feed-ServerValid}
use nimble_server_lib.Safety.Faults.{feed_faults, read_faults, update_faults}

-- A datagram that the fuel is enough for.
abbrev pub Fits : ℕ → Incoming → Type 0
Fits fuel Incoming.nothing = Unit
Fits fuel (Incoming.failed err) = Unit
Fits fuel (Incoming.datagram i octets) = length octets < fuel

module _ (e : External) (reliable : Reliable e) where
  -- What a call leaves: a valid server.
  abbrev pub Updated : Option (ℤ × Server e × List (List ℕ)) → Type 0
  Updated run =
      (result : ℤ) × (self : Server e) × (sent : List (List ℕ)) × (run ≡ some (result, self, sent))
      × ServerValid self

  -- The server after the measurement of its update quality.
  abbrev measured : Server e → ℕ → Server e
  measured self clock = record self {
    update_quality = (UpdateQuality.tick self.update_quality clock).1;
  }

  read_from-Updated :
      (n : ℕ) (self : Server e) (incoming : List Incoming) (fuel secret now : ℕ)
      → ServerValid self
      → All (Fits fuel) incoming
      → read_faults e n self incoming fuel secret now ≡ false
      → Updated (read_from e n self incoming fuel secret now)
  unfolding read_from read_faults
  read_from-Updated zero self incoming fuel secret now v h sound = (pos 0, self, [], refl, v)
  read_from-Updated (suc n) self [] fuel secret now v h sound = (pos 0, self, [], refl, v)
  read_from-Updated (suc n) self (Incoming.nothing ∷ rest) fuel secret now v h sound =
      (pos 0, self, [], refl, v)
  read_from-Updated (suc n) self (Incoming.failed err ∷ rest) fuel secret now v h sound =
      (err, self, [], refl, v)
  read_from-Updated (suc n) self (Incoming.datagram i octets ∷ rest) fuel secret now v (fits, h)
        sound =
      let (here, later) = both_false (feed_faults e self (to_u8 i) octets fuel secret now) sound in
      let (err, s, run, valid) =
        feed-ServerValid e reliable self (to_u8 i) octets fuel secret now v fits here in
      elim (Bool-cases (is_negative err)) [
        | inl bad ↦ (err, s.server, s.sent, simp (run, bad), valid)
        | inr good ↦
            let (result, self', sent, further, valid') =
              read_from-Updated n s.server rest fuel secret now valid h
                (simp (run, good) at later) in
            (result, self', s.sent ++ sent, simp (run, good, further), valid')
      ]

  -- If reading goes forward and a write of a step that succeeds adds one step, then a call of update
  -- on a valid server returns, where each datagram has fewer octets than the fuel and no command that
  -- is reached asks for what was never set: a blob stream that was never initialized is not used, and
  -- a request to join is of one player, or comes with the secret of a party that has as many
  -- participants. No array is left by the ticks of the parties or by any of the datagrams, and the
  -- server is valid afterwards, whatever the result.
  pub update-ServerValid :
      (self : Server e) (now clock : ℕ) (incoming : List Incoming) (fuel secret : ℕ)
      → ServerValid self
      → All (Fits fuel) incoming
      → update_faults e self clock incoming fuel secret ≡ false
      → Updated (update e self now clock incoming fuel secret)
  unfolding update read_from_multi_transport update_faults
  update-ServerValid self now clock incoming fuel secret v h sound =
      let self₁ : Server e = measured self clock in
      let v₁ : ServerValid self₁ = record { tied = v.tied; free = v.free } in
      let (self₂, ticked, v₂) = tick_parties-ServerValid self₁ v₁ in
      elim (Bool-cases (is_negative (UpdateQuality.tick self.update_quality clock).0)) [
        | inl bad ↦ ((UpdateQuality.tick self.update_quality clock).0, self₁, [], simp bad, v₁)
        | inr good ↦
            let (result, self₃, sent, reads, v₃) =
              read_from-Updated 64 self₂ incoming fuel secret clock v₂ h
                (simp (update_faults, ticked, good) at sound) in
            (
              pos 0,
              record self₃ {
                authoritative_steps_per_second_stat =
                    e.stats.per_second_update self₃.authoritative_steps_per_second_stat now;
                stats_counter = (self₃.stats_counter + 1) % 2 ^ 16;
              },
              sent,
              simp (good, ticked, reads),
              record { tied = v₃.tied; free = v₃.free },
            )
      ]
