-- ===== src/LocalParty/Tick.antt =====
-- How long the parties of src/lib/local_party.c wait for a rejoin.
use nimble_server_lib.Prelude.{
  ℕ, zero, suc, ◌^◌, ◌<◌, ◌≡◌, ◌>>=◌, Bool, true, List, Option, some, arith, ltb, add_size,
}
use nimble_server_lib.External.{StepsLib, StatsLib}
use nimble_server_lib.Participant.{Participant}
use nimble_server_lib.LocalParty.{
  LocalParty, PartyState, set_to_waiting_for_re_join, tick, tick_waiting_for_reconnect,
}

module _ {st : StatsLib} {sl : StepsLib} where
  -- The last of `n` ticks, or whether a party without any is kept.
  pub ticks :
      ℕ
      → LocalParty st
      → List (Participant sl)
      → Option (Bool × LocalParty st × List (Participant sl))
  ticks zero p ps = some (true, p, ps)
  ticks (suc n) p ps = do (keep, p', ps') ← ticks n p ps; tick p' ps'

  waited :
      (n : ℕ) (p : LocalParty st) (ps : List (Participant sl))
      → p.state ≡ PartyState.waiting_for_re_join
      → p.waiting_for_reconnect_timer ≡ 0
      → suc n < 2 ^ 64
      → ticks (suc n) p ps
        ≡ some (
          ltb (suc n) p.waiting_for_reconnect_max_timer,
          record p { waiting_for_reconnect_timer = suc n },
          ps,
        )
  unfolding ticks tick tick_waiting_for_reconnect
  waited zero p ps s t h = ground (arith, s, t, small)
    where
      small : add_size 0 1 ≡ 1
      small = omega arith
  waited (suc n) p ps s t h =
      let small : add_size (suc n) 1 ≡ suc (suc n) = omega arith in
      simp (waited n p ps s t (omega arith), s, small)

  -- A party that starts to wait for a rejoin is kept by each of its ticks before the one that
  -- reaches its limit, and given up by that one and by the later ones (of the first 2^64);
  -- the participants stay as they are meanwhile.
  pub waits_until_limit :
      (n : ℕ) (p p' : LocalParty st) (ps ps' : List (Participant sl))
      → set_to_waiting_for_re_join p ps ≡ some (p', ps')
      → suc n < 2 ^ 64
      → ticks (suc n) p' ps'
        ≡ some (
          ltb (suc n) p.waiting_for_reconnect_max_timer,
          record p' { waiting_for_reconnect_timer = suc n },
          ps',
        )
  unfolding set_to_waiting_for_re_join
  waits_until_limit n p p' ps ps' e h = ground (arith, waited n p' ps')
