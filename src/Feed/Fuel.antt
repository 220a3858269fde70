-- ===== src/Feed/Fuel.antt =====
-- The loop of `nimbleServerFeed` of src/lib/server.c over the commands of a datagram.
use nimble_server_lib.Prelude.{
  ℕ, zero, suc, ◌≤◌, ◌≡◌, refl, sym, ◌∙◌, ℤ, pos, true, false, some, none, Option, List, [], ◌⊎◌,
  arith, Bool-cases, Option-cases, inl, inr, leb, ◌==◌, is_negative, get_elem?,
}
use nimble_server_lib.Errors.{err_serialize}
use nimble_server_lib.External.{External}
use nimble_server_lib.Server.{Server, max_transport_connections}
use nimble_server_lib.Feed.{
  Session, feed, feed_command, feed_commands, first_contact, with_connection,
}

module _ (e : External) where
  pub at_its_end :
      (fuel : ℕ) (s : Session e) (i client_time secret now : ℕ)
      → e.input.at_end s.stream ≡ true
      → feed_commands e (suc fuel) s i client_time secret now ≡ some (pos 0, s)
  unfolding feed_commands
  at_its_end fuel s i client_time secret now h = simp (feed_commands, h)

  undefined :
      (fuel : ℕ) (s : Session e) (i client_time secret now : ℕ)
      → e.input.at_end s.stream ≡ false
      → feed_command e s i client_time secret now ≡ none
      → feed_commands e (suc fuel) s i client_time secret now ≡ none
  unfolding feed_commands
  undefined fuel s i client_time secret now h c = simp (feed_commands, h, c)

  pub stopped :
      (fuel : ℕ) (s s' : Session e) (i client_time secret now : ℕ) (result : ℤ)
      → e.input.at_end s.stream ≡ false
      → feed_command e s i client_time secret now ≡ some (some result, s')
      → feed_commands e (suc fuel) s i client_time secret now ≡ some (result, s')
  unfolding feed_commands
  stopped fuel s s' i client_time secret now result h c = simp (feed_commands, h, c)

  pub goes_on :
      (fuel : ℕ) (s s' : Session e) (i client_time secret now : ℕ)
      → e.input.at_end s.stream ≡ false
      → feed_command e s i client_time secret now ≡ some (none, s')
      → feed_commands e (suc fuel) s i client_time secret now
        ≡ feed_commands e fuel s' i client_time secret now
  unfolding feed_commands
  goes_on fuel s s' i client_time secret now h c = simp (feed_commands, h, c)

  nothing_without_fuel :
      (s : Session e) (i client_time secret now : ℕ)
      → feed_commands e zero s i client_time secret now ≡ none
  unfolding feed_commands
  nothing_without_fuel s i client_time secret now = refl

  commands-more_fuel :
      (fuel more : ℕ) (s : Session e) (i client_time secret now : ℕ) (r : ℤ × Session e)
      → fuel ≤ more
      → feed_commands e fuel s i client_time secret now ≡ some r
      → feed_commands e more s i client_time secret now ≡ some r
  commands-more_fuel zero more s i client_time secret now r l h =
      absurd (ground (arith, h, nothing_without_fuel s i client_time secret now))
  commands-more_fuel (suc fuel) zero s i client_time secret now r l h = absurd (omega arith)
  commands-more_fuel (suc fuel) (suc more) s i client_time secret now r l h =
      elim (Bool-cases (e.input.at_end s.stream)) [
        | inl done ↦
            at_its_end more s i client_time secret now done
            ∙ sym (at_its_end fuel s i client_time secret now done)
            ∙ h
        | inr left ↦ elim (Option-cases (feed_command e s i client_time secret now)) [
          | inl broken ↦
              absurd (ground (arith, h, undefined fuel s i client_time secret now left broken))
          | inr ((some result, s'), ended) ↦
              stopped more s s' i client_time secret now result left ended
              ∙ sym (stopped fuel s s' i client_time secret now result left ended)
              ∙ h
          | inr ((none, s'), on) ↦
              goes_on more s s' i client_time secret now left on
              ∙ commands-more_fuel fuel more s' i client_time secret now r (omega arith)
                  (sym (goes_on fuel s s' i client_time secret now left on) ∙ h)
        ]
      ]

  -- A datagram is decided before its commands are read, or by them: `none` is undefined behaviour.
  feed_cases :
      (self : Server e) (i : ℕ) (octets : List ℕ) (secret now : ℕ)
      → ((r : Option (ℤ × Session e)) × ((fuel : ℕ) → feed e self i octets fuel secret now ≡ r))
        ⊎ ((s : Session e) × (client_time : ℕ) × ((fuel : ℕ)
              → feed e self i octets fuel secret now
                ≡ feed_commands e fuel s i client_time secret now))
  unfolding feed
  feed_cases self i octets secret now = elim (Bool-cases (leb max_transport_connections i)) [
    | inl big ↦ inl (
      some (err_serialize, record { server = self; stream = e.input.in_init octets; sent = [] }),
      λ fuel. simp (feed, big),
    )
    | inr small ↦ elim (Option-cases (get_elem? self.transport_connections i)) [
      | inl outside ↦ inl (none, λ fuel. simp (feed, small, outside))
      | inr (t, at) ↦
          let s : Session e = record {
            server = self;
            stream = e.input.in_init octets;
            sent = [];
          } in
          let t₁ = first_contact e t i self.setup.max_game_state_octet_count in
          let (err, ordered_in, stream₁) = e.ordered.ordered_in_receive t₁.ordered_in s.stream in
          let t₂ = record t₁ { ordered_in = ordered_in } in
          let s₂ : Session e = record s {
            server = with_connection e self i t₂;
            stream = stream₁;
          } in
          elim (Bool-cases (t₁.transport_index == i)) [
            | inr other ↦ inl (
              some (err_serialize, record s { server = with_connection e self i t₁ }),
              λ fuel. simp (feed, small, at, other),
            )
            | inl same ↦ elim (Bool-cases (is_negative err)) [
              | inl late ↦
                  inl (some (err_serialize, s₂), λ fuel. simp (feed, small, at, same, late))
              | inr good ↦
                  let (client_time, stream₂) = e.input.read_u16 stream₁ in
                  inr (
                    record s₂ { stream = stream₂ },
                    client_time,
                    λ fuel. simp (feed, small, at, same, good),
                  )
            ]
          ]
    ]
  ]

  -- More fuel changes nothing: what a datagram leads to with some fuel it leads to with more.
  pub feed-more_fuel :
      (self : Server e) (i : ℕ) (octets : List ℕ) (fuel more secret now : ℕ) (r : ℤ × Session e)
      → fuel ≤ more
      → feed e self i octets fuel secret now ≡ some r
      → feed e self i octets more secret now ≡ some r
  feed-more_fuel self i octets fuel more secret now r l h =
      elim (feed_cases self i octets secret now) [
        | inl (x, always) ↦ always more ∙ sym (always fuel) ∙ h
        | inr (s, client_time, same) ↦
            same more
            ∙ commands-more_fuel fuel more s i client_time secret now r l (sym (same fuel) ∙ h)
      ]
