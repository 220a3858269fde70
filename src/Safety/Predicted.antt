-- ===== src/Safety/Predicted.antt =====
-- Reading a client's predicted steps, in src/lib/local_party.c, stays within the arrays and leaves
-- the pool of participants as it is.
use nimble_server_lib.Prelude.{
  ℕ, zero, suc, ◌<◌, ◌≤◌, ◌≡◌, refl, ap, sym, ◌∙◌, subst, ℤ, pos, negsuc, false, List, Option, some,
  arith, get_elem?, get_elem?_in_range, set, length, All, All-get, Bool-cases, inl, inr,
  is_negative, add_u32, add_size, leb, ltb, ◌==◌, sub_u32,
}
use nimble_server_lib.External.{StepsLib, StatsLib, InStreamLib}
use nimble_server_lib.Participant.{Participant}
use nimble_server_lib.Participants.{Participants}
use nimble_server_lib.LocalParty.{LocalParty}
use nimble_server_lib.LocalParty.Predicted.{
  value, deserialize_single_step, read_steps, note_added, Outcome, read_participant,
  read_participants, deserialize_predicted_steps,
}
use nimble_server_lib.Safety.Shapes.{Shape, shape}
use nimble_server_lib.Safety.Members.{Mild, Members, Members-set}
use nimble_server_lib.Safety.Streams.{SizedInput}

module _ {sl : StepsLib} (in_lib : InStreamLib sl) (sized : SizedInput in_lib) where
  read_steps-Mild :
      (n step_id total : ℕ) (p : Participant sl) (stream : in_lib.InStream)
      → Mild p (read_steps in_lib n step_id total p stream).3
        × (sized.size (read_steps in_lib n step_id total p stream).2 ≤ sized.size stream)
  unfolding read_steps deserialize_single_step
  read_steps-Mild zero step_id total p stream = ((refl, refl, refl), omega arith)
  read_steps-Mild (suc n) step_id total p stream =
      let (result, stream', steps) = in_lib.steps_in_single stream step_id p.steps in
      let p' : Participant sl = record p { steps = steps } in
      let (mild, less) =
        read_steps-Mild n (add_u32 step_id 1) (add_size total (value result)) p' stream' in
      let step = sized.of_single_step stream step_id p.steps in
      elim (Bool-cases (is_negative result)) [
        | inl bad ↦ simp (bad) ((refl, refl, refl), step)
        | inr good ↦ simp (good) (mild, omega (arith, less, step))
      ]

  module _ {st : StatsLib} where
    note_added-shape :
        (party : LocalParty st) (p : Participant sl) (total : ℕ)
        → shape (note_added party p total) ≡ shape party
    unfolding note_added
    note_added-shape party p total =
        let up_to : ℕ = sub_u32 (sl.expected_write_id p.steps) 1 in
        elim (Bool-cases (total == 0)) [
          | inl nothing ↦ simp nothing
          | inr some_added ↦ elim (Bool-cases (ltb party.highest_received_step_id up_to)) [
            | inl higher ↦ simp (some_added, higher)
            | inr lower ↦ simp (some_added, lower)
          ]
        ]

    -- What reading makes of a party whose participants stand in the array.
    abbrev pub Read :
        ℕ → Participants sl → LocalParty st → in_lib.InStream → Option (Outcome st in_lib) → Type 0
    Read m ps party stream run =
        (result : ℤ) × (party' : LocalParty st) × (xs : List (Participant sl))
        × (stream' : in_lib.InStream) × (run ≡ some (result, party', xs, stream'))
        × (shape party' ≡ shape party)
        × Members m ps xs
        × (sized.size stream' ≤ sized.size stream)

    read_participant-Read :
        (m : ℕ) (ps : Participants sl) (party : LocalParty st) (qs : List (Participant sl))
        (stream : in_lib.InStream)
        → Members m ps qs
        → All (λ r. r < length qs) party.participant_references
        → Read m ps party stream (read_participant in_lib party qs stream)
    unfolding read_participant
    read_participant-Read m ps party qs stream v h =
        let (index, stream₁) = in_lib.read_u8 stream in
        let less₁ = sized.of_u8 stream in
        elim (Bool-cases (leb (length party.participant_references) index)) [
          | inl outside ↦ (negsuc 3, party, qs, stream₁, simp (outside), refl, v, less₁)
          | inr inside ↦
              let (r, refers) =
                get_elem?_in_range party.participant_references index (ground arith) in
              let (p, at) =
                get_elem?_in_range qs r
                  (All-get (λ r. r < length qs) party.participant_references index r h refers) in
              read_steps_of index r p inside refers at
        ]
      where
        read_steps_of :
            (index r : ℕ) (p : Participant sl)
            → leb (length party.participant_references) (in_lib.read_u8 stream).0 ≡ false
            → get_elem? party.participant_references (in_lib.read_u8 stream).0 ≡ some r
            → get_elem? qs r ≡ some p
            → Read m ps party stream (read_participant in_lib party qs stream)
        read_steps_of index r p inside refers at =
            let (header, first, follow, stream₂) =
              in_lib.steps_in_header (in_lib.read_u8 stream).1 in
            let less₂ = sized.of_steps_header (in_lib.read_u8 stream).1 in
            let (result, total, stream₃, p') = read_steps in_lib follow first 0 p stream₂ in
            let (mild, less₃) = read_steps-Mild follow first 0 p stream₂ in
            let less₁ = sized.of_u8 stream in
            let w = Members-set m ps qs r p p' v at mild in
            elim (Bool-cases (is_negative header)) [
              | inl bad ↦ (
                header,
                party,
                qs,
                stream₂,
                simp (inside, refers, at, bad),
                refl,
                v,
                omega (arith, less₁, less₂),
              )
              | inr good ↦ elim (Bool-cases (is_negative result)) [
                | inl stopped ↦ (
                  result,
                  party,
                  set qs r p',
                  stream₃,
                  simp (inside, refers, at, good, stopped),
                  refl,
                  w,
                  omega (arith, less₁, less₂, less₃),
                )
                | inr done ↦ (
                  pos 0,
                  note_added party p' total,
                  set qs r p',
                  stream₃,
                  simp (inside, refers, at, good, done),
                  note_added-shape party p' total,
                  w,
                  omega (arith, less₁, less₂, less₃),
                )
              ]
            ]

    read_participants-Read :
        (n m : ℕ) (ps : Participants sl) (party : LocalParty st) (qs : List (Participant sl))
        (stream : in_lib.InStream)
        → Members m ps qs
        → All (λ r. r < length qs) party.participant_references
        → Read m ps party stream (read_participants in_lib n party qs stream)
    unfolding read_participants
    read_participants-Read zero m ps party qs stream v h =
        (pos 0, party, qs, stream, refl, refl, v, omega arith)
    read_participants-Read (suc n) m ps party qs stream v h =
        let (result, party', xs, stream', one, same, w, less) =
          read_participant-Read m ps party qs stream v h in
        elim (Bool-cases (is_negative result)) [
          | inl bad ↦ (result, party', xs, stream', simp (one, bad), same, w, less)
          | inr good ↦
              let (result', party'', ys, stream'', rest, same', w', less') =
                read_participants-Read n m ps party' xs stream' w (
                  subst (All (λ r. r < length xs)) (sym (ap (λ (s : Shape). s.refs) same)) (
                    subst (λ k. All (λ r. r < k) party.participant_references)
                      (v.slots ∙ sym w.slots) h)) in
              (
                result',
                party'',
                ys,
                stream'',
                simp (one, good, rest),
                same' ∙ same,
                w',
                omega (arith, less, less'),
              )
        ]

    -- Reading predicted steps returns, changes nothing of the party that others rely on, and keeps
    -- the pool of participants.
    pub deserialize-Read :
        (m : ℕ) (ps : Participants sl) (party : LocalParty st) (qs : List (Participant sl))
        (stream : in_lib.InStream)
        → Members m ps qs
        → All (λ r. r < length qs) party.participant_references
        → Read m ps party stream (deserialize_predicted_steps in_lib party qs stream)
    unfolding deserialize_predicted_steps
    deserialize-Read m ps party qs stream v h =
        let (count, stream') = in_lib.read_u8 stream in
        let (result, party', xs, stream'', done, same, w, less) =
          read_participants-Read count m ps party qs stream' v h in
        (result, party', xs, stream'', done, same, w, omega (arith, less, sized.of_u8 stream))
