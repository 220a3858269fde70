-- ===== src/Participants/Queue.antt =====
-- What src/lib/participants.c promises of the ids of participants: they are handed out from a queue.
use nimble_server_lib.Prelude.{
  ℕ, ◌<◌, ◌≡◌, refl, ap, sym, ◌∙◌, true, List, [], ◌∷◌, ◌++◌, Option, none, some, ◌>>=◌, arith,
  get_elem?_in_range, length, length-set, occurrences,
}
use nimble_server_lib.External.{StepsLib, JoinPlayer}
use nimble_server_lib.CircularBuffer.Fifo.{contents}
use nimble_server_lib.Participants.{Participants, join, destroy, joined}
use nimble_server_lib.Participants.Slots.{free_at-of}
use nimble_server_lib.Participants.Inv.{IsValid, destroy-IsValid}
use nimble_server_lib.Participants.Join.{join-full, join-Joined}

-- What is asked of a collection: that a player joins in a party from a step on, or that a
-- participant leaves.
pub data Op : Type 0 where
  joins : JoinPlayer → ℕ → ℕ → Op
  leaves : ℕ → Op

-- A queue of ids: a join takes the id at its front, if there is one, and an id that is given back
-- goes to its end.
abbrev pub queue_step : List ℕ → Op → Option ℕ × List ℕ
queue_step [] (Op.joins player party step_id) = (none, [])
queue_step (id ∷ queue) (Op.joins player party step_id) = (some id, queue)
queue_step queue (Op.leaves id) = (none, queue ++ id ∷ [])

abbrev pub queue_run : List ℕ → List Op → List (Option ℕ) × List ℕ
queue_run queue [] = ([], queue)
queue_run queue (op ∷ ops) =
    let (answer, queue') = queue_step queue op in
    let (answers, queue'') = queue_run queue' ops in (answer ∷ answers, queue'')

-- Only ids below the capacity that are not in the queue are given back.
abbrev pub Allowed : ℕ → List ℕ → List Op → Type 0
Allowed capacity queue [] = Unit
Allowed capacity queue (Op.joins player party step_id ∷ ops) =
    Allowed capacity (queue_step queue (Op.joins player party step_id)).1 ops
Allowed capacity queue (Op.leaves id ∷ ops) =
    ((id < capacity) × (occurrences id queue ≡ 0))
    × Allowed capacity (queue_step queue (Op.leaves id)).1 ops

abbrev first : List ℕ → Option ℕ
first [] = none
first (x ∷ xs) = some x

module _ {sl : StepsLib} where
  -- The same, asked of the collection.
  abbrev pub pool_step : Participants sl → Op → Option (Option ℕ × Participants sl)
  pool_step ps (Op.joins player party step_id) = do
    (result, created, ps') ← join ps (player ∷ []) 1 party step_id
    some (first created, ps')
  pool_step ps (Op.leaves id) = do ps' ← destroy ps id; some (none, ps')

  abbrev pub pool_run : Participants sl → List Op → Option (List (Option ℕ) × Participants sl)
  pool_run ps [] = some ([], ps)
  pool_run ps (op ∷ ops) = do
    (answer, ps') ← pool_step ps op
    (answers, ps'') ← pool_run ps' ops
    some (answer ∷ answers, ps'')

  -- A collection that stands for a queue.
  pub record StandsFor (queue : List ℕ) (capacity : ℕ) (ps : Participants sl) : Type 0 where
    pub valid : IsValid ps
    pub ids : contents ps.free_list ≡ queue
    pub size : ps.participant_capacity ≡ capacity

  abbrev Simulated : ℕ → Option ℕ × List ℕ → Option (Option ℕ × Participants sl) → Type 0
  Simulated capacity (answer, queue) run =
      (ps' : Participants sl) × (run ≡ some (answer, ps')) × StandsFor queue capacity ps'

  joins-Simulated :
      (queue : List ℕ) (capacity : ℕ) (ps : Participants sl) (player : JoinPlayer)
      (party step_id : ℕ)
      → StandsFor queue capacity ps
      → Simulated capacity
          (queue_step queue (Op.joins player party step_id))
          (pool_step ps (Op.joins player party step_id))
  joins-Simulated [] capacity ps player party step_id s =
      let v = s.valid in
      (
        ps,
        simp (
            join-full ps (player ∷ []) 1 party step_id (omega (arith, v.balance, v.small))
              (omega (arith, v.balance, ap length s.ids))),
        s,
      )
  joins-Simulated (x ∷ queue) capacity ps player party step_id s =
      let v = s.valid in
      let (id, qs, done, j) =
        join-Joined ps player [] party step_id v (omega (arith, v.balance, ap length s.ids)) in
      let both : x ∷ queue ≡ id ∷ contents qs.free_list = sym s.ids ∙ j.oldest in
      let same : id ≡ x = ground (arith, both) in
      (
        qs,
        simp (done, same),
        record {
          valid = j.valid;
          ids = ground (arith, both);
          size =
              sym j.valid.size
              ∙ ap length j.now
              ∙ length-set ps.participants id (joined j.slot id player.local_index party step_id)
              ∙ v.size
              ∙ s.size;
        },
      )

  leaves-Simulated :
      (queue : List ℕ) (capacity : ℕ) (ps : Participants sl) (id : ℕ)
      → StandsFor queue capacity ps
      → id < capacity
      → occurrences id queue ≡ 0
      → Simulated capacity (none, queue ++ id ∷ []) (pool_step ps (Op.leaves id))
  leaves-Simulated queue capacity ps id s h out =
      let v = s.valid in
      let (p, at) = get_elem?_in_range ps.participants id (omega (arith, h, v.size, s.size)) in
      let used : p.is_used ≡ true =
        ground
          (arith, free_at-of ps.participants id p at, v.free id, ap (occurrences id) s.ids, out) in
      let (qs, done, valid, fewer, now, size, ids) = destroy-IsValid ps id p v at used in
      (
        qs,
        simp done,
        record { valid = valid; ids = ids ∙ ap (λ q. q ++ id ∷ []) s.ids; size = size ∙ s.size },
      )

  -- The ids of the participants are handed out as from a queue: on a valid collection, whatever
  -- joins and leaves follow, of which only participants that are in the game leave, no slot outside
  -- the array is touched, each join gets the id that has been free for the longest time or is
  -- refused where none is free, and the ring of free ids holds the queue in its order.
  pub pool_run-refines :
      (ops : List Op) (queue : List ℕ) (capacity : ℕ) (ps : Participants sl)
      → StandsFor queue capacity ps
      → Allowed capacity queue ops
      → (ps' : Participants sl) × (pool_run ps ops ≡ some ((queue_run queue ops).0, ps'))
        × StandsFor (queue_run queue ops).1 capacity ps'
  pool_run-refines [] queue capacity ps s h = (ps, refl, s)
  pool_run-refines (Op.joins player party step_id ∷ ops) queue capacity ps s h =
      let (qs, one, s') = joins-Simulated queue capacity ps player party step_id s in
      let (rs, rest, s'') =
        pool_run-refines ops (queue_step queue (Op.joins player party step_id)).1 capacity qs s'
          h in
      (rs, simp (one, rest), s'')
  pool_run-refines (Op.leaves id ∷ ops) queue capacity ps s ((small, out), h) =
      let (qs, one, s') = leaves-Simulated queue capacity ps id s small out in
      let (rs, rest, s'') = pool_run-refines ops (queue ++ id ∷ []) capacity qs s' h in
      (rs, simp (one, rest), s'')
