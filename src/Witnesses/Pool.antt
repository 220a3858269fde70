-- ===== src/Witnesses/Pool.antt =====
-- Tests of the rings, the participants and the authoritative steps.
use nimble_server_lib.Prelude.{
  ℕ, zero, suc, ◌+◌, ◌≡◌, refl, ap, sym, subst, ◌⊎◌, ◌↔◌, ℤ, pos, true, List, [], ◌∷◌, ◌++◌, ◌&&◌,
  ◌||◌, ◌∙◌, some, arith, get_elem?, is_negative, replicate, set,
}
use nimble_server_lib.CircularBuffer.{
  CircularBuffer, buffer_size, write, read, count, is_empty, is_full,
}
use nimble_server_lib.CircularBuffer as Ring
use nimble_server_lib.CircularBuffer.Fifo.{contents, init_lem, write_lem, read_lem, is_empty_iff}
use nimble_server_lib.CircularBuffer.Fifo as Fifo
use nimble_server_lib.CircularBuffer.Overrun.{write_full, read_empty}
use nimble_server_lib.Participant
use nimble_server_lib.Participant.{Participant, ParticipantState}
use nimble_server_lib.Participants
use nimble_server_lib.Participants.{Participants, write_ids}
use nimble_server_lib.Participants.Slots.{Every}
use nimble_server_lib.Participants.Inv.{IsValid, destroy-IsValid}
use nimble_server_lib.Participants.Fill.{init-IsValid}
use nimble_server_lib.Participants.Join.{Joined, join-Joined}
use nimble_server_lib.AuthoritativeSteps.{
  Weave, compose_one_authoritative_step, compose_authoritative_steps,
}
use nimble_server_lib.AuthoritativeSteps.Slot.{Housed}
use nimble_server_lib.AuthoritativeSteps.One.{WeaveValid, Change}
use nimble_server_lib.AuthoritativeSteps.Round.{compose_one_lem}
use nimble_server_lib.AuthoritativeSteps.Loop.{WriteAdds, GameValid, compose_authoritative_lem}
use nimble_server_lib.Game.{Game}
use nimble_server_lib.LocalParty.{LocalParty}
use nimble_server_lib.Advance.Decision.{any_ahead, all_ready, should_compose_lem}
use nimble_server_lib.Advance.{should_compose_new_authoritative_step}
use nimble_server_lib.Samples.{
  steps_lib, stats_lib, external, ring_memory, player, nobody, joined_in, crew, parties, game,
}

empty-IsValid : Fifo.IsValid (Ring.init ring_memory) × (contents (Ring.init ring_memory) ≡ [])
empty-IsValid = init_lem ring_memory refl

pub nobody-IsValid : IsValid nobody × (nobody.participant_count ≡ 0)
nobody-IsValid = init-IsValid steps_lib ring_memory 2 8 refl (omega arith)

one :
    (id : ℕ) × (qs : Participants steps_lib) × (Participants.join nobody (player ∷ []) 1 0 0
      ≡ some (pos 0, id ∷ [], qs))
    × Joined nobody 0 0 0 id qs
unfolding Participants.init
one = join-Joined nobody player [] 0 0 nobody-IsValid.0 (omega (arith, nobody-IsValid.1))

pub crew-IsValid : IsValid crew
crew-IsValid = subst IsValid (sym (ap joined_in one.2)) one.3.valid

pub crew-Housed : Every (λ i p. Housed 2 p) crew.participants
unfolding Participants.join Participants.joined Participant.re_init Participants.init
    Participants.init_slots Participant.init write_ids Ring.init Ring.write Ring.read
crew-Housed zero p at = λ u. (0, ground arith, omega arith)
crew-Housed (suc zero) p at = λ u. absurd (ground arith)
crew-Housed (suc (suc i)) p at = absurd (cc)

write_adds : WriteAdds steps_lib
write_adds s id xs h = refl

ring_one : CircularBuffer
ring_one = write (Ring.init ring_memory) 7

ring_one-IsValid : Fifo.IsValid ring_one × (contents ring_one ≡ [] ++ 7 ∷ [])
unfolding ring_one
ring_one-IsValid =
    let w = write_lem (Ring.init ring_memory) 7 empty-IsValid.0 (unfold Ring.init in refl) in
    (w.0, w.1 ∙ ap (λ xs. xs ++ 7 ∷ []) empty-IsValid.1)

full_ring : CircularBuffer
full_ring = record { octets = replicate 64 9; head = 5; tail = 5; is_full = true }

full_ring-IsValid : Fifo.IsValid full_ring
unfolding full_ring
full_ring-IsValid = record {
  size = refl;
  head_in = omega arith;
  tail_in = omega arith;
  full_at = λ e. refl;
}

write_lem_example :
    Fifo.IsValid (write (Ring.init ring_memory) 7)
    × (contents (write (Ring.init ring_memory) 7) ≡ contents (Ring.init ring_memory) ++ 7 ∷ [])
write_lem_example = write_lem (Ring.init ring_memory) 7 empty-IsValid.0 (unfold Ring.init in refl)

read_lem_example :
    ((read ring_one).0 ≡ 7) × Fifo.IsValid (read ring_one).1 × (contents (read ring_one).1 ≡ [])
read_lem_example = read_lem ring_one 7 [] ring_one-IsValid.0 ring_one-IsValid.1

is_empty_iff_example :
    ((is_empty ring_one ≡ true) ↔ (count ring_one ≡ 0))
    × ((is_full ring_one ≡ true) ↔ (count ring_one ≡ buffer_size))
is_empty_iff_example = is_empty_iff ring_one ring_one-IsValid.0

write_full_example : contents (write full_ring 7) ≡ 7 ∷ []
write_full_example = write_full full_ring 7 full_ring-IsValid (unfold full_ring in refl)

read_empty_example : count (read (Ring.init ring_memory)).1 ≡ 63
read_empty_example =
    read_empty (Ring.init ring_memory) empty-IsValid.0 (unfold Ring.init in unfold count in refl)

init-IsValid_example :
    IsValid (Participants.init steps_lib ring_memory 2 8)
    × ((Participants.init steps_lib ring_memory 2 8).participant_count ≡ 0)
init-IsValid_example = init-IsValid steps_lib ring_memory 2 8 refl (omega arith)

join-Joined_example :
    (id : ℕ) × (qs : Participants steps_lib) × (Participants.join nobody (player ∷ []) 1 0 0
      ≡ some (pos 0, id ∷ [], qs))
    × Joined nobody 0 0 0 id qs
unfolding Participants.init
join-Joined_example =
    join-Joined nobody player [] 0 0 nobody-IsValid.0 (omega (arith, nobody-IsValid.1))

first_slot : Participant steps_lib
first_slot = Participants.joined (Participant.init steps_lib 0 8) 0 0 0 0

destroy-IsValid_example :
    (qs : Participants steps_lib) × (Participants.destroy crew 0 ≡ some qs)
    × IsValid qs
    × (qs.participant_count + 1 ≡ crew.participant_count)
    × (qs.participants ≡ set crew.participants 0 (Participant.destroy first_slot))
    × (qs.participant_capacity ≡ crew.participant_capacity)
    × (contents qs.free_list ≡ contents crew.free_list ++ 0 ∷ [])
unfolding first_slot Participants.join Participants.joined Participant.re_init Participants.init
    Participants.init_slots Participant.init write_ids Ring.init Ring.write Ring.read
destroy-IsValid_example = destroy-IsValid crew 0 first_slot crew-IsValid refl refl

compose_one_lem_example :
    (result : ℤ) × (w' : Weave external) × (compose_one_authoritative_step external crew
        parties.parties 0 1024
      ≡ some (result, w'))
    × WeaveValid w'
    × (w'.participants.participant_capacity ≡ crew.participant_capacity)
    × ((is_negative result ≡ true)
        ⊎ ((j : ℕ) (p : Participant steps_lib)
            → get_elem? crew.participants j ≡ some p
            → (q : Participant steps_lib) × (get_elem? w'.participants.participants j ≡ some q)
              × Change p q))
compose_one_lem_example =
    compose_one_lem external crew parties.parties 0 1024 crew-IsValid crew-Housed

compose_authoritative_lem_example :
    (result : ℤ) × (game' : Game steps_lib) × (parties' : List (LocalParty stats_lib))
    × (compose_authoritative_steps external game parties.parties ≡ some (result, game', parties'))
    × GameValid external game' parties'
compose_authoritative_lem_example =
    compose_authoritative_lem external game parties.parties write_adds
      (record { valid = crew-IsValid; housed = crew-Housed })

should_compose_lem_example : should_compose_new_authoritative_step steps_lib crew 0 ≡ (
    (any_ahead steps_lib 3 0 crew.participants && all_ready steps_lib 0 crew.participants)
    || any_ahead steps_lib 5 0 crew.participants)
unfolding Participants.join Participants.joined Participant.re_init Participants.init
    Participants.init_slots Participant.init write_ids Ring.init Ring.write Ring.read
should_compose_lem_example =
    should_compose_lem steps_lib crew 0 (omega arith) (omega arith, (omega arith, tt))
