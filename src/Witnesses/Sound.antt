-- ===== src/Witnesses/Sound.antt =====
-- The datagrams and servers of the tests of src/lib/server.c, and that no command of those datagrams
-- asks for what was never set.
use nimble_server_lib.Prelude.{ℕ, ◌≡◌, refl, false, none, List, [], ◌∷◌, replicate}
use nimble_server_lib.Feed.{
  first_contact, handle_step, dispatch, reply, handle_command, feed_command, feed_commands, feed,
  read_from, update,
}
use nimble_server_lib.TransportConnection
use nimble_server_lib.TransportConnection.{write_header, commit_header}
use nimble_server_lib.GameState
use nimble_server_lib.Game
use nimble_server_lib.Requests.Step.{
  discard_authoritative_steps_if_buffer_getting_full, take_steps, handle_incoming_steps,
  read_incoming_steps_and_create_authoritative_steps, req_game_step,
}
use nimble_server_lib.Requests.Join.{
  create_party, reply_participants, join_local_party, read_and_join_participants, answer_join,
  req_game_join,
}
use nimble_server_lib.Requests.Send.{
  continuation_range, choose_ranges, count_no_ranges, buffer_report, send_step_ranges,
  update_party_stats, update_stats,
}
use nimble_server_lib.LocalParty
use nimble_server_lib.LocalParty.{tick_normal, has_participant_id}
use nimble_server_lib.LocalParty.Predicted.{
  deserialize_single_step, read_steps, note_added, read_participant, read_participants,
  deserialize_predicted_steps,
}
use nimble_server_lib.LocalParties
use nimble_server_lib.LocalParties.{
  find_party, init_parties, find_free_from, find_free_party_place, add_party, is_for_transport,
  find_for_transport_from, find_party_for_transport, create,
}
use nimble_server_lib.AuthoritativeSteps.{
  rate, party_id, settle_state, read_step, write_kind, write_payload, write_entry, compose_used,
  compose_slot, compose_slots, compose_one_authoritative_step, compose_from,
  compose_authoritative_steps,
}
use nimble_server_lib.Advance.{
  advance_count, can_contribute, contribution_from, max_predicted_step_contribution,
  should_compose_new_authoritative_step, can_advance_due_to_distance_from_last_state,
  should_advance_authoritative,
}
use nimble_server_lib.Participant
use nimble_server_lib.Participant.{references_find, for_references}
use nimble_server_lib.Participants
use nimble_server_lib.Participants.{write_ids, init_slots, find, joined, join}
use nimble_server_lib.CircularBuffer as Ring
use nimble_server_lib.CircularBuffer.{write, read, is_empty, count}
use nimble_server_lib.Quality
use nimble_server_lib.Quality.{
  is_failing_to_provide_steps_in_time, evaluate, provided_usable_step, added_steps_to_buffer,
  added_forced_steps, check_if_should_disconnect, delayed_init, delayed_reset, delayed_tick,
}
use nimble_server_lib.UpdateQuality
use nimble_server_lib.UpdateQuality.{measure, judge}
use nimble_server_lib.Server
use nimble_server_lib.Server.{
  init_connections, re_init_with_game, tick_party, tick_parties_from, tick_parties,
}
use nimble_server_lib.Safety.Faults.{
  has_player, joinable_as, join_faults, is_unset, download_faults, dispatch_faults, command_faults,
  commands_faults, feed_faults, read_faults, update_faults,
}
use nimble_server_lib.Feed.{Incoming}
use nimble_server_lib.Server.{Server}
use nimble_server_lib.Safety.Start.{started}
use nimble_server_lib.Samples.{external, ring_memory, nobody, free_party, connection, game, server}
use nimble_server_lib.Witnesses.Hosts.{busy}

-- A datagram in order, at time 5, with a game step.
abbrev pub a_step : List ℕ
a_step = 0 ∷ 5 ∷ 3 ∷ 0 ∷ 0 ∷ []

-- A datagram in order, at time 5, with a request to join, after which a step is sent.
abbrev pub a_join : List ℕ
a_join = 0 ∷ 5 ∷ 4 ∷ 0 ∷ []

-- The memory of a server that is set up.
abbrev pub blank : Server external
blank = record server {
  transport_connections = replicate 64 (connection false 0 none);
  free_transport_connection_list = ring_memory;
  game = record game { participants = record nobody { free_list = ring_memory } };
}

abbrev pub fresh : Server external
fresh = started blank (free_party ∷ free_party ∷ []) server.setup 5 0 0

pub a_step_sound : feed_faults external busy 0 a_step 6 7 10 ≡ false
unfolding first_contact handle_step dispatch reply handle_command feed_command feed_commands feed
    read_from update TransportConnection.init write_header commit_header GameState.init Game.init
    discard_authoritative_steps_if_buffer_getting_full take_steps handle_incoming_steps
    read_incoming_steps_and_create_authoritative_steps req_game_step create_party reply_participants
    join_local_party read_and_join_participants answer_join req_game_join continuation_range
    choose_ranges count_no_ranges buffer_report send_step_ranges update_party_stats update_stats
    LocalParty.re_init LocalParty.init LocalParty.reset LocalParty.tick tick_normal
    has_participant_id deserialize_single_step read_steps note_added read_participant
    read_participants deserialize_predicted_steps LocalParties.init LocalParties.reset init_parties
    find_free_from find_free_party_place add_party is_for_transport find_for_transport_from
    find_party_for_transport create rate party_id settle_state read_step write_kind write_payload
    write_entry compose_used compose_slot compose_slots compose_one_authoritative_step compose_from
    compose_authoritative_steps advance_count can_contribute contribution_from
    max_predicted_step_contribution should_compose_new_authoritative_step
    can_advance_due_to_distance_from_last_state should_advance_authoritative Participant.init
    Participant.re_init references_find for_references Participants.init write_ids init_slots find
    joined join Ring.init write read is_empty count Quality.reset Quality.init Quality.re_init
    is_failing_to_provide_steps_in_time evaluate provided_usable_step added_steps_to_buffer
    added_forced_steps check_if_should_disconnect delayed_init delayed_reset delayed_tick
    UpdateQuality.re_init UpdateQuality.init UpdateQuality.tick measure judge Server.init
    init_connections re_init_with_game tick_party tick_parties_from tick_parties has_player
    joinable_as join_faults is_unset download_faults dispatch_faults command_faults commands_faults
    feed_faults read_faults update_faults
a_step_sound = refl

pub an_update_sound : update_faults external busy 10 (Incoming.datagram 0 a_step ∷ []) 6 7 ≡ false
unfolding first_contact handle_step dispatch reply handle_command feed_command feed_commands feed
    read_from update TransportConnection.init write_header commit_header GameState.init Game.init
    discard_authoritative_steps_if_buffer_getting_full take_steps handle_incoming_steps
    read_incoming_steps_and_create_authoritative_steps req_game_step create_party reply_participants
    join_local_party read_and_join_participants answer_join req_game_join continuation_range
    choose_ranges count_no_ranges buffer_report send_step_ranges update_party_stats update_stats
    LocalParty.re_init LocalParty.init LocalParty.reset LocalParty.tick tick_normal
    has_participant_id deserialize_single_step read_steps note_added read_participant
    read_participants deserialize_predicted_steps LocalParties.init LocalParties.reset init_parties
    find_free_from find_free_party_place add_party is_for_transport find_for_transport_from
    find_party_for_transport create rate party_id settle_state read_step write_kind write_payload
    write_entry compose_used compose_slot compose_slots compose_one_authoritative_step compose_from
    compose_authoritative_steps advance_count can_contribute contribution_from
    max_predicted_step_contribution should_compose_new_authoritative_step
    can_advance_due_to_distance_from_last_state should_advance_authoritative Participant.init
    Participant.re_init references_find for_references Participants.init write_ids init_slots find
    joined join Ring.init write read is_empty count Quality.reset Quality.init Quality.re_init
    is_failing_to_provide_steps_in_time evaluate provided_usable_step added_steps_to_buffer
    added_forced_steps check_if_should_disconnect delayed_init delayed_reset delayed_tick
    UpdateQuality.re_init UpdateQuality.init UpdateQuality.tick measure judge Server.init
    init_connections re_init_with_game tick_party tick_parties_from tick_parties has_player
    joinable_as join_faults is_unset download_faults dispatch_faults command_faults commands_faults
    feed_faults read_faults update_faults
an_update_sound = refl

pub join_sound : join_faults external busy (1 ∷ []) ≡ false
unfolding join_faults joinable_as has_player find_party
join_sound = refl

pub fresh_update_sound :
    update_faults external fresh 10
      (Incoming.datagram 0 a_join ∷ Incoming.datagram 0 a_step ∷ [])
      6
      7
    ≡ false
unfolding first_contact handle_step dispatch reply handle_command feed_command feed_commands feed
    read_from update TransportConnection.init write_header commit_header GameState.init Game.init
    discard_authoritative_steps_if_buffer_getting_full take_steps handle_incoming_steps
    read_incoming_steps_and_create_authoritative_steps req_game_step create_party reply_participants
    join_local_party read_and_join_participants answer_join req_game_join continuation_range
    choose_ranges count_no_ranges buffer_report send_step_ranges update_party_stats update_stats
    LocalParty.re_init LocalParty.init LocalParty.reset LocalParty.tick tick_normal
    has_participant_id deserialize_single_step read_steps note_added read_participant
    read_participants deserialize_predicted_steps LocalParties.init LocalParties.reset init_parties
    find_free_from find_free_party_place add_party is_for_transport find_for_transport_from
    find_party_for_transport create rate party_id settle_state read_step write_kind write_payload
    write_entry compose_used compose_slot compose_slots compose_one_authoritative_step compose_from
    compose_authoritative_steps advance_count can_contribute contribution_from
    max_predicted_step_contribution should_compose_new_authoritative_step
    can_advance_due_to_distance_from_last_state should_advance_authoritative Participant.init
    Participant.re_init references_find for_references Participants.init write_ids init_slots find
    joined join Ring.init write read is_empty count Quality.reset Quality.init Quality.re_init
    is_failing_to_provide_steps_in_time evaluate provided_usable_step added_steps_to_buffer
    added_forced_steps check_if_should_disconnect delayed_init delayed_reset delayed_tick
    UpdateQuality.re_init UpdateQuality.init UpdateQuality.tick measure judge Server.init
    init_connections re_init_with_game tick_party tick_parties_from tick_parties has_player
    joinable_as join_faults is_unset download_faults dispatch_faults command_faults commands_faults
    feed_faults read_faults update_faults
fresh_update_sound = refl

pub fresh_feed_sound : feed_faults external fresh 0 a_join 6 7 10 ≡ false
unfolding first_contact handle_step dispatch reply handle_command feed_command feed_commands feed
    read_from update TransportConnection.init write_header commit_header GameState.init Game.init
    discard_authoritative_steps_if_buffer_getting_full take_steps handle_incoming_steps
    read_incoming_steps_and_create_authoritative_steps req_game_step create_party reply_participants
    join_local_party read_and_join_participants answer_join req_game_join continuation_range
    choose_ranges count_no_ranges buffer_report send_step_ranges update_party_stats update_stats
    LocalParty.re_init LocalParty.init LocalParty.reset LocalParty.tick tick_normal
    has_participant_id deserialize_single_step read_steps note_added read_participant
    read_participants deserialize_predicted_steps LocalParties.init LocalParties.reset init_parties
    find_free_from find_free_party_place add_party is_for_transport find_for_transport_from
    find_party_for_transport create rate party_id settle_state read_step write_kind write_payload
    write_entry compose_used compose_slot compose_slots compose_one_authoritative_step compose_from
    compose_authoritative_steps advance_count can_contribute contribution_from
    max_predicted_step_contribution should_compose_new_authoritative_step
    can_advance_due_to_distance_from_last_state should_advance_authoritative Participant.init
    Participant.re_init references_find for_references Participants.init write_ids init_slots find
    joined join Ring.init write read is_empty count Quality.reset Quality.init Quality.re_init
    is_failing_to_provide_steps_in_time evaluate provided_usable_step added_steps_to_buffer
    added_forced_steps check_if_should_disconnect delayed_init delayed_reset delayed_tick
    UpdateQuality.re_init UpdateQuality.init UpdateQuality.tick measure judge Server.init
    init_connections re_init_with_game tick_party tick_parties_from tick_parties has_player
    joinable_as join_faults is_unset download_faults dispatch_faults command_faults commands_faults
    feed_faults read_faults update_faults
fresh_feed_sound = refl
