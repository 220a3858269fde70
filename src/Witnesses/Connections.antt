-- ===== src/Witnesses/Connections.antt =====
-- Tests of the parties, the connections and the requests.
use nimble_server_lib.Prelude.{
  ℕ, ◌/◌, min, ◌≡◌, refl, ◌⊎◌, pos, true, false, [], ◌∷◌, some, none, arith, is_negative, All, take,
}
use nimble_server_lib.External.{ConnectRequest}
use nimble_server_lib.CircularBuffer as Ring
use nimble_server_lib.CircularBuffer.{CircularBuffer, buffer_size}
use nimble_server_lib.Participant.{Participant, ParticipantState, for_references, mark_as_leaving}
use nimble_server_lib.Participants
use nimble_server_lib.Participants.{Participants, write_ids}
use nimble_server_lib.Participants.Inv.{IsValid}
use nimble_server_lib.Participants.Fill.{init-IsValid, free_at-init_slots}
use nimble_server_lib.Participants.Join.{Joined}
use nimble_server_lib.Participants.Prepare.{SlotsValid, Prepared, prepare_lem}
use nimble_server_lib.LocalParty.{LocalParty, PartyState}
use nimble_server_lib.LocalParties.{
  LocalParties, create, find_free_from, find_party_for_transport, find_for_transport_from,
  is_for_transport,
}
use nimble_server_lib.LocalParties.Create.{Placed, create_lem}
use nimble_server_lib.TransportConnection
use nimble_server_lib.TransportConnection.{TransportConnection}
use nimble_server_lib.Server
use nimble_server_lib.Server.{Server}
use nimble_server_lib.Server.Dissolve.{Dissolved, tick_party-Dissolved}
use nimble_server_lib.Requests.Join.New.{Welcomed, req_game_join-Welcomed}
use nimble_server_lib.Requests.Step.Room.{DiscardTakes, make_room_lem}
use nimble_server_lib.Requests.Connect.{
  connection_for, opened, find_existing_connection_request, find_existing_from,
}
use nimble_server_lib.Requests.Connect.Again.{connect_again}
use nimble_server_lib.Requests.Step.{discard_authoritative_steps_if_buffer_getting_full}
use nimble_server_lib.Game.{Game}
use nimble_server_lib.Samples.{
  steps_lib, stats_lib, external, ring_memory, player, nobody, party_in, parties, connection, game,
  server,
}

nobody-IsValid : IsValid nobody × (nobody.participant_count ≡ 0)
nobody-IsValid = init-IsValid steps_lib ring_memory 2 8 refl (omega arith)

create_lem_example :
    (id : ℕ) × (ls' : LocalParties stats_lib) × (qs : Participants steps_lib) × (create parties
        nobody 2
        (player ∷ [])
        0
        1
      ≡ some (pos 0, some 1, ls', qs))
    × All (λ p. p.is_used ≡ true) (take 1 parties.parties)
    × Placed parties 1 2 id ls'
    × Joined nobody 0 1 0 id qs
unfolding find_free_from Participants.init
create_lem_example = create_lem parties nobody 2 player [] 0 1 refl nobody-IsValid.0 (omega arith)

nobody-SlotsValid : SlotsValid nobody
nobody-SlotsValid =
    let v = nobody-IsValid.0 in
    record { size = v.size; small = v.small; slots = v.slots; counted = v.counted }

prepare_lem_example :
    (qs : Participants steps_lib) × (Participants.prepare nobody 1 0 0 ≡ some (pos 0, 1 ∷ [], qs))
    × Prepared nobody 1 0 qs
unfolding Participants.init
prepare_lem_example =
    prepare_lem nobody 1 0 0 nobody-SlotsValid
      (omega (arith, free_at-init_slots steps_lib 8 0 2 1 (omega arith)))

abbrev new_host : Server external
new_host = record server { game = record game { participants = nobody } }

abbrev request : ConnectRequest ℕ
request = record { application_version = 1; client_request_id = 9; use_debug_streams = false }

abbrev new_one : TransportConnection external
new_one = opened (connection false 1 none) 1 2 77 request 3

abbrev connected : Server external
connected = record server {
  free_transport_connection_list = (Ring.read server.free_transport_connection_list).1;
  transport_connections = connection true 0 (some 0) ∷ new_one ∷ connection true 1 none ∷ [];
}

connect_again_example :
    (t' : TransportConnection external) × (connection_for connected 2 78 request
      ≡ some (some (t', connected)))
unfolding connection_for find_existing_connection_request find_existing_from Ring.read Ring.is_empty
    opened TransportConnection.init
connect_again_example = connect_again server connected 2 77 78 request new_one refl

abbrev member : Participant steps_lib
member = record {
  local_index = 0;
  id = 0;
  is_used = true;
  steps = (0, 0, 0);
  in_party = some 0;
  state = ParticipantState.normal;
}

-- A server whose only party has waited for two of three ticks.
abbrev waiting_party : LocalParty stats_lib
waiting_party = record (party_in PartyState.waiting_for_re_join (0 ∷ [])) {
  waiting_for_reconnect_timer = 2;
}

abbrev waiting_server : Server external
waiting_server = record server {
  local_parties = record { parties = waiting_party ∷ []; parties_count = 1; capacity_count = 1 };
  game = record game {
    participants = record {
      participants = member ∷ [];
      participant_capacity = 1;
      participant_count = 1;
      free_list = ring_memory;
    };
  };
}

tick_party-Dissolved_example :
    (self' : Server external) × (Server.tick_party waiting_server 0 ≡ some self')
    × Dissolved waiting_server 0 1 waiting_party (connection false 1 none) self'
unfolding for_references mark_as_leaving
tick_party-Dissolved_example =
    tick_party-Dissolved waiting_server 0 1 waiting_party (connection false 1 none)
      (mark_as_leaving member ∷ []) refl refl refl refl refl refl refl

req_game_join-Welcomed_example : Welcomed new_host 0 1 player [] [] []
unfolding find_party_for_transport find_for_transport_from is_for_transport find_free_from
    Participants.init
req_game_join-Welcomed_example =
    req_game_join-Welcomed new_host 0 1 0 0 player [] (connection true 0 (some 0)) [] [] [] refl
      refl refl refl nobody-IsValid.0 (omega arith)

-- A connection that has not downloaded yet.
abbrev newcomer : TransportConnection external
newcomer = connection true 0 none

discard_takes : DiscardTakes steps_lib
discard_takes s n h = refl

abbrev crowded : Game steps_lib
crowded = record game { authoritative_steps = (30, 0, 30) }

make_room_lem_example :
    ((is_negative (discard_authoritative_steps_if_buffer_getting_full crowded).0 ≡ true)
      ⊎ (steps_lib.steps_count
            (discard_authoritative_steps_if_buffer_getting_full crowded).1.authoritative_steps
          ≡ min (steps_lib.steps_count crowded.authoritative_steps) (steps_lib.window_size / 3)))
    × ((discard_authoritative_steps_if_buffer_getting_full crowded).1.participants
        ≡ crowded.participants)
make_room_lem_example = make_room_lem crowded discard_takes
