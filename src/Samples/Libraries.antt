-- ===== src/Samples/Libraries.antt =====
-- The libraries that the server calls, as small concrete functions: a list of octets is a stream, and
-- a ring of steps is its count and its two step ids.
use nimble_server_lib.Prelude.{
  ℕ, ◌+◌, ◌-◌, ◌*◌, ℤ, pos, negsuc, true, false, List, [], ◌∷◌, ◌++◌, length, ◌==◌, if◌then◌else◌,
}
use nimble_server_lib.External.{
  External, StepsLib, StatsLib, OutStreamLib, InStreamLib, OrderedLib, BlobLib, SerializeLib,
  JoinGameType,
}
use nimble_server_lib.LocalParty.Predicted.{value}

abbrev pub steps_lib : StepsLib
steps_lib = record {
  Steps = ℕ × ℕ × ℕ;
  steps_count = λ s. s.0;
  expected_read_id = λ s. s.1;
  expected_write_id = λ s. s.2;
  window_size = 60;
  err_collection_is_empty = negsuc 0;
  steps_init = λ n. (0, 0, 0);
  steps_re_init = λ s id. (0, id, id);
  steps_write = λ s id xs. (pos (length xs), (s.0 + 1, s.1, s.2 + 1));
  steps_read_exact =
      λ s id n. if s.0 == 0 then (negsuc 0, [], s) else (pos 1, 7 ∷ [], (s.0 - 1, s.1 + 1, s.2));
  steps_discard_count = λ s n. (pos n, (s.0 - n, s.1 + n, s.2));
  convert_u8 = value;
  combined_size = λ n m. n * m;
}

abbrev pub stats_lib : StatsLib
stats_lib = record {
  StatsInt = ℤ;
  avg_is_set = λ s. true;
  avg = λ s. s;
  stats_init = λ n. pos 0;
  stats_add = λ s z. z;
  StatsPerSecond = ℤ;
  per_second_init = λ now n. pos 0;
  per_second_add = λ s z. z;
  per_second_update = λ s now. s;
}

abbrev pub out_lib : OutStreamLib
out_lib = record {
  OutStream = List ℕ;
  pos = length;
  octets = λ s. s;
  out_init = λ n. [];
  write_u8 = λ s x. (pos 0, s ++ x ∷ []);
  write_u16 = λ s x. (pos 0, s ++ x ∷ []);
  write_octets = λ s xs. (pos 0, s ++ xs);
}

abbrev pub head_or_zero : List ℕ → ℕ × List ℕ
head_or_zero [] = (0, [])
head_or_zero (x ∷ xs) = (x, xs)

abbrev pub in_lib : InStreamLib steps_lib
in_lib = record {
  InStream = List ℕ;
  in_init = λ xs. xs;
  at_end = λ s. length s == 0;
  read_u8 = head_or_zero;
  read_u16 = head_or_zero;
  steps_in_header = λ s. (pos 0, 0, 1, s);
  steps_in_single = λ s id steps. (pos 1, s, (steps.0 + 1, steps.1, steps.2 + 1));
  pending_in_header = λ s. (pos 0, 0, 0, s);
}

abbrev pub ordered_lib : OrderedLib in_lib out_lib
ordered_lib = record {
  OrderedIn = ℕ;
  ordered_in_init = 0;
  ordered_in_receive = λ o s.
      if (head_or_zero s).0 == o then (pos 0, o + 1, (head_or_zero s).1) else (negsuc 0, o, s);
  ordered_in_forget = λ o. 0;
  OrderedOut = ℕ;
  ordered_out_init = 0;
  ordered_out_prepare = λ o s. (o, s ++ o ∷ []);
  ordered_out_commit = λ o. o + 1;
}

abbrev pub blob_lib : BlobLib in_lib out_lib
blob_lib = record {
  BlobStreamOut = List ℕ;
  blob_init = λ xs. xs;
  BlobStreamLogicOut = List ℕ × ℕ;
  logic_init = λ b id. (b, id);
  transfer_id = λ l. l.1;
  next_transfer_id = λ n. n + 1;
  BlobEntry = ℕ;
  logic_receive = λ l s. (pos 0, l, s);
  logic_prepare_send = λ l now n. (l.0, l);
  logic_send_entry = λ s x n. s ++ x ∷ [];
  logic_start_transfer = λ l s. (pos 0, l, s ++ l.1 ∷ []);
}

abbrev pub serialize_lib : SerializeLib in_lib out_lib
serialize_lib = record {
  cmd_client_out_blob_stream = 1;
  cmd_connect_request = 2;
  cmd_game_step = 3;
  cmd_join_game_request = 4;
  cmd_download_game_state_request = 5;
  cmd_server_out_blob_stream = 6;
  write_command = λ s cmd. s ++ cmd ∷ [];
  Version = ℕ;
  version_is_equal = λ v w. v == w;
  in_connect_request = λ s. (
    pos 0,
    record {
      application_version = 1;
      client_request_id = (head_or_zero s).0;
      use_debug_streams = false;
    },
    (head_or_zero s).1,
  );
  out_connect_response = λ s r. (pos 0, s ++ r.connection_id ∷ []);
  in_join_game_request = λ s. (
    pos 0,
    record {
      nonce = 0;
      join_game_type =
          if (head_or_zero s).0 == 0 then JoinGameType.no_secret else JoinGameType.party_secret;
      party_id = (head_or_zero s).0 - 1;
      players = record { local_index = 0 } ∷ [];
      player_count = 1;
    },
    (head_or_zero s).1,
  );
  out_join_game_response = λ s r. s ++ r.party_id ∷ [];
  out_join_game_out_of_slots = λ s n. s ++ n ∷ [];
  out_step_header = λ s a b c. (pos 0, s ++ a ∷ b ∷ c ∷ []);
  pending_ranges = λ from to mask n m. (pos 0, []);
  out_ranges = λ s steps ranges. (pos 0, s ++ length ranges ∷ []);
  out_game_state_response = λ s step xs id transfer. (pos 0, s ++ step ∷ transfer ∷ []);
  step_type_code = λ k. 1;
  datagram_max_size = 1200;
}

abbrev pub external : External
external = record {
  steps = steps_lib;
  stats = stats_lib;
  out = out_lib;
  input = in_lib;
  ordered = ordered_lib;
  blobs = blob_lib;
  serialize = serialize_lib;
}
