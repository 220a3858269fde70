-- ===== src/Errors.antt =====
-- src/include/nimble-server/errors.h, and `nimbleServerIsErrorExternal` of src/lib/server.c.
use nimble_server_lib.Prelude.{ℤ, negsuc, Bool, ◌||◌, eqb_ℤ}

abbrev pub err_serialize : ℤ
err_serialize = negsuc 40

abbrev pub err_serialize_version : ℤ
err_serialize_version = negsuc 43

abbrev pub err_session_full : ℤ
err_session_full = negsuc 53

abbrev pub err_datagram_from_disconnected_connection : ℤ
err_datagram_from_disconnected_connection = negsuc 41

abbrev pub err_out_of_participant_memory : ℤ
err_out_of_participant_memory = negsuc 42

-- An error that comes from outside, such as a full session or a datagram that cannot be read.
unfoldable pub is_error_external : ℤ → Bool
is_error_external err =
    eqb_ℤ err err_serialize
    || eqb_ℤ err err_session_full
    || eqb_ℤ err err_datagram_from_disconnected_connection
    || eqb_ℤ err err_out_of_participant_memory
