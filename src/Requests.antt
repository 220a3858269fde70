-- ===== src/Requests.antt =====
-- The handlers of the clients' requests, one to a file of src/lib/req_*.c.
pub mod Connect
pub mod Join
pub mod Step
pub mod Send
pub mod Download
