-- ===== src/Safety.antt =====
-- What keeps the server of src/lib/server.c from leaving its arrays and following pointers that are
-- not set, and that each operation keeps it.
pub mod Shapes
pub mod Members
pub mod Compose
pub mod Valid
pub mod Ring
pub mod Tied
pub mod Dissolve
pub mod Tick
pub mod Streams
pub mod Predicted
pub mod Reply
pub mod Intake
pub mod Step
pub mod Connect
pub mod Faults
pub mod Created
pub mod Joinable
pub mod Choose
pub mod Join
pub mod Sending
pub mod Download
pub mod Again
pub mod Dispatch
pub mod Command
pub mod Feed
pub mod Update
pub mod Start
pub mod Housing
pub mod Migrate
pub mod Moved
pub mod Host
pub mod Reach
pub mod Recount
