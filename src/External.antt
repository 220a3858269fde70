-- ===== src/External.antt =====
-- The libraries that the server calls and this repository does not hold, as parameters: each is a
-- record of what the server reads and calls of it, and `External` is all of them.
-- A function that updates `*self` returns the new value behind its result.
mod Streams
mod Serialize
pub use Streams.*
pub use Serialize.*

pub record External : Type 1 where
  pub steps : StepsLib
  pub stats : StatsLib
  pub out : OutStreamLib
  pub input : InStreamLib steps
  pub ordered : OrderedLib input out
  pub blobs : BlobLib input out
  pub serialize : SerializeLib input out
