-- ===== src/External/Streams.antt =====
-- The libraries nimble-steps, stats and flood, and the reading side of nimble-serialize and
-- nimble-steps-serialize, as parameters: what the server reads and calls of each.
-- A function that updates `*self` returns the new value behind its result.
use nimble_server_lib.Prelude.{ℕ, ℤ, Bool, List}

-- nimble-steps: a ring of steps, each a block of octets under its step id.
pub record StepsLib : Type 1 where
  -- NbsSteps, and its fields stepsCount, expectedReadId and expectedWriteId
  pub Steps : Type 0
  pub steps_count : Steps → ℕ
  pub expected_read_id : Steps → ℕ
  pub expected_write_id : Steps → ℕ
  -- NBS_WINDOW_SIZE and NimbleStepErrCollectionIsEmpty
  pub window_size : ℕ
  pub err_collection_is_empty : ℤ
  -- nbsStepsInit, of the octets of one step, and nbsStepsReInit, of the first step id
  pub steps_init : ℕ → Steps
  pub steps_re_init : Steps → ℕ → Steps
  -- nbsStepsWrite, nbsStepsReadExactStepId (of a step id and the size of a buffer: the result, the
  -- buffer after the call and the steps) and nbsStepsDiscardCount
  pub steps_write : Steps → ℕ → List ℕ → ℤ × Steps
  pub steps_read_exact : Steps → ℕ → ℕ → ℤ × List ℕ × Steps
  pub steps_discard_count : Steps → ℕ → ℤ × Steps
  -- tc_convert_uint8_t_from_ssize, of tiny-libc
  pub convert_u8 : ℤ → ℕ
  -- nbsStepsOutSerializeCalculateCombinedSize
  pub combined_size : ℕ → ℕ → ℕ

-- stats: running averages.
pub record StatsLib : Type 1 where
  -- StatsInt, its fields avgIsSet and avg, statsIntInit and statsIntAdd
  pub StatsInt : Type 0
  pub avg_is_set : StatsInt → Bool
  pub avg : StatsInt → ℤ
  pub stats_init : ℕ → StatsInt
  pub stats_add : StatsInt → ℤ → StatsInt
  -- StatsIntPerSecond, statsIntPerSecondInit (now, interval), -Add and -Update (now)
  pub StatsPerSecond : Type 0
  pub per_second_init : ℕ → ℕ → StatsPerSecond
  pub per_second_add : StatsPerSecond → ℤ → StatsPerSecond
  pub per_second_update : StatsPerSecond → ℕ → StatsPerSecond

-- flood: streams of octets over a buffer.
pub record OutStreamLib : Type 1 where
  -- FldOutStream, its position and the octets up to it
  pub OutStream : Type 0
  pub pos : OutStream → ℕ
  pub octets : OutStream → List ℕ
  -- fldOutStreamInit over a buffer of so many octets, and the writes
  pub out_init : ℕ → OutStream
  pub write_u8 : OutStream → ℕ → ℤ × OutStream
  pub write_u16 : OutStream → ℕ → ℤ × OutStream
  pub write_octets : OutStream → List ℕ → ℤ × OutStream

-- The kind of an entry of an authoritative step (NimbleSerializeStepType of nimble-serialize).
pub data StepType : Type 0 where
  normal step_not_provided_in_time waiting_for_rejoin joined left : StepType

-- flood, nimble-serialize and nimble-steps-serialize on the receiving side.
pub record InStreamLib (sl : StepsLib) : Type 1 where
  -- FldInStream, `fldInStreamInit` over the octets of a datagram, and `pos == size`
  pub InStream : Type 0
  pub in_init : List ℕ → InStream
  pub at_end : InStream → Bool
  -- Where a read fails the value is whatever the variable holds: the server does not look at the
  -- error of these two.
  pub read_u8 : InStream → ℕ × InStream
  pub read_u16 : InStream → ℕ × InStream
  -- nbsStepsInSerializeHeader: the first step id, and how many steps follow
  pub steps_in_header : InStream → ℤ × ℕ × ℕ × InStream
  -- nbsStepsInSerializeSinglePredictedStep
  pub steps_in_single : InStream → ℕ → sl.Steps → ℤ × InStream × sl.Steps
  -- nbsPendingStepsInSerializeHeader: the step id that the client waits for, and its receive mask
  pub pending_in_header : InStream → ℤ × ℕ × ℕ × InStream
