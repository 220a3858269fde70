-- ===== src/Safety/Valid.antt =====
-- The invariant of the server of src/lib/server.c.
use nimble_server_lib.Prelude.{◌+◌, ◌<◌, ◌^◌, ◌≡◌, List, length, All}
use nimble_server_lib.External.{External, StepsLib, StatsLib}
use nimble_server_lib.CircularBuffer.{CircularBuffer}
use nimble_server_lib.CircularBuffer.Fifo.{contents}
use nimble_server_lib.CircularBuffer.Fifo as Fifo
use nimble_server_lib.Participants.{Participants}
use nimble_server_lib.Participants.Slots.{Every}
use nimble_server_lib.Participants.Inv.{IsValid}
use nimble_server_lib.AuthoritativeSteps.Slot.{Housed}
use nimble_server_lib.LocalParties.{LocalParties}
use nimble_server_lib.Server.{Server}
use nimble_server_lib.Safety.Shapes.{Link, shapes, links, used_shapes, LinkValid, ShapeValid}

-- The list of free connections holds indices of connections.
pub record RingValid (b : CircularBuffer) : Type 0 where
  pub ring : Fifo.IsValid b
  pub small : All (λ i. i < 64) (contents b)

-- The parties, the participants and the connections refer to one another within their arrays, and
-- the parties in use are counted.
pub record Tied {st : StatsLib} {sl : StepsLib} (ls : List Link) (parties : LocalParties st)
    (ps : Participants sl) : Type 0 where
  pub valid : IsValid ps
  pub housed : Every (λ i p. Housed (length parties.parties) p) ps.participants
  pub connections : length ls ≡ 64
  pub linked : All (LinkValid (length parties.parties)) ls
  pub shaped : All (ShapeValid (length ps.participants) ls) (shapes parties.parties)
  pub counted : parties.parties_count ≡ used_shapes (shapes parties.parties)
  pub capacity : length parties.parties ≡ parties.capacity_count
  pub small : parties.capacity_count + 1 < 2 ^ 64

pub record ServerValid {e : External} (self : Server e) : Type 0 where
  pub tied : Tied (links self.transport_connections) self.local_parties self.game.participants
  pub free : RingValid self.free_transport_connection_list
