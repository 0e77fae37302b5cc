-- ===== src/Tests/SyncTests.antt =====
-- A snapshot with one service of a concrete topology, and one that is new.
use esclusa.Prelude.{ℕ, true, false, Option, some, none, List, [], ◌∷◌}
use esclusa.Prelude.Int.{pos}
use esclusa.Db.{TopologyRow}
use esclusa.Http.{AppState, HeaderMap}
use esclusa.Topology.{SeedService}
use esclusa.Sync.{topology_sync}
use esclusa.Sync.Answering.{Synced, topology_sync-Synced}
use esclusa.Prelude.{All, inl, inr, refl, arith}
use esclusa.Ledger.Store.Chained.{IsLedger, IsLedger-nil}
use esclusa.Probe.Cycle.{HasStatus}
use esclusa.Sync.Recording.{topology_sync-Sound}
use esclusa.Tests.Fixtures.{toy, toy-KeepsMicros, toy-KeepsPlain, key, tables, world}

abbrev app : AppState
app = record {
  connected = true;
  cache = none;
  mem_rl = [];
  gate_token = some (115 ∷ []);
  signing_key = key;
}

abbrev headers : HeaderMap
headers = record { x_forwarded_for = none; x_gate_token = some (115 ∷ []) }

abbrev from_slice : List ℕ → Option (List SeedService)
from_slice [] = none
from_slice (b ∷ r) = some (
    record {
      hostname = "old";
      service_type = "go";
      stateful = false;
      probe_method = "dns";
      tcp_port = none;
    }
    ∷ record {
      hostname = "api";
      service_type = "go";
      stateful = false;
      probe_method = "tcp";
      tcp_port = some (pos 80);
    }
    ∷ [])

abbrev as_read : List TopologyRow → List TopologyRow
as_read rows = rows

topology_sync-Synced_example :
    Synced toy app headers
      (from_slice (123 ∷ []))
      tables
      (topology_sync toy app as_read from_slice headers (123 ∷ []) world)
topology_sync-Synced_example =
    topology_sync-Synced toy app headers as_read from_slice (123 ∷ []) world

topology_sync-Sound_example :
    IsLedger toy key
      (topology_sync toy app as_read from_slice headers (123 ∷ []) world).1.tables.ledger
    × All HasStatus
        (topology_sync toy app as_read from_slice headers (123 ∷ []) world).1.tables.topology
topology_sync-Sound_example =
    topology_sync-Sound toy key toy-KeepsMicros toy-KeepsPlain app as_read from_slice headers
      (123 ∷ []) world (omega arith)
      (IsLedger-nil toy key, (inl refl, (inl refl, (inr (inl refl), tt))))
