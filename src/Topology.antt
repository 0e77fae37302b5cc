-- ===== src/Topology.antt =====
-- gate/src/topology.rs: what a snapshot says of a service and which of them are usable, the rows of the
-- topology, and the view of it that the rules read.
pub mod Usable
pub mod Updates
pub mod Seed
use Prim.Native.String.{◌++◌}
use esclusa.Prelude.{
  ℕ, ◌≤◌, String, Bool, true, false, ◌&&◌, ◌==◌, eq_iff, Option, none, some, List, [], ◌∷◌, map,
  leb, if◌then◌else◌, ◌≡◌, ◌≢◌, ◌↔◌, ◌⊎◌, arith,
}
use mathlib.Core.Option
use esclusa.Prelude.Int.{ℤ, pos, leb_ℤ}
use esclusa.Text.{is_blank}
use esclusa.External.{External}
use esclusa.Ledger.{ts_string}
use esclusa.Db.{TopologyRow, Exec, pure, query, ◌>>=◌}
use esclusa.Policy.{TopoView}

-- A service of a snapshot.
pub record SeedService : Type 0 where
  pub hostname : String
  pub service_type : String
  pub stateful : Bool
  pub probe_method : String
  pub tcp_port : Option ℤ

-- `Result<(), String>`
pub data Validation : Type 0 where
  ok : Validation
  err : String → Validation

-- The check of the port of a service that is probed by TCP.
abbrev pub validate_port : String → Option ℤ → Validation
validate_port hostname none =
    err ("service '" ++ hostname ++ "': probe_method tcp requires tcp_port 1-65535")
validate_port hostname (some p) =
    if leb_ℤ (pos 1) p && leb_ℤ p (pos 65535)
    then ok
    else err ("service '" ++ hostname ++ "': probe_method tcp requires tcp_port 1-65535")

unfoldable pub validate_service : SeedService → Validation
validate_service s =
    if is_blank s.hostname
    then err "hostname must not be empty"
    else if s.probe_method == "none"
    then ok
    else if s.probe_method == "dns"
    then ok
    else if s.probe_method == "tcp"
    then validate_port s.hostname s.tcp_port
    else err ("service '" ++ s.hostname ++ "': unknown probe_method '" ++ s.probe_method ++ "'")

-- A row as the gate shows it.
pub record TopoRow : Type 0 where
  pub hostname : String
  pub service_type : String
  pub stateful : Bool
  pub probe_method : String
  pub tcp_port : Option ℤ
  pub status : String
  pub probe_ok : Bool
  pub consecutive_failures : ℕ
  pub last_probe : Option String
  pub updated_at : String

abbrev pub row_from_pg : External → TopologyRow → TopoRow
row_from_pg x row = record {
  hostname = row.hostname;
  service_type = row.service_type;
  stateful = row.stateful;
  probe_method = row.probe_method;
  tcp_port = row.tcp_port;
  status = row.status;
  probe_ok = row.probe_ok;
  consecutive_failures = row.consecutive_failures;
  last_probe = Option.map (ts_string x) row.last_probe;
  updated_at = ts_string x row.updated_at;
}

-- The rows as `views` reads them, whatever their status.
abbrev pub view_of : TopologyRow → TopoView
view_of row = record { hostname = row.hostname; stateful = row.stateful }

unfoldable pub views : {N : Type 0} → Exec N (List TopoView)
views = do rows ← query (λ _ tables. tables.topology); pure (map view_of rows)

-- `ORDER BY hostname`, which the database's collation decides.
unfoldable pub all :
    (x : External) → (List TopologyRow → List TopologyRow) → Exec x.Number (List TopoRow)
all x by_hostname = do
  rows ← query (λ _ tables. by_hostname tables.topology)
  pure (map (row_from_pg x) rows)
