-- ===== src/Sync.antt =====
-- The handler of `POST /v1/topology/sync` in gate/src/http.rs: a snapshot replaces the probe set, and
-- what it leaves out is audited or flagged.
pub mod Showing
pub mod Presence
pub mod Answering
pub mod Holding
pub mod Recording
use Prim.Native.String.{◌++◌}
use esclusa.Prelude.{
  ℕ, String, Bool, true, false, not, ◌&&◌, ◌||◌, ◌==◌, Option, none, some, List, [], ◌∷◌, map, any,
  if◌then◌else◌, unwrap_or, is_some,
}
use esclusa.Prelude.Dict
use esclusa.Prelude.Dict.{Dict, collect}
use esclusa.Json.{Value, object, array, field, end, texts, empty_object}
use esclusa.Clock.{DateTime}
use esclusa.External.{External}
use esclusa.Db.{TopologyRow, Tables, World, Exec, pure, perform, query, attempt, ◌>>=◌, ◌>>◌}
use esclusa.Ledger.{NewEntry}
use esclusa.Ledger.Store.{append, recent_allow_exists}
use esclusa.Secrets.{token_matches}
use esclusa.Topology.{SeedService, Validation, ok, err, validate_service}
use esclusa.Topology.Updates.{set_rows, update, is_host, is_present, moved, status_after}
use esclusa.Http
use esclusa.Http.{AppState, HeaderMap, Response}

-- The row that `INSERT` makes of a service, and what `ON CONFLICT` sets in the row that is there.
abbrev pub inserted : DateTime → SeedService → TopologyRow
inserted t s = record {
  hostname = s.hostname;
  service_type = s.service_type;
  stateful = s.stateful;
  probe_method = s.probe_method;
  tcp_port = s.tcp_port;
  status = "present";
  probe_ok = false;
  consecutive_failures = 0;
  last_probe = none;
  updated_at = t;
}

abbrev pub synced : DateTime → SeedService → TopologyRow → TopologyRow
synced t s r = record r {
  service_type = s.service_type;
  stateful = s.stateful;
  probe_method = s.probe_method;
  tcp_port = s.tcp_port;
  status = "present";
  consecutive_failures = 0;
  updated_at = t;
}

unfoldable pub upsert_row : DateTime → SeedService → List TopologyRow → List TopologyRow
upsert_row t s [] = inserted t s ∷ []
upsert_row t s (r ∷ rows) =
    if r.hostname == s.hostname then synced t s r ∷ rows else r ∷ upsert_row t s rows

abbrev pub upsert : {N : Type 0} → DateTime → SeedService → Tables N → Tables N
upsert t s tables = record tables { topology = upsert_row t s tables.topology }

-- The message for the first service that cannot be used.
unfoldable pub first_invalid : List SeedService → Option String
first_invalid [] = none
first_invalid (s ∷ services) = elim (validate_service s) [
  | ok ↦ first_invalid services
  | err msg ↦ some msg
]

-- A name put in the first list or the second.
abbrev pub sorted_in : Bool → String → List String × List String → List String × List String
sorted_in true name (first, second) = (name ∷ first, second)
sorted_in false name (first, second) = (first, name ∷ second)

module _ (x : External) where
  open x use {Number, timestamptz}

  -- The first loop, with the names added and those updated.
  unfoldable pub apply_snapshot :
      Dict String → List SeedService → Exec Number (List String × List String)
  unfolding upsert_row
  apply_snapshot existing [] = pure ([], [])
  apply_snapshot existing (s ∷ services) = do
    perform (λ t tables. some (tt, upsert (timestamptz t) s tables))
    names ← apply_snapshot existing services
    pure (sorted_in (not (is_some (Dict.get existing s.hostname))) s.hostname names)

  abbrev pub absence : String → Bool → NewEntry Number
  absence host true = record {
    kind = "audit";
    actor = "topology-sync";
    action = "sync.audit";
    target = host;
    decision = "info";
    reason = host ++ " absent from synced snapshot; matching allow found — removal audited";
    policy = "";
    params = empty_object;
    authenticated = true;
  }
  absence host false = record {
    kind = "drift";
    actor = "topology-sync";
    action = "sync.drift";
    target = host;
    decision = "flag";
    reason = host ++ " absent from synced snapshot with no matching allow — unaudited removal";
    policy = "";
    params = empty_object;
    authenticated = true;
  }

  -- A service that the snapshot leaves out: moved and recorded.
  unfoldable pub remove : List ℕ → String → Bool → Exec Number ℕ
  unfolding set_rows
  remove key host audited = do
    n ← perform (λ t. update (is_present host) (moved (status_after audited) (timestamptz t)))
    append x key (absence host audited)
    pure n

  abbrev pub remove_then :
      List ℕ
      → String
      → Exec Number (List String × List String)
      → Exec Number (List String × List String)
  remove_then key host rest = do
    allowed ← attempt (recent_allow_exists x host)
    let audited = unwrap_or allowed false
    remove key host audited
    names ← rest
    pure (sorted_in audited host names)

  -- The second loop over the rows read before the first, with the names audited and those not.
  unfoldable pub remove_absent :
      List ℕ → List String → List TopologyRow → Exec Number (List String × List String)
  unfolding remove
  remove_absent key hosts [] = pure ([], [])
  remove_absent key hosts (row ∷ rows) =
      if any (λ h. h == row.hostname) hosts || not (row.status == "present")
      then remove_absent key hosts rows
      else remove_then key row.hostname (remove_absent key hosts rows)

  abbrev pub summary : List String × List String → List String × List String → Value Number
  summary (added, updated) (audited, unaudited) = object (
      field "added" (array (texts added)) (
        field "removed_audited" (array (texts audited)) (
          field "removed_unaudited" (array (texts unaudited))
            (field "updated" (array (texts updated)) end))))

  abbrev pub sync_entry : Value Number → NewEntry Number
  sync_entry params = record {
    kind = "system";
    actor = "topology-sync";
    action = "topology.sync";
    target = "";
    decision = "info";
    reason = "topology snapshot synced";
    policy = "";
    params = params;
    authenticated = true;
  }

  -- From the client on; an error is the answer `unavailable`. `by_hostname` is the order of
  -- `topology::all`, which the database's collation decides.
  unfoldable pub sync :
      List ℕ → (List TopologyRow → List TopologyRow) → List SeedService → Exec Number (Value Number)
  unfolding apply_snapshot remove_absent
  sync key by_hostname services = do
    current ← query (λ _ tables. by_hostname tables.topology)
    applied ←
        apply_snapshot (collect [] (map (λ (r : TopologyRow). (r.hostname, r.status)) current))
          services
    removed ← remove_absent key (map (λ (s : SeedService). s.hostname) services) current
    append x key (sync_entry (summary applied removed))
    pure (summary applied removed)

  abbrev pub reply_to : Option (Value Number) → Response Number
  reply_to none = Http.unavailable x
  reply_to (some body) = record { status = 200; body = body }

  -- By the snapshot, the message for a service that cannot be used, and whether there is a client.
  abbrev pub sync_valid :
      List ℕ
      → (List TopologyRow → List TopologyRow)
      → List SeedService
      → Option String
      → Bool
      → Exec Number (Response Number)
  sync_valid key by_hostname services (some msg) connected = pure (Http.err x 400 msg)
  sync_valid key by_hostname services none false = pure (Http.unavailable x)
  sync_valid key by_hostname services none true = do
    body ← attempt (sync key by_hostname services)
    pure (reply_to body)

  abbrev pub sync_parsed :
      AppState
      → (List TopologyRow → List TopologyRow)
      → Option (List SeedService)
      → Exec Number (Response Number)
  sync_parsed st by_hostname none = pure (
      Http.err x 400
        "malformed body: expected {\"services\": [{hostname, service_type, stateful, probe_method, tcp_port}]}")
  sync_parsed st by_hostname (some services) =
      sync_valid st.signing_key by_hostname services (first_invalid services) st.connected

  -- `from_slice` is serde_json's reading of a body as a snapshot.
  unfoldable pub topology_sync :
      AppState
      → (List TopologyRow → List TopologyRow)
      → (List ℕ → Option (List SeedService))
      → HeaderMap
      → List ℕ
      → Exec Number (Response Number)
  unfolding sync first_invalid
  topology_sync st by_hostname from_slice headers body =
      if not (token_matches st.gate_token headers.x_gate_token)
      then pure (Http.err x 401 "missing or invalid X-Gate-Token")
      else sync_parsed st by_hostname (from_slice body)
