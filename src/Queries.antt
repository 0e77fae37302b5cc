-- ===== src/Queries.antt =====
-- The handlers of gate/src/http.rs that only read: `GET /v1/ledger`, `/v1/drift`, `/v1/ledger/verify`,
-- `/v1/policies`, `/v1/topology` and `/healthz`. In a body made by
-- `json!` the fields stand in the order of their keys; the report of a verification is answered as it
-- is, with the fields in the order of their declaration.
pub mod Pages
pub mod Fetching
pub mod Latest
use esclusa.Prelude.{
  ℕ, ◌+◌, ◌-◌, ◌/◌, String, Bool, true, false, not, ◌&&◌, Option, none, some, List, [], ◌∷◌, map,
  leb, ltb, if◌then◌else◌, unwrap_or, is_some,
}
use esclusa.Prelude.Int.{ℤ, pos, pos_part, ltb_ℤ}
use esclusa.Json.{
  Value, Items, Fields, null, bool, number, string, array, object, nil, cons, end, field,
}
use esclusa.External.{External}
use esclusa.Db.{PolicyRow, TopologyRow, Tables, World, Exec, pure, query, attempt, ◌>>=◌}
use esclusa.Ledger.{Entry, VerifyReport, verify_chain}
use esclusa.Ledger.Store.{list, all_ordered}
use esclusa.Topology.{TopoRow, all}
use esclusa.Http.{AppState, Response, unavailable}

pub record Page : Type 0 where
  pub limit : Option ℤ
  pub offset : Option ℤ

-- `Ord::clamp` and `Ord::max` on an `i64`.
abbrev pub clamp : ℤ → ℤ → ℤ → ℤ
clamp z lo hi = if ltb_ℤ z lo then lo else if ltb_ℤ hi z then hi else z

abbrev pub max : ℤ → ℤ → ℤ
max a b = if ltb_ℤ a b then b else a

-- Both are at least 0, so that `LIMIT` and `OFFSET` accept them.
unfoldable pub limit_of : Page → ℕ
limit_of page = pos_part (clamp (unwrap_or page.limit (pos 100)) (pos 1) (pos 500))

unfoldable pub offset_of : Page → ℕ
offset_of page = pos_part (max (unwrap_or page.offset (pos 0)) (pos 0))

-- `ORDER BY ord`.
unfoldable pub insert_by_ord : PolicyRow → List PolicyRow → List PolicyRow
insert_by_ord r [] = r ∷ []
insert_by_ord r (s ∷ rows) = if leb r.ord s.ord then r ∷ s ∷ rows else s ∷ insert_by_ord r rows

unfoldable pub order_by_ord : List PolicyRow → List PolicyRow
unfolding insert_by_ord
order_by_ord [] = []
order_by_ord (r ∷ rows) = insert_by_ord r (order_by_ord rows)

abbrev pub sixty_seconds : ℕ
sixty_seconds = 60

-- Whether the probe loop has ended a cycle lately; both times in seconds, `saturating_sub`.
unfoldable pub probes_alive : ℕ → ℕ → Bool
probes_alive last now = ltb (now - last) sixty_seconds

-- `tokio::time::timeout`, in nanoseconds, with `map(|r| r.is_ok()).unwrap_or(false)`.
abbrev pub within : {N A : Type 0} → ℕ → Exec N A → Exec N Bool
within limit m w =
    let (r, w') = m w in
    let ok = is_some r in
    if leb w'.clock (w.clock + limit)
    then (some ok, w')
    else (some false, record w' { clock = w.clock + limit })

module _ (x : External) where
  open x use {Number, from_int}

  abbrev count : ℕ → Value Number
  count n = number (from_int (pos n))

  -- An array of a `Vec`.
  unfoldable pub items : {A : Type 0} → (A → Value Number) → List A → Items Number
  items f [] = nil
  items f (a ∷ rest) = cons (f a) (items f rest)

  abbrev pub entry_value : Entry Number → Value Number
  entry_value e = object (
      field "action" (string e.action) (
        field "actor" (string e.actor) (
          field "authenticated" (bool e.authenticated) (
            field "decision" (string e.decision) (
              field "hmac" (string e.hmac) (
                field "id" (number (from_int e.id)) (
                  field "kind" (string e.kind) (
                    field "params" e.params (
                      field "policy" (string e.policy) (
                        field "prev_hmac" (string e.prev_hmac) (
                          field "reason" (string e.reason) (
                            field "target" (string e.target)
                              (field "ts" (string e.ts) end)))))))))))))

  abbrev pub page_value : List (Entry Number) → ℕ → Value Number
  page_value entries total =
      object (field "entries" (array (items entry_value entries)) (field "total" (count total) end))

  abbrev pub page_reply : Option (List (Entry Number) × ℕ) → Response Number
  page_reply none = unavailable x
  page_reply (some (entries, total)) = record { status = 200; body = page_value entries total }

  abbrev pub read_page : Bool → Page → Option (List String) → Exec Number (Response Number)
  read_page false page kinds = pure (unavailable x)
  read_page true page kinds = do
    found ← attempt (list x (limit_of page) (offset_of page) kinds)
    pure (page_reply found)

  unfoldable pub ledger_list : AppState → Page → Exec Number (Response Number)
  unfolding limit_of offset_of list
  ledger_list st page = read_page st.connected page none

  unfoldable pub drift : AppState → Page → Exec Number (Response Number)
  unfolding limit_of offset_of list
  drift st page = read_page st.connected page (some ("drift" ∷ "audit" ∷ []))

  -- `head_hmac` is null on an empty ledger, `broken_at` is left out where nothing is broken.
  abbrev pub head_value : Option String → Value Number
  head_value none = null
  head_value (some h) = string h

  abbrev pub broken_fields : Option ℤ → Fields Number
  broken_fields none = end
  broken_fields (some id) = field "broken_at" (number (from_int id)) end

  abbrev pub report_value : VerifyReport → Value Number
  report_value r = object (
      field "valid" (bool r.valid) (
        field "checked" (count r.checked)
          (field "head_hmac" (head_value r.head_hmac) (broken_fields r.broken_at))))

  abbrev pub verify_reply : List ℕ → Option (List (Entry Number)) → Response Number
  verify_reply key none = unavailable x
  verify_reply key (some entries) = record {
    status = 200;
    body = report_value (verify_chain x key entries);
  }

  abbrev pub verify_with : List ℕ → Bool → Exec Number (Response Number)
  verify_with key false = pure (unavailable x)
  verify_with key true = do entries ← attempt (all_ordered x); pure (verify_reply key entries)

  unfoldable pub ledger_verify : AppState → Exec Number (Response Number)
  unfolding all_ordered verify_chain
  ledger_verify st = verify_with st.signing_key st.connected

  abbrev pub policy_value : PolicyRow → Value Number
  policy_value r = object (
      field "description" (string r.description) (
        field "effect" (string r.effect)
          (field "enabled" (bool r.enabled) (field "id" (string r.id) end))))

  abbrev pub policies_reply : Option (List PolicyRow) → Response Number
  policies_reply none = unavailable x
  policies_reply (some rows) = record {
    status = 200;
    body = object (field "policies" (array (items policy_value rows)) end);
  }

  abbrev pub read_policies : Bool → Exec Number (Response Number)
  read_policies false = pure (unavailable x)
  read_policies true = do
    rows ← attempt (query (λ _ tables. order_by_ord tables.policies))
    pure (policies_reply rows)

  unfoldable pub policies : AppState → Exec Number (Response Number)
  unfolding order_by_ord items
  policies st = read_policies st.connected

  abbrev pub port_value : Option ℤ → Value Number
  port_value none = null
  port_value (some p) = number (from_int p)

  abbrev pub service_value : TopoRow → Value Number
  service_value r = object (
      field "consecutive_failures" (count r.consecutive_failures) (
        field "hostname" (string r.hostname) (
          field "last_probe" (head_value r.last_probe) (
            field "probe_method" (string r.probe_method) (
              field "probe_ok" (bool r.probe_ok) (
                field "service_type" (string r.service_type) (
                  field "stateful" (bool r.stateful) (
                    field "status" (string r.status) (
                      field "tcp_port" (port_value r.tcp_port)
                        (field "updated_at" (string r.updated_at) end))))))))))

  abbrev pub topology_reply : Option (List TopoRow) → Response Number
  topology_reply none = unavailable x
  topology_reply (some rows) = record {
    status = 200;
    body = object (field "services" (array (items service_value rows)) end);
  }

  abbrev pub read_topology :
      Bool → (List TopologyRow → List TopologyRow) → Exec Number (Response Number)
  read_topology false by_hostname = pure (unavailable x)
  read_topology true by_hostname = do rows ← attempt (all x by_hostname); pure (topology_reply rows)

  unfoldable pub topology_get :
      AppState → (List TopologyRow → List TopologyRow) → Exec Number (Response Number)
  unfolding all items
  topology_get st by_hostname = read_topology st.connected by_hostname

  -- The client's `SELECT 1`, within two seconds.
  abbrev pub db_alive : Bool → Exec Number Bool
  db_alive false = pure false
  db_alive true = within 2_000_000_000 (query (λ _ _. tt))

  -- Whether a connected cache replies, and after which time, of which three seconds are awaited.
  abbrev pub cache_alive : Option (Bool × ℕ) → Exec Number Bool
  cache_alive none w = (some false, w)
  cache_alive (some (pong, elapsed)) w =
      if leb elapsed 3_000_000_000
      then (some pong, record w { clock = w.clock + elapsed })
      else (some false, record w { clock = w.clock + 3_000_000_000 })

  abbrev pub health : Bool → Bool → Bool → Response Number
  health db cache probes = record {
    status = 200;
    body = object (
        field "cache" (bool cache) (
          field "db" (bool db)
            (field "ok" (bool (db && probes)) (field "probes" (bool probes) end))));
  }

  abbrev now_seconds : Exec Number ℕ
  now_seconds w = (some (w.clock / 1_000_000_000), w)

  -- `last` is `last_probe_cycle`, and `ping` the cache's reply to PING, if one is connected.
  unfoldable pub healthz : AppState → ℕ → Option (Bool × ℕ) → Exec Number (Response Number)
  unfolding probes_alive
  healthz st last ping = do
    db ← db_alive st.connected
    cache ← cache_alive ping
    now ← now_seconds
    pure (health db cache (probes_alive last now))
