-- ===== src/Router.antt =====
-- The router of gate/src/http.rs: which request reaches which handler, and the two constant answers.
pub mod Reading
pub mod Keeping
use esclusa.Prelude.{
  ℕ, String, Bool, true, false, ◌&&◌, ◌==◌, Option, none, some, List, [], ◌∷◌, any, find,
  if◌then◌else◌,
}
use mathlib.Core.Option
use esclusa.Json.{Value, Items, null, string, array, object, nil, cons, field, end}
use esclusa.External.{External}
use esclusa.Db.{TopologyRow, Exec, pure, ◌>>=◌}
use esclusa.RateLimit.{MemRl}
use esclusa.Topology.{SeedService}
use esclusa.Http.{AppState, HeaderMap, EvaluateReq, Response}
use esclusa.Http
use esclusa.Queries.{Page}
use esclusa.Queries
use esclusa.Sync.{topology_sync}
use esclusa.Demo.{DemoReq, Peer, demo_decommission}

pub data Method : Type 0 where
  get post : Method

pub data Endpoint : Type 0 where
  root ready healthz evaluate ledger verify policies topology drift sync decommission : Endpoint

-- The routes, as `router` adds them.
abbrev pub routes : List (Method × String × Endpoint)
routes =
    (get, "/", root)
    ∷ (get, "/ready", ready)
    ∷ (get, "/healthz", healthz)
    ∷ (post, "/v1/evaluate", evaluate)
    ∷ (get, "/v1/ledger", ledger)
    ∷ (get, "/v1/ledger/verify", verify)
    ∷ (get, "/v1/policies", policies)
    ∷ (get, "/v1/topology", topology)
    ∷ (get, "/v1/drift", drift)
    ∷ (post, "/v1/topology/sync", sync)
    ∷ (post, "/v1/demo/decommission", decommission)
    ∷ []

abbrev pub same_method : Method → Method → Bool
same_method get get = true
same_method post post = true
same_method get post = false
same_method post get = false

unfoldable pub route : Method → String → Option Endpoint
route m path =
    Option.map (λ (r : Method × String × Endpoint). r.2)
      (find (λ r. same_method r.0 m && r.1 == path) routes)

-- A request, as the extractors give it to the handlers.
pub record Request : Type 0 where
  pub method : Method
  pub path : String
  pub headers : HeaderMap
  pub peer : String
  pub page : Page
  pub body : List ℕ

-- What the handlers take from elsewhere: serde_json's readings of a body, the collation, the cache's
-- reply to PING, the last cycle of the probes, and the decommission target.
pub record Surroundings (N : Type 0) : Type 0 where
  pub evaluate_req : List ℕ → Option (EvaluateReq N)
  pub snapshot : List ℕ → Option (List SeedService)
  pub demo_req : List ℕ → Option DemoReq
  pub by_hostname : List TopologyRow → List TopologyRow
  pub ping : Option (Bool × ℕ)
  pub last_probe_cycle : ℕ
  pub network : Peer
  pub host : String
  pub port : ℕ
  pub version : String

module _ (x : External) where
  open x use {Number}

  abbrev pub described : String → String → String → String → Value Number
  described method path auth purpose = object (
      field "auth" (string auth) (
        field "method" (string method)
          (field "path" (string path) (field "purpose" (string purpose) end))))

  abbrev pub endpoints : Items Number
  endpoints = cons (described "GET" "/" "none" "service info") (
      cons (described "GET" "/ready" "none" "process readiness (no db dependency)") (
        cons (described "GET" "/healthz" "none" "subsystem health booleans") (
          cons
            (described "POST" "/v1/evaluate" "optional X-Gate-Token"
              "evaluate a proposed action; decision is recorded in the ledger")
            (cons
              (described "GET" "/v1/ledger" "none" "ledger entries, newest first (?limit&offset)")
              (cons (described "GET" "/v1/ledger/verify" "none" "recompute the full HMAC chain") (
                cons (described "GET" "/v1/policies" "none" "policy list") (
                  cons (described "GET" "/v1/topology" "none" "topology model and live probe state")
                    (cons
                      (described "GET" "/v1/drift" "none"
                        "drift/audit ledger entries, newest first")
                      (cons
                        (described "POST" "/v1/topology/sync" "X-Gate-Token required"
                          "replace probe set from a fresh snapshot; flag unexplained removals")
                        (cons
                          (described "POST" "/v1/demo/decommission" "none"
                            "drives the console scenarios: really takes the decommission target offline, with or without asking first")
                          nil))))))))))

  abbrev pub root_reply : String → Response Number
  root_reply version = record {
    status = 200;
    body = object (
        field "description"
          (string
            "Esclusa — policy gate and tamper-evident audit ledger for agent-driven infrastructure on Zerops")
          (field "endpoints" (array endpoints)
            (field "name" (string "esclusa-gate") (field "version" (string version) end))));
  }

  -- The answer of a handler that leaves the map of the limiter alone.
  abbrev pub beside : MemRl → Exec Number (Response Number) → Exec Number (Response Number × MemRl)
  beside mem m = do reply ← m; pure (reply, mem)

  -- axum's answer where no route has the path, or none of those has the method.
  abbrev pub unrouted : String → Response Number
  unrouted path = record {
    status = if any (λ (r : Method × String × Endpoint). r.1 == path) routes then 405 else 404;
    body = null;
  }

  -- By the endpoint. The text `ready` is no JSON; it stands as one here.
  abbrev pub handle :
      AppState
      → Surroundings Number
      → Request
      → Option Endpoint
      → Exec Number (Response Number × MemRl)
  handle st out req none = pure (unrouted req.path, st.mem_rl)
  handle st out req (some root) = pure (root_reply out.version, st.mem_rl)
  handle st out req (some ready) = pure (record { status = 200; body = string "ready" }, st.mem_rl)
  handle st out req (some healthz) =
      beside st.mem_rl (Queries.healthz x st out.last_probe_cycle out.ping)
  handle st out req (some evaluate) =
      Http.evaluate x st out.evaluate_req req.headers req.peer req.body
  handle st out req (some ledger) = beside st.mem_rl (Queries.ledger_list x st req.page)
  handle st out req (some verify) = beside st.mem_rl (Queries.ledger_verify x st)
  handle st out req (some policies) = beside st.mem_rl (Queries.policies x st)
  handle st out req (some topology) = beside st.mem_rl (Queries.topology_get x st out.by_hostname)
  handle st out req (some drift) = beside st.mem_rl (Queries.drift x st req.page)
  handle st out req (some sync) =
      beside st.mem_rl (topology_sync x st out.by_hostname out.snapshot req.headers req.body)
  handle st out req (some decommission) = do
    (reply, mem) ←
        demo_decommission x st out.by_hostname out.demo_req req.headers req.peer req.body
          out.network out.host out.port
    pure (reply.0, mem)

  unfoldable pub serve :
      AppState → Surroundings Number → Request → Exec Number (Response Number × MemRl)
  unfolding route
  serve st out req = handle st out req (route req.method req.path)
