-- ===== src/Router/Keeping.antt =====
-- Every request to gate/src/http.rs keeps the ledger a chain and every status known.
use mathlib.Core.Path.{subst}
use esclusa.Prelude.{ℕ, ◌+◌, ◌<◌, Option, none, some, true, ◌≡◌, List, length, refl, sym, arith}
use esclusa.Prelude.Int.{i64_max}
use esclusa.External.{External, KeepsMicros}
use esclusa.Db.{World}
use esclusa.Db.Statements.{bind_lem}
use esclusa.Ledger.Store.Plain.{KeepsPlain}
use esclusa.Http.{AppState}
use esclusa.Http.Recording.{KeepsParams, evaluate-Sound}
use esclusa.Sync.{topology_sync}
use esclusa.Sync.Recording.{topology_sync-Sound}
use esclusa.Demo.{demo_decommission}
use esclusa.Demo.Recording.{demo_decommission-Sound}
use esclusa.Probe.Cycle.{Sound}
use esclusa.Router.{
  Endpoint, root, ready, healthz, evaluate, ledger, verify, policies, topology, drift, sync,
  decommission, route, Request, Surroundings, handle, serve,
}
use esclusa.Router.Reading.{is_read, handle_read}

module _ (x : External) (key : List ℕ) (micros : KeepsMicros x) (kept : KeepsPlain x) where
  open x use {Number}

  module _ (st : AppState) (out : Surroundings Number) (req : Request) (w : World Number)
      (room : length w.tables.ledger + length (out.by_hostname w.tables.topology) < i64_max)
      (s : Sound x key w.tables) where
    abbrev keyed : AppState
    keyed = record st { signing_key = key }

    abbrev Kept : Option Endpoint → Type 0
    Kept o = Sound x key (handle x keyed out req o w).1.tables

    read : (e : Endpoint) → is_read e ≡ true → Kept (some e)
    read e h = subst (Sound x key) (sym (handle_read x keyed out req e h w)) s

    handle-Sound :
        (o : Option Endpoint)
        → (o ≡ some evaluate → KeepsParams x key (out.evaluate_req req.body))
        → Kept o
    handle-Sound none params = s
    handle-Sound (some evaluate) params =
        evaluate-Sound x key micros st out.evaluate_req req.headers req.peer req.body w
          (params refl) (omega arith) s
    handle-Sound (some sync) params =
        bind_lem (Sound x key)
          (topology_sync x keyed out.by_hostname out.snapshot req.headers req.body) _ w
          (topology_sync-Sound x key micros kept st out.by_hostname out.snapshot req.headers
            req.body w room s)
          (λ reply.
            topology_sync-Sound x key micros kept st out.by_hostname out.snapshot req.headers
              req.body w room s)
    handle-Sound (some decommission) params =
        let after =
          demo_decommission-Sound x key micros kept st out.by_hostname out.demo_req req.headers
            req.peer req.body out.network out.host out.port w (omega arith) s in
        bind_lem (Sound x key)
          (demo_decommission x keyed out.by_hostname out.demo_req req.headers req.peer req.body
            out.network out.host out.port)
          _ w after (λ reply. after)
    handle-Sound (some root) params = read root refl
    handle-Sound (some ready) params = read ready refl
    handle-Sound (some healthz) params = read healthz refl
    handle-Sound (some ledger) params = read ledger refl
    handle-Sound (some verify) params = read verify refl
    handle-Sound (some policies) params = read policies refl
    handle-Sound (some topology) params = read topology refl
    handle-Sound (some drift) params = read drift refl

    pub serve-Sound :
        (route req.method req.path ≡ some evaluate → KeepsParams x key (out.evaluate_req req.body))
        → Sound x key (serve x keyed out req w).1.tables
    unfolding serve
    serve-Sound params = handle-Sound (route req.method req.path) params
