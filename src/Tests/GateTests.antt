-- ===== src/Tests/GateTests.antt =====
-- A short run of the gate.
use esclusa.Prelude.{
  unwrap_or, some_injective, ℕ, true, false, Option, some, none, List, [], ◌∷◌, map, All, ◌≡◌, inl,
  inr, refl, arith,
}
use esclusa.Json.{empty_object}
use esclusa.Db.{World, done, lost}
use esclusa.Ledger.{normalize_params, verify_chain}
use mathlib.Core.Path.{subst}
use esclusa.Ledger.Store.Chained.{KeepsJson}
use esclusa.Ledger.Store.Plain.{empty-KeepsJson}
use esclusa.Ledger.Store.{order_by_id, entry_from_row}
use esclusa.Http.{AppState, HeaderMap, EvaluateReq}
use esclusa.Router.{Request, Surroundings, get, post, evaluate, route, serve}
use esclusa.Router.Reading.{serve-get}
use esclusa.Probe.Cycle.{HasStatus}
use esclusa.Db.Quiet.{quiet}
use esclusa.Startup.{init_once}
use esclusa.Queries.{ledger_verify}
use esclusa.Gate.Verifying.{Verified, answer_with, sound_report, entries_of, Reachable-Verified}
use esclusa.Gate.{served, migrated, waited, Reachable, still, then_step, Reachable-valid}
use esclusa.Tests.Fixtures.{Num, toy, toy-KeepsMicros, toy-KeepsPlain, key, world}

abbrev app : AppState
app = record { connected = true; cache = none; mem_rl = []; gate_token = none; signing_key = key }

abbrev headers : HeaderMap
headers = record { x_forwarded_for = none; x_gate_token = none }

abbrev from_slice : List ℕ → Option (EvaluateReq Num)
from_slice body = some (record {
  actor = none;
  action = some "service.stop";
  target = some "app";
  params = some empty_object;
})

abbrev out : Surroundings Num
out = record {
  evaluate_req = from_slice;
  snapshot = λ body. none;
  demo_req = λ body. none;
  by_hostname = λ rows. rows;
  ping = none;
  last_probe_cycle = 0;
  network = record { connect = λ host port. false; write = false; read = none };
  host = "oldworker";
  port = 3000;
  version = "0.1.0";
}

abbrev req : Request
req = record {
  method = post;
  path = "/v1/evaluate";
  headers = headers;
  peer = "10.0.0.1";
  page = record { limit = none; offset = none };
  body = [];
}

abbrev list_req : Request
list_req = record req { method = get; path = "/v1/ledger" }

req_routed : route post "/v1/evaluate" ≡ some evaluate
unfolding route
req_routed = refl

-- No path of another method is a route.
req_of_get : route get "/v1/evaluate" ≡ none
unfolding route
req_of_get = refl

-- The third statement from here on loses its reply.
abbrev later : World Num
later = record world {
  clock = 9_000_000_000;
  awaits =
      record { outcome = done; elapsed = 5 }
      ∷ record { outcome = done; elapsed = 5 }
      ∷ record { outcome = lost; elapsed = 5 }
      ∷ [];
}

run : Reachable toy key world (serve toy app out req later).1
run = then_step (then_step still (waited 9_000_000_000 later.awaits refl)) (
    served app out req (omega arith)
      (λ e r p.
        subst
          (λ (q : EvaluateReq Num).
            KeepsJson toy key (normalize_params toy (unwrap_or q.params empty_object)))
          (some_injective p) (empty-KeepsJson toy toy-KeepsPlain key))
      refl refl)

Reachable-valid_example :
    ((verify_chain toy key (
        map (entry_from_row toy) (order_by_id (serve toy app out req later).1.tables.ledger))).valid
      ≡ true)
    × All HasStatus (serve toy app out req later).1.tables.topology
Reachable-valid_example =
    Reachable-valid toy key toy-KeepsMicros toy-KeepsPlain world (serve toy app out req later).1 run
      refl (inl refl, (inl refl, (inr (inl refl), tt)))

Reachable-Verified_example :
    Verified toy
      (serve toy app out req later).1.tables
      (ledger_verify toy (record app { signing_key = key }) (serve toy app out req later).1)
    × (ledger_verify toy
          (record app { signing_key = key; connected = true })
          (quiet 9 (serve toy app out req later).1.tables)
        ≡ (
          some (
              answer_with toy
                (sound_report toy (entries_of toy (serve toy app out req later).1.tables))),
          quiet 9 (serve toy app out req later).1.tables,
        ))
Reachable-Verified_example =
    Reachable-Verified toy key toy-KeepsMicros toy-KeepsPlain world (serve toy app out req later).1
      run refl (inl refl, (inl refl, (inr (inl refl), tt))) app 9

-- A gate that starts on an empty database.
abbrev blank : World Num
blank = record world { tables = record { ledger = []; policies = []; topology = [] } }

started : Reachable toy key blank (init_once toy true blank).1
started = then_step still (migrated true refl)

serve-get_example : (serve toy app out list_req later).1.tables ≡ later.tables
serve-get_example = serve-get toy app out list_req later refl
