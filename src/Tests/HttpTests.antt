-- ===== src/Tests/HttpTests.antt =====
-- A request to `/v1/evaluate` and its answer.
use esclusa.Prelude.{ℕ, true, Option, some, none, List, [], ◌∷◌}
use esclusa.Json.{empty_object}
use esclusa.Http.{AppState, HeaderMap, EvaluateReq, evaluate}
use esclusa.Http.FailClosed.{Answered, evaluate-fails_closed}
use esclusa.Tests.Fixtures.{Num, toy, key, tables, world}

abbrev app : AppState
app = record {
  connected = true;
  cache = none;
  mem_rl = [];
  gate_token = some (115 ∷ []);
  signing_key = key;
}

abbrev headers : HeaderMap
headers = record { x_forwarded_for = some " 10.0.0.9 , 10.0.0.1"; x_gate_token = some (115 ∷ []) }

abbrev from_slice : List ℕ → Option (EvaluateReq Num)
from_slice [] = none
from_slice (b ∷ r) = some (record {
  actor = none;
  action = some "service.delete";
  target = some "app";
  params = some empty_object;
})

evaluate-fails_closed_example :
    Answered toy app headers
      (from_slice (123 ∷ []))
      tables
      (evaluate toy app from_slice headers "10.1.1.1" (123 ∷ []) world)
evaluate-fails_closed_example =
    evaluate-fails_closed toy app from_slice headers "10.1.1.1" (123 ∷ []) world

abbrev request : EvaluateReq Num
request = record {
  actor = none;
  action = some "service.delete";
  target = some "app";
  params = some empty_object;
}
