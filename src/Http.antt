-- ===== src/Http.antt =====
-- The handler of `POST /v1/evaluate` in gate/src/http.rs: limit, validate, decide, record, answer.
pub mod Reading
pub mod Deciding
pub mod FailClosed
pub mod Passing
pub mod Answering
pub mod Recording
use Prim.Native.Char.{code}
use Prim.Native.String.{[], ◌∷◌}
use esclusa.Prelude.{
  ℕ, ◌/◌, String, Bool, true, false, not, ◌&&◌, ◌==◌, Option, none, some, List, map, nat_eq,
  if◌then◌else◌, unwrap_or, keep_if,
}
use mathlib.Core.Option
use esclusa.Prelude.Int.{ℤ}
use esclusa.Prelude.Dict.{Dict, collect}
use esclusa.Json.{Value, object, number, string, field, end, empty_object}
use esclusa.Text.{is_whitespace, is_blank}
use esclusa.External.{External}
use esclusa.Db.{PolicyRow, Tables, World, Exec, pure, query, attempt, ◌>>=◌}
use esclusa.Policy.{Decision, TopoView, Effect, allow, refuse}
use esclusa.Policy
use esclusa.Ledger.{Entry, NewEntry}
use esclusa.Ledger.Store.{append}
use esclusa.RateLimit.{Cache, MemRl, check}
use esclusa.Secrets.{token_matches}
use esclusa.Topology.{views}

-- What a handler reads of the application's state. `connected` is whether `db_client` gives a client.
pub record AppState : Type 0 where
  pub connected : Bool
  pub cache : Option Cache
  pub mem_rl : MemRl
  pub gate_token : Option (List ℕ)
  pub signing_key : List ℕ

-- The two headers, where present and text; the token by its bytes.
pub record HeaderMap : Type 0 where
  pub x_forwarded_for : Option String
  pub x_gate_token : Option (List ℕ)

-- `split(',').next()`
unfoldable pub before_comma : String → String
before_comma [] = []
before_comma (c ∷ s) = if nat_eq (code c) 44 then [] else c ∷ before_comma s

unfoldable pub trim_start : String → String
trim_start [] = []
trim_start (c ∷ s) = if is_whitespace (code c) then trim_start s else c ∷ s

unfoldable pub trim_end : String → String
trim_end [] = []
trim_end (c ∷ s) =
    let rest = trim_end s in if is_whitespace (code c) && rest == [] then [] else c ∷ rest

-- The first value of X-Forwarded-For, else the peer's address.
unfoldable pub client_ip : HeaderMap → String → String
unfolding before_comma trim_start trim_end
client_ip headers peer =
    unwrap_or
      (keep_if (λ s. not (s == []))
        (Option.map (λ v. trim_end (trim_start (before_comma v))) headers.x_forwarded_for))
      peer

pub record EvaluateReq (N : Type 0) : Type 0 where
  pub actor : Option String
  pub action : Option String
  pub target : Option String
  pub params : Option (Value N)

pub record Response (N : Type 0) : Type 0 where
  pub status : ℕ
  pub body : Value N

-- `HashMap` of the enabled flags.
unfoldable pub load_enabled : {N : Type 0} → Exec N (Dict Bool)
load_enabled = do
  rows ← query (λ _ tables. tables.policies)
  pure (collect List.[] (map (λ (r : PolicyRow). (r.id, r.enabled)) rows))

-- `filter(|a| !a.trim().is_empty())`
unfoldable pub present : Option String → Option String
present o = keep_if (λ s. not (is_blank s)) o

abbrev pub effect_text : Effect → String
effect_text allow = "allow"
effect_text refuse = "refuse"

module _ (x : External) where
  open x use {Number, from_int}

  abbrev pub err : ℕ → String → Response Number
  err status msg = record { status = status; body = object (field "error" (string msg) end) }

  abbrev pub unavailable : Response Number
  unavailable = err 503 "ledger unavailable — the gate fails closed"

  -- The answer 200, its fields ordered by key.
  abbrev pub decided : Decision → Entry Number → Response Number
  decided d entry = record {
    status = 200;
    body = object (
        field "decision" (string (effect_text d.effect)) (
          field "entry"
            (object (
              field "hmac" (string entry.hmac) (
                field "id" (number (from_int entry.id))
                  (field "prev_hmac" (string entry.prev_hmac) (field "ts" (string entry.ts) end)))))
            (field "policy" (string d.policy) (field "reason" (string d.reason) end))));
  }

  abbrev pub decision_entry :
      String → String → String → Value Number → Bool → Decision → NewEntry Number
  decision_entry actor action target params authenticated d = record {
    kind = "decision";
    actor = actor;
    action = action;
    target = target;
    decision = effect_text d.effect;
    reason = d.reason;
    policy = d.policy;
    params = params;
    authenticated = authenticated;
  }

  abbrev pub reply_to : Decision → Option (Entry Number) → Response Number
  reply_to d (some entry) = decided d entry
  reply_to d none = err 503 "ledger write failed — decision not recorded, the gate fails closed"

  -- The entry of the decision, and the answer.
  abbrev pub record_decision :
      List ℕ
      → String
      → String
      → String
      → Value Number
      → Bool
      → Decision
      → Exec Number (Response Number)
  record_decision key actor action target params authenticated d = do
    entry ← attempt (append x key (decision_entry actor action target params authenticated d))
    pure (reply_to d entry)

  abbrev pub decide_with :
      List ℕ
      → String
      → String
      → String
      → Value Number
      → Bool
      → List TopoView
      → Option (Dict Bool)
      → Exec Number (Response Number)
  decide_with key actor action target params authenticated topo none = pure unavailable
  decide_with key actor action target params authenticated topo (some enabled) =
      record_decision key actor action target params authenticated
        (Policy.evaluate x action target params topo enabled)

  abbrev pub decide_on :
      List ℕ
      → String
      → String
      → String
      → Value Number
      → Bool
      → Option (List TopoView)
      → Exec Number (Response Number)
  decide_on key actor action target params authenticated none = pure unavailable
  decide_on key actor action target params authenticated (some topo) = do
    enabled ← attempt load_enabled
    decide_with key actor action target params authenticated topo enabled

  -- A valid request, from `db_client` on.
  unfoldable pub decide :
      AppState → String → String → String → Value Number → Bool → Exec Number (Response Number)
  unfolding load_enabled views
  decide st actor action target params authenticated =
      if not st.connected then pure unavailable else (do
        topo ← attempt views
        decide_on st.signing_key actor action target params authenticated topo)

  -- By the action and the target, where they are given.
  abbrev pub answer_fields :
      AppState
      → HeaderMap
      → EvaluateReq Number
      → Option String
      → Option String
      → Exec Number (Response Number)
  answer_fields st headers req none target = pure (err 400 "missing required field: action")
  answer_fields st headers req (some action) none = pure (err 400 "missing required field: target")
  answer_fields st headers req (some action) (some target) =
      decide st (unwrap_or (present req.actor) "anonymous") action target
        (unwrap_or req.params empty_object) (token_matches st.gate_token headers.x_gate_token)

  unfoldable pub answer :
      AppState → HeaderMap → Option (EvaluateReq Number) → Exec Number (Response Number)
  unfolding decide
  answer st headers none = pure (err 400 "malformed JSON body")
  answer st headers (some req) =
      answer_fields st headers req (present req.action) (present req.target)

  -- The answer and the map of the limiter; `from_slice` is serde_json's reading of a body.
  unfoldable pub evaluate :
      AppState
      → (List ℕ → Option (EvaluateReq Number))
      → HeaderMap
      → String
      → List ℕ
      → Exec Number (Response Number × MemRl)
  unfolding answer check
  evaluate st from_slice headers peer body w =
      let (pass, mem) =
        check st.cache (w.clock / 1_000_000_000) (client_ip headers peer) st.mem_rl in
      if not pass
      then (some (err 429 "rate limit exceeded (30 req/min per client)", mem), w)
      else (do reply ← answer st headers (from_slice body); pure (reply, mem)) w
