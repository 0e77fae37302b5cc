-- ===== src/Http/Answering.antt =====
-- What `POST /v1/evaluate` of gate/src/http.rs tells and records of a valid request while the database
-- answers.
use esclusa.Prelude.{◌+◌, String, length, unwrap_or, ◌≡◌, ◌⊎◌}
use esclusa.Prelude.Int.{pos}
use esclusa.Json.{object, number, string, field, end, empty_object}
use esclusa.Clock.{DateTime, now_micros}
use esclusa.External.{External}
use esclusa.Db.{Row, Tables}
use esclusa.Ledger.{normalize_params}
use esclusa.Ledger.Store.Appending.{row_at}
use esclusa.Policy.{Decision, Effect, allow, refuse}
use esclusa.Secrets.{token_matches}
use esclusa.Http.{AppState, HeaderMap, EvaluateReq, Response, present}
use esclusa.Http.Deciding.{entry_of}

-- The word for a decision.
abbrev pub Worded : Effect → String → Type 0
Worded e word = ((e ≡ allow) × (word ≡ "allow")) ⊎ ((e ≡ refuse) × (word ≡ "refuse"))

module _ (x : External) (st : AppState) (headers : HeaderMap) where
  open x use {Number, from_int, rfc3339_micros, jsonb}

  -- The answer `reply` and the row `r` tell the decision `d` on the request.
  pub record Told (req : EvaluateReq Number) (action target : String) (t : DateTime)
      (before : Tables Number) (d : Decision) (reply : Response Number) (r : Row Number)
      : Type 0 where
    pub word : String
    pub worded_as : Worded d.effect word
    pub ok : reply.status ≡ 200
    pub body :
        reply.body
        ≡ object (
            field "decision" (string word) (
              field "entry"
                (object (
                  field "hmac" (string r.hmac) (
                    field "id" (number (from_int r.id)) (
                      field "prev_hmac"
                        (string r.prev_hmac)
                        (field "ts" (string (rfc3339_micros (now_micros t))) end)))))
                (field "policy" (string d.policy) (field "reason" (string d.reason) end))))
    pub id : r.id ≡ pos (1 + length before.ledger)
    pub kind : r.kind ≡ "decision"
    pub actor : r.actor ≡ unwrap_or (present req.actor) "anonymous"
    pub acts : r.action ≡ action
    pub targets : r.target ≡ target
    pub decided : r.decision ≡ word
    pub reason : r.reason ≡ d.reason
    pub policy : r.policy ≡ d.policy
    pub params : r.params ≡ jsonb (normalize_params x (unwrap_or req.params empty_object))
    pub authenticated : r.authenticated ≡ token_matches st.gate_token headers.x_gate_token

  module _ (req : EvaluateReq Number) (action target : String) (t : DateTime)
      (tables : Tables Number) where
    row_of : Row Number
    row_of = row_at x st.signing_key (entry_of x st headers req action target tables) tables t
