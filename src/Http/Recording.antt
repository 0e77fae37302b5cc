-- ===== src/Http/Recording.antt =====
-- `POST /v1/evaluate` of gate/src/http.rs keeps the ledger a chain and the statuses as they are.
use mathlib.Core.Path.{subst}
use esclusa.Prelude.{ℕ, ◌<◌, String, Option, List, length, inl, inr, sym, some, unwrap_or, ◌≡◌}
use esclusa.Prelude.Int.{i64_max}
use esclusa.Json.{empty_object}
use esclusa.External.{External, KeepsMicros}
use esclusa.Db.{World}
use esclusa.Ledger.{normalize_params}
use esclusa.Ledger.Store.Chained.{KeepsJson, with_row-IsLedger}
use esclusa.RateLimit.{MemRl}
use esclusa.Http.{AppState, HeaderMap, EvaluateReq, Response, evaluate}
use esclusa.Http.Deciding.{entry_of}
use esclusa.Http.FailClosed.{Answered, evaluate-fails_closed}
use esclusa.Probe.Cycle.{Sound}

module _ (x : External) (key : List ℕ) where
  open x use {Number}

  -- The `jsonb` column gives back the parameters of the request as they are signed.
  abbrev pub KeepsParams : Option (EvaluateReq Number) → Type 0
  KeepsParams parsed =
      (req : EvaluateReq Number)
      → parsed ≡ some req
      → KeepsJson x key (normalize_params x (unwrap_or req.params empty_object))

module _ (x : External) (key : List ℕ) (micros : KeepsMicros x) where
  open x use {Number}

  Answered-Sound :
      (st : AppState) (headers : HeaderMap) (parsed : Option (EvaluateReq Number))
      (u : World Number) (r : Option (Response Number × MemRl)) (v : World Number)
      → KeepsParams x key parsed
      → length u.tables.ledger < i64_max
      → Sound x key u.tables
      → Answered x (record st { signing_key = key }) headers parsed u.tables (r, v)
      → Sound x key v.tables
  Answered-Sound st headers parsed u r v kept room s (reply, mem, e, inl (_, same)) =
      subst (Sound x key) (sym same) s
  Answered-Sound st headers parsed u r v kept room s (reply, mem, e, inr (req, p, rec)) =
      subst (Sound x key) (sym rec.stored) (
        with_row-IsLedger x key micros
            (entry_of x (record st { signing_key = key }) headers req rec.action rec.target
              u.tables)
            rec.time u.tables (kept req p) s.0 room,
        s.1,
      )

  pub evaluate-Sound :
      (st : AppState) (from_slice : List ℕ → Option (EvaluateReq Number)) (headers : HeaderMap)
      (peer : String) (body : List ℕ) (w : World Number)
      → KeepsParams x key (from_slice body)
      → length w.tables.ledger < i64_max
      → Sound x key w.tables
      → Sound x key
          (evaluate x (record st { signing_key = key }) from_slice headers peer body w).1.tables
  evaluate-Sound st from_slice headers peer body w kept room s =
      Answered-Sound st headers (from_slice body) w
        (evaluate x (record st { signing_key = key }) from_slice headers peer body w).0
        (evaluate x (record st { signing_key = key }) from_slice headers peer body w).1 kept room s
        (evaluate-fails_closed x (record st { signing_key = key }) from_slice headers peer body w)
