-- ===== src/Http/FailClosed.antt =====
-- What `POST /v1/evaluate` of gate/src/http.rs has written when it answers.
use mathlib.Core.Path.{subst}
use esclusa.Prelude.{
  some_injective, ℕ, ◌/◌, String, Bool, true, false, not, Option, none, some, List, if◌then◌else◌,
  ◌≡◌, inl, refl, sym, arith,
}
use esclusa.External.{External}
use esclusa.Db.{Tables, World, Exec, pure, ◌>>=◌}
use esclusa.RateLimit.{MemRl, check}
use esclusa.Http.{
  AppState, HeaderMap, EvaluateReq, Response, err, present, answer_fields, answer, evaluate,
  client_ip,
}
use esclusa.Http.Deciding.{Outcome, Replied, decide_lem}

module _ (x : External) where
  open x use {Number}

  answer_lem :
      (st : AppState) (headers : HeaderMap) (parsed : Option (EvaluateReq Number))
      (w : World Number)
      → Replied x st headers parsed w.tables (answer x st headers parsed w)
  unfolding answer
  answer_lem st headers none w = (_, refl, inl (λ e. absurd (omega arith), refl))
  answer_lem st headers (some req) w = by_fields (present req.action) (present req.target) refl refl
    where
      by_fields :
          (a t : Option String)
          → present req.action ≡ a
          → present req.target ≡ t
          → Replied x st headers (some req) w.tables (answer_fields x st headers req a t w)
      by_fields none t ea et = (_, refl, inl (λ e. absurd (omega arith), refl))
      by_fields (some action) none ea et = (_, refl, inl (λ e. absurd (omega arith), refl))
      by_fields (some action) (some target) ea et =
          decide_lem x st headers req action target ea et w

  -- An answer, with the map of the limiter.
  abbrev pub Answered :
      AppState
      → HeaderMap
      → Option (EvaluateReq Number)
      → Tables Number
      → Option (Response Number × MemRl) × World Number
      → Type 0
  Answered st headers parsed before (r, w') =
      (reply : Response Number) × (mem : MemRl) × (r ≡ some (reply, mem))
      × Outcome x st headers parsed before w'.tables reply

  with_mem :
      (st : AppState) (headers : HeaderMap) (parsed : Option (EvaluateReq Number)) (mem : MemRl)
      (m : Exec Number (Response Number)) (w : World Number) (before : Tables Number)
      → Replied x st headers parsed before (m w)
      → Answered st headers parsed before ((m >>= λ reply. pure (reply, mem)) w)
  unfolding ◌>>=◌
  with_mem st headers parsed mem m w before replied = by_result (m w).0 (m w).1 replied
    where
      by_result :
          (r : Option (Response Number)) (u : World Number)
          → Replied x st headers parsed before (r, u)
          → Answered st headers parsed before
              (elim r [ some a ↦ (some (a, mem), u) | none ↦ (none, u) ])
      by_result none u (reply, e, o) = cc
      by_result (some a) u (reply, e, o) = (
        a,
        mem,
        refl,
        subst (λ q. Outcome x st headers parsed before u.tables q) (sym (some_injective e)) o,
      )

  -- The handler always answers. Either the answer is not 200 and nothing is written, or the request
  -- names an action and a target, the row of the rules' decision on it is stored behind the ledger,
  -- and the answer is that decision with its entry or, when the reply to the write was lost, 503.
  pub evaluate-fails_closed :
      (st : AppState) (from_slice : List ℕ → Option (EvaluateReq Number)) (headers : HeaderMap)
      (peer : String) (body : List ℕ) (w : World Number)
      → Answered st headers
          (from_slice body)
          w.tables
          (evaluate x st from_slice headers peer body w)
  unfolding evaluate
  evaluate-fails_closed st from_slice headers peer body w =
      let (pass, mem) =
        check st.cache (w.clock / 1_000_000_000) (client_ip headers peer) st.mem_rl in
      limited pass mem
    where
      limited :
          (pass : Bool) (mem : MemRl)
          → Answered st headers (from_slice body) w.tables (
              if not pass
              then (some (err x 429 "rate limit exceeded (30 req/min per client)", mem), w)
              else (answer x st headers (from_slice body) >>= λ reply. pure (reply, mem)) w)
      limited false mem = (_, mem, refl, inl (λ e. absurd (omega arith), refl))
      limited true mem =
          with_mem st headers (from_slice body) mem (answer x st headers (from_slice body)) w
            w.tables (answer_lem st headers (from_slice body) w)
