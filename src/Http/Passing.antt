-- ===== src/Http/Passing.antt =====
-- The way of a valid request through `POST /v1/evaluate` of gate/src/http.rs while the database
-- answers.
use mathlib.Core.Path.{subst}
use esclusa.Prelude.{
  ℕ, ◌/◌, ◌<◌, String, Bool, true, false, not, Option, none, some, List, [], length, map, unwrap_or,
  if◌then◌else◌, ◌≡◌, refl, sym, ap, ◌∙◌,
}
use esclusa.Prelude.Dict.{collect}
use esclusa.Prelude.Int.{i64_max}
use esclusa.Json.{empty_object}
use esclusa.Clock.{DateTime}
use esclusa.External.{External, KeepsMicros}
use esclusa.Db.{PolicyRow, Tables, World, Exec, pure, attempt, ◌>>=◌}
use esclusa.Db.Statements.{attempt-bind}
use esclusa.Db.Quiet.{quiet, quiet-query}
use esclusa.Ledger.Store.{append}
use esclusa.Ledger.Store.Appending.{with_row, row_at, entry_at}
use esclusa.Ledger.Store.Chained.{IsLedger}
use esclusa.Ledger.Store.Free.{append-quiet}
use esclusa.RateLimit.{MemRl, check}
use esclusa.Secrets.{token_matches}
use esclusa.Topology.{views, view_of}
use esclusa.Http
use esclusa.Http.{
  AppState, HeaderMap, EvaluateReq, Response, client_ip, load_enabled, decided, reply_to,
  record_decision, decide_with, decide_on, decide, present, answer_fields, answer, evaluate,
}
use esclusa.Http.Deciding.{decision_of, entry_of}

views-quiet :
    {N : Type 0} (t : DateTime) (tables : Tables N)
    → views (quiet t tables) ≡ (some (map view_of tables.topology), quiet t tables)
unfolding views
views-quiet t tables =
    quiet-query (λ p. p ≡ (some (map view_of tables.topology), quiet t tables)) t tables _ _ refl

load_enabled-quiet :
    {N : Type 0} (t : DateTime) (tables : Tables N)
    → load_enabled (quiet t tables) ≡ (
      some (collect [] (map (λ (r : PolicyRow). (r.id, r.enabled)) tables.policies)),
      quiet t tables,
    )
unfolding load_enabled
load_enabled-quiet t tables =
    quiet-query
      (λ p. p ≡ (
        some (collect [] (map (λ (r : PolicyRow). (r.id, r.enabled)) tables.policies)),
        quiet t tables,
      ))
      t tables _ _ refl

-- An attempt whose outcome is known.
attempt-known :
    {N A B : Type 0} (m : Exec N A) (k : Option A → Exec N B) (w : World N) {p : Option A × World N}
    {q : Option B × World N}
    → m w ≡ p
    → k p.0 p.1 ≡ q
    → (attempt m >>= k) w ≡ q
attempt-known m k w {p} {q} e h =
    attempt-bind k (λ r. r ≡ q) m w (ap (λ (o : Option _ × World _). k o.0 o.1) e ∙ h)

module _ (x : External) (st : AppState) (headers : HeaderMap) where
  open x use {Number}

  module _ (req : EvaluateReq Number) (action target : String) (t : DateTime)
      (tables : Tables Number) where
    -- The answer to the request and the world behind it.
    abbrev pub answered : Response Number
    answered =
        decided x (decision_of x req action target tables)
          (entry_at x st.signing_key (entry_of x st headers req action target tables) tables t)

    abbrev pub recorded : World Number
    recorded = quiet t (
        with_row x tables
          (row_at x st.signing_key (entry_of x st headers req action target tables) tables t))

    module _ (micros : KeepsMicros x) (l : IsLedger x st.signing_key tables.ledger)
        (room : length tables.ledger < i64_max) where
      decide-quiet :
          st.connected ≡ true
          → decide x st
              (unwrap_or (present req.actor) "anonymous")
              action
              target
              (unwrap_or req.params empty_object)
              (token_matches st.gate_token headers.x_gate_token)
              (quiet t tables)
            ≡ (some answered, recorded)
      unfolding decide
      decide-quiet on = by_client st.connected on
        where
          by_client :
              (c : Bool)
              → c ≡ true
              → (if not c
                    then pure (Http.unavailable x)
                    else (attempt views >>= λ topo.
                        decide_on x st.signing_key
                          (unwrap_or (present req.actor) "anonymous")
                          action
                          target
                          (unwrap_or req.params empty_object)
                          (token_matches st.gate_token headers.x_gate_token)
                          topo))
                  (quiet t tables)
                ≡ (some answered, recorded)
          by_client false e = cc
          by_client true e = attempt-known views _ (quiet t tables) (views-quiet t tables) (
              attempt-known load_enabled _ (quiet t tables) (load_enabled-quiet t tables) (
                attempt-known (append x st.signing_key _) _ (quiet t tables)
                  (append-quiet x st.signing_key micros
                    (entry_of x st headers req action target tables) t tables l room)
                  refl))

      answer-quiet :
          st.connected ≡ true
          → (a g : Option String) → a ≡ some action
          → g ≡ some target
          → answer_fields x st headers req a g (quiet t tables) ≡ (some answered, recorded)
      answer-quiet on none g ea eg = cc
      answer-quiet on (some a) none ea eg = cc
      answer-quiet on (some a) (some g) ea eg =
          subst
            (λ o.
              answer_fields x st headers req o (some g) (quiet t tables)
              ≡ (some answered, recorded))
            (sym ea)
            (subst
              (λ o.
                answer_fields x st headers req (some action) o (quiet t tables)
                ≡ (some answered, recorded))
              (sym eg) (decide-quiet on))

  abbrev beside : MemRl → Response Number → Exec Number (Response Number × MemRl)
  beside mem reply = pure (reply, mem)

  with_mem-quiet :
      (m : Exec Number (Response Number)) (mem : MemRl) (w u : World Number)
      (reply : Response Number)
      → m w ≡ (some reply, u)
      → (m >>= beside mem) w ≡ (some (reply, mem), u)
  unfolding ◌>>=◌
  with_mem-quiet m mem w u reply e =
      ap
        (λ (p : Option (Response Number) × World Number).
          elim p.0 as (λ _. Option (Response Number × MemRl) × World Number) [
            | some r ↦ (some (r, mem), p.1)
            | none ↦ (none, p.1)
          ])
        e

  pub evaluate-quiet :
      (from_slice : List ℕ → Option (EvaluateReq Number)) (peer : String) (body : List ℕ)
      (req : EvaluateReq Number) (action target : String) (t : DateTime) (tables : Tables Number)
      → KeepsMicros x
      → IsLedger x st.signing_key tables.ledger
      → length tables.ledger < i64_max
      → (check st.cache (t / 1_000_000_000) (client_ip headers peer) st.mem_rl).0 ≡ true
      → from_slice body ≡ some req
      → present req.action ≡ some action
      → present req.target ≡ some target
      → st.connected ≡ true
      → evaluate x st from_slice headers peer body (quiet t tables) ≡ (
        some (
          answered req action target t tables,
          (check st.cache (t / 1_000_000_000) (client_ip headers peer) st.mem_rl).1,
        ),
        recorded req action target t tables,
      )
  unfolding evaluate
  evaluate-quiet from_slice peer body req action target t tables micros l room pass parsed acts
        targets on =
      limited (check st.cache (t / 1_000_000_000) (client_ip headers peer) st.mem_rl).0
        (check st.cache (t / 1_000_000_000) (client_ip headers peer) st.mem_rl).1 pass
    where
      answers :
          answer x st headers (from_slice body) (quiet t tables)
          ≡ (some (answered req action target t tables), recorded req action target t tables)
      answers =
          ap (λ o. answer x st headers o (quiet t tables)) parsed
          ∙ unfold answer in
            answer-quiet req action target t tables micros l room on (present req.action)
              (present req.target) acts targets

      limited :
          (b : Bool) (mem : MemRl)
          → b ≡ true
          → (if not b
              then (
                some (Http.err x 429 "rate limit exceeded (30 req/min per client)", mem),
                quiet t tables,
              )
              else (answer x st headers (from_slice body) >>= beside mem) (quiet t tables))
            ≡ (some (answered req action target t tables, mem), recorded req action target t tables)
      limited false mem e = cc
      limited true mem e =
          with_mem-quiet (answer x st headers (from_slice body)) mem (quiet t tables) _ _ answers
