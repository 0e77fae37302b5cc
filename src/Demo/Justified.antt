-- ===== src/Demo/Justified.antt =====
-- When `POST /v1/demo/decommission` of gate/src/http.rs calls `play_dead`, and what it has written.
use mathlib.Core.Path.{subst}
use esclusa.Prelude.{
  ℕ, ◌/◌, String, Bool, true, false, not, Option, none, some, some_injective, List, if◌then◌else◌,
  ◌≡◌, inl, refl, sym, arith,
}
use esclusa.External.{External}
use esclusa.Db.{TopologyRow, Tables, World, Exec, pure, ◌>>=◌}
use esclusa.RateLimit.{MemRl, check}
use esclusa.Http.{AppState, HeaderMap, client_ip, err}
use esclusa.Demo.{
  Peer, Call, DemoReq, Reply, playdead_seconds, play_dead, approved_of, demonstrate,
  demo_decommission,
}
use esclusa.Demo.Outcome.{Settled, Answers}
use esclusa.Demo.Handling.{demonstrate_lem}

-- An answer, with the map of the limiter.
abbrev pub Decommissioned :
    (x : External)
    → AppState
    → HeaderMap
    → String
    → (List TopologyRow → List TopologyRow)
    → Call
    → Bool
    → Tables x.Number
    → Option (Reply x.Number × MemRl) × World x.Number
    → Type 0
Decommissioned x st headers host by_hostname call approved before (r, w') =
    (reply : Reply x.Number) × (mem : MemRl) × (r ≡ some (reply, mem))
    × Settled x st headers host by_hostname call approved before w'.tables reply

module _ (x : External) (st : AppState) (headers : HeaderMap) (host : String)
    (by_hostname : List TopologyRow → List TopologyRow) where
  open x use {Number}

  with_mem :
      (call : Call) (approved : Bool) (before : Tables Number) (mem : MemRl)
      (m : Exec Number (Reply Number)) (w : World Number)
      → Answers x st headers host by_hostname call approved before (m w)
      → Decommissioned x st headers host by_hostname call approved before
          ((do reply ← m; pure (reply, mem)) w)
  unfolding ◌>>=◌
  with_mem call approved before mem m w answers = by_result (m w).0 (m w).1 answers
    where
      by_result :
          (r : Option (Reply Number)) (u : World Number)
          → Answers x st headers host by_hostname call approved before (r, u)
          → Decommissioned x st headers host by_hostname call approved before
              (elim r [ some a ↦ (some (a, mem), u) | none ↦ (none, u) ])
      by_result none u (reply, e, o) = cc
      by_result (some a) u (reply, e, o) = (
        a,
        mem,
        refl,
        subst (λ q. Settled x st headers host by_hostname call approved before u.tables q)
            (sym (some_injective e)) o,
      )

  -- The handler always answers, and it calls `play_dead` only for a target whose row is present: where
  -- the body asks for approval, only once the rules' decision on stopping it is to allow, stored behind
  -- the ledger; where not, with nothing written. It then answers 200 exactly if `play_dead` is `Ok`,
  -- else 502. Without a call the answer is no 200, or tells the refusal that is stored; and nothing is
  -- written but the decision.
  pub demo_decommission-Settled :
      (from_slice : List ℕ → Option DemoReq) (peer : String) (body : List ℕ) (network : Peer)
      (port : ℕ) (w : World Number)
      → Decommissioned x st headers host by_hostname
          (play_dead network host port playdead_seconds)
          (approved_of (from_slice body))
          w.tables
          (demo_decommission x st by_hostname from_slice headers peer body network host port w)
  unfolding demo_decommission
  demo_decommission-Settled from_slice peer body network port w =
      let (pass, mem) =
        check st.cache (w.clock / 1_000_000_000) (client_ip headers peer) st.mem_rl in
      limited pass mem
    where
      limited :
          (pass : Bool) (mem : MemRl)
          → Decommissioned x st headers host by_hostname
              (play_dead network host port playdead_seconds)
              (approved_of (from_slice body))
              w.tables
              (if not pass
                then (
                  some ((err x 429 "rate limit exceeded (30 req/min per client)", none), mem),
                  w,
                )
                else (do
                  reply ←
                      demonstrate x st headers host
                        (play_dead network host port playdead_seconds)
                        (approved_of (from_slice body))
                        by_hostname
                  pure (reply, mem))
                    w)
      limited false mem = (_, mem, refl, inl (refl, inl (λ e. absurd (omega arith), inl refl)))
      limited true mem =
          with_mem (play_dead network host port playdead_seconds) (approved_of (from_slice body))
            w.tables mem
            (demonstrate x st headers host (play_dead network host port playdead_seconds)
              (approved_of (from_slice body)) by_hostname)
            w
            (demonstrate_lem x st headers host by_hostname
              (play_dead network host port playdead_seconds) (approved_of (from_slice body)) w)
