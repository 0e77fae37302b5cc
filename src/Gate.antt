-- ===== src/Gate.antt =====
-- The gate as a whole: requests to gate/src/http.rs, probe cycles of gate/src/probe.rs and migrations of
-- gate/src/db.rs, one after the other in any order, and what stays true of the tables.
pub mod Verifying
use mathlib.Core.Path.{subst}
use esclusa.Prelude.{
  ℕ, ◌+◌, ◌<◌, ◌≤◌, String, Bool, true, Option, some, List, [], map, length, All, ◌≡◌, sym, arith,
}
use esclusa.Prelude.Int.{i64_max}
use esclusa.Clock.{DateTime}
use esclusa.External.{External, KeepsMicros}
use esclusa.Db.{Tables, World, Await}
use esclusa.Ledger.{verify_chain}
use esclusa.Ledger.Store.{order_by_id, entry_from_row}
use esclusa.Ledger.Store.Chained.{IsLedger, IsLedger-nil, IsLedger-valid}
use esclusa.Ledger.Store.Plain.{KeepsPlain}
use esclusa.Http.Recording.{KeepsParams}
use esclusa.Http.{AppState}
use esclusa.Router.{Request, Surroundings, evaluate, route, serve}
use esclusa.Router.Keeping.{serve-Sound}
use esclusa.Startup.{init_once}
use esclusa.Startup.Keeping.{init_once-Sound}
use esclusa.Probe.{Network, cycle}
use esclusa.Probe.Cycle.{HasStatus, Sound, cycle-HasStatus}
use esclusa.Probe.Recording.{plain-KeepsProbes, cycle-IsLedger}

module _ (x : External) (key : List ℕ) where
  open x use {Number}

  -- An id is left for each service and one more.
  abbrev pub HasRoom : World Number → Type 0
  HasRoom w = length w.tables.ledger + length w.tables.topology < i64_max

  -- A request of any kind, where the `jsonb` column gives the parameters of a `POST /v1/evaluate` back
  -- as they were signed; a probe cycle, a round of the migration, or nothing for a while, after which
  -- the awaits meet something new.
  pub data Step (u v : World Number) : Type 0 where
    served :
        (st : AppState)
        → (out : Surroundings Number) → (req : Request) → HasRoom u
        → (route req.method req.path ≡ some evaluate
            → KeepsParams x key (out.evaluate_req req.body))
        → length (out.by_hostname u.tables.topology) ≡ length u.tables.topology
        → v ≡ (serve x (record st { signing_key = key }) out req u).1
        → Step u v
    probed :
        (net : Network)
        → (join : List (String × Bool) → List (Option (String × Bool))) → (connected : Bool)
        → ((started : List (String × Bool)) → length (join started) ≤ length started)
        → HasRoom u
        → v ≡ ((cycle x key net join connected).1 u).1
        → Step u v
    migrated : (got : Bool) → v ≡ (init_once x got u).1 → Step u v
    waited :
        (t : DateTime)
        → (awaits : List Await) → v ≡ record u { clock = t; awaits = awaits }
        → Step u v

  pub data Reachable (u : World Number) : World Number → Type 0 where
    still : Reachable u u
    then_step : {w v : World Number} → Reachable u w → Step w v → Reachable u v

  abbrev IsSound : World Number → Type 0
  IsSound w = Sound x key w.tables

  Step-IsSound :
      KeepsMicros x → KeepsPlain x → (u v : World Number) → Step u v → IsSound u → IsSound v
  Step-IsSound micros kept u v (served st out req room params same e) s =
      subst IsSound (sym e) (serve-Sound x key micros kept st out req u (omega arith) s params)
  Step-IsSound micros kept u v (probed net join connected once room e) s = subst IsSound (sym e) (
    cycle-IsLedger x key micros (plain-KeepsProbes x key kept) net join connected u once s.0
        (omega arith),
    cycle-HasStatus x key net join connected u s.1,
  )
  Step-IsSound micros kept u v (migrated got e) s =
      subst IsSound (sym e) (init_once-Sound x key got u s)
  Step-IsSound micros kept u v (waited t awaits e) s = subst IsSound (sym e) s

  Reachable-IsSound :
      KeepsMicros x → KeepsPlain x → (u v : World Number) → Reachable u v → IsSound u → IsSound v
  Reachable-IsSound micros kept u v still s = s
  Reachable-IsSound micros kept u v (then_step {w} r step) s =
      Step-IsSound micros kept w v step (Reachable-IsSound micros kept u w r s)

  -- Whatever requests to the gate, probe cycles and rounds of the migration follow each other from an
  -- empty ledger and a topology of known statuses, and whatever the network and the database do
  -- meanwhile, the ledger passes verification and every status is 'present', 'missing-unaudited' or
  -- 'removed-audited', as long as ids are left, ordering by hostname drops no row, no more probes end
  -- than were started, `timestamptz` keeps whole microseconds, the `jsonb` column keeps texts,
  -- integers, arrays and objects, and it gives back the parameters of each `POST /v1/evaluate` as they
  -- were signed.
  pub Reachable-valid :
      KeepsMicros x
      → KeepsPlain x
      → (u v : World Number) → Reachable u v
      → u.tables.ledger ≡ []
      → All HasStatus u.tables.topology
      → ((verify_chain x key (map (entry_from_row x) (order_by_id v.tables.ledger))).valid ≡ true)
        × All HasStatus v.tables.topology
  Reachable-valid micros kept u v r empty known =
      let (ledger, statuses) =
        Reachable-IsSound micros kept u v r
          (subst (IsLedger x key) (sym empty) (IsLedger-nil x key), known) in
      (IsLedger-valid x key v.tables.ledger ledger, statuses)
