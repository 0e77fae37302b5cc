-- ===== src/Tests/ProbeTests.antt =====
-- Probes of a concrete topology.
use esclusa.Prelude.{
  ◌*◌, ◌<◌, ◌≤◌, length, ◌==◌, if◌then◌else◌, String, Bool, true, false, Option, some, none, List,
  [], ◌∷◌, map, All, ◌≡◌, refl, arith,
}
use esclusa.Db.{attempt, query, perform, ◌>>=◌, World, done}
use esclusa.Db.Quiet.{quiet}
use esclusa.Ledger.Store.{recent_allow}
use esclusa.Ledger.Store.Chained.{IsLedger-nil}
use esclusa.Probe.{Network, handle_failure, handle_success, cycle}
use esclusa.Clock.{DateTime}
use esclusa.Probe.{handle_all}
use esclusa.Probe.Running.{Round, IsBrisk, IsSeen, run, pause, unix_now, run-IsSeen}
use esclusa.Prelude.{◌++◌}
use esclusa.Db.{Row}
use esclusa.Probe.Containers.{Turn, interleave, containers}
use esclusa.Topology.Updates.{count_failure}
use esclusa.Ledger.Store.{max_ts}
use esclusa.Probe.Containers.{turn, turn_of}
use esclusa.Probe.Containers.Waiting.{Ready, finished}
use esclusa.Probe.Containers.Exactly.{interleave-exactly}
use esclusa.Probe.Containers.Counting.{presents}
use esclusa.Probe.Containers.Once.{interleave-once}
use esclusa.Probe.Updating.{Pairwise}
use esclusa.Probe.Transitions.{
  Vanishes, Reappears, handle_failure-Vanishes, handle_success-Reappears,
}
use esclusa.Probe.Flagging.{Judged, handle_failure-records}
use esclusa.Tests.Fixtures.{Num, toy, toy-KeepsMicros, key, tables, world, app_row}

handle_failure-Vanishes_example :
    Pairwise
      (Vanishes "app" tables)
      tables.topology
      (handle_failure toy key "app" world).1.tables.topology
handle_failure-Vanishes_example = handle_failure-Vanishes toy key "app" world

handle_success-Reappears_example :
    Pairwise
      (Reappears "old")
      tables.topology
      (handle_success toy key "old" world).1.tables.topology
handle_success-Reappears_example = handle_success-Reappears toy key "old" world

handle_failure-records_example :
    Judged toy key "app" app_row 5_000_000_000 tables
      (handle_failure toy key "app" (quiet 5_000_000_000 tables)).1.tables
handle_failure-records_example =
    handle_failure-records toy key toy-KeepsMicros "app" app_row 5_000_000_000 tables refl
      (omega arith) (IsLedger-nil toy key) (omega arith)

-- `app` does not resolve, everything else does.
abbrev net : Network
net = record {
  lookup_host = λ h p. if h == "app" then some false else some true;
  connect = λ h p. none;
}

abbrev in_order : List (String × Bool) → List (Option (String × Bool))
in_order l = map (λ r. some r) l

length-in_order : (l : List (String × Bool)) → length (in_order l) ≤ length l
length-in_order [] = omega arith
length-in_order (r ∷ l) = omega (arith, length-in_order l)

-- A round without a client, then one with it.
abbrev rounds : List Round
rounds =
    record { net = net; join = in_order; connected = false }
    ∷ record { net = net; join = λ l. []; connected = true }
    ∷ []

abbrev calm : World Num
calm = quiet 5_000_000_000 tables

rounds-IsBrisk : IsBrisk toy key rounds calm
unfolding cycle pause handle_all attempt query perform ◌>>=◌
rounds-IsBrisk = (omega arith, (omega arith, tt))

run-IsSeen_example :
    All IsSeen (run toy key rounds (unix_now calm.clock) calm)
    × ((t : DateTime) → (15 * 1_000_000_000 ≤ pause t) × (pause t < 18 * 1_000_000_000))
run-IsSeen_example = run-IsSeen toy key rounds calm rounds-IsBrisk

-- Two containers count, search and claim in turns; the second claim comes too late.
abbrev schedule : List Turn
schedule =
    record { container = 0; outcome = done; time = 6_000_000_000 }
    ∷ record { container = 1; outcome = done; time = 6_000_000_001 }
    ∷ record { container = 1; outcome = done; time = 6_000_000_002 }
    ∷ record { container = 0; outcome = done; time = 6_000_000_003 }
    ∷ record { container = 0; outcome = done; time = 6_000_000_004 }
    ∷ record { container = 1; outcome = done; time = 6_000_000_005 }
    ∷ record { container = 0; outcome = done; time = 6_000_000_006 }
    ∷ []

interleave-once_example :
    let after = (interleave toy key "app" schedule (containers 2) tables).1 in
    (added : List (Row Num)) × (after.ledger ≡ tables.ledger ++ added)
    × All (λ (r : Row Num). r.target ≡ "app") added
    × (length added ≤ presents "app" tables)
interleave-once_example = interleave-once toy key "app" 2 schedule tables

app_ready : Ready "app" tables
app_ready = record { row = app_row; single = refl; present = refl; failing = omega arith }

all_over : (interleave toy key "app" schedule (containers 2) tables).0 ≡ finished 2
unfolding interleave turn_of turn count_failure recent_allow max_ts
all_over = refl

interleave-exactly_example :
    (row : Row Num) × ((interleave toy key "app" schedule (containers 2) tables).1.ledger
      ≡ tables.ledger ++ row ∷ [])
    × (row.target ≡ "app")
unfolding app_ready
interleave-exactly_example =
    interleave-exactly toy key "app" 1 schedule tables app_ready
      (refl, (refl, (refl, (refl, (refl, (refl, (refl, tt))))))) (omega arith) all_over
