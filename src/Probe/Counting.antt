-- ===== src/Probe/Counting.antt =====
-- The two ways that `handle_failure` of gate/src/probe.rs takes with a single row while the database
-- answers: it counts, or it counts, moves and records.
use esclusa.Prelude.{
  ◌⊎◌, inl, inr, ℕ, suc, ◌^◌, ◌≤◌, ◌<◌, String, Bool, true, false, not, ◌||◌, ◌==◌, eq_iff, Option,
  none, some, List, [], ◌∷◌, any, map, where_rows, length, ltb, unwrap_or, nat_eq, if◌then◌else◌,
  ◌≡◌, refl, sym, ap, arith,
}
use mathlib.Core.Path.{subst}
use esclusa.Clock.{DateTime}
use esclusa.External.{External}
use esclusa.Db.{TopologyRow, Tables, World, pure}
use esclusa.Db.Statements.{attempt-bind}
use esclusa.Db.Quiet.{quiet, quiet-attempt, quiet-query-attempt}
use esclusa.Ledger.{Entry, NewEntry}
use esclusa.Ledger.Store.{append, recent_allow, recent_allow_exists}
use esclusa.Ledger.Store.Appending.{with_row, row_at}
use esclusa.Probe.{disappearance, note, tell, claim, look_up, judge, judge_returned, handle_failure}
use esclusa.Topology.Updates.{is_host, is_present, is_full, missed, count_failure}
use esclusa.External.{KeepsMicros}
use esclusa.Prelude.Int.{i64_max}
use esclusa.Ledger.Store.Chained.{IsLedger}
use esclusa.Probe.Failing.{counted, claimed}
use esclusa.Probe.Single.{count_single}
use esclusa.Ledger.Store.Free.{IsFree, append-free, IsLedger-IsFree}

module _ (x : External) (key : List ℕ) where
  open x use {Number, timestamptz}

  note-quiet :
      (new : NewEntry Number) (t : DateTime) (tables : Tables Number)
      → IsFree x key new t tables
      → (note x key new (quiet t tables)).1.tables ≡ with_row x tables (row_at x key new tables t)
  note-quiet new t tables free =
      attempt-bind _ (λ (r, w). w.tables ≡ with_row x tables (row_at x key new tables t))
        (append x key new) (quiet t tables)
        (ap (λ (p : Option (Entry Number) × World Number). p.1.tables)
          (append-free x key new t tables free))

  claim-quiet :
      (host : String) (failures : ℕ) (audited : Bool) (t : DateTime) (tables : Tables Number)
      → length (where_rows (is_present host) tables.topology) ≡ 1
      → let mid = claimed x key host audited (timestamptz t) tables in
        IsFree x key (disappearance x host failures audited) t mid
        → (claim x key host failures audited (quiet t tables)).1.tables
          ≡ with_row x mid (row_at x key (disappearance x host failures audited) mid t)
  unfolding claim
  claim-quiet host failures audited t tables single free =
      quiet-attempt Q t tables _ (λ n. tell x key host failures audited (nat_eq (unwrap_or n 0) 1))
        1 mid (ap (λ n. some (n, mid)) single)
        (note-quiet (disappearance x host failures audited) t mid free)
    where
      mid : Tables Number
      mid = claimed x key host audited (timestamptz t) tables

      Q : Option (Unit {0}) × World Number → Type 0
      Q (r, w) =
          w.tables ≡ with_row x mid (row_at x key (disappearance x host failures audited) mid t)

  judge-quiet :
      (host : String) (row : TopologyRow) (audited : Bool) (t : DateTime) (tables : Tables Number)
      → row.status ≡ "present"
      → 3 ≤ row.consecutive_failures
      → recent_allow host t tables.ledger ≡ audited
      → length (where_rows (is_present host) tables.topology) ≡ 1
      → let mid = claimed x key host audited (timestamptz t) tables in
        IsFree x key (disappearance x host row.consecutive_failures audited) t mid
        → (judge x key host row (quiet t tables)).1.tables
          ≡ with_row x mid
              (row_at x key (disappearance x host row.consecutive_failures audited) mid t)
  unfolding judge recent_allow_exists
  judge-quiet host row audited t tables present failing found single free =
      by_test (ltb row.consecutive_failures 3 || not (row.status == "present"))
        (ground (arith, eq_iff row.status "present"))
    where
      mid : Tables Number
      mid = claimed x key host audited (timestamptz t) tables

      Q : Option (Unit {0}) × World Number → Type 0
      Q (r, w) =
          w.tables
          ≡ with_row x mid
              (row_at x key (disappearance x host row.consecutive_failures audited) mid t)

      by_test :
          (stop : Bool)
          → stop ≡ false
          → Q (
              (if stop then pure tt else look_up x key host row.consecutive_failures)
                (quiet t tables))
      by_test true e = cc
      by_test false e =
          quiet-query-attempt Q t tables (λ u v. recent_allow host u v.ledger)
            (λ allowed. claim x key host row.consecutive_failures (unwrap_or allowed false))
            (subst (λ a. Q (claim x key host row.consecutive_failures a (quiet t tables)))
              (sym found) (claim-quiet host row.consecutive_failures audited t tables single free))

  counts :
      (host : String) (row : TopologyRow) (t : DateTime) (tables : Tables Number)
      → suc row.consecutive_failures < 2 ^ 31
      → (chosen : List TopologyRow) → chosen ≡ row ∷ []
      → ◌≡◌ {A = Option (List TopologyRow × Tables Number)}
          (if any is_full chosen
            then none
            else some
                (map (missed (timestamptz t)) chosen, counted x key host (timestamptz t) tables))
          (some (missed (timestamptz t) row ∷ [], counted x key host (timestamptz t) tables))
  counts host row t tables small chosen e = rw (e, fits) refl
    where
      fits : is_full row ≡ false
      fits = ground arith

  pub handle_failure-moves :
      KeepsMicros x
      → (host : String) (row : TopologyRow) (t : DateTime) (tables : Tables Number)
      → where_rows (is_host host) tables.topology ≡ row ∷ []
      → row.status ≡ "present"
      → 2 ≤ row.consecutive_failures
      → suc row.consecutive_failures < 2 ^ 31
      → IsLedger x key tables.ledger
      → length tables.ledger < i64_max
      → let audited = recent_allow host t tables.ledger in
        let mid =
          claimed x key host audited (timestamptz t) (counted x key host (timestamptz t) tables) in
        (handle_failure x key host (quiet t tables)).1.tables
        ≡ with_row x mid
            (row_at x key (disappearance x host (suc row.consecutive_failures) audited) mid t)
  unfolding handle_failure count_failure
  handle_failure-moves micros host row t tables only present failing small l room =
      quiet-attempt Q t tables (λ u. count_failure host (timestamptz u))
        (λ returned. judge_returned x key host returned) (missed (timestamptz t) row ∷ [])
        (counted x key host (timestamptz t) tables)
        (counts host row t tables small (where_rows (is_host host) tables.topology) only)
        (judge-quiet host (missed (timestamptz t) row) (recent_allow host t tables.ledger) t
          (counted x key host (timestamptz t) tables) present (omega arith) refl
          (count_single host (timestamptz t) row tables.topology only present)
          (IsLedger-IsFree x key micros
            (disappearance x host (suc row.consecutive_failures)
              (recent_allow host t tables.ledger))
            t mid l room))
    where
      mid : Tables Number
      mid =
          claimed x key host (recent_allow host t tables.ledger) (timestamptz t)
            (counted x key host (timestamptz t) tables)

      Q : Option (Unit {0}) × World Number → Type 0
      Q (r, w) =
          w.tables
          ≡ with_row x mid (
              row_at x key
                (disappearance x host (suc row.consecutive_failures)
                  (recent_allow host t tables.ledger))
                mid t)

  judge-idle :
      (host : String) (row : TopologyRow) (t : DateTime) (tables : Tables Number)
      → ((row.status == "present") ≡ false) ⊎ (row.consecutive_failures < 3)
      → (judge x key host row (quiet t tables)).1.tables ≡ tables
  unfolding judge
  judge-idle host row t tables idle =
      by_test (ltb row.consecutive_failures 3 || not (row.status == "present"))
        (ground (arith, idle))
    where
      by_test :
          (stop : Bool)
          → stop ≡ true
          → ((if stop then pure tt else look_up x key host row.consecutive_failures)
              (quiet t tables)).1.tables
            ≡ tables
      by_test true e = refl
      by_test false e = cc

  pub handle_failure-idle :
      (host : String) (row : TopologyRow) (t : DateTime) (tables : Tables Number)
      → where_rows (is_host host) tables.topology ≡ row ∷ []
      → ((row.status == "present") ≡ false) ⊎ (row.consecutive_failures < 2)
      → suc row.consecutive_failures < 2 ^ 31
      → (handle_failure x key host (quiet t tables)).1.tables
        ≡ counted x key host (timestamptz t) tables
  unfolding handle_failure count_failure
  handle_failure-idle host row t tables only idle small =
      quiet-attempt (λ (r, w). w.tables ≡ counted x key host (timestamptz t) tables) t tables
        (λ u. count_failure host (timestamptz u)) (λ returned. judge_returned x key host returned)
        (missed (timestamptz t) row ∷ []) (counted x key host (timestamptz t) tables)
        (counts host row t tables small (where_rows (is_host host) tables.topology) only)
        (judge-idle host (missed (timestamptz t) row) t (counted x key host (timestamptz t) tables)
          (still_idle idle))
    where
      still_idle :
          ((row.status == "present") ≡ false) ⊎ (row.consecutive_failures < 2)
          → ((row.status == "present") ≡ false) ⊎ (suc row.consecutive_failures < 3)
      still_idle (inl e) = inl e
      still_idle (inr l) = inr (omega arith)
