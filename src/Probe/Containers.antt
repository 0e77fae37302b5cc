-- ===== src/Probe/Containers.antt =====
-- Several containers of the gate that probe one host at once: `handle_failure` of gate/src/probe.rs
-- statement by statement, in any interleaving.
pub mod Counting
pub mod Once
pub mod Waiting
pub mod Turning
pub mod Exactly
use esclusa.Prelude.{
  ℕ, zero, suc, ◌+◌, String, Bool, true, false, not, ◌||◌, ◌==◌, Option, none, some, List, [], ◌∷◌,
  length, where_rows, ltb, nat_eq, if◌then◌else◌,
}
use esclusa.Clock.{DateTime}
use esclusa.External.{External}
use esclusa.Db.{TopologyRow, Tables, Outcome, done, failed, lost}
use esclusa.Ledger.Store.{recent_allow}
use esclusa.Ledger.Store.Appending.{with_row, row_at}
use esclusa.Probe.{disappearance}
use esclusa.Topology.Updates.{set_rows, is_present, moved, count_failure, status_after}

-- The statement that a container is at: the count, the search for an authorization, the claim of the
-- transition, or the append, with the failures and the finding so far.
pub data Phase : Type 0 where
  counting : Phase
  looking : ℕ → Phase
  claiming : ℕ → Bool → Phase
  telling : ℕ → Bool → Phase
  over : Phase

-- What the row that was counted on leads to.
abbrev pub judged : List TopologyRow → Phase
judged (row ∷ []) =
    if ltb row.consecutive_failures 3 || not (row.status == "present")
    then over
    else looking row.consecutive_failures
judged [] = over
judged (row ∷ other ∷ rows) = over

-- `unwrap_or(false)` of the search.
abbrev pub found : Outcome → Bool → Bool
found done b = b
found failed b = false
found lost b = false

-- One statement of one container.
pub record Turn : Type 0 where
  pub container : ℕ
  pub outcome : Outcome
  pub time : DateTime

module _ {N : Type 0} where
  abbrev pub counted_as :
      Outcome → Option (List TopologyRow × Tables N) → Tables N → Phase × Tables N
  counted_as failed r tables = (over, tables)
  counted_as done none tables = (over, tables)
  counted_as done (some (rows, after)) tables = (judged rows, after)
  counted_as lost none tables = (over, tables)
  counted_as lost (some (rows, after)) tables = (over, after)

  -- By the number of rows that the claim changes; `unwrap_or(0)` of a lost reply is no claim.
  abbrev pub claimed_as : Outcome → ℕ → Phase → Tables N → Tables N → Phase × Tables N
  claimed_as failed n telling_next after tables = (over, tables)
  claimed_as done n telling_next after tables = (if nat_eq n 1 then telling_next else over, after)
  claimed_as lost n telling_next after tables = (over, after)

  -- The append is one statement here, since its lock keeps the others out; the id behind the largest one
  -- is taken to be free, as it is below `i64::MAX`.
  abbrev pub told_as : Outcome → Tables N → Tables N → Phase × Tables N
  told_as failed after tables = (over, tables)
  told_as done after tables = (over, after)
  told_as lost after tables = (over, after)

module _ (x : External) (key : List ℕ) (host : String) where
  open x use {Number, timestamptz}

  unfoldable pub turn : Outcome → DateTime → Phase → Tables Number → Phase × Tables Number
  unfolding count_failure set_rows recent_allow
  turn o t counting tables = counted_as o (count_failure host (timestamptz t) tables) tables
  turn o t (looking n) tables = (claiming n (found o (recent_allow host t tables.ledger)), tables)
  turn o t (claiming n audited) tables =
      claimed_as o (length (where_rows (is_present host) tables.topology)) (telling n audited)
        (record tables {
          topology =
              set_rows (is_present host) (moved (status_after audited) (timestamptz t))
                tables.topology;
        })
        tables
  turn o t (telling n audited) tables =
      told_as o (with_row x tables (row_at x key (disappearance x host n audited) tables t)) tables
  turn o t over tables = (over, tables)

  -- The turn of the container of this number; there may be none.
  unfoldable pub turn_of :
      ℕ → Outcome → DateTime → List Phase → Tables Number → List Phase × Tables Number
  unfolding turn
  turn_of i o t [] tables = ([], tables)
  turn_of zero o t (p ∷ phases) tables = let (p', after) = turn o t p tables in (p' ∷ phases, after)
  turn_of (suc i) o t (p ∷ phases) tables =
      let (phases', after) = turn_of i o t phases tables in (p ∷ phases', after)

  -- A schedule: whose statement comes next, what becomes of it, and when it runs.
  unfoldable pub interleave : List Turn → List Phase → Tables Number → List Phase × Tables Number
  unfolding turn_of
  interleave [] phases tables = (phases, tables)
  interleave (s ∷ schedule) phases tables =
      let (phases', after) = turn_of s.container s.outcome s.time phases tables in
      interleave schedule phases' after

-- So many containers at the start.
abbrev pub containers : ℕ → List Phase
containers zero = []
containers (suc n) = counting ∷ containers n
