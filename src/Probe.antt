-- ===== src/Probe.antt =====
-- gate/src/probe.rs: the probes, and how their results move a service between 'present',
-- 'missing-unaudited' and 'removed-audited' and into the ledger.
pub mod Running
pub mod Containers
pub mod Updating
pub mod Failing
pub mod Reappearing
pub mod Transitions
pub mod Cycle
pub mod Recording
pub mod Single
pub mod Counting
pub mod Marking
pub mod Flagging
use Prim.Native.String.{◌++◌}
use esclusa.Prelude.{
  ℕ, suc, ◌+◌, ◌-◌, ◌%◌, ◌^◌, String, Bool, true, false, not, ◌&&◌, ◌||◌, ◌==◌, Option, none, some,
  List, [], ◌∷◌, map, length, any, where_rows, ltb, nat_eq, if◌then◌else◌, unwrap_or,
}
use esclusa.Prelude.Int.{ℤ, pos, negsuc}
use esclusa.Json.{Value, object, number, field, end, empty_object}
use esclusa.Clock.{DateTime}
use esclusa.External.{External}
use esclusa.Db.{TopologyRow, Tables, Exec, pure, perform, query, attempt, ◌>>=◌, ◌>>◌}
use esclusa.Ledger.{NewEntry}
use esclusa.Ledger.Store.{append, recent_allow_exists}
use esclusa.Topology.Updates.{
  answered, count_failure, is_full, is_gone, is_host, is_present, missed, moved, restored, set_rows,
  status_after, update,
}

-- The answers of the network within three seconds, `none` for no answer.
pub record Network : Type 0 where
  pub lookup_host : String → ℕ → Option Bool
  pub connect : String → ℕ → Option Bool

-- `p as u16` of an `i32`.
unfoldable pub as_u16 : ℤ → ℕ
as_u16 (pos n) = n % 2 ^ 16
as_u16 (negsuc n) = 2 ^ 16 - 1 - n % 2 ^ 16

unfoldable pub probe_one : Network → String → String → Option ℤ → Bool
unfolding as_u16
probe_one net host method port =
    if method == "dns"
    then unwrap_or (net.lookup_host host 1) false
    else if method == "tcp"
    then elim port [ none ↦ false | some p ↦ unwrap_or (net.connect host (as_u16 p)) false ]
    else true

module _ (x : External) where
  open x use {Number, timestamptz, from_int}

  abbrev pub reappearance : String → NewEntry Number
  reappearance host = record {
    kind = "system";
    actor = "gate-probe";
    action = "probe.reappear";
    target = host;
    decision = "info";
    reason = "service answering again; status restored to present";
    policy = "";
    params = empty_object;
    authenticated = false;
  }

  -- The entry of a service that stopped answering, audited or not.
  abbrev pub disappearance : String → ℕ → Bool → NewEntry Number
  disappearance host failures true = record {
    kind = "audit";
    actor = "gate-probe";
    action = "probe.audit";
    target = host;
    decision = "info";
    reason =
        host ++ " stopped answering; matching allow found in the last 30 min — removal audited";
    policy = "";
    params = object (field "consecutive_failures" (number (from_int (pos failures))) end);
    authenticated = false;
  }
  disappearance host failures false = record {
    kind = "drift";
    actor = "gate-probe";
    action = "probe.drift";
    target = host;
    decision = "flag";
    reason =
        host
        ++ " stopped answering after 3 consecutive probe failures with no matching allow — unaudited drift";
    policy = "";
    params = object (field "consecutive_failures" (number (from_int (pos failures))) end);
    authenticated = false;
  }

  -- An entry whose failure is only printed.
  abbrev pub note : List ℕ → NewEntry Number → Exec Number (Unit {0})
  note key new = do attempt (append x key new); pure tt

  -- The rest of `handle_success`, by whether the row came back.
  abbrev pub welcome : List ℕ → String → Bool → Exec Number (Unit {0})
  welcome key host true = note key (reappearance host)
  welcome key host false =
      attempt (perform (λ t. update (is_host host) (answered (timestamptz t)))) >> pure tt

  unfoldable pub handle_success : List ℕ → String → Exec Number (Unit {0})
  unfolding set_rows
  handle_success key host = do
    n ← attempt (perform (λ t. update (is_gone host) (restored (timestamptz t))))
    welcome key host (nat_eq (unwrap_or n 0) 1)

  -- The entry, for whoever claimed the transition.
  abbrev pub tell : List ℕ → String → ℕ → Bool → Bool → Exec Number (Unit {0})
  tell key host failures audited false = pure tt
  tell key host failures audited true = note key (disappearance host failures audited)

  unfoldable pub claim : List ℕ → String → ℕ → Bool → Exec Number (Unit {0})
  unfolding set_rows
  claim key host failures audited = do
    n ←
        attempt
          (perform (λ t. update (is_present host) (moved (status_after audited) (timestamptz t))))
    tell key host failures audited (nat_eq (unwrap_or n 0) 1)

  abbrev pub look_up : List ℕ → String → ℕ → Exec Number (Unit {0})
  look_up key host failures = do
    allowed ← attempt (recent_allow_exists x host)
    claim key host failures (unwrap_or allowed false)

  -- From the row that was counted on: nothing below three failures or away from 'present'.
  unfoldable pub judge : List ℕ → String → TopologyRow → Exec Number (Unit {0})
  unfolding claim
  judge key host row =
      if ltb row.consecutive_failures 3 || not (row.status == "present")
      then pure tt
      else look_up key host row.consecutive_failures

  -- `query_opt` gives no row for none, and an error for several.
  abbrev pub judge_returned : List ℕ → String → Option (List TopologyRow) → Exec Number (Unit {0})
  judge_returned key host (some (row ∷ [])) = judge key host row
  judge_returned key host (some []) = pure tt
  judge_returned key host (some (row ∷ other ∷ rows)) = pure tt
  judge_returned key host none = pure tt

  unfoldable pub handle_failure : List ℕ → String → Exec Number (Unit {0})
  unfolding judge
  handle_failure key host = do
    returned ← attempt (perform (λ t. count_failure host (timestamptz t)))
    judge_returned key host returned

  abbrev pub handle : List ℕ → String → Bool → Exec Number (Unit {0})
  handle key host true = handle_success key host
  handle key host false = handle_failure key host

  -- The probes that ended, in the order in which they did, `none` for a task that died.
  unfoldable pub handle_all : List ℕ → List (Option (String × Bool)) → Exec Number (Unit {0})
  unfolding handle_success handle_failure
  handle_all key [] = pure tt
  handle_all key (none ∷ rest) = handle_all key rest
  handle_all key (some (host, good) ∷ rest) = handle key host good >> handle_all key rest

  -- Over the rows that are probed, if they could be read; `join` is how the tasks of the `JoinSet` end.
  abbrev pub probe_all :
      List ℕ
      → Network
      → (List (String × Bool) → List (Option (String × Bool)))
      → Option (List TopologyRow)
      → Exec Number (Unit {0})
  probe_all key net join none = pure tt
  probe_all key net join (some rows) =
      handle_all key
        (join (map (λ r. (r.hostname, probe_one net r.hostname r.probe_method r.tcp_port)) rows))

  -- A cycle, beside the flag `db_ok_last` after it, which is `connected`, whether `db_client` gives a
  -- client.
  unfoldable pub cycle :
      List ℕ
      → Network
      → (List (String × Bool) → List (Option (String × Bool)))
      → Bool
      → Bool × Exec Number (Unit {0})
  unfolding probe_one handle_all
  cycle key net join false = (false, pure tt)
  cycle key net join true = (
    true,
    do
      rows ←
          attempt
            (query (λ _ tables. where_rows (λ r. not (r.probe_method == "none")) tables.topology))
      probe_all key net join rows,
  )
