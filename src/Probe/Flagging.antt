-- ===== src/Probe/Flagging.antt =====
-- What `handle_failure` of gate/src/probe.rs leaves in the tables while the database answers: a service
-- that disappears is flagged, or audited if its removal was allowed.
use mathlib.Core.Path.{subst}
use esclusa.Prelude.{
  ℕ, suc, ◌+◌, ◌^◌, ◌≤◌, ◌<◌, String, Bool, true, false, ◌==◌, eq_iff, List, [], ◌∷◌, ◌++◌,
  where_rows, length, ltb, All, Bool-cases, ◌≡◌, ◌≢◌, ◌⊎◌, inl, inr, refl, ap, ◌∙◌, arith,
}
use esclusa.Prelude.Int.{pos, i64_max}
use esclusa.Json.{object, field, number, end}
use esclusa.Clock.{DateTime}
use esclusa.External.{External, KeepsMicros}
use esclusa.Db.{Row, TopologyRow, Tables}
use esclusa.Db.Quiet.{quiet}
use esclusa.Ledger.{normalize_params}
use esclusa.Ledger.Store.{recent_allow, stored_row, next_entry}
use esclusa.Ledger.Store.Appending.{with_row, row_at}
use esclusa.Ledger.Store.Chained.{IsLedger, next_number}
use esclusa.Probe.{disappearance, handle_failure}
use esclusa.Topology.Updates.{is_host, status_after}
use esclusa.Probe.Failing.{counted, claimed}
use esclusa.Probe.Updating.{All-map, only_chosen}
use esclusa.Probe.Counting.{handle_failure-moves, handle_failure-idle}
use esclusa.Probe.Marking.{failed, counted-failed, claimed-failed}

module _ (x : External) (key : List ℕ) where
  open x use {Number, from_int, timestamptz, jsonb}

  -- The row that is written of the `n`-th failure.
  pub record Written (kind action decision host : String) (n : ℕ) (before : Tables Number)
      (r : Row Number) : Type 0 where
    pub id : r.id ≡ pos (1 + length before.ledger)
    pub kind_is : r.kind ≡ kind
    pub actor : r.actor ≡ "gate-probe"
    pub action_is : r.action ≡ action
    pub target : r.target ≡ host
    pub decision_is : r.decision ≡ decision
    pub policy : r.policy ≡ ""
    pub params :
        r.params
        ≡ jsonb (
            normalize_params x
              (object (field "consecutive_failures" (number (from_int (pos n))) end)))

  -- The status of the host becomes `status`, and one row is written behind the ledger.
  abbrev pub Told :
      (status kind action decision host : String)
      → ℕ
      → DateTime
      → (before after : Tables Number) → Type 0
  Told status kind action decision host n t before after =
      (after.topology ≡ failed host (timestamptz t) (λ s. status) before.topology)
      × ((r : Row Number) × (after.ledger ≡ before.ledger ++ r ∷ [])
          × Written kind action decision host n before r)

  -- What a failed probe of a host with the single row `row` leads to.
  abbrev pub Judged : String → TopologyRow → DateTime → (before after : Tables Number) → Type 0
  Judged host row t before after =
      (((row.status ≢ "present") ⊎ (row.consecutive_failures < 2))
        × (after.topology ≡ failed host (timestamptz t) (λ s. s) before.topology)
        × (after.ledger ≡ before.ledger))
      ⊎ ((row.status ≡ "present")
          × (2 ≤ row.consecutive_failures)
          × (((recent_allow host t before.ledger ≡ true)
                × Told "removed-audited" "audit" "probe.audit" "info" host
                    (suc row.consecutive_failures) t before after)
              ⊎ ((recent_allow host t before.ledger ≡ false)
                  × Told "missing-unaudited" "drift" "probe.drift" "flag" host
                      (suc row.consecutive_failures) t before after)))

  module _ (micros : KeepsMicros x) (host : String) (row : TopologyRow) (t : DateTime)
      (tables : Tables Number) (only : where_rows (is_host host) tables.topology ≡ row ∷ [])
      (small : suc row.consecutive_failures < 2 ^ 31) (l : IsLedger x key tables.ledger)
      (room : length tables.ledger < i64_max) where
    after : Tables Number
    after = (handle_failure x key host (quiet t tables)).1.tables

    idle :
        (row.status ≢ "present") ⊎ (row.consecutive_failures < 2)
        → ((row.status == "present") ≡ false) ⊎ (row.consecutive_failures < 2)
        → Judged host row t tables after
    unfolding after
    idle why h =
        let e = handle_failure-idle x key host row t tables only h small in
        inl (
          why,
          ap (λ (u : Tables Number). u.topology) e
              ∙ counted-failed host (timestamptz t) tables.topology,
          ap (λ (u : Tables Number). u.ledger) e,
        )

    module _ (present : row.status ≡ "present") (failing : 2 ≤ row.consecutive_failures) where
      All-present : All (λ s. is_host host s ≡ true → s.status ≡ "present") tables.topology
      All-present =
          All-map (λ s. is_host host s ≡ true → s ≡ row)
            (λ s. is_host host s ≡ true → s.status ≡ "present")
            (λ s same yes. ap (λ (r : TopologyRow). r.status) (same yes) ∙ present) tables.topology
            (only_chosen (is_host host) row tables.topology only)

      mid : Bool → Tables Number
      mid audited =
          claimed x key host audited (timestamptz t) (counted x key host (timestamptz t) tables)

      row_of : Bool → Row Number
      row_of audited =
          row_at x key (disappearance x host (suc row.consecutive_failures) audited) (mid audited) t

      moves :
          (audited : Bool)
          → recent_allow host t tables.ledger ≡ audited
          → after ≡ with_row x (mid audited) (row_of audited)
      unfolding after mid row_of
      moves audited e =
          subst (λ a. after ≡ with_row x (mid a) (row_of a)) e
            (handle_failure-moves x key micros host row t tables only present failing small l room)

      told-topology :
          (audited : Bool)
          → recent_allow host t tables.ledger ≡ audited
          → after.topology ≡ failed host (timestamptz t) (λ s. status_after audited) tables.topology
      unfolding mid
      told-topology audited e =
          ap (λ (u : Tables Number). u.topology) (moves audited e)
          ∙ claimed-failed host (status_after audited) (timestamptz t) tables.topology All-present

      told-ledger :
          (audited : Bool)
          → recent_allow host t tables.ledger ≡ audited
          → after.ledger ≡ tables.ledger ++ row_of audited ∷ []
      unfolding mid
      told-ledger audited e = ap (λ (u : Tables Number). u.ledger) (moves audited e)

      numbered : (audited : Bool) → (row_of audited).id ≡ pos (1 + length tables.ledger)
      unfolding row_of mid
      numbered audited =
          next_number x key micros (disappearance x host (suc row.consecutive_failures) audited) t
            (mid audited) l room

      written :
          (audited : Bool)
          → let new = disappearance x host (suc row.consecutive_failures) audited in
            Written new.kind new.action new.decision host
              (suc row.consecutive_failures)
              tables
              (row_of audited)
      unfolding row_of stored_row next_entry
      written true = record {
        id = numbered true;
        kind_is = refl;
        actor = refl;
        action_is = refl;
        target = refl;
        decision_is = refl;
        policy = refl;
        params = refl;
      }
      written false = record {
        id = numbered false;
        kind_is = refl;
        actor = refl;
        action_is = refl;
        target = refl;
        decision_is = refl;
        policy = refl;
        params = refl;
      }

      judged : Judged host row t tables after
      judged = inr (
        present,
        failing,
        elim (Bool-cases (recent_allow host t tables.ledger)) [
          | inl e ↦ inl (e, (told-topology true e, (row_of true, told-ledger true e, written true)))
          | inr e ↦
              inr (e, (told-topology false e, (row_of false, told-ledger false e, written false)))
        ],
      )

  -- While the database answers, a failed probe of a host with a single row does one of three things. If
  -- the row is not 'present' or had fewer than two failures, the failure is counted and nothing else
  -- changes. Otherwise the failure is counted and one row is written behind the ledger, numbered
  -- next, of the actor 'gate-probe', with the host as its target and the count as its parameter: if the
  -- search finds an unspent authorization of the removal, the row becomes 'removed-audited' and what is
  -- written is 'audit', 'probe.audit', 'info'; if it finds none, 'missing-unaudited' and 'drift',
  -- 'probe.drift', 'flag'. No other host's row changes. The ledger must be the gate's own, with an id
  -- left, the counter below its maximum, and `timestamptz` must keep whole microseconds.
  pub handle_failure-records :
      KeepsMicros x
      → (host : String) (row : TopologyRow) (t : DateTime) (tables : Tables Number)
      → where_rows (is_host host) tables.topology ≡ row ∷ []
      → suc row.consecutive_failures < 2 ^ 31
      → IsLedger x key tables.ledger
      → length tables.ledger < i64_max
      → Judged host row t tables (handle_failure x key host (quiet t tables)).1.tables
  unfolding after
  handle_failure-records micros host row t tables only small l room =
      elim (Bool-cases (row.status == "present")) [
        | inr e ↦
            idle micros host row t tables only small l room
              (inl (λ same. cc (e, (eq_iff row.status "present").1 same))) (inl e)
        | inl e ↦ elim (Bool-cases (ltb row.consecutive_failures 2)) [
          | inl few ↦
              let less : row.consecutive_failures < 2 = ground (arith, few) in
              idle micros host row t tables only small l room (inr less) (inr less)
          | inr enough ↦
              judged micros host row t tables only small l room ((eq_iff row.status "present").0 e)
                (ground (arith, enough))
        ]
      ]
