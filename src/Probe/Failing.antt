-- ===== src/Probe/Failing.antt =====
-- What a failed probe does to the tables: `handle_failure` of gate/src/probe.rs.
use mathlib.Core.Path.{subst}
use esclusa.Prelude.{
  ℕ, suc, ◌≤◌, String, Bool, true, false, not, ◌||◌, ◌==◌, eq_iff, Option, none, some, List, [],
  ◌∷◌, any, map, where_rows, ltb, nat_eq, if◌then◌else◌, unwrap_or, ◌≡◌, ◌⊎◌, inl, inr, refl, sym,
  ap, ◌∙◌, arith,
}
use esclusa.Clock.{DateTime}
use esclusa.External.{External}
use esclusa.Db.{TopologyRow, Tables, World, pure, some_pair}
use esclusa.Db.Statements.{attempt-bind, perform-attempt, query-attempt}
use esclusa.Ledger.{NewEntry}
use esclusa.Ledger.Store.{append, recent_allow, recent_allow_exists}
use esclusa.Ledger.Store.Appending.{append_lem, with_row, row_at}
use esclusa.Probe.{disappearance, note, tell, claim, look_up, judge, judge_returned, handle_failure}
use esclusa.Topology.Updates.{
  set_rows, is_host, is_present, is_full, missed, moved, count_failure, status_after,
}

module _ (x : External) (key : List ℕ) where
  open x use {Number, timestamptz}

  -- The tables as they were, or with the row of `new` behind the ledger.
  abbrev pub Noted : NewEntry Number → (before after : Tables Number) → Type 0
  Noted new before after =
      (after ≡ before) ⊎ ((t : DateTime) × (after ≡ with_row x before (row_at x key new before t)))

  pub note_lem :
      (new : NewEntry Number) (w : World Number) → Noted new w.tables (note x key new w).1.tables
  note_lem new w =
      attempt-bind _ (λ (r, w'). Noted new w.tables w'.tables) (append x key new) w
        (elim (append_lem x key new w) [ inl (_, e) ↦ inl e | inr (t, e, _) ↦ inr (t, e) ])

  -- The topology after `host` is counted as failed once more, and after it is moved.
  abbrev pub counted : String → DateTime → Tables Number → Tables Number
  counted host t tables = record tables {
    topology = set_rows (is_host host) (missed t) tables.topology;
  }

  abbrev pub claimed : String → Bool → DateTime → Tables Number → Tables Number
  claimed host audited t tables = record tables {
    topology = set_rows (is_present host) (moved (status_after audited) t) tables.topology;
  }

  -- A claim of the transition: audited only if an unspent authorization was found.
  pub record Claimed (host : String) (failures : ℕ) (before after : Tables Number) : Type 0 where
    pub audited : Bool
    pub time : DateTime
    pub seen : audited ≡ true → (t : DateTime) × (recent_allow host t before.ledger ≡ true)
    pub noted :
        Noted
          (disappearance x host failures audited)
          (claimed host audited (timestamptz time) before)
          after

  tell_lem :
      (host : String) (failures : ℕ) (audited own : Bool) (w : World Number)
      → Noted
          (disappearance x host failures audited)
          w.tables
          (tell x key host failures audited own w).1.tables
  tell_lem host failures audited false w = inl refl
  tell_lem host failures audited true w = note_lem (disappearance x host failures audited) w

  claim_lem :
      (host : String) (failures : ℕ) (audited : Bool) (w : World Number)
      → (audited ≡ true → (t : DateTime) × (recent_allow host t w.tables.ledger ≡ true))
      → let after = (claim x key host failures audited w).1.tables in
        (after ≡ w.tables) ⊎ Claimed host failures w.tables after
  unfolding claim
  claim_lem host failures audited w seen =
      perform-attempt (λ n. tell x key host failures audited (nat_eq (unwrap_or n 0) 1)) Q _ w
        (λ w' e. inl e)
        (λ w' n e. inr (record {
          audited = audited;
          time = w'.clock;
          seen = seen;
          noted = inl (sym (some_pair e).1);
        }))
        (λ w' n e. inr (record {
          audited = audited;
          time = w'.clock;
          seen = seen;
          noted =
              subst
                (λ (u : Tables Number).
                  Noted (disappearance x host failures audited) u
                    (tell x key host failures audited (nat_eq n 1) w').1.tables)
                (sym (some_pair e).1) (tell_lem host failures audited (nat_eq n 1) w');
        }))
    where
      Q : Option (Unit {0}) × World Number → Type 0
      Q (r, w') = (w'.tables ≡ w.tables) ⊎ Claimed host failures w.tables w'.tables

  look_up_lem :
      (host : String) (failures : ℕ) (w : World Number)
      → let after = (look_up x key host failures w).1.tables in
        (after ≡ w.tables) ⊎ Claimed host failures w.tables after
  unfolding recent_allow_exists
  look_up_lem host failures w =
      query-attempt (λ allowed. claim x key host failures (unwrap_or allowed false))
        (λ (r, w'). Q w.tables w'.tables) _ w
        (λ w' e.
          subst (λ u. Q u (claim x key host failures false w').1.tables) e
            (claim_lem host failures false w' (λ h. cc)))
        (λ w' e.
          let found = recent_allow host w'.clock w.tables.ledger in
          subst (λ u. Q u (claim x key host failures found w').1.tables) e
            (claim_lem host failures found w' (λ h.
              (w'.clock, ap (λ (u : Tables Number). recent_allow host w'.clock u.ledger) e ∙ h))))
    where
      Q : Tables Number → Tables Number → Type 0
      Q before after = (after ≡ before) ⊎ Claimed host failures before after

  -- A row that is judged further than its counter.
  abbrev Ripe : TopologyRow → Type 0
  Ripe row = (row.status ≡ "present") × (3 ≤ row.consecutive_failures)

  judge_lem :
      (host : String) (row : TopologyRow) (w : World Number)
      → let after = (judge x key host row w).1.tables in
        (after ≡ w.tables) ⊎ (Ripe row × Claimed host row.consecutive_failures w.tables after)
  unfolding judge
  judge_lem host row w =
      by_test (ltb row.consecutive_failures 3 || not (row.status == "present"))
        (λ h. (ground (arith, eq_iff row.status "present"), ground arith))
    where
      by_test :
          (stop : Bool)
          → (stop ≡ false → Ripe row)
          → let after =
              ((if stop then pure tt else look_up x key host row.consecutive_failures)
                w).1.tables in
            (after ≡ w.tables) ⊎ (Ripe row × Claimed host row.consecutive_failures w.tables after)
      by_test true ripe = inl refl
      by_test false ripe = elim (look_up_lem host row.consecutive_failures w) [
        | inl e ↦ inl e
        | inr c ↦ inr (ripe refl, c)
      ]

  -- Everything that a failed probe can leave: nothing, one more failure of the host's rows, or, for
  -- a host with a single row that was 'present' with two failures or more, a claim besides.
  abbrev pub Failed : String → (before after : Tables Number) → Type 0
  Failed host before after =
      (after ≡ before)
      ⊎ ((t : DateTime) × ((after ≡ counted host t before)
            ⊎ ((row : TopologyRow) × (where_rows (is_host host) before.topology ≡ row ∷ [])
                × (row.status ≡ "present")
                × (2 ≤ row.consecutive_failures)
                × Claimed host (suc row.consecutive_failures) (counted host t before) after)))

  counting :
      (host : String) (t : DateTime) (before after : Tables Number) (rows : List TopologyRow)
      (full : Bool)
      → ◌≡◌ {A = Option (List TopologyRow × Tables Number)}
          (if full
            then none
            else some
                (map (missed t) (where_rows (is_host host) before.topology), counted host t before))
          (some (rows, after))
      → (rows ≡ map (missed t) (where_rows (is_host host) before.topology))
        × (after ≡ counted host t before)
  counting host t before after rows true e = cc
  counting host t before after rows false e = (sym (some_pair e).0, sym (some_pair e).1)

  returned_lem :
      (host : String) (t : DateTime) (before : Tables Number) (chosen : List TopologyRow)
      (w : World Number)
      → where_rows (is_host host) before.topology ≡ chosen
      → w.tables ≡ counted host t before
      → Failed host before (judge_returned x key host (some (map (missed t) chosen)) w).1.tables
  returned_lem host t before [] w e same = inr (t, inl same)
  returned_lem host t before (row ∷ other ∷ rows) w e same = inr (t, inl same)
  returned_lem host t before (row ∷ []) w e same = elim (judge_lem host (missed t row) w) [
    | inl still ↦ inr (t, inl (still ∙ same))
    | inr ((present, ripe), c) ↦ inr (
      t,
      inr (
        row,
        e,
        present,
        omega arith,
        subst
            (λ u.
              Claimed host (suc row.consecutive_failures) u
                (judge x key host (missed t row) w).1.tables)
            same c,
      ),
    )
  ]

  pub handle_failure_lem :
      (host : String) (w : World Number)
      → Failed host w.tables (handle_failure x key host w).1.tables
  unfolding handle_failure count_failure
  handle_failure_lem host w =
      perform-attempt (λ returned. judge_returned x key host returned)
        (λ (r, w'). Failed host w.tables w'.tables) _ w (λ w' e. inl e)
        (λ w' rows e. inr (timestamptz w'.clock, inl (by_count w' rows e).1))
        (λ w' rows e.
          subst (λ l. Failed host w.tables (judge_returned x key host (some l) w').1.tables)
            (sym (by_count w' rows e).0)
            (returned_lem host (timestamptz w'.clock) w.tables
              (where_rows (is_host host) w.tables.topology) w' refl (by_count w' rows e).1))
    where
      by_count :
          (w' : World Number) (rows : List TopologyRow)
          → count_failure host (timestamptz w'.clock) w.tables ≡ some (rows, w'.tables)
          → (rows
              ≡ map (missed (timestamptz w'.clock)) (where_rows (is_host host) w.tables.topology))
            × (w'.tables ≡ counted host (timestamptz w'.clock) w.tables)
      by_count w' rows e =
          counting host (timestamptz w'.clock) w.tables w'.tables rows
            (any is_full (where_rows (is_host host) w.tables.topology)) e
