-- ===== src/Probe/Containers/Once.antt =====
-- However many containers probe a host that does not answer, gate/src/probe.rs records its
-- disappearance at most once.
use mathlib.Core.List.{append_assoc, append-nil}
use esclusa.Prelude.{
  ℕ, zero, suc, ◌+◌, ◌≤◌, String, Bool, true, false, Option, none, some, List, [], ◌∷◌, ◌++◌, any,
  map, length, length-append, where_rows, All, All-append, nat_eq, if◌then◌else◌, ◌≡◌, refl, sym,
  ap, ◌∙◌, arith, nat_eq_iff,
}
use esclusa.Clock.{DateTime}
use esclusa.External.{External}
use esclusa.Db.{Row, TopologyRow, Tables, Outcome, done, failed, lost, some_pair}
use esclusa.Ledger.Store.{next_entry, stored_row}
use esclusa.Ledger.Store.Appending.{row_at}
use esclusa.Probe.{disappearance}
use esclusa.Topology.Updates.{
  set_rows, is_host, is_present, is_full, missed, moved, count_failure, status_after,
}
use esclusa.Probe.Containers.{
  Phase, counting, looking, claiming, telling, over, Turn, judged, counted_as, claimed_as, turn,
  turn_of, interleave, containers,
}
use esclusa.Probe.Containers.Counting.{
  presents, owes, owed, owes-judged, owed-containers, presents-missed, presents-moved,
}

module _ (x : External) (key : List ℕ) (host : String) where
  open x use {Number, timestamptz}

  -- From one state to another: rows of the host are added to the ledger, at most as many as the
  -- present rows and the entries owed before, less those after.
  abbrev Step : ℕ → Tables Number → ℕ → Tables Number → Type 0
  Step owing before owing' after =
      (added : List (Row Number)) × (after.ledger ≡ before.ledger ++ added)
      × All (λ (r : Row Number). r.target ≡ host) added
      × (presents host after + owing' + length added ≤ presents host before + owing)

  quiet_step :
      (owing owing' : ℕ) (before after : Tables Number)
      → after.ledger ≡ before.ledger
      → presents host after + owing' ≤ presents host before + owing
      → Step owing before owing' after
  quiet_step owing owing' before after same few =
      ([], same ∙ sym (append-nil before.ledger), tt, omega arith)

  Step-trans :
      (o o' o'' : ℕ) (a b c : Tables Number) → Step o a o' b → Step o' b o'' c → Step o a o'' c
  Step-trans o o' o'' a b c (p, e, hp, few) (q, f, hq, few') = (
    p ++ q,
    f ∙ ap (λ l. l ++ q) e ∙ append_assoc a.ledger p q,
    All-append (λ (r : Row Number). r.target ≡ host) p q hp hq,
    omega (arith, length-append p q),
  )

  told_target :
      (n : ℕ) (audited : Bool) (t : DateTime) (tables : Tables Number)
      → (row_at x key (disappearance x host n audited) tables t).target ≡ host
  unfolding next_entry stored_row
  told_target n true t tables = refl
  told_target n false t tables = refl

  counted_step :
      (o : Outcome) (r : Option (List TopologyRow × Tables Number)) (tables : Tables Number)
      → ((rows : List TopologyRow) (after : Tables Number)
          → r ≡ some (rows, after)
          → (after.ledger ≡ tables.ledger) × (presents host after ≡ presents host tables))
      → Step 0 tables (owes (counted_as o r tables).0) (counted_as o r tables).1
  counted_step failed r tables h = quiet_step 0 0 tables tables refl (omega arith)
  counted_step done none tables h = quiet_step 0 0 tables tables refl (omega arith)
  counted_step done (some (rows, after)) tables h =
      quiet_step 0 (owes (judged rows)) tables after (h rows after refl).0
        (omega (arith, (h rows after refl).1, owes-judged rows))
  counted_step lost none tables h = quiet_step 0 0 tables tables refl (omega arith)
  counted_step lost (some (rows, after)) tables h =
      quiet_step 0 0 tables after (h rows after refl).0 (omega (arith, (h rows after refl).1))

  pub count_failure_keeps :
      (t : DateTime) (tables : Tables Number) (rows : List TopologyRow) (after : Tables Number)
      → count_failure host t tables ≡ some (rows, after)
      → (after.ledger ≡ tables.ledger) × (presents host after ≡ presents host tables)
  unfolding count_failure
  count_failure_keeps t tables rows after e =
      by_test (any is_full (where_rows (is_host host) tables.topology)) e
    where
      counted : Tables Number
      counted = record tables { topology = set_rows (is_host host) (missed t) tables.topology }

      by_test :
          (b : Bool)
          → ◌≡◌ {A = Option (List TopologyRow × Tables Number)}
              (if b
                then none
                else some (map (missed t) (where_rows (is_host host) tables.topology), counted))
              (some (rows, after))
          → (after.ledger ≡ tables.ledger) × (presents host after ≡ presents host tables)
      by_test true h = cc
      by_test false h = (
        ap (λ (u : Tables Number). u.ledger) (sym (some_pair h).1),
        ap (presents host) (sym (some_pair h).1) ∙ presents-missed host t tables.topology,
      )

  abbrev gone : Bool → DateTime → Tables Number → Tables Number
  gone audited t tables = record tables {
    topology = set_rows (is_present host) (moved (status_after audited) t) tables.topology;
  }

  claimed_step :
      (o : Outcome) (n : ℕ) (audited : Bool) (t : DateTime) (tables : Tables Number)
      → let (p, u) =
          claimed_as o (presents host tables) (telling n audited) (gone audited t tables) tables in
        Step 0 tables (owes p) u
  claimed_step failed n audited t tables = quiet_step 0 0 tables tables refl (omega arith)
  claimed_step done n audited t tables = by_count (nat_eq (presents host tables) 1) refl
    where
      by_count :
          (b : Bool)
          → nat_eq (presents host tables) 1 ≡ b
          → Step 0 tables (owes (if b then telling n audited else over)) (gone audited t tables)
      by_count true e = quiet_step 0 1 tables (gone audited t tables) refl (
          omega (
            arith,
            presents-moved host audited t tables.topology,
            (nat_eq_iff (presents host tables) 1).0 e,
          ))
      by_count false e =
          quiet_step 0 0 tables (gone audited t tables) refl
            (omega (arith, presents-moved host audited t tables.topology))
  claimed_step lost n audited t tables =
      quiet_step 0 0 tables (gone audited t tables) refl
        (omega (arith, presents-moved host audited t tables.topology))

  turn_step :
      (o : Outcome) (t : DateTime) (p : Phase) (tables : Tables Number)
      → Step
          (owes p)
          tables
          (owes (turn x key host o t p tables).0)
          (turn x key host o t p tables).1
  unfolding turn
  turn_step o t counting tables =
      counted_step o (count_failure host (timestamptz t) tables) tables
        (count_failure_keeps (timestamptz t) tables)
  turn_step o t (looking n) tables = quiet_step 0 0 tables tables refl (omega arith)
  turn_step o t (claiming n audited) tables = claimed_step o n audited (timestamptz t) tables
  turn_step failed t (telling n audited) tables = quiet_step 1 0 tables tables refl (omega arith)
  turn_step done t (telling n audited) tables = (
    row_at x key (disappearance x host n audited) tables t ∷ [],
    refl,
    (told_target n audited t tables, tt),
    omega arith,
  )
  turn_step lost t (telling n audited) tables = (
    row_at x key (disappearance x host n audited) tables t ∷ [],
    refl,
    (told_target n audited t tables, tt),
    omega arith,
  )
  turn_step o t over tables = quiet_step 0 0 tables tables refl (omega arith)

  -- A step of one container, beside others that owe as before.
  beside : (o o' d : ℕ) (a b : Tables Number) → Step o a o' b → Step (d + o) a (d + o') b
  beside o o' d a b (added, e, h, few) = (added, e, h, omega arith)

  turn_of_step :
      (i : ℕ) (o : Outcome) (t : DateTime) (phases : List Phase) (tables : Tables Number)
      → let (phases', after) = turn_of x key host i o t phases tables in
        Step (owed phases) tables (owed phases') after
  unfolding turn_of
  turn_of_step i o t [] tables = quiet_step 0 0 tables tables refl (omega arith)
  turn_of_step zero o t (p ∷ phases) tables =
      let (added, e, h, few) = turn_step o t p tables in (added, e, h, omega arith)
  turn_of_step (suc i) o t (p ∷ phases) tables =
      beside _ _ (owes p) tables (turn_of x key host i o t phases tables).1
        (turn_of_step i o t phases tables)

  interleave_step :
      (schedule : List Turn) (phases : List Phase) (tables : Tables Number)
      → let (phases', after) = interleave x key host schedule phases tables in
        Step (owed phases) tables (owed phases') after
  unfolding interleave
  interleave_step [] phases tables = quiet_step _ _ tables tables refl (omega arith)
  interleave_step (s ∷ schedule) phases tables =
      let (phases', after) = turn_of x key host s.container s.outcome s.time phases tables in
      Step-trans (owed phases) (owed phases') _ tables after
        (interleave x key host schedule phases' after).1
        (turn_of_step s.container s.outcome s.time phases tables)
        (interleave_step schedule phases' after)

  -- However many containers probe a host that does not answer, however their statements interleave,
  -- and whichever of these fail or lose their reply, the rows that are added to the ledger are all about
  -- the host, and they are at most as many as its rows that were present: one, the hostname being the
  -- key of the table, and none where it was already gone.
  pub interleave-once :
      (n : ℕ) (schedule : List Turn) (tables : Tables Number)
      → let after = (interleave x key host schedule (containers n) tables).1 in
        (added : List (Row Number)) × (after.ledger ≡ tables.ledger ++ added)
        × All (λ (r : Row Number). r.target ≡ host) added
        × (length added ≤ presents host tables)
  interleave-once n schedule tables =
      let (added, e, h, few) = interleave_step schedule (containers n) tables in
      (added, e, h, omega (arith, owed-containers n))
