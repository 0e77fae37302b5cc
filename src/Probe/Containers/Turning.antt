-- ===== src/Probe/Containers/Turning.antt =====
-- One statement of one container while the database answers, before the claim of gate/src/probe.rs and
-- behind it.
use mathlib.Core.Path.{subst}
use esclusa.Prelude.{
  ℕ, zero, suc, ◌+◌, ◌≤◌, ◌<◌, ◌^◌, String, Bool, true, false, not, ◌||◌, ◌==◌, eq_iff, Option,
  none, some, List, [], ◌∷◌, any, map, length, length-append, All, ltb, if◌then◌else◌, ◌≡◌, ◌⊎◌,
  inl, inr, refl, sym, ap, ◌∙◌, arith,
}
use esclusa.Clock.{DateTime}
use esclusa.External.{External}
use esclusa.Db.{Row, TopologyRow, Tables, done}
use esclusa.Ledger.Store.Appending.{row_at}
use esclusa.Probe.{disappearance}
use esclusa.Topology.Updates.{
  set_rows, is_host, is_present, is_full, missed, moved, count_failure, status_after,
}
use esclusa.Probe.Containers.{
  Phase, counting, looking, claiming, telling, over, judged, counted_as, claimed_as, turn, turn_of,
}
use esclusa.Probe.Containers.Counting.{presents, owes, owed, owes-judged, presents-moved}
use esclusa.Probe.Containers.Once.{count_failure_keeps}
use esclusa.Probe.Containers.Waiting.{
  pends, pending, IsWaiting, owes-IsWaiting, owed-IsWaiting, host-missed, Ready, presents-Ready,
}

module _ (x : External) (key : List ℕ) (host : String) where
  open x use {Number, timestamptz}

  -- The claim is open, with so many failures and counts together, or it is made and its entry owed.
  abbrev Waits : ℕ → List (Row Number) → Phase × Tables Number → Type 0
  Waits total ledger (p, after) =
      ((r : Ready host after) × IsWaiting p
        × (r.row.consecutive_failures + pends p ≡ total)
        × (after.ledger ≡ ledger))
      ⊎ ((presents host after ≡ 0) × (owes p ≡ 1) × (after.ledger ≡ ledger))

  module _ (tables : Tables Number) (r : Ready host tables) where
    abbrev counted : DateTime → Tables Number
    counted t = record tables { topology = set_rows (is_host host) (missed t) tables.topology }

    judged_ready :
        (t : DateTime) → judged (missed t r.row ∷ []) ≡ looking (suc r.row.consecutive_failures)
    judged_ready t =
        by_tests (ltb (suc r.row.consecutive_failures) 3) (r.row.status == "present")
          (by_failures r.row.consecutive_failures r.failing)
          ((eq_iff r.row.status "present").1 r.present)
      where
        by_failures : (f : ℕ) → 2 ≤ f → ltb (suc f) 3 ≡ false
        by_failures f h = ground arith

        by_tests :
            (few there : Bool)
            → few ≡ false
            → there ≡ true
            → (if few || not there then over else looking (suc r.row.consecutive_failures))
              ≡ looking (suc r.row.consecutive_failures)
        by_tests true there e h = cc
        by_tests false true e h = refl
        by_tests false false e h = cc

    not_full : (f : ℕ) → suc f < 2 ^ 31 → (not (ltb (suc f) (2 ^ 31)) || false) ≡ false
    not_full f h = ground arith

    count_ready :
        (t : DateTime)
        → suc r.row.consecutive_failures < 2 ^ 31
        → count_failure host t tables ≡ some (missed t r.row ∷ [], counted t)
    unfolding count_failure
    count_ready t room =
        ap
          (λ l.
            if◌then◌else◌ {A = Option (List TopologyRow × Tables Number)} (any is_full l) none
              (some (map (missed t) l, counted t)))
          r.single
        ∙ ap
            (λ b.
              if◌then◌else◌ {A = Option (List TopologyRow × Tables Number)} b none
                (some (missed t r.row ∷ [], counted t)))
            (not_full r.row.consecutive_failures room)

    Ready-counted : (t : DateTime) → Ready host (counted t)
    Ready-counted t = record {
      row = missed t r.row;
      single = host-missed host t tables.topology ∙ ap (map (missed t)) r.single;
      present = r.present;
      failing = omega (arith, r.failing);
    }

    -- A turn before the claim, with room for another failure.
    waiting_turn :
        (t : DateTime) (p : Phase)
        → IsWaiting p
        → r.row.consecutive_failures + pends p < 2 ^ 31
        → Waits
            (r.row.consecutive_failures + pends p)
            tables.ledger
            (turn x key host done t p tables)
    unfolding turn Ready-counted
    waiting_turn t counting h room =
        subst (Waits (r.row.consecutive_failures + 1) tables.ledger)
          (sym (
            ap (λ o. counted_as done o tables) (count_ready (timestamptz t) (omega arith))
            ∙ ap (λ p. (p, counted (timestamptz t))) (judged_ready (timestamptz t))))
          (inl (Ready-counted (timestamptz t), tt, omega arith, refl))
    waiting_turn t (looking n) h room = inl (r, tt, refl, refl)
    waiting_turn t (claiming n audited) h room =
        subst
          (λ k.
            Waits (r.row.consecutive_failures + 0) tables.ledger
              (claimed_as done k (telling n audited) gone tables))
          (sym (presents-Ready host tables r))
          (inr (presents-moved host audited (timestamptz t) tables.topology, refl, refl))
      where
        gone : Tables Number
        gone = record tables {
          topology =
              set_rows (is_present host) (moved (status_after audited) (timestamptz t))
                tables.topology;
        }
    waiting_turn t (telling n audited) h room = absurd h
    waiting_turn t over h room = absurd h

  -- A turn behind the claim: what is owed is owed still or stored.
  gone_turn :
      (t : DateTime) (p : Phase) (tables : Tables Number)
      → presents host tables ≡ 0
      → let (p', after) = turn x key host done t p tables in
        (presents host after ≡ 0) × (length after.ledger + owes p' ≡ length tables.ledger + owes p)
  unfolding turn
  gone_turn t counting tables none_left =
      by_count (count_failure host (timestamptz t) tables)
        (count_failure_keeps x key host (timestamptz t) tables)
    where
      by_count :
          (r : Option (List TopologyRow × Tables Number))
          → ((rows : List TopologyRow) (after : Tables Number)
              → r ≡ some (rows, after)
              → (after.ledger ≡ tables.ledger) × (presents host after ≡ presents host tables))
          → let (p', after) = counted_as done r tables in
            (presents host after ≡ 0) × (length after.ledger + owes p' ≡ length tables.ledger + 0)
      by_count none keeps = (none_left, refl)
      by_count (some (rows, after)) keeps =
          let (ledger, same) = keeps rows after refl in
          (same ∙ none_left, omega (arith, ap length ledger, owes-judged rows))
  gone_turn t (looking n) tables none_left = (none_left, refl)
  gone_turn t (claiming n audited) tables none_left =
      subst
        (λ k.
          let (p', after) = claimed_as done k (telling n audited) gone tables in
          (presents host after ≡ 0) × (length after.ledger + owes p' ≡ length tables.ledger + 0))
        (sym none_left) (presents-moved host audited (timestamptz t) tables.topology, refl)
    where
      gone : Tables Number
      gone = record tables {
        topology =
            set_rows (is_present host) (moved (status_after audited) (timestamptz t))
              tables.topology;
      }
  gone_turn t (telling n audited) tables none_left = (
    none_left,
    omega (
      arith,
      length-append tables.ledger (row_at x key (disappearance x host n audited) tables t ∷ []),
    ),
  )
  gone_turn t over tables none_left = (none_left, refl)

  -- The claim is open to all containers, or it is made and one entry is owed or stored.
  abbrev pub Open : ℕ → List (Row Number) → List Phase × Tables Number → Type 0
  Open total ledger (phases, after) =
      (r : Ready host after) × All IsWaiting phases
      × (r.row.consecutive_failures + pending phases ≡ total)
      × (after.ledger ≡ ledger)

  abbrev pub Made : ℕ → List Phase × Tables Number → Type 0
  Made entries (phases, after) =
      (presents host after ≡ 0) × (length after.ledger + owed phases ≡ entries)

  pub waiting_turn_of :
      (i : ℕ) (t : DateTime) (phases : List Phase) (tables : Tables Number) (r : Ready host tables)
      → All IsWaiting phases
      → r.row.consecutive_failures + pending phases < 2 ^ 31
      → let next = turn_of x key host i done t phases tables in
        Open (r.row.consecutive_failures + pending phases) tables.ledger next
        ⊎ Made (suc (length tables.ledger)) next
  unfolding turn_of
  waiting_turn_of i t [] tables r h room = inl (r, tt, refl, refl)
  waiting_turn_of zero t (p ∷ phases) tables r h room =
      elim (waiting_turn tables r t p h.0 (omega arith)) [
        | inl (r', w, same, ledger) ↦ inl (r', (w, h.1), omega arith, ledger)
        | inr (gone, one, ledger) ↦
            inr (gone, omega (arith, ap length ledger, owed-IsWaiting phases h.1))
      ]
  waiting_turn_of (suc i) t (p ∷ phases) tables r h room =
      elim (waiting_turn_of i t phases tables r h.1 (omega arith)) [
        | inl (r', w, same, ledger) ↦ inl (r', (h.0, w), omega arith, ledger)
        | inr (gone, one) ↦ inr (gone, omega (arith, owes-IsWaiting p h.0))
      ]

  pub gone_turn_of :
      (i : ℕ) (t : DateTime) (phases : List Phase) (tables : Tables Number)
      → presents host tables ≡ 0
      → Made (length tables.ledger + owed phases) (turn_of x key host i done t phases tables)
  unfolding turn_of
  gone_turn_of i t [] tables none_left = (none_left, refl)
  gone_turn_of zero t (p ∷ phases) tables none_left =
      let (gone, same) = gone_turn t p tables none_left in (gone, omega arith)
  gone_turn_of (suc i) t (p ∷ phases) tables none_left =
      let (gone, same) = gone_turn_of i t phases tables none_left in (gone, omega arith)
