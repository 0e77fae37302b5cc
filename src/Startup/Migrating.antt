-- ===== src/Startup/Migrating.antt =====
-- `init_once` of gate/src/db.rs as a whole: one transaction, which takes effect entirely or not at all.
use mathlib.Core.Path.{subst}
use esclusa.Prelude.{
  ◌≤◌, ◌<◌, String, Bool, true, false, Option, none, some, List, [], ◌∷◌, map, length, All, ◌≡◌,
  ◌⊎◌, inl, inr, refl, sym, ap, ◌∙◌, arith,
}
use esclusa.Clock.{DateTime}
use esclusa.External.{External}
use esclusa.Db.{TopologyRow, Tables, World, Exec, perform, query, ◌>>=◌}
use esclusa.Db.Spending.{Ends, query-Reads, perform-Ends, Reads-bind}
use esclusa.Policy
use esclusa.Topology.Seed.{seed}
use esclusa.Startup.{insert_policies, seed_topology, seeded_row, insert_service, init_once}
use esclusa.Startup.Seeding.{
  policies_after, services_after, topology_after, migrated, migrated-twice, HasPolicy, Extends,
  policies_after-Extends, policies_after-has, insert_policies-Reads, seed_topology-Reads,
}

module _ (x : External) where
  open x use {Number, timestamptz}

  -- The round succeeds or uses up an await, and the tables are migrated, or untouched after an error.
  abbrev pub Initialised : World Number → Option (Unit {0}) × World Number → Type 0
  Initialised w p = (t : DateTime) × Ends w tt (migrated x t w.tables) p

  later_Ends :
      (w u : World Number) (a : Unit {0}) (after after' : Tables Number)
      (p : Option (Unit {0}) × World Number)
      → length u.awaits ≤ length w.awaits
      → u.tables ≡ w.tables
      → after ≡ after'
      → Ends u a after p
      → Ends w a after' p
  later_Ends w u a after after' (r, w') left same e (inl (failed, spent, kept)) =
      inl (failed, omega arith, kept ∙ same)
  later_Ends w u a after after' (r, w') left same e (inr (inl (failed, spent, shown))) =
      inr (inl (failed, omega arith, shown ∙ e))
  later_Ends w u a after after' (r, w') left same e (inr (inr (told, spent, shown))) =
      inr (inr (told, omega arith, shown ∙ e))

  abbrev commit : Tables Number → Exec Number (Unit {0})
  commit work = perform (λ _ _. some (tt, work))

  pub init_once_lem : (w : World Number) → Initialised w (init_once x true w)
  unfolding init_once
  init_once_lem w =
      let (t, begun) = query-Reads (λ t _. t) w in
      Reads-bind _ (Initialised w) (query (λ t _. t)) w (length w.awaits) t w.tables begun stop
        λ w1 left1 same1.
          Reads-bind _ (Initialised w) (query (λ _ _. tt)) w1 (length w1.awaits) tt w1.tables
            (query-Reads (λ _ _. tt) w1).1 (λ w' spent same. stop w' (omega arith) (same ∙ same1))
            λ w2 left2 same2.
              Reads-bind _ (Initialised w) (query (λ _ tables. tables)) w2 (length w2.awaits)
                w2.tables w2.tables (query-Reads (λ _ tables. tables) w2).1
                (λ w' spent same. stop w' (omega arith) (same ∙ same2 ∙ same1))
                λ w3 left3 same3.
                  on_copy t w2.tables (same2 ∙ same1) w3 (omega arith) (same3 ∙ same2 ∙ same1)
    where
      stop :
          (w' : World Number)
          → length w'.awaits < length w.awaits
          → w'.tables ≡ w.tables
          → Initialised w (none, w')
      stop w' spent same = (0, inl (refl, spent, same))

      committed :
          (t : DateTime) (work : Tables Number)
          → work ≡ migrated x t w.tables
          → (u : World Number) → length u.awaits ≤ length w.awaits
          → u.tables ≡ w.tables
          → Initialised w (commit work u)
      committed t work e u left same = (
        t,
        later_Ends w u tt work (migrated x t w.tables) (commit work u) left same e
            (perform-Ends (λ _ _. (tt, work)) u).1,
      )

      on_copy :
          (t : DateTime) (before : Tables Number)
          → before ≡ w.tables
          → (u : World Number) → length u.awaits ≤ length w.awaits
          → u.tables ≡ w.tables
          → Initialised w (
              (do
                with_policies ← insert_policies x 0 Policy.policies before
                count ← query (λ _ _. length with_policies.topology)
                work ← seed_topology x t count with_policies
                commit work)
                u)
      on_copy t before e u left same =
          let with_policies = record before {
            policies = policies_after 0 Policy.policies before.policies;
          } in
          Reads-bind _ (Initialised w) (insert_policies x 0 Policy.policies before) u
            (length u.awaits) with_policies u.tables
            (insert_policies-Reads x 0 Policy.policies before (length u.awaits) u (omega arith))
            (λ w' spent kept. stop w' (omega arith) (kept ∙ same))
            λ u1 left1 same1.
              Reads-bind _ (Initialised w) (query (λ _ _. length before.topology)) u1
                (length u1.awaits) (length before.topology) u1.tables
                (query-Reads (λ _ _. length before.topology) u1).1
                (λ w' spent kept. stop w' (omega arith) (kept ∙ same1 ∙ same))
                λ u2 left2 same2.
                  Reads-bind _ (Initialised w)
                    (seed_topology x t (length before.topology) with_policies) u2 (length u2.awaits)
                    (migrated x t before) u2.tables
                    (seed_topology-Reads x t before.topology with_policies (length u2.awaits) u2
                      refl (omega arith))
                    (λ w' spent kept. stop w' (omega arith) (kept ∙ same2 ∙ same1 ∙ same))
                    λ u3 left3 same3.
                      committed t (migrated x t before) (ap (migrated x t) e) u3 (omega arith)
                        (same3 ∙ same2 ∙ same1 ∙ same)

  -- What the migration leaves: the ledger and all rows as they were, switched-off policies included,
  -- every policy with a row, the added ones switched on, the seed in a topology that was empty, and
  -- nothing to do for any later round.
  pub record Migrated (before after : Tables Number) : Type 0 where
    pub time : DateTime
    pub ledger : after.ledger ≡ before.ledger
    pub policies : Extends before.policies after.policies
    pub complete :
        All (λ (p : String × String × String). HasPolicy after.policies p.0) Policy.policies
    pub topology :
        ((before.topology ≡ []) × (after.topology ≡ map (seeded_row time) seed))
        ⊎ (after.topology ≡ before.topology)
    pub settled :
        (got : Bool) (w : World Number) → w.tables ≡ after → (init_once x got w).1.tables ≡ after

  Ends-tables :
      (w : World Number) (after : Tables Number) (p : Option (Unit {0}) × World Number)
      → Ends w tt after p
      → after ≡ w.tables
      → p.1.tables ≡ w.tables
  Ends-tables w after (r, w') (inl (_, _, kept)) e = kept
  Ends-tables w after (r, w') (inr (inl (_, _, shown))) e = shown ∙ e
  Ends-tables w after (r, w') (inr (inr (_, _, shown))) e = shown ∙ e

  pub no_client : (w : World Number) → init_once x false w ≡ (none, w)
  unfolding init_once
  no_client w = refl

  settled_after :
      (t : DateTime) (before : Tables Number) (got : Bool) (w : World Number)
      → w.tables ≡ migrated x t before
      → (init_once x got w).1.tables ≡ migrated x t before
  settled_after t before false w e =
      ap (λ (p : Option (Unit {0}) × World Number). p.1.tables) (no_client w) ∙ e
  settled_after t before true w e =
      let (t', ends) = init_once_lem w in
      Ends-tables w (migrated x t' w.tables) (init_once x true w) ends
        (ap (migrated x t') e ∙ migrated-twice x t t' before ∙ sym e)
      ∙ e

  seeded_empty : (t : DateTime) → services_after t seed [] ≡ map (seeded_row t) seed
  unfolding services_after insert_service
  seeded_empty t = refl

  pub migrated-Migrated :
      (t : DateTime) (before : Tables Number) → Migrated before (migrated x t before)
  migrated-Migrated t before = record {
    time = timestamptz t;
    ledger = refl;
    policies = policies_after-Extends 0 Policy.policies before.policies;
    complete = policies_after-has 0 Policy.policies before.policies;
    topology = by_rows before.topology refl;
    settled = settled_after t before;
  }
    where
      by_rows :
          (rows : List TopologyRow)
          → before.topology ≡ rows
          → ((before.topology ≡ [])
              × ((migrated x t before).topology ≡ map (seeded_row (timestamptz t)) seed))
            ⊎ ((migrated x t before).topology ≡ before.topology)
      by_rows [] e = inl (e, ap (topology_after (timestamptz t)) e ∙ seeded_empty (timestamptz t))
      by_rows (r ∷ rows) e = inr (ap (topology_after (timestamptz t)) e ∙ sym e)

  -- A round of the migration, whatever becomes of its statements, leaves the tables untouched and
  -- errs, or migrates them: the ledger and every row that was there stay as they were, with the
  -- switches of the policies, every policy has a row, those added are on, an empty topology gets the
  -- seed and any other stays, and further rounds change nothing. Only then it succeeds.
  pub init_once-Migrated :
      (got : Bool) (w : World Number)
      → let (r, w') = init_once x got w in
        ((r ≡ none) × (w'.tables ≡ w.tables)) ⊎ Migrated w.tables w'.tables
  init_once-Migrated false w = inl (
    ap (λ (p : Option (Unit {0}) × World Number). p.0) (no_client w),
    ap (λ (p : Option (Unit {0}) × World Number). p.1.tables) (no_client w),
  )
  init_once-Migrated true w = let (t, ends) = init_once_lem w in by_end t (init_once x true w) ends
    where
      by_end :
          (t : DateTime) (p : Option (Unit {0}) × World Number)
          → Ends w tt (migrated x t w.tables) p
          → ((p.0 ≡ none) × (p.1.tables ≡ w.tables)) ⊎ Migrated w.tables p.1.tables
      by_end t (r, w') (inl (failed, _, kept)) = inl (failed, kept)
      by_end t (r, w') (inr (inl (_, _, shown))) =
          inr (subst (Migrated w.tables) (sym shown) (migrated-Migrated t w.tables))
      by_end t (r, w') (inr (inr (_, _, shown))) =
          inr (subst (Migrated w.tables) (sym shown) (migrated-Migrated t w.tables))
