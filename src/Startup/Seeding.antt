-- ===== src/Startup/Seeding.antt =====
-- The migration of gate/src/db.rs (`init_once`): what it adds, and that it keeps what is there.
use mathlib.Core.Path.{subst}
use mathlib.Core.List.{append_assoc, append-nil}
use esclusa.Prelude.{
  ℕ, suc, ◌≤◌, String, Bool, true, false, ◌||◌, ◌==◌, eq_refl, some, List, [], ◌∷◌, ◌++◌, any,
  any-append, length, All, if◌then◌else◌, ◌≡◌, inl, inr, refl, sym, ap, ap₂, ◌∙◌, arith,
}
use esclusa.Clock.{DateTime}
use esclusa.External.{External}
use esclusa.Db.{PolicyRow, TopologyRow, Tables, World, query}
use esclusa.Db.Spending.{Reads, query-Reads, Reads-bind}
use esclusa.Policy
use esclusa.Topology.{SeedService}
use esclusa.Topology.Seed.{seed}
use esclusa.Startup.{
  insert_policy, policy_row, insert_service, insert_policies, insert_services, seed_topology,
}

-- The rows behind the inserts.
unfoldable pub policies_after :
    ℕ → List (String × String × String) → List PolicyRow → List PolicyRow
unfolding insert_policy
policies_after ord [] rows = rows
policies_after ord (p ∷ rest) rows =
    policies_after (suc ord) rest (insert_policy (policy_row ord p) rows)

unfoldable pub services_after : DateTime → List SeedService → List TopologyRow → List TopologyRow
unfolding insert_service
services_after t [] rows = rows
services_after t (s ∷ rest) rows = services_after t rest (insert_service t s rows)

-- The seed goes into an empty topology only.
abbrev pub topology_after : DateTime → List TopologyRow → List TopologyRow
topology_after t [] = services_after t seed []
topology_after t (r ∷ rows) = r ∷ rows

abbrev pub HasPolicy : List PolicyRow → String → Type 0
HasPolicy rows id = any (λ (r : PolicyRow). r.id == id) rows ≡ true

insert_policy-has :
    (row : PolicyRow) (rows : List PolicyRow) → HasPolicy (insert_policy row rows) row.id
unfolding insert_policy
insert_policy-has row rows = by_test (any (λ r. r.id == row.id) rows) refl
  where
    by_test :
        (b : Bool)
        → any (λ r. r.id == row.id) rows ≡ b
        → HasPolicy (if b then rows else rows ++ row ∷ []) row.id
    by_test true e = e
    by_test false e =
        any-append (λ r. r.id == row.id) rows (row ∷ [])
        ∙ ap₂ ◌||◌ e (ap (λ b. b || false) (eq_refl row.id))

-- The rows stay, in front of those that are added, which are switched on.
abbrev pub Extends : List PolicyRow → List PolicyRow → Type 0
Extends rows after =
    (added : List PolicyRow) × (after ≡ rows ++ added)
    × All (λ (r : PolicyRow). r.enabled ≡ true) added

insert_policy-Extends :
    (row : PolicyRow) (rows : List PolicyRow)
    → row.enabled ≡ true
    → Extends rows (insert_policy row rows)
unfolding insert_policy
insert_policy-Extends row rows on = by_test (any (λ r. r.id == row.id) rows)
  where
    by_test : (b : Bool) → Extends rows (if b then rows else rows ++ row ∷ [])
    by_test true = ([], sym (append-nil rows), tt)
    by_test false = (row ∷ [], refl, (on, tt))

All-append_on :
    (a b : List PolicyRow)
    → All (λ (r : PolicyRow). r.enabled ≡ true) a
    → All (λ (r : PolicyRow). r.enabled ≡ true) b
    → All (λ (r : PolicyRow). r.enabled ≡ true) (a ++ b)
All-append_on [] b ha hb = hb
All-append_on (r ∷ a) b ha hb = (ha.0, All-append_on a b ha.1 hb)

Extends-trans : (a b c : List PolicyRow) → Extends a b → Extends b c → Extends a c
Extends-trans a b c (p, e, on) (q, f, on') =
    (p ++ q, f ∙ ap (λ l. l ++ q) e ∙ append_assoc a p q, All-append_on p q on on')

Extends-has :
    (rows after : List PolicyRow) (id : String)
    → Extends rows after
    → HasPolicy rows id
    → HasPolicy after id
Extends-has rows after id (added, e, on) h =
    ap (any (λ (r : PolicyRow). r.id == id)) e
    ∙ any-append (λ (r : PolicyRow). r.id == id) rows added
    ∙ ap (λ b. b || any (λ (r : PolicyRow). r.id == id) added) h

pub policies_after-Extends :
    (ord : ℕ) (ps : List (String × String × String)) (rows : List PolicyRow)
    → Extends rows (policies_after ord ps rows)
unfolding policies_after
policies_after-Extends ord [] rows = ([], sym (append-nil rows), tt)
policies_after-Extends ord (p ∷ rest) rows =
    Extends-trans rows (insert_policy (policy_row ord p) rows) _
      (insert_policy-Extends (policy_row ord p) rows refl)
      (policies_after-Extends (suc ord) rest (insert_policy (policy_row ord p) rows))

pub policies_after-has :
    (ord : ℕ) (ps : List (String × String × String)) (rows : List PolicyRow)
    → All (λ (p : String × String × String). HasPolicy (policies_after ord ps rows) p.0) ps
unfolding policies_after
policies_after-has ord [] rows = tt
policies_after-has ord (p ∷ rest) rows = (
  Extends-has (insert_policy (policy_row ord p) rows) _ p.0
      (policies_after-Extends (suc ord) rest (insert_policy (policy_row ord p) rows))
      (insert_policy-has (policy_row ord p) rows),
  policies_after-has (suc ord) rest (insert_policy (policy_row ord p) rows),
)

-- Where every policy has its row, nothing is added.
policies_after-present :
    (ord : ℕ) (ps : List (String × String × String)) (rows : List PolicyRow)
    → All (λ (p : String × String × String). HasPolicy rows p.0) ps
    → policies_after ord ps rows ≡ rows
unfolding policies_after insert_policy
policies_after-present ord [] rows h = refl
policies_after-present ord (p ∷ rest) rows h =
    ap (λ b. policies_after (suc ord) rest (if b then rows else rows ++ policy_row ord p ∷ [])) h.0
    ∙ policies_after-present (suc ord) rest rows h.1

module _ (x : External) where
  open x use {Number, timestamptz}

  -- The tables behind the migration.
  abbrev pub migrated : DateTime → Tables Number → Tables Number
  migrated t tables = record tables {
    policies = policies_after 0 Policy.policies tables.policies;
    topology = topology_after (timestamptz t) tables.topology;
  }

  topology_after-twice :
      (t t' : DateTime) (rows : List TopologyRow)
      → topology_after t' (topology_after t rows) ≡ topology_after t rows
  unfolding services_after insert_service
  topology_after-twice t t' [] = refl
  topology_after-twice t t' (r ∷ rows) = refl

  pub migrated-twice :
      (t t' : DateTime) (tables : Tables Number)
      → migrated t' (migrated t tables) ≡ migrated t tables
  migrated-twice t t' tables =
      ap₂ (λ p q. record tables { policies = p; topology = q })
        (policies_after-present 0 Policy.policies (migrated t tables).policies
          (policies_after-has 0 Policy.policies tables.policies))
        (topology_after-twice (timestamptz t) (timestamptz t') tables.topology)

  pub insert_policies-Reads :
      (ord : ℕ) (ps : List (String × String × String)) (work : Tables Number) (n : ℕ)
      (w : World Number)
      → length w.awaits ≤ n
      → Reads n
          (record work { policies = policies_after ord ps work.policies })
          w.tables
          (insert_policies x ord ps work w)
  unfolding insert_policies policies_after
  insert_policies-Reads ord [] work n w left = (inr (refl, left), refl)
  insert_policies-Reads ord (p ∷ rest) work n w left =
      Reads-bind _
        (Reads n (record work { policies = policies_after ord (p ∷ rest) work.policies }) w.tables)
        (query (λ _ _. tt)) w (length w.awaits) tt w.tables (query-Reads (λ _ _. tt) w).1
        (λ w' spent same. (inl (refl, omega arith), same))
        λ w' below same.
          let next = record work { policies = insert_policy (policy_row ord p) work.policies } in
          subst
            (λ u.
              Reads n (record work { policies = policies_after ord (p ∷ rest) work.policies }) u
                (insert_policies x (suc ord) rest next w'))
            same (insert_policies-Reads (suc ord) rest next n w' (omega arith))

  insert_services-Reads :
      (t : DateTime) (ss : List SeedService) (work : Tables Number) (n : ℕ) (w : World Number)
      → length w.awaits ≤ n
      → Reads n
          (record work { topology = services_after (timestamptz t) ss work.topology })
          w.tables
          (insert_services x t ss work w)
  unfolding insert_services services_after
  insert_services-Reads t [] work n w left = (inr (refl, left), refl)
  insert_services-Reads t (s ∷ rest) work n w left =
      Reads-bind _
        (Reads n
          (record work { topology = services_after (timestamptz t) (s ∷ rest) work.topology })
          w.tables)
        (query (λ _ _. tt)) w (length w.awaits) tt w.tables (query-Reads (λ _ _. tt) w).1
        (λ w' spent same. (inl (refl, omega arith), same))
        λ w' below same.
          let next = record work { topology = insert_service (timestamptz t) s work.topology } in
          subst
            (λ u.
              Reads n
                (record work { topology = services_after (timestamptz t) (s ∷ rest) work.topology })
                u (insert_services x t rest next w'))
            same (insert_services-Reads t rest next n w' (omega arith))

  pub seed_topology-Reads :
      (t : DateTime) (rows : List TopologyRow) (work : Tables Number) (n : ℕ) (w : World Number)
      → work.topology ≡ rows
      → length w.awaits ≤ n
      → Reads n
          (record work { topology = topology_after (timestamptz t) rows })
          w.tables
          (seed_topology x t (length rows) work w)
  seed_topology-Reads t [] work n w e left =
      subst
        (λ (l : List TopologyRow).
          Reads n (record work { topology = services_after (timestamptz t) seed l }) w.tables
            (insert_services x t seed work w))
        e (insert_services-Reads t seed work n w left)
  seed_topology-Reads t (r ∷ rows) work n w e left =
      (inr (ap (λ l. some (record work { topology = l })) e, left), refl)
