-- ===== src/Startup.antt =====
-- The start of the gate: `main` of gate/src/main.rs, the migration, seeding and retries of
-- gate/src/db.rs, and the client that gate/src/state.rs gives a handler.
pub mod Seeding
pub mod Migrating
pub mod Retrying
pub mod Connecting
pub mod Keeping
use esclusa.Prelude.{
  ℕ, zero, suc, ◌+◌, ◌*◌, String, Bool, true, false, ◌&&◌, not, ◌==◌, Option, none, some, List, [],
  ◌∷◌, ◌++◌, any, length, nat_eq, ltb, if◌then◌else◌, unwrap_or, keep_if,
}
use esclusa.Prelude.Int.{pos}
use esclusa.Clock.{DateTime}
use esclusa.External.{External}
use esclusa.Db.{PolicyRow, TopologyRow, Tables, World, Exec, pure, perform, query, ◌>>=◌, ◌>>◌}
use esclusa.Policy
use esclusa.RateLimit.{Cache, MemRl}
use esclusa.Topology.{SeedService}
use esclusa.Topology.Seed.{seed}
use esclusa.Http.{AppState}

-- `INSERT INTO policies ... ON CONFLICT (id) DO NOTHING`.
unfoldable pub insert_policy : PolicyRow → List PolicyRow → List PolicyRow
insert_policy row rows = if any (λ r. r.id == row.id) rows then rows else rows ++ row ∷ []

abbrev pub policy_row : ℕ → String × String × String → PolicyRow
policy_row ord (id, effect, description) = record {
  id = id;
  ord = ord;
  description = description;
  effect = effect;
  enabled = true;
}

abbrev pub seeded_row : DateTime → SeedService → TopologyRow
seeded_row t s = record {
  hostname = s.hostname;
  service_type = s.service_type;
  stateful = s.stateful;
  probe_method = s.probe_method;
  tcp_port = s.tcp_port;
  status = "present";
  probe_ok = false;
  consecutive_failures = 0;
  last_probe = none;
  updated_at = t;
}

-- `INSERT INTO topology ... ON CONFLICT (hostname) DO NOTHING`.
unfoldable pub insert_service : DateTime → SeedService → List TopologyRow → List TopologyRow
insert_service t s rows =
    if any (λ r. r.hostname == s.hostname) rows then rows else rows ++ seeded_row t s ∷ []

-- `(delay * 2).min(30)`, in seconds.
unfoldable pub next_delay : ℕ → ℕ
next_delay delay = if ltb (delay * 2) 30 then delay * 2 else 30

abbrev pub sleep : {N : Type 0} → ℕ → World N → World N
sleep seconds w = record w { clock = w.clock + seconds * 1_000_000_000 }

-- The next of several inputs, and those behind it; past the end each is a success.
abbrev pub next_input : List Bool → Bool
next_input [] = true
next_input (ok ∷ rest) = ok

abbrev pub later_inputs : List Bool → List Bool
later_inputs [] = []
later_inputs (ok ∷ rest) = rest

module _ (x : External) where
  open x use {Number, timestamptz}

  -- The statements of the transaction work on a copy of the tables, which the commit shows.
  unfoldable pub insert_policies :
      ℕ → List (String × String × String) → Tables Number → Exec Number (Tables Number)
  unfolding insert_policy
  insert_policies ord [] work = pure work
  insert_policies ord (p ∷ rest) work = do
    query (λ _ _. tt)
    insert_policies (suc ord) rest
        (record work { policies = insert_policy (policy_row ord p) work.policies })

  unfoldable pub insert_services :
      DateTime → List SeedService → Tables Number → Exec Number (Tables Number)
  unfolding insert_service
  insert_services t [] work = pure work
  insert_services t (s ∷ rest) work = do
    query (λ _ _. tt)
    insert_services t rest
        (record work { topology = insert_service (timestamptz t) s work.topology })

  abbrev pub seed_topology : DateTime → ℕ → Tables Number → Exec Number (Tables Number)
  seed_topology t zero work = insert_services t seed work
  seed_topology t (suc count) work = pure work

  -- Begin, at whose time `now()` stays, lock, create what is missing, insert, commit. `got` is whether
  -- the pool gives a client.
  unfoldable pub init_once : Bool → Exec Number (Unit {0})
  unfolding insert_policies insert_services
  init_once false w = (none, w)
  init_once true w =
      (do
        t ← query (λ t _. t)
        query (λ _ _. tt)
        before ← query (λ _ tables. tables)
        with_policies ← insert_policies 0 Policy.policies before
        count ← query (λ _ _. length with_policies.topology)
        work ← seed_topology t count with_policies
        perform (λ _ _. some (tt, work)))
        w

  -- The loop with the delay to the next round, `gets` being whether the pool gives a client in each
  -- round: the delays that it slept.
  unfoldable pub init_loop : ℕ → ℕ → List Bool → Exec Number (List ℕ)
  unfolding init_once next_delay
  init_loop zero delay gets w = (none, w)
  init_loop (suc fuel) delay gets w =
      let (r, w') = init_once (next_input gets) w in
      elim r [
        | some _ ↦ (some [], w')
        | none ↦
            (do slept ← init_loop fuel (next_delay delay) (later_inputs gets); pure (delay ∷ slept))
              (sleep delay w')
      ]

-- The loop of `cache_connect_with_retry`, `connects` being whether the cache is reached in each round.
unfoldable pub connect_loop : {N : Type 0} → ℕ → ℕ → List Bool → Exec N (List ℕ)
unfolding next_delay
connect_loop zero delay connects w = (none, w)
connect_loop (suc fuel) delay connects w =
    let later = connect_loop fuel (next_delay delay) (later_inputs connects) in
    if next_input connects
    then (some [], w)
    else (do slept ← later; pure (delay ∷ slept)) (sleep delay w)

-- The variables of the environment, each where it is set.
pub record Environment : Type 0 where
  pub gate_token : Option (List ℕ)
  pub ledger_signing_key : Option (List ℕ)
  pub database_url : Option (List ℕ)
  pub cache_url : Option (List ℕ)

abbrev is_empty : List ℕ → Bool
is_empty [] = true
is_empty (b ∷ rest) = false

unfoldable pub env_nonempty : Option (List ℕ) → Option (List ℕ)
env_nonempty v = keep_if (λ s. not (is_empty s)) v

-- "insecure-dev-signing-key" by its bytes.
abbrev pub dev_key : List ℕ
dev_key =
    105 ∷ 110 ∷ 115 ∷ 101 ∷ 99 ∷ 117 ∷ 114 ∷ 101 ∷ 45 ∷ 100 ∷ 101 ∷ 118 ∷ 45 ∷ 115 ∷ 105 ∷ 103 ∷ 110
    ∷ 105 ∷ 110 ∷ 103 ∷ 45 ∷ 107 ∷ 101 ∷ 121 ∷ []

-- The state that the tasks share: whether there is a pool, and whether its tables are ready.
pub record SharedState : Type 0 where
  pub db : Bool
  pub db_ready : Bool
  pub cache : Option Cache
  pub mem_rl : MemRl
  pub gate_token : Option (List ℕ)
  pub signing_key : List ℕ
  pub last_probe_cycle : ℕ

-- `make_pool` is the library's reading of a URL: whether it makes a pool of it.
abbrev pub pool_of : (List ℕ → Bool) → Option (List ℕ) → Bool
pool_of make_pool none = false
pool_of make_pool (some url) = make_pool url

-- The state that `main` sets up before it spawns the tasks and serves.
unfoldable pub initial_state : (List ℕ → Bool) → Environment → SharedState
unfolding env_nonempty
initial_state make_pool env = record {
  db = pool_of make_pool (env_nonempty env.database_url);
  db_ready = false;
  cache = none;
  mem_rl = [];
  gate_token = env_nonempty env.gate_token;
  signing_key = unwrap_or (env_nonempty env.ledger_signing_key) dev_key;
  last_probe_cycle = 0;
}

-- Whether `db_client` gives a client, `got` being whether the pool does.
unfoldable pub db_client : SharedState → Bool → Bool
db_client st got = if not st.db_ready then false else if st.db then got else false

-- What a handler reads of the state.
abbrev pub seen : SharedState → Bool → AppState
seen st got = record {
  connected = db_client st got;
  cache = st.cache;
  mem_rl = st.mem_rl;
  gate_token = st.gate_token;
  signing_key = st.signing_key;
}

module _ (x : External) where
  open x use {Number}

  -- The task, on `fuel` rounds: the state after it, and the delays that it slept.
  unfoldable pub init_with_retry : ℕ → SharedState → List Bool → Exec Number (SharedState × List ℕ)
  unfolding init_loop
  init_with_retry fuel st gets =
      if not st.db
      then pure (st, [])
      else (do slept ← init_loop x fuel 2 gets; pure (record st { db_ready = true }, slept))

-- The task, for a URL that is one (`opened`) and the cache that it then reaches.
unfoldable pub cache_connect_with_retry :
    {N : Type 0} → ℕ → SharedState → Bool → List Bool → Cache → Exec N (SharedState × List ℕ)
unfolding connect_loop
cache_connect_with_retry fuel st opened connects conn =
    if not opened
    then pure (st, [])
    else (do slept ← connect_loop fuel 2 connects; pure (record st { cache = some conn }, slept))
