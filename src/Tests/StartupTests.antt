-- ===== src/Tests/StartupTests.antt =====
-- A start of the gate on tables that an operator has changed.
use esclusa.Prelude.{◌≡◌, ◌⊎◌, true, false, some, none, [], ◌∷◌, refl, arith}
use esclusa.Db.{Tables, World, done, failed, lost}
use esclusa.Startup.{
  SharedState, Environment, next_delay, initial_state, init_once, init_with_retry,
}
use esclusa.Startup.Migrating.{Migrated, init_once-Migrated}
use esclusa.Startup.Retrying.{Ready, init_with_retry-Ready}
use esclusa.Tests.Fixtures.{Num, toy, tables, world}

-- The operator has switched a policy off; the second statement fails, and the first commit loses its
-- reply.
abbrev switched : Tables Num
switched = record tables {
  policies =
      record { id = "protect-spine"; ord = 1; description = ""; effect = "refuse"; enabled = false }
      ∷ [];
}

abbrev shaky : World Num
shaky = record world {
  tables = switched;
  awaits =
      record { outcome = done; elapsed = 1000 }
      ∷ record { outcome = failed; elapsed = 1000 }
      ∷ record { outcome = done; elapsed = 1000 }
      ∷ record { outcome = lost; elapsed = 1000 }
      ∷ [];
}

init_once-Migrated_example :
    let (r, w') = init_once toy true shaky in
    ((r ≡ none) × (w'.tables ≡ shaky.tables)) ⊎ Migrated toy shaky.tables w'.tables
init_once-Migrated_example = init_once-Migrated toy true shaky

abbrev env : Environment
env = record {
  gate_token = some [];
  ledger_signing_key = none;
  database_url = some (112 ∷ []);
  cache_url = none;
}

abbrev fresh : SharedState
fresh = record {
  db = true;
  db_ready = false;
  cache = none;
  mem_rl = [];
  gate_token = none;
  signing_key = 1 ∷ [];
  last_probe_cycle = 0;
}

-- An empty token counts as none, and the pool is made of the URL.
fresh_token : (initial_state (λ url. true) env).gate_token ≡ none
unfolding initial_state
fresh_token = refl

init_with_retry-Ready_example :
    Ready toy fresh 6 shaky.tables (init_with_retry toy 7 fresh (false ∷ true ∷ []) shaky)
init_with_retry-Ready_example =
    init_with_retry-Ready toy fresh (false ∷ true ∷ []) shaky 7 refl (omega arith)

-- The delays reach thirty seconds and stay there.
delays :
    next_delay 2 ∷ next_delay 4 ∷ next_delay 8 ∷ next_delay 16 ∷ next_delay 30 ∷ []
    ≡ 4 ∷ 8 ∷ 16 ∷ 30 ∷ 30 ∷ []
unfolding next_delay
delays = refl
