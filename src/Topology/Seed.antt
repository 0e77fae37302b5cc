-- ===== src/Topology/Seed.antt =====
-- gate/seed.json, which gate/src/topology.rs compiles in: the services of the first start.
use esclusa.Prelude.{String, Bool, true, false, Option, none, some, List, [], ◌∷◌}
use esclusa.Prelude.Int.{ℤ, pos}
use esclusa.Topology.{SeedService}

abbrev service : String → String → Bool → String → Option ℤ → SeedService
service hostname service_type stateful probe_method tcp_port = record {
  hostname = hostname;
  service_type = service_type;
  stateful = stateful;
  probe_method = probe_method;
  tcp_port = tcp_port;
}

-- `seed`, which reads gate/seed.json.
abbrev pub seed : List SeedService
seed =
    service "gate" "rust" false "none" none
    ∷ service "console" "static" false "tcp" (some (pos 80))
    ∷ service "db" "postgresql" true "tcp" (some (pos 5432))
    ∷ service "cache" "valkey" true "tcp" (some (pos 6379))
    ∷ service "storage" "object-storage" true "none" none
    ∷ service "oldworker" "nodejs" false "tcp" (some (pos 3000))
    ∷ service "zcp" "zcp" false "none" none
    ∷ []
