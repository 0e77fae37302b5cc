-- ===== src/Tests/PolicyTests.antt =====
-- The rules, the limiter, the token check and the snapshot check on concrete requests.
use mathlib.Core.Option
use esclusa.Prelude.{
  ℕ, ◌+◌, String, Bool, true, false, some, List, [], ◌∷◌, any, find, ltb, ◌≡◌, ◌↔◌, inl, refl,
  arith,
}
use esclusa.Prelude.Int.{pos}
use esclusa.Prelude.Dict.{Dict, get}
use esclusa.Json
use esclusa.Json.{Value, field, end, empty_object}
use esclusa.Text.{to_ascii_uppercase, is_blank}
use esclusa.Policy.{Effect, TopoView, policies, evaluate, is_on, is_known, is_stateful}
use esclusa.Policy.Rules.{
  heading, verdict, decides, refuses, refusing_rows, evaluate-first_row, refuses-evaluate,
}
use esclusa.Policy.Guarantees.{evaluate_weaken, evaluate-secret}
use esclusa.Policy.Shield.{NamesCredential, evaluate-shield_iff}
use esclusa.RateLimit.{mem_check, limit}
use esclusa.RateLimit.Counting.{used, occurrences, calls, mem_check-limit}
use esclusa.Secrets.{token_matches, token_matches_iff}
use esclusa.Topology.{SeedService, ok, validate_service}
use esclusa.Topology.Usable.{Probeable, validate_service_iff}
use esclusa.Tests.Fixtures.{Num, toy}

abbrev topo : List TopoView
topo =
    record { hostname = "db"; stateful = true } ∷ record { hostname = "app"; stateful = false } ∷ []

abbrev switched : Dict Bool
switched = ("no-scale-to-zero", false) ∷ []

evaluate-first_row_example :
    Option.map heading
      (find (decides toy "service.delete" "db" empty_object topo switched) policies)
    ≡ some (verdict (evaluate toy "service.delete" "db" empty_object topo switched))
evaluate-first_row_example = evaluate-first_row toy "service.delete" "db" empty_object topo switched

delete_db :
    verdict (evaluate toy "service.delete" "db" empty_object topo switched)
    ≡ ("protect-stateful", "refuse")
unfolding evaluate is_on is_known is_stateful get
delete_db = refl

refuses-evaluate_example :
    refuses (evaluate toy "service.stop" "console" empty_object topo switched)
    ≡ any (decides toy "service.stop" "console" empty_object topo switched) refusing_rows
refuses-evaluate_example = refuses-evaluate toy "service.stop" "console" empty_object topo switched

abbrev params : Value Num
params = Json.object (field "key" (Json.string "api_key") end)

evaluate-secret_example : (evaluate toy "env.set" "app" params topo switched).effect ≡ Effect.refuse
unfolding is_on get Json.get to_ascii_uppercase
evaluate-secret_example =
    evaluate-secret toy "env.set" "app" params topo switched "api_key" "API" "_KEY" refl (inl refl)
      refl refl refl

evaluate-shield_iff_example :
    ((evaluate toy "env.set" "app" params topo switched).policy ≡ "secret-shield")
    ↔ NamesCredential toy params
unfolding is_on get
evaluate-shield_iff_example = evaluate-shield_iff toy params "app" topo switched refl

fewer :
    (id : String) → is_on (("secret-shield", false) ∷ switched) id ≡ true → is_on switched id ≡ true
unfolding is_on get
fewer id h = ground arith

evaluate_weaken_example :
    (evaluate toy "service.create" "api" empty_object topo
      (("secret-shield", false) ∷ switched)).effect
    ≡ Effect.allow
unfolding evaluate is_on is_known is_stateful get
evaluate_weaken_example =
    evaluate_weaken toy "service.create" "api" empty_object topo switched
      (("secret-shield", false) ∷ switched) fewer refl

mem_check-limit_example :
    (mem_check 7 "10.0.0.1" (calls 7 ("10.0.0.1" ∷ "10.0.0.2" ∷ []) (("10.0.0.1", (6, 30)) ∷ []))).0
    ≡ ltb
        (used 7 "10.0.0.1" (("10.0.0.1", (6, 30)) ∷ [])
          + occurrences "10.0.0.1" ("10.0.0.1" ∷ "10.0.0.2" ∷ []))
        limit
unfolding get used
mem_check-limit_example =
    mem_check-limit 7 "10.0.0.1" ("10.0.0.1" ∷ "10.0.0.2" ∷ []) (("10.0.0.1", (6, 30)) ∷ [])
      (refl, tt) (omega arith)

token_matches_iff_example : (token_matches (some (115 ∷ 49 ∷ [])) (some (115 ∷ 50 ∷ [])) ≡ true) ↔ (
    (secret : List ℕ) × (◌≡◌ {A = Option.Option (List ℕ)} (some (115 ∷ 49 ∷ [])) (some secret))
    × (◌≡◌ {A = Option.Option (List ℕ)} (some (115 ∷ 50 ∷ [])) (some secret)))
token_matches_iff_example =
    token_matches_iff (some (115 ∷ 49 ∷ [])) (some (115 ∷ 50 ∷ [])) (omega arith, (omega arith, tt))
      (omega arith, (omega arith, tt))

abbrev service : SeedService
service = record {
  hostname = "api";
  service_type = "go";
  stateful = false;
  probe_method = "tcp";
  tcp_port = some (pos 8080);
}

validate_service_iff_example :
    (validate_service service ≡ ok) ↔ ((is_blank service.hostname ≡ false) × Probeable service)
validate_service_iff_example = validate_service_iff service
