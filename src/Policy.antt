-- ===== src/Policy.antt =====
-- gate/src/policy.rs: the ordered rules, of which the first that matches decides.
pub mod Rules
pub mod Guarantees
pub mod Shield
use esclusa.Prelude.{
  ℕ, String, Bool, true, false, not, ◌&&◌, ◌||◌, ◌==◌, Option, none, some, List, [], ◌∷◌, any,
  unwrap_or, if◌then◌else◌,
}
use esclusa.Prelude.Int.{ℤ, pos, eqb_ℤ}
use esclusa.Prelude.Dict
use esclusa.Prelude.Dict.{Dict}
use Prim.Native.String.{◌++◌}
use text.Mathlib.Text.{starts_with}
use esclusa.Json
use esclusa.Json.{Value, F64, as_str, eq_zero}
use esclusa.Text.{to_ascii_uppercase, ends_with}
use esclusa.External.{External}

-- (id, effect, description), in the order of `evaluate`.
abbrev pub policies : List (String × String × String)
policies =
    (
      "protect-stateful", "refuse",
      "Refuse service.delete/service.stop when the target is a stateful service (db, cache, storage).",
    )
    ∷ (
      "protect-spine", "refuse",
      "Refuse service.delete/service.stop/env.delete against gate or console — the gate defends its own audit surface.",
    )
    ∷ ("no-scale-to-zero", "refuse", "Refuse service.scale with params.minContainers == 0.")
    ∷ (
      "secret-shield", "refuse",
      "Refuse env.set/env.delete when params.key ends with _KEY, _TOKEN, _SECRET or PASSWORD (case-insensitive).",
    )
    ∷ (
      "unknown-target", "refuse",
      "Refuse service.*/env.* actions whose target is not in the topology model; for service.create, refuse only on hostname collision.",
    )
    ∷ ("default-record", "allow", "Allow everything else and record it in the ledger.")
    ∷ []

pub data Effect : Type 0 where
  allow refuse : Effect

pub record Decision : Type 0 where
  pub effect : Effect
  pub policy : String
  pub reason : String

pub record TopoView : Type 0 where
  pub hostname : String
  pub stateful : Bool

-- The function `refuse`.
abbrev pub refusal : String → String → Decision
refusal policy reason = record { effect = refuse; policy = policy; reason = reason }

abbrev pub is_removal : String → Bool
is_removal action = action == "service.delete" || action == "service.stop"

-- `on(id)`: a policy that the map does not name is enabled.
unfoldable pub is_on : Dict Bool → String → Bool
is_on enabled id = unwrap_or (Dict.get enabled id) true

unfoldable pub is_known : List TopoView → String → Bool
is_known topo target = any (λ t. t.hostname == target) topo

unfoldable pub is_stateful : List TopoView → String → Bool
is_stateful topo target = any (λ t. t.hostname == target && t.stateful) topo

abbrev pub secret_suffixes : List String
secret_suffixes = "_KEY" ∷ "_TOKEN" ∷ "_SECRET" ∷ "PASSWORD" ∷ []

unfoldable pub looks_secret : String → Bool
looks_secret key = let up = to_ascii_uppercase key in any (λ s. ends_with up s) secret_suffixes

module _ (x : External) where
  open x use {Number, as_i64, as_f64}

  abbrev number_as_i64 : Value Number → Option ℤ
  number_as_i64 (Json.number n) = as_i64 n
  number_as_i64 _ = none

  abbrev number_as_f64 : Value Number → Option F64
  number_as_f64 (Json.number n) = as_f64 n
  number_as_f64 _ = none

  abbrev is_zero_i64 : Option ℤ → Bool
  is_zero_i64 none = false
  is_zero_i64 (some z) = eqb_ℤ z (pos 0)

  abbrev is_zero_f64 : Option F64 → Bool
  is_zero_f64 none = false
  is_zero_f64 (some f) = eq_zero f

  unfoldable pub min_containers_is_zero : Value Number → Bool
  min_containers_is_zero params = elim (Json.get params "minContainers") [
    | some v ↦ is_zero_i64 (number_as_i64 v) || is_zero_f64 (number_as_f64 v)
    | none ↦ false
  ]

  abbrev secret_of : Option String → Option String
  secret_of none = none
  secret_of (some key) = if looks_secret key then some key else none

  abbrev text_of : Option (Value Number) → Option String
  text_of none = none
  text_of (some v) = as_str v

  -- The key in `params`, if it looks like a credential.
  unfoldable pub secret_key : Value Number → Option String
  secret_key params = secret_of (text_of (Json.get params "key"))

-- The fifth rule, once it is enabled.
abbrev unknown_target : String → String → Bool → Option Decision
unknown_target action target known =
    if action == "service.create"
    then if known
      then some (
          refusal "unknown-target"
            ("hostname '" ++ target ++ "' already exists in the topology model"))
      else none
    else if (starts_with action "service." || starts_with action "env.") && not known
    then some (
        refusal "unknown-target" (
          "'" ++ target
          ++ "' is not in the topology model; the gate cannot evaluate what it cannot see"))
    else none

-- The fourth rule, by the key that it has found.
abbrev shield : Option String → Decision → Decision
shield (some key) rest =
    refusal "secret-shield"
      ("env key '" ++ key ++ "' looks like a credential; the gate refuses to touch secrets")
shield none rest = rest

abbrev default_record : Decision
default_record = record {
  effect = allow;
  policy = "default-record";
  reason = "no refusal policy matched; action allowed and recorded";
}

module _ (x : External) where
  open x use {Number}

  unfoldable pub evaluate : String → String → Value Number → List TopoView → Dict Bool → Decision
  evaluate action target params topo enabled =
      let on = λ (id : String). is_on enabled id in
      let known = is_known topo target in
      let stateful = is_stateful topo target in
      if on "protect-stateful" && is_removal action && stateful
      then refusal "protect-stateful" (
          "'" ++ target ++ "' is a stateful service; " ++ action ++ " risks irreversible data loss")
      else if on "protect-spine"
          && (target == "gate" || target == "console")
          && (is_removal action || action == "env.delete")
      then refusal "protect-spine" (
          "'" ++ target ++ "' is part of the audit spine; the gate refuses " ++ action
          ++ " against its own surface")
      else if on "no-scale-to-zero" && action == "service.scale" && min_containers_is_zero x params
      then refusal "no-scale-to-zero" (
          "scaling '" ++ target
          ++ "' to minContainers=0 silently removes the service; use an explicit stop")
      else shield
          (if on "secret-shield" && (action == "env.set" || action == "env.delete")
            then secret_key x params
            else none)
          (unwrap_or (if on "unknown-target" then unknown_target action target known else none)
            default_record)
