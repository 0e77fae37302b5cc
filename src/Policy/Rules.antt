-- ===== src/Policy/Rules.antt =====
-- What `evaluate` of gate/src/policy.rs promises.
use esclusa.Prelude.{
  ℕ, String, Bool, true, false, not, ◌&&◌, ◌||◌, ◌==◌, Option, none, some, List, get_or, take, any,
  find, unwrap_or, if◌then◌else◌, ◌≡◌, refl, arith, is_some,
}
use mathlib.Core.Option
use esclusa.Prelude.Dict.{Dict}
use text.Mathlib.Text.{starts_with}
use esclusa.Json.{Value}
use esclusa.External.{External}
use esclusa.Policy.{
  Effect, Decision, TopoView, policies, is_on, is_known, is_stateful, is_removal,
  min_containers_is_zero, secret_key, evaluate, unknown_target, default_record, shield, refusal,
}

abbrev pub effect_name : Effect → String
effect_name Effect.allow = "allow"
effect_name Effect.refuse = "refuse"

-- The id and the effect of a row of the policy table.
abbrev pub heading : String × String × String → String × String
heading (id, effect, _) = (id, effect)

unfoldable pub row : ℕ → String × String × String
row n = get_or policies n ("", "", "")

abbrev pub verdict : Decision → String × String
verdict d = (d.policy, effect_name d.effect)

-- One row of the table against one rule of `evaluate`.
rung :
    (b : Bool) (r : String × String × String) (rest : Option (String × String × String))
    (d e : Decision)
    → heading r ≡ verdict d
    → Option.map heading rest ≡ some (verdict e)
    → Option.map heading (if b then some r else rest) ≡ some (verdict (if b then d else e))
rung true r rest d e h t = rw h
rung false r rest d e h t = t

unfoldable pub refuses : Decision → Bool
refuses d = elim d.effect [ Effect.allow ↦ false | Effect.refuse ↦ true ]

refuses-refusal : (policy reason : String) → refuses (refusal policy reason) ≡ true
unfolding refuses
refuses-refusal policy reason = refl

-- The policy table without its last row, which allows.
abbrev pub refusing_rows : List (String × String × String)
refusing_rows = take 5 policies

refuse_rung :
    (b : Bool) (d e : Decision) (t : Bool)
    → refuses d ≡ true
    → refuses e ≡ t
    → refuses (if b then d else e) ≡ (b || t)
refuse_rung true d e t h k = h
refuse_rung false d e t h k = k

module _ (x : External) where
  open x use {Number}

  module _ (action target : String) (params : Value Number) (topo : List TopoView) where
    -- The condition of the row of the policy table with this id, as README.md words it.
    unfoldable pub condition : String → Bool
    condition id =
        if id == "protect-stateful"
        then is_removal action && is_stateful topo target
        else if id == "protect-spine"
        then (target == "gate" || target == "console")
          && (is_removal action || action == "env.delete")
        else if id == "no-scale-to-zero"
        then action == "service.scale" && min_containers_is_zero x params
        else if id == "secret-shield"
        then (action == "env.set" || action == "env.delete") && is_some (secret_key x params)
        else if id == "unknown-target"
        then if action == "service.create"
          then is_known topo target
          else (starts_with action "service." || starts_with action "env.")
            && not (is_known topo target)
        else true

    module _ (enabled : Dict Bool) where
      -- A row decides if its condition holds and it is on; the last one cannot be switched off.
      unfoldable pub decides : String × String × String → Bool
      unfolding condition
      decides (id, _, _) = (id == "default-record" || is_on enabled id) && condition id

      stateful_row :
          (is_on enabled "protect-stateful" && is_removal action && is_stateful topo target)
          ≡ decides (row 0)
      unfolding decides condition row
      stateful_row = ground arith

      spine_row :
          (is_on enabled "protect-spine"
            && (target == "gate" || target == "console")
            && (is_removal action || action == "env.delete"))
          ≡ decides (row 1)
      unfolding decides condition row
      spine_row = ground arith

      scale_row :
          (is_on enabled "no-scale-to-zero"
            && action == "service.scale"
            && min_containers_is_zero x params)
          ≡ decides (row 2)
      unfolding decides condition row
      scale_row = ground arith

      abbrev shielded : Option String
      shielded =
          if is_on enabled "secret-shield" && (action == "env.set" || action == "env.delete")
          then secret_key x params
          else none

      abbrev unseen : Option Decision
      unseen =
          if is_on enabled "unknown-target"
          then unknown_target action target (is_known topo target)
          else none

      shield_row : is_some shielded ≡ decides (row 3)
      unfolding decides condition row
      shield_row = ground arith

      unseen-row : is_some unseen ≡ decides (row 4)
      unfolding decides condition row
      unseen-row = ground arith

      default_row : decides (row 5) ≡ true
      unfolding decides condition row
      default_row = refl

      unseen_refuses :
          (d : Decision)
          → unseen ≡ some d
          → (d.policy ≡ "unknown-target") × (d.effect ≡ Effect.refuse)
      unseen_refuses d h = ground arith

      late_row :
          (o : Option String) (u : Option Decision)
          → is_some o ≡ decides (row 3)
          → is_some u ≡ decides (row 4)
          → ((d : Decision)
              → u ≡ some d
              → (d.policy ≡ "unknown-target") × (d.effect ≡ Effect.refuse))
          → Option.map heading (
              if decides (row 3)
              then some (row 3)
              else if decides (row 4)
              then some (row 4)
              else if decides (row 5)
              then some (row 5)
              else none)
            ≡ some (verdict (shield o (unwrap_or u default_record)))
      unfolding row
      late_row (some k) u hs hu hd = rw (← hs)
      late_row none (some d) hs hu hd = rw (← hs, ← hu, (hd d refl).0, (hd d refl).1)
      late_row none none hs hu hd = rw (← hs, ← hu, default_row)

      -- The id and the effect of a decision are those of the first row of the policy table that
      -- decides.
      pub evaluate-first_row :
          Option.map heading (find decides policies)
          ≡ some (verdict (evaluate x action target params topo enabled))
      unfolding evaluate row
      evaluate-first_row =
          rw (stateful_row, spine_row, scale_row)
            (rung (decides (row 0)) _ _ _ _ refl (
              rung (decides (row 1)) _ _ _ _ refl (
                rung (decides (row 2)) _ _ _ _ refl
                  (late_row shielded unseen shield_row unseen-row unseen_refuses))))

      late_refuses :
          (o : Option String) (u : Option Decision)
          → is_some o ≡ decides (row 3)
          → is_some u ≡ decides (row 4)
          → ((d : Decision)
              → u ≡ some d
              → (d.policy ≡ "unknown-target") × (d.effect ≡ Effect.refuse))
          → refuses (shield o (unwrap_or u default_record))
            ≡ (decides (row 3) || (decides (row 4) || false))
      unfolding refuses
      late_refuses (some k) u hs hu hd = rw (← hs)
      late_refuses none (some d) hs hu hd = rw (← hs, ← hu, (hd d refl).1)
      late_refuses none none hs hu hd = rw (← hs, ← hu)

      -- An action is refused exactly when one of the five refusing rows decides.
      pub refuses-evaluate :
          refuses (evaluate x action target params topo enabled) ≡ any decides refusing_rows
      unfolding evaluate row
      refuses-evaluate =
          rw (stateful_row, spine_row, scale_row)
            (refuse_rung (decides (row 0)) _ _ _ (refuses-refusal _ _) (
              refuse_rung (decides (row 1)) _ _ _ (refuses-refusal _ _) (
                refuse_rung (decides (row 2)) _ _ _ (refuses-refusal _ _)
                  (late_refuses shielded unseen shield_row unseen-row unseen_refuses))))
