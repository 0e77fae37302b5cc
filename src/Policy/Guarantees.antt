-- ===== src/Policy/Guarantees.antt =====
-- What follows from the rules of gate/src/policy.rs for every topology and every set of switches.
use Prim.Native.String.{◌++◌}
use esclusa.Prelude.{
  String, Bool, true, false, ◌==◌, some, List, any, any_mono, is_some, ◌≡◌, ◌↔◌, ◌⊎◌, inl, inr, sym,
  ◌∙◌, arith, Bool-cases,
}
use esclusa.Prelude.Dict.{Dict}
use esclusa.Json
use esclusa.Json.{Value, as_str}
use esclusa.Text.{to_ascii_uppercase}
use esclusa.Text.Suffix.{any-ends_with_iff}
use esclusa.External.{External}
use esclusa.Policy.{
  Effect, Decision, TopoView, is_on, secret_suffixes, looks_secret, secret_key, evaluate,
}
use esclusa.Policy.Rules.{refuses, decides, row, refusing_rows, refuses-evaluate}

refuses-eq_false : (d : Decision) → d.effect ≡ Effect.allow → refuses d ≡ false
unfolding refuses
refuses-eq_false d h = rw h

allows_unless : (d : Decision) → refuses d ≡ false → d.effect ≡ Effect.allow
unfolding refuses
allows_unless d h = ground arith

refuses_effect : (d : Decision) → refuses d ≡ true → d.effect ≡ Effect.refuse
unfolding refuses
refuses_effect d h = ground arith

third_refuses :
    (p : String × String × String → Bool) → p (row 3) ≡ true → any p refusing_rows ≡ true
unfolding row
third_refuses p h = ground arith

-- A key looks like a credential exactly when it ends, in upper case, in one of the suffixes.
pub looks_secret_iff :
    (key : String)
    → (looks_secret key ≡ true) ↔ (
        (suffix : String) × (stem : String) × (any (λ s. s == suffix) secret_suffixes ≡ true)
        × (to_ascii_uppercase key ≡ stem ++ suffix))
unfolding looks_secret
looks_secret_iff key = any-ends_with_iff (to_ascii_uppercase key) secret_suffixes

module _ (x : External) where
  open x use {Number}

  module _ (action target : String) (params : Value Number) (topo : List TopoView) where
    decides_weaken :
        (enabled fewer : Dict Bool)
        → ((id : String) → is_on fewer id ≡ true → is_on enabled id ≡ true)
        → (r : String × String × String) → decides x action target params topo fewer r ≡ true
        → decides x action target params topo enabled r ≡ true
    unfolding decides
    decides_weaken enabled fewer h (id, e, t) d = ground (arith, h id)

    -- Fewer policies switched on never turn an allowed action into a refused one.
    pub evaluate_weaken :
        (enabled fewer : Dict Bool)
        → ((id : String) → is_on fewer id ≡ true → is_on enabled id ≡ true)
        → (evaluate x action target params topo enabled).effect ≡ Effect.allow
        → (evaluate x action target params topo fewer).effect ≡ Effect.allow
    evaluate_weaken enabled fewer h allowed =
        elim (Bool-cases (refuses (evaluate x action target params topo fewer))) [
          | inr e ↦ allows_unless _ e
          | inl e ↦ cc (
            refuses-eq_false (evaluate x action target params topo enabled) allowed,
            refuses-evaluate x action target params topo enabled,
            any_mono _ _ refusing_rows (decides_weaken enabled fewer h)
                (sym (refuses-evaluate x action target params topo fewer) ∙ e),
          )
        ]

    pub secret_found :
        {key : String}
        → Json.get params "key" ≡ some (Json.string key)
        → looks_secret key ≡ true
        → is_some (secret_key x params) ≡ true
    unfolding secret_key as_str
    secret_found hk looks = rw (hk, looks)

    secret_decides :
        (enabled : Dict Bool)
        → is_on enabled "secret-shield" ≡ true
        → ((action ≡ "env.set") ⊎ (action ≡ "env.delete"))
        → is_some (secret_key x params) ≡ true
        → decides x action target params topo enabled (row 3) ≡ true
    unfolding decides row
    secret_decides enabled on (inl e) found = rw (e, on, found)
    secret_decides enabled on (inr e) found = rw (e, on, found)

    -- While `secret-shield` is on, setting or deleting a variable whose key ends in one of the four
    -- suffixes, whatever its case, is refused.
    pub evaluate-secret :
        (enabled : Dict Bool) (key stem suffix : String)
        → is_on enabled "secret-shield" ≡ true
        → ((action ≡ "env.set") ⊎ (action ≡ "env.delete"))
        → Json.get params "key" ≡ some (Json.string key)
        → to_ascii_uppercase key ≡ stem ++ suffix
        → any (λ s. s == suffix) secret_suffixes ≡ true
        → (evaluate x action target params topo enabled).effect ≡ Effect.refuse
    evaluate-secret enabled key stem suffix on act hk up mem = refuses_effect _ (
        refuses-evaluate x action target params topo enabled
        ∙ third_refuses (decides x action target params topo enabled) (
            secret_decides enabled on act
              (secret_found hk ((looks_secret_iff key).1 (suffix, stem, mem, up)))))
