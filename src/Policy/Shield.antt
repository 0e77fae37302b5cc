-- ===== src/Policy/Shield.antt =====
-- When the rule `secret-shield` of gate/src/policy.rs is the one that decides on setting a variable.
use Prim.Native.String.{◌++◌}
use esclusa.Prelude.{
  unwrap_or, if◌then◌else◌, String, Bool, true, false, ◌==◌, eq_iff, Option, none, some, List, any,
  is_some, ◌&&◌, ◌||◌, ◌≡◌, ◌↔◌, ◌⊎◌, inl, inr, refl, sym, ap, ◌∙◌, arith,
}
use esclusa.Prelude.Dict.{Dict}
use esclusa.Json
use esclusa.Json.{Value, as_str}
use esclusa.Text.{to_ascii_uppercase}
use esclusa.External.{External}
use esclusa.Policy.{
  is_stateful, min_containers_is_zero, shield, unknown_target, default_record, Decision, TopoView,
  is_on, is_known, secret_suffixes, looks_secret, secret_key, evaluate,
}
use esclusa.Policy.Guarantees.{looks_secret_iff, secret_found}

-- The endings of a credential's name.
abbrev pub IsEnding : String → Type 0
IsEnding s = (s ≡ "_KEY") ⊎ ((s ≡ "_TOKEN") ⊎ ((s ≡ "_SECRET") ⊎ (s ≡ "PASSWORD")))

ending_listed : (s : String) → IsEnding s → any (λ k. k == s) secret_suffixes ≡ true
ending_listed s (inl e) = rw e refl
ending_listed s (inr (inl e)) = rw e refl
ending_listed s (inr (inr (inl e))) = rw e refl
ending_listed s (inr (inr (inr e))) = rw e refl

listed-IsEnding : (s : String) → any (λ k. k == s) secret_suffixes ≡ true → IsEnding s
listed-IsEnding s h =
    ground (arith, eq_iff "_KEY" s, eq_iff "_TOKEN" s, eq_iff "_SECRET" s, eq_iff "PASSWORD" s)

-- The three rules before it pass by the setting of a variable.
passed :
    (a b c g s z : Bool) (d e f rest : Decision)
    → (if a && false && s
        then d
        else if b && g && false
        then e
        else if c && false && z
        then f
        else rest)
      ≡ rest
passed a b c g s z d e f rest = ground arith

-- The fifth rule and the default name policies of their own.
late_named :
    (target : String) (on known : Bool)
    → ((unwrap_or
          (if on then unknown_target "env.set" target known else none)
          default_record).policy
        == "secret-shield")
      ≡ false
late_named target false known = refl
late_named target true false = refl
late_named target true true = refl

module _ (x : External) (params : Value x.Number) where
  open x use {Number}

  -- The parameter `key` is a text that ends, in upper case, like a credential's name.
  abbrev pub NamesCredential : Type 0
  NamesCredential =
      (key : String) × (stem : String) × (ending : String) × (Json.get params "key"
        ≡ some (Json.string key))
      × IsEnding ending
      × (to_ascii_uppercase key ≡ stem ++ ending)

  found_key :
      (o : Option (Value Number))
      → Json.get params "key" ≡ o
      → is_some (secret_key x params) ≡ true
      → (key : String) × (Json.get params "key" ≡ some (Json.string key))
        × (looks_secret key ≡ true)
  unfolding secret_key as_str
  found_key none e h = ground (arith, e, h)
  found_key (some Json.null) e h = ground (arith, e, h)
  found_key (some (Json.bool b)) e h = ground (arith, e, h)
  found_key (some (Json.number n)) e h = ground (arith, e, h)
  found_key (some (Json.array a)) e h = ground (arith, e, h)
  found_key (some (Json.object o)) e h = ground (arith, e, h)
  found_key (some (Json.string key)) e h = (key, e, ground (arith, e, h))

  module _ (target : String) (topo : List TopoView) (enabled : Dict Bool)
      (on : is_on enabled "secret-shield" ≡ true) where
    decided_by :
        (o : Option String)
        → secret_key x params ≡ o
        → ((evaluate x "env.set" target params topo enabled).policy == "secret-shield") ≡ is_some o
    unfolding evaluate
    decided_by o e =
        ap (λ (d : Decision). d.policy == "secret-shield")
          (passed (is_on enabled "protect-stateful") (is_on enabled "protect-spine")
            (is_on enabled "no-scale-to-zero") (target == "gate" || target == "console")
            (is_stateful topo target) (min_containers_is_zero x params) _ _ _
            (shield (if is_on enabled "secret-shield" && true then secret_key x params else none)
              rest))
        ∙ by_key o e
      where
        rest : Decision
        rest =
            unwrap_or
              (if is_on enabled "unknown-target"
                then unknown_target "env.set" target (is_known topo target)
                else none)
              default_record

        by_key :
            (o : Option String)
            → secret_key x params ≡ o
            → ((shield
                  (if is_on enabled "secret-shield" && true then secret_key x params else none)
                  rest).policy
                == "secret-shield")
              ≡ is_some o
        by_key none e =
            rw (on, e) (late_named target (is_on enabled "unknown-target") (is_known topo target))
        by_key (some key) e = rw (on, e) refl

    -- While `secret-shield` is on, setting a variable is decided by it exactly when the parameter `key` is
    -- a text that ends, in upper case, in '_KEY', '_TOKEN', '_SECRET' or 'PASSWORD'; whatever the target,
    -- the topology and the other switches.
    pub evaluate-shield_iff :
        ((evaluate x "env.set" target params topo enabled).policy ≡ "secret-shield")
        ↔ NamesCredential
    evaluate-shield_iff = (λ e. names e, λ c. shields c)
      where
        decided :
            ((evaluate x "env.set" target params topo enabled).policy == "secret-shield")
            ≡ is_some (secret_key x params)
        decided = decided_by (secret_key x params) refl

        names :
            (evaluate x "env.set" target params topo enabled).policy ≡ "secret-shield"
            → NamesCredential
        names e =
            let (key, named, looks) =
              found_key (Json.get params "key") refl (sym decided ∙ (eq_iff _ _).1 e) in
            let (ending, stem, listed, up) = (looks_secret_iff key).0 looks in
            (key, stem, ending, named, listed-IsEnding ending listed, up)

        shields :
            NamesCredential
            → (evaluate x "env.set" target params topo enabled).policy ≡ "secret-shield"
        shields (key, stem, ending, named, known, up) = (eq_iff _ _).0 (
            decided
            ∙ secret_found x "env.set" target params topo named
                ((looks_secret_iff key).1 (ending, stem, ending_listed ending known, up)))
