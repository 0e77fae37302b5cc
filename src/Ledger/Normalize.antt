-- ===== src/Ledger/Normalize.antt =====
-- `normalize_params` of gate/src/ledger.rs removes every negative zero and changes nothing else.
use esclusa.Prelude.{
  Bool, true, String, Bool-cases, inl, inr, false, ◌&&◌, ◌||◌, Option, none, some, ◌≡◌, ◌↔◌, refl,
  sym, ◌∙◌, ap, ap₂, arith,
}
use esclusa.Json
use esclusa.Json.{Value, Items, Fields, F64, nil, cons, end, field, eq_zero, is_sign_negative}
use mathlib.Core.Path.{subst}
use esclusa.External.{External}
use esclusa.Ledger.{normalize_params, normalize_items, normalize_fields}

-- serde_json: `from_f64` accepts 0.0, and `as_f64` gives it back.
pub record HasZero (x : External) : Type 0 where
  pub zero : x.Number
  pub made : x.from_f64 0 ≡ some zero
  pub read_back : x.as_f64 zero ≡ some 0

||-left : (a b : Bool) → (a || b) ≡ false → a ≡ false
||-left a b h = ground arith

||-right : (a b : Bool) → (a || b) ≡ false → b ≡ false
||-right a b h = ground arith

module _ (x : External) where
  open x use {Number, is_f64, as_f64, from_f64}

  abbrev is_negative_zero : Option F64 → Bool
  is_negative_zero none = false
  is_negative_zero (some f) = eq_zero f && is_sign_negative f

  -- The number is a float, and it is -0.0.
  unfoldable pub negative_zero : Number → Bool
  negative_zero n = is_f64 n && is_negative_zero (as_f64 n)

  unfoldable mutual
    -- A negative zero stands somewhere in the value.
    pub has_negative_zero : Value Number → Bool
    has_negative_zero Json.null = false
    has_negative_zero (Json.bool b) = false
    has_negative_zero (Json.number n) = negative_zero n
    has_negative_zero (Json.string s) = false
    has_negative_zero (Json.array a) = items_negative_zero a
    has_negative_zero (Json.object o) = fields_negative_zero o

    pub items_negative_zero : Items Number → Bool
    items_negative_zero nil = false
    items_negative_zero (cons v r) = has_negative_zero v || items_negative_zero r

    pub fields_negative_zero : Fields Number → Bool
    fields_negative_zero end = false
    fields_negative_zero (field k v r) = has_negative_zero v || fields_negative_zero r

  -- The second value is the first one with every negative zero replaced by the number `zero`.
  mutual
    pub data Replaced (zero : Number) : Value Number → Value Number → Type 0 where
      same_null : Replaced zero Json.null Json.null
      same_bool : (b : Bool) → Replaced zero (Json.bool b) (Json.bool b)
      replaced :
          (n : Number) → negative_zero n ≡ true → Replaced zero (Json.number n) (Json.number zero)
      same_number :
          (n : Number) → negative_zero n ≡ false → Replaced zero (Json.number n) (Json.number n)
      same_string : (s : String) → Replaced zero (Json.string s) (Json.string s)
      in_array :
          (a b : Items Number)
          → ReplacedItems zero a b
          → Replaced zero (Json.array a) (Json.array b)
      in_object :
          (o p : Fields Number)
          → ReplacedFields zero o p
          → Replaced zero (Json.object o) (Json.object p)

    pub data ReplacedItems (zero : Number) : Items Number → Items Number → Type 0 where
      no_items : ReplacedItems zero nil nil
      one_item :
          (v w : Value Number) (a b : Items Number)
          → Replaced zero v w
          → ReplacedItems zero a b
          → ReplacedItems zero (cons v a) (cons w b)

    pub data ReplacedFields (zero : Number) : Fields Number → Fields Number → Type 0 where
      no_fields : ReplacedFields zero end end
      one_field :
          (k : String) (v w : Value Number) (o p : Fields Number)
          → Replaced zero v w
          → ReplacedFields zero o p
          → ReplacedFields zero (field k v o) (field k w p)

  number_kept :
      (n : Number) → negative_zero n ≡ false → normalize_params x (Json.number n) ≡ Json.number n
  unfolding normalize_params negative_zero
  number_kept n h = ground arith

  number_zeroed :
      (z : HasZero x) (n : Number)
      → negative_zero n ≡ true
      → normalize_params x (Json.number n) ≡ Json.number z.zero
  unfolding normalize_params negative_zero
  number_zeroed z n h = ground (arith, z.made)

  number-Replaced :
      (z : HasZero x) (n : Number)
      → Replaced z.zero (Json.number n) (normalize_params x (Json.number n))
  number-Replaced z n = elim (Bool-cases (negative_zero n)) [
    | inl e ↦ subst (Replaced z.zero (Json.number n)) (sym (number_zeroed z n e)) (replaced n e)
    | inr e ↦ subst (Replaced z.zero (Json.number n)) (sym (number_kept n e)) (same_number n e)
  ]

  mutual
    unfolding normalize_params

    replace_params : (z : HasZero x) (v : Value Number) → Replaced z.zero v (normalize_params x v)
    replace_params z Json.null = same_null
    replace_params z (Json.bool b) = same_bool b
    replace_params z (Json.number n) = number-Replaced z n
    replace_params z (Json.string s) = same_string s
    replace_params z (Json.array a) = in_array a (normalize_items x a) (replace_items z a)
    replace_params z (Json.object o) = in_object o (normalize_fields x o) (replace_fields z o)

    replace_items :
        (z : HasZero x) (a : Items Number) → ReplacedItems z.zero a (normalize_items x a)
    replace_items z nil = no_items
    replace_items z (cons v r) =
        one_item v (normalize_params x v) r (normalize_items x r) (replace_params z v)
          (replace_items z r)

    replace_fields :
        (z : HasZero x) (o : Fields Number) → ReplacedFields z.zero o (normalize_fields x o)
    replace_fields z end = no_fields
    replace_fields z (field k v r) =
        one_field k v (normalize_params x v) r (normalize_fields x r) (replace_params z v)
          (replace_fields z r)

  number_settled :
      HasZero x → (n : Number) → has_negative_zero (normalize_params x (Json.number n)) ≡ false
  unfolding normalize_params has_negative_zero negative_zero
  number_settled z n = ground arith

  mutual
    unfolding normalize_params has_negative_zero

    settle_params :
        HasZero x → (v : Value Number) → has_negative_zero (normalize_params x v) ≡ false
    settle_params z Json.null = refl
    settle_params z (Json.bool b) = refl
    settle_params z (Json.number n) = number_settled z n
    settle_params z (Json.string s) = refl
    settle_params z (Json.array a) = settle_items z a
    settle_params z (Json.object o) = settle_fields z o

    settle_items :
        HasZero x → (a : Items Number) → items_negative_zero (normalize_items x a) ≡ false
    settle_items z nil = refl
    settle_items z (cons v r) = rw (settle_params z v, settle_items z r)

    settle_fields :
        HasZero x → (o : Fields Number) → fields_negative_zero (normalize_fields x o) ≡ false
    settle_fields z end = refl
    settle_fields z (field k v r) = rw (settle_params z v, settle_fields z r)

  mutual
    unfolding normalize_params has_negative_zero

    keep_params : (v : Value Number) → has_negative_zero v ≡ false → normalize_params x v ≡ v
    keep_params Json.null h = refl
    keep_params (Json.bool b) h = refl
    keep_params (Json.number n) h = number_kept n h
    keep_params (Json.string s) h = refl
    keep_params (Json.array a) h = ap Json.array (keep_items a h)
    keep_params (Json.object o) h = ap Json.object (keep_fields o h)

    keep_items : (a : Items Number) → items_negative_zero a ≡ false → normalize_items x a ≡ a
    keep_items nil h = refl
    keep_items (cons v r) h =
        ap₂ cons (keep_params v (||-left _ _ h)) (keep_items r (||-right _ _ h))

    keep_fields : (o : Fields Number) → fields_negative_zero o ≡ false → normalize_fields x o ≡ o
    keep_fields end h = refl
    keep_fields (field k v r) h =
        ap₂ (field k) (keep_params v (||-left _ _ h)) (keep_fields r (||-right _ _ h))

  -- The result is the value with every negative zero, at any depth, replaced by the number of 0.0 and
  -- with nothing else changed; no negative zero is left, exactly the values without one are left as they
  -- are, and a second pass changes nothing, if `from_f64` makes a number of 0.0 that is read back.
  pub normalize_params_lem :
      (z : HasZero x) (v : Value Number)
      → Replaced z.zero v (normalize_params x v)
        × (has_negative_zero (normalize_params x v) ≡ false)
        × ((has_negative_zero v ≡ false) ↔ (normalize_params x v ≡ v))
        × (normalize_params x (normalize_params x v) ≡ normalize_params x v)
  normalize_params_lem z v = (
    replace_params z v,
    settle_params z v,
    (keep_params v, λ e. ap has_negative_zero (sym e) ∙ settle_params z v),
    keep_params (normalize_params x v) (settle_params z v),
  )
