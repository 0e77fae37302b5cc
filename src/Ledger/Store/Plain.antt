-- ===== src/Ledger/Store/Plain.antt =====
-- The parameters that a `jsonb` column gives back as they were signed: values whose numbers are all
-- integers. All that the gate signs of its own in gate/src/probe.rs and gate/src/http.rs is such.
use esclusa.Prelude.{ℕ, false, String, List, [], ◌∷◌, ◌≡◌, refl, sym, ap, ap₂, ◌∙◌}
use esclusa.Prelude.Int.{ℤ}
use esclusa.Json
use esclusa.Json.{Value, Items, Fields, empty_object, nil, cons, end, field, texts}
use esclusa.External.{External}
use esclusa.Ledger.{params_json, normalize_params, normalize_items, normalize_fields}
use esclusa.Ledger.Store.Chained.{KeepsJson}

module _ (x : External) where
  open x use {Number, is_f64, from_int, jsonb}

  unfoldable mutual
    pub IsPlain : Value Number → Type 0
    IsPlain Json.null = Unit
    IsPlain (Json.bool b) = Unit
    IsPlain (Json.number n) = (i : ℤ) × (n ≡ from_int i)
    IsPlain (Json.string s) = Unit
    IsPlain (Json.array a) = ItemsPlain a
    IsPlain (Json.object o) = FieldsPlain o

    pub ItemsPlain : Items Number → Type 0
    ItemsPlain nil = Unit
    ItemsPlain (cons v r) = IsPlain v × ItemsPlain r

    pub FieldsPlain : Fields Number → Type 0
    FieldsPlain end = Unit
    FieldsPlain (field k v r) = IsPlain v × FieldsPlain r

  -- serde_json: the number of an integer is not a float. Postgres: jsonb keeps texts, integers, arrays
  -- and objects.
  pub record KeepsPlain : Type 0 where
    pub integer : (i : ℤ) → is_f64 (from_int i) ≡ false
    pub exact : (v : Value Number) → IsPlain v → jsonb v ≡ v

  number_plain :
      KeepsPlain
      → (n : Number) (i : ℤ) → n ≡ from_int i
      → normalize_params x (Json.number n) ≡ Json.number n
  unfolding normalize_params
  number_plain kept n i e = rw (ap is_f64 e ∙ kept.integer i) refl

  mutual
    unfolding normalize_params IsPlain

    plain_params : KeepsPlain → (v : Value Number) → IsPlain v → normalize_params x v ≡ v
    plain_params kept Json.null h = refl
    plain_params kept (Json.bool b) h = refl
    plain_params kept (Json.number n) (i, e) = number_plain kept n i e
    plain_params kept (Json.string s) h = refl
    plain_params kept (Json.array a) h = ap Json.array (plain_items kept a h)
    plain_params kept (Json.object o) h = ap Json.object (plain_fields kept o h)

    plain_items : KeepsPlain → (a : Items Number) → ItemsPlain a → normalize_items x a ≡ a
    plain_items kept nil h = refl
    plain_items kept (cons v r) h = ap₂ cons (plain_params kept v h.0) (plain_items kept r h.1)

    plain_fields : KeepsPlain → (o : Fields Number) → FieldsPlain o → normalize_fields x o ≡ o
    plain_fields kept end h = refl
    plain_fields kept (field k v r) h =
        ap₂ (field k) (plain_params kept v h.0) (plain_fields kept r h.1)

  pub texts-plain : (l : List String) → ItemsPlain (texts l)
  unfolding IsPlain texts
  texts-plain [] = tt
  texts-plain (s ∷ l) = (tt, texts-plain l)

  pub plain-KeepsJson :
      KeepsPlain
      → (key : List ℕ) (v : Value Number) → IsPlain v
      → KeepsJson x key (normalize_params x v)
  plain-KeepsJson kept key v h =
      let same = plain_params kept v h in
      ap (params_json x) (ap jsonb same ∙ kept.exact v h ∙ sym same)

  pub empty-KeepsJson :
      KeepsPlain → (key : List ℕ) → KeepsJson x key (normalize_params x empty_object)
  unfolding IsPlain
  empty-KeepsJson kept key = plain-KeepsJson kept key empty_object tt
