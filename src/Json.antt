-- ===== src/Json.antt =====
-- `serde_json::Value`, over the type of its numbers, which serde_json keeps to itself. An object is
-- serde_json's default map, ordered by key, as the list of its entries in that order.
use esclusa.Prelude.{
  ℕ, ◌/◌, ◌%◌, ◌^◌, String, Bool, Option, none, some, List, [], ◌∷◌, ◌==◌, nat_eq, if◌then◌else◌,
}

mutual
  pub data Value (N : Type 0) : Type 0 where
    null : Value N
    bool : Bool → Value N
    number : N → Value N
    string : String → Value N
    array : Items N → Value N
    object : Fields N → Value N

  pub data Items (N : Type 0) : Type 0 where
    nil : Items N
    cons : Value N → Items N → Items N

  pub data Fields (N : Type 0) : Type 0 where
    end : Fields N
    field : String → Value N → Fields N → Fields N

-- `json!({})`.
abbrev pub empty_object : {N : Type 0} → Value N
empty_object = object end

unfoldable pub get_field : {N : Type 0} → Fields N → String → Option (Value N)
get_field end k = none
get_field (field j v r) k = if j == k then some v else get_field r k

-- `Value::get` with a text: `None` on everything but an object.
unfoldable pub get : {N : Type 0} → Value N → String → Option (Value N)
unfolding get_field
get (object fs) k = get_field fs k
get _ k = none

unfoldable pub as_str : {N : Type 0} → Value N → Option String
as_str (string s) = some s
as_str _ = none

-- An array of texts, as `json!` makes one of a `Vec<String>`.
unfoldable pub texts : {N : Type 0} → List String → Items N
texts [] = nil
texts (s ∷ r) = cons (string s) (texts r)

-- An `f64` by its bit pattern, below 2 ^ 64.
abbrev pub F64 : Type 0
F64 = ℕ

-- `f == 0.0`: both zeros are equal, so the sign bit does not count.
abbrev pub eq_zero : F64 → Bool
eq_zero bits = nat_eq (bits % 2 ^ 63) 0

abbrev pub is_sign_negative : F64 → Bool
is_sign_negative bits = nat_eq (bits / 2 ^ 63 % 2) 1
