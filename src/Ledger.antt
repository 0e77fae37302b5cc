-- ===== src/Ledger.antt =====
-- The pure half of gate/src/ledger.rs: entries, the canonical string, the HMAC of an entry, and the
-- verification of a chain.
pub mod Canonical
pub mod Store
pub mod Chain
pub mod Normalize
pub mod Tamper
use Prim.Native.String.{[], ◌++◌}
use mathlib.Core.List.{List, ◌∷◌, foldl}
use mathlib.Core.Option
use esclusa.Prelude.{
  ℕ, String, Bool, true, false, not, ◌&&◌, ◌||◌, ◌==◌, Option, none, some, length, last, unwrap_or,
  if◌then◌else◌,
}
use esclusa.Prelude.Int.{ℤ}
use esclusa.Json
use esclusa.Json.{Value, Items, Fields, F64, nil, cons, end, field, eq_zero, is_sign_negative}
use esclusa.Clock.{DateTime}
use esclusa.Text.{byte_len, show, show_ℤ}
use esclusa.External.{External}

abbrev pub genesis : String
genesis = "genesis"

pub record Entry (N : Type 0) : Type 0 where
  pub id : ℤ
  pub ts : String
  pub kind : String
  pub actor : String
  pub action : String
  pub target : String
  pub decision : String
  pub reason : String
  pub policy : String
  pub params : Value N
  pub authenticated : Bool
  pub prev_hmac : String
  pub hmac : String

-- What a caller gives for a new entry.
pub record NewEntry (N : Type 0) : Type 0 where
  pub kind : String
  pub actor : String
  pub action : String
  pub target : String
  pub decision : String
  pub reason : String
  pub policy : String
  pub params : Value N
  pub authenticated : Bool

unfoldable pub push_field : String → String → String
push_field out s = (((out ++ show (byte_len s)) ++ ":") ++ s) ++ "|"

abbrev pub flag : Bool → String
flag b = if b then "1" else "0"

pub record VerifyReport : Type 0 where
  pub valid : Bool
  pub checked : ℕ
  pub head_hmac : Option String
  pub broken_at : Option ℤ

module _ (x : External) where
  open x use {Number, is_f64, as_f64, from_f64, to_string, mac, hex, rfc3339_micros}

  unfoldable pub ts_string : DateTime → String
  ts_string ts = rfc3339_micros ts

  abbrev pub params_json : Value Number → String
  params_json params = unwrap_or (to_string params) "null"

  unfoldable pub canonical_string :
      ℤ
      → String
      → String
      → String
      → String
      → String
      → String
      → String
      → String
      → Value Number
      → Bool
      → String
      → String
  canonical_string id ts kind actor action target decision reason policy params auth prev_hmac =
      foldl push_field "" (
        show_ℤ id
        ∷ ts
        ∷ kind
        ∷ actor
        ∷ action
        ∷ target
        ∷ decision
        ∷ reason
        ∷ policy
        ∷ params_json params
        ∷ flag auth
        ∷ prev_hmac
        ∷ List.[])

  unfoldable pub entry_canonical : Entry Number → String
  unfolding canonical_string
  entry_canonical e =
      canonical_string e.id e.ts e.kind e.actor e.action e.target e.decision e.reason e.policy
        e.params e.authenticated e.prev_hmac

  -- The branch of `normalize_params` for a number.
  abbrev positive_zero : Option F64 → Number → Value Number
  positive_zero none n = Json.number n
  positive_zero (some f) n =
      if eq_zero f && is_sign_negative f
      then unwrap_or (Option.map Json.number (from_f64 0)) (Json.number n)
      else Json.number n

  unfoldable mutual
    pub normalize_params : Value Number → Value Number
    normalize_params Json.null = Json.null
    normalize_params (Json.bool b) = Json.bool b
    normalize_params (Json.number n) =
        if is_f64 n then positive_zero (as_f64 n) n else Json.number n
    normalize_params (Json.string s) = Json.string s
    normalize_params (Json.array a) = Json.array (normalize_items a)
    normalize_params (Json.object o) = Json.object (normalize_fields o)

    pub normalize_items : Items Number → Items Number
    normalize_items nil = nil
    normalize_items (cons v r) = cons (normalize_params v) (normalize_items r)

    pub normalize_fields : Fields Number → Fields Number
    normalize_fields end = end
    normalize_fields (field k v r) = field k (normalize_params v) (normalize_fields r)

  unfoldable pub hmac_hex : List ℕ → String → String
  hmac_hex key msg = hex (mac key msg)

  -- The loop of `verify_chain`: the id of the first entry that fails, if one does.
  unfoldable pub first_broken : List ℕ → String → List (Entry Number) → Option ℤ
  first_broken key prev List.[] = none
  first_broken key prev (e ∷ entries) =
      let rest = first_broken key e.hmac entries in
      let linked = e.prev_hmac == prev in
      let recomputed = hmac_hex key (entry_canonical e) in
      if not linked || not (recomputed == e.hmac) then some e.id else rest

  -- The entries are ordered by id, ascending.
  unfoldable pub verify_chain : List ℕ → List (Entry Number) → VerifyReport
  verify_chain key entries =
      let head_hmac = Option.map (λ (e : Entry Number). e.hmac) (last entries) in
      elim (first_broken key genesis entries) [
        | some id ↦ record {
          valid = false;
          checked = length entries;
          head_hmac = head_hmac;
          broken_at = some id;
        }
        | none ↦ record {
          valid = true;
          checked = length entries;
          head_hmac = head_hmac;
          broken_at = none;
        }
      ]
