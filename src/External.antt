-- ===== src/External.antt =====
-- What the gate takes from its dependencies (serde_json, hmac, sha2, hex, chrono) and from the
-- Postgres column types, as a parameter of every module that uses them.
use esclusa.Prelude.{ℕ, String, ◌≡◌, Bool, List, Option}
use esclusa.Prelude.Int.{ℤ}
use esclusa.Json.{Value, F64}
use esclusa.Clock.{DateTime, IsMicros}

pub record External : Type 1 where
  -- serde_json::Number, and what the gate asks of one.
  pub Number : Type 0
  pub is_f64 : Number → Bool
  pub as_f64 : Number → Option F64
  pub as_i64 : Number → Option ℤ
  pub from_f64 : F64 → Option Number
  pub from_int : ℤ → Number
  -- serde_json::to_string; `none` is its error.
  pub to_string : Value Number → Option String
  -- HMAC-SHA256 of the bytes of a text, and hex::encode.
  pub mac : List ℕ → String → List ℕ
  pub hex : List ℕ → String
  -- DateTime::to_rfc3339_opts(SecondsFormat::Micros, true).
  pub rfc3339_micros : DateTime → String
  -- What is read back from a column: of type timestamptz, and of type jsonb.
  pub timestamptz : DateTime → DateTime
  pub jsonb : Value Number → Value Number

-- Postgres: timestamptz keeps whole microseconds.
pub record KeepsMicros (x : External) : Type 0 where
  pub exact : (t : DateTime) → IsMicros t → x.timestamptz t ≡ t
