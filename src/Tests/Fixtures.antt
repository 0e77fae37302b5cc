-- ===== src/Tests/Fixtures.antt =====
-- A concrete instance of the dependencies, and the data that the tests share.
use Prim.Native.String.{◌++◌, len}
use esclusa.Prelude.{
  ℕ, ◌+◌, ◌*◌, String, Bool, true, false, Option, none, some, List, [], ◌∷◌, length, ◌≡◌, refl,
  if◌then◌else◌, ◌==◌, eq_iff,
}
use esclusa.Prelude.Int.{ℤ, pos}
use esclusa.Json
use esclusa.Json.{Value, Items, Fields, F64, nil, cons, end, field, empty_object}
use esclusa.Text.{show, show_ℤ}
use esclusa.External.{External, KeepsMicros}
use esclusa.Db.{TopologyRow, Tables, World}
use esclusa.Ledger.{NewEntry}
use esclusa.Ledger.Store.Plain.{KeepsPlain, IsPlain}

pub data Num : Type 0 where
  int : ℤ → Num
  float : F64 → Num

abbrev is_float : Num → Bool
is_float (int z) = false
is_float (float f) = true

abbrev to_float : Num → Option F64
to_float (int z) = none
to_float (float f) = some f

abbrev to_int : Num → Option ℤ
to_int (int z) = some z
to_int (float f) = none

unfoldable mutual
  pub print : Value Num → String
  print Json.null = "null"
  print (Json.bool b) = if b then "true" else "false"
  print (Json.number (int z)) = show_ℤ z
  print (Json.number (float f)) = "f" ++ show f
  print (Json.string s) = "'" ++ s ++ "'"
  print (Json.array a) = "[" ++ print_items a ++ "]"
  print (Json.object o) = "{" ++ print_fields o ++ "}"

  pub print_items : Items Num → String
  print_items nil = ""
  print_items (cons v r) = print v ++ "," ++ print_items r

  pub print_fields : Fields Num → String
  print_fields end = ""
  print_fields (field k v r) = k ++ ":" ++ print v ++ "," ++ print_fields r

-- The column rewrites a float that stands alone.
abbrev rewrite : Value Num → Value Num
rewrite (Json.number (float f)) = Json.number (int (pos f))
rewrite v = v

abbrev sum_hex : List ℕ → String
sum_hex [] = "0"
sum_hex (b ∷ r) = show b

abbrev pub toy : External
toy = record {
  Number = Num;
  is_f64 = is_float;
  as_f64 = to_float;
  as_i64 = to_int;
  from_f64 = λ f. some (float f);
  from_int = int;
  to_string = λ v. some (print v);
  mac = λ key msg. (length key * 1000 + len msg) ∷ [];
  hex = sum_hex;
  rfc3339_micros = λ t. show t ++ "Z";
  timestamptz = λ t. t;
  jsonb = rewrite;
}

pub toy-KeepsMicros : KeepsMicros toy
toy-KeepsMicros = record { exact = λ t h. refl }

-- Its column rewrites floats only.
pub toy-KeepsPlain : KeepsPlain toy
unfolding IsPlain
toy-KeepsPlain = record { integer = λ i. refl; exact = kept_value }
  where
    kept_value : (v : Value Num) → IsPlain toy v → rewrite v ≡ v
    kept_value Json.null h = refl
    kept_value (Json.bool b) h = refl
    kept_value (Json.number (int i)) h = refl
    kept_value (Json.number (float f)) (i, e) = cc
    kept_value (Json.string s) h = refl
    kept_value (Json.array a) h = refl
    kept_value (Json.object o) h = refl

abbrev pub key : List ℕ
key = 7 ∷ 9 ∷ []

-- The permission to delete `app`.
abbrev pub asked : NewEntry Num
asked = record {
  kind = "decision";
  actor = "agent";
  action = "service.delete";
  target = "app";
  decision = "allow";
  reason = "no refusal policy matched; action allowed and recorded";
  policy = "default-record";
  params = empty_object;
  authenticated = true;
}

abbrev pub app_row : TopologyRow
app_row = record {
  hostname = "app";
  service_type = "nodejs";
  stateful = false;
  probe_method = "dns";
  tcp_port = none;
  status = "present";
  probe_ok = false;
  consecutive_failures = 2;
  last_probe = none;
  updated_at = 0;
}

abbrev pub db_row : TopologyRow
db_row = record app_row { hostname = "db"; service_type = "postgresql"; stateful = true }

abbrev pub old_row : TopologyRow
old_row = record app_row { hostname = "old"; status = "missing-unaudited" }

abbrev pub tables : Tables Num
tables = record {
  ledger = [];
  policies =
      record {
        id = "protect-stateful";
        ord = 0;
        description = "";
        effect = "refuse";
        enabled = true;
      }
      ∷ [];
  topology = app_row ∷ db_row ∷ old_row ∷ [];
}

abbrev pub world : World Num
world = record { tables = tables; clock = 5_000_000_000; awaits = [] }

pub texts_differ : (s t : String) → (s == t) ≡ false → ¬ (s ≡ t)
texts_differ s t h e = cc (h, (eq_iff s t).1 e)
