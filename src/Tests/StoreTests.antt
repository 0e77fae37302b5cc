-- ===== src/Tests/StoreTests.antt =====
-- Appends and the search for an unspent authorization on a concrete ledger.
use mathlib.Core.List.{Memᴰ}
use esclusa.Prelude.{true, false, some, List, [], ◌∷◌, map, ◌≡◌, ◌≢◌, ◌↔◌, ◌⊎◌, refl, arith}
use esclusa.Prelude.Int.{pos}
use esclusa.Text.{show, show_ℤ}
use esclusa.Json
use esclusa.Json.{Value, empty_object}
use esclusa.Db.{Row, World, done, failed, lost}
use esclusa.Ledger.{NewEntry, verify_chain, params_json, normalize_params}
use esclusa.Ledger.Store.{append, order_by_id, entry_from_row, recent_allow}
use esclusa.Ledger.Store.Appending.{Appended, append_lem, with_row, row_at}
use esclusa.Ledger.Store.Chained.{IsLedger-nil}
use esclusa.Ledger.Store.Runs.{appends, appends-valid, rewritten_params_break}
use esclusa.Ledger.Store.Unspent.{Unspent, recent_allow_iff, recent_allow-spent}
use esclusa.Ledger.Tamper.{Collision}
use esclusa.Tests.Fixtures.{
  Num, float, toy, toy-KeepsMicros, key, asked, tables, world, print, texts_differ,
}

-- The first append fails at its first statement, the second loses the reply to its commit.
abbrev shaky : World Num
shaky = record world {
  awaits =
      record { outcome = failed; elapsed = 1000 }
      ∷ record { outcome = done; elapsed = 0 }
      ∷ record { outcome = done; elapsed = 70_000 }
      ∷ record { outcome = done; elapsed = 1000 }
      ∷ record { outcome = done; elapsed = 1000 }
      ∷ record { outcome = lost; elapsed = 1000 }
      ∷ [];
}

appends-valid_example :
    (verify_chain toy key (
      map
        (entry_from_row toy)
        (order_by_id (appends toy key (asked ∷ asked ∷ []) shaky).tables.ledger))).valid
    ≡ true
unfolding normalize_params
appends-valid_example =
    appends-valid toy key toy-KeepsMicros (asked ∷ asked ∷ []) shaky refl (refl, (refl, tt))
      (omega arith)

append_lem_example : Appended toy key asked shaky.tables (append toy key asked shaky)
append_lem_example = append_lem toy key asked shaky

-- The parameters are a float alone, which the column rewrites.
abbrev odd : NewEntry Num
odd = record asked { params = Json.number (float 3) }

abbrev odd_rows : List (Row Num)
odd_rows = (with_row toy tables (row_at toy key odd tables 9_000_000_000)).ledger

odd_rewritten :
    params_json toy (toy.jsonb (normalize_params toy odd.params))
    ≢ params_json toy (normalize_params toy odd.params)
unfolding normalize_params print show show_ℤ
odd_rewritten h = texts_differ "3" "f3" refl h

rewritten_params_break_example :
    ((verify_chain toy key (map (entry_from_row toy) (order_by_id odd_rows))).broken_at
      ≡ some (row_at toy key odd tables 9_000_000_000).id)
    ⊎ Collision toy key
rewritten_params_break_example =
    rewritten_params_break toy key toy-KeepsMicros odd tables 9_000_000_000 (IsLedger-nil toy key)
      (omega arith) odd_rewritten

abbrev permit : Row Num
permit = record {
  id = pos 1;
  ts = 1_000_000;
  kind = "decision";
  actor = "agent";
  action = "service.stop";
  target = "app";
  decision = "allow";
  reason = "";
  policy = "default-record";
  params = empty_object;
  authenticated = true;
  prev_hmac = "genesis";
  hmac = "0";
}

abbrev covered : Row Num
covered = record permit {
  id = pos 2;
  ts = 2_000_000;
  kind = "audit";
  action = "probe.audit";
  decision = "info";
}

recent_allow_iff_example :
    (recent_allow "app" 3_000_000 (permit ∷ []) ≡ true)
    ↔ ((r : Row Num) × Memᴰ r (permit ∷ []) × Unspent "app" 3_000_000 (permit ∷ []) r)
recent_allow_iff_example = recent_allow_iff "app" 3_000_000 (permit ∷ [])

recent_allow-spent_example : recent_allow "app" 3_000_000 (permit ∷ covered ∷ []) ≡ false
recent_allow-spent_example =
    recent_allow-spent "app" 3_000_000 (permit ∷ []) [] covered refl
      ((λ _. omega arith), ((λ _. omega arith), tt))
