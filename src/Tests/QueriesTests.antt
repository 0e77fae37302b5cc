-- ===== src/Tests/QueriesTests.antt =====
-- Pages of a concrete ledger.
use esclusa.Prelude.{◌≡◌, ◌≤◌, true, some, none, List, [], ◌∷◌, refl, arith}
use mathlib.Core.List.{reverse}
use esclusa.Prelude.Int.{pos, negsuc}
use esclusa.Db.{Tables, World, done, failed}
use esclusa.Db.Quiet.{quiet}
use esclusa.Ledger.{Entry, normalize_params}
use esclusa.Ledger.Store.{append, all_ordered}
use esclusa.Ledger.Store.Appending.{with_row, row_at, entry_at}
use esclusa.Ledger.Store.Chained.{IsLedger-nil}
use esclusa.Http.{AppState}
use esclusa.Queries.{Page, limit_of, offset_of, items, entry_value, page_reply, ledger_list, drift}
use esclusa.Queries.Pages.{AnswersPage, pages-bounded}
use esclusa.Queries.Fetching.{fetch, page_at, pages-all}
use esclusa.Queries.Latest.{append-ledger_list}
use esclusa.Tests.Fixtures.{Num, toy, toy-KeepsMicros, key, asked, tables, world}

abbrev app : AppState
app = record { connected = true; cache = none; mem_rl = []; gate_token = none; signing_key = key }

-- A ledger of two rows.
abbrev filled : Tables Num
filled =
    let one = with_row toy tables (row_at toy key asked tables 1_000_000_000) in
    with_row toy one (row_at toy key asked one 2_000_000_000)

-- The count fails.
abbrev shaky : World Num
shaky = record world {
  tables = filled;
  awaits =
      record { outcome = done; elapsed = 1000 } ∷ record { outcome = failed; elapsed = 1000 } ∷ [];
}

abbrev huge : Page
huge = record { limit = some (pos 9_999); offset = some (negsuc 4) }

huge_clamped : limit_of huge ≡ 500
unfolding limit_of
huge_clamped = refl

huge_from_start : offset_of huge ≡ 0
unfolding offset_of
huge_from_start = refl

pages-bounded_example :
    AnswersPage toy huge none shaky.tables (ledger_list toy app huge shaky)
    × AnswersPage toy huge (some ("drift" ∷ "audit" ∷ [])) shaky.tables (drift toy app huge shaky)
    × (1 ≤ limit_of huge)
    × (limit_of huge ≤ 500)
pages-bounded_example = pages-bounded toy app huge shaky

-- Two pages of one entry each.
pages-all_example :
    (entries : List (Entry Num)) × (all_ordered toy (quiet 5_000_000_000 filled)
      ≡ (some entries, quiet 5_000_000_000 filled))
    × (fetch toy app 1 2 0 (quiet 5_000_000_000 filled)
        ≡ (some (items toy (entry_value toy) (reverse entries)), quiet 5_000_000_000 filled))
pages-all_example =
    pages-all toy app refl 1 (omega arith) (omega arith) 5_000_000_000 filled 2 (omega arith)

append-ledger_list_example :
    (append toy key asked (quiet 5_000_000_000 tables) ≡ (
      some (entry_at toy key asked tables 5_000_000_000),
      quiet 5_000_000_000 (with_row toy tables (row_at toy key asked tables 5_000_000_000)),
    ))
    × (ledger_list toy app
          (page_at toy 1 0)
          (quiet 5_000_000_000 (with_row toy tables (row_at toy key asked tables 5_000_000_000)))
        ≡ (
          some (page_reply toy (some (entry_at toy key asked tables 5_000_000_000 ∷ [], 1))),
          quiet 5_000_000_000 (with_row toy tables (row_at toy key asked tables 5_000_000_000)),
        ))
unfolding normalize_params
append-ledger_list_example =
    append-ledger_list toy key toy-KeepsMicros asked 5_000_000_000 tables (IsLedger-nil toy key)
      (omega arith) refl app refl
