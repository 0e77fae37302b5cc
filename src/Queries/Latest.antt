-- ===== src/Queries/Latest.antt =====
-- What is appended by gate/src/ledger.rs and what `GET /v1/ledger` of gate/src/http.rs shows of it.
use mathlib.Core.List.{reverse, reverse-append}
use esclusa.Prelude.{
  ℕ, suc, ◌<◌, String, true, none, some, List, [], ◌∷◌, map, length, where_rows, take,
  length-append, ◌≡◌, ap, ap₂, ◌∙◌, arith,
}
use esclusa.Prelude.Int.{i64_max}
use esclusa.Prelude.Slices.{where_rows_all}
use esclusa.Clock.{DateTime, now_micros, now_micros-IsMicros}
use esclusa.Json.{Value}
use esclusa.External.{External, KeepsMicros}
use esclusa.Db.{Tables}
use esclusa.Db.Quiet.{quiet}
use esclusa.Ledger.{NewEntry, ts_string, normalize_params}
use esclusa.Ledger.Store.{order_by_id, entry_from_row, stored_row, next_entry, append, of_kinds}
use esclusa.Ledger.Store.Order.{order_by_id-IsAscending}
use esclusa.Ledger.Store.Appending.{with_row, row_at, entry_at}
use esclusa.Ledger.Store.Chained.{IsLedger, IsNumbered-append, IsNumbered-IsAscending, next_number}
use esclusa.Ledger.Store.Free.{append-quiet}
use esclusa.Http.{AppState}
use esclusa.Queries.{page_reply, ledger_list}
use esclusa.Queries.Pages.{newest}
use esclusa.Queries.Fetching.{page_at, ledger_list-quiet}

module _ (x : External) (key : List ℕ) (micros : KeepsMicros x) where
  open x use {Number, jsonb}

  module _ (new : NewEntry Number) (t : DateTime) (tables : Tables Number) where
    -- The row gives back the entry.
    stored-read :
        jsonb (normalize_params x new.params) ≡ normalize_params x new.params
        → entry_from_row x (row_at x key new tables t) ≡ entry_at x key new tables t
    unfolding entry_from_row stored_row next_entry ts_string
    stored-read kept =
        ap₂
          (λ (s : String) (v : Value Number). record (entry_at x key new tables t) {
            ts = s;
            params = v;
          })
          (ap x.rfc3339_micros (micros.exact (now_micros t) (now_micros-IsMicros t))) kept

    module _ (l : IsLedger x key tables.ledger) (room : length tables.ledger < i64_max) where
      abbrev after : Tables Number
      after = with_row x tables (row_at x key new tables t)

      newest-append : newest x none after ≡ row_at x key new tables t ∷ reverse tables.ledger
      newest-append =
          ap (λ rows. reverse (order_by_id rows)) (where_rows_all after.ledger)
          ∙ ap reverse (
              order_by_id-IsAscending after.ledger (
                IsNumbered-IsAscending 1 after.ledger (
                  IsNumbered-append 1 tables.ledger _ l.numbered
                    (next_number x key micros new t tables l room))))
          ∙ reverse-append tables.ledger (row_at x key new tables t ∷ [])

      total-append : length (where_rows (of_kinds x none) after.ledger) ≡ suc (length tables.ledger)
      total-append =
          ap length (where_rows_all after.ledger)
          ∙ length-append tables.ledger (row_at x key new tables t ∷ [])
          ∙ omega arith

      -- While the database answers, what is appended to a ledger of the gate's own is what `GET
      -- /v1/ledger` shows first: the entry that `append` returned, unchanged in every field, with the
      -- number of entries one higher, if an id is left, `timestamptz` keeps whole microseconds, and
      -- the `jsonb` column gives the signed parameters back.
      pub append-ledger_list :
          jsonb (normalize_params x new.params) ≡ normalize_params x new.params
          → (st : AppState) → st.connected ≡ true
          → (append x key new (quiet t tables)
              ≡ (some (entry_at x key new tables t), quiet t after))
            × (ledger_list x st (page_at x 1 0) (quiet t after) ≡ (
              some (
                  page_reply x
                    (some (entry_at x key new tables t ∷ [], suc (length tables.ledger)))),
              quiet t after,
            ))
      append-ledger_list kept st on = (
        append-quiet x key micros new t tables l room,
        ledger_list-quiet x st on 1 (omega arith) (omega arith) t after 0
            ∙ ap₂
                (λ rows n. (
                  some (page_reply x (some (map (entry_from_row x) (take 1 rows), n))),
                  quiet t after,
                ))
                newest-append total-append
            ∙ ap
                (λ e.
                  (some (page_reply x (some (e ∷ [], suc (length tables.ledger)))), quiet t after))
                (stored-read kept),
      )
