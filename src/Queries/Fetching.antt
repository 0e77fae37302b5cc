-- ===== src/Queries/Fetching.antt =====
-- A client that reads the whole ledger page by page with `GET /v1/ledger` of gate/src/http.rs, and what it
-- has read in the end.
use mathlib.Core.List.{reverse}
use esclusa.Prelude.{
  ℕ, zero, suc, ◌+◌, ◌*◌, ◌≤◌, String, true, Option, none, some, List, [], ◌∷◌, ◌++◌, map, length,
  take, drop, ◌≡◌, refl, sym, ap, ◌∙◌, arith,
}
use mathlib.Core.List.{map-append}
use esclusa.Prelude.Int.{pos}
use esclusa.Prelude.Slices.{take-drop, drop_all, length-reverse, map-reverse, where_rows_all}
use esclusa.Clock.{DateTime}
use esclusa.Json.{Value, Items, array, nil, cons, get}
use esclusa.External.{External}
use esclusa.Db.{Row, Tables, World, Exec, pure, ◌>>=◌}
use esclusa.Db.Statements.{attempt-bind}
use esclusa.Db.Quiet.{quiet, quiet-query, bind-known}
use esclusa.Ledger.{Entry}
use esclusa.Ledger.Store.{order_by_id, entry_from_row, list, all_ordered}
use esclusa.Http.{AppState, Response}
use esclusa.Queries.{
  Page, limit_of, offset_of, items, entry_value, page_reply, read_page, ledger_list,
}
use esclusa.Queries.Pages.{newest, listed, length-order_by_id}

module _ {N : Type 0} where
  abbrev pub join : Items N → Items N → Items N
  join nil r = r
  join (cons v l) r = cons v (join l r)

  abbrev array_or_nil : Option (Value N) → Items N
  array_or_nil (some (array l)) = l
  array_or_nil o = nil

  -- The array `entries` of an answer.
  unfoldable pub entries_of : Response N → Items N
  unfolding get
  entries_of reply = array_or_nil (get reply.body "entries")

module _ (x : External) where
  open x use {Number}

  items-append :
      {A : Type 0} (f : A → Value Number) (l r : List A)
      → items x f (l ++ r) ≡ join (items x f l) (items x f r)
  unfolding items
  items-append f [] r = refl
  items-append f (a ∷ l) r = ap (cons (f a)) (items-append f l r)

  items-nil : {A : Type 0} (f : A → Value Number) → items x f [] ≡ nil
  unfolding items
  items-nil f = refl

  entries_of-page :
      (entries : List (Entry Number)) (total : ℕ)
      → entries_of (page_reply x (some (entries, total))) ≡ items x (entry_value x) entries
  unfolding entries_of
  entries_of-page entries total = refl

  abbrev pub page_at : ℕ → ℕ → Page
  page_at limit offset = record { limit = some (pos limit); offset = some (pos offset) }

  -- `n` pages of `limit` entries from the offset on, put together.
  unfoldable pub fetch : AppState → ℕ → ℕ → ℕ → Exec Number (Items Number)
  fetch st limit zero offset = pure nil
  fetch st limit (suc n) offset = do
    reply ← ledger_list x st (page_at limit offset)
    rest ← fetch st limit n (offset + limit)
    pure (join (entries_of reply) rest)

  limit_of-page :
      (limit offset : ℕ) → 1 ≤ limit → limit ≤ 500 → limit_of (page_at limit offset) ≡ limit
  unfolding limit_of
  limit_of-page limit offset low high = ground arith

  offset_of-page : (limit offset : ℕ) → offset_of (page_at limit offset) ≡ offset
  unfolding offset_of
  offset_of-page limit offset = ground arith

  list-quiet :
      (limit offset : ℕ) (kinds : Option (List String)) (t : DateTime) (tables : Tables Number)
      → list x limit offset kinds (quiet t tables)
        ≡ (some (listed x limit offset kinds tables), quiet t tables)
  unfolding list
  list-quiet limit offset kinds t tables =
      quiet-query (λ p. p ≡ (some (listed x limit offset kinds tables), quiet t tables)) t tables _
        _
        (quiet-query (λ p. p ≡ (some (listed x limit offset kinds tables), quiet t tables)) t tables
          _ _ refl)

  pub all_ordered-quiet :
      (t : DateTime) (tables : Tables Number)
      → all_ordered x (quiet t tables)
        ≡ (some (map (entry_from_row x) (order_by_id tables.ledger)), quiet t tables)
  unfolding all_ordered
  all_ordered-quiet t tables =
      quiet-query
        (λ p. p ≡ (some (map (entry_from_row x) (order_by_id tables.ledger)), quiet t tables)) t
        tables _ _ refl

  module _ (st : AppState) (on : st.connected ≡ true) (limit : ℕ) (low : 1 ≤ limit)
      (high : limit ≤ 500) (t : DateTime) (tables : Tables Number) where
    abbrev pub page_told : ℕ → Response Number
    page_told offset = page_reply x (some (listed x limit offset none tables))

    pub ledger_list-quiet :
        (offset : ℕ)
        → ledger_list x st (page_at limit offset) (quiet t tables)
          ≡ (some (page_told offset), quiet t tables)
    unfolding ledger_list
    ledger_list-quiet offset =
        ap (λ c. read_page x c (page_at limit offset) none (quiet t tables)) on
        ∙ attempt-bind _ (λ r. r ≡ (some (page_told offset), quiet t tables))
            (list x (limit_of (page_at limit offset)) (offset_of (page_at limit offset)) none)
            (quiet t tables)
            (ap
              (λ (p : Option (List (Entry Number) × ℕ) × World Number).
                (some (page_reply x p.0), p.1))
              (ap (λ l. list x l (offset_of (page_at limit offset)) none (quiet t tables))
                  (limit_of-page limit offset low high)
                ∙ ap (λ o. list x limit o none (quiet t tables)) (offset_of-page limit offset)
                ∙ list-quiet limit offset none t tables))

    abbrev shown : List (Row Number) → Items Number
    shown rows = items x (entry_value x) (map (entry_from_row x) rows)

    shown-append : (l r : List (Row Number)) → shown (l ++ r) ≡ join (shown l) (shown r)
    shown-append l r =
        ap (items x (entry_value x)) (map-append (entry_from_row x) l r)
        ∙ items-append (entry_value x) (map (entry_from_row x) l) (map (entry_from_row x) r)

    fetched :
        (n offset : ℕ)
        → length (newest x none tables) ≤ offset + n * limit
        → fetch st limit n offset (quiet t tables)
          ≡ (some (shown (drop offset (newest x none tables))), quiet t tables)
    unfolding fetch
    fetched zero offset enough =
        ap (λ l. (some l, quiet t tables))
          (sym (items-nil (entry_value x))
            ∙ ap shown (sym (drop_all offset (newest x none tables) (omega arith))))
    fetched (suc n) offset enough =
        let rows = newest x none tables in
        bind-known (ledger_list x st (page_at limit offset)) _ (quiet t tables)
          (ledger_list-quiet offset)
          (bind-known (fetch st limit n (offset + limit)) _ (quiet t tables)
            (fetched n (offset + limit) (grind arith))
            (ap (λ l. (some l, quiet t tables))
              (ap (λ l. join l (shown (drop (offset + limit) rows)))
                  (entries_of-page (listed x limit offset none tables).0
                    (listed x limit offset none tables).1)
                ∙ sym (shown-append (take limit (drop offset rows)) (drop (offset + limit) rows))
                ∙ ap shown (take-drop limit offset rows))))

    newest-all : newest x none tables ≡ reverse (order_by_id tables.ledger)
    newest-all = ap (λ l. reverse (order_by_id l)) (where_rows_all tables.ledger)

    length-newest_all : length (newest x none tables) ≡ length tables.ledger
    length-newest_all =
        ap length newest-all
        ∙ length-reverse (order_by_id tables.ledger)
        ∙ length-order_by_id tables.ledger

    -- While the database answers, a client that reads `n` pages of a limit from 1 to 500, each behind
    -- the one before, has read the whole ledger, if `n` times the limit is at least its length: the
    -- entries that verification reads, in the opposite order, each once.
    pub pages-all :
        (n : ℕ)
        → length tables.ledger ≤ n * limit
        → (entries : List (Entry Number)) × (all_ordered x (quiet t tables)
            ≡ (some entries, quiet t tables))
          × (fetch st limit n 0 (quiet t tables)
              ≡ (some (items x (entry_value x) (reverse entries)), quiet t tables))
    pages-all n enough = (
      map (entry_from_row x) (order_by_id tables.ledger),
      all_ordered-quiet t tables,
      fetched n 0 (omega (arith, length-newest_all))
          ∙ ap (λ l. (some (items x (entry_value x) l), quiet t tables))
              (ap (map (entry_from_row x)) newest-all
                ∙ map-reverse (entry_from_row x) (order_by_id tables.ledger)),
    )
