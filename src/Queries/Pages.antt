-- ===== src/Queries/Pages.antt =====
-- `GET /v1/ledger` and `GET /v1/drift` of gate/src/http.rs: what a page holds.
use mathlib.Core.List.{Memᴰ, reverse}
use esclusa.Prelude.{
  some_injective, ℕ, ◌+◌, ◌≤◌, String, Bool, true, false, Option, none, some, List, [], ◌∷◌, map,
  length, take, drop, where_rows, All, if◌then◌else◌, ◌≡◌, ◌⊎◌, inl, inr, refl, ap, ◌∙◌, arith,
}
use esclusa.Prelude.Int.{leb_ℤ}
use esclusa.Prelude.Slices.{
  length-take, take-drop-full, length-take-le, length-reverse, All-take, All-drop, All-reverse,
  All-where_rows,
}
use esclusa.External.{External}
use esclusa.Db.{Row, Tables, World}
use esclusa.Db.Statements.{query-bind, attempt-bind}
use esclusa.Ledger.{Entry}
use esclusa.Ledger.Store.{insert_by_id, order_by_id, entry_from_row, of_kinds, list}
use esclusa.Http.{AppState, Response, unavailable}
use esclusa.Http.Reading.{Read}
use esclusa.Queries.{Page, limit_of, offset_of, page_reply, read_page, ledger_list, drift}

module _ {N : Type 0} where
  length-insert_by_id :
      (r : Row N) (rows : List (Row N)) → length (insert_by_id r rows) ≡ 1 + length rows
  unfolding insert_by_id
  length-insert_by_id r [] = refl
  length-insert_by_id r (s ∷ rows) = ground (arith, length-insert_by_id r rows)

  pub length-order_by_id : (rows : List (Row N)) → length (order_by_id rows) ≡ length rows
  unfolding order_by_id
  length-order_by_id [] = refl
  length-order_by_id (r ∷ rows) =
      omega (arith, length-insert_by_id r (order_by_id rows), length-order_by_id rows)

  module _ (P : Row N → Type 0) where
    All-insert_by_id :
        (r : Row N) (rows : List (Row N)) → P r → All P rows → All P (insert_by_id r rows)
    unfolding insert_by_id
    All-insert_by_id r [] p h = (p, tt)
    All-insert_by_id r (s ∷ rows) p h = by_test (leb_ℤ r.id s.id) (All-insert_by_id r rows p h.1)
      where
        by_test :
            (b : Bool)
            → All P (insert_by_id r rows)
            → All P (if b then r ∷ s ∷ rows else s ∷ insert_by_id r rows)
        by_test true rest = (p, h)
        by_test false rest = (h.0, rest)

    All-order_by_id : (rows : List (Row N)) → All P rows → All P (order_by_id rows)
    unfolding order_by_id
    All-order_by_id [] h = tt
    All-order_by_id (r ∷ rows) h =
        All-insert_by_id r (order_by_id rows) h.0 (All-order_by_id rows h.1)

module _ (x : External) where
  open x use {Number}

  -- The rows of a kind, newest first, and the page of them.
  abbrev pub newest : Option (List String) → Tables Number → List (Row Number)
  newest kinds tables = reverse (order_by_id (where_rows (of_kinds x kinds) tables.ledger))

  abbrev pub page_rows : ℕ → ℕ → Option (List String) → Tables Number → List (Row Number)
  page_rows limit offset kinds tables = take limit (drop offset (newest kinds tables))

  abbrev pub listed : ℕ → ℕ → Option (List String) → Tables Number → List (Entry Number) × ℕ
  listed limit offset kinds tables = (
    map (entry_from_row x) (page_rows limit offset kinds tables),
    length (where_rows (of_kinds x kinds) tables.ledger),
  )

  list_lem :
      (limit offset : ℕ) (kinds : Option (List String)) (w : World Number)
      → Read (listed limit offset kinds w.tables) w.tables (list x limit offset kinds w)
  unfolding list
  list_lem limit offset kinds w =
      query-bind _ (Read (listed limit offset kinds w.tables) w.tables) _ w (λ w1 e. (inl refl, e))
        λ w1 e.
          query-bind _ (Read (listed limit offset kinds w.tables) w.tables) _ w1
            (λ w2 e2. (inl refl, e2 ∙ e))
            λ w2 e2. (
              inr (
                  ap
                    (λ (u : Tables Number). some (
                      map (entry_from_row x) (page_rows limit offset kinds w.tables),
                      length (where_rows (of_kinds x kinds) u.ledger),
                    ))
                    e),
              e2 ∙ e,
            )

  length-newest :
      (kinds : Option (List String)) (tables : Tables Number)
      → length (newest kinds tables) ≡ length (where_rows (of_kinds x kinds) tables.ledger)
  length-newest kinds tables =
      length-reverse (order_by_id (where_rows (of_kinds x kinds) tables.ledger))
      ∙ length-order_by_id (where_rows (of_kinds x kinds) tables.ledger)

  -- A page: rows of the ledger of the kinds, at most as many as asked for and at most 500, either as
  -- many as asked for or up to the oldest, with the number of all of them.
  pub record IsPage (page : Page) (kinds : Option (List String)) (tables : Tables Number)
      (reply : Response Number) : Type 0 where
    pub rows : List (Row Number)
    pub total : ℕ
    pub told : reply ≡ page_reply x (some (map (entry_from_row x) rows, total))
    pub counted : total ≡ length (where_rows (of_kinds x kinds) tables.ledger)
    pub members : All (λ (r : Row Number). Memᴰ r tables.ledger × (of_kinds x kinds r ≡ true)) rows
    pub asked : length rows ≤ limit_of page
    pub bounded : length rows ≤ 500
    pub below : length rows ≤ total
    pub full : (length rows ≡ limit_of page) ⊎ (total ≤ offset_of page + length rows)

  pub limit_bounds : (page : Page) → (1 ≤ limit_of page) × (limit_of page ≤ 500)
  unfolding limit_of
  limit_bounds page = ground arith

  page_lem :
      (page : Page) (kinds : Option (List String)) (tables : Tables Number)
      → IsPage page kinds tables
          (page_reply x (some (listed (limit_of page) (offset_of page) kinds tables)))
  page_lem page kinds tables =
      let all = newest kinds tables in
      let limit = limit_of page in
      let offset = offset_of page in
      let Member : Row Number → Type 0 = λ r. Memᴰ r tables.ledger × (of_kinds x kinds r ≡ true) in
      record {
        rows = page_rows limit offset kinds tables;
        total = length (where_rows (of_kinds x kinds) tables.ledger);
        told = refl;
        counted = refl;
        members = All-take Member limit (drop offset all) (
            All-drop Member offset all (
              All-reverse Member _ (
                All-order_by_id Member _
                  (All-where_rows Member (of_kinds x kinds) tables.ledger (λ a m e. (m, e))))));
        asked = length-take limit (drop offset all);
        bounded = omega (arith, length-take limit (drop offset all), (limit_bounds page).1);
        below = omega (arith, length-take-le limit offset all, length-newest kinds tables);
        full = elim (take-drop-full limit offset all) [
          | inl e ↦ inl e
          | inr h ↦ inr (omega (arith, length-newest kinds tables))
        ];
      }

  -- A page or 503, and nothing is written.
  abbrev pub AnswersPage :
      Page → Option (List String) → Tables Number → Option (Response Number) × World Number → Type 0
  AnswersPage page kinds tables (r, w') =
      (reply : Response Number) × (r ≡ some reply)
      × ((reply ≡ unavailable x) ⊎ IsPage page kinds tables reply)
      × (w'.tables ≡ tables)

  read_page_lem :
      (connected : Bool) (page : Page) (kinds : Option (List String)) (w : World Number)
      → AnswersPage page kinds w.tables (read_page x connected page kinds w)
  read_page_lem false page kinds w = (_, refl, inl refl, refl)
  read_page_lem true page kinds w =
      attempt-bind _ (AnswersPage page kinds w.tables)
        (list x (limit_of page) (offset_of page) kinds) w
        (by_result _ (list x (limit_of page) (offset_of page) kinds w).1
          (list_lem (limit_of page) (offset_of page) kinds w))
    where
      by_result :
          (r : Option (List (Entry Number) × ℕ)) (w' : World Number)
          → Read (listed (limit_of page) (offset_of page) kinds w.tables) w.tables (r, w')
          → AnswersPage page kinds w.tables (some (page_reply x r), w')
      by_result none w' (_, same) = (_, refl, inl refl, same)
      by_result (some found) w' (inl e, same) = cc
      by_result (some found) w' (inr e, same) =
          rw (some_injective e) (_, refl, inr (page_lem page kinds w.tables), same)

  -- Whatever limit and offset are asked for and whatever becomes of the statements, `GET /v1/ledger`
  -- and `GET /v1/drift` write nothing and answer 503 or a page: rows of the ledger, on the drift page
  -- only of the kinds drift and audit, at most 500 and at most the limit clamped to 1 and 500, either
  -- that many or up to the oldest, with the number of all such rows.
  pub pages-bounded :
      (st : AppState) (page : Page) (w : World Number)
      → AnswersPage page none w.tables (ledger_list x st page w)
        × AnswersPage page (some ("drift" ∷ "audit" ∷ [])) w.tables (drift x st page w)
        × (1 ≤ limit_of page)
        × (limit_of page ≤ 500)
  unfolding ledger_list drift
  pages-bounded st page w = (
    read_page_lem st.connected page none w,
    read_page_lem st.connected page (some ("drift" ∷ "audit" ∷ [])) w,
    (limit_bounds page).0,
    (limit_bounds page).1,
  )
