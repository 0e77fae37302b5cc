-- ===== src/Ledger/Store/Order.antt =====
-- The ledger table keeps ascending ids, so that the SQL orders are the order of insertion.
use esclusa.Prelude.{
  some, List, [], ◌∷◌, ◌++◌, All, All-append, last, ◌≡◌, refl, ap, sym, ◌∙◌, arith,
}
use esclusa.Prelude.Int.{ℤ, ◌<ℤ◌}
use esclusa.Db.{Row}
use esclusa.Ledger.Store.{insert_by_id, order_by_id, head_row}

module _ {N : Type 0} where
  -- Every later row has a larger id.
  abbrev pub IsAscending : List (Row N) → Type 0
  IsAscending [] = Unit
  IsAscending (r ∷ rows) = All (λ (s : Row N). r.id <ℤ s.id) rows × IsAscending rows

  insert_by_id-first :
      (r : Row N) (rows : List (Row N))
      → All (λ (s : Row N). r.id <ℤ s.id) rows
      → insert_by_id r rows ≡ r ∷ rows
  unfolding insert_by_id
  insert_by_id-first r [] h = refl
  insert_by_id-first r (s ∷ rows) h = ground arith

  order_by_id-nil : order_by_id {N = N} [] ≡ []
  unfolding order_by_id
  order_by_id-nil = refl

  order_by_id-cons :
      (r : Row N) (rows : List (Row N)) → order_by_id (r ∷ rows) ≡ insert_by_id r (order_by_id rows)
  unfolding order_by_id
  order_by_id-cons r rows = refl

  pub order_by_id-IsAscending : (rows : List (Row N)) → IsAscending rows → order_by_id rows ≡ rows
  order_by_id-IsAscending [] h = order_by_id-nil
  order_by_id-IsAscending (r ∷ rows) h =
      order_by_id-cons r rows
      ∙ ap (insert_by_id r) (order_by_id-IsAscending rows h.1)
      ∙ insert_by_id-first r rows h.0

  last_of_All :
      {P : Row N → Type 0} (s : Row N) (rows : List (Row N))
      → All P (s ∷ rows)
      → (m : Row N) × (last (s ∷ rows) ≡ some m) × P m
  last_of_All s [] h = (s, refl, h.0)
  last_of_All s (t ∷ rows) h = last_of_All t rows h.1

  head_row-cons :
      (r m : Row N) (rows : List (Row N))
      → head_row rows ≡ some m
      → r.id <ℤ m.id
      → head_row (r ∷ rows) ≡ some m
  unfolding head_row
  head_row-cons r m rows e h = ground arith

  pub head_row-IsAscending : (rows : List (Row N)) → IsAscending rows → head_row rows ≡ last rows
  head_row-IsAscending [] h = unfold head_row in refl
  head_row-IsAscending (r ∷ []) h = unfold head_row in refl
  head_row-IsAscending (r ∷ s ∷ rows) h =
      let (m, e, lt) = last_of_All {P = λ t. r.id <ℤ t.id} s rows h.0 in
      head_row-cons r m (s ∷ rows) (head_row-IsAscending (s ∷ rows) h.1 ∙ e) lt ∙ sym e

  -- The last id is the largest.
  pub All-below_last :
      (rows : List (Row N)) (m : Row N)
      → IsAscending rows
      → last rows ≡ some m
      → (z : ℤ) → m.id <ℤ z
      → All (λ (s : Row N). s.id <ℤ z) rows
  All-below_last [] m h e z lt = tt
  All-below_last (r ∷ []) m h e z lt = ground arith
  All-below_last (r ∷ s ∷ rows) m h e z lt =
      let below = All-below_last (s ∷ rows) m h.1 e z lt in (ground (arith, h.0.0, below.0), below)

  pub IsAscending-append :
      (rows : List (Row N)) (r : Row N)
      → IsAscending rows
      → All (λ (s : Row N). s.id <ℤ r.id) rows
      → IsAscending (rows ++ r ∷ [])
  IsAscending-append [] r h k = (tt, tt)
  IsAscending-append (s ∷ rows) r h k = (
    All-append (λ (t : Row N). s.id <ℤ t.id) rows (r ∷ []) h.0 (k.0, tt),
    IsAscending-append rows r h.1 k.1,
  )
