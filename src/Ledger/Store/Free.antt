-- ===== src/Ledger/Store/Free.antt =====
-- `append` of gate/src/ledger.rs while the database answers: the next id is free, so it succeeds.
use esclusa.Prelude.{
  ℕ, suc, ◌+◌, ◌<◌, false, ◌||◌, Option, some, List, [], ◌∷◌, any, length, ◌≡◌, refl, ap, ap₂, ◌∙◌,
  arith,
}
use esclusa.Prelude.Int.{pos, eqb_ℤ, i64_max}
use esclusa.Clock.{DateTime}
use esclusa.External.{External, KeepsMicros}
use esclusa.Db.{Row, Tables, World}
use esclusa.Db.Statements.{now-bind}
use esclusa.Db.Quiet.{quiet, quiet-perform, quiet-query}
use esclusa.Ledger.{Entry, NewEntry}
use esclusa.Ledger.Store.{append}
use esclusa.Ledger.Store.Appending.{with_row, row_at, entry_at}
use esclusa.Ledger.Store.Chained.{IsLedger, IsNumbered, next_number}

fresh_id :
    {N : Type 0} (k : ℕ) (rows : List (Row N))
    → IsNumbered k rows
    → any (λ r. eqb_ℤ r.id (pos (k + length rows))) rows ≡ false
fresh_id k [] n = refl
fresh_id {N} k (r ∷ rows) n =
    ap₂ ◌||◌ (ap (λ z. eqb_ℤ z (pos (k + suc (length rows)))) n.0 ∙ later k (length rows)) (
      ap (λ m. any (λ (s : Row N). eqb_ℤ s.id (pos m)) rows) (shift k (length rows))
      ∙ fresh_id (suc k) rows n.1)
  where
    later : (k m : ℕ) → eqb_ℤ (pos k) (pos (k + suc m)) ≡ false
    later k m = ground arith

    shift : (k m : ℕ) → k + suc m ≡ suc k + m
    shift k m = omega arith

module _ (x : External) (key : List ℕ) where
  open x use {Number}

  -- No row has the id of the row that is appended.
  abbrev pub IsFree : NewEntry Number → DateTime → Tables Number → Type 0
  IsFree new t tables = any (λ r. eqb_ℤ r.id (row_at x key new tables t).id) tables.ledger ≡ false

  pub append-free :
      (new : NewEntry Number) (t : DateTime) (tables : Tables Number)
      → IsFree new t tables
      → append x key new (quiet t tables) ≡ (
        some (entry_at x key new tables t),
        quiet t (with_row x tables (row_at x key new tables t)),
      )
  unfolding append
  append-free new t tables free = quiet-query Q t tables _ _ (
      quiet-query Q t tables _ _ (
        quiet-query Q t tables _ _ (
          now-bind Q _ (quiet t tables) (
            quiet-perform Q t tables _ _ tt tables (rw free refl) (
              quiet-perform Q t tables _ _ tt (with_row x tables (row_at x key new tables t)) refl
                refl)))))
    where
      Q : Option (Entry Number) × World Number → Type 0
      Q p = p ≡ (
        some (entry_at x key new tables t),
        quiet t (with_row x tables (row_at x key new tables t)),
      )

  -- Behind a ledger the next id is free.
  pub IsLedger-IsFree :
      KeepsMicros x
      → (new : NewEntry Number) (t : DateTime) (tables : Tables Number)
      → IsLedger x key tables.ledger
      → length tables.ledger < i64_max
      → IsFree new t tables
  IsLedger-IsFree micros new t tables l room =
      ap (λ z. any (λ (r : Row Number). eqb_ℤ r.id z) tables.ledger)
        (next_number x key micros new t tables l room)
      ∙ fresh_id 1 tables.ledger l.numbered

  -- While the database answers, an append to a ledger of the gate's own with an id left succeeds: the
  -- entry is returned and its row is stored, if `timestamptz` keeps whole microseconds.
  pub append-quiet :
      KeepsMicros x
      → (new : NewEntry Number) (t : DateTime) (tables : Tables Number)
      → IsLedger x key tables.ledger
      → length tables.ledger < i64_max
      → append x key new (quiet t tables) ≡ (
        some (entry_at x key new tables t),
        quiet t (with_row x tables (row_at x key new tables t)),
      )
  append-quiet micros new t tables l room =
      append-free new t tables (IsLedger-IsFree micros new t tables l room)
