-- ===== src/Ledger/Store/Chained.antt =====
-- Appends of gate/src/ledger.rs keep the ledger table a chain that `verify_chain` accepts.
use mathlib.Core.Path.{subst}
use esclusa.Prelude.{
  ℕ, String, suc, ◌+◌, ◌<◌, true, Option, none, some, List, [], ◌∷◌, ◌++◌, map, length, last, All,
  ◌≡◌, inl, inr, refl, sym, ap, ◌∙◌, arith,
}
use mathlib.Core.List.{map-append}
use esclusa.Prelude.Int.{ℤ, pos, ◌<ℤ◌, add_one_i64, i64_max}
use esclusa.Clock.{DateTime, now_micros, now_micros-IsMicros}
use esclusa.Json.{Value}
use esclusa.External.{External, KeepsMicros}
use esclusa.Db.{Row, Tables, World}
use esclusa.Ledger.{
  NewEntry, genesis, hmac_hex, params_json, entry_canonical, normalize_params, ts_string,
  verify_chain,
}
use esclusa.Ledger.Canonical.{SameContent, entry_canonical-eq}
use esclusa.Ledger.Chain.{IsChain, seal, end_of, IsChain-append, verify_chain-valid_iff}
use esclusa.Ledger.Store.{
  head_row, order_by_id, entry_from_row, previous, next_entry, stored_row, append,
}
use esclusa.Ledger.Store.Order.{IsAscending, head_row-IsAscending, order_by_id-IsAscending}
use esclusa.Ledger.Store.Appending.{append_lem, with_row, row_at, entry_at}

-- The ids are `k`, `k + 1`, and so on.
abbrev pub IsNumbered : {N : Type 0} → ℕ → List (Row N) → Type 0
IsNumbered k [] = Unit
IsNumbered k (r ∷ rows) = (r.id ≡ pos k) × IsNumbered (suc k) rows

module _ {N : Type 0} where
  above :
      (j k : ℕ) (rows : List (Row N))
      → j < k
      → IsNumbered k rows
      → All (λ (s : Row N). pos j <ℤ s.id) rows
  above j k [] h n = tt
  above j k (r ∷ rows) h n = (ground arith, above j (suc k) rows (omega arith) n.1)

  pub IsNumbered-IsAscending : (k : ℕ) (rows : List (Row N)) → IsNumbered k rows → IsAscending rows
  IsNumbered-IsAscending k [] n = tt
  IsNumbered-IsAscending k (r ∷ rows) n = (
    subst (λ z. All (λ (s : Row N). z <ℤ s.id) rows) (sym n.0)
        (above k (suc k) rows (omega arith) n.1),
    IsNumbered-IsAscending (suc k) rows n.1,
  )

  abbrev id_or : ℤ → Option (Row N) → ℤ
  id_or z none = z
  id_or z (some r) = r.id

  id_or-last :
      (y z : ℤ) (s : Row N) (rows : List (Row N))
      → id_or y (last (s ∷ rows)) ≡ id_or z (last (s ∷ rows))
  id_or-last y z s [] = refl
  id_or-last y z s (t ∷ rows) = id_or-last y z t rows

  last_id :
      (k : ℕ) (rows : List (Row N))
      → IsNumbered (suc k) rows
      → id_or (pos k) (last rows) ≡ pos (k + length rows)
  last_id k [] n = ground arith
  last_id k (r ∷ []) n = n.0 ∙ ap pos (omega arith)
  last_id k (r ∷ s ∷ rows) n =
      id_or-last (pos k) (pos (suc k)) s rows
      ∙ last_id (suc k) (s ∷ rows) n.1
      ∙ ap pos (omega arith)

  pub IsNumbered-append :
      (k : ℕ) (rows : List (Row N)) (r : Row N)
      → IsNumbered k rows
      → r.id ≡ pos (k + length rows)
      → IsNumbered k (rows ++ r ∷ [])
  IsNumbered-append k [] r n e = (e ∙ ap pos (omega arith), tt)
  IsNumbered-append k (s ∷ rows) r n e =
      (n.0, IsNumbered-append (suc k) rows r n.1 (e ∙ ap pos (omega arith)))

module _ (x : External) (key : List ℕ) where
  open x use {Number, jsonb}

  -- What the gate alone has written: ids 1, 2, and so on, and a chain of HMACs.
  pub record IsLedger (rows : List (Row Number)) : Type 0 where
    pub numbered : IsNumbered 1 rows
    pub chained : IsChain x key genesis (map (entry_from_row x) rows)

  pub IsLedger-nil : IsLedger []
  IsLedger-nil = record { numbered = tt; chained = tt }

  -- A ledger passes verification, in the order in which `all_ordered` reads it.
  pub IsLedger-valid :
      (rows : List (Row Number))
      → IsLedger rows
      → (verify_chain x key (map (entry_from_row x) (order_by_id rows))).valid ≡ true
  IsLedger-valid rows l = (verify_chain-valid_iff x key _).1 (
      subst (λ o. IsChain x key genesis (map (entry_from_row x) o))
        (sym (order_by_id-IsAscending rows (IsNumbered-IsAscending 1 rows l.numbered))) l.chained)

  -- The `jsonb` column gives back parameters that print as the ones stored.
  abbrev pub KeepsJson : Value Number → Type 0
  KeepsJson v = params_json x (jsonb v) ≡ params_json x v

  previous-id : (o : Option (Row Number)) → (previous x o).0 ≡ id_or (pos 0) o
  previous-id none = refl
  previous-id (some r) = refl

  previous-end_of :
      (prev : String) (r : Row Number) (rows : List (Row Number))
      → (previous x (last (r ∷ rows))).1 ≡ end_of x key prev (map (entry_from_row x) (r ∷ rows))
  unfolding entry_from_row
  previous-end_of prev r [] = refl
  previous-end_of prev r (s ∷ rows) = previous-end_of r.hmac s rows

  previous_hmac :
      (rows : List (Row Number))
      → (previous x (last rows)).1 ≡ end_of x key genesis (map (entry_from_row x) rows)
  previous_hmac [] = refl
  previous_hmac (r ∷ rows) = previous-end_of genesis r rows

  add_one_below : (n : ℕ) → n < i64_max → add_one_i64 (pos n) ≡ pos (suc n)
  unfolding add_one_i64
  add_one_below n h = ground arith

  module _ (micros : KeepsMicros x) (new : NewEntry Number) (t : DateTime)
      (tables : Tables Number) where
    -- What is read back of a stored row is what was signed.
    read_back :
        KeepsJson (normalize_params x new.params)
        → SameContent x (entry_from_row x (row_at x key new tables t)) (entry_at x key new tables t)
    unfolding entry_from_row stored_row next_entry ts_string
    read_back kept = record {
      id = refl;
      ts = ap x.rfc3339_micros (micros.exact (now_micros t) (now_micros-IsMicros t));
      kind = refl;
      actor = refl;
      action = refl;
      target = refl;
      decision = refl;
      reason = refl;
      policy = refl;
      params = kept;
      authenticated = refl;
      prev_hmac = refl;
    }

    row_id : (row_at x key new tables t).id ≡ add_one_i64 (previous x (head_row tables.ledger)).0
    unfolding stored_row next_entry
    row_id = refl

    row_link :
        (entry_from_row x (row_at x key new tables t)).prev_hmac
        ≡ (previous x (head_row tables.ledger)).1
    unfolding entry_from_row stored_row next_entry
    row_link = refl

    pub entry_sealed : seal x key (entry_at x key new tables t) ≡ (entry_at x key new tables t).hmac
    unfolding next_entry entry_canonical
    entry_sealed = refl

    pub row_hmac :
        (entry_at x key new tables t).hmac ≡ (entry_from_row x (row_at x key new tables t)).hmac
    unfolding entry_from_row stored_row
    row_hmac = refl

    pub row_params :
        (entry_from_row x (row_at x key new tables t)).params
        ≡ jsonb (normalize_params x new.params)
    unfolding entry_from_row stored_row next_entry
    row_params = refl

    pub entry_params : (entry_at x key new tables t).params ≡ normalize_params x new.params
    unfolding next_entry
    entry_params = refl

    row_sealed :
        KeepsJson (normalize_params x new.params)
        → seal x key (entry_from_row x (row_at x key new tables t))
          ≡ (entry_from_row x (row_at x key new tables t)).hmac
    row_sealed kept =
        ap (hmac_hex x key) (entry_canonical-eq x _ _ (read_back kept)) ∙ entry_sealed ∙ row_hmac

    pub next_number :
        IsLedger tables.ledger
        → length tables.ledger < i64_max
        → (row_at x key new tables t).id ≡ pos (1 + length tables.ledger)
    next_number l room =
        row_id
        ∙ ap (λ o. add_one_i64 (previous x o).0)
            (head_row-IsAscending tables.ledger (IsNumbered-IsAscending 1 tables.ledger l.numbered))
        ∙ ap add_one_i64 (previous-id (last tables.ledger) ∙ last_id 0 tables.ledger l.numbered)
        ∙ add_one_below (0 + length tables.ledger) (omega arith)
        ∙ ap pos (omega arith)

    linked :
        IsLedger tables.ledger
        → (entry_from_row x (row_at x key new tables t)).prev_hmac
          ≡ end_of x key genesis (map (entry_from_row x) tables.ledger)
    linked l =
        row_link
        ∙ ap (λ o. (previous x o).1)
            (head_row-IsAscending tables.ledger (IsNumbered-IsAscending 1 tables.ledger l.numbered))
        ∙ previous_hmac tables.ledger

    pub with_row-IsLedger :
        KeepsJson (normalize_params x new.params)
        → IsLedger tables.ledger
        → length tables.ledger < i64_max
        → IsLedger (with_row x tables (row_at x key new tables t)).ledger
    with_row-IsLedger kept l room = record {
      numbered = IsNumbered-append 1 tables.ledger _ l.numbered (next_number l room);
      chained =
          subst (IsChain x key genesis)
            (sym (map-append (entry_from_row x) tables.ledger (row_at x key new tables t ∷ [])))
            ((IsChain-append x key genesis (map (entry_from_row x) tables.ledger) _).1
              (l.chained, (linked l, row_sealed kept, tt)));
    }

  -- Whatever becomes of its statements, an append to a ledger of the gate's own leaves one, with ids
  -- 1, 2, and so on, and an unbroken chain, as long as `timestamptz` keeps whole microseconds, the
  -- `jsonb` column gives the parameters back as they were signed, and an id is left.
  pub append-IsLedger :
      KeepsMicros x
      → (new : NewEntry Number) (w : World Number) → KeepsJson (normalize_params x new.params)
      → IsLedger w.tables.ledger
      → length w.tables.ledger < i64_max
      → IsLedger (append x key new w).1.tables.ledger
  append-IsLedger micros new w kept l room = elim (append_lem x key new w) [
    | inl (_, same) ↦ subst (λ (u : Tables Number). IsLedger u.ledger) (sym same) l
    | inr (t, stored, _) ↦
        subst (λ (u : Tables Number). IsLedger u.ledger) (sym stored)
          (with_row-IsLedger micros new t w.tables kept l room)
  ]
