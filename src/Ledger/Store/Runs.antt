-- ===== src/Ledger/Store/Runs.antt =====
-- Whole runs of appends, and what a `jsonb` column that rewrites numbers does to the chain.
use mathlib.Core.Path.{subst}
use mathlib.Core.List.{map-append}
use esclusa.Prelude.{
  ℕ, suc, ◌+◌, ◌<◌, ◌≤◌, true, some, List, [], ◌∷◌, ◌++◌, map, length, All, length-append, ◌≡◌, ◌≢◌,
  ◌⊎◌, inl, inr, refl, sym, ap, ◌∙◌, arith,
}
use esclusa.Prelude.Int.{i64_max}
use esclusa.Clock.{DateTime}
use esclusa.External.{External, KeepsMicros}
use esclusa.Db.{Tables, World}
use esclusa.Ledger.{NewEntry, genesis, params_json, normalize_params, verify_chain}
use esclusa.Ledger.Chain.{end_of, fits_or_Breaks, verify_chain-broken_iff}
use esclusa.Ledger.Tamper.{Collision, same_or_collision}
use esclusa.Ledger.Store.{order_by_id, entry_from_row, append}
use esclusa.Ledger.Store.Order.{order_by_id-IsAscending}
use esclusa.Ledger.Store.Appending.{append_lem, with_row, row_at, entry_at}
use esclusa.Ledger.Store.Chained.{
  IsLedger, IsLedger-nil, IsLedger-valid, KeepsJson, append-IsLedger, entry_sealed, row_hmac,
  IsNumbered-IsAscending, IsNumbered-append, next_number, row_params, entry_params,
}

module _ (x : External) (key : List ℕ) where
  open x use {Number, jsonb}

  -- Appends one after the other, each whether or not the one before it failed.
  abbrev pub appends : List (NewEntry Number) → World Number → World Number
  appends [] w = w
  appends (new ∷ rest) w = appends rest (append x key new w).1

  length-append_row :
      (new : NewEntry Number) (w : World Number)
      → length (append x key new w).1.tables.ledger ≤ suc (length w.tables.ledger)
  length-append_row new w = elim (append_lem x key new w) [
    | inl (_, same) ↦
        subst (λ (u : Tables Number). length u.ledger ≤ suc (length w.tables.ledger)) (sym same)
          (omega arith)
    | inr (t, stored, _) ↦
        subst (λ (u : Tables Number). length u.ledger ≤ suc (length w.tables.ledger)) (sym stored)
          (omega (arith, length-append w.tables.ledger (row_at x key new w.tables t ∷ [])))
  ]

  appends-IsLedger :
      KeepsMicros x
      → (news : List (NewEntry Number)) (w : World Number)
      → All (λ (new : NewEntry Number). KeepsJson x key (normalize_params x new.params)) news
      → IsLedger x key w.tables.ledger
      → length w.tables.ledger + length news ≤ i64_max
      → IsLedger x key (appends news w).tables.ledger
  appends-IsLedger micros [] w kept l room = l
  appends-IsLedger micros (new ∷ rest) w kept l room =
      appends-IsLedger micros rest (append x key new w).1 kept.1
        (append-IsLedger x key micros new w kept.0 l (omega arith))
        (omega (arith, length-append_row new w))

  -- Whatever entries are appended to an empty ledger, up to the largest id, and whichever statements
  -- fail or lose their reply on the way, the ledger passes verification, as long as `timestamptz` keeps
  -- whole microseconds and the `jsonb` column gives the parameters back as they were signed.
  pub appends-valid :
      KeepsMicros x
      → (news : List (NewEntry Number)) (w : World Number) → w.tables.ledger ≡ []
      → All (λ (new : NewEntry Number). KeepsJson x key (normalize_params x new.params)) news
      → length news ≤ i64_max
      → (verify_chain x key
          (map (entry_from_row x) (order_by_id (appends news w).tables.ledger))).valid
        ≡ true
  appends-valid micros news w empty kept room = IsLedger-valid x key _ (
      appends-IsLedger micros news w kept (subst (IsLedger x key) (sym empty) (IsLedger-nil x key))
        (rw empty (omega arith)))

  -- If the `jsonb` column gives the parameters back in another form than the one that was signed, then
  -- the row that `append` stores behind a ledger of the gate's own is the one that verification names,
  -- or two texts share an HMAC, as long as `timestamptz` keeps whole microseconds and an id is left.
  pub rewritten_params_break :
      KeepsMicros x
      → (new : NewEntry Number) (tables : Tables Number) (t : DateTime)
      → IsLedger x key tables.ledger
      → length tables.ledger < i64_max
      → params_json x (jsonb (normalize_params x new.params))
        ≢ params_json x (normalize_params x new.params)
      → let rows = (with_row x tables (row_at x key new tables t)).ledger in
        ((verify_chain x key (map (entry_from_row x) (order_by_id rows))).broken_at
          ≡ some (row_at x key new tables t).id)
        ⊎ Collision x key
  rewritten_params_break micros new tables t l room changed =
      let row = row_at x key new tables t in
      let ascending = IsNumbered-IsAscending 1 _ (
        IsNumbered-append 1 tables.ledger row l.numbered
          (next_number x key micros new t tables l room)) in
      rw
        (
          order_by_id-IsAscending (tables.ledger ++ row ∷ []) ascending,
          map-append (entry_from_row x) tables.ledger (row ∷ []),
        )
        (elim (fits_or_Breaks x key (end_of x key genesis (map (entry_from_row x) tables.ledger))
          (entry_from_row x row)) [
            | inl (_, q) ↦
                elim (same_or_collision x key (entry_from_row x row) (entry_at x key new tables t) (
                  q
                  ∙ sym (row_hmac x key micros new t tables)
                  ∙ sym (entry_sealed x key micros new t tables))) [
                    | inl s ↦ absurd (
                        changed (
                          ap (params_json x) (sym (row_params x key micros new t tables))
                          ∙ s.params
                          ∙ ap (params_json x) (entry_params x key micros new t tables)))
                    | inr c ↦ inr c
                  ]
            | inr b ↦ inl (
                (verify_chain-broken_iff x key _ row.id).1 (record {
                  before = map (entry_from_row x) tables.ledger;
                  entry = entry_from_row x row;
                  after = [];
                  split = refl;
                  intact = l.chained;
                  breaks = b;
                  named = unfold entry_from_row in refl;
                }))
          ])
