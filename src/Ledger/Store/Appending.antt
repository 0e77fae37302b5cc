-- ===== src/Ledger/Store/Appending.antt =====
-- What `append` of gate/src/ledger.rs does to the tables, whatever becomes of its statements.
use esclusa.Prelude.{
  ℕ, Bool, true, false, if◌then◌else◌, Option, none, some, List, [], ◌∷◌, ◌++◌, ◌≡◌, ◌⊎◌, inl, inr,
  refl, sym, ap, ap₂, ◌∙◌, any,
}
use esclusa.Prelude.Int.{eqb_ℤ}
use esclusa.Clock.{DateTime, now_micros}
use esclusa.External.{External}
use esclusa.Db.{Row, Tables, World, some_pair}
use esclusa.Db.Statements.{perform-bind, query-bind, now-bind}
use esclusa.Ledger.{Entry, NewEntry}
use esclusa.Ledger.Store.{head_row, next_entry, stored_row, append, insert_row}

module _ (x : External) where
  open x use {Number}

  abbrev pub with_row : Tables Number → Row Number → Tables Number
  with_row tables row = record tables { ledger = tables.ledger ++ row ∷ [] }

  -- The entry behind the ledger that `append` met, at the time `t`.
  abbrev pub entry_at : List ℕ → NewEntry Number → Tables Number → DateTime → Entry Number
  entry_at key new tables t = next_entry x key new (head_row tables.ledger) (now_micros t)

  abbrev pub row_at : List ℕ → NewEntry Number → Tables Number → DateTime → Row Number
  row_at key new tables t = stored_row x (entry_at key new tables t) (now_micros t)

  -- Either nothing is stored, and the caller sees an error, or one row is stored behind the ledger,
  -- and the caller has its entry or, if the reply to the commit was lost, an error.
  abbrev pub Appended :
      List ℕ → NewEntry Number → Tables Number → Option (Entry Number) × World Number → Type 0
  Appended key new tables (r, w') =
      ((r ≡ none) × (w'.tables ≡ tables))
      ⊎ ((t : DateTime) × (w'.tables ≡ with_row tables (row_at key new tables t))
          × ((r ≡ none) ⊎ (r ≡ some (entry_at key new tables t))))

  guarded :
      (u v : Tables Number) (taken : Bool) {a : Unit {0}}
      → if◌then◌else◌ {A = Option (Unit {0} × Tables Number)} taken none (some (tt, u))
        ≡ some (a, v)
      → v ≡ u
  guarded u v true h = cc
  guarded u v false h = sym (some_pair h).1

  insert_row-keeps :
      (row : Row Number) (u v : Tables Number) {a : Unit {0}}
      → insert_row x row u ≡ some (a, v)
      → v ≡ u
  insert_row-keeps row u v h = guarded u v (any (λ r. eqb_ℤ r.id row.id) u.ledger) h

  -- Whichever statements fail, `append` stores nothing and returns an error, or stores exactly one row
  -- behind the ledger, made of the row with the largest id and the time, and returns its entry or, if
  -- the reply to the commit is lost, an error.
  pub append_lem :
      (key : List ℕ) (new : NewEntry Number) (w : World Number)
      → Appended key new w.tables (append x key new w)
  unfolding append
  append_lem key new w =
      query-bind _ Q _ w (λ w1 e1. inl (refl, e1))
        λ w1 e1.
          query-bind _ Q _ w1 (λ w2 e2. inl (refl, e2 ∙ e1))
            λ w2 e2.
              query-bind _ Q _ w2 (λ w3 e3. inl (refl, e3 ∙ e2 ∙ e1))
                λ w3 e3. now-bind Q _ w3 (
                  perform-bind _ Q _ w3 (λ w4 e4. inl (refl, e4 ∙ e3 ∙ e2 ∙ e1))
                    (λ w4 _ i. inl (
                      refl,
                      insert_row-keeps (row_at key new w2.tables w3.clock) w3.tables w4.tables i
                          ∙ e3
                          ∙ e2
                          ∙ e1,
                    ))
                    λ w4 _ i.
                      let e4 =
                        insert_row-keeps (row_at key new w2.tables w3.clock) w3.tables w4.tables i
                        ∙ e3
                        ∙ e2
                        ∙ e1 in
                      perform-bind _ Q _ w4 (λ w5 e5. inl (refl, e5 ∙ e4))
                        (λ w5 _ c.
                          inr (w3.clock, stored w2 w4 w5 (e2 ∙ e1) e4 w3.clock c, inl refl))
                        λ w5 _ c. inr (
                          w3.clock,
                          stored w2 w4 w5 (e2 ∙ e1) e4 w3.clock c,
                          inr (
                              ap (λ (u : Tables Number). some (entry_at key new u w3.clock))
                                (e2 ∙ e1)),
                        ))
    where
      Q : Option (Entry Number) × World Number → Type 0
      Q = Appended key new w.tables

      stored :
          (u v v' : World Number)
          → u.tables ≡ w.tables
          → v.tables ≡ w.tables
          → (t : DateTime) → {a : Unit {0}}
          → ◌≡◌ {A = Option (Unit {0} × Tables Number)}
              (some (tt, with_row v.tables (row_at key new u.tables t)))
              (some (a, v'.tables))
          → v'.tables ≡ with_row w.tables (row_at key new w.tables t)
      stored u v v' eu ev t c =
          sym (some_pair c).1 ∙ ap₂ (λ p q. with_row p (row_at key new q t)) ev eu
