-- ===== src/Db/Spending.antt =====
-- Reads that use up awaits: one that fails has met an await that failed it.
use mathlib.Core.Path.{subst}
use esclusa.Prelude.{
  some_injective, ℕ, ◌+◌, ◌≤◌, ◌<◌, Option, none, some, List, [], ◌∷◌, length, ◌≡◌, ◌⊎◌, inl, inr,
  refl, sym, arith,
}
use esclusa.Clock.{DateTime}
use esclusa.Db.{
  Tables, World, Exec, Await, Outcome, done, failed, lost, settle, arrive, perform, query, ◌>>=◌,
}

module _ {N : Type 0} where
  -- The result is `a`, or an error that has used up one of the `n` awaits; the tables are untouched.
  abbrev pub Reads : {A : Type 0} → ℕ → A → Tables N → Option A × World N → Type 0
  Reads n a before (r, w') =
      (((r ≡ none) × (length w'.awaits < n)) ⊎ ((r ≡ some a) × (length w'.awaits ≤ n)))
      × (w'.tables ≡ before)

  -- A statement that is no error of the database's own takes effect or uses up an await.
  abbrev pub Ends : {A : Type 0} → World N → A → Tables N → Option A × World N → Type 0
  Ends w a after (r, w') =
      ((r ≡ none) × (length w'.awaits < length w.awaits) × (w'.tables ≡ w.tables))
      ⊎ ((r ≡ none) × (length w'.awaits < length w.awaits) × (w'.tables ≡ after))
      ⊎ ((r ≡ some a) × (length w'.awaits ≤ length w.awaits) × (w'.tables ≡ after))

  module _ {A : Type 0} (f : DateTime → Tables N → A × Tables N) where
    settled :
        (o : Outcome) (w u : World N) (r : A × Tables N)
        → length u.awaits < length w.awaits
        → u.tables ≡ w.tables
        → Ends w r.0 r.1 (settle o (some r) u)
    settled failed w u r spent same = inl (refl, spent, same)
    settled done w u r spent same = inr (inr (refl, omega arith, refl))
    settled lost w u r spent same = inr (inl (refl, spent, refl))

    arrived :
        (l : List Await) (w : World N)
        → w.awaits ≡ l
        → (t : DateTime) × Ends w
            (f t w.tables).0
            (f t w.tables).1
            (let (o, u) = arrive l w in settle o (some (f u.clock u.tables)) u)
    arrived [] w e = (w.clock, inr (inr (refl, omega arith, refl)))
    arrived (a ∷ rest) w e = (
      w.clock + a.elapsed,
      settled a.outcome w (record w { clock = w.clock + a.elapsed; awaits = rest })
          (f (w.clock + a.elapsed) w.tables)
          (subst (λ l. length rest < length l) (sym e) (omega arith)) refl,
    )

    pub perform-Ends :
        (w : World N)
        → (t : DateTime) × Ends w
            (f t w.tables).0
            (f t w.tables).1
            (perform (λ t tables. some (f t tables)) w)
    unfolding perform
    perform-Ends w = arrived w.awaits w refl

  pub query-Reads :
      {A : Type 0} (g : DateTime → Tables N → A) (w : World N)
      → (t : DateTime) × Reads (length w.awaits) (g t w.tables) w.tables (query g w)
  unfolding query
  query-Reads g w =
      let (t, ends) = perform-Ends (λ t tables. (g t tables, tables)) w in
      (
        t,
        elim ends [
          | inl (none_e, spent, same) ↦ (inl (none_e, spent), same)
          | inr (inl (none_e, spent, same)) ↦ (inl (none_e, spent), same)
          | inr (inr (some_e, left, same)) ↦ (inr (some_e, left), same)
        ],
      )

  module _ {A B : Type 0} (k : A → Exec N B) where
    -- What holds of a handler behind a read: with the read's result, or with its error.
    pub Reads-bind :
        (Q : Option B × World N → Type 0) (m : Exec N A) (w : World N) (n : ℕ) (a : A)
        (before : Tables N)
        → Reads n a before (m w)
        → ((w' : World N) → length w'.awaits < n → w'.tables ≡ before → Q (none, w'))
        → ((w' : World N) → length w'.awaits ≤ n → w'.tables ≡ before → Q (k a w'))
        → Q ((m >>= k) w)
    unfolding ◌>>=◌
    Reads-bind Q m w n a before reads stop go = by_result (m w).0 (m w).1 reads
      where
        by_result :
            (r : Option A) (u : World N)
            → Reads n a before (r, u)
            → Q (elim r [ some b ↦ k b u | none ↦ (none, u) ])
        by_result none u (inl (e, spent), same) = stop u spent same
        by_result none u (inr (e, left), same) = cc
        by_result (some b) u (inl (e, spent), same) = cc
        by_result (some b) u (inr (e, left), same) =
            subst (λ c. Q (k c u)) (sym (some_injective e)) (go u left same)
