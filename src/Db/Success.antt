-- ===== src/Db/Success.antt =====
-- What holds of an action that ends without an error.
use esclusa.Prelude.{Option, none, some}
use esclusa.Db.{World, Exec, ◌>>=◌}

-- If there is a result, it and the world behind it satisfy `P`.
abbrev pub Succeeds : {N A : Type 0} → (A → World N → Type 0) → Option A × World N → Type 0
Succeeds P (none, w) = Unit
Succeeds P (some a, w) = P a w

module _ {N A B : Type 0} (P : A → World N → Type 0) (R : B → World N → Type 0) where
  pub bind-Succeeds :
      (m : Exec N A) (k : A → Exec N B) (w : World N)
      → Succeeds P (m w)
      → ((a : A) (w' : World N) → P a w' → Succeeds R (k a w'))
      → Succeeds R ((m >>= k) w)
  unfolding ◌>>=◌
  bind-Succeeds m k w h go = by_result (m w).0 (m w).1 h
    where
      by_result :
          (r : Option A) (u : World N)
          → Succeeds P (r, u)
          → Succeeds R (elim r [ some a ↦ k a u | none ↦ (none, u) ])
      by_result none u h = tt
      by_result (some a) u h = go a u h
