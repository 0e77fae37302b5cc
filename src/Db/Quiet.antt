-- ===== src/Db/Quiet.antt =====
-- Statements while the database answers: each succeeds at once, so a handler runs to its end.
use mathlib.Core.Path.{subst}
use esclusa.Prelude.{Option, none, some, [], ◌≡◌, refl, sym, ap, ◌∙◌}
use esclusa.Clock.{DateTime}
use esclusa.Db.{Tables, World, Exec, done, perform, query, attempt, settle, ◌>>=◌, some_pair}

abbrev pub quiet : {N : Type 0} → DateTime → Tables N → World N
quiet t tables = record { tables = tables; clock = t; awaits = [] }

module _ {N A B : Type 0} (Q : Option B × World N → Type 0) (t : DateTime) (tables : Tables N) where
  pub quiet-perform :
      (f : DateTime → Tables N → Option (A × Tables N)) (k : A → Exec N B) (a : A)
      (after : Tables N)
      → f t tables ≡ some (a, after)
      → Q (k a (quiet t after))
      → Q ((perform f >>= k) (quiet t tables))
  unfolding perform ◌>>=◌
  quiet-perform f k a after e q = go (f t tables) e
    where
      go :
          (r : Option (A × Tables N))
          → r ≡ some (a, after)
          → Q (
              let (r', w') = settle done r (quiet t tables) in
              elim r' [ some b ↦ k b w' | none ↦ (none, w') ])
      go none h = cc
      go (some (b, u)) h =
          subst (λ c. Q (k c (quiet t u))) (sym (some_pair h).0)
            (subst (λ v. Q (k a (quiet t v))) (sym (some_pair h).1) q)

  pub quiet-attempt :
      (f : DateTime → Tables N → Option (A × Tables N)) (k : Option A → Exec N B) (a : A)
      (after : Tables N)
      → f t tables ≡ some (a, after)
      → Q (k (some a) (quiet t after))
      → Q ((attempt (perform f) >>= k) (quiet t tables))
  unfolding perform attempt ◌>>=◌
  quiet-attempt f k a after e q = go (f t tables) e
    where
      go :
          (r : Option (A × Tables N))
          → r ≡ some (a, after)
          → Q (let (r', w') = settle done r (quiet t tables) in k r' w')
      go none h = cc
      go (some (b, u)) h =
          subst (λ c. Q (k (some c) (quiet t u))) (sym (some_pair h).0)
            (subst (λ v. Q (k (some a) (quiet t v))) (sym (some_pair h).1) q)

  pub quiet-query :
      (g : DateTime → Tables N → A) (k : A → Exec N B)
      → Q (k (g t tables) (quiet t tables))
      → Q ((query g >>= k) (quiet t tables))
  unfolding query
  quiet-query g k q = quiet-perform (λ u v. some (g u v, v)) k (g t tables) tables refl q

  pub quiet-query-attempt :
      (g : DateTime → Tables N → A) (k : Option A → Exec N B)
      → Q (k (some (g t tables)) (quiet t tables))
      → Q ((attempt (query g) >>= k) (quiet t tables))
  unfolding query
  quiet-query-attempt g k q = quiet-attempt (λ u v. some (g u v, v)) k (g t tables) tables refl q

-- An action whose outcome is known, and what comes behind it.
pub bind-known :
    {N A B : Type 0} (m : Exec N A) (k : A → Exec N B) (w : World N) {a : A} {u : World N}
    {q : Option B × World N}
    → m w ≡ (some a, u)
    → k a u ≡ q
    → (m >>= k) w ≡ q
unfolding ◌>>=◌
bind-known {N} {A} {B} m k w {a} {u} e h =
    ap (λ (p : Option A × World N). let (r, w') = p in ◌>>=◌ {B = B} (λ _. (r, w')) k w) e ∙ h
