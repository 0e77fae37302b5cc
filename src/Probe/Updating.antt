-- ===== src/Probe/Updating.antt =====
-- What the `UPDATE`s of the table `topology` in gate/src/probe.rs do row by row.
use esclusa.Prelude.{
  Bool, true, false, List, [], ◌∷◌, where_rows, All, if◌then◌else◌, ◌≡◌, inl, inr, ap, Bool-cases,
  get_or, drop,
}
use esclusa.Db.{TopologyRow}
use esclusa.Topology.Updates.{set_rows}

-- Two lists of the same length, related row by row.
abbrev pub Pairwise : {A : Type 0} → (A → A → Type 0) → List A → List A → Type 0
Pairwise R [] [] = Unit
Pairwise R [] (y ∷ ys) = ⊥
Pairwise R (x ∷ xs) [] = ⊥
Pairwise R (x ∷ xs) (y ∷ ys) = R x y × Pairwise R xs ys

pub Pairwise-refl :
    {A : Type 0} (R : A → A → Type 0) → ((a : A) → R a a) → (xs : List A) → Pairwise R xs xs
Pairwise-refl R h [] = tt
Pairwise-refl R h (x ∷ xs) = (h x, Pairwise-refl R h xs)

pub Pairwise-mono :
    {A : Type 0} (R S : A → A → Type 0)
    → ((a b : A) → R a b → S a b)
    → (xs ys : List A) → Pairwise R xs ys
    → Pairwise S xs ys
Pairwise-mono R S h [] [] p = tt
Pairwise-mono R S h [] (y ∷ ys) p = absurd p
Pairwise-mono R S h (x ∷ xs) [] p = absurd p
Pairwise-mono R S h (x ∷ xs) (y ∷ ys) p = (h x y p.0, Pairwise-mono R S h xs ys p.1)

-- A predicate carried over from one list to the other.
pub All-Pairwise :
    {A : Type 0} (P : A → Type 0) (R : A → A → Type 0)
    → ((a b : A) → R a b → P a → P b)
    → (xs ys : List A) → Pairwise R xs ys
    → All P xs
    → All P ys
All-Pairwise P R h [] [] p q = tt
All-Pairwise P R h [] (y ∷ ys) p q = absurd p
All-Pairwise P R h (x ∷ xs) [] p q = absurd p
All-Pairwise P R h (x ∷ xs) (y ∷ ys) p q = (h x y p.0 q.0, All-Pairwise P R h xs ys p.1 q.1)

pub All-map :
    {A : Type 0} (P Q : A → Type 0) → ((a : A) → P a → Q a) → (xs : List A) → All P xs → All Q xs
All-map P Q h [] p = tt
All-map P Q h (x ∷ xs) p = (h x p.0, All-map P Q h xs p.1)

pub All-pure : {A : Type 0} (P : A → Type 0) → ((a : A) → P a) → (xs : List A) → All P xs
All-pure P h [] = tt
All-pure P h (x ∷ xs) = (h x, All-pure P h xs)

-- A row under one `UPDATE`.
abbrev pub updated : (TopologyRow → Bool) → (TopologyRow → TopologyRow) → TopologyRow → TopologyRow
updated p f r = if p r then f r else r

pub set_rows-Pairwise :
    (R : TopologyRow → TopologyRow → Type 0) (p : TopologyRow → Bool)
    (f : TopologyRow → TopologyRow) (rows : List TopologyRow)
    → All (λ r. R r (updated p f r)) rows
    → Pairwise R rows (set_rows p f rows)
unfolding set_rows
set_rows-Pairwise R p f [] h = tt
set_rows-Pairwise R p f (r ∷ rows) h = (h.0, set_rows-Pairwise R p f rows h.1)

-- One `UPDATE` after another.
pub set_rows_twice-Pairwise :
    (R : TopologyRow → TopologyRow → Type 0) (p q : TopologyRow → Bool)
    (f g : TopologyRow → TopologyRow) (rows : List TopologyRow)
    → All (λ r. R r (updated q g (updated p f r))) rows
    → Pairwise R rows (set_rows q g (set_rows p f rows))
unfolding set_rows
set_rows_twice-Pairwise R p q f g [] h = tt
set_rows_twice-Pairwise R p q f g (r ∷ rows) h = (h.0, set_rows_twice-Pairwise R p q f g rows h.1)

none_chosen :
    (p : TopologyRow → Bool) (rows : List TopologyRow)
    → where_rows p rows ≡ []
    → All (λ s. p s ≡ false) rows
none_chosen p [] e = tt
none_chosen p (r ∷ rows) e = elim (Bool-cases (p r)) [
  | inl h ↦ cc
  | inr h ↦ (h, none_chosen p rows (rw h at e))
]

-- What holds of the only row that a condition chooses.
pub only_chosen :
    (p : TopologyRow → Bool) (row : TopologyRow) (rows : List TopologyRow)
    → where_rows p rows ≡ row ∷ []
    → All (λ s. p s ≡ true → s ≡ row) rows
only_chosen p row [] e = tt
only_chosen p row (r ∷ rows) e = elim (Bool-cases (p r)) [
  | inl h ↦
      let e' : r ∷ where_rows p rows ≡ row ∷ [] = rw h at e in
      (
        λ _. ap (λ (l : List TopologyRow). get_or l 0 r) e',
        All-map (λ s. p s ≡ false) (λ s. p s ≡ true → s ≡ row) (λ s no yes. cc) rows
            (none_chosen p rows (ap (λ (l : List TopologyRow). drop 1 l) e')),
      )
  | inr h ↦ (λ yes. cc, only_chosen p row rows (rw h at e))
]

pub Pairwise-trans :
    {A : Type 0} (R S T : A → A → Type 0)
    → ((a b c : A) → R a b → S b c → T a c)
    → (xs ys zs : List A) → Pairwise R xs ys
    → Pairwise S ys zs
    → Pairwise T xs zs
Pairwise-trans R S T h [] [] [] p q = tt
Pairwise-trans R S T h [] [] (z ∷ zs) p q = absurd q
Pairwise-trans R S T h [] (y ∷ ys) zs p q = absurd p
Pairwise-trans R S T h (x ∷ xs) [] zs p q = absurd p
Pairwise-trans R S T h (x ∷ xs) (y ∷ ys) [] p q = absurd q
Pairwise-trans R S T h (x ∷ xs) (y ∷ ys) (z ∷ zs) p q =
    (h x y z p.0 q.0, Pairwise-trans R S T h xs ys zs p.1 q.1)
