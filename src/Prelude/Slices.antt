-- ===== src/Prelude/Slices.antt =====
-- Parts of lists: what `take`, `drop`, `where_rows` and `reverse` keep.
use Prim.Native.Nat.{ℕ, zero, suc, ◌+◌, ◌≤◌}
use mathlib.Core.Path.{◌≡◌, refl, ap, ◌∙◌}
use mathlib.Core.Logic.{◌⊎◌, inl, inr}
use mathlib.Core.Bool.{Bool, true, false}
use mathlib.Core.List.{List, [], ◌∷◌, ◌++◌, map, Memᴰ, reverse, reverse_aux}
use native.Mathlib.Omega.{arith}
use esclusa.Prelude.Tests.{if◌then◌else◌}
use esclusa.Prelude.Lists.{length, take, drop, where_rows, All}

module _ {ℓ} {A : Type ℓ} where
  pub drop-nil : (n : ℕ) → drop {A = A} n [] ≡ []
  drop-nil zero = refl
  drop-nil (suc n) = refl

  pub drop_all : (n : ℕ) (xs : List A) → length xs ≤ n → drop n xs ≡ []
  drop_all n [] h = drop-nil n
  drop_all zero (x ∷ xs) h = absurd (omega arith)
  drop_all (suc n) (x ∷ xs) h = drop_all n xs (omega arith)

  -- A slice and what is behind it.
  pub take-drop : (m n : ℕ) (xs : List A) → take m (drop n xs) ++ drop (n + m) xs ≡ drop n xs
  take-drop m (suc n) [] =
      ap (λ (l : List A). l ++ drop (suc n + m) []) (none_left m) ∙ none_over (suc n + m)
    where
      none_left : (m : ℕ) → take {A = A} m [] ≡ []
      none_left zero = refl
      none_left (suc m) = refl

      none_over : (m : ℕ) → drop {A = A} m [] ≡ []
      none_over m = drop-nil m
  take-drop m (suc n) (x ∷ xs) = shift (suc n + m) (omega arith) ∙ take-drop m n xs
    where
      shift :
          (k : ℕ)
          → k ≡ suc (n + m)
          → take m (drop n xs) ++ drop k (x ∷ xs) ≡ take m (drop n xs) ++ drop (n + m) xs
      shift k e = ap (λ i. take m (drop n xs) ++ drop i (x ∷ xs)) e
  take-drop m zero xs = from_front m (zero + m) (omega arith) xs
    where
      from_front : (m k : ℕ) → k ≡ m → (xs : List A) → take m xs ++ drop k xs ≡ xs
      from_front zero k e xs = ap (λ i. drop i xs) e
      from_front (suc m) k e [] = drop-nil k
      from_front (suc m) k e (x ∷ xs) =
          ap (λ i. x ∷ take m xs ++ drop i (x ∷ xs)) e ∙ ap (λ l. x ∷ l) (from_front m m refl xs)

  pub length-take : (n : ℕ) (xs : List A) → length (take n xs) ≤ n
  length-take zero xs = omega arith
  length-take (suc n) [] = omega arith
  length-take (suc n) (x ∷ xs) = omega (arith, length-take n xs)

  -- A slice is full, or it reaches the end.
  pub take-drop-full :
      (m n : ℕ) (xs : List A)
      → (length (take m (drop n xs)) ≡ m) ⊎ (length xs ≤ n + length (take m (drop n xs)))
  take-drop-full zero n xs = inl refl
  take-drop-full (suc m) zero [] = inr (omega arith)
  take-drop-full (suc m) zero (x ∷ xs) = elim (take-drop-full m zero xs) [
    | inl e ↦ inl (ap suc e)
    | inr h ↦ inr (omega arith)
  ]
  take-drop-full (suc m) (suc n) [] = inr (omega arith)
  take-drop-full (suc m) (suc n) (x ∷ xs) = elim (take-drop-full (suc m) n xs) [
    | inl e ↦ inl e
    | inr h ↦ inr (omega arith)
  ]

  pub length-take-le : (m n : ℕ) (xs : List A) → length (take m (drop n xs)) ≤ length xs
  length-take-le zero n xs = omega arith
  length-take-le (suc m) zero [] = omega arith
  length-take-le (suc m) zero (x ∷ xs) = omega (arith, length-take-le m zero xs)
  length-take-le (suc m) (suc n) [] = omega arith
  length-take-le (suc m) (suc n) (x ∷ xs) = omega (arith, length-take-le (suc m) n xs)

  length-reverse_aux : (xs ys : List A) → length (reverse_aux xs ys) ≡ length xs + length ys
  length-reverse_aux [] ys = omega arith
  length-reverse_aux (x ∷ xs) ys = omega (arith, length-reverse_aux xs (x ∷ ys))

  pub length-reverse : (xs : List A) → length (reverse xs) ≡ length xs
  length-reverse xs = omega (arith, length-reverse_aux xs [])

  module _ {κ} (P : A → Type κ) where
    pub All-take : (n : ℕ) (xs : List A) → All P xs → All P (take n xs)
    All-take zero xs h = tt
    All-take (suc n) [] h = tt
    All-take (suc n) (x ∷ xs) h = (h.0, All-take n xs h.1)

    pub All-drop : (n : ℕ) (xs : List A) → All P xs → All P (drop n xs)
    All-drop zero xs h = h
    All-drop (suc n) [] h = tt
    All-drop (suc n) (x ∷ xs) h = All-drop n xs h.1

    All-reverse_aux : (xs ys : List A) → All P xs → All P ys → All P (reverse_aux xs ys)
    All-reverse_aux [] ys h k = k
    All-reverse_aux (x ∷ xs) ys h k = All-reverse_aux xs (x ∷ ys) h.1 (h.0, k)

    pub All-reverse : (xs : List A) → All P xs → All P (reverse xs)
    All-reverse xs h = All-reverse_aux xs [] h tt

    -- What holds of the members that pass a test.
    pub All-where_rows :
        (p : A → Bool) (xs : List A)
        → ((a : A) → Memᴰ a xs → p a ≡ true → P a)
        → All P (where_rows p xs)
    All-where_rows p [] h = tt
    All-where_rows p (x ∷ xs) h =
        by_test (p x) (h x (Memᴰ.head refl)) (All-where_rows p xs (λ a m e. h a (Memᴰ.tail m) e))
      where
        by_test :
            (b : Bool)
            → (b ≡ true → P x)
            → All P (where_rows p xs)
            → All P (if b then x ∷ where_rows p xs else where_rows p xs)
        by_test true k rest = (k refl, rest)
        by_test false k rest = rest

  module _ {κ} {B : Type κ} where
    pub length-map : (f : A → B) (xs : List A) → length (map f xs) ≡ length xs
    length-map f [] = refl
    length-map f (x ∷ xs) = ap suc (length-map f xs)

    map-reverse_aux :
        (f : A → B) (xs ys : List A) → map f (reverse_aux xs ys) ≡ reverse_aux (map f xs) (map f ys)
    map-reverse_aux f [] ys = refl
    map-reverse_aux f (x ∷ xs) ys = map-reverse_aux f xs (x ∷ ys)

    pub map-reverse : (f : A → B) (xs : List A) → map f (reverse xs) ≡ reverse (map f xs)
    map-reverse f xs = map-reverse_aux f xs []

  pub where_rows_all : (xs : List A) → where_rows (λ _. true) xs ≡ xs
  where_rows_all [] = refl
  where_rows_all (x ∷ xs) = ap (λ l. x ∷ l) (where_rows_all xs)
