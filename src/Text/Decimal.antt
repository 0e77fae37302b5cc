-- ===== src/Text/Decimal.antt =====
-- The decimal print of a number is read back, whatever text other than a digit follows.
use Prim.Native.Char.{Char, code}
use Prim.Native.String.append
use Prim.Native.String.{[], ◌∷◌, ◌++◌}
use text.Mathlib.TextLemmas.{append-nil, tail-eq_of_cons-eq, nil≢cons}
use esclusa.Prelude.{
  ℕ, zero, suc, ◌+◌, ◌-◌, ◌*◌, ◌/◌, ◌%◌, ◌<◌, String, Bool, ◌&&◌, ◌≡◌, ◌≢◌, ap, refl, arith, ltb,
  leb, Bool-cases, inl, inr, if◌then◌else◌, sym, ◌∙◌,
}
use esclusa.Prelude.Int.{ℤ, pos, negsuc}
use esclusa.Text.{digit, emit, show, show_ℤ}

abbrev is_digit : Char → Bool
is_digit c = leb 48 (code c) && leb (code c) 57

-- Reads digits behind the number `n` as far as they go.
read : String → ℕ → ℕ × String
read [] n = (n, [])
read (c ∷ s) n =
    let rest = read s (n * 10 + (code c - 48)) in if is_digit c then rest else (n, c ∷ s)

code-digit : (d : ℕ) → d < 10 → code (digit d) ≡ 48 + d
unfolding digit
code-digit zero h = refl
code-digit (suc zero) h = refl
code-digit (suc (suc zero)) h = refl
code-digit (suc (suc (suc zero))) h = refl
code-digit (suc (suc (suc (suc zero)))) h = refl
code-digit (suc (suc (suc (suc (suc zero))))) h = refl
code-digit (suc (suc (suc (suc (suc (suc zero)))))) h = refl
code-digit (suc (suc (suc (suc (suc (suc (suc zero))))))) h = refl
code-digit (suc (suc (suc (suc (suc (suc (suc (suc zero)))))))) h = refl
code-digit (suc (suc (suc (suc (suc (suc (suc (suc (suc zero))))))))) h = refl
code-digit (suc (suc (suc (suc (suc (suc (suc (suc (suc (suc d)))))))))) h = absurd (omega arith)

read-digit : (d n : ℕ) (s : String) → d < 10 → read (digit d ∷ s) n ≡ read s (n * 10 + d)
unfolding read
read-digit d n s h = ground (arith, code-digit d h)

read-emit : (fuel n : ℕ) (out : String) → n < fuel → read (emit fuel n out) 0 ≡ read out n
unfolding emit
read-emit zero n out h = elim h [ ]
read-emit (suc fuel) n out h = elim (Bool-cases (ltb n 10)) [
  | inl small ↦ rw small (rw (read-digit n 0 out (ground arith)) (ap (read out) (omega arith)))
  | inr large ↦ rw large (
      read-emit fuel (n / 10) (digit (n % 10) ∷ out) (ground arith)
      ∙ read-digit (n % 10) (n / 10) out (omega arith)
      ∙ ap (read out) (omega arith))
]

emit-append : (fuel n : ℕ) (out t : String) → emit fuel n out ++ t ≡ emit fuel n (out ++ t)
unfolding emit
emit-append zero n out t = refl
emit-append (suc fuel) n out t = elim (Bool-cases (ltb n 10)) [
  | inl small ↦ rw small (append.cons (digit n) out t)
  | inr large ↦ rw large (
      emit-append fuel (n / 10) (digit (n % 10) ∷ out) t
      ∙ ap (emit fuel (n / 10)) (append.cons (digit (n % 10)) out t))
]

read-show : (n : ℕ) (t : String) → read (show n ++ t) 0 ≡ read t n
unfolding show
read-show n t =
    ap (λ (u : String). read u 0) (emit-append (suc n) n [] t ∙ ap (emit (suc n) n) (append.nil t))
    ∙ read-emit (suc n) n t (omega arith)

-- The printed number and the text behind the colon are both determined.
pub show-colon_injective :
    (n m : ℕ) (s t : String) → show n ++ (":" ∷ s) ≡ show m ++ (":" ∷ t) → (n ≡ m) × (s ≡ t)
unfolding read
show-colon_injective n m s t h =
    let e : read (":" ∷ s) n ≡ read (":" ∷ t) m =
      sym (read-show n (":" ∷ s)) ∙ ap (λ (u : String). read u 0) h ∙ read-show m (":" ∷ t) in
    (ap (λ (p : ℕ × String). p.0) e, tail-eq_of_cons-eq (ap (λ (p : ℕ × String). p.1) e))

read-show_all : (n : ℕ) → read (show n) 0 ≡ (n, [])
unfolding read
read-show_all n = ap (λ (u : String). read u 0) (sym (append-nil (show n))) ∙ read-show n []

pub show-injective : (n m : ℕ) → show n ≡ show m → n ≡ m
show-injective n m h =
    ap (λ (p : ℕ × String). p.0)
      (sym (read-show_all n) ∙ ap (λ (u : String). read u 0) h ∙ read-show_all m)

-- No number prints with a sign.
show-ne-minus : (n : ℕ) (s : String) → show n ≢ "-" ∷ s
unfolding read
show-ne-minus n s h =
    nil≢cons
      (ap (λ (p : ℕ × String). p.1) (sym (read-show_all n) ∙ ap (λ (u : String). read u 0) h))

pub show_ℤ-injective : (a b : ℤ) → show_ℤ a ≡ show_ℤ b → a ≡ b
unfolding show_ℤ
show_ℤ-injective (pos n) (pos m) h = ap pos (show-injective n m h)
show_ℤ-injective (pos n) (negsuc m) h = absurd (show-ne-minus n (show (suc m)) h)
show_ℤ-injective (negsuc n) (pos m) h = absurd (show-ne-minus m (show (suc n)) (sym h))
show_ℤ-injective (negsuc n) (negsuc m) h =
    let e : suc n ≡ suc m = show-injective (suc n) (suc m) (tail-eq_of_cons-eq h) in
    ap negsuc (omega arith)
