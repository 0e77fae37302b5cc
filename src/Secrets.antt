-- ===== src/Secrets.antt =====
-- The token check of gate/src/state.rs.
use Prim.Native.Nat.{bit_or, bit_xor}
use esclusa.Prelude.{
  ℕ, zero, suc, ◌<◌, Bool, true, false, not, ◌&&◌, ◌||◌, Option, none, some, List, [], ◌∷◌, length,
  All, get_or, drop, nat_eq, ltb, if◌then◌else◌, ◌≡◌, ◌↔◌, refl, sym, ap, ap₂, arith,
}

-- `a.iter().zip(b).fold(0u8, |acc, (x, y)| acc | (x ^ y))`
unfoldable pub fold_xor : ℕ → List ℕ → List ℕ → ℕ
fold_xor acc [] b = acc
fold_xor acc (x ∷ a) [] = acc
fold_xor acc (x ∷ a) (y ∷ b) = fold_xor (bit_or acc (bit_xor x y)) a b

unfoldable pub ct_eq : List ℕ → List ℕ → Bool
unfolding fold_xor
ct_eq a b = if not (nat_eq (length a) (length b)) then false else nat_eq (fold_xor 0 a b) 0

-- `token_matches`, over the bytes of the configured token and of the presented one.
unfoldable pub token_matches : Option (List ℕ) → Option (List ℕ) → Bool
unfolding ct_eq
token_matches (some expected) (some got) = ct_eq expected got
token_matches none got = false
token_matches (some expected) none = false

-- A test that every number under a bound passes.
passes : (ℕ → Bool) → ℕ → Bool
passes test zero = true
passes test (suc bound) = passes test bound && test bound

passes-at : (test : ℕ → Bool) (bound n : ℕ) → n < bound → passes test bound ≡ true → test n ≡ true
unfolding passes
passes-at test zero n below h = absurd (omega arith)
passes-at test (suc bound) n below h = ground (arith, passes-at test bound n)

-- For two bytes: xor is zero only on equal ones, or is zero only on zeros, and both stay bytes.
pair_test : ℕ → ℕ → Bool
pair_test x y =
    (nat_eq (bit_xor x y) 0 && nat_eq x y || not (nat_eq (bit_xor x y) 0) && not (nat_eq x y))
    && (nat_eq (bit_or x y) 0 && nat_eq x 0 && nat_eq y 0
        || not (nat_eq (bit_or x y) 0) && not (nat_eq x 0 && nat_eq y 0))
    && ltb (bit_xor x y) 256
    && ltb (bit_or x y) 256

pair_table : passes (λ x. passes (pair_test x) 256) 256 ≡ true
unfolding passes pair_test
pair_table = refl

pair_lem : (x y : ℕ) → x < 256 → y < 256 → pair_test x y ≡ true
pair_lem x y hx hy =
    passes-at (pair_test x) 256 y hy (passes-at (λ u. passes (pair_test u) 256) 256 x hx pair_table)

bit_xor-zero : (x y : ℕ) → x < 256 → y < 256 → (bit_xor x y ≡ 0) ↔ (x ≡ y)
unfolding pair_test
bit_xor-zero x y hx hy = ground (arith, pair_lem x y hx hy)

bit_or-zero : (x y : ℕ) → x < 256 → y < 256 → (bit_or x y ≡ 0) ↔ ((x ≡ 0) × (y ≡ 0))
unfolding pair_test
bit_or-zero x y hx hy = ground (arith, pair_lem x y hx hy)

bit_byte : (x y : ℕ) → x < 256 → y < 256 → (bit_xor x y < 256) × (bit_or x y < 256)
unfolding pair_test
bit_byte x y hx hy = ground (arith, pair_lem x y hx hy)

abbrev pub IsBytes : List ℕ → Type 0
IsBytes = All (λ c. c < 256)

-- The fold is zero exactly when it began at zero and every pair was equal.
fold_xor-zero :
    (acc : ℕ) (a b : List ℕ)
    → acc < 256
    → IsBytes a
    → IsBytes b
    → length a ≡ length b
    → (fold_xor acc a b ≡ 0) ↔ ((acc ≡ 0) × (a ≡ b))
unfolding fold_xor
fold_xor-zero acc [] [] h ha hb n = (λ z. (z, refl), λ z. z.0)
fold_xor-zero acc [] (y ∷ b) h ha hb n = absurd (omega arith)
fold_xor-zero acc (x ∷ a) [] h ha hb n = absurd (omega arith)
fold_xor-zero acc (x ∷ a) (y ∷ b) h ha hb n =
    let bx = bit_byte x y ha.0 hb.0 in
    let bo = bit_byte acc (bit_xor x y) h bx.0 in
    let ih = fold_xor-zero (bit_or acc (bit_xor x y)) a b bo.1 ha.1 hb.1 (omega arith) in
    let oz = bit_or-zero acc (bit_xor x y) h bx.0 in
    let xz = bit_xor-zero x y ha.0 hb.0 in
    (
      λ z. let (q, tails) = ih.0 z in let (acc0, x0) = oz.0 q in (acc0, ap₂ ◌∷◌ (xz.0 x0) tails),
      λ (acc0, e). ih.1 (
        oz.1 (acc0, xz.1 (ap (λ (l : List ℕ). get_or l 0 0) e)),
        ap (λ (l : List ℕ). drop 1 l) e,
      ),
    )

ct_eq-parts : (a b : List ℕ) → (ct_eq a b ≡ true) ↔ ((length a ≡ length b) × (fold_xor 0 a b ≡ 0))
unfolding ct_eq
ct_eq-parts a b = ground arith

-- The constant-time comparison is equality on bytes.
pub ct_eq_iff : (a b : List ℕ) → IsBytes a → IsBytes b → (ct_eq a b ≡ true) ↔ (a ≡ b)
ct_eq_iff a b ha hb = (
  λ h. let (n, z) = (ct_eq-parts a b).0 h in ((fold_xor-zero 0 a b (omega arith) ha hb n).0 z).1,
  λ e.
      (ct_eq-parts a b).1
        (ap length e, (fold_xor-zero 0 a b (omega arith) ha hb (ap length e)).1 (refl, e)),
)

abbrev pub HoldsBytes : Option (List ℕ) → Type 0
HoldsBytes none = Unit
HoldsBytes (some b) = IsBytes b

-- A presented token is accepted exactly when a token is configured and the two agree in every byte;
-- with no token configured, or none presented, it is not.
pub token_matches_iff :
    (expected got : Option (List ℕ))
    → HoldsBytes expected
    → HoldsBytes got
    → (token_matches expected got ≡ true)
      ↔ ((secret : List ℕ) × (expected ≡ some secret) × (got ≡ some secret))
unfolding token_matches
token_matches_iff none got he hg = (λ h. cc, λ (s, p, q). cc)
token_matches_iff (some e) none he hg = (λ h. cc, λ (s, p, q). cc)
token_matches_iff (some e) (some g) he hg = (
  λ h. (e, refl, ap some (sym ((ct_eq_iff e g he hg).0 h))),
  λ (s, p, q). (ct_eq_iff e g he hg).1 (cc),
)
