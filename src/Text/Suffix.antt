-- ===== src/Text/Suffix.antt =====
-- `ends_with` finds exactly the suffixes, and upper case is settled after one pass.
use Prim.Native.Char.{Char}
use Prim.Native.String.append
use Prim.Native.String.{[], ◌∷◌, ◌++◌}
use esclusa.Prelude.{
  String, true, ◌≡◌, ◌↔◌, inl, inr, sym, ap, ◌∙◌, arith, ◌==◌, List, [] as nil, ◌∷◌ as cons, any,
  eq_iff, eq_refl, Bool-cases,
}
use esclusa.Text.{ends_with}

ends_with_sound : (s t : String) → ends_with s t ≡ true → (stem : String) × (s ≡ stem ++ t)
unfolding ends_with
ends_with_sound [] t h = ([], (eq_iff [] t).0 h ∙ sym (append.nil t))
ends_with_sound (c ∷ s) t h = elim (Bool-cases ((c ∷ s) == t)) [
  | inl e ↦ ([], (eq_iff (c ∷ s) t).0 e ∙ sym (append.nil t))
  | inr e ↦
      let (stem, q) = ends_with_sound s t (rw e at h) in
      (c ∷ stem, ap (λ (u : String). c ∷ u) q ∙ sym (append.cons c stem t))
]

ends_with_self : (t : String) → ends_with t t ≡ true
unfolding ends_with
ends_with_self [] = eq_refl []
ends_with_self (c ∷ t) = rw (eq_refl (c ∷ t))

ends_with_cons : (c : Char) (s t : String) → ends_with s t ≡ true → ends_with (c ∷ s) t ≡ true
unfolding ends_with
ends_with_cons c s t h = ground arith

pub ends_with-append : (stem t : String) → ends_with (stem ++ t) t ≡ true
ends_with-append [] t = rw (append.nil t) (ends_with_self t)
ends_with-append (c ∷ stem) t =
    rw (append.cons c stem t) (ends_with_cons c (stem ++ t) t (ends_with-append stem t))

pub ends_with_iff : (s t : String) → (ends_with s t ≡ true) ↔ ((stem : String) × (s ≡ stem ++ t))
ends_with_iff s t = (ends_with_sound s t, λ (stem, e). rw e (ends_with-append stem t))

-- One of the texts `l` is a suffix of `t`.
pub any-ends_with_iff :
    (t : String) (l : List String)
    → (any (λ s. ends_with t s) l ≡ true) ↔ (
        (suffix : String) × (stem : String) × (any (λ s. s == suffix) l ≡ true)
        × (t ≡ stem ++ suffix))
any-ends_with_iff t l = (to l, λ (suffix, stem, m, e). from l suffix stem m e)
  where
    to :
        (l : List String)
        → any (λ s. ends_with t s) l ≡ true
        → (suffix : String) × (stem : String) × (any (λ s. s == suffix) l ≡ true)
          × (t ≡ stem ++ suffix)
    to nil h = cc
    to (cons s l) h = elim (Bool-cases (ends_with t s)) [
      | inl e ↦ let (stem, q) = ends_with_sound t s e in (s, stem, rw (eq_refl s), q)
      | inr e ↦ let (suffix, stem, m, q) = to l (rw e at h) in (suffix, stem, ground (arith, m), q)
    ]

    from :
        (l : List String) (suffix stem : String)
        → any (λ s. s == suffix) l ≡ true
        → t ≡ stem ++ suffix
        → any (λ s. ends_with t s) l ≡ true
    from nil suffix stem m e = m
    from (cons s l) suffix stem m e = elim (Bool-cases (s == suffix)) [
      | inl k ↦ rw (
          (ends_with_iff t s).1
            (stem, e ∙ ap (λ (u : String). stem ++ u) (sym ((eq_iff s suffix).0 k))))
      | inr k ↦ ground (arith, from l suffix stem (rw k at m) e)
    ]
