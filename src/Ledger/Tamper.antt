-- ===== src/Ledger/Tamper.antt =====
-- What the HMAC chain of gate/src/ledger.rs protects. No property of HMAC is assumed: where two
-- ledgers that look alike differ, the proof hands over two texts with one HMAC.
use mathlib.Core.Option
use esclusa.Prelude.{
  ℕ, String, true, ◌==◌, some, List, [], ◌∷◌, ◌++◌, length, last, ◌≡◌, ◌≢◌, ◌⊎◌, inl, inr, refl,
  sym, ap, ◌∙◌, arith, eq_iff, Bool-cases,
}
use esclusa.External.{External}
use esclusa.Ledger.{Entry, VerifyReport, genesis, hmac_hex, entry_canonical, verify_chain}
use esclusa.Ledger.Canonical.{SameContent, entry_canonical-injective}
use esclusa.Ledger.Chain.{
  seal, IsChain, end_of, fits_or_Breaks, verify_chain-valid_iff, verify_chain-broken_iff,
  IsChain-append,
}

module _ (x : External) (key : List ℕ) where
  open x use {Number}

  -- Two texts with one HMAC under the key.
  pub record Collision : Type 0 where
    pub left : String
    pub right : String
    pub differ : left ≢ right
    pub same : hmac_hex x key left ≡ hmac_hex x key right

  -- Entry for entry the same content, and the same HMAC.
  abbrev pub SameHistory : List (Entry Number) → List (Entry Number) → Type 0
  SameHistory [] [] = Unit
  SameHistory [] (e ∷ es) = ⊥
  SameHistory (d ∷ ds) [] = ⊥
  SameHistory (d ∷ ds) (e ∷ es) = SameContent x d e × (d.hmac ≡ e.hmac) × SameHistory ds es

  pub same_or_collision :
      (d e : Entry Number) → seal x key d ≡ seal x key e → SameContent x d e ⊎ Collision
  same_or_collision d e h = elim (Bool-cases (entry_canonical x d == entry_canonical x e)) [
    | inl q ↦ inl (entry_canonical-injective x d e ((eq_iff _ _).0 q))
    | inr q ↦ inr (record {
      left = entry_canonical x d;
      right = entry_canonical x e;
      differ = λ r. ground (arith, (eq_iff (entry_canonical x d) (entry_canonical x e)).1 r);
      same = h;
    })
  ]

  same_history :
      (p q : String) (ds es : List (Entry Number))
      → IsChain x key p ds
      → IsChain x key q es
      → length ds ≡ length es
      → end_of x key p ds ≡ end_of x key q es
      → ((p ≡ q) × SameHistory ds es) ⊎ Collision
  same_history p q [] [] c d n h = inl (h, tt)
  same_history p q [] (e ∷ es) c d n h = absurd (omega arith)
  same_history p q (e ∷ es) [] c d n h = absurd (omega arith)
  same_history p q (d ∷ ds) (e ∷ es) (lp, ls, lc) (rp, rs, rc) n h =
      elim (same_history d.hmac e.hmac ds es lc rc (omega arith) h) [
        | inr k ↦ inr k
        | inl (m, rest) ↦ elim (same_or_collision d e (ls ∙ m ∙ sym rs)) [
          | inr k ↦ inr k
          | inl s ↦ inl (sym lp ∙ s.prev_hmac ∙ rp, (s, m, rest))
        ]
      ]

  last-end_of :
      (p : String) (e : Entry Number) (es : List (Entry Number))
      → Option.map (λ (d : Entry Number). d.hmac) (last (e ∷ es)) ≡ some (end_of x key p (e ∷ es))
  last-end_of p e [] = refl
  last-end_of p e (d ∷ es) = last-end_of e.hmac d es

  ends_agree :
      (ds es : List (Entry Number))
      → length ds ≡ length es
      → Option.map (λ (e : Entry Number). e.hmac) (last ds)
        ≡ Option.map (λ (e : Entry Number). e.hmac) (last es)
      → end_of x key genesis ds ≡ end_of x key genesis es
  ends_agree [] [] n h = refl
  ends_agree [] (e ∷ es) n h = absurd (omega arith)
  ends_agree (d ∷ ds) [] n h = absurd (omega arith)
  ends_agree (d ∷ ds) (e ∷ es) n h = cc (last-end_of genesis d ds, h, last-end_of genesis e es)

  checked-eq : (es : List (Entry Number)) → (verify_chain x key es).checked ≡ length es
  unfolding verify_chain
  checked-eq es = ground arith

  head_hmac-eq :
      (es : List (Entry Number))
      → (verify_chain x key es).head_hmac ≡ Option.map (λ (e : Entry Number). e.hmac) (last es)
  unfolding verify_chain
  head_hmac-eq es = ground arith

  -- Two ledgers with one valid report, its count and its head HMAC included, have the same history,
  -- or they show two texts with one HMAC.
  pub report_fixes_history :
      (ds es : List (Entry Number))
      → (verify_chain x key ds).valid ≡ true
      → verify_chain x key ds ≡ verify_chain x key es
      → SameHistory ds es ⊎ Collision
  report_fixes_history ds es v h =
      let n : length ds ≡ length es =
        sym (checked-eq ds) ∙ ap (λ (r : VerifyReport). r.checked) h ∙ checked-eq es in
      let heads =
        sym (head_hmac-eq ds) ∙ ap (λ (r : VerifyReport). r.head_hmac) h ∙ head_hmac-eq es in
      let other = sym (ap (λ (r : VerifyReport). r.valid) h) ∙ v in
      elim (same_history genesis genesis ds es ((verify_chain-valid_iff x key ds).0 v)
        ((verify_chain-valid_iff x key es).0 other) n (ends_agree ds es n heads)) [
          | inl s ↦ inl s.1
          | inr c ↦ inr c
        ]

  -- An entry of a valid ledger that is rewritten, its stored HMAC kept, is the one that the report
  -- names, or the old and the new content show two texts with one HMAC.
  pub edit_is_named :
      (before : List (Entry Number)) (e e' : Entry Number) (after : List (Entry Number))
      → (verify_chain x key (before ++ e ∷ after)).valid ≡ true
      → e'.hmac ≡ e.hmac
      → ¬ SameContent x e e'
      → ((verify_chain x key (before ++ e' ∷ after)).broken_at ≡ some e'.id) ⊎ Collision
  edit_is_named before e e' after v k differ =
      let (intact, (link, sealed, _)) =
        (IsChain-append x key genesis before (e ∷ after)).0
          ((verify_chain-valid_iff x key _).0 v) in
      elim (fits_or_Breaks x key (end_of x key genesis before) e') [
        | inl (_, q) ↦ elim (same_or_collision e e' (sealed ∙ sym k ∙ sym q)) [
          | inl s ↦ absurd (differ s)
          | inr c ↦ inr c
        ]
        | inr b ↦ inl (
            (verify_chain-broken_iff x key _ e'.id).1 (record {
              before = before;
              entry = e';
              after = after;
              split = refl;
              intact = intact;
              breaks = b;
              named = refl;
            }))
      ]
