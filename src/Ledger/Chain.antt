-- ===== src/Ledger/Chain.antt =====
-- What `verify_chain` of gate/src/ledger.rs decides, against a description of a valid chain.
use esclusa.Prelude.{
  ℕ, String, true, ◌==◌, none, some, List, [], ◌∷◌, ◌++◌, ◌≡◌, ◌≢◌, ◌↔◌, ◌⊎◌, inl, inr, refl, sym,
  ap, ◌∙◌, arith, eq_iff, Bool-cases,
}
use esclusa.Prelude.Int.{ℤ}
use esclusa.External.{External}
use esclusa.Ledger.{Entry, genesis, hmac_hex, entry_canonical, first_broken, verify_chain}

module _ (x : External) (key : List ℕ) where
  open x use {Number}

  -- The HMAC that the key gives for the content of an entry.
  abbrev pub seal : Entry Number → String
  seal e = hmac_hex x key (entry_canonical x e)

  -- Each entry names the HMAC of the one before it, the first one `prev`, and carries its own.
  abbrev pub IsChain : String → List (Entry Number) → Type 0
  IsChain prev [] = Unit
  IsChain prev (e ∷ es) = (e.prev_hmac ≡ prev) × (seal e ≡ e.hmac) × IsChain e.hmac es

  -- The entry does not carry on a chain that ends with `prev`.
  abbrev pub Breaks : String → Entry Number → Type 0
  Breaks prev e = (e.prev_hmac ≢ prev) ⊎ (seal e ≢ e.hmac)

  pub fits_or_Breaks :
      (prev : String) (e : Entry Number)
      → ((e.prev_hmac ≡ prev) × (seal e ≡ e.hmac)) ⊎ Breaks prev e
  fits_or_Breaks prev e = elim (Bool-cases (e.prev_hmac == prev)) [
    | inl p ↦ elim (Bool-cases (seal e == e.hmac)) [
      | inl q ↦ inl ((eq_iff e.prev_hmac prev).0 p, (eq_iff (seal e) e.hmac).0 q)
      | inr q ↦ inr (inr (λ r. ground (arith, (eq_iff (seal e) e.hmac).1 r)))
    ]
    | inr p ↦ inr (inl (λ r. ground (arith, (eq_iff e.prev_hmac prev).1 r)))
  ]

  first_broken-fits :
      (prev : String) (e : Entry Number) (es : List (Entry Number))
      → e.prev_hmac ≡ prev
      → seal e ≡ e.hmac
      → first_broken x key prev (e ∷ es) ≡ first_broken x key e.hmac es
  unfolding first_broken
  first_broken-fits prev e es p q = rw ((eq_iff e.prev_hmac prev).1 p, (eq_iff (seal e) e.hmac).1 q)

  first_broken-Breaks :
      (prev : String) (e : Entry Number) (es : List (Entry Number))
      → Breaks prev e
      → first_broken x key prev (e ∷ es) ≡ some e.id
  unfolding first_broken
  first_broken-Breaks prev e es b = ground (arith, eq_iff e.prev_hmac prev, eq_iff (seal e) e.hmac)

  pub first_broken-chain :
      (prev : String) (es : List (Entry Number))
      → IsChain prev es
      → first_broken x key prev es ≡ none
  first_broken-chain prev [] c = unfold first_broken in refl
  first_broken-chain prev (e ∷ es) (p, q, c) =
      first_broken-fits prev e es p q ∙ first_broken-chain e.hmac es c

  pub IsChain-of_first_broken :
      (prev : String) (es : List (Entry Number))
      → first_broken x key prev es ≡ none
      → IsChain prev es
  IsChain-of_first_broken prev [] h = tt
  IsChain-of_first_broken prev (e ∷ es) h = elim (fits_or_Breaks prev e) [
    | inl (p, q) ↦
        (p, q, IsChain-of_first_broken e.hmac es (sym (first_broken-fits prev e es p q) ∙ h))
    | inr b ↦ cc (first_broken-Breaks prev e es b)
  ]

  -- The HMAC behind which the next entry is linked.
  abbrev pub end_of : String → List (Entry Number) → String
  end_of prev [] = prev
  end_of prev (e ∷ es) = end_of e.hmac es

  pub first_broken-append :
      (prev : String) (before after : List (Entry Number))
      → IsChain prev before
      → first_broken x key prev (before ++ after) ≡ first_broken x key (end_of prev before) after
  first_broken-append prev [] after c = refl
  first_broken-append prev (d ∷ before) after (p, q, c) =
      first_broken-fits prev d (before ++ after) p q ∙ first_broken-append d.hmac before after c

  -- The first entry that breaks the chain `prev`, with what stands before and behind it.
  pub record BreakAt (prev : String) (es : List (Entry Number)) (id : ℤ) : Type 0 where
    pub before : List (Entry Number)
    pub entry : Entry Number
    pub after : List (Entry Number)
    pub split : es ≡ before ++ entry ∷ after
    pub intact : IsChain prev before
    pub breaks : Breaks (end_of prev before) entry
    pub named : entry.id ≡ id

  break_of_first_broken :
      (prev : String) (es : List (Entry Number)) (id : ℤ)
      → first_broken x key prev es ≡ some id
      → BreakAt prev es id
  break_of_first_broken prev [] id h = unfold first_broken in cc
  break_of_first_broken prev (e ∷ es) id h = elim (fits_or_Breaks prev e) [
    | inl (p, q) ↦
        let b = break_of_first_broken e.hmac es id (sym (first_broken-fits prev e es p q) ∙ h) in
        record {
          before = e ∷ b.before;
          entry = b.entry;
          after = b.after;
          split = ap (λ l. e ∷ l) b.split;
          intact = (p, q, b.intact);
          breaks = b.breaks;
          named = b.named;
        }
    | inr b ↦ record {
      before = [];
      entry = e;
      after = es;
      split = refl;
      intact = tt;
      breaks = b;
      named = cc (first_broken-Breaks prev e es b, h);
    }
  ]

  broken_at-eq :
      (es : List (Entry Number)) → (verify_chain x key es).broken_at ≡ first_broken x key genesis es
  unfolding verify_chain
  broken_at-eq es = ground arith

  valid-eq_true :
      (es : List (Entry Number))
      → (verify_chain x key es).valid ≡ true
      → first_broken x key genesis es ≡ none
  unfolding verify_chain
  valid-eq_true es h = ground arith

  valid_of_none :
      (es : List (Entry Number))
      → first_broken x key genesis es ≡ none
      → (verify_chain x key es).valid ≡ true
  unfolding verify_chain
  valid_of_none es h = ground arith

  -- The report calls a ledger valid exactly when it is a chain from "genesis" on.
  pub verify_chain-valid_iff :
      (es : List (Entry Number)) → ((verify_chain x key es).valid ≡ true) ↔ IsChain genesis es
  verify_chain-valid_iff es = (
    λ h. IsChain-of_first_broken genesis es (valid-eq_true es h),
    λ c. valid_of_none es (first_broken-chain genesis es c),
  )

  -- A report that is not valid names an entry that breaks the chain, all entries before it being a
  -- chain; and whatever entry first breaks the chain is named.
  pub verify_chain-broken_iff :
      (es : List (Entry Number)) (id : ℤ)
      → ((verify_chain x key es).broken_at ≡ some id) ↔ BreakAt genesis es id
  verify_chain-broken_iff es id = (
    λ h. break_of_first_broken genesis es id (sym (broken_at-eq es) ∙ h),
    λ b. broken_at-eq es ∙ named_of_break b,
  )
    where
      named_of_break : BreakAt genesis es id → first_broken x key genesis es ≡ some id
      named_of_break b =
          ap (first_broken x key genesis) b.split
          ∙ first_broken-append genesis b.before (b.entry ∷ b.after) b.intact
          ∙ first_broken-Breaks _ b.entry b.after b.breaks
          ∙ ap some b.named

  pub IsChain-append :
      (prev : String) (before after : List (Entry Number))
      → IsChain prev (before ++ after) ↔ (IsChain prev before × IsChain (end_of prev before) after)
  IsChain-append prev [] after = (λ c. (tt, c), λ (_, c). c)
  IsChain-append prev (e ∷ before) after =
      let ih = IsChain-append e.hmac before after in
      (λ (p, q, c). ((p, q, (ih.0 c).0), (ih.0 c).1), λ ((p, q, c), d). (p, q, ih.1 (c, d)))
