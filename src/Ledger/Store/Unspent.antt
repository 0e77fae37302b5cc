-- ===== src/Ledger/Store/Unspent.antt =====
-- Which authorization `recent_allow_exists` of gate/src/ledger.rs finds.
use esclusa.Prelude.{
  ℕ, ◌+◌, ◌≤◌, ◌<◌, String, Bool, true, false, ◌&&◌, ◌||◌, ◌==◌, List, [], ◌∷◌, ◌++◌, where_rows,
  ltb, unwrap_or, All, ◌≡◌, ◌↔◌, inl, inr, refl, arith, Bool-cases, &&_iff, ltb_iff, any_mem,
  any_of_mem, All_mem,
}
use mathlib.Core.List.Memᴰ
use mathlib.Core.List.{Memᴰ}
use esclusa.Clock.{DateTime}
use esclusa.Db.{Row}
use esclusa.Ledger.Store.{max_ts, is_unspent_allow, recent_allow, thirty_minutes}

module _ {N : Type 0} where
  -- A recorded permission to remove the target.
  abbrev pub permits : String → Row N → Bool
  permits target r =
      r.kind == "decision"
      && r.decision == "allow"
      && (r.action == "service.delete" || r.action == "service.stop")
      && r.target == target

  -- A recorded removal of the target that a permission covered.
  abbrev pub spends : String → Row N → Bool
  spends target r = r.kind == "audit" && r.target == target

  -- A permission of the last thirty minutes that is younger than every removal already covered.
  pub record Unspent (target : String) (t : DateTime) (rows : List (Row N)) (r : Row N)
      : Type 0 where
    pub permitted : permits target r ≡ true
    pub recent : t < r.ts + thirty_minutes
    pub after_epoch : 0 < r.ts
    pub unspent : All (λ (a : Row N). spends target a ≡ true → a.ts < r.ts) rows

  max_lt-cons :
      (n : ℕ) (r : Row N) (rows : List (Row N))
      → 0 < n
      → (unwrap_or (max_ts (r ∷ rows)) 0 < n) ↔ ((r.ts < n) × (unwrap_or (max_ts rows) 0 < n))
  unfolding max_ts
  max_lt-cons n r rows h = ground arith

  -- `ts > COALESCE(max(ts), epoch)` compares with every row that the inner query selects.
  max_lt :
      (p : Row N → Bool) (n : ℕ) (rows : List (Row N))
      → 0 < n
      → (unwrap_or (max_ts (where_rows p rows)) 0 < n)
        ↔ All (λ (a : Row N). p a ≡ true → a.ts < n) rows
  max_lt p n [] h = (λ _. tt, λ _. unfold max_ts in h)
  max_lt p n (r ∷ rows) h = elim (Bool-cases (p r)) [
    | inl e ↦ rw e (
        (
          λ k. (
            λ _. ((max_lt-cons n r (where_rows p rows) h).0 k).0,
            (max_lt p n rows h).0 ((max_lt-cons n r (where_rows p rows) h).0 k).1,
          ),
          λ k. (max_lt-cons n r (where_rows p rows) h).1 (k.0 refl, (max_lt p n rows h).1 k.1),
        ))
    | inr e ↦ rw e ((λ k. (λ q. cc, (max_lt p n rows h).0 k), λ k. (max_lt p n rows h).1 k.1))
  ]

  newest_audit : String → List (Row N) → ℕ
  newest_audit target rows = unwrap_or (max_ts (where_rows (spends target) rows)) 0

  to_unspent :
      (target : String) (t : DateTime) (rows : List (Row N)) (r : Row N)
      → is_unspent_allow target t rows r ≡ true
      → Unspent target t rows r
  unfolding is_unspent_allow newest_audit
  to_unspent target t rows r h =
      let (h', newer) = (&&_iff _ (ltb (newest_audit target rows) r.ts)).0 h in
      let (permitted, recent) = (&&_iff (permits target r) (ltb t (r.ts + thirty_minutes))).0 h' in
      let lt = (ltb_iff (newest_audit target rows) r.ts).0 newer in
      let pos_ts : 0 < r.ts = omega arith in
      record {
        permitted = permitted;
        recent = (ltb_iff _ _).0 recent;
        after_epoch = pos_ts;
        unspent = (max_lt (spends target) r.ts rows pos_ts).0 lt;
      }

  from_Unspent :
      (target : String) (t : DateTime) (rows : List (Row N)) (r : Row N)
      → Unspent target t rows r
      → is_unspent_allow target t rows r ≡ true
  unfolding is_unspent_allow newest_audit
  from_Unspent target t rows r u =
      (&&_iff (permits target r && ltb t (r.ts + thirty_minutes))
          (ltb (newest_audit target rows) r.ts)).1
        (
          (&&_iff (permits target r) (ltb t (r.ts + thirty_minutes))).1
              (u.permitted, (ltb_iff _ _).1 u.recent),
          (ltb_iff _ _).1 ((max_lt (spends target) r.ts rows u.after_epoch).1 u.unspent),
        )

  -- The query finds an authorization exactly when a recorded permission of the last thirty minutes is
  -- younger than every covered removal of the same target.
  pub recent_allow_iff :
      (target : String) (t : DateTime) (rows : List (Row N))
      → (recent_allow target t rows ≡ true) ↔ ((r : Row N) × Memᴰ r rows × Unspent target t rows r)
  unfolding recent_allow
  recent_allow_iff target t rows = (
    λ h.
        let (r, m, e) = any_mem (is_unspent_allow target t rows) rows h in
        (r, m, to_unspent target t rows r e),
    λ (r, m, u). any_of_mem (is_unspent_allow target t rows) m (from_Unspent target t rows r u),
  )

  -- One permission covers one removal: with a covered removal of the target in the ledger, and no
  -- permission younger than it, the query finds none.
  pub recent_allow-spent :
      (target : String) (t : DateTime) (before after : List (Row N)) (audit : Row N)
      → spends target audit ≡ true
      → All (λ (r : Row N). permits target r ≡ true → r.ts ≤ audit.ts) (before ++ audit ∷ after)
      → recent_allow target t (before ++ audit ∷ after) ≡ false
  recent_allow-spent target t before after audit s older =
      elim (Bool-cases (recent_allow target t (before ++ audit ∷ after))) [
        | inr e ↦ e
        | inl e ↦
            let (r, m, u) = (recent_allow_iff target t (before ++ audit ∷ after)).0 e in
            let younger =
              All_mem (λ (a : Row N). spends target a ≡ true → a.ts < r.ts)
                (Memᴰ.append_right before (Memᴰ.head refl)) u.unspent s in
            let older_r =
              All_mem (λ (a : Row N). permits target a ≡ true → a.ts ≤ audit.ts) m older
                u.permitted in
            absurd (omega arith)
      ]
