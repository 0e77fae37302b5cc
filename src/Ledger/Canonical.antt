-- ===== src/Ledger/Canonical.antt =====
-- The canonical string of gate/src/ledger.rs is injective: it can be read in one way only.
use Prim.Native.Char.{Char}
use Prim.Native.String.append
use Prim.Native.String.{[], ◌∷◌, ◌++◌}
use mathlib.Core.List.{List, foldl}
use text.Mathlib.TextLemmas.{
  append_assoc, append-eq-nil_iff, cons-ne-nil, tail-eq_of_cons-eq, head-eq_of_cons-eq, append-nil,
}
use esclusa.Prelude.{
  ℕ, String, Bool, true, false, ◌≡◌, ◌≢◌, ◌≤◌, eq_iff, get_or, refl, sym, ap, ◌∙◌, arith,
}
use esclusa.Text.{byte_len, utf8_width, show, show_ℤ}
use esclusa.Text.Decimal.{show-colon_injective, show_ℤ-injective}
use esclusa.External.{External}
use esclusa.Ledger.{Entry, push_field, flag, params_json, entry_canonical}

-- The fields from left to right.
encode : List String → String
encode List.[] = []
encode (List.◌∷◌ s r) = show (byte_len s) ++ (":" ∷ (s ++ ("|" ∷ encode r)))

text_of_char : (c : Char) (t : String) → (c ∷ []) ++ t ≡ c ∷ t
text_of_char c t = append.cons c [] t ∙ ap (λ (u : String). c ∷ u) (append.nil t)

push_field-encode :
    (out s : String) (r : List String) → push_field out s ++ encode r ≡ out ++ encode (List.◌∷◌ s r)
unfolding push_field encode
push_field-encode out s r =
    simp append_assoc (rw (text_of_char ":" (s ++ ("|" ++ encode r)), text_of_char "|" (encode r)))

foldl-push_field : (out : String) (l : List String) → foldl push_field out l ≡ out ++ encode l
foldl-push_field out List.[] = unfold encode in sym (append-nil out)
foldl-push_field out (List.◌∷◌ s r) =
    foldl-push_field (push_field out s) r ∙ push_field-encode out s r

width_pos : (c : Char) → 1 ≤ utf8_width c
width_pos c = ground arith

-- Two texts of one length in bytes in front of bars are equal, and so is what follows.
same_length :
    (s t u v : String)
    → byte_len s ≡ byte_len t
    → s ++ ("|" ∷ u) ≡ t ++ ("|" ∷ v)
    → (s ≡ t) × (u ≡ v)
unfolding byte_len
same_length [] [] u v n h =
    (refl, tail-eq_of_cons-eq (sym (append.nil ("|" ∷ u)) ∙ h ∙ append.nil ("|" ∷ v)))
same_length [] (d ∷ t) u v n h = absurd (omega (arith, width_pos d))
same_length (c ∷ s) [] u v n h = absurd (omega (arith, width_pos c))
same_length (c ∷ s) (d ∷ t) u v n h =
    let e : c ∷ (s ++ ("|" ∷ u)) ≡ d ∷ (t ++ ("|" ∷ v)) =
      sym (append.cons c s ("|" ∷ u)) ∙ h ∙ append.cons d t ("|" ∷ v) in
    let head : c ≡ d = head-eq_of_cons-eq e in
    let width : utf8_width c ≡ utf8_width d = ap utf8_width head in
    let (same, rest) = same_length s t u v (omega arith) (tail-eq_of_cons-eq e) in
    ((λ i. head i ∷ same i), rest)

encode-injective : (l m : List String) → encode l ≡ encode m → l ≡ m
unfolding encode
encode-injective List.[] List.[] h = refl
encode-injective List.[] (List.◌∷◌ t m) h =
    absurd (cons-ne-nil ":" (t ++ ("|" ∷ encode m)) (append-eq-nil_iff.0 (sym h)).1)
encode-injective (List.◌∷◌ s l) List.[] h =
    absurd (cons-ne-nil ":" (s ++ ("|" ∷ encode l)) (append-eq-nil_iff.0 h).1)
encode-injective (List.◌∷◌ s l) (List.◌∷◌ t m) h =
    let (n, rest) = show-colon_injective (byte_len s) (byte_len t) _ _ h in
    let (e, tails) = same_length s t (encode l) (encode m) n rest in
    λ i. List.◌∷◌ (e i) (encode-injective l m tails i)

-- A list of fields can be read back from the string that `push_field` makes of it.
pub fields-injective : (l m : List String) → foldl push_field "" l ≡ foldl push_field "" m → l ≡ m
fields-injective l m h = encode-injective l m (
    sym (append.nil (encode l))
    ∙ sym (foldl-push_field "" l)
    ∙ h
    ∙ foldl-push_field "" m
    ∙ append.nil (encode m))

one-ne-zero : ◌≢◌ {A = String} "1" "0"
one-ne-zero = ground (arith, eq_iff "1" "0")

flag-injective : (a b : Bool) → flag a ≡ flag b → a ≡ b
flag-injective true true h = refl
flag-injective true false h = absurd (one-ne-zero h)
flag-injective false true h = absurd (one-ne-zero (sym h))
flag-injective false false h = refl

module _ (x : External) where
  open x use {Number}

  -- The two entries hold the same, the parameters as serde_json prints them, and the stored HMAC
  -- left aside.
  pub record SameContent (d e : Entry Number) : Type 0 where
    pub id : d.id ≡ e.id
    pub ts : d.ts ≡ e.ts
    pub kind : d.kind ≡ e.kind
    pub actor : d.actor ≡ e.actor
    pub action : d.action ≡ e.action
    pub target : d.target ≡ e.target
    pub decision : d.decision ≡ e.decision
    pub reason : d.reason ≡ e.reason
    pub policy : d.policy ≡ e.policy
    pub params : params_json x d.params ≡ params_json x e.params
    pub authenticated : d.authenticated ≡ e.authenticated
    pub prev_hmac : d.prev_hmac ≡ e.prev_hmac

  fields : Entry Number → List String
  fields e = List.◌∷◌ (show_ℤ e.id) (
      List.◌∷◌ e.ts (
        List.◌∷◌ e.kind (
          List.◌∷◌ e.actor (
            List.◌∷◌ e.action (
              List.◌∷◌ e.target (
                List.◌∷◌ e.decision (
                  List.◌∷◌ e.reason (
                    List.◌∷◌ e.policy (
                      List.◌∷◌ (params_json x e.params)
                        (List.◌∷◌ (flag e.authenticated) (List.◌∷◌ e.prev_hmac List.[])))))))))))

  -- Entries with the same canonical string hold the same: no planted delimiter makes two rows
  -- collide.
  pub entry_canonical-injective :
      (d e : Entry Number) → entry_canonical x d ≡ entry_canonical x e → SameContent d e
  unfolding entry_canonical fields
  entry_canonical-injective d e h =
      let same = fields-injective (fields d) (fields e) h in
      let nth = λ (n : ℕ). ap (λ (l : List String). get_or l n "") same in
      record {
        id = show_ℤ-injective d.id e.id (nth 0);
        ts = nth 1;
        kind = nth 2;
        actor = nth 3;
        action = nth 4;
        target = nth 5;
        decision = nth 6;
        reason = nth 7;
        policy = nth 8;
        params = nth 9;
        authenticated = flag-injective d.authenticated e.authenticated (nth 10);
        prev_hmac = nth 11;
      }

  -- The other way round: what an entry holds determines its canonical string.
  pub entry_canonical-eq :
      (d e : Entry Number) → SameContent d e → entry_canonical x d ≡ entry_canonical x e
  unfolding entry_canonical
  entry_canonical-eq d e s = rw (
    s.id, s.ts, s.kind, s.actor, s.action, s.target, s.decision, s.reason, s.policy, s.params,
    s.authenticated, s.prev_hmac,
  )
