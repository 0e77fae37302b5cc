-- ===== src/Db/Statements.antt =====
-- Reasoning about a handler statement by statement, whatever becomes of each.
use mathlib.Core.Path.{subst}
use esclusa.Prelude.{◌+◌, Option, none, some, List, [], ◌∷◌, ◌≡◌, refl, sym}
use esclusa.Clock.{DateTime}
use esclusa.Db.{
  Tables, World, Exec, Outcome, done, failed, lost, Await, some_pair, arrive, settle, perform,
  attempt, query, now, ◌>>=◌,
}

module _ {N : Type 0} where
  -- Whatever becomes of a statement: it is dropped, its effect is there and its reply is lost, or
  -- the handler goes on with its reply.
  module _ {A B : Type 0} (k : A → Exec N B) (Q : Option B × World N → Type 0) where
    settle-bind :
        (f : DateTime → Tables N → Option (A × Tables N)) (o : Outcome) (w : World N)
        (r : Option (A × Tables N))
        → f w.clock w.tables ≡ r
        → ((w' : World N) → w'.tables ≡ w.tables → Q (none, w'))
        → ((w' : World N) (a : A) → f w'.clock w.tables ≡ some (a, w'.tables) → Q (none, w'))
        → ((w' : World N) (a : A) → f w'.clock w.tables ≡ some (a, w'.tables) → Q (k a w'))
        → Q (let (r', w') = settle o r w in elim r' [ some a ↦ k a w' | none ↦ (none, w') ])
    settle-bind f failed w r e drop mute reply = drop w refl
    settle-bind f done w none e drop mute reply = drop w refl
    settle-bind f done w (some (a, t)) e drop mute reply = reply (record w { tables = t }) a e
    settle-bind f lost w none e drop mute reply = drop w refl
    settle-bind f lost w (some (a, t)) e drop mute reply = mute (record w { tables = t }) a e

    arrive-bind :
        (f : DateTime → Tables N → Option (A × Tables N)) (l : List Await) (w : World N)
        → ((w' : World N) → w'.tables ≡ w.tables → Q (none, w'))
        → ((w' : World N) (a : A) → f w'.clock w.tables ≡ some (a, w'.tables) → Q (none, w'))
        → ((w' : World N) (a : A) → f w'.clock w.tables ≡ some (a, w'.tables) → Q (k a w'))
        → Q (
            let (o, u) = arrive l w in
            let (r', w') = settle o (f u.clock u.tables) u in
            elim r' [ some a ↦ k a w' | none ↦ (none, w') ])
    arrive-bind f [] w drop mute reply = settle-bind f done w _ refl drop mute reply
    arrive-bind f (a ∷ rest) w drop mute reply =
        settle-bind f a.outcome (record w { clock = w.clock + a.elapsed; awaits = rest }) _ refl
          drop mute reply

    pub perform-bind :
        (f : DateTime → Tables N → Option (A × Tables N)) (w : World N)
        → ((w' : World N) → w'.tables ≡ w.tables → Q (none, w'))
        → ((w' : World N) (a : A) → f w'.clock w.tables ≡ some (a, w'.tables) → Q (none, w'))
        → ((w' : World N) (a : A) → f w'.clock w.tables ≡ some (a, w'.tables) → Q (k a w'))
        → Q ((perform f >>= k) w)
    unfolding perform ◌>>=◌
    perform-bind f w = arrive-bind f w.awaits w

    -- A statement that changes nothing gives its answer or an error.
    pub query-bind :
        (g : DateTime → Tables N → A) (w : World N)
        → ((w' : World N) → w'.tables ≡ w.tables → Q (none, w'))
        → ((w' : World N) → w'.tables ≡ w.tables → Q (k (g w'.clock w.tables) w'))
        → Q ((query g >>= k) w)
    unfolding query
    query-bind g w drop reply =
        perform-bind (λ t tables. some (g t tables, tables)) w drop
          (λ w' a e. drop w' (sym (some_pair e).1))
          (λ w' a e. subst (λ b. Q (k b w')) (some_pair e).0 (reply w' (sym (some_pair e).1)))

  module _ {B : Type 0} (Q : Option B × World N → Type 0) where
    pub now-bind : (l : DateTime → Exec N B) (w : World N) → Q (l w.clock w) → Q ((now >>= l) w)
    unfolding ◌>>=◌
    now-bind l w q = q

  -- What holds of a handler that goes on with the result of an attempt, whatever that is.
  module _ {A B : Type 0} (k : Option A → Exec N B) (Q : Option B × World N → Type 0) where
    pub attempt-bind :
        (m : Exec N A) (w : World N) → Q (let (r, w') = m w in k r w') → Q ((attempt m >>= k) w)
    unfolding attempt ◌>>=◌
    attempt-bind m w q = q

    settle-attempt :
        (f : DateTime → Tables N → Option (A × Tables N)) (o : Outcome) (w : World N)
        (r : Option (A × Tables N))
        → f w.clock w.tables ≡ r
        → ((w' : World N) → w'.tables ≡ w.tables → Q (k none w'))
        → ((w' : World N) (a : A) → f w'.clock w.tables ≡ some (a, w'.tables) → Q (k none w'))
        → ((w' : World N) (a : A) → f w'.clock w.tables ≡ some (a, w'.tables) → Q (k (some a) w'))
        → Q (let (r', w') = settle o r w in k r' w')
    settle-attempt f failed w r e drop mute reply = drop w refl
    settle-attempt f done w none e drop mute reply = drop w refl
    settle-attempt f done w (some (a, t)) e drop mute reply = reply (record w { tables = t }) a e
    settle-attempt f lost w none e drop mute reply = drop w refl
    settle-attempt f lost w (some (a, t)) e drop mute reply = mute (record w { tables = t }) a e

    arrive-attempt :
        (f : DateTime → Tables N → Option (A × Tables N)) (l : List Await) (w : World N)
        → ((w' : World N) → w'.tables ≡ w.tables → Q (k none w'))
        → ((w' : World N) (a : A) → f w'.clock w.tables ≡ some (a, w'.tables) → Q (k none w'))
        → ((w' : World N) (a : A) → f w'.clock w.tables ≡ some (a, w'.tables) → Q (k (some a) w'))
        → Q (let (o, u) = arrive l w in let (r', w') = settle o (f u.clock u.tables) u in k r' w')
    arrive-attempt f [] w drop mute reply = settle-attempt f done w _ refl drop mute reply
    arrive-attempt f (a ∷ rest) w drop mute reply =
        settle-attempt f a.outcome (record w { clock = w.clock + a.elapsed; awaits = rest }) _ refl
          drop mute reply

    pub perform-attempt :
        (f : DateTime → Tables N → Option (A × Tables N)) (w : World N)
        → ((w' : World N) → w'.tables ≡ w.tables → Q (k none w'))
        → ((w' : World N) (a : A) → f w'.clock w.tables ≡ some (a, w'.tables) → Q (k none w'))
        → ((w' : World N) (a : A) → f w'.clock w.tables ≡ some (a, w'.tables) → Q (k (some a) w'))
        → Q ((attempt (perform f) >>= k) w)
    unfolding perform attempt ◌>>=◌
    perform-attempt f w = arrive-attempt f w.awaits w

    pub query-attempt :
        (g : DateTime → Tables N → A) (w : World N)
        → ((w' : World N) → w'.tables ≡ w.tables → Q (k none w'))
        → ((w' : World N) → w'.tables ≡ w.tables → Q (k (some (g w'.clock w.tables)) w'))
        → Q ((attempt (query g) >>= k) w)
    unfolding query
    query-attempt g w drop reply =
        perform-attempt (λ t tables. some (g t tables, tables)) w drop
          (λ w' a e. drop w' (sym (some_pair e).1))
          (λ w' a e.
            subst (λ b. Q (k (some b) w')) (some_pair e).0 (reply w' (sym (some_pair e).1)))

  -- What holds of the tables after the first action and after both.
  pub bind_lem :
      {A B : Type 0} (P : Tables N → Type 0) (m : Exec N A) (k : A → Exec N B) (w : World N)
      → P (m w).1.tables
      → ((a : A) → P (k a (m w).1).1.tables)
      → P ((m >>= k) w).1.tables
  unfolding ◌>>=◌
  bind_lem {A} {B} P m k w stop go = by_result (m w).0
    where
      Q : Option B × World N → Type 0
      Q (r, w') = P w'.tables

      by_result : (r : Option A) → Q (elim r [ some a ↦ k a (m w).1 | none ↦ (none, (m w).1) ])
      by_result none = stop
      by_result (some a) = go a
