-- ===== src/Demo/Outcome.antt =====
-- How `POST /v1/demo/decommission` of gate/src/http.rs can end: with or without a call of `play_dead`.
use mathlib.Core.Path.{subst}
use mathlib.Core.List.{Memᴰ}
use esclusa.Prelude.{
  String, Bool, true, false, Option, none, some, some_injective, List, [], ◌∷◌, map, find,
  if◌then◌else◌, ◌≡◌, ◌≢◌, ◌⊎◌, inl, inr, refl, sym,
}
use esclusa.Prelude.Dict.{collect}
use esclusa.Json.{empty_object}
use esclusa.Clock.{DateTime}
use esclusa.External.{External}
use esclusa.Db.{PolicyRow, TopologyRow, Tables, World, pure}
use esclusa.Policy.{Decision, TopoView, Effect, allow, refuse}
use esclusa.Policy
use esclusa.Ledger.{Entry, NewEntry}
use esclusa.Ledger.Store.Appending.{with_row, row_at, entry_at}
use esclusa.Secrets.{token_matches}
use esclusa.Topology.{TopoRow, row_from_pg, view_of}
use esclusa.Http.{AppState, HeaderMap, Response, err, decision_entry}
use esclusa.Demo.{Call, Reply, refused, started, strike}

pub find_lem :
    {A : Type 0} (p : A → Bool) (xs : List A) {a : A}
    → find p xs ≡ some a
    → Memᴰ a xs × (p a ≡ true)
find_lem p [] e = cc
find_lem {A} p (x ∷ xs) {a} e = by_test (p x) refl e (find_lem p xs)
  where
    by_test :
        (b : Bool)
        → p x ≡ b
        → (if b then some x else find p xs) ≡ some a
        → (find p xs ≡ some a → Memᴰ a xs × (p a ≡ true))
        → Memᴰ a (x ∷ xs) × (p a ≡ true)
    by_test true h e later =
        (Memᴰ.head (sym (some_injective e)), subst (λ b. p b ≡ true) (some_injective e) h)
    by_test false h e later = let (m, q) = later e in (Memᴰ.tail m, q)

module _ (x : External) (st : AppState) (headers : HeaderMap) (host : String) where
  open x use {Number}

  -- The rules' decision on stopping the target, by the tables, and the entry of it.
  abbrev pub demo_decision : Tables Number → Decision
  demo_decision tables =
      Policy.evaluate x "service.stop" host empty_object (map view_of tables.topology)
        (collect [] (map (λ (r : PolicyRow). (r.id, r.enabled)) tables.policies))

  abbrev pub demo_entry : Tables Number → NewEntry Number
  demo_entry tables =
      decision_entry x "console-demo" "service.stop" host empty_object
        (token_matches st.gate_token headers.x_gate_token) (demo_decision tables)

  -- The decision is stored behind the ledger, at the time `t`.
  abbrev pub Stored : DateTime → Tables Number → Tables Number → Type 0
  Stored t before after =
      after ≡ with_row x before (row_at x st.signing_key (demo_entry before) before t)

  module _ (by_hostname : List TopologyRow → List TopologyRow) (call : Call) (approved : Bool) where
    -- `play_dead` was called: the target's row is present, and either nobody asked and nothing is
    -- written, or the gate was asked, allowed it, and the decision is stored.
    pub record Struck (before after : Tables Number) (reply : Response Number) : Type 0 where
      pub row : TopoRow
      pub listed : Memᴰ row (map (row_from_pg x) (by_hostname before.topology))
      pub named : row.hostname ≡ host
      pub present : row.status ≡ "present"
      pub justified :
          ((approved ≡ false) × (after ≡ before))
          ⊎ ((approved ≡ true)
              × ((demo_decision before).effect ≡ allow)
              × ((t : DateTime) × Stored t before after))
      pub told :
          ((call.ok ≡ true) × (reply.status ≡ 200)) ⊎ ((call.ok ≡ false) × (reply.status ≡ 502))

    -- It was not called: the answer is an error, and nothing is written or, when the reply to the write
    -- was lost, the decision; or the gate was asked and refused, which is stored and told.
    abbrev pub Spared : Tables Number → Tables Number → Response Number → Type 0
    Spared before after reply =
        ((reply.status ≢ 200)
          × ((after ≡ before) ⊎ ((approved ≡ true) × ((t : DateTime) × Stored t before after))))
        ⊎ ((approved ≡ true)
            × ((demo_decision before).effect ≡ refuse)
            × ((t : DateTime) × Stored t before after
                × (reply
                    ≡ refused x (demo_decision before)
                        (entry_at x st.signing_key (demo_entry before) before t))))

    abbrev pub Settled : Tables Number → Tables Number → Reply Number → Type 0
    Settled before after (reply, called) =
        ((called ≡ none) × Spared before after reply)
        ⊎ ((called ≡ some call) × Struck before after reply)

    abbrev pub Answers : Tables Number → Option (Reply Number) × World Number → Type 0
    Answers before (r, w') =
        (reply : Reply Number) × (r ≡ some reply) × Settled before w'.tables reply

    -- An answer that is no 200, with nothing written.
    pub turned_away :
        (before : Tables Number) (w : World Number) (reply : Response Number)
        → reply.status ≢ 200
        → w.tables ≡ before
        → Answers before (pure (reply, none) w)
    turned_away before w reply bad same = ((reply, none), refl, inl (refl, inl (bad, inl same)))

    module _ (t : TopoRow) (before : Tables Number)
        (listed : Memᴰ t (map (row_from_pg x) (by_hostname before.topology)))
        (named : t.hostname ≡ host) (present : t.status ≡ "present") where
      pub strike_lem :
          (after : Tables Number) (flag : Bool) (decision : Option (Decision × Entry Number))
          → (((approved ≡ false) × (after ≡ before))
              ⊎ ((approved ≡ true)
                  × ((demo_decision before).effect ≡ allow)
                  × ((t : DateTime) × Stored t before after)))
          → Settled before after (strike x host flag decision call)
      strike_lem after flag decision why = inr (
        refl,
        record {
          row = t;
          listed = listed;
          named = named;
          present = present;
          justified = why;
          told = by_ok call.ok refl;
        },
      )
        where
          by_ok :
              (b : Bool)
              → call.ok ≡ b
              → ((call.ok ≡ true)
                  × ((if b
                        then started x host flag decision
                        else err x 502 "could not reach the decommission target").status
                      ≡ 200))
                ⊎ ((call.ok ≡ false)
                    × ((if b
                          then started x host flag decision
                          else err x 502 "could not reach the decommission target").status
                        ≡ 502))
          by_ok true e = inl (e, refl)
          by_ok false e = inr (e, refl)
