-- ===== src/Http/Deciding.antt =====
-- What a valid request to `POST /v1/evaluate` of gate/src/http.rs leaves in the tables.
use mathlib.Core.Path.{subst}
use esclusa.Prelude.{
  some_injective, String, Bool, true, false, not, Option, none, some, List, [], map, if◌then◌else◌,
  unwrap_or, ◌≡◌, ◌≢◌, ◌⊎◌, inl, inr, refl, ap, arith,
}
use esclusa.Prelude.Dict.{Dict, collect}
use esclusa.Json.{empty_object}
use esclusa.Clock.{DateTime}
use esclusa.External.{External}
use esclusa.Db.{PolicyRow, Tables, World, Exec, pure, attempt, ◌>>=◌}
use esclusa.Db.Statements.{attempt-bind}
use esclusa.Policy.{Decision, TopoView}
use esclusa.Policy
use esclusa.Ledger.{Entry, NewEntry}
use esclusa.Ledger.Store.{append}
use esclusa.Ledger.Store.Appending.{append_lem, Appended, with_row, row_at, entry_at}
use esclusa.Secrets.{token_matches}
use esclusa.Topology.{views, view_of}
use esclusa.Http.{
  AppState, HeaderMap, EvaluateReq, Response, unavailable, decided, decision_entry, reply_to,
  record_decision, decide_with, decide_on, decide, present, load_enabled,
}
use esclusa.Http.Reading.{Read, views_lem, load_enabled_lem}

module _ (x : External) where
  open x use {Number}

  -- The rules' decision on a request, by the tables.
  abbrev pub decision_of : EvaluateReq Number → String → String → Tables Number → Decision
  decision_of req action target tables =
      Policy.evaluate x action target (unwrap_or req.params empty_object)
        (map view_of tables.topology)
        (collect [] (map (λ (r : PolicyRow). (r.id, r.enabled)) tables.policies))

  abbrev pub entry_of :
      AppState → HeaderMap → EvaluateReq Number → String → String → Tables Number → NewEntry Number
  entry_of st headers req action target tables =
      decision_entry x (unwrap_or (present req.actor) "anonymous") action target
        (unwrap_or req.params empty_object) (token_matches st.gate_token headers.x_gate_token)
        (decision_of req action target tables)

  -- The row of the decision is behind the ledger, and the answer is that decision with the entry's
  -- id, time and HMACs, or 503.
  pub record Recorded (st : AppState) (headers : HeaderMap) (req : EvaluateReq Number)
      (before after : Tables Number) (reply : Response Number) : Type 0 where
    pub action : String
    pub target : String
    pub time : DateTime
    pub acts : present req.action ≡ some action
    pub targets : present req.target ≡ some target
    pub stored :
        after
        ≡ with_row x before
            (row_at x st.signing_key (entry_of st headers req action target before) before time)
    pub told :
        (reply
          ≡ decided x (decision_of req action target before) (
              entry_at x st.signing_key (entry_of st headers req action target before) before time))
        ⊎ (reply.status ≡ 503)

  abbrev pub Outcome :
      AppState
      → HeaderMap
      → Option (EvaluateReq Number)
      → (before after : Tables Number) → Response Number
      → Type 0
  Outcome st headers parsed before after reply =
      ((reply.status ≢ 200) × (after ≡ before))
      ⊎ ((req : EvaluateReq Number) × (parsed ≡ some req)
          × Recorded st headers req before after reply)

  abbrev pub Replied :
      AppState
      → HeaderMap
      → Option (EvaluateReq Number)
      → Tables Number
      → Option (Response Number) × World Number
      → Type 0
  Replied st headers parsed before (r, w') =
      (reply : Response Number) × (r ≡ some reply)
      × Outcome st headers parsed before w'.tables reply

  module _ (st : AppState) (headers : HeaderMap) (req : EvaluateReq Number)
      (action target : String) where
    record_decision_lem :
        present req.action ≡ some action
        → present req.target ≡ some target
        → (tables : Tables Number) (w : World Number) → w.tables ≡ tables
        → Replied st headers (some req) tables (
            record_decision x st.signing_key
              (unwrap_or (present req.actor) "anonymous")
              action
              target
              (unwrap_or req.params empty_object)
              (token_matches st.gate_token headers.x_gate_token)
              (decision_of req action target tables)
              w)
    record_decision_lem acts targets tables w same =
        attempt-bind _ (Replied st headers (some req) tables) (append x st.signing_key new) w (
          _,
          refl,
          by_result _ (append x st.signing_key new w).1 (
              subst
                (λ (u : Tables Number).
                  Appended x st.signing_key new u (append x st.signing_key new w))
                same (append_lem x st.signing_key new w)),
        )
      where
        new : NewEntry Number
        new = entry_of st headers req action target tables

        by_result :
            (r : Option (Entry Number)) (w' : World Number)
            → Appended x st.signing_key new tables (r, w')
            → Outcome st headers
                (some req)
                tables
                w'.tables
                (reply_to x (decision_of req action target tables) r)
        by_result none w' (inl (failed, untouched)) = inl (λ e. absurd (omega arith), untouched)
        by_result (some e) w' (inl (failed, untouched)) = cc
        by_result r w' (inr (t, stored, told)) = inr (
          req,
          refl,
          record {
            action = action;
            target = target;
            time = t;
            acts = acts;
            targets = targets;
            stored = stored;
            told = elim told [
              | inl failed ↦ inr (
                  ap
                    (λ (o : Option (Entry Number)).
                      (reply_to x (decision_of req action target tables) o).status)
                    failed)
              | inr entry ↦ inl (ap (reply_to x (decision_of req action target tables)) entry)
            ];
          },
        )

    abbrev actor_of : String
    actor_of = unwrap_or (present req.actor) "anonymous"

    decide_with_lem :
        present req.action ≡ some action
        → present req.target ≡ some target
        → (tables : Tables Number) (enabled : Option (Dict Bool)) (w : World Number)
        → Read
            (collect [] (map (λ (r : PolicyRow). (r.id, r.enabled)) tables.policies))
            tables
            (enabled, w)
        → Replied st headers (some req) tables (
            decide_with x st.signing_key
              (unwrap_or (present req.actor) "anonymous")
              action
              target
              (unwrap_or req.params empty_object)
              (token_matches st.gate_token headers.x_gate_token)
              (map view_of tables.topology)
              enabled
              w)
    decide_with_lem acts targets tables none w (_, same) =
        (_, refl, inl (λ e. absurd (omega arith), same))
    decide_with_lem acts targets tables (some enabled) w (inl e, same) = cc
    decide_with_lem acts targets tables (some enabled) w (inr e, same) =
        rw (some_injective e) (record_decision_lem acts targets tables w same)

    decide_on_lem :
        present req.action ≡ some action
        → present req.target ≡ some target
        → (tables : Tables Number) (topo : Option (List TopoView)) (w : World Number)
        → Read (map view_of tables.topology) tables (topo, w)
        → Replied st headers (some req) tables (
            decide_on x st.signing_key
              (unwrap_or (present req.actor) "anonymous")
              action
              target
              (unwrap_or req.params empty_object)
              (token_matches st.gate_token headers.x_gate_token)
              topo
              w)
    decide_on_lem acts targets tables none w (_, same) =
        (_, refl, inl (λ e. absurd (omega arith), same))
    decide_on_lem acts targets tables (some topo) w (inl e, same) = cc
    decide_on_lem acts targets tables (some topo) w (inr e, same) = rw (some_injective e) (
        attempt-bind _ (Replied st headers (some req) tables) load_enabled w (
          decide_with_lem acts targets tables (load_enabled w).0 (load_enabled w).1 (
            subst
              (λ (u : Tables Number).
                Read (collect [] (map (λ (r : PolicyRow). (r.id, r.enabled)) u.policies)) u
                  (load_enabled w))
              same (load_enabled_lem w))))

    go_on : Option (List TopoView) → Exec Number (Response Number)
    go_on =
        decide_on x st.signing_key (unwrap_or (present req.actor) "anonymous") action target
          (unwrap_or req.params empty_object) (token_matches st.gate_token headers.x_gate_token)

    connected_lem :
        present req.action ≡ some action
        → present req.target ≡ some target
        → (connected : Bool) (w : World Number)
        → Replied st headers (some req) w.tables (
            (if not connected then pure (unavailable x) else (attempt views >>= λ topo. go_on topo))
              w)
    unfolding go_on
    connected_lem acts targets false w = (_, refl, inl (λ e. absurd (omega arith), refl))
    connected_lem acts targets true w =
        attempt-bind (λ topo. go_on topo) (Replied st headers (some req) w.tables) views w
          (decide_on_lem acts targets w.tables (views w).0 (views w).1 (views_lem w))

    pub decide_lem :
        present req.action ≡ some action
        → present req.target ≡ some target
        → (w : World Number)
        → Replied st headers (some req) w.tables (
            decide x st
              (unwrap_or (present req.actor) "anonymous")
              action
              target
              (unwrap_or req.params empty_object)
              (token_matches st.gate_token headers.x_gate_token)
              w)
    unfolding decide go_on
    decide_lem acts targets w = connected_lem acts targets st.connected w
