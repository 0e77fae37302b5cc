-- ===== src/Demo/Handling.antt =====
-- The handler of `POST /v1/demo/decommission` in gate/src/http.rs from its client on, read by read.
use mathlib.Core.Path.{subst}
use mathlib.Core.List.{Memᴰ}
use esclusa.Prelude.{
  String, Bool, true, false, not, ◌==◌, eq_iff, Option, none, some, some_injective, List, [], map,
  find, if◌then◌else◌, ◌≡◌, inl, inr, refl, sym, ap, arith,
}
use esclusa.Prelude.Dict.{Dict, collect}
use esclusa.Clock.{DateTime}
use esclusa.External.{External}
use esclusa.Db.{PolicyRow, TopologyRow, Tables, World, pure}
use esclusa.Db.Statements.{attempt-bind, query-bind}
use esclusa.Policy.{Decision, TopoView, Effect, allow, refuse}
use esclusa.Ledger.{Entry}
use esclusa.Ledger.Store.{append}
use esclusa.Ledger.Store.Appending.{append_lem, Appended, entry_at}
use esclusa.Topology.{TopoRow, row_from_pg, views, view_of, all}
use esclusa.Http.{AppState, HeaderMap, err, unavailable, load_enabled}
use esclusa.Http.Reading.{Read, views_lem, load_enabled_lem}
use esclusa.Demo.{
  Call, Reply, in_progress, refused, obey, after_append, ask_gate, on_present, on_row, on_rows,
  on_views, with_client, demonstrate,
}
use esclusa.Demo.Outcome.{
  find_lem, demo_decision, demo_entry, Stored, Settled, Answers, turned_away, strike_lem,
}

all_lem :
    (x : External) (by_hostname : List TopologyRow → List TopologyRow) (w : World x.Number)
    → Read (map (row_from_pg x) (by_hostname w.tables.topology)) w.tables (all x by_hostname w)
unfolding all
all_lem x by_hostname w =
    query-bind _ (Read (map (row_from_pg x) (by_hostname w.tables.topology)) w.tables) _ w
      (λ w' e. (inl refl, e)) λ w' e. (inr refl, e)

module _ (x : External) (st : AppState) (headers : HeaderMap) (host : String)
    (by_hostname : List TopologyRow → List TopologyRow) (call : Call) where
  open x use {Number}

  abbrev decision_at : Tables Number → Decision
  decision_at = demo_decision x st headers host

  module _ (t : TopoRow) (before : Tables Number)
      (listed : Memᴰ t (map (row_from_pg x) (by_hostname before.topology)))
      (named : t.hostname ≡ host) (present : t.status ≡ "present") where
    obey_lem :
        (e : Effect) (entry : Entry Number) (after : Tables Number) (time : DateTime)
        → (decision_at before).effect ≡ e
        → Stored x st headers host time before after
        → entry ≡ entry_at x st.signing_key (demo_entry x st headers host before) before time
        → Settled x st headers host by_hostname call true before after
            (obey x st headers host call (decision_at before) e entry)
    obey_lem refuse entry after time d stored told =
        inl (refl, inr (refl, d, (time, stored, ap (refused x (decision_at before)) told)))
    obey_lem allow entry after time d stored told =
        strike_lem x st headers host by_hostname call true t before listed named present after true
          (some (decision_at before, entry)) (inr (refl, d, (time, stored)))

    after_append_lem :
        (r : Option (Entry Number)) (w' : World Number)
        → Appended x st.signing_key (demo_entry x st headers host before) before (r, w')
        → Settled x st headers host by_hostname call true before w'.tables
            (after_append x st headers host call (decision_at before) r)
    after_append_lem none w' (inl (_, same)) = inl (refl, inl (λ e. absurd (omega arith), inl same))
    after_append_lem none w' (inr (time, stored, _)) =
        inl (refl, inl (λ e. absurd (omega arith), inr (refl, (time, stored))))
    after_append_lem (some entry) w' (inl (failed, same)) = cc
    after_append_lem (some entry) w' (inr (time, stored, inl failed)) = cc
    after_append_lem (some entry) w' (inr (time, stored, inr told)) =
        obey_lem (decision_at before).effect entry w'.tables time refl stored (some_injective told)

    ask_gate_lem :
        (enabled : Option (Dict Bool)) (w : World Number)
        → Read
            (collect [] (map (λ (r : PolicyRow). (r.id, r.enabled)) before.policies))
            before
            (enabled, w)
        → Answers x st headers host by_hostname call true before
            (ask_gate x st headers host call (map view_of before.topology) enabled w)
    ask_gate_lem none w (_, same) =
        turned_away x st headers host by_hostname call true before w (unavailable x)
          (λ e. absurd (omega arith)) same
    ask_gate_lem (some enabled) w (inl e, same) = cc
    ask_gate_lem (some enabled) w (inr e, same) = rw (some_injective e) (
        attempt-bind _ (Answers x st headers host by_hostname call true before)
          (append x st.signing_key (demo_entry x st headers host before)) w
          (
            _,
            refl,
            after_append_lem (append x st.signing_key (demo_entry x st headers host before) w).0
                (append x st.signing_key (demo_entry x st headers host before) w).1
                (subst
                  (λ (u : Tables Number).
                    Appended x st.signing_key (demo_entry x st headers host before) u
                      (append x st.signing_key (demo_entry x st headers host before) w))
                  same (append_lem x st.signing_key (demo_entry x st headers host before) w)),
          ))

    on_present_lem :
        (approved : Bool) (w : World Number)
        → w.tables ≡ before
        → Answers x st headers host by_hostname call approved before
            (on_present x st headers host call approved (map view_of before.topology) w)
    on_present_lem false w same = (
      _,
      refl,
      strike_lem x st headers host by_hostname call false t before listed named present w.tables
          false none (inl (refl, same)),
    )
    on_present_lem true w same =
        attempt-bind _ (Answers x st headers host by_hostname call true before) load_enabled w (
          ask_gate_lem (load_enabled w).0 (load_enabled w).1 (
            subst
              (λ (u : Tables Number).
                Read (collect [] (map (λ (r : PolicyRow). (r.id, r.enabled)) u.policies)) u
                  (load_enabled w))
              same (load_enabled_lem w)))

  module _ (approved : Bool) where
    abbrev pub Answered : Tables Number → Option (Reply Number) × World Number → Type 0
    Answered = Answers x st headers host by_hostname call approved

    on_row_lem :
        (before : Tables Number) (row : Option TopoRow) (w : World Number)
        → find (λ t. t.hostname == host) (map (row_from_pg x) (by_hostname before.topology)) ≡ row
        → w.tables ≡ before
        → Answered before
            (on_row x st headers host call approved (map view_of before.topology) row w)
    on_row_lem before none w found same =
        turned_away x st headers host by_hostname call approved before w
          (err x 409 "the decommission target is not in the topology model")
          (λ e. absurd (omega arith)) same
    on_row_lem before (some t) w found same = by_status (t.status == "present") refl
      where
        by_status :
            (b : Bool)
            → (t.status == "present") ≡ b
            → Answers x st headers host by_hostname call approved before (
                (if not b
                    then pure (in_progress x host t.status, none)
                    else on_present x st headers host call approved (map view_of before.topology))
                  w)
        by_status false e =
            turned_away x st headers host by_hostname call approved before w
              (in_progress x host t.status) (λ e. absurd (omega arith)) same
        by_status true e =
            let (listed, named) = find_lem (λ (t : TopoRow). t.hostname == host) _ found in
            on_present_lem t before listed ((eq_iff t.hostname host).0 named)
              ((eq_iff t.status "present").0 e) approved w same

    on_rows_lem :
        (before : Tables Number) (rows : Option (List TopoRow)) (w : World Number)
        → Read (map (row_from_pg x) (by_hostname before.topology)) before (rows, w)
        → Answered before
            (on_rows x st headers host call approved (map view_of before.topology) rows w)
    on_rows_lem before none w (_, same) =
        turned_away x st headers host by_hostname call approved before w (unavailable x)
          (λ e. absurd (omega arith)) same
    on_rows_lem before (some rows) w (inl e, same) = cc
    on_rows_lem before (some rows) w (inr e, same) =
        on_row_lem before (find (λ t. t.hostname == host) rows) w
          (ap (find (λ (t : TopoRow). t.hostname == host)) (sym (some_injective e))) same

    on_views_lem :
        (before : Tables Number) (topo : Option (List TopoView)) (w : World Number)
        → Read (map view_of before.topology) before (topo, w)
        → Answered before (on_views x st headers host call approved by_hostname topo w)
    on_views_lem before none w (_, same) =
        turned_away x st headers host by_hostname call approved before w (unavailable x)
          (λ e. absurd (omega arith)) same
    on_views_lem before (some topo) w (inl e, same) = cc
    on_views_lem before (some topo) w (inr e, same) = rw (some_injective e) (
        attempt-bind _ (Answers x st headers host by_hostname call approved before)
          (all x by_hostname) w
          (on_rows_lem before (all x by_hostname w).0 (all x by_hostname w).1 (
            subst
              (λ (u : Tables Number).
                Read (map (row_from_pg x) (by_hostname u.topology)) u (all x by_hostname w))
              same (all_lem x by_hostname w))))

    pub demonstrate_lem :
        (w : World Number)
        → Answered w.tables (demonstrate x st headers host call approved by_hostname w)
    unfolding demonstrate
    demonstrate_lem w = by_client st.connected
      where
        by_client :
            (c : Bool)
            → Answers x st headers host by_hostname call approved w.tables
                (with_client x st headers host call approved by_hostname c w)
        by_client false =
            turned_away x st headers host by_hostname call approved w.tables w (unavailable x)
              (λ e. absurd (omega arith)) refl
        by_client true =
            attempt-bind _ (Answers x st headers host by_hostname call approved w.tables) views w
              (on_views_lem w.tables (views w).0 (views w).1 (views_lem w))
