-- ===== src/Probe/Transitions.antt =====
-- The status of a service under the probes of gate/src/probe.rs.
use mathlib.Core.Path.{subst}
use esclusa.Prelude.{
  ℕ, ◌≤◌, String, Bool, true, false, eq_iff, List, if◌then◌else◌, ◌≡◌, ◌⊎◌, inl, inr, refl, sym, ap,
  ◌∙◌, arith,
}
use esclusa.Clock.{DateTime}
use esclusa.External.{External}
use esclusa.Db.{TopologyRow, Tables, World}
use esclusa.Ledger.{NewEntry}
use esclusa.Ledger.Store.{recent_allow}
use esclusa.Probe.{handle_success, handle_failure}
use esclusa.Topology.Updates.{
  is_host, is_gone, is_present, missed, moved, restored, answered, status_after,
}
use esclusa.Probe.Updating.{
  Pairwise, Pairwise-refl, Pairwise-trans, All-map, All-pure, only_chosen, updated,
  set_rows-Pairwise, set_rows_twice-Pairwise,
}
use esclusa.Probe.Failing.{Noted, Failed, handle_failure_lem}
use esclusa.Probe.Reappearing.{returned, Welcomed, handle_success_lem}

abbrev Same : TopologyRow → TopologyRow → Type 0
Same r r' = (r'.hostname ≡ r.hostname) × (r'.status ≡ r.status)

-- A row before and after a failed probe of `host`.
abbrev pub Vanishes : {N : Type 0} → String → Tables N → TopologyRow → TopologyRow → Type 0
Vanishes host before r r' =
    (r'.hostname ≡ r.hostname)
    × ((r'.status ≡ r.status)
        ⊎ ((r.hostname ≡ host)
            × (r.status ≡ "present")
            × (2 ≤ r.consecutive_failures)
            × ((r'.status ≡ "missing-unaudited")
                ⊎ ((r'.status ≡ "removed-audited")
                    × ((t : DateTime) × (recent_allow host t before.ledger ≡ true))))))

-- A row before and after a probe of `host` that was answered.
abbrev pub Reappears : String → TopologyRow → TopologyRow → Type 0
Reappears host r r' =
    (r'.hostname ≡ r.hostname)
    × ((r'.status ≡ r.status)
        ⊎ ((r.hostname ≡ host)
            × ((r.status ≡ "missing-unaudited") ⊎ (r.status ≡ "removed-audited"))
            × (r'.status ≡ "present")))

missed-Same :
    (host : String) (t : DateTime) (r : TopologyRow) → Same r (updated (is_host host) (missed t) r)
missed-Same host t r = by_test (is_host host r)
  where
    by_test : (b : Bool) → Same r (if b then missed t r else r)
    by_test true = (refl, refl)
    by_test false = (refl, refl)

answered-Same :
    (host : String) (t : DateTime) (r : TopologyRow)
    → Same r (updated (is_host host) (answered t) r)
answered-Same host t r = by_test (is_host host r)
  where
    by_test : (b : Bool) → Same r (if b then answered t r else r)
    by_test true = (refl, refl)
    by_test false = (refl, refl)

restored-Reappears :
    (host : String) (t : DateTime) (r : TopologyRow)
    → Reappears host r (updated (is_gone host) (restored t) r)
restored-Reappears host t r = by_test (is_gone host r) refl
  where
    by_test : (b : Bool) → is_gone host r ≡ b → Reappears host r (if b then restored t r else r)
    by_test true e = (
      refl,
      inr (
        ground (arith, eq_iff r.hostname host),
        ground (arith, eq_iff r.status "missing-unaudited", eq_iff r.status "removed-audited"),
        refl,
      ),
    )
    by_test false e = (refl, inl refl)

module _ (x : External) (key : List ℕ) where
  open x use {Number, timestamptz}

  moved-Vanishes :
      (host : String) (audited : Bool) (t u : DateTime) (before : Tables Number)
      (row s : TopologyRow)
      → (audited ≡ true → (t : DateTime) × (recent_allow host t before.ledger ≡ true))
      → row.status ≡ "present"
      → 2 ≤ row.consecutive_failures
      → (is_host host s ≡ true → s ≡ row)
      → Vanishes host before s (
          updated
            (is_present host)
            (moved (status_after audited) u)
            (updated (is_host host) (missed t) s))
  moved-Vanishes host audited t u before row s seen present failing only =
      by_host (is_host host s) refl
    where
      by_audit :
          (a : Bool)
          → (a ≡ true → (t : DateTime) × (recent_allow host t before.ledger ≡ true))
          → (status_after a ≡ "missing-unaudited")
            ⊎ ((status_after a ≡ "removed-audited")
                × ((t : DateTime) × (recent_allow host t before.ledger ≡ true)))
      by_audit true h = inr (refl, h refl)
      by_audit false h = inl refl

      by_move :
          (b : Bool) (s' : TopologyRow)
          → is_host host s ≡ true
          → Same s s'
          → Vanishes host before s (if b then moved (status_after audited) u s' else s')
      by_move true s' e same = (
        same.0,
        inr (
          (eq_iff s.hostname host).0 e,
          ap (λ (r : TopologyRow). r.status) (only e) ∙ present,
          subst (λ (r : TopologyRow). 2 ≤ r.consecutive_failures) (sym (only e)) failing,
          by_audit audited seen,
        ),
      )
      by_move false s' e same = (same.0, inl same.1)

      by_host :
          (b : Bool)
          → is_host host s ≡ b
          → Vanishes host before s (
              updated
                (is_present host)
                (moved (status_after audited) u)
                (if b then missed t s else s))
      by_host true e = by_move (is_present host (missed t s)) (missed t s) e (refl, refl)
      by_host false e = rw e (refl, inl refl)

  -- An entry leaves the topology alone.
  Noted-topology :
      (new : NewEntry Number) (before after : Tables Number)
      → Noted x key new before after
      → after.topology ≡ before.topology
  Noted-topology new before after (inl e) = ap (λ (u : Tables Number). u.topology) e
  Noted-topology new before after (inr (t, e)) = ap (λ (u : Tables Number). u.topology) e

  Failed-Vanishes :
      (host : String) (before after : Tables Number)
      → Failed x key host before after
      → Pairwise (Vanishes host before) before.topology after.topology
  Failed-Vanishes host before after (inl e) =
      subst (λ (u : Tables Number). Pairwise (Vanishes host before) before.topology u.topology)
        (sym e) (Pairwise-refl (Vanishes host before) (λ r. (refl, inl refl)) before.topology)
  Failed-Vanishes host before after (inr (t, inl e)) =
      subst (λ (u : Tables Number). Pairwise (Vanishes host before) before.topology u.topology)
        (sym e)
        (set_rows-Pairwise (Vanishes host before) (is_host host) (missed t) before.topology (
          All-pure _ (λ r. let same = missed-Same host t r in (same.0, inl same.1))
            before.topology))
  Failed-Vanishes host before after (inr (t, inr (row, only, present, failing, c))) =
      subst (Pairwise (Vanishes host before) before.topology)
        (sym (Noted-topology _ _ after c.noted))
        (set_rows_twice-Pairwise (Vanishes host before) (is_host host) (is_present host) (missed t)
          (moved (status_after c.audited) (timestamptz c.time)) before.topology
          (All-map _ _
            (λ s h.
              moved-Vanishes host c.audited t (timestamptz c.time) before row s c.seen present
                failing h)
            before.topology (only_chosen (is_host host) row before.topology only)))

  -- A failed probe never changes a status but that of the host itself, from 'present', on which two
  -- failures or more were counted before: to 'missing-unaudited', or to 'removed-audited' if at some
  -- time the ledger that the probe met held an unspent authorization of a removal of the host.
  pub handle_failure-Vanishes :
      (host : String) (w : World Number)
      → Pairwise
          (Vanishes host w.tables)
          w.tables.topology
          (handle_failure x key host w).1.tables.topology
  handle_failure-Vanishes host w = Failed-Vanishes host w.tables _ (handle_failure_lem x key host w)

  Welcomed-Same :
      (host : String) (before after : Tables Number)
      → Welcomed x key host before after
      → Pairwise Same before.topology after.topology
  Welcomed-Same host before after (inl noted) =
      subst (Pairwise Same before.topology) (sym (Noted-topology _ before after noted))
        (Pairwise-refl Same (λ r. (refl, refl)) before.topology)
  Welcomed-Same host before after (inr (t, e)) =
      subst (λ (u : Tables Number). Pairwise Same before.topology u.topology) (sym e)
        (set_rows-Pairwise Same (is_host host) (answered t) before.topology
          (All-pure _ (answered-Same host t) before.topology))

  restored_half :
      (host : String) (before mid : Tables Number)
      → (mid ≡ before) ⊎ ((t : DateTime) × (mid ≡ returned x key host t before))
      → Pairwise (Reappears host) before.topology mid.topology
  restored_half host before mid (inl e) =
      subst (λ (u : Tables Number). Pairwise (Reappears host) before.topology u.topology) (sym e)
        (Pairwise-refl (Reappears host) (λ r. (refl, inl refl)) before.topology)
  restored_half host before mid (inr (t, e)) =
      subst (λ (u : Tables Number). Pairwise (Reappears host) before.topology u.topology) (sym e)
        (set_rows-Pairwise (Reappears host) (is_gone host) (restored t) before.topology
          (All-pure _ (restored-Reappears host t) before.topology))

  -- A probe that was answered never changes a status but that of the host itself, from
  -- 'missing-unaudited' or 'removed-audited', to 'present'.
  pub handle_success-Reappears :
      (host : String) (w : World Number)
      → Pairwise (Reappears host) w.tables.topology (handle_success x key host w).1.tables.topology
  handle_success-Reappears host w =
      let (mid, first, second) = handle_success_lem x key host w in
      Pairwise-trans (Reappears host) Same (Reappears host) join w.tables.topology mid.topology _
        (restored_half host w.tables mid first) (Welcomed-Same host mid _ second)
    where
      join : (a b c : TopologyRow) → Reappears host a b → Same b c → Reappears host a c
      join a b c (name, inl e) (name', e') = (name' ∙ name, inl (e' ∙ e))
      join a b c (name, inr (h, gone, e)) (name', e') = (name' ∙ name, inr (h, gone, e' ∙ e))
