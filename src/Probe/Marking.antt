-- ===== src/Probe/Marking.antt =====
-- The topology behind a failed probe, row by row, against the `UPDATE`s of gate/src/probe.rs.
use esclusa.Prelude.{
  suc, String, Bool, true, false, ◌==◌, eq_iff, some, List, [], ◌∷◌, map, if◌then◌else◌, All, ◌≡◌,
  refl, ap₂,
}
use esclusa.Clock.{DateTime}
use esclusa.Db.{TopologyRow}
use esclusa.Topology.Updates.{set_rows, is_host, is_present, missed, moved}

-- The rows with a failed probe of `host` at the time `t`, its status set by `status`.
abbrev pub failed : String → DateTime → (String → String) → List TopologyRow → List TopologyRow
failed host t status rows =
    map
      (λ (r : TopologyRow).
        if r.hostname == host
        then record r {
          status = status r.status;
          probe_ok = false;
          consecutive_failures = suc r.consecutive_failures;
          last_probe = some t;
          updated_at = t;
        }
        else r)
      rows

pub counted-failed :
    (host : String) (t : DateTime) (rows : List TopologyRow)
    → set_rows (is_host host) (missed t) rows ≡ failed host t (λ s. s) rows
unfolding set_rows
counted-failed host t [] = refl
counted-failed host t (r ∷ rows) = ap₂ List.◌∷◌ refl (counted-failed host t rows)

pub claimed-failed :
    (host new : String) (t : DateTime) (rows : List TopologyRow)
    → All (λ s. is_host host s ≡ true → s.status ≡ "present") rows
    → set_rows (is_present host) (moved new t) (set_rows (is_host host) (missed t) rows)
      ≡ failed host t (λ s. new) rows
unfolding set_rows
claimed-failed host new t [] h = refl
claimed-failed host new t (r ∷ rows) h =
    ap₂ List.◌∷◌ (by_host (is_host host r) refl) (claimed-failed host new t rows h.1)
  where
    by_host :
        (b : Bool)
        → is_host host r ≡ b
        → ◌≡◌ {A = TopologyRow}
            (if is_present host (if b then missed t r else r)
              then moved new t (if b then missed t r else r)
              else (if b then missed t r else r))
            (if b then moved new t (missed t r) else r)
    by_host true e = rw (e, (eq_iff r.status "present").1 (h.0 e)) refl
    by_host false e = rw e refl
