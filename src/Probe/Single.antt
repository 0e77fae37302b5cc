-- ===== src/Probe/Single.antt =====
-- Counting a failure of a service that has one row, for gate/src/probe.rs.
use esclusa.Prelude.{
  suc, String, Bool, true, false, ◌&&◌, ◌==◌, eq_iff, List, [], ◌∷◌, where_rows, length,
  if◌then◌else◌, ◌≡◌, refl, ap, &&_iff, ◌∙◌,
}
use esclusa.Clock.{DateTime}
use esclusa.Db.{TopologyRow}
use esclusa.Topology.Updates.{set_rows, is_host, is_present, missed}
use esclusa.Prelude.{All}
use esclusa.Probe.Updating.{All-map, only_chosen}

length-present :
    (host : String) (t : DateTime) (rows : List TopologyRow)
    → All (λ s. is_host host s ≡ true → s.status ≡ "present") rows
    → length (where_rows (is_present host) (set_rows (is_host host) (missed t) rows))
      ≡ length (where_rows (is_host host) rows)
unfolding set_rows
length-present host t [] h = refl
length-present host t (r ∷ rows) h = by_host (length-present host t rows h.1) (is_host host r) refl
  where
    rest : List TopologyRow
    rest = where_rows (is_present host) (set_rows (is_host host) (missed t) rows)

    by_host :
        length rest ≡ length (where_rows (is_host host) rows)
        → (b : Bool) → is_host host r ≡ b
        → length (
            where_rows
              (is_present host)
              ((if b then missed t r else r) ∷ set_rows (is_host host) (missed t) rows))
          ≡ length
              (if b then r ∷ where_rows (is_host host) rows else where_rows (is_host host) rows)
    by_host tail true e =
        ap (λ b. length (if b then missed t r ∷ rest else rest))
          ((&&_iff (is_host host r) (r.status == "present")).1
            (e, (eq_iff r.status "present").1 (h.0 e)))
        ∙ ap suc tail
    by_host tail false e =
        ap (λ b. length (if b && r.status == "present" then r ∷ rest else rest)) e ∙ tail

-- The single row of the host is still its single row after it is counted.
pub count_single :
    (host : String) (t : DateTime) (row : TopologyRow) (rows : List TopologyRow)
    → where_rows (is_host host) rows ≡ row ∷ []
    → row.status ≡ "present"
    → length (where_rows (is_present host) (set_rows (is_host host) (missed t) rows)) ≡ 1
count_single host t row rows e present =
    length-present host t rows (
      All-map (λ s. is_host host s ≡ true → s ≡ row)
        (λ s. is_host host s ≡ true → s.status ≡ "present")
        (λ s same yes. ap (λ (r : TopologyRow). r.status) (same yes) ∙ present) rows
        (only_chosen (is_host host) row rows e))
    ∙ ap length e
