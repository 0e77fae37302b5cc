-- ===== src/Sync/Showing.antt =====
-- Which rows stay 'present' under the statements of `POST /v1/topology/sync` of gate/src/http.rs.
use esclusa.Prelude.{
  String, Bool, true, false, ◌==◌, eq_iff, eq_refl, List, [], ◌∷◌, any, All, ◌≡◌, arith,
}
use esclusa.Clock.{DateTime}
use esclusa.Db.{TopologyRow, Tables}
use esclusa.Topology.{SeedService}
use esclusa.Topology.Updates.{set_rows, is_present, moved}
use esclusa.Sync.{upsert_row}

-- A row of the host is 'present'.
abbrev pub Shows : {N : Type 0} → Tables N → String → Type 0
Shows tables host = any (is_present host) tables.topology ≡ true

pub upsert_row-shown :
    (t : DateTime) (s : SeedService) (rows : List TopologyRow)
    → any (is_present s.hostname) (upsert_row t s rows) ≡ true
unfolding upsert_row
upsert_row-shown t s [] = ground (arith, eq_refl s.hostname)
upsert_row-shown t s (r ∷ rows) = ground (arith, upsert_row-shown t s rows)

pub upsert_row-kept :
    (t : DateTime) (s : SeedService) (host : String) (rows : List TopologyRow)
    → any (is_present host) rows ≡ true
    → any (is_present host) (upsert_row t s rows) ≡ true
unfolding upsert_row
upsert_row-kept t s host [] h = cc
upsert_row-kept t s host (r ∷ rows) h = ground (arith, upsert_row-kept t s host rows)

pub moved-kept :
    (status : String) (t : DateTime) (host gone : String) (rows : List TopologyRow)
    → (host == gone) ≡ false
    → any (is_present host) rows ≡ true
    → any (is_present host) (set_rows (is_present gone) (moved status t) rows) ≡ true
unfolding set_rows
moved-kept status t host gone [] other h = cc
moved-kept status t host gone (r ∷ rows) other h = ground (
  arith,
  moved-kept status t host gone rows other,
  eq_iff r.hostname host,
  eq_iff r.hostname gone,
  eq_iff host gone,
)

pub others :
    (p : String → Bool) (hosts : List String) → any p hosts ≡ false → All (λ h. p h ≡ false) hosts
others p [] e = tt
others p (h ∷ hosts) e = (ground arith, others p hosts (ground arith))
