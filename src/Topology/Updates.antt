-- ===== src/Topology/Updates.antt =====
-- The `UPDATE`s of the table `topology` in gate/src/probe.rs.
use esclusa.Prelude.{
  ℕ, suc, ◌^◌, String, Bool, true, false, not, ◌&&◌, ◌||◌, ◌==◌, Option, none, some, List, [], ◌∷◌,
  map, length, any, where_rows, ltb, if◌then◌else◌,
}
use esclusa.Clock.{DateTime}
use esclusa.Db.{TopologyRow, Tables}

-- `UPDATE ... SET f WHERE p`, and the number of rows that it changes.
unfoldable pub set_rows :
    (TopologyRow → Bool) → (TopologyRow → TopologyRow) → List TopologyRow → List TopologyRow
set_rows p f [] = []
set_rows p f (r ∷ rows) = (if p r then f r else r) ∷ set_rows p f rows

abbrev pub update :
    {N : Type 0}
    → (TopologyRow → Bool)
    → (TopologyRow → TopologyRow)
    → Tables N
    → Option (ℕ × Tables N)
update p f tables = some (
  length (where_rows p tables.topology),
  record tables { topology = set_rows p f tables.topology },
)

-- The conditions and assignments of the statements; `t` is `now()` as the columns keep it.
abbrev pub is_host : String → TopologyRow → Bool
is_host host r = r.hostname == host

abbrev pub is_gone : String → TopologyRow → Bool
is_gone host r =
    r.hostname == host && (r.status == "missing-unaudited" || r.status == "removed-audited")

abbrev pub is_present : String → TopologyRow → Bool
is_present host r = r.hostname == host && r.status == "present"

abbrev pub restored : DateTime → TopologyRow → TopologyRow
restored t r = record r {
  status = "present";
  probe_ok = true;
  consecutive_failures = 0;
  last_probe = some t;
  updated_at = t;
}

abbrev pub answered : DateTime → TopologyRow → TopologyRow
answered t r = record r {
  probe_ok = true;
  consecutive_failures = 0;
  last_probe = some t;
  updated_at = t;
}

abbrev pub missed : DateTime → TopologyRow → TopologyRow
missed t r = record r {
  probe_ok = false;
  consecutive_failures = suc r.consecutive_failures;
  last_probe = some t;
  updated_at = t;
}

abbrev pub moved : String → DateTime → TopologyRow → TopologyRow
moved new_status t r = record r { status = new_status; updated_at = t }

-- `consecutive_failures + 1` leaves the range of an INTEGER column.
abbrev pub is_full : TopologyRow → Bool
is_full r = not (ltb (suc r.consecutive_failures) (2 ^ 31))

-- The first statement of `handle_failure`, with the rows that it returns.
unfoldable pub count_failure :
    {N : Type 0} → String → DateTime → Tables N → Option (List TopologyRow × Tables N)
unfolding set_rows
count_failure host t tables =
    if any is_full (where_rows (is_host host) tables.topology)
    then none
    else some (
      map (missed t) (where_rows (is_host host) tables.topology),
      record tables { topology = set_rows (is_host host) (missed t) tables.topology },
    )

abbrev pub status_after : Bool → String
status_after true = "removed-audited"
status_after false = "missing-unaudited"
