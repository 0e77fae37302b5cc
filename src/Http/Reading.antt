-- ===== src/Http/Reading.antt =====
-- The two reads of `POST /v1/evaluate` of gate/src/http.rs.
use esclusa.Prelude.{Option, none, some, [], map, ◌≡◌, ◌⊎◌, inl, inr, refl}
use esclusa.Prelude.Dict.{collect}
use esclusa.Db.{PolicyRow, Tables, World}
use esclusa.Db.Statements.{query-bind}
use esclusa.Topology.{views, view_of}
use esclusa.Http.{load_enabled}

-- A read gives its answer or an error, and leaves the tables alone.
abbrev pub Read : {N A : Type 0} → A → Tables N → Option A × World N → Type 0
Read a before (r, w') = ((r ≡ none) ⊎ (r ≡ some a)) × (w'.tables ≡ before)

pub views_lem : {N : Type 0} (w : World N) → Read (map view_of w.tables.topology) w.tables (views w)
unfolding views
views_lem w =
    query-bind _ (Read (map view_of w.tables.topology) w.tables) _ w (λ w' e. (inl refl, e))
      λ w' e. (inr refl, e)

pub load_enabled_lem :
    {N : Type 0} (w : World N)
    → Read
        (collect [] (map (λ (r : PolicyRow). (r.id, r.enabled)) w.tables.policies))
        w.tables
        (load_enabled w)
unfolding load_enabled
load_enabled_lem w =
    query-bind _
      (Read (collect [] (map (λ (r : PolicyRow). (r.id, r.enabled)) w.tables.policies)) w.tables) _
      w (λ w' e. (inl refl, e)) λ w' e. (inr refl, e)
