-- ===== src/Probe/Reappearing.antt =====
-- What a probe that is answered does to the tables: `handle_success` of gate/src/probe.rs.
use esclusa.Prelude.{ℕ, String, Bool, true, false, List, nat_eq, unwrap_or, ◌≡◌, ◌⊎◌, inl, inr, sym}
use esclusa.Clock.{DateTime}
use esclusa.External.{External}
use esclusa.Db.{Tables, World, some_pair}
use esclusa.Db.Statements.{perform-attempt}
use esclusa.Probe.{reappearance, welcome, handle_success}
use esclusa.Topology.Updates.{set_rows, is_host, is_gone, restored, answered}
use esclusa.Probe.Failing.{Noted, note_lem}

module _ (x : External) (key : List ℕ) where
  open x use {Number, timestamptz}

  abbrev pub returned : String → DateTime → Tables Number → Tables Number
  returned host t tables = record tables {
    topology = set_rows (is_gone host) (restored t) tables.topology;
  }

  abbrev pub cleared : String → DateTime → Tables Number → Tables Number
  cleared host t tables = record tables {
    topology = set_rows (is_host host) (answered t) tables.topology;
  }

  -- The second half: an entry, or the host's rows are cleared, or nothing.
  abbrev pub Welcomed : String → (before after : Tables Number) → Type 0
  Welcomed host before after =
      Noted x key (reappearance x host) before after
      ⊎ ((t : DateTime) × (after ≡ cleared host t before))

  abbrev pub Succeeded : String → (before after : Tables Number) → Type 0
  Succeeded host before after =
      (mid : Tables Number) × ((mid ≡ before) ⊎ ((t : DateTime) × (mid ≡ returned host t before)))
      × Welcomed host mid after

  welcome_lem :
      (host : String) (own : Bool) (w : World Number)
      → Welcomed host w.tables (welcome x key host own w).1.tables
  welcome_lem host true w = inl (note_lem x key (reappearance x host) w)
  welcome_lem host false w =
      perform-attempt _ (λ (r, w'). Welcomed host w.tables w'.tables) _ w (λ w' e. inl (inl e))
        (λ w' n e. inr (timestamptz w'.clock, sym (some_pair e).1))
        (λ w' n e. inr (timestamptz w'.clock, sym (some_pair e).1))

  pub handle_success_lem :
      (host : String) (w : World Number)
      → Succeeded host w.tables (handle_success x key host w).1.tables
  unfolding handle_success
  handle_success_lem host w =
      perform-attempt (λ n. welcome x key host (nat_eq (unwrap_or n 0) 1))
        (λ (r, w'). Succeeded host w.tables w'.tables) _ w
        (λ w' e. (w'.tables, inl e, welcome_lem host false w'))
        (λ w' n e.
          (w'.tables, inr (timestamptz w'.clock, sym (some_pair e).1), welcome_lem host false w'))
        (λ w' n e. (
          w'.tables,
          inr (timestamptz w'.clock, sym (some_pair e).1),
          welcome_lem host (nat_eq n 1) w',
        ))
