-- ===== src/Startup/Keeping.antt =====
-- The migration of gate/src/db.rs keeps the ledger and the statuses sound.
use mathlib.Core.Path.{subst}
use esclusa.Prelude.{ℕ, Bool, List, [], ◌∷◌, All, map, inl, inr, refl, sym}
use esclusa.Clock.{DateTime}
use esclusa.External.{External}
use esclusa.Db.{Tables, World}
use esclusa.Ledger.Store.Chained.{IsLedger}
use esclusa.Topology.{SeedService}
use esclusa.Topology.Seed.{seed}
use esclusa.Probe.Cycle.{HasStatus, Sound}
use esclusa.Startup.{seeded_row, init_once}
use esclusa.Startup.Migrating.{Migrated, init_once-Migrated}

seeded-HasStatus : (t : DateTime) (ss : List SeedService) → All HasStatus (map (seeded_row t) ss)
seeded-HasStatus t [] = tt
seeded-HasStatus t (s ∷ ss) = (inl refl, seeded-HasStatus t ss)

module _ (x : External) (key : List ℕ) where
  open x use {Number}

  Migrated-Sound :
      (before after : Tables Number)
      → Migrated x before after
      → Sound x key before
      → Sound x key after
  Migrated-Sound before after m s = (
    subst (IsLedger x key) (sym m.ledger) s.0,
    elim m.topology [
      | inl (_, seeded) ↦ subst (All HasStatus) (sym seeded) (seeded-HasStatus m.time seed)
      | inr same ↦ subst (All HasStatus) (sym same) s.1
    ],
  )

  pub init_once-Sound :
      (got : Bool) (w : World Number)
      → Sound x key w.tables
      → Sound x key (init_once x got w).1.tables
  init_once-Sound got w s = elim (init_once-Migrated x got w) [
    | inl (_, same) ↦ subst (Sound x key) (sym same) s
    | inr m ↦ Migrated-Sound w.tables _ m s
  ]
