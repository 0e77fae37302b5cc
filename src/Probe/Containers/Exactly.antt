-- ===== src/Probe/Containers/Exactly.antt =====
-- While the database answers, several containers that probe a silent host record its disappearance
-- exactly once (gate/src/probe.rs, the comment on the claim).
use mathlib.Core.Path.{subst}
use esclusa.Prelude.{
  ℕ, suc, ◌+◌, ◌<◌, ◌^◌, String, List, [], ◌∷◌, ◌++◌, length, length-append, All, ◌≡◌, ◌⊎◌, inl,
  inr, refl, sym, ap, ◌∙◌, arith,
}
use esclusa.External.{External}
use esclusa.Db.{Row, Tables, done}
use esclusa.Probe.Containers.{Phase, Turn, turn_of, interleave, containers}
use esclusa.Probe.Containers.Counting.{presents, owed}
use esclusa.Probe.Containers.Once.{interleave-once}
use esclusa.Probe.Containers.Waiting.{
  pending, IsWaiting, finished, owed-finished, pending-containers, containers-IsWaiting, Ready,
}
use esclusa.Probe.Containers.Turning.{Open, Made, waiting_turn_of, gone_turn_of}

-- The database answers.
abbrev pub Answers : Turn → Type 0
Answers s = s.outcome ≡ done

module _ (x : External) (key : List ℕ) (host : String) where
  open x use {Number}

  Made-run :
      (schedule : List Turn) (phases : List Phase) (tables : Tables Number)
      → All Answers schedule
      → presents host tables ≡ 0
      → Made x key host
          (length tables.ledger + owed phases)
          (interleave x key host schedule phases tables)
  unfolding interleave
  Made-run [] phases tables answers none_left = (none_left, refl)
  Made-run (s ∷ schedule) phases tables answers none_left =
      let (phases', after) = turn_of x key host s.container s.outcome s.time phases tables in
      let (gone, same) =
        subst
          (λ o.
            Made x key host (length tables.ledger + owed phases)
              (turn_of x key host s.container o s.time phases tables))
          (sym answers.0) (gone_turn_of x key host s.container s.time phases tables none_left) in
      let (gone', same') = Made-run schedule phases' after answers.1 gone in (gone', same' ∙ same)

  Open-run :
      (schedule : List Turn) (phases : List Phase) (tables : Tables Number)
      → All Answers schedule
      → (r : Ready host tables) → All IsWaiting phases
      → r.row.consecutive_failures + pending phases < 2 ^ 31
      → let last = interleave x key host schedule phases tables in
        Open x key host (r.row.consecutive_failures + pending phases) tables.ledger last
        ⊎ Made x key host (suc (length tables.ledger)) last
  unfolding interleave
  Open-run [] phases tables answers r h room = inl (r, h, refl, refl)
  Open-run (s ∷ schedule) phases tables answers r h room =
      let (phases', after) = turn_of x key host s.container s.outcome s.time phases tables in
      elim (subst
        (λ o.
          let next = turn_of x key host s.container o s.time phases tables in
          Open x key host (r.row.consecutive_failures + pending phases) tables.ledger next
          ⊎ Made x key host (suc (length tables.ledger)) next)
        (sym answers.0) (waiting_turn_of x key host s.container s.time phases tables r h room)) [
          | inl (r', w, same, ledger) ↦
              elim (Open-run schedule phases' after answers.1 r' w (omega arith)) [
                | inl (r'', w', same', ledger') ↦ inl (r'', w', same' ∙ same, ledger' ∙ ledger)
                | inr (gone, one) ↦ inr (gone, omega (arith, ap length ledger))
              ]
          | inr (gone, one) ↦
              let (gone', same') = Made-run schedule phases' after answers.1 gone in
              inr (gone', same' ∙ one)
        ]

  only_one :
      (l : List (Row Number))
      → length l ≡ 1
      → All (λ (r : Row Number). r.target ≡ host) l
      → (r : Row Number) × (l ≡ r ∷ []) × (r.target ≡ host)
  only_one [] e h = absurd (omega arith)
  only_one (r ∷ []) e h = (r, refl, h.0)
  only_one (r ∷ s ∷ l) e h = absurd (omega arith)

  -- While the database answers, one or more containers that probe a silent host all the way, however
  -- their statements interleave, add exactly one row to the ledger, about the host, if it has one row in
  -- the topology, which is present with two or more failures behind it and counts that fit an INTEGER.
  pub interleave-exactly :
      (n : ℕ) (schedule : List Turn) (tables : Tables Number) (r : Ready host tables)
      → All Answers schedule
      → r.row.consecutive_failures + suc n < 2 ^ 31
      → (interleave x key host schedule (containers (suc n)) tables).0 ≡ finished (suc n)
      → (row : Row Number) × ((interleave x key host schedule (containers (suc n)) tables).1.ledger
          ≡ tables.ledger ++ row ∷ [])
        × (row.target ≡ host)
  interleave-exactly n schedule tables r answers room ends =
      elim (Open-run schedule (containers (suc n)) tables answers r (containers-IsWaiting (suc n))
        (omega (arith, pending-containers n))) [
          | inl (r', w, same, ledger) ↦ absurd ((subst (All IsWaiting) ends w).0)
          | inr (gone, one) ↦
              let (added, e, about, few) = interleave-once x key host (suc n) schedule tables in
              let (row, single, target) =
                only_one added
                  (omega (
                    arith,
                    ap length e,
                    length-append tables.ledger added,
                    ap owed ends,
                    owed-finished n,
                  ))
                  about in
              (row, e ∙ ap (λ l. tables.ledger ++ l) single, target)
        ]
