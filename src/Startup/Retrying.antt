-- ===== src/Startup/Retrying.antt =====
-- The retries of gate/src/db.rs (`init_with_retry`, `cache_connect_with_retry`): the loops end, and how
-- long they wait between the rounds.
use mathlib.Core.Path.{subst}
use esclusa.Prelude.{
  ℕ, zero, suc, ◌+◌, ◌*◌, ◌≤◌, ◌<◌, Bool, true, false, not, Option, none, some, some_injective,
  List, [], ◌∷◌, length, All, if◌then◌else◌, ◌≡◌, ◌⊎◌, refl, sym, ap, ◌∙◌, inl, inr, arith,
}
use esclusa.Clock.{DateTime}
use esclusa.External.{External}
use esclusa.Db.{Tables, World, Exec, pure, ◌>>=◌}
use esclusa.Db.Spending.{Ends}
use esclusa.Startup.{
  SharedState, next_delay, sleep, next_input, later_inputs, init_once, init_loop, init_with_retry,
}
use esclusa.Startup.Seeding.{migrated, migrated-twice}
use esclusa.Startup.Migrating.{init_once_lem, Migrated, migrated-Migrated, no_client}

-- The first delay is given, each other twice the one before, up to thirty seconds.
abbrev pub IsBackoff : ℕ → List ℕ → Type 0
IsBackoff delay [] = Unit
IsBackoff delay (d ∷ slept) = (d ≡ delay) × IsBackoff (next_delay delay) slept

next_delay_bounds :
    (d : ℕ)
    → 2 ≤ d
    → (2 ≤ next_delay d) × (next_delay d ≤ 30) × ((next_delay d ≡ d * 2) ⊎ (next_delay d ≡ 30))
unfolding next_delay
next_delay_bounds d low = ground arith

abbrev pub InBounds : List ℕ → Type 0
InBounds = All (λ d. (2 ≤ d) × (d ≤ 30))

pub IsBackoff-InBounds :
    (delay : ℕ) (slept : List ℕ) → 2 ≤ delay → delay ≤ 30 → IsBackoff delay slept → InBounds slept
IsBackoff-InBounds delay [] low high h = tt
IsBackoff-InBounds delay (d ∷ slept) low high h =
    let next = next_delay_bounds delay low in
    (
      subst (λ n. (2 ≤ n) × (n ≤ 30)) (sym h.0) (low, high),
      IsBackoff-InBounds (next_delay delay) slept next.0 next.1 h.1,
    )

length-later_inputs : (gets : List Bool) → length (later_inputs gets) ≤ length gets
length-later_inputs [] = omega arith
length-later_inputs (g ∷ gets) = omega arith

-- The loop has ended with at most `most` waits, and `P` holds of the tables.
abbrev pub Retried : {N : Type 0} → (Tables N → Type 0) → ℕ → ℕ → Option (List ℕ) × World N → Type 0
Retried P delay most (r, w') =
    (slept : List ℕ) × (r ≡ some slept)
    × IsBackoff delay slept
    × (length slept ≤ most)
    × P w'.tables

-- One more wait in front.
pub waited :
    {N : Type 0} (P : Tables N → Type 0) (delay most : ℕ) (loop : Exec N (List ℕ)) (w : World N)
    → Retried P (next_delay delay) most (loop w)
    → Retried P delay (suc most) ((do slept ← loop; pure (delay ∷ slept)) w)
unfolding ◌>>=◌
waited {N} P delay most loop w h = by_result (loop w).0 (loop w).1 h
  where
    by_result :
        (r : Option (List ℕ)) (u : World N)
        → Retried P (next_delay delay) most (r, u)
        → Retried P delay
            (suc most)
            (elim r [ some slept ↦ (some (delay ∷ slept), u) | none ↦ (none, u) ])
    by_result none u (slept, e, backoff, few, p) = cc
    by_result (some l) u (slept, e, backoff, few, p) = (
      delay ∷ l,
      refl,
      (refl, subst (IsBackoff (next_delay delay)) (sym (some_injective e)) backoff),
      subst (λ k. suc (length k) ≤ suc most) (sym (some_injective e)) (omega arith),
      p,
    )

module _ (x : External) where
  open x use {Number}

  abbrev IsMigrated : Tables Number → Tables Number → Type 0
  IsMigrated before after = (t : DateTime) × (after ≡ migrated x t before)

  -- A round that failed before does not show behind one that succeeds.
  IsMigrated-trans :
      (before u after : Tables Number) (t : DateTime)
      → u ≡ migrated x t before
      → IsMigrated u after
      → IsMigrated before after
  IsMigrated-trans before u after t e (t', f) =
      (t, f ∙ ap (migrated x t') e ∙ migrated-twice x t t' before)

  weaken :
      (P Q : Tables Number → Type 0) (d m n : ℕ) (p : Option (List ℕ) × World Number)
      → ((u : Tables Number) → P u → Q u)
      → m ≤ n
      → Retried P d m p
      → Retried Q d n p
  weaken P Q d m n (r, u) f le (slept, e, backoff, few, q) =
      (slept, e, backoff, omega arith, f u.tables q)

  -- One round of the loop, `from` being the rounds behind it, which are known to end.
  module _ (fuel delay : ℕ) (from : List Bool → Exec Number (List ℕ))
      (ends : (gets : List Bool) (u : World Number)
        → length gets + length u.awaits < fuel
        → Retried
            (IsMigrated u.tables)
            (next_delay delay)
            (length gets + length u.awaits)
            (from gets u))
      (w : World Number) where
    abbrev go_on : List Bool → Option (Unit {0}) × World Number → Option (List ℕ) × World Number
    go_on rest (r, u) = elim r [
      | some _ ↦ (some [], u)
      | none ↦ (do slept ← from rest; pure (delay ∷ slept)) (sleep delay u)
    ]

    abbrev Left : List Bool → Option (List ℕ) × World Number → Type 0
    Left gets = Retried (IsMigrated w.tables) delay (length gets + length w.awaits)

    again :
        (rest gets : List Bool) (u : World Number)
        → length rest + length u.awaits < length gets + length w.awaits
        → length gets + length w.awaits < suc fuel
        → ((after : Tables Number) → IsMigrated u.tables after → IsMigrated w.tables after)
        → Left gets (go_on rest (none, u))
    again rest gets u fewer enough keep =
        weaken (IsMigrated u.tables) (IsMigrated w.tables) delay
          (suc (length rest + length u.awaits)) (length gets + length w.awaits)
          (go_on rest (none, u)) keep (omega arith)
          (waited (IsMigrated u.tables) delay (length rest + length u.awaits) (from rest)
            (sleep delay u) (ends rest (sleep delay u) (omega arith)))

    by_round :
        (rest gets : List Bool) (p : Option (Unit {0}) × World Number) (t : DateTime)
        → length rest ≤ length gets
        → length gets + length w.awaits < suc fuel
        → Ends w tt (migrated x t w.tables) p
        → Left gets (go_on rest p)
    by_round rest gets (none, u) t le enough (inl (_, spent, kept)) =
        again rest gets u (omega arith) enough (λ after m. subst (λ b. IsMigrated b after) kept m)
    by_round rest gets (none, u) t le enough (inr (inl (_, spent, shown))) =
        again rest gets u (omega arith) enough
          (λ after m. IsMigrated-trans w.tables u.tables after t shown m)
    by_round rest gets (none, u) t le enough (inr (inr (told, _, _))) = cc
    by_round rest gets (some a, u) t le enough (inl (failed, _, _)) = cc
    by_round rest gets (some a, u) t le enough (inr (inl (failed, _, _))) = cc
    by_round rest gets (some a, u) t le enough (inr (inr (_, _, shown))) =
        ([], refl, tt, omega arith, (t, shown))

    round_lem :
        (gets : List Bool)
        → length gets + length w.awaits < suc fuel
        → Left gets (go_on (later_inputs gets) (init_once x (next_input gets) w))
    round_lem [] enough =
        by_round [] [] (init_once x true w) (init_once_lem x w).0 (omega arith) enough
          (init_once_lem x w).1
    round_lem (true ∷ rest) enough =
        by_round rest (true ∷ rest) (init_once x true w) (init_once_lem x w).0 (omega arith) enough
          (init_once_lem x w).1
    round_lem (false ∷ rest) enough =
        subst (λ p. Left (false ∷ rest) (go_on rest p)) (sym (no_client x w))
          (again rest (false ∷ rest) w (omega arith) enough (λ after m. m))

  init_loop_lem :
      (fuel delay : ℕ) (gets : List Bool) (w : World Number)
      → length gets + length w.awaits < fuel
      → Retried
          (IsMigrated w.tables)
          delay
          (length gets + length w.awaits)
          (init_loop x fuel delay gets w)
  unfolding init_loop
  init_loop_lem zero delay gets w enough = absurd (omega arith)
  init_loop_lem (suc fuel) delay gets w enough =
      round_lem fuel delay (λ rest. init_loop x fuel (next_delay delay) rest)
        (init_loop_lem fuel (next_delay delay)) w gets enough

  -- The task has ended with the flag set and the tables migrated.
  abbrev pub Ready :
      SharedState → ℕ → Tables Number → Option (SharedState × List ℕ) × World Number → Type 0
  Ready st most before (r, w') =
      (slept : List ℕ) × (r ≡ some (record st { db_ready = true }, slept))
      × IsBackoff 2 slept
      × InBounds slept
      × (length slept ≤ most)
      × Migrated x before w'.tables

  -- With a pool, `init_with_retry` ends: if the pool refuses a client in finitely many rounds and
  -- finitely many statements fail, as many rounds as these and one more are enough. Then the tables
  -- are migrated and the flag is set, and between the rounds it has waited two seconds, then twice as
  -- long each time up to thirty, at most once for each of those failures.
  pub init_with_retry-Ready :
      (st : SharedState) (gets : List Bool) (w : World Number) (fuel : ℕ)
      → st.db ≡ true
      → length gets + length w.awaits < fuel
      → Ready st (length gets + length w.awaits) w.tables (init_with_retry x fuel st gets w)
  unfolding init_with_retry
  init_with_retry-Ready st gets w fuel pool enough =
      by_pool st.db pool (init_loop_lem fuel 2 gets w enough)
    where
      by_result :
          (r : Option (List ℕ)) (u : World Number)
          → Retried (IsMigrated w.tables) 2 (length gets + length w.awaits) (r, u)
          → Ready st (length gets + length w.awaits) w.tables (elim r [
            | some slept ↦ (some (record st { db_ready = true }, slept), u)
            | none ↦ (none, u)
          ])
      by_result none u (slept, e, backoff, few, m) = cc
      by_result (some l) u (slept, e, backoff, few, (t, m)) = (
        slept,
        ap (λ s. some (record st { db_ready = true }, s)) (some_injective e),
        backoff,
        IsBackoff-InBounds 2 slept (omega arith) (omega arith) backoff,
        few,
        subst (Migrated x w.tables) (sym m) (migrated-Migrated x t w.tables),
      )

      by_pool :
          (b : Bool)
          → b ≡ true
          → Retried
              (IsMigrated w.tables)
              2
              (length gets + length w.awaits)
              (init_loop x fuel 2 gets w)
          → Ready st (length gets + length w.awaits) w.tables (
              (if not b then pure (st, []) else (do
                slept ← init_loop x fuel 2 gets
                pure (record st { db_ready = true }, slept)))
                w)
      by_pool false e h = cc
      by_pool true e h =
          unfold ◌>>=◌ in by_result (init_loop x fuel 2 gets w).0 (init_loop x fuel 2 gets w).1 h
