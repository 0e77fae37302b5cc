-- ===== src/Startup/Connecting.antt =====
-- The retries of gate/src/db.rs for the cache (`cache_connect_with_retry`).
use esclusa.Prelude.{
  ℕ, zero, suc, ◌≤◌, ◌<◌, Bool, true, false, Option, none, some, some_injective, List, [], ◌∷◌,
  length, ◌≡◌, refl, ap, arith,
}
use esclusa.Db.{Tables, World, ◌>>=◌}
use esclusa.RateLimit.{Cache}
use esclusa.Startup.{SharedState, next_delay, sleep, connect_loop, cache_connect_with_retry}
use esclusa.Startup.Retrying.{IsBackoff, InBounds, IsBackoff-InBounds, Retried, waited}

module _ {N : Type 0} where
  connect_loop_lem :
      (fuel delay : ℕ) (connects : List Bool) (w : World N)
      → length connects < fuel
      → Retried
          (λ after. after ≡ w.tables)
          delay
          (length connects)
          (connect_loop fuel delay connects w)
  unfolding connect_loop
  connect_loop_lem zero delay connects w enough = absurd (omega arith)
  connect_loop_lem (suc fuel) delay [] w enough = ([], refl, tt, omega arith, refl)
  connect_loop_lem (suc fuel) delay (true ∷ rest) w enough = ([], refl, tt, omega arith, refl)
  connect_loop_lem (suc fuel) delay (false ∷ rest) w enough =
      waited (λ after. after ≡ w.tables) delay (length rest)
        (connect_loop fuel (next_delay delay) rest) (sleep delay w)
        (connect_loop_lem fuel (next_delay delay) rest (sleep delay w) (omega arith))

  -- The task has ended with the cache connected, after waits between 2 and 30 seconds.
  abbrev pub Connected :
      SharedState → Cache → ℕ → Tables N → Option (SharedState × List ℕ) × World N → Type 0
  Connected st conn most before (r, w') =
      (slept : List ℕ) × (r ≡ some (record st { cache = some conn }, slept))
      × IsBackoff 2 slept
      × InBounds slept
      × (length slept ≤ most)
      × (w'.tables ≡ before)

  -- With a URL that is one, `cache_connect_with_retry` ends with the cache connected, if the cache is
  -- not reached in finitely many rounds only: as many rounds as these and one more are enough.
  pub cache_connect_with_retry-Connected :
      (st : SharedState) (connects : List Bool) (conn : Cache) (w : World N) (fuel : ℕ)
      → length connects < fuel
      → Connected st conn
          (length connects)
          w.tables
          (cache_connect_with_retry fuel st true connects conn w)
  unfolding cache_connect_with_retry ◌>>=◌
  cache_connect_with_retry-Connected st connects conn w fuel enough =
      by_result (connect_loop fuel 2 connects w).0 (connect_loop fuel 2 connects w).1
        (connect_loop_lem fuel 2 connects w enough)
    where
      by_result :
          (r : Option (List ℕ)) (u : World N)
          → Retried (λ after. after ≡ w.tables) 2 (length connects) (r, u)
          → Connected st conn (length connects) w.tables (elim r [
            | some slept ↦ (some (record st { cache = some conn }, slept), u)
            | none ↦ (none, u)
          ])
      by_result none u (slept, e, backoff, few, same) = cc
      by_result (some l) u (slept, e, backoff, few, same) = (
        slept,
        ap (λ s. some (record st { cache = some conn }, s)) (some_injective e),
        backoff,
        IsBackoff-InBounds 2 slept (omega arith) (omega arith) backoff,
        few,
        same,
      )
