-- ===== src/RateLimit.antt =====
-- gate/src/rate_limit.rs: thirty requests a minute for each client address, counted in the shared
-- cache or, where that does not answer, in a map of the process.
pub mod Counting
use Prim.Native.String.{◌++◌}
use esclusa.Prelude.{
  ℕ, suc, ◌+◌, ◌/◌, ◌%◌, ◌^◌, String, Bool, true, false, not, Option, none, some, List, [], ◌∷◌,
  length, ltb, leb, nat_eq, if◌then◌else◌, unwrap_or,
}
use esclusa.Prelude.Int.{ℤ, pos, leb_ℤ, eqb_ℤ}
use esclusa.Prelude.Dict
use esclusa.Prelude.Dict.{Dict}
use esclusa.Text.{show}

abbrev pub limit : ℕ
limit = 30

-- What the cache answers to this request: to INCR and to EXPIRE of a key. `none` is an error, or no
-- answer within 800 ms.
pub record Cache : Type 0 where
  pub incr : String → Option ℤ
  pub expire : String → Option Bool

-- The block under the timeout.
unfoldable pub cache_count : Cache → String → Option ℤ
cache_count conn key = elim (conn.incr key) [
  | none ↦ none
  | some count ↦
      if eqb_ℤ count (pos 1)
      then elim (conn.expire key) [ none ↦ none | some _ ↦ some count ]
      else some count
]

-- ip -> (minute bucket, count)
abbrev pub MemRl : Type 0
MemRl = Dict (ℕ × ℕ)

-- `map.retain(|_, (m, _)| *m == minute)`
unfoldable pub retain : ℕ → MemRl → MemRl
retain minute [] = []
retain minute ((ip, (m, c)) ∷ map) =
    if nat_eq m minute then (ip, (m, c)) ∷ retain minute map else retain minute map

-- The entry of the address, made or reset for this minute.
abbrev pub fresh : ℕ → Option (ℕ × ℕ) → ℕ × ℕ
fresh minute none = (minute, 0)
fresh minute (some (m, c)) = if nat_eq m minute then (m, c) else (minute, 0)

unfoldable pub mem_check : ℕ → String → MemRl → Bool × MemRl
unfolding retain
mem_check minute ip map =
    let kept = if ltb 4096 (length map) then retain minute map else map in
    let (m, c) = fresh minute (Dict.get kept ip) in
    let count = (c + 1) % 2 ^ 32 in (leb count limit, Dict.insert ip (m, count) kept)

-- The answer, `true` for a request that may pass, and the map; `now` is in seconds since the epoch.
unfoldable pub check : Option Cache → ℕ → String → MemRl → Bool × MemRl
unfolding cache_count
check cache now ip map =
    let minute = now / 60 in
    let key = "rl:" ++ ip ++ ":" ++ show minute in
    let shared : Option ℤ = elim cache [ none ↦ none | some conn ↦ cache_count conn key ] in
    elim shared [ some count ↦ (leb_ℤ count (pos limit), map) | none ↦ mem_check minute ip map ]
