-- ===== src/RateLimit/Counting.antt =====
-- The map of gate/src/rate_limit.rs counts every address exactly.
use esclusa.Prelude.{
  ℕ, suc, ◌+◌, ◌%◌, ◌^◌, ◌<◌, String, Bool, true, false, Option, none, some, List, [], ◌∷◌, ◌==◌,
  length, ltb, leb, if◌then◌else◌, ◌≡◌, refl, ap, ◌∙◌, arith, eq_iff, Bool-cases, inl, inr,
}
use esclusa.Prelude.Dict
use esclusa.Prelude.Dict.{Dict, get-insert}
use esclusa.RateLimit.{MemRl, limit, retain, fresh, mem_check}

-- No address has two entries.
abbrev pub IsMap : MemRl → Type 0
IsMap [] = Unit
IsMap ((ip, e) ∷ map) = (Dict.get map ip ≡ none) × IsMap map

-- What the map holds against an address in a minute.
unfoldable pub used : ℕ → String → MemRl → ℕ
used minute ip map = (fresh minute (Dict.get map ip)).1

get-retain-none :
    (minute : ℕ) (ip : String) (map : MemRl)
    → Dict.get map ip ≡ none
    → Dict.get (retain minute map) ip ≡ none
unfolding Dict.get retain
get-retain-none minute ip [] h = refl
get-retain-none minute ip ((j, (m, c)) ∷ map) h = ground (arith, get-retain-none minute ip map)

retain-IsMap : (minute : ℕ) (map : MemRl) → IsMap map → IsMap (retain minute map)
unfolding retain
retain-IsMap minute [] h = tt
retain-IsMap minute ((ip, (m, c)) ∷ map) h =
    ground (arith, retain-IsMap minute map h.1, get-retain-none minute ip map h.0)

used-retain :
    (minute : ℕ) (ip : String) (map : MemRl)
    → IsMap map
    → used minute ip (retain minute map) ≡ used minute ip map
unfolding used retain Dict.get
used-retain minute ip [] h = refl
used-retain minute ip ((j, (m, c)) ∷ map) h =
    ground (arith, used-retain minute ip map h.1, get-retain-none minute ip map, eq_iff j ip)

get-insert-none :
    (ip j : String) (e : ℕ × ℕ) (map : MemRl)
    → (ip == j) ≡ false
    → Dict.get map j ≡ none
    → Dict.get (Dict.insert ip e map) j ≡ none
get-insert-none ip j e map d h = rw (get-insert ip j e map, d) h

eq_false_symm : (s t : String) → (s == t) ≡ false → (t == s) ≡ false
eq_false_symm s t h = ground (arith, eq_iff s t, eq_iff t s)

insert-IsMap : (ip : String) (e : ℕ × ℕ) (map : MemRl) → IsMap map → IsMap (Dict.insert ip e map)
unfolding Dict.insert
insert-IsMap ip e [] h = (unfold Dict.get in refl, tt)
insert-IsMap ip e ((j, d) ∷ map) h = elim (Bool-cases (j == ip)) [
  | inl q ↦ rw q (rw (← (eq_iff j ip).0 q) (h.0, h.1))
  | inr q ↦ rw q (get-insert-none ip j e map (eq_false_symm j ip q) h.0, insert-IsMap ip e map h.1)
]

-- The map that the call counts in: stale entries are gone if it was large.
kept : ℕ → MemRl → MemRl
kept minute map = if ltb 4096 (length map) then retain minute map else map

kept-IsMap : (minute : ℕ) (map : MemRl) → IsMap map → IsMap (kept minute map)
unfolding kept
kept-IsMap minute map h = ground (arith, retain-IsMap minute map h)

used-kept :
    (minute : ℕ) (ip : String) (map : MemRl)
    → IsMap map
    → used minute ip (kept minute map) ≡ used minute ip map
unfolding kept
used-kept minute ip map h = ground (arith, used-retain minute ip map h)

-- The count of a call, which comes back to zero past the range of u32.
abbrev next_count : ℕ → String → MemRl → ℕ
next_count minute ip map = (used minute ip map + 1) % 2 ^ 32

fresh-minute : (minute : ℕ) (o : Option (ℕ × ℕ)) → (fresh minute o).0 ≡ minute
fresh-minute minute none = refl
fresh-minute minute (some (m, c)) = ground arith

fresh_stored : (minute c : ℕ) → (fresh minute (some (minute, c))).1 ≡ c
fresh_stored minute c = ground arith

mem_check_shape :
    (minute : ℕ) (ip : String) (map : MemRl)
    → IsMap map
    → mem_check minute ip map ≡ (
      leb (next_count minute ip map) limit,
      Dict.insert ip (minute, next_count minute ip map) (kept minute map),
    )
unfolding mem_check kept used
mem_check_shape minute ip map h = λ i.
    let p = used-kept minute ip map h in
    let q = fresh-minute minute (Dict.get (kept minute map) ip) in
    (leb ((p i + 1) % 2 ^ 32) limit, Dict.insert ip (q i, (p i + 1) % 2 ^ 32) (kept minute map))

used-insert :
    (minute c : ℕ) (ip j : String) (map : MemRl)
    → used minute j (Dict.insert ip (minute, c) map) ≡ (if ip == j then c else used minute j map)
unfolding used
used-insert minute c ip j map =
    ap (λ o. (fresh minute o).1) (get-insert ip j (minute, c) map) ∙ ground arith

-- A call counts one more for its address, nothing for the others, and passes up to the limit.
mem_check_step :
    (minute : ℕ) (ip j : String) (map : MemRl)
    → IsMap map
    → used minute j (mem_check minute ip map).1
      ≡ (if ip == j then next_count minute ip map else used minute j map)
mem_check_step minute ip j map h = rw (
  mem_check_shape minute ip map h,
  used-insert minute (next_count minute ip map) ip j (kept minute map),
  used-kept minute j map h,
)

mem_check-IsMap :
    (minute : ℕ) (ip : String) (map : MemRl) → IsMap map → IsMap (mem_check minute ip map).1
mem_check-IsMap minute ip map h =
    rw (mem_check_shape minute ip map h)
      (insert-IsMap ip _ (kept minute map) (kept-IsMap minute map h))

-- Calls of `check` in one minute that the cache does not answer, one after the other.
abbrev pub calls : ℕ → List String → MemRl → MemRl
calls minute [] map = map
calls minute (ip ∷ ips) map = calls minute ips (mem_check minute ip map).1

-- How often an address occurs.
abbrev pub occurrences : String → List String → ℕ
occurrences j [] = 0
occurrences j (ip ∷ ips) = if ip == j then suc (occurrences j ips) else occurrences j ips

step_self :
    (minute : ℕ) (ip j : String) (map : MemRl)
    → IsMap map
    → (ip == j) ≡ true
    → used minute j map + 1 < 2 ^ 32
    → used minute j (mem_check minute ip map).1 ≡ used minute j map + 1
step_self minute ip j map h e room =
    mem_check_step minute ip j map h ∙ rw (e, (eq_iff ip j).0 e) (omega arith)

step_other :
    (minute : ℕ) (ip j : String) (map : MemRl)
    → IsMap map
    → (ip == j) ≡ false
    → used minute j (mem_check minute ip map).1 ≡ used minute j map
step_other minute ip j map h e = mem_check_step minute ip j map h ∙ rw e

used-calls :
    (minute : ℕ) (j : String) (ips : List String) (map : MemRl)
    → IsMap map
    → used minute j map + occurrences j ips < 2 ^ 32
    → used minute j (calls minute ips map) ≡ used minute j map + occurrences j ips
used-calls minute j [] map h fits = omega arith
used-calls minute j (ip ∷ ips) map h fits =
    let map' = (mem_check minute ip map).1 in
    let keeps = mem_check-IsMap minute ip map h in
    elim (Bool-cases (ip == j)) [
      | inl e ↦
          let room : used minute j map + suc (occurrences j ips) < 2 ^ 32 = rw e at fits in
          let one = step_self minute ip j map h e (omega arith) in
          rw e (omega (arith, used-calls minute j ips map' keeps (omega arith)))
      | inr e ↦
          let room : used minute j map + occurrences j ips < 2 ^ 32 = rw e at fits in
          let same = step_other minute ip j map h e in
          rw e (omega (arith, used-calls minute j ips map' keeps (omega arith)))
    ]

calls-IsMap :
    (minute : ℕ) (ips : List String) (map : MemRl) → IsMap map → IsMap (calls minute ips map)
calls-IsMap minute [] map h = h
calls-IsMap minute (ip ∷ ips) map h =
    calls-IsMap minute ips (mem_check minute ip map).1 (mem_check-IsMap minute ip map h)

-- Whatever calls a minute has seen before, of any addresses, the map lets a call pass exactly while
-- its address has had fewer than thirty calls in that minute, up to 2 ^ 32 - 2 of them, on a map in
-- which no address stands twice.
pub mem_check-limit :
    (minute : ℕ) (ip : String) (ips : List String) (map : MemRl)
    → IsMap map
    → used minute ip map + occurrences ip ips + 1 < 2 ^ 32
    → (mem_check minute ip (calls minute ips map)).0
      ≡ ltb (used minute ip map + occurrences ip ips) limit
mem_check-limit minute ip ips map h fits =
    let count = used-calls minute ip ips map h (omega arith) in
    ap (λ (r : Bool × MemRl). r.0)
      (mem_check_shape minute ip (calls minute ips map) (calls-IsMap minute ips map h))
    ∙ ground (arith, count)
