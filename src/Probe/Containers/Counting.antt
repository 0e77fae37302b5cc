-- ===== src/Probe/Containers/Counting.antt =====
-- What counting and claiming in gate/src/probe.rs leave of the present rows of a host.
use esclusa.Prelude.{
  ℕ, zero, suc, ◌+◌, String, Bool, true, false, ◌&&◌, ◌==◌, List, [], ◌∷◌, length, where_rows,
  if◌then◌else◌, ◌≡◌, refl, ap, ◌∙◌, arith,
}
use esclusa.Clock.{DateTime}
use esclusa.Db.{TopologyRow, Tables}
use esclusa.Topology.Updates.{set_rows, is_host, is_present, missed, moved, status_after}
use esclusa.Probe.Containers.{Phase, telling, judged, containers}

-- The rows of the host that are present; one at most, the hostname being the key.
abbrev pub presents : {N : Type 0} → String → Tables N → ℕ
presents host tables = length (where_rows (is_present host) tables.topology)

-- Whether the container still owes an entry.
abbrev pub owes : Phase → ℕ
owes (telling n audited) = 1
owes p = 0

abbrev pub owed : List Phase → ℕ
owed [] = 0
owed (p ∷ phases) = owes p + owed phases

pub owes-judged : (rows : List TopologyRow) → owes (judged rows) ≡ 0
owes-judged [] = refl
owes-judged (row ∷ []) = ground arith
owes-judged (row ∷ other ∷ rows) = refl

pub owed-containers : (n : ℕ) → owed (containers n) ≡ 0
owed-containers zero = refl
owed-containers (suc n) = omega (arith, owed-containers n)

pub presents-missed :
    (host : String) (t : DateTime) (rows : List TopologyRow)
    → length (where_rows (is_present host) (set_rows (is_host host) (missed t) rows))
      ≡ length (where_rows (is_present host) rows)
unfolding set_rows
presents-missed host t [] = refl
presents-missed host t (r ∷ rows) =
    by_host (is_host host r) (is_present host r) (presents-missed host t rows)
  where
    by_host :
        (h p : Bool)
        → length (where_rows (is_present host) (set_rows (is_host host) (missed t) rows))
          ≡ length (where_rows (is_present host) rows)
        → length (
            where_rows
              (is_present host)
              ((if h then missed t r else r) ∷ set_rows (is_host host) (missed t) rows))
          ≡ length (where_rows (is_present host) (r ∷ rows))
    by_host true p rest = ground (arith, rest)
    by_host false p rest = ground (arith, rest)

pub presents-moved :
    (host : String) (audited : Bool) (t : DateTime) (rows : List TopologyRow)
    → length (
        where_rows
          (is_present host)
          (set_rows (is_present host) (moved (status_after audited) t) rows))
      ≡ 0
unfolding set_rows
presents-moved host audited t [] = refl
presents-moved host audited t (r ∷ rows) =
    by_test (is_present host r) refl (presents-moved host audited t rows)
  where
    rest : List TopologyRow
    rest =
        where_rows (is_present host)
          (set_rows (is_present host) (moved (status_after audited) t) rows)

    not_both : (b : Bool) → (b && false) ≡ false
    not_both true = refl
    not_both false = refl

    away : (a : Bool) → is_present host (moved (status_after a) t r) ≡ false
    away true = not_both (r.hostname == host)
    away false = not_both (r.hostname == host)

    by_test :
        (b : Bool)
        → is_present host r ≡ b
        → length rest ≡ 0
        → length (
            if is_present host (if b then moved (status_after audited) t r else r)
            then (if b then moved (status_after audited) t r else r) ∷ rest
            else rest)
          ≡ 0
    by_test true e h =
        ap (λ p. length (if p then moved (status_after audited) t r ∷ rest else rest))
          (away audited)
        ∙ h
    by_test false e h = ap (λ p. length (if p then r ∷ rest else rest)) e ∙ h
