-- ===== src/Probe/Containers/Waiting.antt =====
-- Containers that have not claimed the disappearance of a host yet (gate/src/probe.rs).
use esclusa.Prelude.{
  ℕ, zero, suc, ◌+◌, ◌≤◌, String, Bool, true, false, ◌&&◌, ◌==◌, eq_iff, List, [], ◌∷◌, map, length,
  where_rows, All, if◌then◌else◌, ◌≡◌, refl, sym, ap, ◌∙◌, arith,
}
use esclusa.Clock.{DateTime}
use esclusa.Db.{TopologyRow, Tables}
use esclusa.Topology.Updates.{set_rows, is_host, is_present, missed}
use esclusa.Probe.Containers.{Phase, counting, looking, claiming, telling, over, containers}
use esclusa.Probe.Containers.Counting.{presents, owes, owed}

-- The containers that still have to count.
abbrev pub pends : Phase → ℕ
pends counting = 1
pends p = 0

abbrev pub pending : List Phase → ℕ
pending [] = 0
pending (p ∷ phases) = pends p + pending phases

-- Before the claim.
abbrev pub IsWaiting : Phase → Type 0
IsWaiting counting = Unit
IsWaiting (looking n) = Unit
IsWaiting (claiming n audited) = Unit
IsWaiting (telling n audited) = ⊥
IsWaiting over = ⊥

pub owes-IsWaiting : (p : Phase) → IsWaiting p → owes p ≡ 0
owes-IsWaiting counting h = refl
owes-IsWaiting (looking n) h = refl
owes-IsWaiting (claiming n audited) h = refl
owes-IsWaiting (telling n audited) h = absurd h
owes-IsWaiting over h = absurd h

pub owed-IsWaiting : (phases : List Phase) → All IsWaiting phases → owed phases ≡ 0
owed-IsWaiting [] h = refl
owed-IsWaiting (p ∷ phases) h = omega (arith, owes-IsWaiting p h.0, owed-IsWaiting phases h.1)

-- So many containers at the end.
abbrev pub finished : ℕ → List Phase
finished zero = []
finished (suc n) = over ∷ finished n

pub owed-finished : (n : ℕ) → owed (finished n) ≡ 0
owed-finished zero = refl
owed-finished (suc n) = omega (arith, owed-finished n)

pub pending-containers : (n : ℕ) → pending (containers n) ≡ n
pending-containers zero = refl
pending-containers (suc n) = omega (arith, pending-containers n)

pub containers-IsWaiting : (n : ℕ) → All IsWaiting (containers n)
containers-IsWaiting zero = tt
containers-IsWaiting (suc n) = (tt, containers-IsWaiting n)

module _ (host : String) where
  pub host-missed :
      (t : DateTime) (rows : List TopologyRow)
      → where_rows (is_host host) (set_rows (is_host host) (missed t) rows)
        ≡ map (missed t) (where_rows (is_host host) rows)
  unfolding set_rows
  host-missed t [] = refl
  host-missed t (r ∷ rows) = by_host (is_host host r) refl (host-missed t rows)
    where
      rest : List TopologyRow
      rest = where_rows (is_host host) (set_rows (is_host host) (missed t) rows)

      by_host :
          (b : Bool)
          → is_host host r ≡ b
          → rest ≡ map (missed t) (where_rows (is_host host) rows)
          → where_rows
              (is_host host)
              ((if b then missed t r else r) ∷ set_rows (is_host host) (missed t) rows)
            ≡ map
                (missed t)
                (if b then r ∷ where_rows (is_host host) rows else where_rows (is_host host) rows)
      by_host true e h =
          ap (λ p. if p then missed t r ∷ rest else rest) e ∙ ap (λ l. missed t r ∷ l) h
      by_host false e h = ap (λ p. if p then r ∷ rest else rest) e ∙ h

  pub present-host :
      (rows : List TopologyRow)
      → where_rows (is_present host) rows
        ≡ where_rows (λ r. r.status == "present") (where_rows (is_host host) rows)
  present-host [] = refl
  present-host (r ∷ rows) =
      by_host (is_host host r) (r.status == "present") refl (present-host rows)
    where
      by_host :
          (h p : Bool)
          → (r.status == "present") ≡ p
          → where_rows (is_present host) rows
            ≡ where_rows (λ r. r.status == "present") (where_rows (is_host host) rows)
          → (if h && p
              then r ∷ where_rows (is_present host) rows
              else where_rows (is_present host) rows)
            ≡ where_rows
                (λ r. r.status == "present")
                (if h then r ∷ where_rows (is_host host) rows else where_rows (is_host host) rows)
      by_host true true e rest =
          ap (λ l. r ∷ l) rest
          ∙ ap
              (λ b.
                if b
                then r ∷ where_rows (λ r. r.status == "present") (where_rows (is_host host) rows)
                else where_rows (λ r. r.status == "present") (where_rows (is_host host) rows))
              (sym e)
      by_host true false e rest =
          rest
          ∙ ap
              (λ b.
                if b
                then r ∷ where_rows (λ r. r.status == "present") (where_rows (is_host host) rows)
                else where_rows (λ r. r.status == "present") (where_rows (is_host host) rows))
              (sym e)
      by_host false p e rest = rest

  -- The host has one row, it is present, and the next failure is its third or a later one.
  pub record Ready {N : Type 0} (tables : Tables N) : Type 0 where
    pub row : TopologyRow
    pub single : where_rows (is_host host) tables.topology ≡ row ∷ []
    pub present : row.status ≡ "present"
    pub failing : 2 ≤ row.consecutive_failures

  pub presents-Ready : {N : Type 0} (tables : Tables N) → Ready tables → presents host tables ≡ 1
  presents-Ready tables r =
      ap length (present-host tables.topology)
      ∙ ap (λ l. length (where_rows (λ r. r.status == "present") l)) r.single
      ∙ ap (λ (b : Bool). length (if b then r.row ∷ [] else []))
          ((eq_iff r.row.status "present").1 r.present)
