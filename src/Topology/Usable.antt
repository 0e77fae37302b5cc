-- ===== src/Topology/Usable.antt =====
-- Which services of a snapshot gate/src/topology.rs lets through.
use esclusa.Prelude.{
  ℕ, ◌≤◌, String, false, eq_iff, Option, none, some, ◌≡◌, ◌↔◌, ◌⊎◌, refl, ap, arith, unwrap_or,
}
use esclusa.Prelude.Int.{ℤ, pos, negsuc, pos_part}
use esclusa.Text.{is_blank}
use esclusa.Topology.{SeedService, ok, validate_port, validate_service}

-- A TCP port.
abbrev pub IsPort : Option ℤ → Type 0
IsPort o = (p : ℕ) × (o ≡ some (pos p)) × (1 ≤ p) × (p ≤ 65535)

-- A way to probe that the gate knows, with what it needs.
abbrev pub Probeable : SeedService → Type 0
Probeable s =
    (s.probe_method ≡ "none")
    ⊎ (s.probe_method ≡ "dns")
    ⊎ ((s.probe_method ≡ "tcp") × IsPort s.tcp_port)

in_range :
    (hostname : String) (n : ℕ)
    → (validate_port hostname (some (pos n)) ≡ ok) ↔ ((1 ≤ n) × (n ≤ 65535))
in_range hostname n = ground arith

validate_port_iff : (hostname : String) (o : Option ℤ) → (validate_port hostname o ≡ ok) ↔ IsPort o
validate_port_iff hostname none = (λ h. cc, λ (p, e, _, _). cc)
validate_port_iff hostname (some (pos n)) = (
  λ h. let (low, high) = (in_range hostname n).0 h in (n, refl, low, high),
  λ (p, e, low, high).
      let same : n ≡ p = ap (λ o. pos_part (unwrap_or o (pos n))) e in
      (in_range hostname n).1 (omega arith, omega arith),
)
validate_port_iff hostname (some (negsuc n)) =
    (λ h. absurd (ground arith), λ (p, e, _, _). absurd (cc))

-- A service is accepted exactly when its hostname is not blank and its probe method is 'none', 'dns',
-- or 'tcp' with a port from 1 to 65535.
pub validate_service_iff :
    (s : SeedService) → (validate_service s ≡ ok) ↔ ((is_blank s.hostname ≡ false) × Probeable s)
unfolding validate_service
validate_service_iff s = ground (
  arith,
  eq_iff s.probe_method "none",
  eq_iff s.probe_method "dns",
  eq_iff s.probe_method "tcp",
  validate_port_iff s.hostname s.tcp_port,
)
