-- ===== src/Probe/Cycle.antt =====
-- A whole cycle of gate/src/probe.rs: the statuses it leaves, and the ledger.
use mathlib.Core.Path.{subst}
use esclusa.Prelude.{
  ℕ, String, Bool, true, false, Option, none, some, List, [], ◌∷◌, map, All, where_rows, not, ◌==◌,
  ◌≡◌, ◌⊎◌, inl, inr, sym,
}
use esclusa.External.{External}
use esclusa.Db.{TopologyRow, Tables, World}
use esclusa.Db.Statements.{query-attempt, bind_lem}
use esclusa.Ledger.Store.Chained.{IsLedger}
use esclusa.Probe.{Network, probe_one, handle, handle_all, probe_all, cycle}
use esclusa.Probe.Updating.{All-Pairwise}
use esclusa.Probe.Transitions.{
  Vanishes, Reappears, handle_failure-Vanishes, handle_success-Reappears,
}

-- The three statuses of a service.
abbrev pub HasStatus : TopologyRow → Type 0
HasStatus r =
    (r.status ≡ "present") ⊎ (r.status ≡ "missing-unaudited") ⊎ (r.status ≡ "removed-audited")

-- The results of the probes of a cycle, in the order in which they end.
abbrev pub ended :
    {N : Type 0}
    → Network
    → (List (String × Bool) → List (Option (String × Bool)))
    → Tables N
    → List (Option (String × Bool))
ended net join tables = join (
    map (λ r. (r.hostname, probe_one net r.hostname r.probe_method r.tcp_port))
      (where_rows (λ r. not (r.probe_method == "none")) tables.topology))

module _ (x : External) (key : List ℕ) where
  open x use {Number, from_int}

  -- The ledger is a chain of the gate's own, and every status is one of the three.
  abbrev pub Sound : Tables Number → Type 0
  Sound tables = IsLedger x key tables.ledger × All HasStatus tables.topology

  abbrev HasStatuses : Tables Number → Type 0
  HasStatuses tables = All HasStatus tables.topology

  Vanishes-status :
      (host : String) (before : Tables Number) (r r' : TopologyRow)
      → Vanishes host before r r'
      → HasStatus r
      → HasStatus r'
  Vanishes-status host before r r' (_, inl e) h = rw (sym e) at h
  Vanishes-status host before r r' (_, inr (_, _, _, inl e)) h = inr (inl e)
  Vanishes-status host before r r' (_, inr (_, _, _, inr (e, _))) h = inr (inr e)

  Reappears-status :
      (host : String) (r r' : TopologyRow) → Reappears host r r' → HasStatus r → HasStatus r'
  Reappears-status host r r' (_, inl e) h = rw (sym e) at h
  Reappears-status host r r' (_, inr (_, _, e)) h = inl e

  handle_status :
      (host : String) (good : Bool) (w : World Number)
      → HasStatuses w.tables
      → HasStatuses (handle x key host good w).1.tables
  handle_status host true w h =
      All-Pairwise HasStatus (Reappears host) (Reappears-status host) w.tables.topology _
        (handle_success-Reappears x key host w) h
  handle_status host false w h =
      All-Pairwise HasStatus (Vanishes host w.tables) (Vanishes-status host w.tables)
        w.tables.topology _ (handle_failure-Vanishes x key host w) h

  handle_all_status :
      (ended : List (Option (String × Bool))) (w : World Number)
      → HasStatuses w.tables
      → HasStatuses (handle_all x key ended w).1.tables
  unfolding handle_all
  handle_all_status [] w h = h
  handle_all_status (none ∷ rest) w h = handle_all_status rest w h
  handle_all_status (some (host, good) ∷ rest) w h =
      bind_lem HasStatuses (handle x key host good) (λ _. handle_all x key rest) w
        (handle_status host good w h)
        (λ _. handle_all_status rest (handle x key host good w).1 (handle_status host good w h))

  -- Whatever the network answers, in whatever order the probes end, and whichever statements fail: a
  -- cycle that starts with every status 'present', 'missing-unaudited' or 'removed-audited' ends so.
  pub cycle-HasStatus :
      (net : Network) (join : List (String × Bool) → List (Option (String × Bool)))
      (connected : Bool) (w : World Number)
      → All HasStatus w.tables.topology
      → All HasStatus ((cycle x key net join connected).1 w).1.tables.topology
  unfolding cycle
  cycle-HasStatus net join false w h = h
  cycle-HasStatus net join true w h =
      query-attempt (λ rows. probe_all x key net join rows) (λ (r, w'). HasStatuses w'.tables) _ w
        (λ w' e. subst HasStatuses (sym e) h)
        (λ w' e. handle_all_status (ended net join w.tables) w' (subst HasStatuses (sym e) h))
