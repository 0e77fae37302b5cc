-- ===== src/Probe/Running.antt =====
-- The endless loop of gate/src/probe.rs (`run`), and what `GET /healthz` of gate/src/http.rs says of it.
use esclusa.Prelude.{
  ℕ, ◌+◌, ◌*◌, ◌/◌, ◌%◌, ◌≤◌, ◌<◌, String, Bool, true, Option, List, [], ◌∷◌, All, ◌≡◌, arith,
}
use esclusa.Clock.{DateTime, nanosecond}
use esclusa.External.{External}
use esclusa.Db.{World}
use esclusa.Probe.{Network, cycle}
use esclusa.Queries.{probes_alive}

-- The clock in whole seconds.
abbrev pub unix_now : DateTime → ℕ
unix_now t = t / 1_000_000_000

-- Fifteen seconds and the jitter, which is below three, in nanoseconds.
unfoldable pub pause : DateTime → ℕ
pause now = 15 * 1_000_000_000 + nanosecond now % 3000 * 1_000_000

-- What a round meets: the network, the order in which its tasks end, and whether there is a client.
pub record Round : Type 0 where
  pub net : Network
  pub join : List (String × Bool) → List (Option (String × Bool))
  pub connected : Bool

-- The time from one store of `last_probe_cycle` to the next, with the value that stands meanwhile.
pub record Span : Type 0 where
  pub last : ℕ
  pub from : DateTime
  pub to : DateTime

-- Whenever `healthz` looks, it sees that the loop runs.
abbrev pub IsSeen : Span → Type 0
IsSeen s = (t : DateTime) → s.from ≤ t → t ≤ s.to → probes_alive s.last (unix_now t) ≡ true

pub pause_bounds : (t : DateTime) → (15 * 1_000_000_000 ≤ pause t) × (pause t < 18 * 1_000_000_000)
unfolding pause
pause_bounds t = omega arith

seen_in_round :
    (from to t : DateTime)
    → to ≤ from + pause from + 41 * 1_000_000_000
    → t ≤ to
    → probes_alive (unix_now from) (unix_now t) ≡ true
unfolding probes_alive
seen_in_round from to t brisk before = ground (arith, pause_bounds from)

module _ (x : External) (key : List ℕ) where
  open x use {Number}

  abbrev pub rested : World Number → World Number
  rested w = record w { clock = w.clock + pause w.clock }

  abbrev pub probed : Round → World Number → World Number
  probed r w = ((cycle x key r.net r.join r.connected).1 (rested w)).1

  -- As many rounds of the loop as there are inputs, `last_probe_cycle` being `last`: its spans.
  unfoldable pub run : List Round → ℕ → World Number → List Span
  run [] last w = []
  run (r ∷ rounds) last w =
      record { last = last; from = w.clock; to = (probed r w).clock }
      ∷ run rounds (unix_now (probed r w).clock) (probed r w)

  -- Every cycle takes at most 41 seconds.
  abbrev pub IsBrisk : List Round → World Number → Type 0
  IsBrisk [] w = Unit
  IsBrisk (r ∷ rounds) w =
      ((probed r w).clock ≤ (rested w).clock + 41 * 1_000_000_000) × IsBrisk rounds (probed r w)

  -- However many rounds the loop runs and whatever they meet, it pauses at least 15 and less than 18
  -- seconds before each cycle, and as long as every cycle takes at most 41 seconds, `healthz` reports
  -- at every time that the probes are alive, from the first store on.
  pub run-IsSeen :
      (rounds : List Round) (w : World Number)
      → IsBrisk rounds w
      → All IsSeen (run rounds (unix_now w.clock) w)
        × ((t : DateTime) → (15 * 1_000_000_000 ≤ pause t) × (pause t < 18 * 1_000_000_000))
  unfolding run
  run-IsSeen [] w brisk = (tt, pause_bounds)
  run-IsSeen (r ∷ rounds) w brisk = (
    (
      λ t from to. seen_in_round w.clock (probed r w).clock t brisk.0 to,
      (run-IsSeen rounds (probed r w) brisk.1).0,
    ),
    pause_bounds,
  )
