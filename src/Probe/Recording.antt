-- ===== src/Probe/Recording.antt =====
-- What the probes of gate/src/probe.rs write keeps the ledger a valid chain.
use mathlib.Core.Path.{subst}
use esclusa.Prelude.{
  ℕ, suc, ◌+◌, ◌≤◌, ◌<◌, String, Bool, true, false, Option, none, some, List, [], ◌∷◌, map, length,
  where_rows, not, ◌==◌, length-append, ◌≡◌, ◌⊎◌, inl, inr, refl, sym, ap, ◌∙◌, arith,
}
use esclusa.Prelude.Int.{pos, i64_max}
use esclusa.Json.{object, field, number, end, empty_object}
use esclusa.External.{External, KeepsMicros}
use esclusa.Db.{TopologyRow, Tables, World}
use esclusa.Db.Statements.{query-attempt, bind_lem}
use esclusa.Ledger.{NewEntry, normalize_params}
use esclusa.Ledger.Store.Appending.{row_at}
use esclusa.Ledger.Store.Chained.{IsLedger, KeepsJson, with_row-IsLedger}
use esclusa.Ledger.Store.Plain.{KeepsPlain, IsPlain, plain-KeepsJson, empty-KeepsJson}
use esclusa.Probe.{
  Network, probe_one, handle, handle_all, probe_all, cycle, disappearance, reappearance,
}
use esclusa.Probe.Failing.{Noted, Failed, handle_failure_lem}
use esclusa.Probe.Reappearing.{returned, Succeeded, handle_success_lem}
use esclusa.Probe.Cycle.{ended}

module _ (x : External) (key : List ℕ) where
  open x use {Number, from_int}

  -- A ledger with room.
  abbrev Holds : ℕ → Tables Number → Type 0
  Holds n tables = IsLedger x key tables.ledger × (length tables.ledger ≤ n)

  Noted-Holds :
      KeepsMicros x
      → (new : NewEntry Number) (n : ℕ) (before after : Tables Number)
      → KeepsJson x key (normalize_params x new.params)
      → n < i64_max
      → Holds n before
      → Noted x key new before after
      → Holds (suc n) after
  Noted-Holds micros new n before after kept room (l, short) (inl e) =
      subst (Holds (suc n)) (sym e) (l, omega arith)
  Noted-Holds micros new n before after kept room (l, short) (inr (t, e)) =
      subst (Holds (suc n)) (sym e) (
        with_row-IsLedger x key micros new t before kept l (omega arith),
        omega (arith, length-append before.ledger (row_at x key new before t ∷ [])),
      )

  -- What the `jsonb` column must give back: the parameters of the probes' own entries.
  pub record KeepsProbes : Type 0 where
    pub nothing : KeepsJson x key (normalize_params x empty_object)
    pub failures :
        (n : ℕ)
        → KeepsJson x key (
            normalize_params x
              (object (field "consecutive_failures" (number (from_int (pos n))) end)))

  pub plain-KeepsProbes : KeepsPlain x → KeepsProbes
  unfolding IsPlain
  plain-KeepsProbes kept = record {
    nothing = empty-KeepsJson x kept key;
    failures = λ n. plain-KeepsJson x kept key _ ((pos n, refl), tt);
  }

  keeps_disappearance :
      KeepsProbes
      → (host : String) (n : ℕ) (audited : Bool)
      → KeepsJson x key (normalize_params x (disappearance x host n audited).params)
  keeps_disappearance kept host n true = kept.failures n
  keeps_disappearance kept host n false = kept.failures n

  module _ (micros : KeepsMicros x) (kept : KeepsProbes) (host : String) (n : ℕ)
      (room : n < i64_max) where
    same_ledger :
        (before after : Tables Number)
        → after.ledger ≡ before.ledger
        → Holds n before
        → Holds n after
    same_ledger before after e h = subst (λ l. IsLedger x key l × (length l ≤ n)) (sym e) h

    later : (tables : Tables Number) → Holds n tables → Holds (suc n) tables
    later tables (l, short) = (l, omega arith)

    first_ledger :
        (before mid : Tables Number)
        → (mid ≡ before) ⊎ ((t : ℕ) × (mid ≡ returned x key host t before))
        → mid.ledger ≡ before.ledger
    first_ledger before mid (inl e) = ap (λ (u : Tables Number). u.ledger) e
    first_ledger before mid (inr (t, e)) = ap (λ (u : Tables Number). u.ledger) e

    Succeeded-Holds :
        (before after : Tables Number)
        → Succeeded x key host before after
        → Holds n before
        → Holds (suc n) after
    Succeeded-Holds before after (mid, first, inl noted) h =
        Noted-Holds micros (reappearance x host) n mid after kept.nothing room
          (same_ledger before mid (first_ledger before mid first) h) noted
    Succeeded-Holds before after (mid, first, inr (t, e)) h = later after (
        same_ledger before after
          (ap (λ (u : Tables Number). u.ledger) e ∙ first_ledger before mid first) h)

    Failed-Holds :
        (before after : Tables Number)
        → Failed x key host before after
        → Holds n before
        → Holds (suc n) after
    Failed-Holds before after (inl e) h =
        later after (same_ledger before after (ap (λ (u : Tables Number). u.ledger) e) h)
    Failed-Holds before after (inr (t, inl e)) h =
        later after (same_ledger before after (ap (λ (u : Tables Number). u.ledger) e) h)
    Failed-Holds before after (inr (t, inr (row, only, present, failing, c))) h =
        Noted-Holds micros (disappearance x host (suc row.consecutive_failures) c.audited) n _ after
          (keeps_disappearance kept host (suc row.consecutive_failures) c.audited) room h c.noted

    handle-Holds :
        (good : Bool) (w : World Number)
        → Holds n w.tables
        → Holds (suc n) (handle x key host good w).1.tables
    handle-Holds true w h = Succeeded-Holds w.tables _ (handle_success_lem x key host w) h
    handle-Holds false w h = Failed-Holds w.tables _ (handle_failure_lem x key host w) h

  handle_all_ledger :
      KeepsMicros x
      → KeepsProbes
      → (ended : List (Option (String × Bool))) (n : ℕ) (w : World Number)
      → n + length ended ≤ i64_max
      → Holds n w.tables
      → IsLedger x key (handle_all x key ended w).1.tables.ledger
  unfolding handle_all
  handle_all_ledger micros kept [] n w room h = h.0
  handle_all_ledger micros kept (none ∷ rest) n w room h =
      handle_all_ledger micros kept rest n w (omega arith) h
  handle_all_ledger micros kept (some (host, good) ∷ rest) n w room h =
      let after = handle-Holds micros kept host n (omega arith) good w h in
      bind_lem (λ u. IsLedger x key u.ledger) (handle x key host good) (λ _. handle_all x key rest)
        w after.0
        (λ _.
          handle_all_ledger micros kept rest (suc n) (handle x key host good w).1 (omega arith)
            after)

  length-where_rows :
      (p : TopologyRow → Bool) (rows : List TopologyRow) → length (where_rows p rows) ≤ length rows
  length-where_rows p [] = omega arith
  length-where_rows p (r ∷ rows) = ground (arith, length-where_rows p rows)

  length-map : {A B : Type 0} (f : A → B) (l : List A) → length (map f l) ≡ length l
  length-map f [] = refl
  length-map f (a ∷ l) = ap suc (length-map f l)

  -- A cycle keeps the ledger one of the gate's own, with ids 1, 2, and so on, and an unbroken chain,
  -- whatever the network answers, in whatever order the probes end, and whichever statements fail, as
  -- long as no more probes end than were started, `timestamptz` keeps whole microseconds, the `jsonb`
  -- column gives back the parameters of the probes' entries as they were signed, and an id is left for
  -- each service.
  pub cycle-IsLedger :
      KeepsMicros x
      → KeepsProbes
      → (net : Network) (join : List (String × Bool) → List (Option (String × Bool)))
        (connected : Bool) (w : World Number)
      → ((started : List (String × Bool)) → length (join started) ≤ length started)
      → IsLedger x key w.tables.ledger
      → length w.tables.ledger + length w.tables.topology ≤ i64_max
      → IsLedger x key ((cycle x key net join connected).1 w).1.tables.ledger
  unfolding cycle
  cycle-IsLedger micros kept net join false w once l room = l
  cycle-IsLedger micros kept net join true w once l room =
      query-attempt (λ rows. probe_all x key net join rows)
        (λ (r, w'). IsLedger x key w'.tables.ledger) _ w
        (λ w' e. subst (λ (u : Tables Number). IsLedger x key u.ledger) (sym e) l)
        (λ w' e.
          handle_all_ledger micros kept (ended net join w.tables) (length w.tables.ledger) w'
            (few (once _)) (subst (Holds (length w.tables.ledger)) (sym e) (l, omega arith)))
    where
      started : List (String × Bool)
      started =
          map
            (λ (r : TopologyRow). (r.hostname, probe_one net r.hostname r.probe_method r.tcp_port))
            (where_rows (λ r. not (r.probe_method == "none")) w.tables.topology)

      few :
          length (ended net join w.tables) ≤ length started
          → length w.tables.ledger + length (ended net join w.tables) ≤ i64_max
      few h = omega (
        arith,
        length-map {B = String × Bool}
            (λ (r : TopologyRow). (r.hostname, probe_one net r.hostname r.probe_method r.tcp_port))
            (where_rows (λ r. not (r.probe_method == "none")) w.tables.topology),
        length-where_rows (λ r. not (r.probe_method == "none")) w.tables.topology,
      )
