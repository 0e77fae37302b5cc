-- ===== src/Sync/Holding.antt =====
-- What the parts of `POST /v1/topology/sync` of gate/src/http.rs do to a ledger of bounded length and
-- to the statuses: the update of a row, the removal of one, the loops over the snapshot and over what
-- it leaves out.
use mathlib.Core.Path.{subst}
use esclusa.Prelude.{
  ℕ, suc, ◌+◌, ◌<◌, ◌≤◌, String, Bool, true, false, not, ◌||◌, ◌==◌, List, [], ◌∷◌, any, length,
  length-append, All, if◌then◌else◌, inl, inr, refl, sym, arith,
}
use esclusa.Prelude.Dict.{Dict}
use esclusa.Prelude.Int.{i64_max}
use esclusa.External.{External, KeepsMicros}
use esclusa.Db.{TopologyRow, Tables, World, Exec, pure, some_pair, ◌>>=◌}
use esclusa.Db.Statements.{perform-bind, query-attempt, bind_lem}
use esclusa.Ledger.{NewEntry, normalize_params}
use esclusa.Ledger.Store.{append, recent_allow_exists}
use esclusa.Ledger.Store.Appending.{append_lem, row_at}
use esclusa.Ledger.Store.Chained.{IsLedger, KeepsJson, with_row-IsLedger}
use esclusa.Ledger.Store.Plain.{KeepsPlain, IsPlain, texts-plain, plain-KeepsJson, empty-KeepsJson}
use esclusa.Clock.{DateTime}
use esclusa.Probe.Cycle.{HasStatus}
use esclusa.Topology.Updates.{set_rows, is_present, moved, status_after}
use esclusa.Topology.{SeedService}
use esclusa.Sync
use esclusa.Sync.{
  upsert_row, synced, apply_snapshot, remove, remove_then, remove_absent, absence, first_invalid,
  sync, sync_entry, sync_valid, sync_parsed, topology_sync, reply_to,
}

upsert_known :
    (t : DateTime) (s : SeedService) (rows : List TopologyRow)
    → All HasStatus rows
    → All HasStatus (upsert_row t s rows)
unfolding upsert_row
upsert_known t s [] h = (inl refl, tt)
upsert_known t s (r ∷ rows) h = by_test (r.hostname == s.hostname) (upsert_known t s rows h.1)
  where
    by_test :
        (b : Bool)
        → All HasStatus (upsert_row t s rows)
        → All HasStatus (if b then synced t s r ∷ rows else r ∷ upsert_row t s rows)
    by_test true rest = (inl refl, h.1)
    by_test false rest = (h.0, rest)

moved_known :
    (host : String) (audited : Bool) (t : DateTime) (rows : List TopologyRow)
    → All HasStatus rows
    → All HasStatus (set_rows (is_present host) (moved (status_after audited) t) rows)
unfolding set_rows
moved_known host audited t [] h = tt
moved_known host audited t (r ∷ rows) h =
    (by_test (is_present host r) audited, moved_known host audited t rows h.1)
  where
    by_test : (b a : Bool) → HasStatus (if b then moved (status_after a) t r else r)
    by_test true true = inr (inr refl)
    by_test true false = inr (inl refl)
    by_test false a = h.0

module _ (x : External) (key : List ℕ) where
  open x use {Number, timestamptz}

  -- A ledger of the gate's own of at most `n` rows, and known statuses.
  abbrev pub Holds : ℕ → Tables Number → Type 0
  Holds n tables =
      IsLedger x key tables.ledger × (length tables.ledger ≤ n) × All HasStatus tables.topology

  pub weaken : (n m : ℕ) (tables : Tables Number) → n ≤ m → Holds n tables → Holds m tables
  weaken n m tables le (l, short, known) = (l, omega arith, known)

  module _ (micros : KeepsMicros x) (kept : KeepsPlain x) where
    pub append-Holds :
        (new : NewEntry Number) (n : ℕ) (w : World Number)
        → KeepsJson x key (normalize_params x new.params)
        → n < i64_max
        → Holds n w.tables
        → Holds (suc n) (append x key new w).1.tables
    append-Holds new n w back room (l, short, known) = elim (append_lem x key new w) [
      | inl (_, same) ↦ subst (Holds (suc n)) (sym same) (l, omega arith, known)
      | inr (t, stored, _) ↦ subst (Holds (suc n)) (sym stored) (
        with_row-IsLedger x key micros new t w.tables back l (omega arith),
        omega (arith, length-append w.tables.ledger (row_at x key new w.tables t ∷ [])),
        known,
      )
    ]

    absence_kept :
        (host : String) (audited : Bool)
        → KeepsJson x key (normalize_params x (absence x host audited).params)
    absence_kept host true = empty-KeepsJson x kept key
    absence_kept host false = empty-KeepsJson x kept key

    pub summary_kept :
        (applied removed : List String × List String)
        → KeepsJson x key (normalize_params x (Sync.summary x applied removed))
    unfolding IsPlain
    summary_kept (added, updated) (audited, unaudited) =
        plain-KeepsJson x kept key (Sync.summary x (added, updated) (audited, unaudited)) (
          texts-plain x added,
          (texts-plain x audited, (texts-plain x unaudited, (texts-plain x updated, tt))),
        )

    remove-Holds :
        (host : String) (audited : Bool) (n : ℕ) (w : World Number)
        → n < i64_max
        → Holds n w.tables
        → Holds (suc n) (remove x key host audited w).1.tables
    unfolding remove
    remove-Holds host audited n w room h =
        perform-bind _ (λ (r, u). Holds (suc n) u.tables) _ w
          (λ w' e. weaken n (suc n) w'.tables (omega arith) (subst (Holds n) (sym e) h))
          (λ w' a e. weaken n (suc n) w'.tables (omega arith) (
            subst (Holds n) (some_pair e).1
              (h.0, h.1, moved_known host audited (timestamptz w'.clock) w.tables.topology h.2)))
          (λ w' a e.
            let after =
              append-Holds (absence x host audited) n w' (absence_kept host audited) room (
                subst (Holds n) (some_pair e).1 (
                  h.0,
                  h.1,
                  moved_known host audited (timestamptz w'.clock) w.tables.topology h.2,
                )) in
            bind_lem (Holds (suc n)) (append x key (absence x host audited)) _ w' after
              (λ _. after))

    remove_then-Holds :
        (host : String) (rest : Exec Number (List String × List String)) (n m : ℕ)
        (w : World Number)
        → n < i64_max
        → suc n ≤ m
        → Holds n w.tables
        → ((u : World Number) → Holds (suc n) u.tables → Holds m (rest u).1.tables)
        → Holds m (remove_then x key host rest w).1.tables
    unfolding recent_allow_exists
    remove_then-Holds host rest n m w room le h go =
        query-attempt _ (λ (r, u). Holds m u.tables) _ w
          (λ w' e. then_rest false w' (subst (Holds n) (sym e) h))
          (λ w' e. then_rest _ w' (subst (Holds n) (sym e) h))
      where
        then_rest :
            (audited : Bool) (u : World Number)
            → Holds n u.tables
            → Holds m
                ((remove x key host audited >>= λ _.
                    rest >>= λ names. pure (Sync.sorted_in audited host names))
                  u).1.tables
        then_rest audited u k =
            let after = remove-Holds host audited n u room k in
            bind_lem (Holds m) (remove x key host audited) _ u
              (weaken (suc n) m (remove x key host audited u).1.tables le after)
              (λ _.
                bind_lem (Holds m) rest _ (remove x key host audited u).1
                  (go (remove x key host audited u).1 after)
                  (λ _. go (remove x key host audited u).1 after))

    pub remove_absent-Holds :
        (hosts : List String) (rows : List TopologyRow) (n : ℕ) (w : World Number)
        → n + length rows ≤ i64_max
        → Holds n w.tables
        → Holds (n + length rows) (remove_absent x key hosts rows w).1.tables
    unfolding remove_absent
    remove_absent-Holds hosts [] n w room h = weaken n _ w.tables (omega arith) h
    remove_absent-Holds hosts (row ∷ rows) n w room h =
        by_test (any (λ h. h == row.hostname) hosts || not (row.status == "present"))
          (λ k u room' h'. remove_absent-Holds hosts rows k u room' h')
      where
        by_test :
            (skip : Bool)
            → ((k : ℕ) (u : World Number)
                → k + length rows ≤ i64_max
                → Holds k u.tables
                → Holds (k + length rows) (remove_absent x key hosts rows u).1.tables)
            → Holds
                (n + suc (length rows))
                ((if skip
                    then remove_absent x key hosts rows
                    else remove_then x key row.hostname (remove_absent x key hosts rows))
                  w).1.tables
        by_test true ih =
            weaken (n + length rows) (n + suc (length rows))
              (remove_absent x key hosts rows w).1.tables (omega arith) (ih n w (omega arith) h)
        by_test false ih =
            remove_then-Holds row.hostname (remove_absent x key hosts rows) n
              (n + suc (length rows)) w (omega arith) (omega arith) h
              (λ u k.
                weaken (suc n + length rows) (n + suc (length rows))
                  (remove_absent x key hosts rows u).1.tables (omega arith)
                  (ih (suc n) u (omega arith) k))

    pub apply_snapshot-Holds :
        (existing : Dict String) (services : List SeedService) (n : ℕ) (w : World Number)
        → Holds n w.tables
        → Holds n (apply_snapshot x existing services w).1.tables
    unfolding apply_snapshot
    apply_snapshot-Holds existing [] n w h = h
    apply_snapshot-Holds existing (s ∷ services) n w h =
        perform-bind _ (λ (r, u). Holds n u.tables) _ w (λ w' e. subst (Holds n) (sym e) h)
          (λ w' a e.
            subst (Holds n) (some_pair e).1
              (h.0, h.1, upsert_known (timestamptz w'.clock) s w.tables.topology h.2))
          (λ w' a e.
            let after = apply_snapshot-Holds existing services n w' (
              subst (Holds n) (some_pair e).1
                (h.0, h.1, upsert_known (timestamptz w'.clock) s w.tables.topology h.2)) in
            bind_lem (Holds n) (apply_snapshot x existing services) _ w' after (λ _. after))
