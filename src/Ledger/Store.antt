-- ===== src/Ledger/Store.antt =====
-- The Postgres half of gate/src/ledger.rs: appending, listing, and the search for an unspent
-- authorization.
pub mod Order
pub mod Appending
pub mod Chained
pub mod Plain
pub mod Runs
pub mod Free
pub mod Unspent
use esclusa.Prelude.{
  ℕ, zero, suc, ◌+◌, ◌*◌, String, Bool, true, false, ◌&&◌, ◌||◌, ◌==◌, Option, none, some, List, [],
  ◌∷◌, ◌++◌, map, any, length, where_rows, take, drop, ltb, if◌then◌else◌, unwrap_or,
}
use mathlib.Core.List.{reverse}
use mathlib.Core.Option
use esclusa.Prelude.Int.{ℤ, pos, leb_ℤ, ltb_ℤ, eqb_ℤ, add_one_i64}
use esclusa.Json.{Value}
use esclusa.Clock.{DateTime, now_micros}
use esclusa.External.{External}
use esclusa.Db.{Row, Tables, World, Exec, pure, now, perform, query, ◌>>=◌, ◌>>◌}
use esclusa.Ledger.{
  Entry, NewEntry, genesis, ts_string, canonical_string, normalize_params, hmac_hex,
}

-- `ORDER BY id ASC`.
unfoldable pub insert_by_id : {N : Type 0} → Row N → List (Row N) → List (Row N)
insert_by_id r [] = r ∷ []
insert_by_id r (s ∷ rows) = if leb_ℤ r.id s.id then r ∷ s ∷ rows else s ∷ insert_by_id r rows

unfoldable pub order_by_id : {N : Type 0} → List (Row N) → List (Row N)
unfolding insert_by_id
order_by_id [] = []
order_by_id (r ∷ rows) = insert_by_id r (order_by_id rows)

-- `ORDER BY id DESC LIMIT 1`: the row with the largest id.
unfoldable pub head_row : {N : Type 0} → List (Row N) → Option (Row N)
head_row [] = none
head_row (r ∷ rows) = elim (head_row rows) [
  | none ↦ some r
  | some m ↦ if ltb_ℤ r.id m.id then some m else some r
]

-- `max(ts)`.
unfoldable pub max_ts : {N : Type 0} → List (Row N) → Option DateTime
max_ts [] = none
max_ts (r ∷ rows) = elim (max_ts rows) [
  | none ↦ some r.ts
  | some t ↦ if ltb r.ts t then some t else some r.ts
]

abbrev pub thirty_minutes : ℕ
thirty_minutes = 30 * 60 * 1_000_000_000

-- The `WHERE` clause of `recent_allow_exists`; `t` is `now()`.
unfoldable pub is_unspent_allow : {N : Type 0} → String → DateTime → List (Row N) → Row N → Bool
is_unspent_allow target t rows r =
    r.kind == "decision"
    && r.decision == "allow"
    && (r.action == "service.delete" || r.action == "service.stop")
    && r.target == target
    && ltb t (r.ts + thirty_minutes)
    && ltb (unwrap_or (max_ts (where_rows (λ a. a.kind == "audit" && a.target == target) rows)) 0)
        r.ts

unfoldable pub recent_allow : {N : Type 0} → String → DateTime → List (Row N) → Bool
unfolding is_unspent_allow max_ts
recent_allow target t rows = any (is_unspent_allow target t rows) rows

module _ (x : External) where
  open x use {Number, timestamptz, jsonb}

  unfoldable pub entry_from_row : Row Number → Entry Number
  unfolding ts_string
  entry_from_row row = record {
    id = row.id;
    ts = ts_string x row.ts;
    kind = row.kind;
    actor = row.actor;
    action = row.action;
    target = row.target;
    decision = row.decision;
    reason = row.reason;
    policy = row.policy;
    params = row.params;
    authenticated = row.authenticated;
    prev_hmac = row.prev_hmac;
    hmac = row.hmac;
  }

  -- The id and the HMAC to continue from.
  abbrev pub previous : Option (Row Number) → ℤ × String
  previous (some row) = (row.id, row.hmac)
  previous none = (pos 0, genesis)

  -- The entry that `append` computes behind `head` at the time `t`.
  unfoldable pub next_entry :
      List ℕ → NewEntry Number → Option (Row Number) → DateTime → Entry Number
  unfolding ts_string
  next_entry key new head t =
      let (prev_id, prev_hmac) = previous head in
      let id = add_one_i64 prev_id in
      let ts = ts_string x t in
      let params = normalize_params x new.params in
      let canonical =
        canonical_string x id ts new.kind new.actor new.action new.target new.decision new.reason
          new.policy params new.authenticated prev_hmac in
      record {
        id = id;
        ts = ts;
        kind = new.kind;
        actor = new.actor;
        action = new.action;
        target = new.target;
        decision = new.decision;
        reason = new.reason;
        policy = new.policy;
        params = params;
        authenticated = new.authenticated;
        prev_hmac = prev_hmac;
        hmac = hmac_hex x key canonical;
      }

  -- The row that `INSERT` stores of it: `timestamptz` and `jsonb` columns keep values of their own.
  unfoldable pub stored_row : Entry Number → DateTime → Row Number
  stored_row e t = record {
    id = e.id;
    ts = timestamptz t;
    kind = e.kind;
    actor = e.actor;
    action = e.action;
    target = e.target;
    decision = e.decision;
    reason = e.reason;
    policy = e.policy;
    params = jsonb e.params;
    authenticated = e.authenticated;
    prev_hmac = e.prev_hmac;
    hmac = e.hmac;
  }

  -- `INSERT` inside the transaction: it fails on an id that is taken, and shows nothing before the
  -- commit.
  abbrev insert_row : Row Number → Tables Number → Option (Unit {0} × Tables Number)
  insert_row row tables =
      if any (λ r. eqb_ℤ r.id row.id) tables.ledger then none else some (tt, tables)

  -- Begin, lock, read the head, compute id and HMAC, insert, commit. Before the commit nothing is
  -- durable, and the lock keeps other appends out until then.
  unfoldable pub append : List ℕ → NewEntry Number → Exec Number (Entry Number)
  append key new = do
    query (λ _ _. tt)
    query (λ _ _. tt)
    head ← query (λ _ tables. head_row tables.ledger)
    time ← now
    let ts_dt = now_micros time
    let entry = next_entry key new head ts_dt
    let row = stored_row entry ts_dt
    perform (λ _ tables. insert_row row tables)
    perform (λ _ tables. some (tt, record tables { ledger = tables.ledger ++ row ∷ [] }))
    pure entry

  -- `kind = ANY(kinds)`; no list of kinds lets every row through.
  abbrev pub of_kinds : Option (List String) → Row Number → Bool
  of_kinds none row = true
  of_kinds (some kinds) row = any (λ k. row.kind == k) kinds

  -- Newest first, with the number of all rows of these kinds. Two statements.
  unfoldable pub list : ℕ → ℕ → Option (List String) → Exec Number (List (Entry Number) × ℕ)
  unfolding order_by_id
  list limit offset kinds = do
    rows ← query (λ _ tables.
        take limit
          (drop offset (reverse (order_by_id (where_rows (of_kinds kinds) tables.ledger)))))
    total ← query (λ _ tables. length (where_rows (of_kinds kinds) tables.ledger))
    pure (map entry_from_row rows, total)

  unfoldable pub all_ordered : Exec Number (List (Entry Number))
  unfolding order_by_id
  all_ordered = do
    rows ← query (λ _ tables. order_by_id tables.ledger)
    pure (map entry_from_row rows)

  unfoldable pub recent_allow_exists : String → Exec Number Bool
  unfolding recent_allow
  recent_allow_exists target = query (λ t tables. recent_allow target t tables.ledger)
