-- ===== src/Sync/Recording.antt =====
-- What `POST /v1/topology/sync` of gate/src/http.rs writes keeps the ledger a valid chain and the
-- statuses the three known ones.
use mathlib.Core.Path.{subst}
use esclusa.Prelude.{
  ℕ, suc, ◌+◌, ◌<◌, String, Bool, true, false, not, Option, none, some, List, [], map, length,
  if◌then◌else◌, sym, arith,
}
use esclusa.Prelude.Dict.{Dict, collect}
use esclusa.Prelude.Int.{i64_max}
use esclusa.External.{External, KeepsMicros}
use esclusa.Db.{TopologyRow, World, pure}
use esclusa.Db.Statements.{query-bind, attempt-bind, bind_lem}
use esclusa.Ledger.Store.{append}
use esclusa.Ledger.Store.Plain.{KeepsPlain}
use esclusa.Probe.Cycle.{Sound}
use esclusa.Secrets.{token_matches}
use esclusa.Topology.{SeedService}
use esclusa.Http
use esclusa.Http.{AppState, HeaderMap, Response}
use esclusa.Sync
use esclusa.Sync.{
  upsert_row, synced, apply_snapshot, remove, remove_then, remove_absent, absence, first_invalid,
  sync, sync_entry, sync_valid, sync_parsed, topology_sync, reply_to,
}
use esclusa.Sync.Holding.{
  summary_kept, Holds, weaken, append-Holds, remove_absent-Holds, apply_snapshot-Holds,
}

module _ (x : External) (key : List ℕ) where
  open x use {Number}

  module _ (micros : KeepsMicros x) (kept : KeepsPlain x) where
    sync-Holds :
        (by_hostname : List TopologyRow → List TopologyRow) (services : List SeedService) (n : ℕ)
        (w : World Number)
        → n + length (by_hostname w.tables.topology) < i64_max
        → Holds x key n w.tables
        → Holds x key
            (suc (n + length (by_hostname w.tables.topology)))
            (sync x key by_hostname services w).1.tables
    unfolding sync
    sync-Holds by_hostname services n w room h =
        query-bind _ (λ (r, u). Holds x key m u.tables) _ w
          (λ w' e. weaken x key n m w'.tables (omega arith) (subst (Holds x key n) (sym e) h))
          (λ w' e.
            let first =
              apply_snapshot-Holds x key micros kept (existing w) services n w'
                (subst (Holds x key n) (sym e) h) in
            let u = (apply_snapshot x (existing w) services w').1 in
            bind_lem (Holds x key m) (apply_snapshot x (existing w) services) _ w'
              (weaken x key n m u.tables (omega arith) first)
              (λ applied.
                let second =
                  remove_absent-Holds x key micros kept hosts (by_hostname w.tables.topology) n u
                    (omega arith) first in
                let v = (remove_absent x key hosts (by_hostname w.tables.topology) u).1 in
                bind_lem (Holds x key m) (remove_absent x key hosts (by_hostname w.tables.topology))
                  _ u
                  (weaken x key (n + length (by_hostname w.tables.topology)) m v.tables
                    (omega arith) second)
                  (λ removed.
                    let third =
                      append-Holds x key micros kept (sync_entry x (Sync.summary x applied removed))
                        (n + length (by_hostname w.tables.topology)) v
                        (summary_kept x key micros kept applied removed) room second in
                    bind_lem (Holds x key m)
                      (append x key (sync_entry x (Sync.summary x applied removed))) _ v third
                      (λ _. third))))
      where
        m : ℕ
        m = suc (n + length (by_hostname w.tables.topology))

        hosts : List String
        hosts = map (λ (s : SeedService). s.hostname) services

        existing : World Number → Dict String
        existing u =
            collect []
              (map (λ (r : TopologyRow). (r.hostname, r.status)) (by_hostname u.tables.topology))

    sync_valid-Sound :
        (by_hostname : List TopologyRow → List TopologyRow) (services : List SeedService)
        (invalid : Option String) (connected : Bool) (w : World Number)
        → length w.tables.ledger + length (by_hostname w.tables.topology) < i64_max
        → Sound x key w.tables
        → Sound x key (sync_valid x key by_hostname services invalid connected w).1.tables
    sync_valid-Sound by_hostname services (some msg) connected w room l = l
    sync_valid-Sound by_hostname services none false w room l = l
    sync_valid-Sound by_hostname services none true w room l =
        attempt-bind (λ body. pure (reply_to x body)) (λ (r, u). (Sound x key) u.tables)
          (sync x key by_hostname services) w
          (let h =
              sync-Holds by_hostname services (length w.tables.ledger) w room
                (l.0, omega arith, l.1) in
            (h.0, h.2))

    sync_parsed-Sound :
        (st : AppState) (by_hostname : List TopologyRow → List TopologyRow)
        (parsed : Option (List SeedService)) (w : World Number)
        → length w.tables.ledger + length (by_hostname w.tables.topology) < i64_max
        → Sound x key w.tables
        → Sound x key
            (sync_parsed x (record st { signing_key = key }) by_hostname parsed w).1.tables
    sync_parsed-Sound st by_hostname none w room l = l
    sync_parsed-Sound st by_hostname (some services) w room l =
        sync_valid-Sound by_hostname services (first_invalid services) st.connected w room l

  -- Whatever the snapshot and whichever statements fail, the handler keeps the ledger one of the gate's
  -- own, with ids 1, 2, and so on, and an unbroken chain, and every status 'present',
  -- 'missing-unaudited' or 'removed-audited', as long as `timestamptz` keeps whole microseconds, the
  -- `jsonb` column keeps texts, integers, arrays and objects, and an id is left for each service that was
  -- read and one more.
  pub topology_sync-Sound :
      KeepsMicros x
      → KeepsPlain x
      → (st : AppState) (by_hostname : List TopologyRow → List TopologyRow)
        (from_slice : List ℕ → Option (List SeedService)) (headers : HeaderMap) (body : List ℕ)
        (w : World Number)
      → length w.tables.ledger + length (by_hostname w.tables.topology) < i64_max
      → Sound x key w.tables
      → Sound x key
          (topology_sync x
            (record st { signing_key = key })
            by_hostname
            from_slice
            headers
            body
            w).1.tables
  unfolding topology_sync
  topology_sync-Sound micros kept st by_hostname from_slice headers body w room l =
      by_token (token_matches st.gate_token headers.x_gate_token)
    where
      by_token :
          (b : Bool)
          → Sound x key
              ((if not b
                  then pure (Http.err x 401 "missing or invalid X-Gate-Token")
                  else sync_parsed x
                      (record st { signing_key = key })
                      by_hostname
                      (from_slice body))
                w).1.tables
      by_token false = l
      by_token true = sync_parsed-Sound micros kept st by_hostname (from_slice body) w room l
