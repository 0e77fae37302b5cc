-- ===== src/Demo/Recording.antt =====
-- `POST /v1/demo/decommission` of gate/src/http.rs keeps the ledger a chain and the statuses as they are.
use mathlib.Core.Path.{subst}
use esclusa.Prelude.{ℕ, ◌<◌, String, Bool, Option, List, length, inl, inr, sym}
use esclusa.Prelude.Int.{i64_max}
use esclusa.Clock.{DateTime}
use esclusa.External.{External, KeepsMicros}
use esclusa.Db.{TopologyRow, Tables, World}
use esclusa.Ledger.Store.Chained.{with_row-IsLedger}
use esclusa.Ledger.Store.Plain.{KeepsPlain, empty-KeepsJson}
use esclusa.Http.{AppState, HeaderMap}
use esclusa.Probe.Cycle.{Sound}
use esclusa.Demo.{
  Peer, Call, DemoReq, Reply, playdead_seconds, play_dead, approved_of, demo_decommission,
}
use esclusa.Demo.Outcome.{Stored, Settled, demo_entry}
use esclusa.Demo.Justified.{demo_decommission-Settled}

module _ (x : External) (key : List ℕ) (micros : KeepsMicros x) (kept : KeepsPlain x) where
  open x use {Number}

  module _ (st : AppState) (headers : HeaderMap) (host : String) (before after : Tables Number)
      (room : length before.ledger < i64_max) (s : (Sound x key) before) where
    Stored-Sound :
        (t : DateTime)
        → Stored x (record st { signing_key = key }) headers host t before after
        → Sound x key after
    Stored-Sound t stored = subst (Sound x key) (sym stored) (
      with_row-IsLedger x key micros
          (demo_entry x (record st { signing_key = key }) headers host before) t before
          (empty-KeepsJson x kept key) s.0 room,
      s.1,
    )

    Settled-Sound :
        (by_hostname : List TopologyRow → List TopologyRow) (call : Call) (approved : Bool)
        (reply : Reply Number)
        → Settled x
            (record st { signing_key = key })
            headers
            host
            by_hostname
            call
            approved
            before
            after
            reply
        → Sound x key after
    Settled-Sound by_hostname call approved reply (inl (_, inl (_, inl same))) =
        subst (Sound x key) (sym same) s
    Settled-Sound by_hostname call approved reply (inl (_, inl (_, inr (_, (t, stored))))) =
        Stored-Sound t stored
    Settled-Sound by_hostname call approved reply (inl (_, inr (_, _, (t, stored, _)))) =
        Stored-Sound t stored
    Settled-Sound by_hostname call approved reply (inr (_, struck)) = elim struck.justified [
      | inl (_, same) ↦ subst (Sound x key) (sym same) s
      | inr (_, _, (t, stored)) ↦ Stored-Sound t stored
    ]

  pub demo_decommission-Sound :
      (st : AppState) (by_hostname : List TopologyRow → List TopologyRow)
      (from_slice : List ℕ → Option DemoReq) (headers : HeaderMap) (peer : String) (body : List ℕ)
      (network : Peer) (host : String) (port : ℕ) (w : World Number)
      → length w.tables.ledger < i64_max
      → Sound x key w.tables
      → Sound x key
          (demo_decommission x
            (record st { signing_key = key })
            by_hostname
            from_slice
            headers
            peer
            body
            network
            host
            port
            w).1.tables
  demo_decommission-Sound st by_hostname from_slice headers peer body network host port w room s =
      let (reply, mem, e, settled) =
        demo_decommission-Settled x (record st { signing_key = key }) headers host by_hostname
          from_slice peer body network port w in
      Settled-Sound st headers host w.tables _ room s by_hostname
        (play_dead network host port playdead_seconds) (approved_of (from_slice body)) reply settled
