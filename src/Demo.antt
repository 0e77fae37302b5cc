-- ===== src/Demo.antt =====
-- gate/src/demo.rs, which takes the decommission target offline, and the handler of
-- `POST /v1/demo/decommission` in gate/src/http.rs, which decides whether to.
pub mod Outcome
pub mod Handling
pub mod Justified
pub mod Recording
use Prim.Native.String.{◌++◌}
use esclusa.Prelude.{
  ℕ, ◌/◌, String, Bool, true, false, not, ◌==◌, Option, none, some, List, [], ◌∷◌, find, take,
  nat_eq, if◌then◌else◌, unwrap_or, ◌&&◌,
}
use esclusa.Prelude.Dict.{Dict}
use esclusa.Prelude.Int.{pos}
use esclusa.Json.{Value, null, bool, number, string, object, field, end, empty_object}
use esclusa.Text.{byte_len, show}
use esclusa.External.{External}
use esclusa.Db.{TopologyRow, World, Exec, pure, attempt, ◌>>=◌}
use esclusa.Policy.{Decision, TopoView, Effect, allow, refuse}
use esclusa.Policy
use esclusa.Ledger.{Entry}
use esclusa.Ledger.Store.{append}
use esclusa.RateLimit.{MemRl, check}
use esclusa.Secrets.{token_matches}
use esclusa.Topology.{TopoRow, views, all}
use esclusa.Http.{
  AppState, HeaderMap, Response, client_ip, err, unavailable, effect_text, decision_entry,
  load_enabled,
}

abbrev pub playdead_seconds : ℕ
playdead_seconds = 90

-- DEMO_TARGET, where it is set.
abbrev pub target : Option String → String
target var = unwrap_or var "oldworker"

-- DEMO_TARGET_PORT as a number, where it is set and `parse` reads it.
abbrev pub target_port : Option ℕ → ℕ
target_port parsed = unwrap_or parsed 3000

-- What becomes of the connection: whether it is made within five seconds, whether the request is
-- written, and the bytes of the first read, if one ends within five seconds.
pub record Peer : Type 0 where
  pub connect : String → ℕ → Bool
  pub write : Bool
  pub read : Option (List ℕ)

-- What was written to the target, in whole or in part, and whether `play_dead` is `Ok`.
pub record Call : Type 0 where
  pub sent : Option String
  pub ok : Bool

unfoldable pub request_body : ℕ → String
unfolding show
request_body seconds = "{\"seconds\":" ++ show seconds ++ "}"

unfoldable pub request : String → ℕ → String
unfolding request_body byte_len
request host seconds =
    "POST /playdead HTTP/1.1\r\nHost: "
    ++ host
    ++ "\r\nContent-Type: application/json\r\nContent-Length: "
    ++ show (byte_len (request_body seconds))
    ++ "\r\nConnection: close\r\n\r\n"
    ++ request_body seconds

unfoldable pub starts_with : List ℕ → List ℕ → Bool
starts_with bytes [] = true
starts_with [] (p ∷ prefix) = false
starts_with (b ∷ bytes) (p ∷ prefix) = nat_eq b p && starts_with bytes prefix

-- "HTTP/1.1 200" by its bytes.
abbrev pub status_line : List ℕ
status_line = 72 ∷ 84 ∷ 84 ∷ 80 ∷ 47 ∷ 49 ∷ 46 ∷ 49 ∷ 32 ∷ 50 ∷ 48 ∷ 48 ∷ []

-- By whether the request was written and by the read.
abbrev pub reply_ok : Bool → Option (List ℕ) → Bool
reply_ok false read = false
reply_ok true none = false
reply_ok true (some bytes) = starts_with (take 128 bytes) status_line

unfoldable pub play_dead : Peer → String → ℕ → ℕ → Call
unfolding request starts_with
play_dead peer host port seconds =
    if peer.connect host port
    then record { sent = some (request host seconds); ok = reply_ok peer.write peer.read }
    else record { sent = none; ok = false }

pub record DemoReq : Type 0 where
  pub approved : Option Bool

abbrev pub approved_of : Option DemoReq → Bool
approved_of none = false
approved_of (some req) = unwrap_or req.approved false

-- An answer, and the call of `play_dead`, if it came to that.
abbrev pub Reply : Type 0 → Type 0
Reply N = Response N × Option Call

module _ (x : External) where
  open x use {Number, from_int}

  abbrev count : ℕ → Value Number
  count n = number (from_int (pos n))

  abbrev pub entry_summary : Entry Number → Value Number
  entry_summary e = object (field "hmac" (string e.hmac) (field "id" (number (from_int e.id)) end))

  abbrev pub authorization : Option (Decision × Entry Number) → Value Number
  authorization none = null
  authorization (some (d, e)) = object (
      field "decision" (string (effect_text d.effect)) (
        field "entry" (entry_summary e)
          (field "policy" (string d.policy) (field "reason" (string d.reason) end))))

  abbrev pub refused : Decision → Entry Number → Response Number
  refused d e = record {
    status = 200;
    body = object (
        field "approved" (bool true) (
          field "decision" (string (effect_text d.effect)) (
            field "entry" (entry_summary e) (
              field "policy" (string d.policy)
                (field "reason" (string d.reason) (field "started" (bool false) end))))));
  }

  abbrev pub started : String → Bool → Option (Decision × Entry Number) → Response Number
  started host approved decision = record {
    status = 200;
    body = object (
        field "approved" (bool approved) (
          field "authorization" (authorization decision) (
            field "expect" (string (if approved then "removed-audited" else "missing-unaudited")) (
              field "expectKind" (string (if approved then "audit" else "drift")) (
                field "failuresNeeded" (count 3) (
                  field "offlineSeconds" (count playdead_seconds) (
                    field "probeIntervalSeconds" (count 15)
                      (field "started" (bool true) (field "target" (string host) end)))))))));
  }

  abbrev pub in_progress : String → String → Response Number
  in_progress host status = record {
    status = 409;
    body = object (
        field "error" (string "a decommission is already in progress")
          (field "status" (string status) (field "target" (string host) end)));
  }

  -- The end of the handler, with what `play_dead` did.
  abbrev pub strike : String → Bool → Option (Decision × Entry Number) → Call → Reply Number
  strike host approved decision call = (
    if call.ok
        then started host approved decision
        else err x 502 "could not reach the decommission target",
    some call,
  )

  -- `call` is what `play_dead` does where the handler gets to it.
  module _ (st : AppState) (headers : HeaderMap) (host : String) (call : Call) where
    abbrev pub obey : Decision → Effect → Entry Number → Reply Number
    obey d refuse e = (refused d e, none)
    obey d allow e = strike host true (some (d, e)) call

    abbrev pub after_append : Decision → Option (Entry Number) → Reply Number
    after_append d none =
        (err x 503 "ledger write failed — decision not recorded, the gate fails closed", none)
    after_append d (some e) = obey d d.effect e

    abbrev pub ask_gate : List TopoView → Option (Dict Bool) → Exec Number (Reply Number)
    ask_gate topo none = pure (unavailable x, none)
    ask_gate topo (some enabled) =
        let d = Policy.evaluate x "service.stop" host empty_object topo enabled in
        (do
          entry ← attempt (
              append x st.signing_key (
                decision_entry x "console-demo" "service.stop" host empty_object
                  (token_matches st.gate_token headers.x_gate_token) d))
          pure (after_append d entry))

    abbrev pub on_present : Bool → List TopoView → Exec Number (Reply Number)
    on_present false topo = pure (strike host false none call)
    on_present true topo = do enabled ← attempt load_enabled; ask_gate topo enabled

    -- By the row of the target.
    abbrev pub on_row : Bool → List TopoView → Option TopoRow → Exec Number (Reply Number)
    on_row approved topo none =
        pure (err x 409 "the decommission target is not in the topology model", none)
    on_row approved topo (some t) =
        if not (t.status == "present")
        then pure (in_progress host t.status, none)
        else on_present approved topo

    abbrev pub on_rows : Bool → List TopoView → Option (List TopoRow) → Exec Number (Reply Number)
    on_rows approved topo none = pure (unavailable x, none)
    on_rows approved topo (some rows) = on_row approved topo (find (λ t. t.hostname == host) rows)

    abbrev pub on_views :
        Bool
        → (List TopologyRow → List TopologyRow)
        → Option (List TopoView)
        → Exec Number (Reply Number)
    on_views approved by_hostname none = pure (unavailable x, none)
    on_views approved by_hostname (some topo) = do
      rows ← attempt (all x by_hostname)
      on_rows approved topo rows

    abbrev pub with_client :
        Bool → (List TopologyRow → List TopologyRow) → Bool → Exec Number (Reply Number)
    with_client approved by_hostname false = pure (unavailable x, none)
    with_client approved by_hostname true = do
      topo ← attempt views
      on_views approved by_hostname topo

    -- From `db_client` on.
    unfoldable pub demonstrate :
        Bool → (List TopologyRow → List TopologyRow) → Exec Number (Reply Number)
    unfolding load_enabled views all
    demonstrate approved by_hostname = with_client approved by_hostname st.connected

  -- The answer, the map of the limiter, and the call of `play_dead`, if it came to that. `host` and
  -- `port` are the target's.
  unfoldable pub demo_decommission :
      AppState
      → (List TopologyRow → List TopologyRow)
      → (List ℕ → Option DemoReq)
      → HeaderMap
      → String
      → List ℕ
      → Peer
      → String
      → ℕ
      → Exec Number (Reply Number × MemRl)
  unfolding demonstrate check play_dead
  demo_decommission st by_hostname from_slice headers peer body network host port w =
      let (pass, mem) =
        check st.cache (w.clock / 1_000_000_000) (client_ip headers peer) st.mem_rl in
      if not pass
      then (some ((err x 429 "rate limit exceeded (30 req/min per client)", none), mem), w)
      else (do
        reply ←
            demonstrate st headers host (play_dead network host port playdead_seconds)
              (approved_of (from_slice body)) by_hostname
        pure (reply, mem))
          w
