-- ===== src/Sync/Answering.antt =====
-- What `POST /v1/topology/sync` of gate/src/http.rs answers.
use esclusa.Prelude.{
  ℕ, String, Bool, true, false, not, Option, none, some, List, All, if◌then◌else◌, ◌≡◌, ◌≢◌, ◌⊎◌,
  inl, inr, refl, arith,
}
use esclusa.Json.{Value}
use esclusa.External.{External}
use esclusa.Db.{TopologyRow, Tables, World, pure}
use esclusa.Db.Statements.{attempt-bind}
use esclusa.Db.Success.{Succeeds}
use esclusa.Secrets.{token_matches}
use esclusa.Topology.{SeedService}
use esclusa.Http
use esclusa.Http.{AppState, HeaderMap, Response}
use esclusa.Sync.{first_invalid, sync, sync_valid, sync_parsed, topology_sync, reply_to}
use esclusa.Sync.Presence.{sync-Shows}
use esclusa.Sync.Showing.{Shows}

module _ (x : External) where
  open x use {Number}

  -- What an answer tells of the tables: on 200 the token was right, the snapshot usable, and each of
  -- its services has a row that is 'present'; on anything but 200 and 503 nothing was written.
  abbrev pub Synced :
      AppState
      → HeaderMap
      → Option (List SeedService)
      → Tables Number
      → Option (Response Number) × World Number
      → Type 0
  Synced st headers parsed before (r, w') =
      (reply : Response Number) × (r ≡ some reply)
      × (((reply.status ≢ 200) × ((w'.tables ≡ before) ⊎ (reply.status ≡ 503)))
          ⊎ ((services : List SeedService) × (token_matches st.gate_token headers.x_gate_token
                ≡ true)
              × (parsed ≡ some services)
              × (first_invalid services ≡ none)
              × All (λ (s : SeedService). Shows w'.tables s.hostname) services))

  module _ (st : AppState) (headers : HeaderMap)
      (by_hostname : List TopologyRow → List TopologyRow) where
    sync_valid_lem :
        (services : List SeedService) (invalid : Option String) (connected : Bool)
        (w : World Number)
        → token_matches st.gate_token headers.x_gate_token ≡ true
        → first_invalid services ≡ invalid
        → Synced st headers
            (some services)
            w.tables
            (sync_valid x st.signing_key by_hostname services invalid connected w)
    sync_valid_lem services (some msg) connected w token e =
        (_, refl, inl (λ h. absurd (omega arith), inl refl))
    sync_valid_lem services none false w token e =
        (_, refl, inl (λ h. absurd (omega arith), inl refl))
    sync_valid_lem services none true w token e =
        attempt-bind (λ body. pure (reply_to x body)) (Synced st headers (some services) w.tables)
          (sync x st.signing_key by_hostname services) w
          (by_result (sync x st.signing_key by_hostname services w).0
            (sync x st.signing_key by_hostname services w).1
            (sync-Shows x st.signing_key by_hostname services w))
      where
        by_result :
            (r : Option (Value Number)) (u : World Number)
            → Succeeds (λ _ v. All (λ (s : SeedService). Shows v.tables s.hostname) services) (r, u)
            → Synced st headers (some services) w.tables (pure (reply_to x r) u)
        by_result none u h = (_, refl, inl (λ h. absurd (omega arith), inr refl))
        by_result (some body) u h = (_, refl, inr (services, token, refl, e, h))

    sync_parsed_lem :
        (parsed : Option (List SeedService)) (w : World Number)
        → token_matches st.gate_token headers.x_gate_token ≡ true
        → Synced st headers parsed w.tables (sync_parsed x st by_hostname parsed w)
    sync_parsed_lem none w token = (_, refl, inl (λ h. absurd (omega arith), inl refl))
    sync_parsed_lem (some services) w token =
        sync_valid_lem services (first_invalid services) st.connected w token refl

    -- The handler always answers. On 200 the token was right, every service of the snapshot could be
    -- used, and each of them has a row that is 'present', whatever it was before; on anything but 200
    -- and 503 nothing was written.
    pub topology_sync-Synced :
        (from_slice : List ℕ → Option (List SeedService)) (body : List ℕ) (w : World Number)
        → Synced st headers
            (from_slice body)
            w.tables
            (topology_sync x st by_hostname from_slice headers body w)
    unfolding topology_sync
    topology_sync-Synced from_slice body w =
        by_token (token_matches st.gate_token headers.x_gate_token) refl
      where
        by_token :
            (b : Bool)
            → token_matches st.gate_token headers.x_gate_token ≡ b
            → Synced st headers (from_slice body) w.tables (
                (if not b
                    then pure (Http.err x 401 "missing or invalid X-Gate-Token")
                    else sync_parsed x st by_hostname (from_slice body))
                  w)
        by_token false e = (_, refl, inl (λ h. absurd (omega arith), inl refl))
        by_token true e = sync_parsed_lem (from_slice body) w e
