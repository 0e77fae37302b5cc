-- ===== src/Sync/Presence.antt =====
-- What is in the topology after `POST /v1/topology/sync` of gate/src/http.rs.
use mathlib.Core.Path.{subst}
use esclusa.Prelude.{
  ℕ, String, Bool, true, false, not, ◌||◌, ◌==◌, Option, none, some, List, [], ◌∷◌, map, any, All,
  if◌then◌else◌, ◌≡◌, inl, inr, refl, sym, ap,
}
use esclusa.Prelude.Dict.{Dict}
use esclusa.Clock.{DateTime}
use esclusa.External.{External}
use esclusa.Db.{TopologyRow, Tables, World, Exec, pure, ◌>>=◌, ◌>>◌, some_pair}
use esclusa.Db.Statements.{perform-bind, query-bind, query-attempt}
use esclusa.Db.Success.{Succeeds, bind-Succeeds}
use esclusa.Ledger.{NewEntry, Entry}
use esclusa.Ledger.Store.{append, recent_allow_exists}
use esclusa.Ledger.Store.Appending.{append_lem, Appended}
use esclusa.Topology.{SeedService}
use esclusa.Topology.Updates.{set_rows, is_present, moved, status_after}
use esclusa.Probe.Updating.{All-map}
use esclusa.Sync.{
  upsert, apply_snapshot, remove, remove_then, remove_absent, absence, sorted_in, sync,
}
use esclusa.Sync.Showing.{Shows, upsert_row-shown, upsert_row-kept, moved-kept, others}

module _ (x : External) where
  open x use {Number, timestamptz}

  append-Succeeds :
      (key : List ℕ) (new : NewEntry Number) (w : World Number)
      → Succeeds (λ _ w'. w'.tables.topology ≡ w.tables.topology) (append x key new w)
  append-Succeeds key new w =
      by_result (append x key new w).0 (append x key new w).1 (append_lem x key new w)
    where
      by_result :
          (r : Option (Entry Number)) (u : World Number)
          → Appended x key new w.tables (r, u)
          → Succeeds (λ _ w'. w'.tables.topology ≡ w.tables.topology) (r, u)
      by_result none u h = tt
      by_result (some e) u (inl (failed, same)) = cc
      by_result (some e) u (inr (t, stored, told)) = ap (λ (v : Tables Number). v.topology) stored

  apply_snapshot-Shows :
      (existing : Dict String) (services : List SeedService) (hosts : List String)
      (w : World Number)
      → All (Shows w.tables) hosts
      → Succeeds
          (λ _ w'.
            All (Shows w'.tables) hosts
            × All (λ (s : SeedService). Shows w'.tables s.hostname) services)
          (apply_snapshot x existing services w)
  unfolding apply_snapshot
  apply_snapshot-Shows existing [] hosts w h = (h, tt)
  apply_snapshot-Shows existing (s ∷ services) hosts w h =
      perform-bind _ Q _ w (λ w' e. tt) (λ w' a e. tt)
        (λ w' a e.
          let stored = sym (some_pair e).1 in
          bind-Succeeds
            (λ _ u.
              All (Shows u.tables) (s.hostname ∷ hosts)
              × All (λ (s : SeedService). Shows u.tables s.hostname) services)
            R (apply_snapshot x existing services) _ w'
            (apply_snapshot-Shows existing services (s.hostname ∷ hosts) w' (
              subst (λ (v : Tables Number). Shows v s.hostname) (sym stored)
                  (upsert_row-shown (timestamptz w'.clock) s w.tables.topology),
              subst (λ (v : Tables Number). All (Shows v) hosts) (sym stored)
                  (All-map (Shows w.tables) (Shows (upsert (timestamptz w'.clock) s w.tables))
                    (λ host k. upsert_row-kept (timestamptz w'.clock) s host w.tables.topology k)
                    hosts h),
            ))
            (λ names u (front, back). (front.1, (front.0, back))))
    where
      R : List String × List String → World Number → Type 0
      R _ u =
          All (Shows u.tables) hosts
          × All (λ (s : SeedService). Shows u.tables s.hostname) (s ∷ services)

      Q : Option (List String × List String) × World Number → Type 0
      Q = Succeeds R

  remove-Shows :
      (key : List ℕ) (host : String) (audited : Bool) (hosts : List String) (w : World Number)
      → All (λ h. (h == host) ≡ false) hosts
      → All (Shows w.tables) hosts
      → Succeeds (λ _ u. All (Shows u.tables) hosts) (remove x key host audited w)
  unfolding remove
  remove-Shows key host audited hosts w other h =
      perform-bind _ Q _ w (λ w' e. tt) (λ w' a e. tt)
        (λ w' a e.
          bind-Succeeds (λ _ u. u.tables.topology ≡ w'.tables.topology)
            (λ _ u. All (Shows u.tables) hosts) (append x key (absence x host audited)) _ w'
            (append-Succeeds key (absence x host audited) w')
            (λ _ u same.
              subst (λ l. All (λ h. any (is_present h) l ≡ true) hosts) (sym same)
                (subst (λ (v : Tables Number). All (Shows v) hosts) (some_pair e).1
                  (both hosts other h w'.clock))))
    where
      Q : Option ℕ × World Number → Type 0
      Q = Succeeds (λ _ u. All (Shows u.tables) hosts)

      both :
          (hosts : List String)
          → All (λ h. (h == host) ≡ false) hosts
          → All (Shows w.tables) hosts
          → (t : DateTime)
          → All
              (λ h.
                any (is_present h) (
                  set_rows
                    (is_present host)
                    (moved (status_after audited) (timestamptz t))
                    w.tables.topology)
                ≡ true)
              hosts
      both [] o h t = tt
      both (g ∷ gs) o h t = (
        moved-kept (status_after audited) (timestamptz t) g host w.tables.topology o.0 h.0,
        both gs o.1 h.1 t,
      )

  -- One row of the second loop, then the rest.
  recall :
      (key : List ℕ) (host : String) (rest : Exec Number (List String × List String))
      (hosts : List String) (audited : Bool) (w : World Number)
      → All (λ h. (h == host) ≡ false) hosts
      → All (Shows w.tables) hosts
      → ((u : World Number)
          → All (Shows u.tables) hosts
          → Succeeds (λ _ v. All (Shows v.tables) hosts) (rest u))
      → Succeeds
          (λ _ u. All (Shows u.tables) hosts)
          ((remove x key host audited >> (rest >>= λ names. pure (sorted_in audited host names))) w)
  recall key host rest hosts audited w other h go =
      bind-Succeeds (λ _ u. All (Shows u.tables) hosts) (λ _ u. All (Shows u.tables) hosts)
        (remove x key host audited) _ w (remove-Shows key host audited hosts w other h)
        (λ _ u k.
          bind-Succeeds (λ _ v. All (Shows v.tables) hosts) (λ _ v. All (Shows v.tables) hosts) rest
            _ u (go u k) (λ _ v l. l))

  remove_absent-Shows :
      (key : List ℕ) (hosts : List String) (rows : List TopologyRow) (w : World Number)
      → All (Shows w.tables) hosts
      → Succeeds (λ _ u. All (Shows u.tables) hosts) (remove_absent x key hosts rows w)
  unfolding remove_absent recent_allow_exists
  remove_absent-Shows key hosts [] w h = h
  remove_absent-Shows key hosts (row ∷ rows) w h =
      by_test (any (λ h. h == row.hostname) hosts) (not (row.status == "present"))
        (others (λ h. h == row.hostname) hosts) (λ u k. remove_absent-Shows key hosts rows u k)
    where
      Q : Option (List String × List String) × World Number → Type 0
      Q = Succeeds (λ _ u. All (Shows u.tables) hosts)

      by_test :
          (listed gone : Bool)
          → (listed ≡ false → All (λ h. (h == row.hostname) ≡ false) hosts)
          → ((u : World Number) → All (Shows u.tables) hosts → Q (remove_absent x key hosts rows u))
          → Q (
              (if listed || gone
                  then remove_absent x key hosts rows
                  else remove_then x key row.hostname (remove_absent x key hosts rows))
                w)
      by_test true gone other go = go w h
      by_test false true other go = go w h
      by_test false false other go =
          query-attempt _ Q _ w
            (λ w' e.
              recall key row.hostname (remove_absent x key hosts rows) hosts false w' (other refl)
                (subst (λ (v : Tables Number). All (Shows v) hosts) (sym e) h) go)
            (λ w' e.
              recall key row.hostname (remove_absent x key hosts rows) hosts _ w' (other refl)
                (subst (λ (v : Tables Number). All (Shows v) hosts) (sym e) h) go)

  to_hosts :
      (tables : Tables Number) (services : List SeedService)
      → All (λ (s : SeedService). Shows tables s.hostname) services
      → All (Shows tables) (map (λ (s : SeedService). s.hostname) services)
  to_hosts tables [] h = tt
  to_hosts tables (s ∷ services) h = (h.0, to_hosts tables services h.1)

  to_services :
      (tables : Tables Number) (services : List SeedService)
      → All (Shows tables) (map (λ (s : SeedService). s.hostname) services)
      → All (λ (s : SeedService). Shows tables s.hostname) services
  to_services tables [] h = tt
  to_services tables (s ∷ services) h = (h.0, to_services tables services h.1)

  pub sync-Shows :
      (key : List ℕ) (by_hostname : List TopologyRow → List TopologyRow)
      (services : List SeedService) (w : World Number)
      → Succeeds
          (λ _ u. All (λ (s : SeedService). Shows u.tables s.hostname) services)
          (sync x key by_hostname services w)
  unfolding sync
  sync-Shows key by_hostname services w =
      query-bind _ (Succeeds R) _ w (λ w' e. tt)
        (λ w' e.
          bind-Succeeds (λ _ u. Unit × R tt u) R (apply_snapshot x _ services) _ w'
            (apply_snapshot-Shows _ services [] w' tt)
            (λ applied u (_, shown).
              bind-Succeeds
                (λ _ v. All (Shows v.tables) (map (λ (s : SeedService). s.hostname) services)) R
                (remove_absent x key (map (λ (s : SeedService). s.hostname) services) _) _ u
                (remove_absent-Shows key _ _ u (to_hosts u.tables services shown))
                (λ removed v kept.
                  bind-Succeeds (λ _ z. z.tables.topology ≡ v.tables.topology) R (append x key _) _
                    v (append-Succeeds key _ v)
                    (λ _ z same.
                      subst
                        (λ l.
                          All (λ (s : SeedService). any (is_present s.hostname) l ≡ true) services)
                        (sym same) (to_services v.tables services kept)))))
    where
      R : {A : Type 0} → A → World Number → Type 0
      R _ u = All (λ (s : SeedService). Shows u.tables s.hostname) services
