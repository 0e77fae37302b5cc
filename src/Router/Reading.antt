-- ===== src/Router/Reading.antt =====
-- What the GET requests of gate/src/http.rs leave in the tables: everything as it was.
use mathlib.Core.Path.{subst}
use mathlib.Core.Option
use esclusa.Prelude.{
  ℕ, ◌+◌, String, Bool, true, false, ◌&&◌, &&_iff, ◌==◌, Option, none, some, some_injective,
  is_some, List, [], ◌∷◌, All, All_mem, find, leb, if◌then◌else◌, ◌≡◌, refl, sym, ap, ◌∙◌,
}
use esclusa.Clock.{DateTime}
use esclusa.External.{External}
use esclusa.Db.{TopologyRow, Tables, World, Exec, pure, query, attempt, ◌>>=◌}
use esclusa.Db.Statements.{bind_lem}
use esclusa.Db.Spending.{query-Reads}
use esclusa.Ledger.Store.{list, all_ordered}
use esclusa.Topology.{all}
use esclusa.Http.{AppState, Response}
use esclusa.Queries.{
  Page, within, read_page, verify_with, read_policies, read_topology, db_alive, cache_alive,
  ledger_list, drift, ledger_verify, policies, topology_get, healthz,
}
use esclusa.Demo.Outcome.{find_lem}
use esclusa.Router.{
  Method, Endpoint, get, root, ready, evaluate, ledger, verify, topology, sync, decommission,
  routes, same_method, route, Request, Surroundings, beside, handle, serve,
}

module _ {N : Type 0} where
  -- Whatever becomes of its statements, the action leaves the tables alone.
  abbrev pub Untouched : {A : Type 0} → Exec N A → Type 0
  Untouched m = (w : World N) → (m w).1.tables ≡ w.tables

  pub bind-Untouched :
      {A B : Type 0} (m : Exec N A) (k : A → Exec N B)
      → Untouched m
      → ((a : A) → Untouched (k a))
      → Untouched (m >>= k)
  bind-Untouched m k h hk w = bind_lem (λ u. u ≡ w.tables) m k w (h w) (λ a. hk a (m w).1 ∙ h w)

  query-Untouched : {A : Type 0} (g : DateTime → Tables N → A) → Untouched (query g)
  query-Untouched g w = (query-Reads g w).1.1

  attempt-Untouched : {A : Type 0} (m : Exec N A) → Untouched m → Untouched (attempt m)
  unfolding attempt
  attempt-Untouched m h w = h w

  -- An attempt at a read, and an answer made of what it gave.
  answer-Untouched :
      {A B : Type 0} (m : Exec N A) (f : Option A → B)
      → Untouched m
      → Untouched (do r ← attempt m; pure (f r))
  answer-Untouched m f h =
      bind-Untouched (attempt m) (λ r. pure (f r)) (attempt-Untouched m h) (λ a w. refl)

  -- One of two outcomes.
  if_kept :
      {A : Type 0} (b : Bool) (p q : A × World N) (before : Tables N)
      → p.1.tables ≡ before
      → q.1.tables ≡ before
      → (if◌then◌else◌ {A = A × World N} b p q).1.tables ≡ before
  if_kept true p q before hp hq = hp
  if_kept false p q before hp hq = hq

  within-Untouched :
      {A : Type 0} (limit : ℕ) (m : Exec N A) → Untouched m → Untouched (within limit m)
  within-Untouched limit m h w =
      if_kept (leb (m w).1.clock (w.clock + limit)) (some (is_some (m w).0), (m w).1)
        (some false, record (m w).1 { clock = w.clock + limit }) w.tables (h w) (h w)

abbrev pub is_read : Endpoint → Bool
is_read evaluate = false
is_read sync = false
is_read decommission = false
is_read e = true

reads_only :
    All (λ (r : Method × String × Endpoint). same_method r.0 get ≡ true → is_read r.2 ≡ true) routes
reads_only = (
  λ _. refl,
  (
    λ _. refl,
    (
      λ _. refl,
      (
        λ e. cc,
        (λ _. refl, (λ _. refl, (λ _. refl, (λ _. refl, (λ _. refl, (λ e. cc, (λ e. cc, tt))))))),
      ),
    ),
  ),
)

-- A route of a GET request is one of the handlers that read.
route-is_read : (path : String) (e : Endpoint) → route get path ≡ some e → is_read e ≡ true
unfolding route
route-is_read path e h = by_found (find test routes) refl h
  where
    test : Method × String × Endpoint → Bool
    test r = same_method r.0 get && r.1 == path

    by_found :
        (o : Option (Method × String × Endpoint))
        → find test routes ≡ o
        → Option.map (λ (r : Method × String × Endpoint). r.2) o ≡ some e
        → is_read e ≡ true
    by_found none f h = cc
    by_found (some r) f h =
        let (m, t) = find_lem test routes f in
        subst (λ d. is_read d ≡ true) (some_injective h)
          (All_mem
            (λ (r : Method × String × Endpoint). same_method r.0 get ≡ true → is_read r.2 ≡ true) m
            reads_only ((&&_iff (same_method r.0 get) (r.1 == path)).0 t).0)

module _ (x : External) where
  open x use {Number}

  list-Untouched :
      (limit offset : ℕ) (kinds : Option (List String)) → Untouched (list x limit offset kinds)
  unfolding list
  list-Untouched limit offset kinds =
      bind-Untouched _ _ (query-Untouched _)
        λ rows. bind-Untouched _ _ (query-Untouched _) λ total w. refl

  read_page-Untouched :
      (connected : Bool) (page : Page) (kinds : Option (List String))
      → Untouched (read_page x connected page kinds)
  read_page-Untouched false page kinds = λ w. refl
  read_page-Untouched true page kinds = answer-Untouched _ _ (list-Untouched _ _ kinds)

  ledger_list-Untouched : (st : AppState) (page : Page) → Untouched (ledger_list x st page)
  unfolding ledger_list
  ledger_list-Untouched st page = read_page-Untouched st.connected page none

  drift-Untouched : (st : AppState) (page : Page) → Untouched (drift x st page)
  unfolding drift
  drift-Untouched st page = read_page-Untouched st.connected page (some ("drift" ∷ "audit" ∷ []))

  all_ordered-Untouched : Untouched (all_ordered x)
  unfolding all_ordered
  all_ordered-Untouched = bind-Untouched _ _ (query-Untouched _) λ rows w. refl

  verify_with-Untouched :
      (key : List ℕ) (connected : Bool) → Untouched (verify_with x key connected)
  verify_with-Untouched key false = λ w. refl
  verify_with-Untouched key true = answer-Untouched _ _ all_ordered-Untouched

  ledger_verify-Untouched : (st : AppState) → Untouched (ledger_verify x st)
  unfolding ledger_verify
  ledger_verify-Untouched st = verify_with-Untouched st.signing_key st.connected

  read_policies-Untouched : (connected : Bool) → Untouched (read_policies x connected)
  read_policies-Untouched false = λ w. refl
  read_policies-Untouched true = answer-Untouched _ _ (query-Untouched _)

  policies-Untouched : (st : AppState) → Untouched (policies x st)
  unfolding policies
  policies-Untouched st = read_policies-Untouched st.connected

  all-Untouched :
      (by_hostname : List TopologyRow → List TopologyRow) → Untouched (all x by_hostname)
  unfolding all
  all-Untouched by_hostname = bind-Untouched _ _ (query-Untouched _) λ rows w. refl

  read_topology-Untouched :
      (connected : Bool) (by_hostname : List TopologyRow → List TopologyRow)
      → Untouched (read_topology x connected by_hostname)
  read_topology-Untouched false by_hostname = λ w. refl
  read_topology-Untouched true by_hostname = answer-Untouched _ _ (all-Untouched by_hostname)

  topology_get-Untouched :
      (st : AppState) (by_hostname : List TopologyRow → List TopologyRow)
      → Untouched (topology_get x st by_hostname)
  unfolding topology_get
  topology_get-Untouched st by_hostname = read_topology-Untouched st.connected by_hostname

  db_alive-Untouched : (connected : Bool) → Untouched (db_alive x connected)
  db_alive-Untouched false = λ w. refl
  db_alive-Untouched true = within-Untouched 2_000_000_000 _ (query-Untouched _)

  cache_alive-Untouched : (ping : Option (Bool × ℕ)) → Untouched (cache_alive x ping)
  cache_alive-Untouched none w = refl
  cache_alive-Untouched (some (pong, elapsed)) w =
      if_kept (leb elapsed 3_000_000_000) (some pong, record w { clock = w.clock + elapsed })
        (some false, record w { clock = w.clock + 3_000_000_000 }) w.tables refl refl

  healthz-Untouched :
      (st : AppState) (last : ℕ) (ping : Option (Bool × ℕ)) → Untouched (healthz x st last ping)
  unfolding healthz
  healthz-Untouched st last ping = bind-Untouched _ _ (db_alive-Untouched st.connected) λ db.
      bind-Untouched _ _ (cache_alive-Untouched ping)
        λ cache. bind-Untouched _ _ (λ w. refl) λ now w. refl

  beside-Untouched :
      (mem : _) (m : Exec Number (Response Number)) → Untouched m → Untouched (beside x mem m)
  beside-Untouched mem m h = bind-Untouched m _ h λ reply w. refl

  pub handle_read :
      (st : AppState) (out : Surroundings Number) (req : Request) (e : Endpoint)
      → is_read e ≡ true
      → Untouched (handle x st out req (some e))
  handle_read st out req root h = λ w. refl
  handle_read st out req ready h = λ w. refl
  handle_read st out req Endpoint.healthz h =
      beside-Untouched st.mem_rl _ (healthz-Untouched st out.last_probe_cycle out.ping)
  handle_read st out req evaluate h = cc
  handle_read st out req ledger h = beside-Untouched st.mem_rl _ (ledger_list-Untouched st req.page)
  handle_read st out req verify h = beside-Untouched st.mem_rl _ (ledger_verify-Untouched st)
  handle_read st out req Endpoint.policies h = beside-Untouched st.mem_rl _ (policies-Untouched st)
  handle_read st out req topology h =
      beside-Untouched st.mem_rl _ (topology_get-Untouched st out.by_hostname)
  handle_read st out req Endpoint.drift h =
      beside-Untouched st.mem_rl _ (drift-Untouched st req.page)
  handle_read st out req sync h = cc
  handle_read st out req decommission h = cc

  -- A GET request to any path, whatever becomes of the statements, leaves all tables as they are.
  pub serve-get :
      (st : AppState) (out : Surroundings Number) (req : Request) (w : World Number)
      → req.method ≡ get
      → (serve x st out req w).1.tables ≡ w.tables
  unfolding serve
  serve-get st out req w method = by_route (route req.method req.path) refl
    where
      by_route :
          (o : Option Endpoint)
          → route req.method req.path ≡ o
          → (handle x st out req o w).1.tables ≡ w.tables
      by_route none e = refl
      by_route (some p) e =
          handle_read st out req p
            (route-is_read req.path p (ap (λ m. route m req.path) (sym method) ∙ e)) w
