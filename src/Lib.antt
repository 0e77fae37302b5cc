-- ===== src/Lib.antt =====
-- Esclusa: a gate that decides on proposed actions against an infrastructure, records every decision
-- in a ledger chained by HMACs, and probes the services that the ledger speaks of.
--
-- The parts, and where they are modelled:
-- - gate/src/ledger.rs, the pure half (push_field, canonical_string, entry_canonical,
--   normalize_params, hmac_hex, verify_chain): Ledger.antt, with a function of the same name for each
--   and `first_broken` for the loop of verify_chain. Proofs: Ledger/Canonical, Ledger/Chain,
--   Ledger/Tamper, Ledger/Normalize.
-- - gate/src/ledger.rs, the half that talks to Postgres (append, list, all_ordered,
--   recent_allow_exists, entry_from_row): Ledger/Store.antt. Proofs: Ledger/Store/Order, Appending,
--   Chained, Plain, Runs, Free, Unspent.
-- - gate/src/policy.rs: Policy.antt. Proofs: Policy/Rules, Policy/Guarantees, Policy/Shield.
-- - gate/src/rate_limit.rs: RateLimit.antt; the map of the process is passed along. Proofs:
--   RateLimit/Counting.
-- - gate/src/state.rs: the token check is Secrets.antt, with its proofs; the state and `db_client` are in
--   Startup.antt. A handler reads the state as Http.AppState, `connected` being whether `db_client`
--   gives a client.
-- - gate/src/topology.rs: Topology.antt, with gate/seed.json in Topology/Seed. Proofs: Topology/Usable.
-- - gate/src/probe.rs: its UPDATE statements in Topology/Updates.antt, the rest in Probe.antt.
--   `handle_success`, `handle_failure` and `cycle` keep their names; `judge`, `claim`, `tell` and
--   `welcome` are the parts of the handlers behind an await. Proofs: Probe/Updating
--   (an UPDATE row by row), Failing, Reappearing, Transitions, Cycle, Recording, Single, Counting, Marking,
--   Flagging. The
--   endless loop `run` is Probe/Running, on a list of what its rounds meet. Probe/Containers takes the
--   statements of `handle_failure` one by one, so that several containers interleave. Proofs:
--   Probe/Containers/Counting, Once, Waiting, Turning, Exactly.
-- - gate/src/http.rs, POST /v1/evaluate: Http.antt; `answer`, `decide` and `record_decision` are the
--   parts of the handler from the body, from `db_client` and from the ledger on. Proofs: Http/Reading,
--   Http/Deciding, Http/FailClosed, Http/Passing, Http/Answering.
-- - gate/src/http.rs, POST /v1/topology/sync: Sync.antt; `apply_snapshot` and `remove_absent` are the
--   two loops of the handler. Proofs: Sync/Showing, Sync/Presence,
--   Sync/Answering, Sync/Holding, Sync/Recording.
-- - gate/src/http.rs, the handlers that only read (ledger_list, drift, ledger_verify, policies,
--   topology_get, healthz): Queries.antt, with a function of the same name for each. Proofs:
--   Queries/Pages, Queries/Fetching (a client that reads page after page), Queries/Latest, and for
--   ledger_verify Gate/Verifying.
-- - gate/src/http.rs, POST /v1/demo/decommission, and gate/src/demo.rs: Demo.antt; `with_client`,
--   `on_views`, `on_rows`, `on_row`, `on_present`, `ask_gate`, `after_append`, `obey` and `strike` are
--   the parts of the handler behind each await or test. Proofs: Demo/Outcome, Demo/Handling,
--   Demo/Justified, Demo/Recording.
-- - gate/src/db.rs, the tables: Db.antt. Proofs about statements: Db/Statements, Db/Quiet, Db/Success,
--   Db/Spending.
-- - gate/src/db.rs, the migration and the retries, and gate/src/main.rs: Startup.antt. Proofs:
--   Startup/Seeding, Migrating, Retrying, Connecting, Keeping.
-- - gate/src/http.rs, router and root: Router.antt; `serve` hands a request to its handler. Proofs:
--   Router/Reading, Router/Keeping, with the handlers that write in Http/Recording, Sync/Recording and
--   Demo/Recording.
-- - The whole, as a step relation between worlds with what stays true of them: Gate.antt.
-- Prelude, Text, Json and Clock hold what the parts share: numbers, lists, maps, Rust's text functions,
-- serde_json's values, and times in nanoseconds since the epoch. Tests runs the theorems on data.
--
-- How the parts interact: POST /v1/evaluate asks the limiter, reads the topology and the enabled
-- policies, calls the rules, and appends the decision to the ledger. The probes update the topology,
-- search the ledger for an authorization that covers a disappearance, and append what they find; so
-- does a synced snapshot for the services that it leaves out. The demonstration asks the rules, appends
-- their decision and calls the target. The migration fills the policies and the topology before
-- anything else has a client.
-- Verification recomputes the chain over all rows, ordered by id.
--
-- A handler is an action on a `World`: the tables, a clock, and what the next awaits meet. Every
-- statement is an await that takes effect and replies, fails without effect, or takes effect and loses
-- its reply. SQL statements are read as the functions on lists of rows that they denote; a transaction
-- shows nothing before its commit: `append` keeps its row aside, the migration works on a copy of the
-- tables. The `i64` ids are signed integers with the
-- wrap-around of a release build, `str::len` counts bytes of UTF-8.
--
-- What the code takes from elsewhere is the record `External`: serde_json's numbers and printer, HMAC
-- and hex, chrono's printer, and what a `timestamptz` and a `jsonb` column give back. No property of
-- HMAC is assumed: a theorem about tampering hands over two texts with one HMAC instead. Three
-- hypotheses are about Postgres: `KeepsMicros` (timestamptz keeps whole microseconds), `KeepsPlain`
-- (jsonb keeps texts, integers, arrays and objects, of which all the gate's own parameters consist) and
-- `KeepsJson` (given parameters come back so that they print as before). The last is asked only of
-- the parameters of given entries or requests: a float such as 1e16 does not come back so, and a
-- gate that stores one no longer passes its own verification. The network, the order in which probe
-- tasks end, the collation of the database, the cache's answers, the pool's, the target's and
-- serde_json's reading of a body are arguments. Probing takes no time on the clock but what the awaits
-- take.
--
-- Fuel: printing a number `n` takes `suc n` rounds, one for each digit being enough; the theorems on
-- decimal texts hold without a bound. The retry loops of gate/src/db.rs run on fuel: one round more than
-- the rounds without a client and the awaits that can still fail is enough, which is proved. The loop of
-- `run` takes a round for each of its inputs. Everything else is structural recursion.
--
-- Not modelled: the CORS layer of `router`, which adds headers; `make_pool` and
-- `default_probe_method`, which hand settings to a library; what is printed to the log; the spawning of
-- tasks and the server in `main`; and, but for `handle_failure`, the interleaving of
-- statements of several containers: the advisory lock of `append` and of the migration is taken to admit
-- one at a time.
pub mod Prelude
pub mod Text
pub mod Json
pub mod Clock
pub mod External
pub mod Policy
pub mod Ledger
pub mod Db
pub mod RateLimit
pub mod Secrets
pub mod Topology
pub mod Probe
pub mod Http
pub mod Sync
pub mod Queries
pub mod Startup
pub mod Demo
pub mod Router
pub mod Gate
pub mod Tests
