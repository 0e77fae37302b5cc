-- ===== src/Gate/Verifying.antt =====
-- `GET /v1/ledger/verify` of gate/src/http.rs on what the gate itself has written.
use esclusa.Prelude.{
  ℕ, Bool, true, false, Option, none, some, some_injective, List, [], map, All, length, last, ◌≡◌,
  ◌⊎◌, inl, inr, refl, ap, ◌∙◌,
}
use mathlib.Core.Option
use esclusa.Prelude.Int.{ℤ}
use esclusa.Clock.{DateTime}
use esclusa.External.{External, KeepsMicros}
use esclusa.Db.{Tables, World}
use esclusa.Db.Statements.{attempt-bind, query-bind}
use esclusa.Db.Quiet.{quiet}
use esclusa.Ledger.{Entry, VerifyReport, genesis, first_broken, verify_chain}
use esclusa.Ledger.Store.{order_by_id, entry_from_row, all_ordered}
use esclusa.Http.{AppState, Response, unavailable}
use esclusa.Http.Reading.{Read}
use esclusa.Probe.Cycle.{HasStatus}
use esclusa.Queries.Fetching.{all_ordered-quiet}
use esclusa.Queries.{report_value, verify_reply, verify_with, ledger_verify}
use esclusa.Ledger.Store.Plain.{KeepsPlain}
use esclusa.Gate.{Reachable, Reachable-valid}

module _ (x : External) where
  open x use {Number}

  -- The entries in the order of verification.
  abbrev pub entries_of : Tables Number → List (Entry Number)
  entries_of tables = map (entry_from_row x) (order_by_id tables.ledger)

  -- The report on an unbroken ledger.
  abbrev pub sound_report : List (Entry Number) → VerifyReport
  sound_report entries = record {
    valid = true;
    checked = length entries;
    head_hmac = Option.map (λ (e : Entry Number). e.hmac) (last entries);
    broken_at = none;
  }

  all_ordered_lem : (w : World Number) → Read (entries_of w.tables) w.tables (all_ordered x w)
  unfolding all_ordered
  all_ordered_lem w =
      query-bind _ (Read (entries_of w.tables) w.tables) _ w (λ w' e. (inl refl, e))
        λ w' e. (inr refl, e)

  abbrev pub answer_with : VerifyReport → Response Number
  answer_with r = record { status = 200; body = report_value x r }

  -- The answer is 503 or the report on an unbroken ledger, and nothing is written.
  abbrev pub Verified : Tables Number → Option (Response Number) × World Number → Type 0
  Verified tables (r, w') =
      (reply : Response Number) × (r ≡ some reply)
      × ((reply ≡ unavailable x) ⊎ (reply ≡ answer_with (sound_report (entries_of tables))))
      × (w'.tables ≡ tables)

module _ (x : External) (key : List ℕ) where
  open x use {Number}

  valid_report :
      (entries : List (Entry Number))
      → (verify_chain x key entries).valid ≡ true
      → verify_chain x key entries ≡ sound_report x entries
  unfolding verify_chain
  valid_report entries v = by_loop (first_broken x key genesis entries) v
    where
      report : Option ℤ → VerifyReport
      report o = elim o [
        | some id ↦ record {
          valid = false;
          checked = length entries;
          head_hmac = Option.map (λ (e : Entry Number). e.hmac) (last entries);
          broken_at = some id;
        }
        | none ↦ sound_report x entries
      ]

      by_loop : (o : Option ℤ) → (report o).valid ≡ true → report o ≡ sound_report x entries
      by_loop none v = refl
      by_loop (some id) v = cc

  verify_with_lem :
      (connected : Bool) (w : World Number)
      → (verify_chain x key (entries_of x w.tables)).valid ≡ true
      → Verified x w.tables (verify_with x key connected w)
  verify_with_lem false w v = (_, refl, inl refl, refl)
  verify_with_lem true w v =
      attempt-bind _ (Verified x w.tables) (all_ordered x) w
        (by_read (all_ordered x w).0 (all_ordered x w).1 (all_ordered_lem x w))
    where
      by_read :
          (r : Option (List (Entry Number))) (u : World Number)
          → Read (entries_of x w.tables) w.tables (r, u)
          → Verified x w.tables (some (verify_reply x key r), u)
      by_read none u (_, same) = (_, refl, inl refl, same)
      by_read (some entries) u (inl e, same) = cc
      by_read (some entries) u (inr e, same) = (
        _,
        refl,
        inr (
            ap (λ l. verify_reply x key (some l)) (some_injective e)
            ∙ ap (answer_with x) (valid_report (entries_of x w.tables) v)),
        same,
      )

  verify_with-quiet :
      (t : DateTime) (tables : Tables Number)
      → (verify_chain x key (entries_of x tables)).valid ≡ true
      → verify_with x key true (quiet t tables)
        ≡ (some (answer_with x (sound_report x (entries_of x tables))), quiet t tables)
  verify_with-quiet t tables v =
      attempt-bind _
        (λ p. p ≡ (some (answer_with x (sound_report x (entries_of x tables))), quiet t tables))
        (all_ordered x) (quiet t tables)
        (ap
            (λ (p : Option (List (Entry Number)) × World Number).
              (some (verify_reply x key p.0), p.1))
            (all_ordered-quiet x t tables)
          ∙ ap (λ r. (some (answer_with x r), quiet t tables))
              (valid_report (entries_of x tables) v))

  -- Whatever requests, migrations and probe cycles have led from an empty ledger and a topology of
  -- known statuses to the tables, `GET /v1/ledger/verify` answers 503 or a report that all entries are
  -- checked and valid, with nothing broken and the HMAC of the newest, and writes nothing; with a
  -- client and while the database answers it is the report. Ids are left, ordering by hostname drops
  -- no row, no more probes end than were started, `timestamptz` keeps whole microseconds, the `jsonb`
  -- column keeps texts, integers, arrays and objects, and it gives back the parameters of each
  -- `POST /v1/evaluate` as they were signed.
  pub Reachable-Verified :
      KeepsMicros x
      → KeepsPlain x
      → (u v : World Number) → Reachable x key u v
      → u.tables.ledger ≡ []
      → All HasStatus u.tables.topology
      → (st : AppState) (t : DateTime)
      → Verified x v.tables (ledger_verify x (record st { signing_key = key }) v)
        × (ledger_verify x (record st { signing_key = key; connected = true }) (quiet t v.tables)
            ≡ (some (answer_with x (sound_report x (entries_of x v.tables))), quiet t v.tables))
  unfolding ledger_verify
  Reachable-Verified micros kept u v r empty known st t =
      let valid = (Reachable-valid x key micros kept u v r empty known).0 in
      (verify_with_lem st.connected v valid, verify_with-quiet t v.tables valid)
