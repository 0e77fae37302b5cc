-- ===== src/Db.antt =====
-- The Postgres side of the gate: the three tables of gate/src/db.rs, and the await points at which a
-- statement can fail. A handler is an action on a `World`; its statements are in the modules that
-- issue them.
pub mod Statements
pub mod Quiet
pub mod Success
pub mod Spending
use mathlib.Core.Path.{subst}
use esclusa.Prelude.{
  ℕ, ◌+◌, String, Bool, Option, none, some, List, [], ◌∷◌, ◌≡◌, refl, sym, ap, unwrap_or,
}
use esclusa.Prelude.Int.{ℤ}
use esclusa.Json.{Value}
use esclusa.Clock.{DateTime}

-- A row of the table `ledger`.
pub record Row (N : Type 0) : Type 0 where
  pub id : ℤ
  pub ts : DateTime
  pub kind : String
  pub actor : String
  pub action : String
  pub target : String
  pub decision : String
  pub reason : String
  pub policy : String
  pub params : Value N
  pub authenticated : Bool
  pub prev_hmac : String
  pub hmac : String

pub record PolicyRow : Type 0 where
  pub id : String
  pub ord : ℕ
  pub description : String
  pub effect : String
  pub enabled : Bool

-- A row of the table `topology`, with the columns' own types.
pub record TopologyRow : Type 0 where
  pub hostname : String
  pub service_type : String
  pub stateful : Bool
  pub probe_method : String
  pub tcp_port : Option ℤ
  pub status : String
  pub probe_ok : Bool
  pub consecutive_failures : ℕ
  pub last_probe : Option DateTime
  pub updated_at : DateTime

pub record Tables (N : Type 0) : Type 0 where
  pub ledger : List (Row N)
  pub policies : List PolicyRow
  pub topology : List TopologyRow

-- How a statement ends: with its effect, without it, or with its effect and the reply lost, which
-- the client sees as an error.
pub data Outcome : Type 0 where
  done failed lost : Outcome

-- One await: what becomes of the statement, and the nanoseconds that pass until it runs.
pub record Await : Type 0 where
  pub outcome : Outcome
  pub elapsed : ℕ

-- The tables, the clock, and what the next awaits will meet; past the end of the list everything
-- succeeds at once.
pub record World (N : Type 0) : Type 0 where
  pub tables : Tables N
  pub clock : DateTime
  pub awaits : List Await

-- `Result<A, tokio_postgres::Error>`, `none` being an error, with the world afterwards.
abbrev pub Exec : Type 0 → Type 0 → Type 0
Exec N A = World N → Option A × World N

pub some_pair :
    {A B : Type 0} {a c : A} {b d : B}
    → ◌≡◌ {A = Option (A × B)} (some (a, b)) (some (c, d))
    → (a ≡ c) × (b ≡ d)
some_pair {A} {B} {a} {c} {b} {d} e =
    let p : ◌≡◌ {A = A × B} (a, b) (c, d) = ap (λ o. unwrap_or o (a, b)) e in
    (ap (λ (q : A × B). q.0) p, ap (λ (q : A × B). q.1) p)

module _ {N : Type 0} where
  abbrev pub pure : {A : Type 0} → A → Exec N A
  pure a w = (some a, w)

  infixl 5 ◌>>=◌ ◌>>◌
  -- Rust's `?`.
  unfoldable pub ◌>>=◌ : {A B : Type 0} → Exec N A → (A → Exec N B) → Exec N B
  ◌>>=◌ m f w = let (r, w') = m w in elim r [ some a ↦ f a w' | none ↦ (none, w') ]

  abbrev pub ◌>>◌ : {A B : Type 0} → Exec N A → Exec N B → Exec N B
  m >> k = m >>= λ _. k

  -- `Utc::now()`.
  abbrev pub now : Exec N DateTime
  now w = (some w.clock, w)

  abbrev pub arrive : List Await → World N → Outcome × World N
  arrive [] w = (done, w)
  arrive (a ∷ rest) w = (a.outcome, record w { clock = w.clock + a.elapsed; awaits = rest })

  abbrev pub settle : {A : Type 0} → Outcome → Option (A × Tables N) → World N → Option A × World N
  settle failed r w = (none, w)
  settle done none w = (none, w)
  settle done (some (a, t)) w = (some a, record w { tables = t })
  settle lost none w = (none, w)
  settle lost (some (a, t)) w = (none, record w { tables = t })

  -- Awaits a statement, which runs at the time of its arrival on the tables that it meets; `none` is
  -- an error of the database's own, such as a violated key.
  unfoldable pub perform : {A : Type 0} → (DateTime → Tables N → Option (A × Tables N)) → Exec N A
  perform f w = let (o, w') = arrive w.awaits w in settle o (f w'.clock w'.tables) w'

  -- A `match` on a result, or `.unwrap_or`: an error becomes a value and the handler goes on.
  unfoldable pub attempt : {A : Type 0} → Exec N A → Exec N (Option A)
  attempt m w = let (r, w') = m w in (some r, w')

  -- A statement that changes nothing.
  unfoldable pub query : {A : Type 0} → (DateTime → Tables N → A) → Exec N A
  unfolding perform
  query g = perform (λ t tables. some (g t tables, tables))
