-- ===== src/World.antt =====
-- What the program runs against: the tables that postgres/migrations creates, the parameters that
-- stand for the database server, the clock and the UUID package, and the monad of the Go functions
-- that talk to them.
use double_entry_bank_go.Base.{ℕ, ◌+◌, Bool, true, false, Option, none, some, String, List}
use double_entry_bank_go.Int.{ℤ}
use double_entry_bank_go.Money.{Decimals}
use double_entry_bank_go.Errors.{SqlError, GoError, database, Result, ok, err}

-- A UUID as the number of its 128 bits, and a point in time.
abbrev pub Uuid : Type 0
Uuid = ℕ

abbrev pub Time : Type 0
Time = ℕ

-- A row of `users`. `created_at` is nullable with a default.
pub record UserRow : Type 0 where
  pub id : Uuid
  pub email : String
  pub hashed_password : String
  pub created_at : Option Time

-- A row of `accounts`; `balance` is NUMERIC(19,4), in ten-thousandths.
pub record AccountRow : Type 0 where
  pub id : Uuid
  pub owner_id : Option Uuid
  pub name : String
  pub balance : ℤ
  pub currency : String
  pub is_system : Bool
  pub created_at : Option Time

-- The enum `operation_type`.
pub data OperationType : Type 0 where
  deposit withdrawal transfer : OperationType

-- A row of `entries`.
pub record EntryRow : Type 0 where
  pub id : Uuid
  pub account_id : Uuid
  pub debit : ℤ
  pub credit : ℤ
  pub transaction_id : Uuid
  pub operation_type : OperationType
  pub description : Option String
  pub created_at : Option Time

pub record Db : Type 0 where
  pub users : List UserRow
  pub accounts : List AccountRow
  pub entries : List EntryRow

-- The database, the calls made so far, and the milliseconds slept between attempts.
pub record World : Type 0 where
  pub db : Db
  pub calls : ℕ
  pub slept : ℕ

-- The environment: what the n-th call meets. `fault` is an error of the server or the connection
-- (a serialization failure is SQLSTATE 40001); `commit_lost` says that a COMMIT which reports an
-- error was carried out all the same; `cancelled` that the context is done.
pub record Backend : Type 1 where
  pub decimals : Decimals
  pub fault : ℕ → Option SqlError
  pub commit_lost : ℕ → Bool
  pub cancelled : ℕ → Bool
  pub new_uuid : ℕ → Uuid
  pub now : ℕ → Time
  pub uuid_string : Uuid → String
  pub uuid_parse : String → Option Uuid

-- A Go function that talks to the database: its result, an error as the last one, and the world.
abbrev pub Action : Type 0 → Type 0
Action A = World → Result A × World

abbrev pub tick : World → World
tick w = record w { calls = w.calls + 1 }

abbrev pub pure : {A : Type 0} → A → Action A
pure a w = (ok a, w)

abbrev pub fail : {A : Type 0} → GoError → Action A
fail e w = (err e, w)

infixl 5 ◌>>=◌ ◌>>◌
unfoldable pub ◌>>=◌ : {A B : Type 0} → Action A → (A → Action B) → Action B
◌>>=◌ m f w = let (r, w') = m w in elim r [ ok a ↦ f a w' | err e ↦ fail e w' ]

unfoldable pub ◌>>◌ : {B : Type 0} → Action (Unit {0}) → Action B → Action B
m >> k = m >>= λ _. k

-- `if err != nil { return fmt.Errorf("text: %w", err) }`
unfoldable pub on_error : {A : Type 0} → (GoError → GoError) → Action A → Action A
on_error f m w = let (r, w') = m w in elim r [ ok a ↦ (ok a, w') | err e ↦ (err (f e), w') ]

-- `if bad { return e }`
unfoldable pub stop_if : Bool → GoError → Action (Unit {0})
stop_if c e = elim c [ true ↦ fail e | false ↦ pure tt ]

-- Parse with an error of the caller's.
unfoldable pub or_fail : {A : Type 0} → Option A → GoError → Action A
or_fail o e = elim o [ none ↦ fail e | some a ↦ pure a ]

abbrev settle : {A : Type 0} → Result (A × Db) → World → Result A × World
settle r w = elim r [ ok p ↦ (ok p.0, record w { db = p.1 }) | err e ↦ (err e, w) ]

module _ (b : Backend) where
  -- One statement: it meets a fault, or it runs, and a statement that fails changes nothing.
  abbrev pub statement : {A : Type 0} → (ℕ → Db → Result (A × Db)) → Action A
  statement body w = elim (b.fault w.calls) [
    | some e ↦ (err (database e), tick w)
    | none ↦ settle (body w.calls w.db) (tick w)
  ]

  -- `uuid.New()`
  abbrev pub draw_uuid : Action Uuid
  draw_uuid w = (ok (b.new_uuid w.calls), tick w)
