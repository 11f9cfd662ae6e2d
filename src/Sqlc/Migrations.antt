-- ===== src/Sqlc/Migrations.antt =====
-- postgres/migrations: the tables that the migrations create, fill and drop. A file runs as one
-- transaction. Types and indexes carry no row.
use double_entry_bank_go.Base.{
  Bool, true, false, not, ◌||◌, ◌&&◌, ◌==◌, str_eq, List, [], map, any, Option, none, some,
  if◌then◌else◌,
}
use double_entry_bank_go.Errors.{GoError, database, pq, Result, ok, err, ◌>>=◌, ◌>>◌, require}
use double_entry_bank_go.World.{Uuid, Time, UserRow, AccountRow, EntryRow, Db}
use double_entry_bank_go.Sqlc.Tables.{is_settlement, foreign_key_violation}
use double_entry_bank_go.Sqlc.Accounts.{insert_account}

-- The tables that exist, with their rows.
pub record Schema : Type 0 where
  pub users : Option (List UserRow)
  pub accounts : Option (List AccountRow)
  pub entries : Option (List EntryRow)

-- A database without tables, and one with all of them.
abbrev pub absent : Schema
absent = record { users = none; accounts = none; entries = none }

abbrev pub present : Db → Schema
present db = record {
  users = some db.users;
  accounts = some db.accounts;
  entries = some db.entries;
}

abbrev pub undefined_table : GoError
undefined_table = database (pq "42P01")

abbrev pub dependent_objects : GoError
dependent_objects = database (pq "2BP01")

abbrev pub rows : {A : Type 0} → Option (List A) → List A
rows none = []
rows (some rs) = rs

abbrev pub exists : {A : Type 0} → Option (List A) → Bool
exists none = false
exists (some rs) = true

-- `CREATE TABLE IF NOT EXISTS`, whose references need their table where it does not exist yet.
unfoldable pub create_if_missing : {A : Type 0} → Option (List A) → Bool → Result (List A)
create_if_missing table referenced =
    if exists table || referenced then ok (rows table) else err undefined_table

-- 000001_create_users_table.up.sql
unfoldable pub create_users : Schema → Result Schema
create_users s = do users ← create_if_missing s.users true; ok (record s { users = some users })

-- The statement that inserts the settlement account where there is none.
unfoldable pub seed_settlement : Uuid → Time → Db → Result Db
seed_settlement id now db = elim (any is_settlement db.accounts) [
  | true ↦ ok db
  | false ↦ do
    p ←
        insert_account
          (record {
            owner_id = none;
            name = "Settlement Account";
            currency = "USD";
            is_system = true;
          })
          id now db
    ok p.1
]

-- 000002_create_accounts_table.up.sql
unfoldable pub create_accounts : Uuid → Time → Schema → Result Schema
create_accounts id now s = do
  accounts ← create_if_missing s.accounts (exists s.users)
  db ←
      seed_settlement id now
        (record { users = rows s.users; accounts = accounts; entries = rows s.entries })
  ok (record s { accounts = some db.accounts })

-- 000003_create_entries_table.up.sql
unfoldable pub create_entries : Schema → Result Schema
create_entries s = do
  entries ← create_if_missing s.entries (exists s.accounts)
  ok (record s { entries = some entries })

-- The update of 000004_fix_currency_to_usd.up.sql; the column is NOT NULL.
unfoldable pub to_usd : AccountRow → AccountRow
to_usd a = if not (str_eq a.currency "USD") then record a { currency = "USD" } else a

unfoldable pub fix_currency : Schema → Result Schema
fix_currency s = elim s.accounts [
  | none ↦ err undefined_table
  | some accounts ↦ ok (record s { accounts = some (map to_usd accounts) })
]

-- `migrate … up`: the files in their order; the identifier and the time are those of the seed.
unfoldable pub migrate_up : Uuid → Time → Schema → Result Schema
migrate_up id now s = do
  s1 ← create_users s
  s2 ← create_accounts id now s1
  s3 ← create_entries s2
  fix_currency s3

-- 000003_create_entries_table.down.sql
unfoldable pub drop_entries : Schema → Result Schema
drop_entries s = ok (record s { entries = none })

-- An entry names an account that the file deletes.
abbrev pub names_system_account : List AccountRow → EntryRow → Bool
names_system_account accounts e = any (λ a. a.is_system && a.id == e.account_id) accounts

-- 000002_create_accounts_table.down.sql. An entry's account cannot be deleted, nor its table dropped.
unfoldable pub drop_accounts : Schema → Result Schema
drop_accounts s = elim s.accounts [
  | none ↦ err undefined_table
  | some accounts ↦ do
    require (not (any (names_system_account accounts) (rows s.entries))) foreign_key_violation
    require (not (exists s.entries)) dependent_objects
    ok (record s { accounts = none })
]

-- 000001_create_users_table.down.sql
unfoldable pub drop_users : Schema → Result Schema
drop_users s = elim s.users [
  | none ↦ ok s
  | some users ↦ do
    require (not (exists s.accounts)) dependent_objects
    ok (record s { users = none })
]

-- `migrate … down`: the files in reverse; 000004 changes nothing on the way down.
unfoldable pub migrate_down : Schema → Result Schema
migrate_down s = do s3 ← drop_entries s; s2 ← drop_accounts s3; drop_users s2
