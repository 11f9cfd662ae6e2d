-- ===== src/Sqlc/Accounts.antt =====
-- postgres/sqlc/accounts.sql.go and the statements of postgres/queries/accounts.sql. A row lock
-- (`FOR UPDATE`) changes no row: the two locking queries read as the plain ones do.
use double_entry_bank_go.Base.{
  Bool, true, Option, none, some, String, List, ◌∷◌, map, not, ◌==◌, select, any, find,
}
use double_entry_bank_go.Int.{pos}
use double_entry_bank_go.Money.{Decimals}
use double_entry_bank_go.Errors.{Result, ok, err, ◌>>=◌, ◌>>◌, require}
use double_entry_bank_go.World.{Uuid, Time, AccountRow, Db, Backend, Action, statement}
use double_entry_bank_go.Sqlc.Models.{
  Account, CreateAccountParams, UpdateAccountBalanceParams, scan_account,
}
use double_entry_bank_go.Sqlc.Tables.{
  invalid_text_representation, unique_violation, foreign_key_violation, in_range, find_account,
  is_settlement, one, add_to_balance, calculated_balance, sort_by, later,
}

abbrev owner_exists : Option Uuid → Db → Bool
owner_exists none db = true
owner_exists (some id) db = any (λ u. u.id == id) db.users

-- `INSERT INTO accounts`; the balance and the time come from the defaults of the columns.
unfoldable pub insert_account : CreateAccountParams → Uuid → Time → Db → Result (AccountRow × Db)
insert_account arg id now db = do
  require (not (any (λ a. a.id == id) db.accounts)) unique_violation
  require (owner_exists arg.owner_id db) foreign_key_violation
  let row : AccountRow = record {
    id = id;
    owner_id = arg.owner_id;
    name = arg.name;
    balance = pos 0;
    currency = arg.currency;
    is_system = arg.is_system;
    created_at = some now;
  }
  ok (row, record db { accounts = row ∷ db.accounts })

-- `WHERE owner_id = $1`, which no NULL satisfies.
abbrev pub owned_by : Option Uuid → AccountRow → Bool
owned_by owner a = elim owner [
  | none ↦ Bool.false
  | some u ↦ elim a.owner_id [ none ↦ Bool.false | some v ↦ v == u ]
]

-- `INSERT INTO accounts … RETURNING …`
abbrev pub run_create : Decimals → CreateAccountParams → Uuid → Time → Db → Result (Account × Db)
run_create d arg id now db = do p ← insert_account arg id now db; ok (scan_account d p.0, p.1)

-- A query for one account: the row that was found, scanned.
abbrev pub fetch_account : Decimals → Option AccountRow → Db → Result (Account × Db)
fetch_account d found db = do row ← one found; ok (scan_account d row, db)

-- `UPDATE accounts SET balance = balance + $1 WHERE id = $2`
abbrev pub run_update : Decimals → UpdateAccountBalanceParams → Db → Result (Unit {0} × Db)
run_update d arg db = do
  amount ← elim (d.numeric_in arg.balance) [
    | none ↦ err invalid_text_representation
    | some m ↦ ok m
  ]
  rows ← add_to_balance arg.id amount db.accounts
  ok (tt, record db { accounts = rows })

module _ (b : Backend) where
  unfoldable pub create_account : CreateAccountParams → Action Account
  create_account arg = statement b λ n db. run_create b.decimals arg (b.new_uuid n) (b.now n) db

  unfoldable pub get_account : Uuid → Action Account
  get_account id = statement b λ n db. fetch_account b.decimals (find_account id db.accounts) db

  unfoldable pub get_account_balance : Uuid → Action String
  get_account_balance id = statement b λ n db. do
    total ← in_range (calculated_balance id db.entries)
    ok (b.decimals.numeric_out total, db)

  unfoldable pub get_account_for_update : Uuid → Action Account
  get_account_for_update id =
      statement b λ n db. fetch_account b.decimals (find_account id db.accounts) db

  unfoldable pub get_settlement_account : Action Account
  get_settlement_account =
      statement b λ n db. fetch_account b.decimals (find is_settlement db.accounts) db

  unfoldable pub get_settlement_account_for_update : Action Account
  get_settlement_account_for_update =
      statement b λ n db. fetch_account b.decimals (find is_settlement db.accounts) db

  unfoldable pub list_accounts_by_owner : Option Uuid → Action (List Account)
  list_accounts_by_owner owner = statement b λ n db. ok (
    map (scan_account b.decimals)
        (sort_by (λ r s. later r.created_at s.created_at) (select (owned_by owner) db.accounts)),
    db,
  )

  unfoldable pub update_account_balance : UpdateAccountBalanceParams → Action (Unit {0})
  update_account_balance arg = statement b λ n db. run_update b.decimals arg db
