-- ===== src/Sqlc/Models.antt =====
-- postgres/sqlc/models.go and the parameter types of the queries: what Go sees of a row, with the
-- NUMERIC columns as text.
use double_entry_bank_go.Base.{Bool, Option, String}
use double_entry_bank_go.Money.{Decimals}
use double_entry_bank_go.World.{
  Uuid, Time, AccountRow, EntryRow, OperationType, deposit, withdrawal, transfer,
}

pub record Account : Type 0 where
  pub id : Uuid
  pub owner_id : Option Uuid
  pub name : String
  pub balance : String
  pub currency : String
  pub is_system : Bool
  pub created_at : Option Time

pub record Entry : Type 0 where
  pub id : Uuid
  pub account_id : Uuid
  pub debit : String
  pub credit : String
  pub transaction_id : Uuid
  pub operation_type : String
  pub description : Option String
  pub created_at : Option Time

pub record User : Type 0 where
  pub id : Uuid
  pub email : String
  pub hashed_password : String
  pub created_at : Option Time

pub record CreateAccountParams : Type 0 where
  pub owner_id : Option Uuid
  pub name : String
  pub currency : String
  pub is_system : Bool

pub record UpdateAccountBalanceParams : Type 0 where
  pub balance : String
  pub id : Uuid

pub record CreateEntryParams : Type 0 where
  pub account_id : Uuid
  pub debit : String
  pub credit : String
  pub transaction_id : Uuid
  pub operation_type : String
  pub description : Option String

pub record CreateUserParams : Type 0 where
  pub email : String
  pub hashed_password : String

pub record CreateUserRow : Type 0 where
  pub id : Uuid
  pub email : String
  pub created_at : Option Time

abbrev pub operation_text : OperationType → String
operation_text deposit = "deposit"
operation_text withdrawal = "withdrawal"
operation_text transfer = "transfer"

-- `row.Scan` of the columns of an account and of an entry.
abbrev pub scan_account : Decimals → AccountRow → Account
scan_account d r = record {
  id = r.id;
  owner_id = r.owner_id;
  name = r.name;
  balance = d.numeric_out r.balance;
  currency = r.currency;
  is_system = r.is_system;
  created_at = r.created_at;
}

abbrev pub scan_entry : Decimals → EntryRow → Entry
scan_entry d r = record {
  id = r.id;
  account_id = r.account_id;
  debit = d.numeric_out r.debit;
  credit = d.numeric_out r.credit;
  transaction_id = r.transaction_id;
  operation_type = operation_text r.operation_type;
  description = r.description;
  created_at = r.created_at;
}
