-- ===== src/Tests/Bank.antt =====
-- A small bank: the settlement account 9, accounts 1 and 2 of users 5 and 6, funded by two deposits,
-- and a database that answers every call.
use double_entry_bank_go.Base.{
  ℕ, ◌+◌, ◌≡◌, refl, true, false, Option, none, some, String, [], ◌∷◌, ◌==◌, if◌then◌else◌, arith,
  str_eq, inl, inr,
}
use double_entry_bank_go.Int.{pos, negsuc, ◌+ℤ◌, ◌-ℤ◌}
use double_entry_bank_go.World.{UserRow, AccountRow, OperationType, EntryRow, Db, World, Backend}
use double_entry_bank_go.Sqlc.Tables.{fits, entry_check, sum_credit, sum_debit}
use double_entry_bank_go.Service.Invariant.{IsLedger, transaction_sum}
use double_entry_bank_go.Store.Atomic.{NoLostConflict}
use double_entry_bank_go.Tests.Tally.{tallies}

abbrev pub parse_id : String → Option ℕ
parse_id t =
    if str_eq t "one"
    then some 1
    else if str_eq t "two"
    then some 2
    else if str_eq t "user-5"
    then some 5
    else if str_eq t "bank"
    then some 9
    else none

abbrev pub backend : Backend
backend = record {
  decimals = tallies;
  fault = λ n. none;
  commit_lost = λ n. false;
  cancelled = λ n. false;
  new_uuid = λ n. 100 + n;
  now = λ n. n;
  uuid_string = λ n. if n == 1 then "one" else "other";
  uuid_parse = parse_id;
}

pub backend-NoLostConflict : NoLostConflict backend
backend-NoLostConflict n e h c = refl

abbrev pub settlement : AccountRow
settlement = record {
  id = 9;
  owner_id = none;
  name = "Settlement Account";
  balance = negsuc 7;
  currency = "USD";
  is_system = true;
  created_at = some 0;
}

abbrev pub account : ℕ → ℕ → ℕ → AccountRow
account id owner balance = record {
  id = id;
  owner_id = some owner;
  name = "Savings";
  balance = pos balance;
  currency = "USD";
  is_system = false;
  created_at = some id;
}

abbrev entry : ℕ → ℕ → ℕ → ℕ → ℕ → EntryRow
entry id account_id debit credit transaction = record {
  id = id;
  account_id = account_id;
  debit = pos debit;
  credit = pos credit;
  transaction_id = transaction;
  operation_type = OperationType.deposit;
  description = none;
  created_at = some id;
}

abbrev user : ℕ → String → UserRow
user id email = record { id = id; email = email; hashed_password = "#"; created_at = none }

abbrev pub tables : Db
tables = record {
  users = user 5 "ann@bank" ∷ user 6 "bob@bank" ∷ [];
  accounts = account 1 5 5 ∷ account 2 6 3 ∷ settlement ∷ [];
  entries = entry 23 9 3 0 71 ∷ entry 22 2 0 3 71 ∷ entry 21 9 5 0 70 ∷ entry 20 1 0 5 70 ∷ [];
}

abbrev pub bank : World
bank = record { db = tables; calls = 0; slept = 0 }

tables_balanced : (t : ℕ) → transaction_sum t tables.entries ≡ pos 0
unfolding ◌-ℤ◌ ◌+ℤ◌
tables_balanced t = ground arith

pub tables-IsLedger : IsLedger tables
unfolding ◌+ℤ◌ ◌-ℤ◌ fits entry_check sum_credit sum_debit
tables-IsLedger = record {
  keyed = (refl, (refl, (refl, tt)));
  reconciled = (refl, (refl, (refl, tt)));
  in_range = (refl, (refl, (refl, tt)));
  solvent = (inr (omega arith), (inr (omega arith), (inl refl, tt)));
  conserved = refl;
  checked = (refl, (refl, (refl, (refl, tt))));
  anchored = (refl, (refl, (refl, (refl, tt))));
  balanced = tables_balanced;
}
