-- ===== src/Service/Invariant.antt =====
-- What is always true of the tables, and what it means for a movement of money to be posted.
use double_entry_bank_go.Base.{◌≡◌, ◌⊎◌, true, List, [], ◌∷◌, any, ◌==◌, if◌then◌else◌, All}
use double_entry_bank_go.Int.{ℤ, pos, ◌+ℤ◌, ◌-ℤ◌, ◌≤ℤ◌}
use double_entry_bank_go.Errors.{ok}
use double_entry_bank_go.World.{Uuid, AccountRow, EntryRow, Db}
use double_entry_bank_go.Sqlc.Tables.{
  fits, is_settlement, entry_check, add_to_balance, calculated_balance,
}
use double_entry_bank_go.Sqlc.Balances.{DistinctIds, total}

-- Credits less debits over the entries of one transaction.
abbrev pub transaction_sum : Uuid → List EntryRow → ℤ
transaction_sum t [] = pos 0
transaction_sum t (e ∷ es) =
    (if e.transaction_id == t then e.credit -ℤ e.debit else pos 0) +ℤ transaction_sum t es

-- The stored balance is the one that the entries give.
abbrev pub IsReconciled : List EntryRow → AccountRow → Type 0
IsReconciled es a = a.balance ≡ calculated_balance a.id es

-- Only the settlement account may be overdrawn.
abbrev pub IsSolvent : AccountRow → Type 0
IsSolvent a = (is_settlement a ≡ true) ⊎ (pos 0 ≤ℤ a.balance)

abbrev pub InRange : AccountRow → Type 0
InRange a = fits a.balance ≡ true

abbrev pub IsAnchored : List AccountRow → EntryRow → Type 0
IsAnchored rows e = any (λ a. a.id == e.account_id) rows ≡ true

pub record IsLedger (db : Db) : Type 0 where
  pub keyed : DistinctIds db.accounts
  pub reconciled : All (IsReconciled db.entries) db.accounts
  pub in_range : All InRange db.accounts
  pub solvent : All IsSolvent db.accounts
  pub conserved : total db.accounts ≡ pos 0
  pub checked : All (λ e. entry_check e.debit e.credit ≡ true) db.entries
  pub anchored : All (IsAnchored db.accounts) db.entries
  pub balanced : (t : Uuid) → transaction_sum t db.entries ≡ pos 0

-- Two opposing entries of one transaction, and the two updates that go with them: `first` is
-- debited by `debit` and credited by `credit`, `second` the other way round.
pub record Posted (first second : Uuid) (debit credit : ℤ) (db db' : Db) : Type 0 where
  pub entry1 : EntryRow
  pub entry2 : EntryRow
  pub mid : List AccountRow
  pub account1 : entry1.account_id ≡ first
  pub account2 : entry2.account_id ≡ second
  pub same_transaction : entry2.transaction_id ≡ entry1.transaction_id
  pub debit1 : entry1.debit ≡ debit
  pub credit1 : entry1.credit ≡ credit
  pub debit2 : entry2.debit ≡ credit
  pub credit2 : entry2.credit ≡ debit
  pub checked1 : entry_check debit credit ≡ true
  pub checked2 : entry_check credit debit ≡ true
  pub listed1 : any (λ a. a.id == first) db.accounts ≡ true
  pub listed2 : any (λ a. a.id == second) db.accounts ≡ true
  pub users : db'.users ≡ db.users
  pub entries : db'.entries ≡ entry2 ∷ entry1 ∷ db.entries
  pub updated1 : add_to_balance first (credit -ℤ debit) db.accounts ≡ ok mid
  pub updated2 : add_to_balance second (debit -ℤ credit) mid ≡ ok db'.accounts
