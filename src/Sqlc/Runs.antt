-- ===== src/Sqlc/Runs.antt =====
-- When the statements of a movement succeed.
use double_entry_bank_go.Base.{
  ◌≡◌, refl, sym, ◌∙◌, subst, true, false, none, some, List, [], ◌∷◌, inl, inr, any, ◌==◌, ==_iff,
  All, arith, Bool-cases,
}
use double_entry_bank_go.Int.{ℤ, ◌+ℤ◌}
use double_entry_bank_go.Errors.{ok}
use double_entry_bank_go.World.{
  Uuid, Time, AccountRow, OperationType, EntryRow, World, Backend, tick,
}
use double_entry_bank_go.Sqlc.Models.{CreateEntryParams, UpdateAccountBalanceParams, scan_entry}
use double_entry_bank_go.Sqlc.Tables.{
  fits, find_account, insert_entry, entry_check, operation_param, add_to_balance,
}
use double_entry_bank_go.Sqlc.Accounts.{update_account_balance}
use double_entry_bank_go.Sqlc.Entries.{create_entry}
use double_entry_bank_go.Sqlc.Balances.{DistinctIds}
use double_entry_bank_go.Sqlc.Lookup.{find_unique, find_account-id}

-- An update succeeds where every new balance fits its column.
fitting_runs :
    (id : Uuid) (n : ℤ) (rows : List AccountRow)
    → All (λ a. a.id ≡ id → fits (a.balance +ℤ n) ≡ true) rows
    → (rows' : List AccountRow) × (add_to_balance id n rows ≡ ok rows')
unfolding add_to_balance
fitting_runs id n [] h = ([], refl)
fitting_runs id n (a ∷ rows) (room, more) =
    let (rest, later) = fitting_runs id n rows more in
    elim (Bool-cases (a.id == id)) [
      | inl mine ↦
          let fit = room ((==_iff a.id id).0 mine) in
          (record a { balance = a.balance +ℤ n } ∷ rest, ground arith)
      | inr other ↦ (a ∷ rest, ground arith)
    ]

All-implies :
    {P Q : AccountRow → Type 0} (step : (a : AccountRow) → P a → Q a) (rows : List AccountRow)
    → All P rows
    → All Q rows
All-implies step [] h = tt
All-implies step (a ∷ rows) (h, hs) = (step a h, All-implies step rows hs)

pub add_to_balance_runs :
    (id : Uuid) (n : ℤ) (rows : List AccountRow) (row : AccountRow)
    → DistinctIds rows
    → find_account id rows ≡ some row
    → fits (row.balance +ℤ n) ≡ true
    → (rows' : List AccountRow) × (add_to_balance id n rows ≡ ok rows')
add_to_balance_runs id n rows row d found room =
    let own = find_account-id id rows found in
    fitting_runs id n rows (
      All-implies
        (λ a same e.
          subst (λ (r : AccountRow). fits (r.balance +ℤ n) ≡ true) (sym (same (e ∙ sym own))) room)
        rows (find_unique (λ a. a.id == id) rows d found))

-- The row that an insert adds.
abbrev pub entry_row : CreateEntryParams → ℤ → ℤ → OperationType → Uuid → Time → EntryRow
entry_row arg debit credit op id now = record {
  id = id;
  account_id = arg.account_id;
  debit = debit;
  credit = credit;
  transaction_id = arg.transaction_id;
  operation_type = op;
  description = arg.description;
  created_at = some now;
}

module _ (b : Backend) (w : World) (calm : b.fault w.calls ≡ none) where
  open b use {decimals as d}

  module _ (arg : CreateEntryParams) (debit credit : ℤ) (op : OperationType)
      (read_debit : d.numeric_in arg.debit ≡ some debit)
      (read_credit : d.numeric_in arg.credit ≡ some credit)
      (read_op : operation_param arg.operation_type ≡ ok op) (fits_debit : fits debit ≡ true)
      (fits_credit : fits credit ≡ true) (checked : entry_check debit credit ≡ true)
      (fresh : any (λ e. e.id == b.new_uuid w.calls) w.db.entries ≡ false)
      (listed : any (λ a. a.id == arg.account_id) w.db.accounts ≡ true) where
    abbrev pub inserted_row : EntryRow
    inserted_row = entry_row arg debit credit op (b.new_uuid w.calls) (b.now w.calls)

    insert_entry_runs :
        insert_entry d arg (b.new_uuid w.calls) (b.now w.calls) w.db
        ≡ ok (inserted_row, record w.db { entries = inserted_row ∷ w.db.entries })
    unfolding insert_entry
    insert_entry_runs = ground arith

    pub create_entry_runs : create_entry b arg w ≡ (
      ok (scan_entry d inserted_row),
      record (tick w) { db = record w.db { entries = inserted_row ∷ w.db.entries } },
    )
    unfolding create_entry
    create_entry_runs = ground (arith, insert_entry_runs)

  pub update_account_balance_runs :
      (arg : UpdateAccountBalanceParams) (n : ℤ) (rows : List AccountRow)
      → d.numeric_in arg.balance ≡ some n
      → add_to_balance arg.id n w.db.accounts ≡ ok rows
      → update_account_balance b arg w
        ≡ (ok tt, record (tick w) { db = record w.db { accounts = rows } })
  unfolding update_account_balance
  update_account_balance_runs arg n rows read added = ground arith
