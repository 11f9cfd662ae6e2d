-- ===== src/Service/Running.antt =====
-- When the statements of a movement succeed, one after another.
use double_entry_bank_go.Base.{
  ℕ, ◌+◌, ◌≤◌, ◌≡◌, ◌≢◌, refl, sym, ◌∙◌, true, false, none, some, ◌∷◌, any, ◌==◌, ==_iff, arith,
  Bool-cases, inl, inr,
}
use double_entry_bank_go.Int.{ℤ, ◌+ℤ◌, ◌-ℤ◌}
use double_entry_bank_go.Errors.{ok}
use double_entry_bank_go.World.{AccountRow, OperationType, EntryRow, World, Backend, tick, ◌>>◌}
use double_entry_bank_go.Sqlc.Models.{CreateEntryParams, UpdateAccountBalanceParams}
use double_entry_bank_go.Sqlc.Tables.{fits, find_account, entry_check, operation_param}
use double_entry_bank_go.Sqlc.Balances.{DistinctIds, add_to_balance-DistinctIds}
use double_entry_bank_go.Sqlc.Lookup.{find_account-add_to_balance_ne}
use double_entry_bank_go.Sqlc.Calm.{>>=-ok}
use double_entry_bank_go.Sqlc.Runs.{
  add_to_balance_runs, inserted_row, create_entry_runs, update_account_balance_runs,
}
use double_entry_bank_go.Service.Posting.{post}

-- The ids that the UUID package will give out are new, and differ from one another.
pub record IsFresh (b : Backend) (w : World) : Type 0 where
  pub unused : (n : ℕ) → w.calls ≤ n → any (λ e. e.id == b.new_uuid n) w.db.entries ≡ false
  pub distinct : (m n : ℕ) → b.new_uuid m ≡ b.new_uuid n → m ≡ n

module _ (b : Backend) (calm : (n : ℕ) → b.fault n ≡ none) where
  open b use {decimals as d}

  -- After an insert, the next id is still new.
  next_unused :
      (w : World) (row : EntryRow)
      → IsFresh b w
      → row.id ≡ b.new_uuid w.calls
      → any (λ e. e.id == b.new_uuid (w.calls + 1)) (row ∷ w.db.entries) ≡ false
  next_unused w row fresh own =
      let old = fresh.unused (w.calls + 1) (omega arith) in
      elim (Bool-cases (row.id == b.new_uuid (w.calls + 1))) [
        | inl same ↦
            let e = fresh.distinct w.calls (w.calls + 1) (sym own ∙ (==_iff _ _).0 same) in
            absurd (omega arith)
        | inr other ↦ rw other old
      ]

  module _ (debit credit : ℤ) (op : OperationType) (p1 p2 : CreateEntryParams)
      (u1 u2 : UpdateAccountBalanceParams) (row1 row2 : AccountRow)
      (account1 : u1.id ≡ p1.account_id) (account2 : u2.id ≡ p2.account_id)
      (op1 : operation_param p1.operation_type ≡ ok op)
      (op2 : operation_param p2.operation_type ≡ ok op)
      (debit1 : d.numeric_in p1.debit ≡ some debit) (credit1 : d.numeric_in p1.credit ≡ some credit)
      (debit2 : d.numeric_in p2.debit ≡ some credit) (credit2 : d.numeric_in p2.credit ≡ some debit)
      (delta1 : d.numeric_in u1.balance ≡ some (credit -ℤ debit))
      (delta2 : d.numeric_in u2.balance ≡ some (debit -ℤ credit)) (fits_debit : fits debit ≡ true)
      (fits_credit : fits credit ≡ true) (checked1 : entry_check debit credit ≡ true)
      (checked2 : entry_check credit debit ≡ true) (other : u2.id ≢ u1.id)
      (room1 : fits (row1.balance +ℤ (credit -ℤ debit)) ≡ true)
      (room2 : fits (row2.balance +ℤ (debit -ℤ credit)) ≡ true) where
    pub post_runs :
        (w : World)
        → IsFresh b w
        → DistinctIds w.db.accounts
        → find_account u1.id w.db.accounts ≡ some row1
        → find_account u2.id w.db.accounts ≡ some row2
        → any (λ a. a.id == p1.account_id) w.db.accounts ≡ true
        → any (λ a. a.id == p2.account_id) w.db.accounts ≡ true
        → (w' : World) × (post b p1 p2 u1 u2 w ≡ (ok tt, w'))
    unfolding post ◌>>◌
    post_runs w fresh keys found1 found2 listed1 listed2 =
        let e1 =
          inserted_row b w (calm w.calls) p1 debit credit op debit1 credit1 op1 fits_debit
            fits_credit checked1 (fresh.unused w.calls (omega arith)) listed1 in
        let w1 : World = record (tick w) { db = record w.db { entries = e1 ∷ w.db.entries } } in
        let run1 =
          create_entry_runs b w (calm w.calls) p1 debit credit op debit1 credit1 op1 fits_debit
            fits_credit checked1 (fresh.unused w.calls (omega arith)) listed1 in
        let new2 = next_unused w e1 fresh refl in
        let run2 =
          create_entry_runs b w1 (calm w1.calls) p2 credit debit op debit2 credit2 op2 fits_credit
            fits_debit checked2 new2 listed2 in
        let e2 =
          inserted_row b w1 (calm w1.calls) p2 credit debit op debit2 credit2 op2 fits_credit
            fits_debit checked2 new2 listed2 in
        let w2 : World = record (tick w1) { db = record w1.db { entries = e2 ∷ w1.db.entries } } in
        let (rows1, added1) =
          add_to_balance_runs u1.id (credit -ℤ debit) w.db.accounts row1 keys found1 room1 in
        let run3 = update_account_balance_runs b w2 (calm w2.calls) u1 _ rows1 delta1 added1 in
        let w3 : World = record (tick w2) { db = record w2.db { accounts = rows1 } } in
        let found2' =
          find_account-add_to_balance_ne u2.id u1.id (credit -ℤ debit) w.db.accounts added1 other
          ∙ found2 in
        let keys' = add_to_balance-DistinctIds u1.id (credit -ℤ debit) w.db.accounts added1 keys in
        let (rows2, added2) =
          add_to_balance_runs u2.id (debit -ℤ credit) rows1 row2 keys' found2' room2 in
        let run4 = update_account_balance_runs b w3 (calm w3.calls) u2 _ rows2 delta2 added2 in
        (
          record (tick w3) { db = record w3.db { accounts = rows2 } },
          >>=-ok _ _ w w1 _ run1 ∙ >>=-ok _ _ w1 w2 _ run2 ∙ >>=-ok _ _ w2 w3 tt run3 ∙ run4,
        )
