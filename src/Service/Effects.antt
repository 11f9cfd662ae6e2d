-- ===== src/Service/Effects.antt =====
-- A posted movement as it shows in the balances: the money that leaves one account arrives at the
-- other, and no third account is touched.
use double_entry_bank_go.Base.{◌≡◌, ◌≢◌, sym, ◌∙◌, ap, some}
use double_entry_bank_go.Int.{ℤ, ◌+ℤ◌, ◌-ℤ◌}
use double_entry_bank_go.World.{Uuid, Db}
use double_entry_bank_go.Sqlc.Tables.{find_account}
use double_entry_bank_go.Sqlc.Lookup.{
  balance_of, stored_balance, stored_balance-add_to_balance, find_account-add_to_balance_ne,
}
use double_entry_bank_go.Service.Invariant.{Posted}

module _ (first second : Uuid) (debit credit : ℤ) (db db' : Db)
    (p : Posted first second debit credit db db') where
  -- Of two different accounts the first moves by credit less debit, and the second by the opposite.
  pub Posted_balances :
      (u v : ℤ)
      → first ≢ second
      → stored_balance first db.accounts ≡ some u
      → stored_balance second db.accounts ≡ some v
      → (stored_balance first db'.accounts ≡ some (u +ℤ (credit -ℤ debit)))
        × (stored_balance second db'.accounts ≡ some (v +ℤ (debit -ℤ credit)))
  Posted_balances u v ne eu ev =
      let kept = find_account-add_to_balance_ne first second _ p.mid p.updated2 ne in
      let kept' =
        find_account-add_to_balance_ne second first _ db.accounts p.updated1 (λ e. ne (sym e)) in
      (
        ap balance_of kept ∙ stored_balance-add_to_balance first _ db.accounts p.updated1 eu,
        stored_balance-add_to_balance second _ p.mid p.updated2 (ap balance_of kept' ∙ ev),
      )

  pub Posted_others :
      (k : Uuid) → k ≢ first → k ≢ second → find_account k db'.accounts ≡ find_account k db.accounts
  Posted_others k n1 n2 =
      find_account-add_to_balance_ne k second _ p.mid p.updated2 n2
      ∙ find_account-add_to_balance_ne k first _ db.accounts p.updated1 n1
