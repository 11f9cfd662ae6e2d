-- ===== src/Service.antt =====
-- internal/service/ledger.go: deposits, withdrawals and transfers, each a pair of opposing entries
-- and two balance updates in one transaction, and the reconciliation of an account.
pub mod Invariant
pub mod Posting
pub mod Kept
pub mod Movements
pub mod Solvent
pub mod Effects
pub mod Reconcile
pub mod History
pub mod Migrated
pub mod Reads
pub mod Running
pub mod Ready
pub mod Success
pub mod Total
pub mod Waiting
pub mod Bank
pub mod Refines
pub mod Outcome
pub mod Guarantees
use double_entry_bank_go.Base.{Bool, true, false, not, none, some, String, str_eq, ◌<>◌, ◌==◌}
use double_entry_bank_go.Money.{Decimals}
use double_entry_bank_go.Errors.{
  insufficient_funds, same_account_transfer, invalid_amount, currency_mismatch, sentinel, message,
  wrap, Result, ok, err,
}
use double_entry_bank_go.World.{
  Uuid, Backend, Action, pure, fail, ◌>>=◌, ◌>>◌, on_error, stop_if, or_fail, draw_uuid,
}
use double_entry_bank_go.Sqlc.Accounts.{
  get_account, get_account_balance, get_account_for_update, get_settlement_account_for_update,
  update_account_balance,
}
use double_entry_bank_go.Sqlc.Entries.{create_entry}
use double_entry_bank_go.Store.{exec_tx}

-- `validatePositiveAmount`
unfoldable pub validate_positive_amount : (d : Decimals) → String → Result d.Decimal
validate_positive_amount d text = elim (d.new_from_string text) [
  | none ↦ err (sentinel invalid_amount)
  | some amount ↦ elim (d.less_than_or_equal amount d.zero) [
    | true ↦ err (sentinel invalid_amount)
    | false ↦ ok amount
  ]
]

module _ (b : Backend) where
  open b use {decimals as d, uuid_string}

  -- The function that `Deposit` hands to `ExecTx`.
  unfoldable pub deposit_tx : Uuid → d.Decimal → Action (Unit {0})
  deposit_tx account_id amount = do
    settlement ←
        on_error (wrap "settlement account not found") (get_settlement_account_for_update b)
    account ← on_error (wrap "account not found") (get_account_for_update b account_id)
    stop_if (not (str_eq account.currency settlement.currency)) (sentinel currency_mismatch)
    tx_id ← draw_uuid b
    _ ← create_entry b (record {
      account_id = account_id;
      debit = d.string_fixed d.zero 4;
      credit = d.string_fixed amount 4;
      transaction_id = tx_id;
      operation_type = "deposit";
      description = some "External deposit";
    })
    _ ← create_entry b (record {
      account_id = settlement.id;
      debit = d.string_fixed amount 4;
      credit = d.string_fixed d.zero 4;
      transaction_id = tx_id;
      operation_type = "deposit";
      description = some ("Deposit to account " <> uuid_string account_id);
    })
    update_account_balance b (record { balance = d.string_fixed amount 4; id = account_id })
    update_account_balance b
        (record { balance = d.string_fixed (d.neg amount) 4; id = settlement.id })

  unfoldable pub deposit : Uuid → String → Action (Unit {0})
  deposit account_id amount_str = elim (validate_positive_amount d amount_str) [
    | err e ↦ fail e
    | ok amount ↦ exec_tx b (deposit_tx account_id amount)
  ]

  -- The function that `Withdraw` hands to `ExecTx`.
  unfoldable pub withdraw_tx : Uuid → d.Decimal → Action (Unit {0})
  withdraw_tx account_id amount = do
    settlement ←
        on_error (wrap "settlement account not found") (get_settlement_account_for_update b)
    account ← on_error (wrap "account not found") (get_account_for_update b account_id)
    stop_if (not (str_eq account.currency settlement.currency)) (sentinel currency_mismatch)
    balance ← or_fail (d.new_from_string account.balance) (message "invalid balance")
    stop_if (d.less_than balance amount) (sentinel insufficient_funds)
    tx_id ← draw_uuid b
    _ ← create_entry b (record {
      account_id = account_id;
      debit = d.string_fixed amount 4;
      credit = d.string_fixed d.zero 4;
      transaction_id = tx_id;
      operation_type = "withdrawal";
      description = some "External withdrawal";
    })
    _ ← create_entry b (record {
      account_id = settlement.id;
      debit = d.string_fixed d.zero 4;
      credit = d.string_fixed amount 4;
      transaction_id = tx_id;
      operation_type = "withdrawal";
      description = some ("Withdrawal from " <> uuid_string account_id);
    })
    update_account_balance b (record { balance = d.string_fixed (d.neg amount) 4; id = account_id })
    update_account_balance b (record { balance = d.string_fixed amount 4; id = settlement.id })

  unfoldable pub withdraw : Uuid → String → Action (Unit {0})
  withdraw account_id amount_str = elim (validate_positive_amount d amount_str) [
    | err e ↦ fail e
    | ok amount ↦ exec_tx b (withdraw_tx account_id amount)
  ]

  -- The function that `Transfer` hands to `ExecTx`.
  unfoldable pub transfer_tx : Uuid → Uuid → d.Decimal → Action (Unit {0})
  transfer_tx from_id to_id amount = do
    from ← get_account_for_update b from_id
    to ← get_account_for_update b to_id
    stop_if (not (str_eq from.currency to.currency)) (sentinel currency_mismatch)
    balance ← or_fail (d.new_from_string from.balance) (message "invalid from balance")
    stop_if (d.less_than balance amount) (sentinel insufficient_funds)
    tx_id ← draw_uuid b
    _ ← create_entry b (record {
      account_id = from_id;
      debit = d.string_fixed amount 4;
      credit = d.string_fixed d.zero 4;
      transaction_id = tx_id;
      operation_type = "transfer";
      description = some ("Transfer to " <> uuid_string to_id);
    })
    _ ← create_entry b (record {
      account_id = to_id;
      debit = d.string_fixed d.zero 4;
      credit = d.string_fixed amount 4;
      transaction_id = tx_id;
      operation_type = "transfer";
      description = some ("Transfer from " <> uuid_string from_id);
    })
    update_account_balance b (record { balance = d.string_fixed (d.neg amount) 4; id = from_id })
    update_account_balance b (record { balance = d.string_fixed amount 4; id = to_id })

  unfoldable pub transfer : Uuid → Uuid → String → Action (Unit {0})
  transfer from_id to_id amount_str = elim (validate_positive_amount d amount_str) [
    | err e ↦ fail e
    | ok amount ↦ elim (from_id == to_id) [
      | true ↦ fail (sentinel same_account_transfer)
      | false ↦ exec_tx b (transfer_tx from_id to_id amount)
    ]
  ]

  -- `ReconcileAccount`; its error for a mismatch wraps no other.
  unfoldable pub reconcile_account : Uuid → Action Bool
  reconcile_account account_id = do
    account ← on_error (wrap "account not found") (get_account b account_id)
    text ← on_error (wrap "failed to calculate balance") (get_account_balance b account_id)
    calculated ←
        or_fail (d.new_from_string text)
          (wrap "invalid calculated balance" (message (d.parse_error text)))
    stored ←
        or_fail (d.new_from_string account.balance)
          (wrap "invalid stored balance" (message (d.parse_error account.balance)))
    stop_if (not (d.equal stored calculated)) (
        message (
          "balance mismatch: stored "
          <> account.balance
          <> ", calculated "
          <> d.string_fixed calculated 4))
    pure true
