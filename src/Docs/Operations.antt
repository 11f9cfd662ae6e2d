-- ===== src/Docs/Operations.antt =====
-- The operation that documents each route.
use double_entry_bank_go.Docs.{Operation}
use double_entry_bank_go.Docs.Accounts.{
  list_accounts_operation, create_account_operation, get_account_operation, entries_operation,
  reconcile_operation,
}
use double_entry_bank_go.Docs.Payments.{deposit_operation, withdraw_operation, transfer_operation}
use double_entry_bank_go.Docs.Others.{register_operation, login_operation, transactions_operation}
use double_entry_bank_go.Api.Router.{
  Endpoint, register_route, login_route, create_account_route, list_accounts_route,
  get_account_route, deposit_route, withdraw_route, transfer_route, entries_route, reconcile_route,
  transactions_route,
}

abbrev pub operation : Endpoint → Operation
operation register_route = register_operation
operation login_route = login_operation
operation create_account_route = create_account_operation
operation list_accounts_route = list_accounts_operation
operation get_account_route = get_account_operation
operation deposit_route = deposit_operation
operation withdraw_route = withdraw_operation
operation transfer_route = transfer_operation
operation entries_route = entries_operation
operation reconcile_route = reconcile_operation
operation transactions_route = transactions_operation
