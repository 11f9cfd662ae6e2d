-- ===== src/Api/Preserved.antt =====
-- Each handler leaves the invariant of the ledger true.
use double_entry_bank_go.Money.{DecimalLaws}
use double_entry_bank_go.Service.Invariant.{IsLedger}
use double_entry_bank_go.Service.Guarantees.{deposit-IsLedger, withdraw-IsLedger, transfer-IsLedger}
use double_entry_bank_go.Service.History.{create_user-IsLedger, create_account-IsLedger}
use double_entry_bank_go.Api.Handling.{Server, Request}
use double_entry_bank_go.Api.Users.{register}
use double_entry_bank_go.Api.Accounts.{create_account_handler}
use double_entry_bank_go.Api.Movements.{deposit_handler, withdraw_handler, transfer_handler}
use double_entry_bank_go.Api.Kept.{
  Keeps, >>=-Keeps, >>-Keeps, refuse_if-Keeps, need-Keeps, call-Keeps,
}
use double_entry_bank_go.Api.Router.{Endpoint, handler}
use double_entry_bank_go.Api.Reading.{
  authenticate-Keeps, authorize-Keeps, generate_token-Keeps, hash_password-Keeps, login-Keeps,
  list_accounts-Keeps, get_account_handler-Keeps, reconcile_handler-Keeps, get_entries-Keeps,
  get_transactions-Keeps,
}

module _ (s : Server) (laws : DecimalLaws s.backend.decimals) where
  open s use {backend as b, jwt}

  register-Keeps : (r : Request s) → Keeps IsLedger (register s r)
  unfolding register
  register-Keeps r = >>=-Keeps _ _ _ (need-Keeps _ _ _ _) (λ ps.
      >>=-Keeps _ _ _ (need-Keeps _ _ _ _) (λ email.
        >>=-Keeps _ _ _ (need-Keeps _ _ _ _) (λ password. >>-Keeps _ _ _ (refuse_if-Keeps _ _ _ _) (
          >>=-Keeps _ _ _ (hash_password-Keeps s IsLedger password) (λ hashed.
            >>=-Keeps _ _ _ (call-Keeps _ _ _ (create_user-IsLedger b laws _))
              (λ user. >>=-Keeps _ _ _ (generate_token-Keeps s IsLedger _) (λ token w h. h)))))))

  create_account_handler-Keeps : (r : Request s) → Keeps IsLedger (create_account_handler s r)
  unfolding create_account_handler
  create_account_handler-Keeps r = >>=-Keeps _ _ _ (authenticate-Keeps s IsLedger r) (λ user_id.
      >>=-Keeps _ _ _ (need-Keeps _ _ _ _) (λ ps. >>=-Keeps _ _ _ (need-Keeps _ _ _ _) (λ name.
        >>-Keeps _ _ _ (refuse_if-Keeps _ _ _ _)
          (>>=-Keeps _ _ _ (call-Keeps _ _ _ (create_account-IsLedger b laws _)) (λ acc w h. h)))))

  deposit_handler-Keeps : (r : Request s) → Keeps IsLedger (deposit_handler s r)
  unfolding deposit_handler
  deposit_handler-Keeps r = >>=-Keeps _ _ _ (authenticate-Keeps s IsLedger r) (λ user_id.
      >>=-Keeps _ _ _ (need-Keeps _ _ _ _) (λ account_id.
        >>=-Keeps _ _ _ (authorize-Keeps s IsLedger _ _ _) (λ acc.
          >>=-Keeps _ _ _ (need-Keeps _ _ _ _) (λ amount.
            >>-Keeps _ _ _ (call-Keeps _ _ _ (deposit-IsLedger b laws account_id amount))
              (λ w h. h)))))

  withdraw_handler-Keeps : (r : Request s) → Keeps IsLedger (withdraw_handler s r)
  unfolding withdraw_handler
  withdraw_handler-Keeps r = >>=-Keeps _ _ _ (authenticate-Keeps s IsLedger r) (λ user_id.
      >>=-Keeps _ _ _ (need-Keeps _ _ _ _) (λ account_id.
        >>=-Keeps _ _ _ (authorize-Keeps s IsLedger _ _ _) (λ acc.
          >>=-Keeps _ _ _ (need-Keeps _ _ _ _) (λ amount.
            >>-Keeps _ _ _ (call-Keeps _ _ _ (withdraw-IsLedger b laws account_id amount))
              (λ w h. h)))))

  transfer_handler-Keeps : (r : Request s) → Keeps IsLedger (transfer_handler s r)
  unfolding transfer_handler
  transfer_handler-Keeps r = >>=-Keeps _ _ _ (authenticate-Keeps s IsLedger r) (λ user_id.
      >>=-Keeps _ _ _ (need-Keeps _ _ _ _) (λ ps. >>=-Keeps _ _ _ (need-Keeps _ _ _ _) (λ from_id.
        >>=-Keeps _ _ _ (need-Keeps _ _ _ _) (λ to_id.
          >>=-Keeps _ _ _ (need-Keeps _ _ _ _) (λ from_account_id.
            >>=-Keeps _ _ _ (need-Keeps _ _ _ _) (λ to_account_id.
              >>-Keeps _ _ _ (refuse_if-Keeps _ _ _ _) (
                >>-Keeps _ _ _ (refuse_if-Keeps _ _ _ _) (
                  >>=-Keeps _ _ _ (need-Keeps _ _ _ _) (λ from.
                    >>=-Keeps _ _ _ (need-Keeps _ _ _ _) (λ to.
                      >>-Keeps _ _ _ (refuse_if-Keeps _ _ _ _) (
                        >>=-Keeps _ _ _ (need-Keeps _ _ _ _) (λ amount.
                          >>=-Keeps _ _ _ (authorize-Keeps s IsLedger _ _ _) (λ acc.
                            >>-Keeps _ _ _
                              (call-Keeps _ _ _ (transfer-IsLedger b laws from to amount))
                              (λ w h. h))))))))))))))

  -- Whatever the handler of a route does, the invariant of the ledger stays true.
  pub handler-Keeps : (e : Endpoint) (r : Request s) → Keeps IsLedger (handler s e r)
  handler-Keeps Endpoint.register_route r = register-Keeps r
  handler-Keeps Endpoint.login_route r = login-Keeps s IsLedger r
  handler-Keeps Endpoint.create_account_route r = create_account_handler-Keeps r
  handler-Keeps Endpoint.list_accounts_route r = list_accounts-Keeps s IsLedger r
  handler-Keeps Endpoint.get_account_route r = get_account_handler-Keeps s IsLedger r
  handler-Keeps Endpoint.deposit_route r = deposit_handler-Keeps r
  handler-Keeps Endpoint.withdraw_route r = withdraw_handler-Keeps r
  handler-Keeps Endpoint.transfer_route r = transfer_handler-Keeps r
  handler-Keeps Endpoint.entries_route r = get_entries-Keeps s IsLedger r
  handler-Keeps Endpoint.reconcile_route r = reconcile_handler-Keeps s IsLedger r
  handler-Keeps Endpoint.transactions_route r = get_transactions-Keeps s IsLedger r
