-- ===== src/Docs/Replies.antt =====
-- internal/api/handler.go and docs/docs.go: each handler replies, and as the document has it.
use double_entry_bank_go.Base.{Bool, String, map, refl}
use double_entry_bank_go.World.{Time}
use double_entry_bank_go.Docs.Conformance.{
  is_property, are_properties, has_properties, is_object, properties_of, conforms, is_documented,
}
use double_entry_bank_go.Docs.Steps.{
  authenticate-Steps, authorize-Steps, generate_token-Steps, hash_password-Steps,
  authorized_by-Steps,
}
use double_entry_bank_go.Docs.Listed.{
  is_listed, created-Listed, account-Listed, accounts-Listed, entries-Listed, transaction-Listed,
  deposit_status-Listed, withdraw_status-Listed,
}
use double_entry_bank_go.Api.Wire.{encode_payload}
use double_entry_bank_go.Api.Reply.{Reply, to_account_response, to_entry_response}
use double_entry_bank_go.Api.Handling.{Server, Request, text_of}
use double_entry_bank_go.Api.Answered.{
  Closes, >>=-Closes, >>-Closes, refuse_if-Steps, need-Steps, call-Steps,
}
use double_entry_bank_go.Api.Users.{register, login}
use double_entry_bank_go.Api.Accounts.{create_account_handler, list_accounts, get_account_handler}
use double_entry_bank_go.Api.Movements.{
  deposit_handler, withdraw_handler, transfer_handler, reconcile_handler,
}
use double_entry_bank_go.Api.Listing.{get_entries, get_transactions}
use double_entry_bank_go.Api.Router.{
  Endpoint, register_route, login_route, create_account_route, list_accounts_route,
  get_account_route, deposit_route, withdraw_route, transfer_route, entries_route, reconcile_route,
  transactions_route, handler,
}

module _ (time_text : Time → String) where
  -- The replies that the document lists for a route.
  abbrev lists : Endpoint → Reply → Bool
  lists = is_listed time_text

  module _ (s : Server) where
    open s use {backend as b, zero_time}

    register-Listed : (r : Request s) → Closes (lists register_route) (register s r)
    unfolding is_documented conforms properties_of encode_payload is_object has_properties
        are_properties is_property register
    register-Listed r = >>=-Closes _ _ _ (need-Steps _ _ _ refl _) (λ ps.
        >>=-Closes _ _ _ (need-Steps _ _ _ refl _) (λ email.
          >>=-Closes _ _ _ (need-Steps _ _ _ refl _) (λ password.
            >>-Closes _ _ _ (refuse_if-Steps _ _ _ refl _) (
              >>=-Closes _ _ _ (hash_password-Steps s _ password (λ _. refl)) (λ hashed.
                >>=-Closes _ _ _ (call-Steps _ _ _ (λ e. refl)) (λ user.
                  >>=-Closes _ _ _ (generate_token-Steps s _ _ (λ _. refl))
                    (λ token. λ w. refl)))))))

    login-Listed : (r : Request s) → Closes (lists login_route) (login s r)
    unfolding is_documented conforms properties_of encode_payload is_object has_properties
        are_properties is_property login
    login-Listed r = >>=-Closes _ _ _ (need-Steps _ _ _ refl _) (λ ps.
        >>=-Closes _ _ _ (need-Steps _ _ _ refl _) (λ email.
          >>=-Closes _ _ _ (need-Steps _ _ _ refl _) (λ password.
            >>=-Closes _ _ _ (call-Steps _ _ _ (λ e. refl)) (λ user.
              >>-Closes _ _ _ (refuse_if-Steps _ _ _ refl _)
                (>>=-Closes _ _ _ (generate_token-Steps s _ _ (λ _. refl)) (λ token. λ w. refl))))))

    create_account_handler-Listed :
        (r : Request s) → Closes (lists create_account_route) (create_account_handler s r)
    unfolding is_documented conforms properties_of encode_payload is_object has_properties
        are_properties is_property create_account_handler
    create_account_handler-Listed r =
        >>=-Closes _ _ _ (authenticate-Steps s _ r (λ _. refl)) (λ user_id.
          >>=-Closes _ _ _ (need-Steps _ _ _ refl _) (λ ps.
            >>=-Closes _ _ _ (need-Steps _ _ _ refl _) (λ name.
              >>-Closes _ _ _ (refuse_if-Steps _ _ _ refl _) (
                >>=-Closes _ _ _ (call-Steps _ _ _ (λ e. refl)) (λ acc. λ w.
                  created-Listed time_text (to_account_response b.uuid_string zero_time acc))))))

    list_accounts-Listed : (r : Request s) → Closes (lists list_accounts_route) (list_accounts s r)
    unfolding is_documented conforms properties_of encode_payload is_object has_properties
        are_properties is_property list_accounts
    list_accounts-Listed r = >>=-Closes _ _ _ (authenticate-Steps s _ r (λ _. refl)) (λ user_id.
        >>=-Closes _ _ _ (call-Steps _ _ _ (λ e. refl)) (λ accounts. λ w.
          accounts-Listed time_text (map (to_account_response b.uuid_string zero_time) accounts)))

    get_account_handler-Listed :
        (r : Request s) → Closes (lists get_account_route) (get_account_handler s r)
    unfolding is_documented conforms properties_of encode_payload is_object has_properties
        are_properties is_property get_account_handler
    get_account_handler-Listed r =
        >>=-Closes _ _ _ (authenticate-Steps s _ r (λ _. refl)) (λ user_id.
          >>=-Closes _ _ _ (need-Steps _ _ _ refl _) (λ account_id.
            >>=-Closes _ _ _ (authorize-Steps s _ _ _ _ (λ _. refl) (λ _. refl)) (λ acc.
              λ w. account-Listed time_text (to_account_response b.uuid_string zero_time acc))))

    deposit_handler-Listed : (r : Request s) → Closes (lists deposit_route) (deposit_handler s r)
    unfolding is_documented conforms properties_of encode_payload is_object has_properties
        are_properties is_property deposit_handler
    deposit_handler-Listed r = >>=-Closes _ _ _ (authenticate-Steps s _ r (λ _. refl)) (λ user_id.
        >>=-Closes _ _ _ (need-Steps _ _ _ refl _) (λ account_id.
          >>=-Closes _ _ _ (authorize-Steps s _ _ _ _ (λ _. refl) (λ _. refl)) (λ acc.
            >>=-Closes _ _ _ (need-Steps _ _ _ refl _) (λ amount.
              >>-Closes _ _ _
                (call-Steps _ _ _ (λ e. deposit_status-Listed time_text e (text_of s e)))
                (λ w. refl)))))

    withdraw_handler-Listed : (r : Request s) → Closes (lists withdraw_route) (withdraw_handler s r)
    unfolding is_documented conforms properties_of encode_payload is_object has_properties
        are_properties is_property withdraw_handler
    withdraw_handler-Listed r = >>=-Closes _ _ _ (authenticate-Steps s _ r (λ _. refl)) (λ user_id.
        >>=-Closes _ _ _ (need-Steps _ _ _ refl _) (λ account_id.
          >>=-Closes _ _ _ (authorize-Steps s _ _ _ _ (λ _. refl) (λ _. refl)) (λ acc.
            >>=-Closes _ _ _ (need-Steps _ _ _ refl _) (λ amount.
              >>-Closes _ _ _
                (call-Steps _ _ _ (λ e. withdraw_status-Listed time_text e (text_of s e)))
                (λ w. refl)))))

    transfer_handler-Listed : (r : Request s) → Closes (lists transfer_route) (transfer_handler s r)
    unfolding is_documented conforms properties_of encode_payload is_object has_properties
        are_properties is_property transfer_handler
    transfer_handler-Listed r = >>=-Closes _ _ _ (authenticate-Steps s _ r (λ _. refl)) (λ user_id.
        >>=-Closes _ _ _ (need-Steps _ _ _ refl _) (λ ps.
          >>=-Closes _ _ _ (need-Steps _ _ _ refl _) (λ from_id.
            >>=-Closes _ _ _ (need-Steps _ _ _ refl _) (λ to_id.
              >>=-Closes _ _ _ (need-Steps _ _ _ refl _) (λ from_account_id.
                >>=-Closes _ _ _ (need-Steps _ _ _ refl _) (λ to_account_id.
                  >>-Closes _ _ _ (refuse_if-Steps _ _ _ refl _) (
                    >>-Closes _ _ _ (refuse_if-Steps _ _ _ refl _) (
                      >>=-Closes _ _ _ (need-Steps _ _ _ refl _) (λ from.
                        >>=-Closes _ _ _ (need-Steps _ _ _ refl _) (λ to.
                          >>-Closes _ _ _ (refuse_if-Steps _ _ _ refl _) (
                            >>=-Closes _ _ _ (need-Steps _ _ _ refl _) (λ amount.
                              >>=-Closes _ _ _ (authorize-Steps s _ _ _ _ (λ _. refl) (λ _. refl))
                                (λ acc.
                                  >>-Closes _ _ _ (call-Steps _ _ _ (λ e. refl))
                                    (λ w. refl))))))))))))))

    reconcile_handler-Listed :
        (r : Request s) → Closes (lists reconcile_route) (reconcile_handler s r)
    unfolding is_documented conforms properties_of encode_payload is_object has_properties
        are_properties is_property reconcile_handler
    reconcile_handler-Listed r = >>=-Closes _ _ _ (authenticate-Steps s _ r (λ _. refl)) (λ user_id.
        >>=-Closes _ _ _ (need-Steps _ _ _ refl _) (λ account_id.
          >>=-Closes _ _ _ (authorize-Steps s _ _ _ _ (λ _. refl) (λ _. refl))
            (λ acc. >>=-Closes _ _ _ (call-Steps _ _ _ (λ e. refl)) (λ matched. λ w. refl))))

    get_entries-Listed : (r : Request s) → Closes (lists entries_route) (get_entries s r)
    unfolding is_documented conforms properties_of encode_payload is_object has_properties
        are_properties is_property get_entries
    get_entries-Listed r = >>=-Closes _ _ _ (authenticate-Steps s _ r (λ _. refl)) (λ user_id.
        >>=-Closes _ _ _ (need-Steps _ _ _ refl _) (λ account_id.
          >>=-Closes _ _ _ (authorize-Steps s _ _ _ _ (λ _. refl) (λ _. refl)) (λ acc.
            >>-Closes _ _ _ (refuse_if-Steps _ _ _ refl _) (
              >>=-Closes _ _ _ (call-Steps _ _ _ (λ e. refl)) (λ entries. λ w.
                entries-Listed time_text
                  (map (to_entry_response b.uuid_string zero_time) entries))))))

    get_transactions-Listed :
        (r : Request s) → Closes (lists transactions_route) (get_transactions s r)
    unfolding is_documented conforms properties_of encode_payload is_object has_properties
        are_properties is_property get_transactions
    get_transactions-Listed r = >>=-Closes _ _ _ (authenticate-Steps s _ r (λ _. refl)) (λ user_id.
        >>=-Closes _ _ _ (need-Steps _ _ _ refl _) (λ transaction_id.
          >>=-Closes _ _ _ (call-Steps _ _ _ (λ e. refl)) (λ entries.
            >>-Closes _ _ _ (refuse_if-Steps _ _ _ refl _) (
              >>=-Closes _ _ _ (authorized_by-Steps s _ user_id entries (λ _. refl)) (λ authorized.
                >>-Closes _ _ _ (refuse_if-Steps _ _ _ refl _) (λ w.
                  transaction-Listed time_text
                    (map (to_entry_response b.uuid_string zero_time) entries)))))))

    pub handler-Listed : (e : Endpoint) (r : Request s) → Closes (lists e) (handler s e r)
    handler-Listed register_route r = register-Listed r
    handler-Listed login_route r = login-Listed r
    handler-Listed create_account_route r = create_account_handler-Listed r
    handler-Listed list_accounts_route r = list_accounts-Listed r
    handler-Listed get_account_route r = get_account_handler-Listed r
    handler-Listed deposit_route r = deposit_handler-Listed r
    handler-Listed withdraw_route r = withdraw_handler-Listed r
    handler-Listed transfer_route r = transfer_handler-Listed r
    handler-Listed entries_route r = get_entries-Listed r
    handler-Listed reconcile_route r = reconcile_handler-Listed r
    handler-Listed transactions_route r = get_transactions-Listed r
