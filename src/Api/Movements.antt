-- ===== src/Api/Movements.antt =====
-- internal/api/handler.go: Deposit, Withdraw, Transfer and ReconcileAccount.
use double_entry_bank_go.Base.{ℕ, ◌||◌, ◌==◌, String, str_eq, if◌then◌else◌}
use double_entry_bank_go.Errors.{
  GoError, insufficient_funds, invalid_amount, currency_mismatch, errors_is,
}
use double_entry_bank_go.Text.{trim_space}
use double_entry_bank_go.Service
use double_entry_bank_go.Api.Json.{null, fields, text_field, any_field}
use double_entry_bank_go.Api.Amount.{normalize_amount_input, decode_amount_from_body}
use double_entry_bank_go.Api.Reply.{Reply, respond_error, message_response, reconcile_response}
use double_entry_bank_go.Api.Handling.{
  Ending, ◌>>=◌, ◌>>◌, respond, refuse_if, need, call, Server, Request, text_of, authenticate,
  authorize,
}

-- The status for an error of `Deposit`, and of `Withdraw`.
unfoldable pub deposit_status : GoError → ℕ
deposit_status e = if errors_is e invalid_amount || errors_is e currency_mismatch then 400 else 500

unfoldable pub withdraw_status : GoError → ℕ
withdraw_status e =
    if errors_is e insufficient_funds || errors_is e invalid_amount || errors_is e currency_mismatch
    then 400
    else 500

-- The two names of a field: the older one counts where the newer one is blank.
unfoldable pub either_field : String → String → String
either_field new old = if str_eq (trim_space new) "" then trim_space old else trim_space new

abbrev done : String → Reply
done text = record { status = 200; body = message_response text }

module _ (s : Server) where
  open s use {backend as b}

  unfoldable pub deposit_handler : Request s → Ending
  deposit_handler r = do
    user_id ← authenticate s r
    account_id ← need (b.uuid_parse r.id) 400 "invalid account ID"
    _ ← authorize s user_id account_id "account not found"
    amount ← need (decode_amount_from_body r.body) 400 "invalid input"
    call (Service.deposit b account_id amount) (λ e. respond_error (deposit_status e) (text_of s e))
    respond (done "deposit successful")

  unfoldable pub withdraw_handler : Request s → Ending
  withdraw_handler r = do
    user_id ← authenticate s r
    account_id ← need (b.uuid_parse r.id) 400 "invalid account ID"
    _ ← authorize s user_id account_id "account not found"
    amount ← need (decode_amount_from_body r.body) 400 "invalid input"
    call (Service.withdraw b account_id amount)
        (λ e. respond_error (withdraw_status e) (text_of s e))
    respond (done "withdrawal successful")

  unfoldable pub transfer_handler : Request s → Ending
  transfer_handler r = do
    user_id ← authenticate s r
    ps ← need (fields r.body) 400 "invalid input"
    from_id ← need (text_field "from_id" "" ps) 400 "invalid input"
    to_id ← need (text_field "to_id" "" ps) 400 "invalid input"
    from_account_id ← need (text_field "from_account_id" "" ps) 400 "invalid input"
    to_account_id ← need (text_field "to_account_id" "" ps) 400 "invalid input"
    let from_raw = either_field from_id from_account_id
    let to_raw = either_field to_id to_account_id
    refuse_if (str_eq from_raw "") 400 "from_id (or from_account_id) is required"
    refuse_if (str_eq to_raw "") 400 "to_id (or to_account_id) is required"
    from ← need (b.uuid_parse from_raw) 400 "invalid from_id format"
    to ← need (b.uuid_parse to_raw) 400 "invalid to_id format"
    refuse_if (from == 0 || to == 0) 400 "from_id and to_id must be valid non-zero UUIDs"
    amount ← need (normalize_amount_input (any_field "amount" null ps)) 400 "invalid input"
    _ ← authorize s user_id from "from account not found"
    call (Service.transfer b from to amount) (λ e. respond_error 400 (text_of s e))
    respond (done "transfer successful")

  unfoldable pub reconcile_handler : Request s → Ending
  reconcile_handler r = do
    user_id ← authenticate s r
    account_id ← need (b.uuid_parse r.id) 400 "invalid account ID"
    _ ← authorize s user_id account_id "account not found"
    matched ← call (Service.reconcile_account b account_id) (λ e. respond_error 500 (text_of s e))
    respond (record {
      status = 200;
      body = reconcile_response matched "Account reconciled successfully";
    })
