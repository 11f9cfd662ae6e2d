-- ===== src/Errors.antt =====
-- Go's errors as values: the sentinels of internal/service/ledger.go, what the database and the
-- context report, and the chains that `fmt.Errorf` builds with `%w`.
use double_entry_bank_go.Base.{Bool, true, false, String, ◌<>◌, Option, none, some}

-- An error of the driver: a `*pq.Error` with its SQLSTATE, or any other, such as a lost connection.
pub data SqlError : Type 0 where
  pq other : String → SqlError

-- The error variables of the service.
pub data Sentinel : Type 0 where
  insufficient_funds same_account_transfer invalid_amount currency_mismatch account_not_found :
      Sentinel

pub data GoError : Type 0 where
  sentinel : Sentinel → GoError
  -- `sql.ErrNoRows`
  no_rows : GoError
  database : SqlError → GoError
  -- `ctx.Err()`
  context_done : GoError
  -- `errors.New`, or `fmt.Errorf` with no `%w`.
  message : String → GoError
  -- `fmt.Errorf("text: %w", err)`
  wrap : String → GoError → GoError
  -- `fmt.Errorf("tx failed: %w, rollback failed: %v", err, rbErr)`
  tx_failed : GoError → GoError → GoError
  -- The nil that a `var err error` holds before it is set.
  nil_error : GoError

pub data Result {ℓ} (A : Type ℓ) : Type ℓ where
  ok : A → Result A
  err : GoError → Result A

infixl 5 ◌>>=◌ ◌>>◌
-- Stop with the error if the test fails.
abbrev pub require : Bool → GoError → Result (Unit {0})
require true e = ok tt
require false e = err e

-- `if err != nil { return err }`
abbrev pub ◌>>=◌ : {A B : Type 0} → Result A → (A → Result B) → Result B
ok value >>= next = next value
err failure >>= next = err failure

abbrev pub ◌>>◌ : {B : Type 0} → Result (Unit {0}) → Result B → Result B
checked >> rest = checked >>= λ _. rest

abbrev same_sentinel : Sentinel → Sentinel → Bool
same_sentinel insufficient_funds insufficient_funds = true
same_sentinel same_account_transfer same_account_transfer = true
same_sentinel invalid_amount invalid_amount = true
same_sentinel currency_mismatch currency_mismatch = true
same_sentinel account_not_found account_not_found = true
same_sentinel _ _ = false

-- `errors.Is`, which follows `%w`.
unfoldable pub errors_is : GoError → Sentinel → Bool
errors_is (sentinel s) t = same_sentinel s t
errors_is (wrap _ e) t = errors_is e t
errors_is (tx_failed e _) t = errors_is e t
errors_is _ _ = false

-- `errors.As` with a target of type `*pq.Error`: the SQLSTATE of the first one in the chain.
unfoldable pub as_pq : GoError → Option String
as_pq (database (pq state)) = some state
as_pq (wrap _ e) = as_pq e
as_pq (tx_failed e _) = as_pq e
as_pq _ = none

abbrev sentinel_text : Sentinel → String
sentinel_text insufficient_funds = "insufficient funds"
sentinel_text same_account_transfer = "cannot transfer to the same account"
sentinel_text invalid_amount = "amount must be positive"
sentinel_text currency_mismatch = "currency mismatch"
sentinel_text account_not_found = "account not found"

-- `err.Error()`, given the texts of the driver's and the context's errors.
unfoldable pub error_text : (SqlError → String) → String → GoError → String
error_text sql ctx (sentinel s) = sentinel_text s
error_text sql ctx no_rows = "sql: no rows in result set"
error_text sql ctx (database e) = sql e
error_text sql ctx context_done = ctx
error_text sql ctx (message t) = t
error_text sql ctx (wrap t e) = t <> ": " <> error_text sql ctx e
error_text sql ctx (tx_failed e r) =
    "tx failed: " <> error_text sql ctx e <> ", rollback failed: " <> error_text sql ctx r
error_text sql ctx nil_error = "%!w(<nil>)"
