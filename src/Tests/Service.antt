-- ===== src/Tests/Service.antt =====
-- The theorems on the store and the service at the small bank, and runs of the operations.
use double_entry_bank_go.Base.{ℕ, ◌≤◌, ◌≡◌, ◌≢◌, refl, true, arith}
use double_entry_bank_go.Int.{ℤ, pos, negsuc, ◌+ℤ◌, ◌-ℤ◌, negate, ◌≤ℤ◌}
use double_entry_bank_go.Errors.{GoError, sentinel, insufficient_funds, ok, err, as_pq}
use double_entry_bank_go.World.{Action, tick, ◌>>=◌, ◌>>◌, on_error, stop_if, or_fail}
use double_entry_bank_go.Store.{
  exec_tx, attempts, exec_tx_once, is_serialization_error, retry_wait, second,
}
use double_entry_bank_go.Store.Atomic.{AtMostOnce}
use double_entry_bank_go.Store.Retry.{exec_tx-AtMostOnce, exec_tx_refuses}
use double_entry_bank_go.Store.Backoff.{retry_wait_bounds}
use double_entry_bank_go.Sqlc.Tables.{
  fits, entry_check, insert_entry, add_to_balance, calculated_balance, sum_credit, sum_debit,
}
use double_entry_bank_go.Sqlc.Accounts.{
  get_account_for_update, get_settlement_account_for_update, update_account_balance,
}
use double_entry_bank_go.Sqlc.Entries.{create_entry}
use double_entry_bank_go.Service.{
  validate_positive_amount, deposit_tx, deposit, withdraw_tx, withdraw, transfer_tx, transfer,
  reconcile_account,
}
use double_entry_bank_go.Service.Movements.{Deposited, Withdrawn, Transferred}
use double_entry_bank_go.Service.Guarantees.{
  AllOrNothing, IsAmount, deposit-AllOrNothing, withdraw-AllOrNothing, transfer-AllOrNothing,
}
use double_entry_bank_go.Service.Reconcile.{reconcile_compares, reconcile_account_matches}
use double_entry_bank_go.Service.Outcome.{Paid, deposit_pays, withdraw_pays, transfer_pays}
use double_entry_bank_go.Tests.Tally.{tallies_laws, strokes, tally, read, write, round}
use double_entry_bank_go.Tests.Bank.{
  backend, backend-NoLostConflict, settlement, account, bank, tables, tables-IsLedger,
}

-- All that a run of an operation goes through.
run_all : Unit {0}
unfolding ◌>>=◌ ◌>>◌ on_error stop_if or_fail exec_tx attempts exec_tx_once is_serialization_error
    as_pq fits entry_check insert_entry add_to_balance get_account_for_update
    get_settlement_account_for_update update_account_balance create_entry validate_positive_amount
    deposit_tx deposit withdraw_tx withdraw transfer_tx transfer strokes tally read write round ◌+ℤ◌
    ◌-ℤ◌ negate sum_credit sum_debit
run_all = tt

deposit_runs : deposit backend 1 "+xx" bank ≡ (ok tt, (deposit backend 1 "+xx" bank).1)
unfolding run_all
deposit_runs = refl

withdraw_runs : withdraw backend 1 "+xx" bank ≡ (ok tt, (withdraw backend 1 "+xx" bank).1)
unfolding run_all
withdraw_runs = refl

transfer_runs : transfer backend 1 2 "+xxx" bank ≡ (ok tt, (transfer backend 1 2 "+xxx" bank).1)
unfolding run_all
transfer_runs = refl

overdraft_runs : (withdraw backend 2 "+xxxx" bank).0 ≡ err (sentinel insufficient_funds)
unfolding run_all
overdraft_runs = refl

exec_tx-AtMostOnce_example :
    AtMostOnce
      (deposit_tx backend 1 (pos 20))
      tables
      (exec_tx backend (deposit_tx backend 1 (pos 20)) bank)
exec_tx-AtMostOnce_example =
    exec_tx-AtMostOnce backend (deposit_tx backend 1 (pos 20)) bank backend-NoLostConflict

retry_wait_bounds_example :
    (50 ≤ retry_wait 3)
    × (retry_wait 3 ≤ second)
    × (retry_wait 3 ≤ retry_wait 4)
    × (retry_wait 8 ≡ second)
retry_wait_bounds_example = retry_wait_bounds 3

transfer_pays_example :
    (amount : ℤ) × IsAmount backend tallies_laws "+xxx" amount
    × (◌≢◌ {A = ℕ} 1 2)
    × Paid 1 2
        (tallies_laws.units amount)
        (pos 5)
        (pos 3)
        tables
        (transfer backend 1 2 "+xxx" bank).1.db
transfer_pays_example =
    transfer_pays backend tallies_laws backend-NoLostConflict "+xxx" bank
      (transfer backend 1 2 "+xxx" bank).1 tables-IsLedger (pos 5) (pos 3) 1 2 refl refl
      transfer_runs

deposit_pays_example :
    (amount : ℤ) × IsAmount backend tallies_laws "+xx" amount
    × Paid 9 1
        (tallies_laws.units amount)
        (negsuc 7)
        (pos 5)
        tables
        (deposit backend 1 "+xx" bank).1.db
deposit_pays_example =
    deposit_pays backend tallies_laws backend-NoLostConflict "+xx" bank
      (deposit backend 1 "+xx" bank).1 tables-IsLedger (negsuc 7) (pos 5) 1 settlement (omega arith)
      refl refl refl deposit_runs

withdraw_pays_example :
    (amount : ℤ) × IsAmount backend tallies_laws "+xx" amount
    × (tallies_laws.units amount ≤ℤ pos 5)
    × Paid 1 9
        (tallies_laws.units amount)
        (pos 5)
        (negsuc 7)
        tables
        (withdraw backend 1 "+xx" bank).1.db
withdraw_pays_example =
    withdraw_pays backend tallies_laws backend-NoLostConflict "+xx" bank
      (withdraw backend 1 "+xx" bank).1 tables-IsLedger (pos 5) (negsuc 7) 1 settlement
      (omega arith) refl refl refl withdraw_runs

deposit-AllOrNothing_example :
    AllOrNothing
      (λ x y.
        (a : ℤ) × IsAmount backend tallies_laws "+xx" a × Deposited backend tallies_laws 1 a x y)
      tables
      (deposit backend 1 "+xx" bank)
deposit-AllOrNothing_example =
    deposit-AllOrNothing backend tallies_laws 1 "+xx" bank backend-NoLostConflict

withdraw-AllOrNothing_example :
    AllOrNothing
      (λ x y.
        (a : ℤ) × IsAmount backend tallies_laws "+xx" a × Withdrawn backend tallies_laws 1 a x y)
      tables
      (withdraw backend 1 "+xx" bank)
withdraw-AllOrNothing_example =
    withdraw-AllOrNothing backend tallies_laws 1 "+xx" bank backend-NoLostConflict

transfer-AllOrNothing_example :
    AllOrNothing
      (λ x y.
        (a : ℤ) × IsAmount backend tallies_laws "+xxx" a
        × Transferred backend tallies_laws 1 2 a x y)
      tables
      (transfer backend 1 2 "+xxx" bank)
transfer-AllOrNothing_example =
    transfer-AllOrNothing backend tallies_laws 1 2 "+xxx" bank backend-NoLostConflict

reconcile_compares_example :
    ((◌≡◌ {A = ℤ} (pos 5) (calculated_balance 1 tables.entries))
      → reconcile_account backend 1 bank ≡ (ok true, tick (tick bank)))
    × ((◌≢◌ {A = ℤ} (pos 5) (calculated_balance 1 tables.entries))
        → (e : GoError) × (reconcile_account backend 1 bank ≡ (err e, tick (tick bank))))
unfolding fits sum_credit sum_debit ◌-ℤ◌ ◌+ℤ◌
reconcile_compares_example =
    reconcile_compares backend tallies_laws 1 bank (account 1 5 5) refl refl refl refl

reconcile_account_matches_example : reconcile_account backend 2 bank ≡ (ok true, tick (tick bank))
reconcile_account_matches_example =
    reconcile_account_matches backend tallies_laws 2 bank (account 2 6 3) tables-IsLedger refl refl
      refl

-- A body that overdraws account 2: BEGIN, two reads, then the refusal.
abbrev overdraft : Action (Unit {0})
overdraft = withdraw_tx backend 2 (pos 40)

overdraft_refused :
    overdraft (tick bank) ≡ (err (sentinel insufficient_funds), tick (tick (tick bank)))
unfolding run_all
overdraft_refused = refl

exec_tx_refuses_example :
    exec_tx backend overdraft bank ≡ (err (sentinel insufficient_funds), record bank { calls = 4 })
unfolding is_serialization_error as_pq
exec_tx_refuses_example =
    exec_tx_refuses backend overdraft bank (tick (tick (tick bank))) (sentinel insufficient_funds)
      refl overdraft_refused refl refl

abbrev paying_in : Action (Unit {0})
paying_in = deposit_tx backend 1 (pos 20)

paid_in : paying_in (tick bank) ≡ (ok tt, (paying_in (tick bank)).1)
unfolding run_all
paid_in = refl
