-- ===== src/Tests/Total.antt =====
-- The theorems on operations that meet no fault, at the small bank.
use double_entry_bank_go.Base.{◌≡◌, refl, true, false, arith}
use double_entry_bank_go.Int.{pos, negsuc, ◌+ℤ◌, ◌-ℤ◌}
use double_entry_bank_go.Errors.{sentinel, insufficient_funds, ok, err}
use double_entry_bank_go.World.{World}
use double_entry_bank_go.Sqlc.Tables.{fits}
use double_entry_bank_go.Service.{deposit, withdraw, transfer}
use double_entry_bank_go.Service.Guarantees.{IsAmount}
use double_entry_bank_go.Service.Outcome.{Paid}
use double_entry_bank_go.Service.Running.{IsFresh}
use double_entry_bank_go.Service.Total.{deposit_succeeds, withdraw_decides, transfer_decides}
use double_entry_bank_go.Tests.Tally.{tallies_laws, strokes, tally, read, write, round}
use double_entry_bank_go.Tests.Bank.{backend, settlement, account, bank, tables, tables-IsLedger}

-- The ids of the bank's entries are below 24, those that are given out from 100 on.
bank-IsFresh : IsFresh backend bank
bank-IsFresh = record { unused = λ n h. ground arith; distinct = λ m n e. omega arith }

two_strokes : IsAmount backend tallies_laws "+xx" (pos 20)
unfolding strokes tally read write round
two_strokes = (refl, refl)

deposit_succeeds_example :
    (w' : World) × (deposit backend 1 "+xx" bank ≡ (ok tt, w'))
    × Paid 9 1 (tallies_laws.units (pos 20)) (negsuc 7) (pos 5) tables w'.db
unfolding tallies_laws fits round ◌+ℤ◌ ◌-ℤ◌
deposit_succeeds_example =
    deposit_succeeds backend tallies_laws (λ n. refl) "+xx" (pos 20) two_strokes (omega arith) refl
      bank bank-IsFresh tables-IsLedger 1 (account 1 5 5) settlement refl refl (omega arith) refl
      refl refl

withdraw_decides_example :
    (false ≡ true
      → (w' : World) × (withdraw backend 1 "+xx" bank ≡ (err (sentinel insufficient_funds), w'))
        × (w'.db ≡ tables))
    × (false ≡ false
        → true ≡ true
        → true ≡ true
        → (w' : World) × (withdraw backend 1 "+xx" bank ≡ (ok tt, w'))
          × Paid 1 9 (tallies_laws.units (pos 20)) (pos 5) (negsuc 7) tables w'.db)
unfolding tallies_laws fits round read write strokes tally ◌+ℤ◌ ◌-ℤ◌
withdraw_decides_example =
    withdraw_decides backend tallies_laws (λ n. refl) "+xx" (pos 20) two_strokes (omega arith) refl
      bank bank-IsFresh tables-IsLedger 1 (account 1 5 5) settlement refl refl (omega arith) refl
      (pos 50) refl

transfer_decides_example :
    (false ≡ true
      → (w' : World) × (transfer backend 1 2 "+xx" bank ≡ (err (sentinel insufficient_funds), w'))
        × (w'.db ≡ tables))
    × (false ≡ false
        → true ≡ true
        → true ≡ true
        → (w' : World) × (transfer backend 1 2 "+xx" bank ≡ (ok tt, w'))
          × Paid 1 2 (tallies_laws.units (pos 20)) (pos 5) (pos 3) tables w'.db)
unfolding tallies_laws fits round read write strokes tally ◌+ℤ◌ ◌-ℤ◌
transfer_decides_example =
    transfer_decides backend tallies_laws (λ n. refl) "+xx" (pos 20) two_strokes (omega arith) refl
      bank bank-IsFresh tables-IsLedger 1 2 (account 1 5 5) (account 2 6 3) refl refl (omega arith)
      refl (pos 50) refl
