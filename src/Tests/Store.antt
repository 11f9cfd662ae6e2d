-- ===== src/Tests/Store.antt =====
-- The waiting of transactions, at the small bank and at one that meets two conflicts.
use double_entry_bank_go.Base.{◌+◌, ◌≤◌, ◌≡◌, ◌↔◌, none, some, ltb, if◌then◌else◌}
use double_entry_bank_go.Errors.{SqlError}
use double_entry_bank_go.Int.{pos}
use double_entry_bank_go.World.{Backend, Action}
use double_entry_bank_go.Store.{exec_tx}
use double_entry_bank_go.Store.Protocol.{Protocol, exec_tx_iff}
use double_entry_bank_go.Service.{deposit_tx, deposit, withdraw, transfer}
use double_entry_bank_go.Service.Waiting.{movements_wait}
use double_entry_bank_go.Tests.Bank.{backend, bank}

-- The first three calls meet a serialization failure.
abbrev busy : Backend
busy = record backend { fault = λ n. if ltb n 3 then some (SqlError.pq "40001") else none }

abbrev paying_in : Action (Unit {0})
paying_in = deposit_tx busy 1 (pos 20)

exec_tx_iff_example :
    (exec_tx busy paying_in bank ≡ exec_tx busy paying_in bank)
    ↔ Protocol busy paying_in 0 bank (exec_tx busy paying_in bank)
exec_tx_iff_example = exec_tx_iff busy paying_in bank (exec_tx busy paying_in bank)

movements_wait_example :
    ((deposit backend 1 "+xx" bank).1.slept ≤ 0 + 5550)
    × ((withdraw backend 1 "+xx" bank).1.slept ≤ 0 + 5550)
    × ((transfer backend 1 2 "+xx" bank).1.slept ≤ 0 + 5550)
movements_wait_example = movements_wait backend 1 2 "+xx" bank
