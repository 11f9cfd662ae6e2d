-- ===== src/Tests/History.antt =====
-- A history of the small bank, as the abstract bank sees it.
use double_entry_bank_go.Base.{[], ◌∷◌}
use double_entry_bank_go.Service.History.{deposits, withdraws, transfers, history}
use double_entry_bank_go.Service.Bank.{Trace, book}
use double_entry_bank_go.Service.Refines.{history-Trace}
use double_entry_bank_go.Tests.Tally.{tallies_laws}
use double_entry_bank_go.Tests.Bank.{backend, bank, tables, tables-IsLedger}

history-Trace_example : Trace (book tables.accounts) (
    book
      (history backend
        (deposits 1 "+xx" ∷ transfers 1 2 "+xxxxxx" ∷ withdraws 2 "+xxx" ∷ [])
        bank).db.accounts)
history-Trace_example =
    history-Trace backend tallies_laws
      (deposits 1 "+xx" ∷ transfers 1 2 "+xxxxxx" ∷ withdraws 2 "+xxx" ∷ []) bank tables-IsLedger
