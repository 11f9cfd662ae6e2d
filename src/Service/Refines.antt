-- ===== src/Service/Refines.antt =====
-- Histories of calls, against the steps of the bank.
use double_entry_bank_go.Base.{
  ◌≡◌, ◌≢◌, refl, sym, ap, subst, String, ==_iff, ◌==◌, inl, inr, List, [], ◌∷◌, Bool-cases, arith,
}
use double_entry_bank_go.Int.{◌≤ℤ◌, pos}
use double_entry_bank_go.Money.{DecimalLaws}
use double_entry_bank_go.Errors.{ok, err, Result}
use double_entry_bank_go.World.{AccountRow, Uuid, Db, World, Backend, Time}
use double_entry_bank_go.Sqlc.Models.{Account, CreateAccountParams, CreateUserParams, CreateUserRow}
use double_entry_bank_go.Sqlc.Tables.{is_settlement}
use double_entry_bank_go.Sqlc.Lookup.{balance_of}
use double_entry_bank_go.Sqlc.Accounts.{insert_account, run_create, create_account}
use double_entry_bank_go.Sqlc.Users.{insert_user, run_register, create_user}
use double_entry_bank_go.Service.{deposit, withdraw, transfer, deposit_tx, withdraw_tx, transfer_tx}
use double_entry_bank_go.Service.Invariant.{IsLedger}
use double_entry_bank_go.Service.Outcome.{debit-Paid, credit-Paid}
use double_entry_bank_go.Service.Movements.{
  Deposited, Withdrawn, Transferred, deposit_tx-Deposited, withdraw_tx-Withdrawn,
  transfer_tx-Transferred,
}
use double_entry_bank_go.Service.Solvent.{
  Deposited-IsLedger, Withdrawn-IsLedger, Transferred-IsLedger,
}
use double_entry_bank_go.Service.Guarantees.{op-keeps, deposit-Runs, withdraw-Runs, transfer-Runs}
use double_entry_bank_go.Service.Ready.{find-find_account}
use double_entry_bank_go.Service.History.{
  Call, register, open_account, deposits, withdraws, transfers, perform, history, statement-keeps,
  insert_account-eq-ok, run_create-IsLedger, run_register-IsLedger,
}
use double_entry_bank_go.Service.Bank.{
  Book, book, id_of, Step, stays, Trace, unchanged, after, Paid-Step, Posted_house, Posted_same,
  opened-Step,
}

module _ (b : Backend) (laws : DecimalLaws b.decimals) where
  open b use {decimals as d}
  open laws use {units}

  module _ (amount : d.Decimal) (db db' : Db) (positive : pos 0 ≤ℤ units amount)
      (l : IsLedger db) where
    Deposited-Step :
        (id : Uuid)
        → Deposited b laws id amount db db'
        → Step (book db.accounts) (book db'.accounts)
    Deposited-Step id m = elim (Bool-cases (id == m.settlement.id)) [
      | inl same ↦
          stays
            (Posted_same id m.settlement.id _ _ db db' m.posted m.account.balance
              ((==_iff id m.settlement.id).0 same) (ap balance_of m.found))
            (Posted_house id m.settlement.id _ _ db db' m.posted)
      | inr other ↦
          let ne : id ≢ m.settlement.id = λ e. let t = (==_iff id m.settlement.id).1 e in cc in
          let eu = ap balance_of (find-find_account is_settlement db.accounts l.keyed m.settled) in
          let ev = ap balance_of m.found in
          Paid-Step m.settlement.id id (units amount) m.settlement.balance m.account.balance db db'
            (λ e. ne (sym e)) positive (inr (ap id_of m.settled)) eu ev
            (Posted_house id m.settlement.id _ _ db db' m.posted)
            (credit-Paid id m.settlement.id (units amount) _ _ db db' l ne ev eu m.posted)
    ]

    Withdrawn-Step :
        (id : Uuid)
        → Withdrawn b laws id amount db db'
        → Step (book db.accounts) (book db'.accounts)
    Withdrawn-Step id m = elim (Bool-cases (id == m.settlement.id)) [
      | inl same ↦
          stays
            (Posted_same id m.settlement.id _ _ db db' m.posted m.account.balance
              ((==_iff id m.settlement.id).0 same) (ap balance_of m.found))
            (Posted_house id m.settlement.id _ _ db db' m.posted)
      | inr other ↦
          let ne : id ≢ m.settlement.id = λ e. let t = (==_iff id m.settlement.id).1 e in cc in
          let ev = ap balance_of (find-find_account is_settlement db.accounts l.keyed m.settled) in
          let eu = ap balance_of m.found in
          Paid-Step id m.settlement.id (units amount) m.account.balance m.settlement.balance db db'
            ne positive (inl m.covered) eu ev (Posted_house id m.settlement.id _ _ db db' m.posted)
            (debit-Paid id m.settlement.id (units amount) _ _ db db' l ne eu ev m.posted)
    ]

    Transferred-Step :
        (from_id to_id : Uuid)
        → Transferred b laws from_id to_id amount db db'
        → Step (book db.accounts) (book db'.accounts)
    Transferred-Step from_id to_id m = elim (Bool-cases (from_id == to_id)) [
      | inl same ↦
          stays
            (Posted_same from_id to_id _ _ db db' m.posted m.sender.balance
              ((==_iff from_id to_id).0 same) (ap balance_of m.found))
            (Posted_house from_id to_id _ _ db db' m.posted)
      | inr other ↦
          let ne : from_id ≢ to_id = λ e. let t = (==_iff from_id to_id).1 e in cc in
          let eu = ap balance_of m.found in
          let ev = ap balance_of m.found_to in
          Paid-Step from_id to_id (units amount) m.sender.balance m.receiver.balance db db' ne
            positive (inl m.covered) eu ev (Posted_house from_id to_id _ _ db db' m.posted)
            (debit-Paid from_id to_id (units amount) _ _ db db' l ne eu ev m.posted)
    ]

  -- What is kept: the tables are a ledger, and the bank has come there by its steps.
  module _ (from : Book) where
    abbrev Traced : Db → Type 0
    Traced db = IsLedger db × Trace from (book db.accounts)

    deposit-Traced :
        (id : Uuid) (text : String) (w : World) → Traced w.db → Traced (deposit b id text w).1.db
    deposit-Traced id text w =
        op-keeps b laws (deposit b id text) (deposit_tx b id) text (Deposited b laws id)
          (λ a w0 w1. deposit_tx-Deposited b laws id a w0) Traced w (deposit-Runs b laws id text w)
          (λ a x y positive (l, t) m. (
            Deposited-IsLedger b laws {amount = a} positive l id m,
            after t (Deposited-Step a x y positive l id m),
          ))

    withdraw-Traced :
        (id : Uuid) (text : String) (w : World) → Traced w.db → Traced (withdraw b id text w).1.db
    withdraw-Traced id text w =
        op-keeps b laws (withdraw b id text) (withdraw_tx b id) text (Withdrawn b laws id)
          (λ a w0 w1. withdraw_tx-Withdrawn b laws id a w0) Traced w
          (withdraw-Runs b laws id text w)
          (λ a x y positive (l, t) m. (
            Withdrawn-IsLedger b laws {amount = a} positive l id m,
            after t (Withdrawn-Step a x y positive l id m),
          ))

    transfer-Traced :
        (from_id to_id : Uuid) (text : String) (w : World)
        → Traced w.db
        → Traced (transfer b from_id to_id text w).1.db
    transfer-Traced from_id to_id text w =
        op-keeps b laws (transfer b from_id to_id text) (transfer_tx b from_id to_id) text
          (Transferred b laws from_id to_id)
          (λ a w0 w1. transfer_tx-Transferred b laws from_id to_id a w0) Traced w
          (transfer-Runs b laws from_id to_id text w)
          (λ a x y positive (l, t) m. (
            Transferred-IsLedger b laws {amount = a} positive l from_id to_id m,
            after t (Transferred-Step a x y positive l from_id to_id m),
          ))

    register-Traced :
        (arg : CreateUserParams) (id : Uuid) (now : Time) (db db' : Db) (u : CreateUserRow)
        → Traced db
        → run_register arg id now db ≡ ok (u, db')
        → Traced db'
    unfolding insert_user
    register-Traced arg id now db db' u (l, t) h =
        let same : db.accounts ≡ db'.accounts = ground arith in
        (
          run_register-IsLedger arg id now db db' u l h,
          subst (λ rows. Trace from (book rows)) same t,
        )

    open_account-Traced :
        (arg : CreateAccountParams) (id : Uuid) (now : Time) (db db' : Db) (a : Account)
        → Traced db
        → run_create d arg id now db ≡ ok (a, db')
        → Traced db'
    open_account-Traced arg id now db db' a (l, t) h =
        (run_create-IsLedger d arg id now db db' a l h, go (insert_account arg id now db) refl)
      where
        go :
            (r : Result (AccountRow × Db))
            → insert_account arg id now db ≡ r
            → Trace from (book db'.accounts)
        go (err e) same = absurd (ground arith)
        go (ok (row, db1)) same =
            let (new, empty, stored) = insert_account-eq-ok arg id now db same in
            let rows : row ∷ db.accounts ≡ db'.accounts = ground arith in
            subst (λ rows. Trace from (book rows)) rows
              (after t (opened-Step row db.accounts new empty))

    perform-Traced : (c : Call) (w : World) → Traced w.db → Traced (perform b c w).db
    unfolding perform create_user create_account
    perform-Traced (register arg) w h =
        statement-keeps b (λ n db. run_register arg (b.new_uuid n) (b.now n) db) Traced
          (λ n db db' u. register-Traced arg (b.new_uuid n) (b.now n) db db' u) w h
    perform-Traced (open_account arg) w h =
        statement-keeps b (λ n db. run_create d arg (b.new_uuid n) (b.now n) db) Traced
          (λ n db db' a. open_account-Traced arg (b.new_uuid n) (b.now n) db db' a) w h
    perform-Traced (deposits id text) w h = deposit-Traced id text w h
    perform-Traced (withdraws id text) w h = withdraw-Traced id text w h
    perform-Traced (transfers from_id to_id text) w h = transfer-Traced from_id to_id text w h

    history-Traced : (cs : List Call) (w : World) → Traced w.db → Traced (history b cs w).db
    unfolding history
    history-Traced [] w h = h
    history-Traced (c ∷ cs) w h = history-Traced cs (perform b c w) (perform-Traced c w h)

  -- After any history of registrations, new accounts, deposits, withdrawals and transfers, from
  -- tables that satisfy the invariant, the balances are those of a bank that has only opened
  -- accounts at zero and made payments between two accounts, of amounts that are not negative, each
  -- affordable for its payer unless that is the settlement account. The database may answer any
  -- call with an error, and lose the answer of any COMMIT.
  pub history-Trace :
      (cs : List Call) (w : World)
      → IsLedger w.db
      → Trace (book w.db.accounts) (book (history b cs w).db.accounts)
  history-Trace cs w l = (history-Traced (book w.db.accounts) cs w (l, unchanged)).1
