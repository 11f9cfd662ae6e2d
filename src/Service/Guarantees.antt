-- ===== src/Service/Guarantees.antt =====
-- What `Deposit`, `Withdraw` and `Transfer` promise, whatever the database answers.
use double_entry_bank_go.Base.{
  ◌≡◌, ◌⊎◌, refl, sym, subst, false, some, String, inl, inr, ◌==◌, arith, Bool-cases, Option-cases,
}
use double_entry_bank_go.Int.{pos, ◌≤ℤ◌}
use double_entry_bank_go.Money.{DecimalLaws}
use double_entry_bank_go.Errors.{
  GoError, sentinel, invalid_amount, same_account_transfer, Result, ok, err,
}
use double_entry_bank_go.World.{Uuid, Db, World, Backend, Action}
use double_entry_bank_go.Store.{exec_tx}
use double_entry_bank_go.Store.Atomic.{AtMostOnce, NoLostConflict}
use double_entry_bank_go.Store.Retry.{exec_tx-AtMostOnce, exec_tx-keeps}
use double_entry_bank_go.Service.{
  validate_positive_amount, deposit_tx, withdraw_tx, transfer_tx, deposit, withdraw, transfer,
}
use double_entry_bank_go.Service.Invariant.{IsLedger}
use double_entry_bank_go.Service.Movements.{
  Deposited, Withdrawn, Transferred, deposit_tx-Deposited, withdraw_tx-Withdrawn,
  transfer_tx-Transferred,
}
use double_entry_bank_go.Service.Solvent.{
  Deposited-IsLedger, Withdrawn-IsLedger, Transferred-IsLedger,
}

-- After success the movement has been made; after an error it has been made or nothing has changed
-- (a COMMIT whose answer is lost may have been carried out).
abbrev pub AllOrNothing : (Db → Db → Type 0) → Db → Result (Unit {0}) × World → Type 0
AllOrNothing Moved before (ok _, w) = Moved before w.db
AllOrNothing Moved before (err _, w) = (w.db ≡ before) ⊎ Moved before w.db

module _ (b : Backend) (laws : DecimalLaws b.decimals) where
  open b use {decimals as d}
  open laws use {units}

  -- The text is read as a positive amount.
  abbrev pub IsAmount : String → d.Decimal → Type 0
  IsAmount text amount =
      (d.new_from_string text ≡ some amount) × (d.less_than_or_equal amount d.zero ≡ false)

  pub validate_cases :
      (text : String)
      → (validate_positive_amount d text ≡ err (sentinel invalid_amount))
        ⊎ ((amount : d.Decimal) × (validate_positive_amount d text ≡ ok amount)
            × IsAmount text amount
            × (pos 0 ≤ℤ units amount))
  unfolding validate_positive_amount
  validate_cases text = elim (Option-cases (d.new_from_string text)) [
    | inl bad ↦ inl (ground arith)
    | inr (amount, read) ↦ elim (Bool-cases (d.less_than_or_equal amount d.zero)) [
      | inl small ↦ inl (ground arith)
      | inr positive ↦ inr (
        amount,
        ground arith,
        (read, positive),
        subst (λ z. z ≤ℤ units amount) laws.units-zero
            (laws.units-less_than_or_equal amount d.zero positive),
      )
    ]
  ]

  AtMostOnce-AllOrNothing :
      (fn : World → Result (Unit {0}) × World) (Moved : Db → Db → Type 0)
      → ((w0 w1 : World) → fn w0 ≡ (ok tt, w1) → Moved w0.db w1.db)
      → (before : Db) (p : Result (Unit {0}) × World) → AtMostOnce fn before p
      → AllOrNothing Moved before p
  AtMostOnce-AllOrNothing fn Moved moves before (ok _, w) (w0, w1, same, ran, here) =
      subst (λ x. Moved x w.db) same (subst (Moved w0.db) (sym here) (moves w0 w1 ran))
  AtMostOnce-AllOrNothing fn Moved moves before (err e, w) (inl undone) = inl undone
  AtMostOnce-AllOrNothing fn Moved moves before (err e, w) (inr (w0, w1, same, ran, here)) =
      inr (subst (λ x. Moved x w.db) same (subst (Moved w0.db) (sym here) (moves w0 w1 ran)))

  -- The three operations have one shape: refused before the transaction, or one transaction.
  module _ (op : Action (Unit {0})) (fn : d.Decimal → Action (Unit {0})) (text : String)
      (Moved : d.Decimal → Db → Db → Type 0)
      (moves : (a : d.Decimal) (w0 w1 : World) → fn a w0 ≡ (ok tt, w1) → Moved a w0.db w1.db) where
    abbrev pub Runs : World → Type 0
    Runs w =
        ((e : GoError) × (op w ≡ (err e, w)))
        ⊎ ((a : d.Decimal) × IsAmount text a × (pos 0 ≤ℤ units a) × (op w ≡ exec_tx b (fn a) w))

    abbrev Made : Db → Db → Type 0
    Made x y = (a : d.Decimal) × IsAmount text a × Moved a x y

    op-AllOrNothing : (w : World) → Runs w → NoLostConflict b → AllOrNothing Made w.db (op w)
    op-AllOrNothing w (inl (e, refused)) safe =
        subst (AllOrNothing Made w.db) (sym refused) (inl refl)
    op-AllOrNothing w (inr (a, is, _, run)) safe = subst (AllOrNothing Made w.db) (sym run) (
        AtMostOnce-AllOrNothing (fn a) Made (λ w0 w1 ran. (a, is, moves a w0 w1 ran)) w.db
          (exec_tx b (fn a) w) (exec_tx-AtMostOnce b (fn a) w safe))

    -- What every movement keeps, the operation keeps.
    pub op-keeps :
        (Inv : Db → Type 0) (w : World)
        → Runs w
        → ((a : d.Decimal) (x y : Db) → pos 0 ≤ℤ units a → Inv x → Moved a x y → Inv y)
        → Inv w.db
        → Inv (op w).1.db
    op-keeps Inv w (inl (e, refused)) keeps h = subst (λ p. Inv p.1.db) (sym refused) h
    op-keeps Inv w (inr (a, is, positive, run)) keeps h =
        subst (λ p. Inv p.1.db) (sym run)
          (exec_tx-keeps b (fn a) Inv
            (λ w0 w1 k ran. keeps a w0.db w1.db positive k (moves a w0 w1 ran)) w h)

  pub deposit-Runs :
      (id : Uuid) (text : String) (w : World)
      → Runs
          (deposit b id text)
          (deposit_tx b id)
          text
          (Deposited b laws id)
          (λ a w0 w1. deposit_tx-Deposited b laws id a w0)
          w
  unfolding deposit
  deposit-Runs id text w = elim (validate_cases text) [
    | inl bad ↦ inl (sentinel invalid_amount, rw (bad, deposit))
    | inr (amount, good, is, positive) ↦ inr (amount, is, positive, rw (good, deposit))
  ]

  -- A deposit that succeeds has read its amount as a positive number, and has found the settlement
  -- account and the account in one currency; its whole effect on the tables is one posted movement,
  -- of the rounded amount, which credits the account and debits the settlement account. A deposit
  -- that fails has changed nothing, unless the answer of its COMMIT was lost. It is assumed that a
  -- COMMIT refused by a serialization failure is not carried out.
  pub deposit-AllOrNothing :
      (id : Uuid) (text : String) (w : World)
      → NoLostConflict b
      → AllOrNothing
          (λ x y. (amount : d.Decimal) × IsAmount text amount × Deposited b laws id amount x y)
          w.db
          (deposit b id text w)
  deposit-AllOrNothing id text w =
      op-AllOrNothing (deposit b id text) (deposit_tx b id) text (Deposited b laws id)
        (λ a w0 w1. deposit_tx-Deposited b laws id a w0) w (deposit-Runs id text w)

  -- A deposit keeps the ledger's invariant, whatever its result and whatever the database answers.
  pub deposit-IsLedger :
      (id : Uuid) (text : String) (w : World) → IsLedger w.db → IsLedger (deposit b id text w).1.db
  deposit-IsLedger id text w =
      op-keeps (deposit b id text) (deposit_tx b id) text (Deposited b laws id)
        (λ a w0 w1. deposit_tx-Deposited b laws id a w0) IsLedger w (deposit-Runs id text w)
        (λ a x y positive k. Deposited-IsLedger b laws {amount = a} positive k id)

  pub withdraw-Runs :
      (id : Uuid) (text : String) (w : World)
      → Runs
          (withdraw b id text)
          (withdraw_tx b id)
          text
          (Withdrawn b laws id)
          (λ a w0 w1. withdraw_tx-Withdrawn b laws id a w0)
          w
  unfolding withdraw
  withdraw-Runs id text w = elim (validate_cases text) [
    | inl bad ↦ inl (sentinel invalid_amount, rw (bad, withdraw))
    | inr (amount, good, is, positive) ↦ inr (amount, is, positive, rw (good, withdraw))
  ]

  -- A withdrawal that succeeds has read its amount as a positive number, has found the settlement
  -- account and the account in one currency, and the account covered the rounded amount; its whole
  -- effect is one posted movement, which debits the account and credits the settlement account. A
  -- withdrawal that fails has changed nothing, unless the answer of its COMMIT was lost. It is
  -- assumed that a COMMIT refused by a serialization failure is not carried out.
  pub withdraw-AllOrNothing :
      (id : Uuid) (text : String) (w : World)
      → NoLostConflict b
      → AllOrNothing
          (λ x y. (amount : d.Decimal) × IsAmount text amount × Withdrawn b laws id amount x y)
          w.db
          (withdraw b id text w)
  withdraw-AllOrNothing id text w =
      op-AllOrNothing (withdraw b id text) (withdraw_tx b id) text (Withdrawn b laws id)
        (λ a w0 w1. withdraw_tx-Withdrawn b laws id a w0) w (withdraw-Runs id text w)

  -- A withdrawal keeps the ledger's invariant, whatever its result and whatever the database
  -- answers; so no account but the settlement account is ever overdrawn by one.
  pub withdraw-IsLedger :
      (id : Uuid) (text : String) (w : World) → IsLedger w.db → IsLedger (withdraw b id text w).1.db
  withdraw-IsLedger id text w =
      op-keeps (withdraw b id text) (withdraw_tx b id) text (Withdrawn b laws id)
        (λ a w0 w1. withdraw_tx-Withdrawn b laws id a w0) IsLedger w (withdraw-Runs id text w)
        (λ a x y positive k. Withdrawn-IsLedger b laws {amount = a} positive k id)

  pub transfer-Runs :
      (from_id to_id : Uuid) (text : String) (w : World)
      → Runs
          (transfer b from_id to_id text)
          (transfer_tx b from_id to_id)
          text
          (Transferred b laws from_id to_id)
          (λ a w0 w1. transfer_tx-Transferred b laws from_id to_id a w0)
          w
  unfolding transfer
  transfer-Runs from_id to_id text w = elim (validate_cases text) [
    | inl bad ↦ inl (sentinel invalid_amount, rw (bad, transfer))
    | inr (amount, good, is, positive) ↦ elim (Bool-cases (from_id == to_id)) [
      | inl same ↦ inl (sentinel same_account_transfer, rw (good, same, transfer))
      | inr other ↦ inr (amount, is, positive, rw (good, other, transfer))
    ]
  ]

  -- A transfer that succeeds has read its amount as a positive number, has found both accounts in
  -- one currency, and the sender covered the rounded amount; its whole effect is one posted
  -- movement, which debits the sender and credits the receiver. A transfer that fails has changed
  -- nothing, unless the answer of its COMMIT was lost. It is assumed that a COMMIT refused by a
  -- serialization failure is not carried out.
  pub transfer-AllOrNothing :
      (from_id to_id : Uuid) (text : String) (w : World)
      → NoLostConflict b
      → AllOrNothing
          (λ x y.
            (amount : d.Decimal) × IsAmount text amount
            × Transferred b laws from_id to_id amount x y)
          w.db
          (transfer b from_id to_id text w)
  transfer-AllOrNothing from_id to_id text w =
      op-AllOrNothing (transfer b from_id to_id text) (transfer_tx b from_id to_id) text
        (Transferred b laws from_id to_id)
        (λ a w0 w1. transfer_tx-Transferred b laws from_id to_id a w0) w
        (transfer-Runs from_id to_id text w)

  -- A transfer keeps the ledger's invariant, whatever its result and whatever the database answers.
  pub transfer-IsLedger :
      (from_id to_id : Uuid) (text : String) (w : World)
      → IsLedger w.db
      → IsLedger (transfer b from_id to_id text w).1.db
  transfer-IsLedger from_id to_id text w =
      op-keeps (transfer b from_id to_id text) (transfer_tx b from_id to_id) text
        (Transferred b laws from_id to_id)
        (λ a w0 w1. transfer_tx-Transferred b laws from_id to_id a w0) IsLedger w
        (transfer-Runs from_id to_id text w)
        (λ a x y positive k. Transferred-IsLedger b laws {amount = a} positive k from_id to_id)
