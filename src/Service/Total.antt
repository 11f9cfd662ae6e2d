-- ===== src/Service/Total.antt =====
-- The operations where no call fails: what they do in every case.
use double_entry_bank_go.Base.{
  ℕ, ◌≡◌, ◌≢◌, refl, sym, ◌∙◌, ap, subst, true, false, none, some, String, find, inl, inr, ◌==◌,
  ==_iff, Bool-cases, arith,
}
use mathlib.Core.Option.{some-injective}
use double_entry_bank_go.Int.{pos, ◌+ℤ◌, ◌-ℤ◌, ◌≤ℤ◌}
use double_entry_bank_go.Money.{DecimalLaws}
use double_entry_bank_go.Errors.{insufficient_funds, sentinel, ok, err, as_pq}
use double_entry_bank_go.World.{Uuid, AccountRow, World, Backend, Action, tick}
use double_entry_bank_go.Store.{exec_tx, is_serialization_error}
use double_entry_bank_go.Store.Atomic.{NoLostConflict}
use double_entry_bank_go.Store.Retry.{exec_tx_commits, exec_tx_refuses}
use double_entry_bank_go.Sqlc.Tables.{fits, find_account, is_settlement}
use double_entry_bank_go.Sqlc.Lookup.{balance_of, stored_balance}
use double_entry_bank_go.Service.{
  validate_positive_amount, deposit_tx, deposit, withdraw_tx, withdraw, transfer_tx, transfer,
}
use double_entry_bank_go.Service.Invariant.{IsLedger}
use double_entry_bank_go.Service.Guarantees.{IsAmount}
use double_entry_bank_go.Service.Outcome.{Paid, deposit_pays, withdraw_pays, transfer_pays}
use double_entry_bank_go.Service.Running.{IsFresh}
use double_entry_bank_go.Service.Ready.{find-find_account, IsFresh-later}
use double_entry_bank_go.Service.Success.{
  deposit_tx_runs, withdraw_tx_runs, withdraw_tx_overdrawn, transfer_tx_runs, transfer_tx_overdrawn,
}

overdrawn_is_final : is_serialization_error (sentinel insufficient_funds) ≡ false
unfolding is_serialization_error as_pq
overdrawn_is_final = refl

module _ (b : Backend) (laws : DecimalLaws b.decimals) (calm : (n : ℕ) → b.fault n ≡ none)
    (text : String) (amount : b.decimals.Decimal) (is : IsAmount b laws text amount)
    (some_units : pos 1 ≤ℤ laws.units amount) (amount_fits : fits (laws.units amount) ≡ true)
    (w : World) (fresh : IsFresh b w) (l : IsLedger w.db) where
  open b use {decimals as d}
  open laws use {units}

  safe : NoLostConflict b
  safe n e hit conflict = cc (hit, calm n)

  same_amount : (a : d.Decimal) → IsAmount b laws text a → units a ≡ units amount
  same_amount a other = ap units (some-injective _ _ (sym other.0 ∙ is.0))

  validated : validate_positive_amount d text ≡ ok amount
  unfolding validate_positive_amount
  validated = let read = is.0 in let positive = is.1 in ground arith

  started : IsFresh b (tick w)
  started = IsFresh-later b w (tick w) fresh refl (omega arith)

  committed :
      (fn : Action (Unit {0}))
      → (w1 : World) × (fn (tick w) ≡ (ok tt, w1))
      → (w2 : World) × (exec_tx b fn w ≡ (ok tt, w2))
  committed fn (w1, ran) = (tick w1, exec_tx_commits b fn w w1 (calm w.calls) ran (calm w1.calls))

  refused :
      (fn : Action (Unit {0}))
      → fn (tick w) ≡ (err (sentinel insufficient_funds), tick (tick (tick w)))
      → (w2 : World) × (exec_tx b fn w ≡ (err (sentinel insufficient_funds), w2)) × (w2.db ≡ w.db)
  refused fn ran = (
    _,
    exec_tx_refuses b fn w (tick (tick (tick w))) _ (calm w.calls) ran
        (calm (tick (tick (tick w))).calls) overdrawn_is_final,
    refl,
  )

  module _ (id : Uuid) (row s : AccountRow) (found : find_account id w.db.accounts ≡ some row)
      (settled : find is_settlement w.db.accounts ≡ some s) (other : id ≢ s.id)
      (currency : row.currency ≡ s.currency) where
    deposit_opened : deposit b id text w ≡ exec_tx b (deposit_tx b id amount) w
    unfolding deposit
    deposit_opened = rw (validated, deposit)

    withdraw_opened : withdraw b id text w ≡ exec_tx b (withdraw_tx b id amount) w
    unfolding withdraw
    withdraw_opened = rw (validated, withdraw)

    held_s : stored_balance s.id w.db.accounts ≡ some s.balance
    held_s = ap balance_of (find-find_account is_settlement w.db.accounts l.keyed settled)

    -- A deposit succeeds, and moves the amount from the settlement account to the account, where no
    -- call fails: the tables satisfy the invariant, the text is read as a positive amount that is
    -- not rounded to zero, the account and the settlement account `s` are there, differ and have
    -- one currency, the amount and the new balances fit their columns, and the ids that the UUID
    -- package gives out are new.
    pub deposit_succeeds :
        fits (row.balance +ℤ units amount) ≡ true
        → fits (s.balance -ℤ units amount) ≡ true
        → (w' : World) × (deposit b id text w ≡ (ok tt, w'))
          × Paid s.id id (units amount) s.balance row.balance w.db w'.db
    deposit_succeeds room1 room2 =
        let (w', ran) = committed (deposit_tx b id amount) (
          deposit_tx_runs b laws calm amount some_units amount_fits (tick w) started l.keyed id row
            s found settled other currency room1 room2) in
        let made : deposit b id text w ≡ (ok tt, w') = deposit_opened ∙ ran in
        let (a, is', paid) =
          deposit_pays b laws safe text w w' l s.balance row.balance id s other settled held_s
            (ap balance_of found) made in
        (
          w',
          made,
          subst (λ n. Paid s.id id n s.balance row.balance w.db w'.db) (same_amount a is') paid,
        )

    -- Where no call fails, a withdrawal is decided by the balance alone. It is refused with
    -- insufficient funds, and changes no table, where the balance is below the amount; otherwise it
    -- succeeds, and moves the amount from the account to the settlement account, if the new
    -- balances fit their columns. The conditions are those of a deposit that succeeds, and that the
    -- stored balance is read as the decimal `balance`.
    pub withdraw_decides :
        (balance : d.Decimal)
        → d.new_from_string (d.numeric_out row.balance) ≡ some balance
        → (d.less_than balance amount ≡ true
            → (w' : World) × (withdraw b id text w ≡ (err (sentinel insufficient_funds), w'))
              × (w'.db ≡ w.db))
          × (d.less_than balance amount ≡ false
              → fits (row.balance -ℤ units amount) ≡ true
              → fits (s.balance +ℤ units amount) ≡ true
              → (w' : World) × (withdraw b id text w ≡ (ok tt, w'))
                × Paid id s.id (units amount) row.balance s.balance w.db w'.db)
    withdraw_decides balance read = (
      λ short.
          let (w', ran, kept) = refused (withdraw_tx b id amount) (
            withdraw_tx_overdrawn b laws calm amount some_units amount_fits (tick w) started l.keyed
              id row s found settled other currency balance read short) in
          (w', withdraw_opened ∙ ran, kept),
      λ enough room1 room2.
          let (w', ran) = committed (withdraw_tx b id amount) (
            withdraw_tx_runs b laws calm amount some_units amount_fits (tick w) started l.keyed id
              row s found settled other currency balance read enough room1 room2) in
          let made : withdraw b id text w ≡ (ok tt, w') = withdraw_opened ∙ ran in
          let (a, is', _, paid) =
            withdraw_pays b laws safe text w w' l row.balance s.balance id s other settled
              (ap balance_of found) held_s made in
          (
            w',
            made,
            subst (λ n. Paid id s.id n row.balance s.balance w.db w'.db) (same_amount a is') paid,
          ),
    )

  module _ (from_id to_id : Uuid) (from to : AccountRow)
      (found : find_account from_id w.db.accounts ≡ some from)
      (found_to : find_account to_id w.db.accounts ≡ some to) (other : from_id ≢ to_id)
      (currency : from.currency ≡ to.currency) where
    ids_differ : (from_id == to_id) ≡ false
    ids_differ = elim (Bool-cases (from_id == to_id)) [
      | inl same ↦ absurd (other ((==_iff from_id to_id).0 same))
      | inr differ ↦ differ
    ]

    transfer_opened :
        transfer b from_id to_id text w ≡ exec_tx b (transfer_tx b from_id to_id amount) w
    unfolding transfer
    transfer_opened = rw (validated, ids_differ, transfer)

    -- Where no call fails, a transfer between two accounts of one currency is decided by the
    -- sender's balance alone. It is refused with insufficient funds, and changes no table, where
    -- the balance is below the amount; otherwise it succeeds, and moves the amount from the first
    -- account to the second, if the new balances fit their columns. The tables satisfy the
    -- invariant, the text is read as a positive amount that fits the columns and is not rounded to
    -- zero, the stored balance is read as the decimal `balance`, and the ids that the UUID package
    -- gives out are new.
    pub transfer_decides :
        (balance : d.Decimal)
        → d.new_from_string (d.numeric_out from.balance) ≡ some balance
        → (d.less_than balance amount ≡ true
            → (w' : World) × (transfer b from_id to_id text w
                ≡ (err (sentinel insufficient_funds), w'))
              × (w'.db ≡ w.db))
          × (d.less_than balance amount ≡ false
              → fits (from.balance -ℤ units amount) ≡ true
              → fits (to.balance +ℤ units amount) ≡ true
              → (w' : World) × (transfer b from_id to_id text w ≡ (ok tt, w'))
                × Paid from_id to_id (units amount) from.balance to.balance w.db w'.db)
    transfer_decides balance read = (
      λ short.
          let (w', ran, kept) = refused (transfer_tx b from_id to_id amount) (
            transfer_tx_overdrawn b laws calm amount some_units amount_fits (tick w) started l.keyed
              from_id to_id from to found found_to other currency balance read short) in
          (w', transfer_opened ∙ ran, kept),
      λ enough room1 room2.
          let (w', ran) = committed (transfer_tx b from_id to_id amount) (
            transfer_tx_runs b laws calm amount some_units amount_fits (tick w) started l.keyed
              from_id to_id from to found found_to other currency balance read enough room1
              room2) in
          let made : transfer b from_id to_id text w ≡ (ok tt, w') = transfer_opened ∙ ran in
          let (a, is', _, paid) =
            transfer_pays b laws safe text w w' l from.balance to.balance from_id to_id
              (ap balance_of found) (ap balance_of found_to) made in
          (
            w',
            made,
            subst (λ n. Paid from_id to_id n from.balance to.balance w.db w'.db) (same_amount a is')
                paid,
          ),
    )
