-- ===== src/Service/Outcome.antt =====
-- A successful operation as its caller sees it: the balances before and after.
use double_entry_bank_go.Base.{
  ◌≡◌, ◌≢◌, refl, sym, ◌∙◌, ap, subst, some, String, ==_iff, inl, inr, find,
}
use mathlib.Core.Option.{some-injective}
use double_entry_bank_go.Int.{◌≤ℤ◌, ℤ, pos, ◌+ℤ◌, ◌-ℤ◌, int_laws}
use double_entry_bank_go.Money.{DecimalLaws}
use double_entry_bank_go.Errors.{GoError, sentinel, same_account_transfer, invalid_amount, ok, err}
use double_entry_bank_go.World.{AccountRow, Uuid, Db, World, Backend}
use double_entry_bank_go.Store.Atomic.{NoLostConflict}
use double_entry_bank_go.Sqlc.Tables.{find_account, is_settlement}
use double_entry_bank_go.Sqlc.Balances.{total}
use double_entry_bank_go.Sqlc.Lookup.{balance_of, stored_balance}
use double_entry_bank_go.Service.{deposit, withdraw, transfer}
use double_entry_bank_go.Service.Invariant.{Posted, IsLedger}
use double_entry_bank_go.Service.Kept.{conserved'}
use double_entry_bank_go.Service.Effects.{Posted_balances, Posted_others}
use double_entry_bank_go.Service.Movements.{Deposited, Withdrawn, Transferred}
use double_entry_bank_go.Service.Guarantees.{
  AllOrNothing, IsAmount, validate_cases, deposit-AllOrNothing, withdraw-AllOrNothing,
  transfer-AllOrNothing,
}

-- `payer` has lost `n` and `payee` has gained it; nobody else's row has changed, and neither has the
-- sum of all balances.
pub record Paid (payer payee : Uuid) (n u v : ℤ) (db db' : Db) : Type 0 where
  pub lost : stored_balance payer db'.accounts ≡ some (u -ℤ n)
  pub gained : stored_balance payee db'.accounts ≡ some (v +ℤ n)
  pub others :
      (k : Uuid) → k ≢ payer → k ≢ payee → find_account k db'.accounts ≡ find_account k db.accounts
  pub conserved : total db'.accounts ≡ total db.accounts

-- A movement that debits its first account.
pub debit-Paid :
    (first second : Uuid) (n u v : ℤ) (db db' : Db)
    → IsLedger db
    → first ≢ second
    → stored_balance first db.accounts ≡ some u
    → stored_balance second db.accounts ≡ some v
    → Posted first second n (pos 0) db db'
    → Paid first second n u v db db'
debit-Paid first second n u v db db' l ne eu ev p =
    let (lost, gained) = Posted_balances first second n (pos 0) db db' p u v ne eu ev in
    record {
      lost = lost ∙ ap some (omega int_laws);
      gained = gained ∙ ap some (omega int_laws);
      others = Posted_others first second n (pos 0) db db' p;
      conserved = conserved' first second n (pos 0) db db' p l;
    }

-- A movement that credits its first account.
pub credit-Paid :
    (first second : Uuid) (n u v : ℤ) (db db' : Db)
    → IsLedger db
    → first ≢ second
    → stored_balance first db.accounts ≡ some v
    → stored_balance second db.accounts ≡ some u
    → Posted first second (pos 0) n db db'
    → Paid second first n u v db db'
credit-Paid first second n u v db db' l ne ev eu p =
    let (gained, lost) = Posted_balances first second (pos 0) n db db' p v u ne ev eu in
    record {
      lost = lost ∙ ap some (omega int_laws);
      gained = gained ∙ ap some (omega int_laws);
      others = λ k n1 n2. Posted_others first second (pos 0) n db db' p k n2 n1;
      conserved = conserved' first second (pos 0) n db db' p l;
    }

module _ (b : Backend) (laws : DecimalLaws b.decimals) where
  open b use {decimals as d}
  open laws use {units}

  -- A transfer from an account to itself is refused before any call of the database.
  pub transfer_same_account :
      (id : Uuid) (text : String) (w : World)
      → (e : GoError) × (transfer b id id text w ≡ (err e, w))
  unfolding transfer
  transfer_same_account id text w = elim (validate_cases b laws text) [
    | inl bad ↦ (sentinel invalid_amount, rw (bad, transfer))
    | inr (amount, good, _, _) ↦
        (sentinel same_account_transfer, rw (good, (==_iff id id).1 refl, transfer))
  ]

  module _ (safe : NoLostConflict b) (text : String) (w w' : World) (l : IsLedger w.db)
      (u v : ℤ) where
    -- A transfer that succeeds moves the rounded amount from the sender to the receiver, which are
    -- different accounts; no third account changes, and the sum of all balances stays the same. The
    -- tables satisfy the ledger's invariant, the two balances are `u` and `v`, and a COMMIT refused
    -- by a serialization failure is not carried out.
    pub transfer_pays :
        (from_id to_id : Uuid)
        → stored_balance from_id w.db.accounts ≡ some u
        → stored_balance to_id w.db.accounts ≡ some v
        → transfer b from_id to_id text w ≡ (ok tt, w')
        → (amount : d.Decimal) × IsAmount b laws text amount
          × (from_id ≢ to_id)
          × Paid from_id to_id (units amount) u v w.db w'.db
    transfer_pays from_id to_id eu ev h =
        let (amount, is, made) =
          subst
            (AllOrNothing
              (λ x y.
                (a : d.Decimal) × IsAmount b laws text a × Transferred b laws from_id to_id a x y)
              w.db)
            h (transfer-AllOrNothing b laws from_id to_id text w safe) in
        let ne = λ (same : from_id ≡ to_id). refused from_id to_id same h in
        (
          amount,
          is,
          ne,
          debit-Paid from_id to_id (units amount) u v w.db w'.db l ne eu ev made.posted,
        )
      where
        refused :
            (from_id to_id : Uuid)
            → from_id ≡ to_id
            → transfer b from_id to_id text w ≡ (ok tt, w')
            → ⊥
        refused from_id to_id same h =
            let (e, r) = transfer_same_account from_id text w in
            cc (subst (λ k. transfer b from_id k text w ≡ (err e, w)) same r)

    module _ (id : Uuid) (s : AccountRow) (other : id ≢ s.id)
        (settled : find is_settlement w.db.accounts ≡ some s) where
      -- A deposit that succeeds moves the rounded amount from the settlement account to the account,
      -- which is another one; no third account changes, and the sum of all balances stays the same.
      -- The tables satisfy the ledger's invariant, the settlement account is `s`, its balance and
      -- that of the account are `u` and `v`, and a COMMIT refused by a serialization failure is not
      -- carried out.
      pub deposit_pays :
          stored_balance s.id w.db.accounts ≡ some u
          → stored_balance id w.db.accounts ≡ some v
          → deposit b id text w ≡ (ok tt, w')
          → (amount : d.Decimal) × IsAmount b laws text amount
            × Paid s.id id (units amount) u v w.db w'.db
      deposit_pays eu ev h =
          let (amount, is, made) =
            subst
              (AllOrNothing
                (λ x y. (a : d.Decimal) × IsAmount b laws text a × Deposited b laws id a x y) w.db)
              h (deposit-AllOrNothing b laws id text w safe) in
          let same : made.settlement.id ≡ s.id =
            ap (λ r. r.id) (some-injective _ _ (sym made.settled ∙ settled)) in
          (
            amount,
            is,
            credit-Paid id s.id (units amount) u v w.db w'.db l other ev eu
                (subst (λ k. Posted id k (pos 0) (units amount) w.db w'.db) same made.posted),
          )

      -- A withdrawal that succeeds moves the rounded amount from the account to the settlement
      -- account, which is another one; no third account changes, and the sum of all balances stays
      -- the same. The tables satisfy the ledger's invariant, the settlement account is `s`, the
      -- balance of the account and that of `s` are `u` and `v`, and a COMMIT refused by a
      -- serialization failure is not carried out.
      pub withdraw_pays :
          stored_balance id w.db.accounts ≡ some u
          → stored_balance s.id w.db.accounts ≡ some v
          → withdraw b id text w ≡ (ok tt, w')
          → (amount : d.Decimal) × IsAmount b laws text amount
            × (units amount ≤ℤ u)
            × Paid id s.id (units amount) u v w.db w'.db
      withdraw_pays eu ev h =
          let (amount, is, made) =
            subst
              (AllOrNothing
                (λ x y. (a : d.Decimal) × IsAmount b laws text a × Withdrawn b laws id a x y) w.db)
              h (withdraw-AllOrNothing b laws id text w safe) in
          let same : made.settlement.id ≡ s.id =
            ap (λ r. r.id) (some-injective _ _ (sym made.settled ∙ settled)) in
          let found : u ≡ made.account.balance =
            some-injective _ _ (sym eu ∙ ap balance_of made.found) in
          (
            amount,
            is,
            subst (λ n. units amount ≤ℤ n) (sym found) made.covered,
            debit-Paid id s.id (units amount) u v w.db w'.db l other eu ev
                (subst (λ k. Posted id k (units amount) (pos 0) w.db w'.db) same made.posted),
          )
