-- ===== src/Service/Success.antt =====
-- When the bodies of the three transactions run to their end, and where they are refused.
use double_entry_bank_go.Base.{ℕ, ◌≡◌, ◌≢◌, refl, sym, ◌∙◌, true, false, none, some, find, arith}
use double_entry_bank_go.Int.{pos, ◌+ℤ◌, ◌-ℤ◌, ◌≤ℤ◌}
use double_entry_bank_go.Money.{DecimalLaws}
use double_entry_bank_go.Errors.{insufficient_funds, sentinel, ok, err}
use double_entry_bank_go.World.{
  Uuid, AccountRow, deposit, withdrawal, transfer, World, Backend, tick, ◌>>◌,
}
use double_entry_bank_go.Sqlc.Tables.{fits, find_account, is_settlement}
use double_entry_bank_go.Sqlc.Balances.{DistinctIds}
use double_entry_bank_go.Sqlc.Calm.{
  >>=-ok, >>=-err, on_error-ok, stop_if-false, stop_if-true, or_fail-some,
  get_account_for_update_calm, get_settlement_account_for_update_calm,
}
use double_entry_bank_go.Service.{deposit_tx, withdraw_tx, transfer_tx}
use double_entry_bank_go.Service.Posting.{post}
use double_entry_bank_go.Service.Movements.{zero_text, amount_text, gain_text, loss_text}
use double_entry_bank_go.Service.Running.{IsFresh, post_runs}
use double_entry_bank_go.Service.Ready.{
  find-find_account, found-listed, same_currency, one_sided, fits_nothing, gain, loss,
  IsFresh-later,
}

module _ (b : Backend) (laws : DecimalLaws b.decimals) (calm : (n : ℕ) → b.fault n ≡ none)
    (amount : b.decimals.Decimal) (some_units : pos 1 ≤ℤ laws.units amount)
    (amount_fits : fits (laws.units amount) ≡ true) (w : World) (fresh : IsFresh b w)
    (keys : DistinctIds w.db.accounts) where
  open b use {decimals as d}
  open laws use {units}

  module _ (id : Uuid) (row s : AccountRow) (found : find_account id w.db.accounts ≡ some row)
      (settled : find is_settlement w.db.accounts ≡ some s) (other : id ≢ s.id)
      (currency : row.currency ≡ s.currency) where
    found_s : find_account s.id w.db.accounts ≡ some s
    found_s = find-find_account is_settlement w.db.accounts keys settled

    pub deposit_tx_runs :
        fits (row.balance +ℤ units amount) ≡ true
        → fits (s.balance -ℤ units amount) ≡ true
        → (w' : World) × (deposit_tx b id amount w ≡ (ok tt, w'))
    unfolding deposit_tx ◌>>◌ post
    deposit_tx_runs room1 room2 =
        let w1 = tick w in
        let w2 = tick w1 in
        let w3 = tick w2 in
        let (credited, debited) = one_sided (units amount) some_units in
        let (w', ran) =
          post_runs b calm (pos 0) (units amount) deposit _ _ _ _ row s refl refl refl refl
            (zero_text b laws) (amount_text b laws amount) (amount_text b laws amount)
            (zero_text b laws) (gain_text b laws amount) (loss_text b laws amount) fits_nothing
            amount_fits credited debited (λ e. other (sym e)) (gain row.balance _ room1)
            (loss s.balance _ room2) w3 (IsFresh-later b w w3 fresh refl (omega arith)) keys found
            found_s (found-listed id _ found) (found-listed s.id _ found_s) in
        (
          w',
          >>=-ok _ _ w w1 _ (
                on_error-ok _ _ w w1 _
                  (get_settlement_account_for_update_calm b w (calm w.calls) s settled))
              ∙ >>=-ok _ _ w1 w2 _ (
                  on_error-ok _ _ w1 w2 _
                    (get_account_for_update_calm b w1 (calm w1.calls) id row found))
              ∙ >>=-ok _ _ w2 w2 tt (stop_if-false _ _ w2 (same_currency _ _ currency))
              ∙ >>=-ok _ _ w2 w3 _ refl
              ∙ ran,
        )

    module _ (balance : d.Decimal)
        (read : d.new_from_string (d.numeric_out row.balance) ≡ some balance) where
      pub withdraw_tx_runs :
          d.less_than balance amount ≡ false
          → fits (row.balance -ℤ units amount) ≡ true
          → fits (s.balance +ℤ units amount) ≡ true
          → (w' : World) × (withdraw_tx b id amount w ≡ (ok tt, w'))
      unfolding withdraw_tx ◌>>◌ post
      withdraw_tx_runs enough room1 room2 =
          let w1 = tick w in
          let w2 = tick w1 in
          let w3 = tick w2 in
          let (credited, debited) = one_sided (units amount) some_units in
          let (w', ran) =
            post_runs b calm (units amount) (pos 0) withdrawal _ _ _ _ row s refl refl refl refl
              (amount_text b laws amount) (zero_text b laws) (zero_text b laws)
              (amount_text b laws amount) (loss_text b laws amount) (gain_text b laws amount)
              amount_fits fits_nothing debited credited (λ e. other (sym e))
              (loss row.balance _ room1) (gain s.balance _ room2) w3
              (IsFresh-later b w w3 fresh refl (omega arith)) keys found found_s
              (found-listed id _ found) (found-listed s.id _ found_s) in
          (
            w',
            >>=-ok _ _ w w1 _ (
                  on_error-ok _ _ w w1 _
                    (get_settlement_account_for_update_calm b w (calm w.calls) s settled))
                ∙ >>=-ok _ _ w1 w2 _ (
                    on_error-ok _ _ w1 w2 _
                      (get_account_for_update_calm b w1 (calm w1.calls) id row found))
                ∙ >>=-ok _ _ w2 w2 tt (stop_if-false _ _ w2 (same_currency _ _ currency))
                ∙ >>=-ok _ _ w2 w2 balance (or_fail-some _ _ w2 balance read)
                ∙ >>=-ok _ _ w2 w2 tt (stop_if-false _ _ w2 enough)
                ∙ >>=-ok _ _ w2 w3 _ refl
                ∙ ran,
          )

      pub withdraw_tx_overdrawn :
          d.less_than balance amount ≡ true
          → withdraw_tx b id amount w ≡ (err (sentinel insufficient_funds), tick (tick w))
      unfolding withdraw_tx ◌>>◌
      withdraw_tx_overdrawn short =
          let w1 = tick w in
          let w2 = tick w1 in
          >>=-ok _ _ w w1 _ (
            on_error-ok _ _ w w1 _
              (get_settlement_account_for_update_calm b w (calm w.calls) s settled))
          ∙ >>=-ok _ _ w1 w2 _ (
              on_error-ok _ _ w1 w2 _
                (get_account_for_update_calm b w1 (calm w1.calls) id row found))
          ∙ >>=-ok _ _ w2 w2 tt (stop_if-false _ _ w2 (same_currency _ _ currency))
          ∙ >>=-ok _ _ w2 w2 balance (or_fail-some _ _ w2 balance read)
          ∙ >>=-err _ _ w2 w2 _ (stop_if-true _ _ w2 short)

  module _ (from_id to_id : Uuid) (from to : AccountRow)
      (found : find_account from_id w.db.accounts ≡ some from)
      (found_to : find_account to_id w.db.accounts ≡ some to) (other : from_id ≢ to_id)
      (currency : from.currency ≡ to.currency) (balance : d.Decimal)
      (read : d.new_from_string (d.numeric_out from.balance) ≡ some balance) where
    pub transfer_tx_runs :
        d.less_than balance amount ≡ false
        → fits (from.balance -ℤ units amount) ≡ true
        → fits (to.balance +ℤ units amount) ≡ true
        → (w' : World) × (transfer_tx b from_id to_id amount w ≡ (ok tt, w'))
    unfolding transfer_tx ◌>>◌ post
    transfer_tx_runs enough room1 room2 =
        let w1 = tick w in
        let w2 = tick w1 in
        let w3 = tick w2 in
        let (credited, debited) = one_sided (units amount) some_units in
        let (w', ran) =
          post_runs b calm (units amount) (pos 0) transfer _ _ _ _ from to refl refl refl refl
            (amount_text b laws amount) (zero_text b laws) (zero_text b laws)
            (amount_text b laws amount) (loss_text b laws amount) (gain_text b laws amount)
            amount_fits fits_nothing debited credited (λ e. other (sym e))
            (loss from.balance _ room1) (gain to.balance _ room2) w3
            (IsFresh-later b w w3 fresh refl (omega arith)) keys found found_to
            (found-listed from_id _ found) (found-listed to_id _ found_to) in
        (
          w',
          >>=-ok _ _ w w1 _ (get_account_for_update_calm b w (calm w.calls) from_id from found)
              ∙ >>=-ok _ _ w1 w2 _
                  (get_account_for_update_calm b w1 (calm w1.calls) to_id to found_to)
              ∙ >>=-ok _ _ w2 w2 tt (stop_if-false _ _ w2 (same_currency _ _ currency))
              ∙ >>=-ok _ _ w2 w2 balance (or_fail-some _ _ w2 balance read)
              ∙ >>=-ok _ _ w2 w2 tt (stop_if-false _ _ w2 enough)
              ∙ >>=-ok _ _ w2 w3 _ refl
              ∙ ran,
        )

    pub transfer_tx_overdrawn :
        d.less_than balance amount ≡ true
        → transfer_tx b from_id to_id amount w ≡ (err (sentinel insufficient_funds), tick (tick w))
    unfolding transfer_tx ◌>>◌
    transfer_tx_overdrawn short =
        let w1 = tick w in
        let w2 = tick w1 in
        >>=-ok _ _ w w1 _ (get_account_for_update_calm b w (calm w.calls) from_id from found)
        ∙ >>=-ok _ _ w1 w2 _ (get_account_for_update_calm b w1 (calm w1.calls) to_id to found_to)
        ∙ >>=-ok _ _ w2 w2 tt (stop_if-false _ _ w2 (same_currency _ _ currency))
        ∙ >>=-ok _ _ w2 w2 balance (or_fail-some _ _ w2 balance read)
        ∙ >>=-err _ _ w2 w2 _ (stop_if-true _ _ w2 short)
