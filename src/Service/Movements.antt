-- ===== src/Service/Movements.antt =====
-- What each transaction has done when its body succeeds: its guards held, and it posted one
-- movement.
use double_entry_bank_go.Base.{
  ◌≡◌, refl, sym, ◌∙◌, ap, subst, false, not, some, String, str_eq, eq_iff, find, arith,
}
use mathlib.Core.Option.{some-injective}
use double_entry_bank_go.Int.{ℤ, pos, ◌-ℤ◌, negate, ◌≤ℤ◌, int_laws}
use double_entry_bank_go.Money.{DecimalLaws}
use double_entry_bank_go.Errors.{ok}
use double_entry_bank_go.World.{Uuid, AccountRow, Db, World, Backend, ◌>>◌}
use double_entry_bank_go.Sqlc.Tables.{find_account, is_settlement}
use double_entry_bank_go.Sqlc.Inversion.{
  >>=-eq-ok, on_error-eq-ok, stop_if-eq-ok, or_fail-eq-ok, draw_uuid-eq-ok,
  get_account_for_update-eq-ok, get_settlement_account_for_update-eq-ok,
}
use double_entry_bank_go.Service.{deposit_tx, withdraw_tx, transfer_tx}
use double_entry_bank_go.Service.Invariant.{Posted}
use double_entry_bank_go.Service.Posting.{post, post-Posted}

str_eq_of_stop : (s t : String) → not (str_eq s t) ≡ false → s ≡ t
str_eq_of_stop s t h = (eq_iff s t).0 (ground arith)

negate-eq-sub : (n : ℤ) → negate n ≡ pos 0 -ℤ n
negate-eq-sub n = omega int_laws

module _ (b : Backend) (laws : DecimalLaws b.decimals) where
  open b use {decimals as d}
  open laws use {units}

  -- The texts that the three transactions write for an amount.
  pub zero_text : d.numeric_in (d.string_fixed d.zero 4) ≡ some (pos 0)
  zero_text = laws.numeric_in-string_fixed d.zero ∙ ap some laws.units-zero

  pub amount_text :
      (amount : d.Decimal) → d.numeric_in (d.string_fixed amount 4) ≡ some (units amount)
  amount_text = laws.numeric_in-string_fixed

  pub gain_text :
      (amount : d.Decimal) → d.numeric_in (d.string_fixed amount 4) ≡ some (units amount -ℤ pos 0)
  gain_text amount = amount_text amount ∙ ap some (omega int_laws)

  pub loss_text :
      (amount : d.Decimal)
      → d.numeric_in (d.string_fixed (d.neg amount) 4) ≡ some (pos 0 -ℤ units amount)
  loss_text amount =
      amount_text (d.neg amount) ∙ ap some (laws.units-neg amount ∙ negate-eq-sub (units amount))

  -- A deposit found the settlement account and the account, in one currency, and credited the
  -- account against the settlement account.
  pub record Deposited (id : Uuid) (amount : d.Decimal) (db db' : Db) : Type 0 where
    pub account : AccountRow
    pub settlement : AccountRow
    pub found : find_account id db.accounts ≡ some account
    pub settled : find is_settlement db.accounts ≡ some settlement
    pub currency : account.currency ≡ settlement.currency
    pub posted : Posted id settlement.id (pos 0) (units amount) db db'

  pub deposit_tx-Deposited :
      (id : Uuid) (amount : d.Decimal) (w : World) {w' : World}
      → deposit_tx b id amount w ≡ (ok tt, w')
      → Deposited id amount w.db w'.db
  unfolding deposit_tx ◌>>◌ post
  deposit_tx-Deposited id amount w {w'} h =
      let (settlement, w1, ran1, h1) = >>=-eq-ok _ _ w h in
      let (account, w2, ran2, h2) = >>=-eq-ok _ _ w1 h1 in
      let (_, w3, ran3, h3) = >>=-eq-ok _ _ w2 h2 in
      let (tx_id, w4, ran4, h4) = >>=-eq-ok _ _ w3 h3 in
      let (srow, sfound, sscan, sdb) =
        get_settlement_account_for_update-eq-ok b w (on_error-eq-ok _ _ w ran1) in
      let (row, found, scan, adb) =
        get_account_for_update-eq-ok b w1 id (on_error-eq-ok _ _ w1 ran2) in
      let (same, w3_is) = stop_if-eq-ok _ _ w2 ran3 in
      let base = draw_uuid-eq-ok b w3 ran4 ∙ ap (λ x. x.db) w3_is ∙ adb ∙ sdb in
      record {
        account = row;
        settlement = srow;
        found = subst (λ x. find_account id x.accounts ≡ some row) sdb found;
        settled = sfound;
        currency =
            sym (ap (λ x. x.currency) scan) ∙ str_eq_of_stop _ _ same ∙ ap (λ x. x.currency) sscan;
        posted =
            subst (λ x. Posted id srow.id (pos 0) (units amount) x w'.db) base
              (subst (λ x. Posted id x (pos 0) (units amount) w4.db w'.db) (ap (λ x. x.id) sscan)
                (post-Posted b (pos 0) (units amount) _ _ _ _ refl refl refl zero_text
                  (amount_text amount) (amount_text amount) zero_text (gain_text amount)
                  (loss_text amount) w4 h4));
      }

  -- A balance that passes the test against the amount covers the rounded amount.
  covers :
      (text : String) (n : ℤ) (balance amount : d.Decimal)
      → text ≡ d.numeric_out n
      → d.new_from_string text ≡ some balance
      → d.less_than balance amount ≡ false
      → units amount ≤ℤ n
  covers text n balance amount shown read enough =
      let (a, read', exact) = laws.new_from_string-numeric_out n in
      let same : balance ≡ a = some-injective _ _ (sym read ∙ ap d.new_from_string shown ∙ read') in
      subst (λ m. units amount ≤ℤ m) (ap units same ∙ exact)
        (laws.units-less_than balance amount enough)

  -- A withdrawal found both accounts, in one currency, and the account could cover the amount; it
  -- debited the account against the settlement account.
  pub record Withdrawn (id : Uuid) (amount : d.Decimal) (db db' : Db) : Type 0 where
    pub account : AccountRow
    pub settlement : AccountRow
    pub found : find_account id db.accounts ≡ some account
    pub settled : find is_settlement db.accounts ≡ some settlement
    pub currency : account.currency ≡ settlement.currency
    pub covered : units amount ≤ℤ account.balance
    pub posted : Posted id settlement.id (units amount) (pos 0) db db'

  pub withdraw_tx-Withdrawn :
      (id : Uuid) (amount : d.Decimal) (w : World) {w' : World}
      → withdraw_tx b id amount w ≡ (ok tt, w')
      → Withdrawn id amount w.db w'.db
  unfolding withdraw_tx ◌>>◌ post
  withdraw_tx-Withdrawn id amount w {w'} h =
      let (settlement, w1, ran1, h1) = >>=-eq-ok _ _ w h in
      let (account, w2, ran2, h2) = >>=-eq-ok _ _ w1 h1 in
      let (_, w3, ran3, h3) = >>=-eq-ok _ _ w2 h2 in
      let (balance, w4, ran4, h4) = >>=-eq-ok _ _ w3 h3 in
      let (_, w5, ran5, h5) = >>=-eq-ok _ _ w4 h4 in
      let (tx_id, w6, ran6, h6) = >>=-eq-ok _ _ w5 h5 in
      let (srow, sfound, sscan, sdb) =
        get_settlement_account_for_update-eq-ok b w (on_error-eq-ok _ _ w ran1) in
      let (row, found, scan, adb) =
        get_account_for_update-eq-ok b w1 id (on_error-eq-ok _ _ w1 ran2) in
      let (same, w3_is) = stop_if-eq-ok _ _ w2 ran3 in
      let (read, w4_is) = or_fail-eq-ok _ _ w3 ran4 in
      let (enough, w5_is) = stop_if-eq-ok _ _ w4 ran5 in
      let base = draw_uuid-eq-ok b w5 ran6 ∙ ap (λ x. x.db) (w5_is ∙ w4_is ∙ w3_is) ∙ adb ∙ sdb in
      record {
        account = row;
        settlement = srow;
        found = subst (λ x. find_account id x.accounts ≡ some row) sdb found;
        settled = sfound;
        currency =
            sym (ap (λ x. x.currency) scan) ∙ str_eq_of_stop _ _ same ∙ ap (λ x. x.currency) sscan;
        covered =
            covers account.balance row.balance balance amount (ap (λ x. x.balance) scan) read
              enough;
        posted =
            subst (λ x. Posted id srow.id (units amount) (pos 0) x w'.db) base
              (subst (λ x. Posted id x (units amount) (pos 0) w6.db w'.db) (ap (λ x. x.id) sscan)
                (post-Posted b (units amount) (pos 0) _ _ _ _ refl refl refl (amount_text amount)
                  zero_text zero_text (amount_text amount) (loss_text amount) (gain_text amount) w6
                  h6));
      }

  -- A transfer found both accounts, in one currency, and the sender could cover the amount; it
  -- debited the sender against the receiver.
  pub record Transferred (from_id to_id : Uuid) (amount : d.Decimal) (db db' : Db) : Type 0 where
    pub sender : AccountRow
    pub receiver : AccountRow
    pub found : find_account from_id db.accounts ≡ some sender
    pub found_to : find_account to_id db.accounts ≡ some receiver
    pub currency : sender.currency ≡ receiver.currency
    pub covered : units amount ≤ℤ sender.balance
    pub posted : Posted from_id to_id (units amount) (pos 0) db db'

  pub transfer_tx-Transferred :
      (from_id to_id : Uuid) (amount : d.Decimal) (w : World) {w' : World}
      → transfer_tx b from_id to_id amount w ≡ (ok tt, w')
      → Transferred from_id to_id amount w.db w'.db
  unfolding transfer_tx ◌>>◌ post
  transfer_tx-Transferred from_id to_id amount w {w'} h =
      let (sender, w1, ran1, h1) = >>=-eq-ok _ _ w h in
      let (receiver, w2, ran2, h2) = >>=-eq-ok _ _ w1 h1 in
      let (_, w3, ran3, h3) = >>=-eq-ok _ _ w2 h2 in
      let (balance, w4, ran4, h4) = >>=-eq-ok _ _ w3 h3 in
      let (_, w5, ran5, h5) = >>=-eq-ok _ _ w4 h4 in
      let (tx_id, w6, ran6, h6) = >>=-eq-ok _ _ w5 h5 in
      let (row, found, scan, db1) = get_account_for_update-eq-ok b w from_id ran1 in
      let (row_to, found_to, scan_to, db2) = get_account_for_update-eq-ok b w1 to_id ran2 in
      let (same, w3_is) = stop_if-eq-ok _ _ w2 ran3 in
      let (read, w4_is) = or_fail-eq-ok _ _ w3 ran4 in
      let (enough, w5_is) = stop_if-eq-ok _ _ w4 ran5 in
      let base = draw_uuid-eq-ok b w5 ran6 ∙ ap (λ x. x.db) (w5_is ∙ w4_is ∙ w3_is) ∙ db2 ∙ db1 in
      record {
        sender = row;
        receiver = row_to;
        found = found;
        found_to = subst (λ x. find_account to_id x.accounts ≡ some row_to) db1 found_to;
        currency =
            sym (ap (λ x. x.currency) scan)
            ∙ str_eq_of_stop _ _ same
            ∙ ap (λ x. x.currency) scan_to;
        covered =
            covers sender.balance row.balance balance amount (ap (λ x. x.balance) scan) read enough;
        posted =
            subst (λ x. Posted from_id to_id (units amount) (pos 0) x w'.db) base
              (post-Posted b (units amount) (pos 0) _ _ _ _ refl refl refl (amount_text amount)
                zero_text zero_text (amount_text amount) (loss_text amount) (gain_text amount) w6
                h6);
      }
