-- ===== src/Sqlc/Calm.antt =====
-- What the functions return where no call meets a fault: lemmas that run a call forwards.
use double_entry_bank_go.Base.{◌≡◌, Bool, true, false, Option, none, some, find, arith}
use double_entry_bank_go.Errors.{GoError, ok, err}
use double_entry_bank_go.World.{
  Uuid, AccountRow, World, Backend, Action, tick, on_error, stop_if, or_fail, ◌>>=◌,
}
use double_entry_bank_go.Sqlc.Models.{scan_account}
use double_entry_bank_go.Sqlc.Tables.{find_account, is_settlement, fits, calculated_balance}
use double_entry_bank_go.Sqlc.Accounts.{
  get_account, get_account_balance, get_account_for_update, get_settlement_account_for_update,
}

module _ {A B : Type 0} (m : Action A) (f : A → Action B) (w w1 : World) where
  pub >>=-ok : (a : A) → m w ≡ (ok a, w1) → (m >>= f) w ≡ f a w1
  unfolding ◌>>=◌
  >>=-ok a h = ground arith

  pub >>=-err : (e : GoError) → m w ≡ (err e, w1) → (m >>= f) w ≡ (err e, w1)
  unfolding ◌>>=◌
  >>=-err e h = ground arith

module _ {A : Type 0} (f : GoError → GoError) (m : Action A) (w w1 : World) where
  pub on_error-ok : (a : A) → m w ≡ (ok a, w1) → on_error f m w ≡ (ok a, w1)
  unfolding on_error
  on_error-ok a h = ground arith

  pub on_error-err : (e : GoError) → m w ≡ (err e, w1) → on_error f m w ≡ (err (f e), w1)
  unfolding on_error
  on_error-err e h = ground arith

pub stop_if-false : (c : Bool) (e : GoError) (w : World) → c ≡ false → stop_if c e w ≡ (ok tt, w)
unfolding stop_if
stop_if-false c e w h = rw h

pub stop_if-true : (c : Bool) (e : GoError) (w : World) → c ≡ true → stop_if c e w ≡ (err e, w)
unfolding stop_if
stop_if-true c e w h = rw h

pub or_fail-some :
    {A : Type 0} (o : Option A) (e : GoError) (w : World) (a : A)
    → o ≡ some a
    → or_fail o e w ≡ (ok a, w)
unfolding or_fail
or_fail-some o e w a h = rw h

module _ (b : Backend) (w : World) (calm : b.fault w.calls ≡ none) where
  module _ (id : Uuid) (row : AccountRow) (found : find_account id w.db.accounts ≡ some row) where
    pub get_account_calm : get_account b id w ≡ (ok (scan_account b.decimals row), tick w)
    unfolding get_account
    get_account_calm = ground arith

    pub get_account_for_update_calm :
        get_account_for_update b id w ≡ (ok (scan_account b.decimals row), tick w)
    unfolding get_account_for_update
    get_account_for_update_calm = ground arith

  pub get_settlement_account_for_update_calm :
      (row : AccountRow)
      → find is_settlement w.db.accounts ≡ some row
      → get_settlement_account_for_update b w ≡ (ok (scan_account b.decimals row), tick w)
  unfolding get_settlement_account_for_update
  get_settlement_account_for_update_calm row found = ground arith

  pub get_account_balance_calm :
      (id : Uuid)
      → fits (calculated_balance id w.db.entries) ≡ true
      → get_account_balance b id w
        ≡ (ok (b.decimals.numeric_out (calculated_balance id w.db.entries)), tick w)
  unfolding get_account_balance
  get_account_balance_calm id room = ground arith
