-- ===== src/Service/Reads.antt =====
-- The calls that only read: whatever they return, they leave the tables as they are.
use double_entry_bank_go.Base.{arith, ◌≡◌, subst, Bool, true, false, Option, none, some, ℕ, String}
use double_entry_bank_go.Errors.{GoError, Result, ok, err}
use double_entry_bank_go.World.{
  Uuid, AccountRow, Db, World, Backend, Action, fail, on_error, stop_if, or_fail, ◌>>=◌, ◌>>◌,
  statement,
}
use double_entry_bank_go.Money.{Decimals}
use double_entry_bank_go.Sqlc.Models.{Account}
use double_entry_bank_go.Sqlc.Tables.{find_account}
use double_entry_bank_go.Sqlc.Accounts.{
  fetch_account, get_account, get_account_balance, list_accounts_by_owner,
}
use double_entry_bank_go.Sqlc.Entries.{
  ListEntriesByAccountParams, list_entries_by_account, list_entries_by_transaction,
}
use double_entry_bank_go.Sqlc.Users.{get_user_by_email}
use double_entry_bank_go.Service.{reconcile_account}
use double_entry_bank_go.Service.History.{statement-keeps}

module _ (Inv : Db → Type 0) where
  abbrev pub Keeps : {A : Type 0} → Action A → Type 0
  Keeps m = (w : World) → Inv w.db → Inv (m w).1.db

  module _ {A B : Type 0} (m : Action A) (f : A → Action B) where
    >>=-Keeps : Keeps m → ((a : A) → Keeps (f a)) → Keeps (m >>= f)
    unfolding ◌>>=◌
    >>=-Keeps first next w h = go (m w) (first w h)
      where
        go :
            (p : Result A × World)
            → Inv p.1.db
            → Inv (elim p.0 as (λ _. Result B × World) [ ok a ↦ f a p.1 | err e ↦ fail e p.1 ]).1.db
        go (ok a, w1) k = next a w1 k
        go (err e, w1) k = k

  on_error-Keeps :
      {A : Type 0} (f : GoError → GoError) (m : Action A) → Keeps m → Keeps (on_error f m)
  unfolding on_error
  on_error-Keeps {A} f m keeps w h = go (m w) (keeps w h)
    where
      go :
          (p : Result A × World)
          → Inv p.1.db
          → Inv
              (elim p.0 as (λ _. Result A × World) [
                | ok a ↦ (ok a, p.1)
                | err e ↦ (err (f e), p.1)
              ]).1.db
      go (ok a, w1) k = k
      go (err e, w1) k = k

  or_fail-Keeps : {A : Type 0} (o : Option A) (e : GoError) → Keeps (or_fail o e)
  unfolding or_fail
  or_fail-Keeps none e w h = h
  or_fail-Keeps (some a) e w h = h

  stop_if-Keeps : (bad : Bool) (e : GoError) → Keeps (stop_if bad e)
  unfolding stop_if
  stop_if-Keeps true e w h = h
  stop_if-Keeps false e w h = h

  -- A statement whose body returns the tables that it was given.
  read-Keeps :
      {A : Type 0} (b : Backend) (body : ℕ → Db → Result (A × Db))
      → ((n : ℕ) (db db' : Db) (a : A) → body n db ≡ ok (a, db') → db ≡ db')
      → Keeps (statement b body)
  read-Keeps b body same =
      statement-keeps b body Inv (λ n db db' a h ran. subst Inv (same n db db' a ran) h)

  -- A statement whose body looks the answer up.
  lookup-Keeps :
      {A : Type 0} (b : Backend) (answer : Db → A) → Keeps (statement b λ n db. ok (answer db, db))
  lookup-Keeps b answer = read-Keeps b (λ n db. ok (answer db, db)) (λ n db db' a h. ground arith)

  fetch-same :
      (d : Decimals) (found : Option AccountRow) (db db' : Db) (a : Account)
      → fetch_account d found db ≡ ok (a, db')
      → db ≡ db'
  fetch-same d found db db' a h = ground arith

  module _ (b : Backend) where
    pub get_account-Keeps : (id : Uuid) → Keeps (get_account b id)
    unfolding get_account
    get_account-Keeps id =
        read-Keeps b (λ n db. fetch_account b.decimals (find_account id db.accounts) db)
          (λ n db. fetch-same b.decimals (find_account id db.accounts) db)

    get_account_balance-Keeps : (id : Uuid) → Keeps (get_account_balance b id)
    unfolding get_account_balance
    get_account_balance-Keeps id = read-Keeps b _ (λ n db db' a h. ground arith)

    pub list_accounts_by_owner-Keeps :
        (owner : Option Uuid) → Keeps (list_accounts_by_owner b owner)
    unfolding list_accounts_by_owner
    list_accounts_by_owner-Keeps owner = lookup-Keeps b _

    pub list_entries_by_account-Keeps :
        (arg : ListEntriesByAccountParams) → Keeps (list_entries_by_account b arg)
    unfolding list_entries_by_account
    list_entries_by_account-Keeps arg = lookup-Keeps b _

    pub list_entries_by_transaction-Keeps : (id : Uuid) → Keeps (list_entries_by_transaction b id)
    unfolding list_entries_by_transaction
    list_entries_by_transaction-Keeps id = lookup-Keeps b _

    pub get_user_by_email-Keeps : (email : String) → Keeps (get_user_by_email b email)
    unfolding get_user_by_email
    get_user_by_email-Keeps email = read-Keeps b _ (λ n db db' a h. ground arith)

    pub reconcile_account-Keeps : (id : Uuid) → Keeps (reconcile_account b id)
    unfolding reconcile_account ◌>>◌
    reconcile_account-Keeps id =
        >>=-Keeps _ _ (on_error-Keeps _ _ (get_account-Keeps id)) (λ account.
          >>=-Keeps _ _ (on_error-Keeps _ _ (get_account_balance-Keeps id)) (λ text.
            >>=-Keeps _ _ (or_fail-Keeps _ _) (λ calculated.
              >>=-Keeps _ _ (or_fail-Keeps _ _)
                (λ stored. >>=-Keeps _ _ (stop_if-Keeps _ _) (λ _ w h. h)))))
