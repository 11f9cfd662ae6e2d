-- ===== src/Sqlc/Inversion.antt =====
-- What a statement that succeeded has done: lemmas that read a successful call backwards.
use double_entry_bank_go.Base.{
  ℕ, ◌≡◌, refl, subst, Bool, true, false, Option, none, some, String, List, ◌∷◌, inl, inr, any,
  ◌==◌, arith, Option-cases, find,
}
use double_entry_bank_go.Int.{ℤ}
use double_entry_bank_go.Money.{Decimals}
use double_entry_bank_go.Errors.{GoError, Result, ok, err}
use double_entry_bank_go.World.{
  Uuid, Time, AccountRow, EntryRow, Db, World, Backend, Action, tick, statement, on_error, stop_if,
  or_fail, draw_uuid, ◌>>=◌,
}
use double_entry_bank_go.Sqlc.Models.{
  Account, Entry, CreateEntryParams, UpdateAccountBalanceParams, scan_account,
}
use double_entry_bank_go.Sqlc.Tables.{
  insert_entry, entry_check, find_account, is_settlement, numeric_param, operation_param,
  add_to_balance,
}
use double_entry_bank_go.Sqlc.Accounts.{
  fetch_account, run_update, get_account_for_update, get_settlement_account_for_update,
  update_account_balance,
}
use double_entry_bank_go.Sqlc.Entries.{run_insert, create_entry}

pub >>=-eq-ok :
    {A B : Type 0} (m : Action A) (f : A → Action B) (w : World) {x : B} {w' : World}
    → (m >>= f) w ≡ (ok x, w')
    → (a : A) × (w1 : World) × (m w ≡ (ok a, w1)) × (f a w1 ≡ (ok x, w'))
unfolding ◌>>=◌
>>=-eq-ok {A} {B} m f w {x} {w'} h = go (m w) refl
  where
    go :
        (p : Result A × World)
        → m w ≡ p
        → (a : A) × (w1 : World) × (m w ≡ (ok a, w1)) × (f a w1 ≡ (ok x, w'))
    go (ok a, w1) e = (a, w1, e, ground arith)
    go (err e', w1) e = absurd (ground arith)

pub on_error-eq-ok :
    {A : Type 0} (f : GoError → GoError) (m : Action A) (w : World) {a : A} {w' : World}
    → on_error f m w ≡ (ok a, w')
    → m w ≡ (ok a, w')
unfolding on_error
on_error-eq-ok {A} f m w {a} {w'} h = go (m w) refl
  where
    go : (p : Result A × World) → m w ≡ p → m w ≡ (ok a, w')
    go (ok x, w1) e = ground arith
    go (err e', w1) e = absurd (ground arith)

pub stop_if-eq-ok :
    (c : Bool) (e : GoError) (w : World) {w' : World}
    → stop_if c e w ≡ (ok tt, w')
    → (c ≡ false) × (w' ≡ w)
unfolding stop_if
stop_if-eq-ok true e w h = absurd (cc)
stop_if-eq-ok false e w h = (refl, ground arith)

pub or_fail-eq-ok :
    {A : Type 0} (o : Option A) (e : GoError) (w : World) {a : A} {w' : World}
    → or_fail o e w ≡ (ok a, w')
    → (o ≡ some a) × (w' ≡ w)
unfolding or_fail
or_fail-eq-ok none e w h = absurd (cc)
or_fail-eq-ok (some x) e w h = (ground arith, ground arith)

module _ (b : Backend) where
  pub draw_uuid-eq-ok :
      (w : World) {t : Uuid} {w' : World} → draw_uuid b w ≡ (ok t, w') → w'.db ≡ w.db
  draw_uuid-eq-ok w h = ground arith

  pub statement-eq-ok :
      {A : Type 0} (body : ℕ → Db → Result (A × Db)) (w : World) {a : A} {w' : World}
      → statement b body w ≡ (ok a, w')
      → (db : Db) × (body w.calls w.db ≡ ok (a, db)) × (w' ≡ record (tick w) { db = db })
  statement-eq-ok {A} body w {a} {w'} h = elim (Option-cases (b.fault w.calls)) [
    | inr (e, hit) ↦ absurd (ground arith)
    | inl calm ↦ go calm (body w.calls w.db) refl
  ]
    where
      go :
          b.fault w.calls ≡ none
          → (r : Result (A × Db)) → body w.calls w.db ≡ r
          → (db : Db) × (body w.calls w.db ≡ ok (a, db)) × (w' ≡ record (tick w) { db = db })
      go calm (ok (x, db)) e = (db, ground arith, ground arith)
      go calm (err e') e = absurd (ground arith)

-- What `INSERT INTO entries` has done when it succeeds.
pub record Inserted (d : Decimals) (arg : CreateEntryParams) (db : Db) (row : EntryRow) (db' : Db)
    : Type 0 where
  pub account : row.account_id ≡ arg.account_id
  pub transaction : row.transaction_id ≡ arg.transaction_id
  pub debit : d.numeric_in arg.debit ≡ some row.debit
  pub credit : d.numeric_in arg.credit ≡ some row.credit
  pub operation : operation_param arg.operation_type ≡ ok row.operation_type
  pub checked : entry_check row.debit row.credit ≡ true
  pub listed : any (λ a. a.id == arg.account_id) db.accounts ≡ true
  pub fresh : any (λ e. e.id == row.id) db.entries ≡ false
  pub after : db' ≡ record db { entries = row ∷ db.entries }

numeric_param-eq-ok :
    (d : Decimals) (t : String) {n : ℤ} → numeric_param d t ≡ ok n → d.numeric_in t ≡ some n
numeric_param-eq-ok d t h = ground arith

pub insert_entry-Inserted :
    (d : Decimals) (arg : CreateEntryParams) (id : Uuid) (now : Time) (db : Db) {row : EntryRow}
    {db' : Db}
    → insert_entry d arg id now db ≡ ok (row, db')
    → Inserted d arg db row db'
unfolding insert_entry
insert_entry-Inserted d arg id now db h =
    ground (arith, numeric_param-eq-ok d arg.debit, numeric_param-eq-ok d arg.credit)

module _ (d : Decimals) (db : Db) {after : Db} where
  run_insert-eq-ok :
      (arg : CreateEntryParams) (id : Uuid) (now : Time) {e : Entry}
      → run_insert d arg id now db ≡ ok (e, after)
      → (row : EntryRow) × Inserted d arg db row after
  run_insert-eq-ok arg id now {e} h = go (insert_entry d arg id now db) refl
    where
      go :
          (r : Result (EntryRow × Db))
          → insert_entry d arg id now db ≡ r
          → (row : EntryRow) × Inserted d arg db row after
      go (ok (row, db')) e1 = (
        row,
        subst (Inserted d arg db row) {x = db'} (ground arith)
            (insert_entry-Inserted d arg id now db e1),
      )
      go (err e') e1 = absurd (ground arith)

  pub fetch_account-eq-ok :
      (found : Option AccountRow) {a : Account}
      → fetch_account d found db ≡ ok (a, after)
      → (row : AccountRow) × (found ≡ some row) × (a ≡ scan_account d row) × (after ≡ db)
  fetch_account-eq-ok none h = absurd (cc)
  fetch_account-eq-ok (some row) h = (row, refl, ground arith, ground arith)

  run_update-eq-ok :
      (arg : UpdateAccountBalanceParams)
      → run_update d arg db ≡ ok (tt, after)
      → (n : ℤ) × (d.numeric_in arg.balance ≡ some n)
        × (add_to_balance arg.id n db.accounts ≡ ok after.accounts)
        × (after.users ≡ db.users)
        × (after.entries ≡ db.entries)
  run_update-eq-ok arg h = elim (Option-cases (d.numeric_in arg.balance)) [
    | inl bad ↦ absurd (ground arith)
    | inr (n, read) ↦ go n read (add_to_balance arg.id n db.accounts) refl
  ]
    where
      go :
          (n : ℤ)
          → d.numeric_in arg.balance ≡ some n
          → (r : Result (List AccountRow)) → add_to_balance arg.id n db.accounts ≡ r
          → (n : ℤ) × (d.numeric_in arg.balance ≡ some n)
            × (add_to_balance arg.id n db.accounts ≡ ok after.accounts)
            × (after.users ≡ db.users)
            × (after.entries ≡ db.entries)
      go n read (ok rows) e = (n, read, ground arith, ground arith, ground arith)
      go n read (err e') e = absurd (ground arith)

module _ (b : Backend) (w : World) {w' : World} where
  pub create_entry-eq-ok :
      (arg : CreateEntryParams) {e : Entry}
      → create_entry b arg w ≡ (ok e, w')
      → (row : EntryRow) × Inserted b.decimals arg w.db row w'.db
  unfolding create_entry
  create_entry-eq-ok arg h =
      let (db, ran, after) =
        statement-eq-ok b (λ n t. run_insert b.decimals arg (b.new_uuid n) (b.now n) t) w h in
      let (row, i) =
        run_insert-eq-ok b.decimals w.db arg (b.new_uuid w.calls) (b.now w.calls) ran in
      (row, rw after i)

  pub update_account_balance-eq-ok :
      (arg : UpdateAccountBalanceParams)
      → update_account_balance b arg w ≡ (ok tt, w')
      → (n : ℤ) × (b.decimals.numeric_in arg.balance ≡ some n)
        × (add_to_balance arg.id n w.db.accounts ≡ ok w'.db.accounts)
        × (w'.db.users ≡ w.db.users)
        × (w'.db.entries ≡ w.db.entries)
  unfolding update_account_balance
  update_account_balance-eq-ok arg h =
      let (db, ran, after) = statement-eq-ok b (λ n t. run_update b.decimals arg t) w h in
      rw after (run_update-eq-ok b.decimals w.db arg ran)

  pub get_account_for_update-eq-ok :
      (id : Uuid) {a : Account}
      → get_account_for_update b id w ≡ (ok a, w')
      → (row : AccountRow) × (find_account id w.db.accounts ≡ some row)
        × (a ≡ scan_account b.decimals row)
        × (w'.db ≡ w.db)
  unfolding get_account_for_update
  get_account_for_update-eq-ok id h =
      let (db, ran, after) =
        statement-eq-ok b (λ n t. fetch_account b.decimals (find_account id t.accounts) t) w h in
      rw after (fetch_account-eq-ok b.decimals w.db (find_account id w.db.accounts) ran)

  pub get_settlement_account_for_update-eq-ok :
      {a : Account}
      → get_settlement_account_for_update b w ≡ (ok a, w')
      → (row : AccountRow) × (find is_settlement w.db.accounts ≡ some row)
        × (a ≡ scan_account b.decimals row)
        × (w'.db ≡ w.db)
  unfolding get_settlement_account_for_update
  get_settlement_account_for_update-eq-ok h =
      let (db, ran, after) =
        statement-eq-ok b (λ n t. fetch_account b.decimals (find is_settlement t.accounts) t) w h in
      rw after (fetch_account-eq-ok b.decimals w.db (find is_settlement w.db.accounts) ran)
