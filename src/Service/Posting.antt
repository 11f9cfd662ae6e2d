-- ===== src/Service/Posting.antt =====
-- The part that the three transactions share, once their guards have passed: two `CreateEntry` and
-- two `UpdateAccountBalance`.
use double_entry_bank_go.Base.{◌≡◌, sym, ◌∙◌, ap, Option, some, ◌∷◌}
use mathlib.Core.Option.{some-injective}
use double_entry_bank_go.Int.{ℤ, ◌-ℤ◌}
use double_entry_bank_go.World.{EntryRow, Db, World, Backend, Action, ◌>>=◌, ◌>>◌}
use double_entry_bank_go.Errors.{ok}
use double_entry_bank_go.Sqlc.Models.{CreateEntryParams, UpdateAccountBalanceParams}
use double_entry_bank_go.Sqlc.Tables.{add_to_balance}
use double_entry_bank_go.Sqlc.Accounts.{update_account_balance}
use double_entry_bank_go.Sqlc.Entries.{create_entry}
use double_entry_bank_go.Sqlc.Inversion.{
  >>=-eq-ok, Inserted, create_entry-eq-ok, update_account_balance-eq-ok,
}
use double_entry_bank_go.Service.Invariant.{Posted}

read_once : {o : Option ℤ} {m n : ℤ} → o ≡ some m → o ≡ some n → m ≡ n
read_once p q = some-injective _ _ (sym p ∙ q)

module _ (b : Backend) where
  unfoldable pub post :
      CreateEntryParams
      → CreateEntryParams
      → UpdateAccountBalanceParams
      → UpdateAccountBalanceParams
      → Action (Unit {0})
  post p1 p2 u1 u2 = do
    _ ← create_entry b p1
    _ ← create_entry b p2
    update_account_balance b u1
    update_account_balance b u2

  module _ (debit credit : ℤ) (p1 p2 : CreateEntryParams) (u1 u2 : UpdateAccountBalanceParams)
      (account1 : u1.id ≡ p1.account_id) (account2 : u2.id ≡ p2.account_id)
      (transaction : p2.transaction_id ≡ p1.transaction_id)
      (debit1 : b.decimals.numeric_in p1.debit ≡ some debit)
      (credit1 : b.decimals.numeric_in p1.credit ≡ some credit)
      (debit2 : b.decimals.numeric_in p2.debit ≡ some credit)
      (credit2 : b.decimals.numeric_in p2.credit ≡ some debit)
      (delta1 : b.decimals.numeric_in u1.balance ≡ some (credit -ℤ debit))
      (delta2 : b.decimals.numeric_in u2.balance ≡ some (debit -ℤ credit)) where
    assemble :
        (db db1 db2 db3 db4 : Db) (row1 row2 : EntryRow) (n1 n2 : ℤ)
        → Inserted b.decimals p1 db row1 db1
        → Inserted b.decimals p2 db1 row2 db2
        → b.decimals.numeric_in u1.balance ≡ some n1
        → add_to_balance u1.id n1 db2.accounts ≡ ok db3.accounts
        → db3.users ≡ db2.users
        → db3.entries ≡ db2.entries
        → b.decimals.numeric_in u2.balance ≡ some n2
        → add_to_balance u2.id n2 db3.accounts ≡ ok db4.accounts
        → db4.users ≡ db3.users
        → db4.entries ≡ db3.entries
        → Posted p1.account_id p2.account_id debit credit db db4
    assemble db db1 db2 db3 db4 row1 row2 n1 n2 i1 i2 read1 sum1 users1 kept1 read2 sum2 users2
          kept2 =
        let rows1 : db1.accounts ≡ db.accounts = ap (λ t. t.accounts) i1.after in
        let rows2 : db2.accounts ≡ db1.accounts = ap (λ t. t.accounts) i2.after in
        let row1_debit = read_once i1.debit debit1 in
        let row1_credit = read_once i1.credit credit1 in
        let row2_debit = read_once i2.debit debit2 in
        let row2_credit = read_once i2.credit credit2 in
        record {
          entry1 = row1;
          entry2 = row2;
          mid = db3.accounts;
          account1 = i1.account;
          account2 = i2.account;
          same_transaction = i2.transaction ∙ transaction ∙ sym i1.transaction;
          debit1 = row1_debit;
          credit1 = row1_credit;
          debit2 = row2_debit;
          credit2 = row2_credit;
          checked1 = rw (← row1_debit, ← row1_credit) i1.checked;
          checked2 = rw (← row2_debit, ← row2_credit) i2.checked;
          listed1 = i1.listed;
          listed2 = rw (← rows1) i2.listed;
          users = users2 ∙ users1 ∙ ap (λ t. t.users) i2.after ∙ ap (λ t. t.users) i1.after;
          entries =
              kept2 ∙ kept1 ∙ ap (λ t. t.entries) i2.after ∙ ap (λ t. row2 ∷ t.entries) i1.after;
          updated1 = rw (← account1, ← rows1, ← rows2, ← read_once read1 delta1) sum1;
          updated2 = rw (← account2, ← read_once read2 delta2) sum2;
        }

    pub post-Posted :
        (w : World) {w' : World}
        → post p1 p2 u1 u2 w ≡ (ok tt, w')
        → Posted p1.account_id p2.account_id debit credit w.db w'.db
    unfolding post ◌>>◌
    post-Posted w {w'} h =
        let (e1, w1, ran1, h1) = >>=-eq-ok _ _ w h in
        let (e2, w2, ran2, h2) = >>=-eq-ok _ _ w1 h1 in
        let (_, w3, ran3, ran4) = >>=-eq-ok _ _ w2 h2 in
        let (row1, i1) = create_entry-eq-ok b w p1 ran1 in
        let (row2, i2) = create_entry-eq-ok b w1 p2 ran2 in
        let (n1, read1, sum1, users1, entries1) = update_account_balance-eq-ok b w2 u1 ran3 in
        let (n2, read2, sum2, users2, entries2) = update_account_balance-eq-ok b w3 u2 ran4 in
        assemble w.db w1.db w2.db w3.db w'.db row1 row2 n1 n2 i1 i2 read1 sum1 users1 entries1 read2
          sum2 users2 entries2
