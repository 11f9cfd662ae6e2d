-- ===== src/Service/History.antt =====
-- Any history of requests: what the tables satisfy after it.
use double_entry_bank_go.Base.{
  All-map, ◌≡◌, refl, sym, ◌∙◌, subst, Bool, true, false, ◌||◌, none, ℕ, String, List, [], ◌∷◌, inl,
  inr, any, ◌==◌, ==_iff, All, arith, Bool-cases, Option-cases,
}
use double_entry_bank_go.Int.{pos, int_laws}
use double_entry_bank_go.Money.{Decimals, DecimalLaws}
use double_entry_bank_go.Errors.{database, Result, ok, err}
use double_entry_bank_go.World.{
  Uuid, Time, UserRow, AccountRow, EntryRow, Db, World, Backend, tick, statement,
}
use double_entry_bank_go.Sqlc.Models.{Account, CreateAccountParams, CreateUserParams, CreateUserRow}
use double_entry_bank_go.Sqlc.Tables.{fits, sum_credit, sum_debit}
use double_entry_bank_go.Sqlc.Accounts.{insert_account, run_create, create_account}
use double_entry_bank_go.Sqlc.Users.{insert_user, run_register, create_user}
use double_entry_bank_go.Service.{deposit, withdraw, transfer}
use double_entry_bank_go.Service.Invariant.{IsLedger, IsAnchored}
use double_entry_bank_go.Service.Guarantees.{deposit-IsLedger, withdraw-IsLedger, transfer-IsLedger}

-- The calls by which the handlers change the tables.
pub data Call : Type 0 where
  register : CreateUserParams → Call
  open_account : CreateAccountParams → Call
  deposits withdraws : Uuid → String → Call
  transfers : Uuid → Uuid → String → Call

module _ (b : Backend) where
  unfoldable pub perform : Call → World → World
  perform (register arg) w = (create_user b arg w).1
  perform (open_account arg) w = (create_account b arg w).1
  perform (deposits id text) w = (deposit b id text w).1
  perform (withdraws id text) w = (withdraw b id text w).1
  perform (transfers from_id to_id text) w = (transfer b from_id to_id text w).1

  unfoldable pub history : List Call → World → World
  history [] w = w
  history (c ∷ cs) w = history cs (perform c w)

fits_zero : fits (pos 0) ≡ true
unfolding fits
fits_zero = refl

or_true : (x : Bool) {y : Bool} → y ≡ true → (x || y) ≡ true
or_true x h = ground arith

-- An account that no entry names has no entries.
unnamed_sums :
    (id : Uuid) (rows : List AccountRow) (es : List EntryRow)
    → any (λ a. a.id == id) rows ≡ false
    → All (IsAnchored rows) es
    → (sum_credit id es ≡ pos 0) × (sum_debit id es ≡ pos 0)
unfolding sum_credit sum_debit
unnamed_sums id rows [] new h = (refl, refl)
unnamed_sums id rows (e ∷ es) new (here, h) = elim (Bool-cases (e.account_id == id)) [
  | inr other ↦ rw other (unnamed_sums id rows es new h)
  | inl mine ↦
      let same = (==_iff e.account_id id).0 mine in
      absurd (cc (sym (subst (λ k. any (λ a. a.id == k) rows ≡ true) same here) ∙ new))
]

pub insert_account-eq-ok :
    (arg : CreateAccountParams) (id : Uuid) (now : Time) (db : Db) {row : AccountRow} {db' : Db}
    → insert_account arg id now db ≡ ok (row, db')
    → (any (λ a. a.id == row.id) db.accounts ≡ false)
      × (row.balance ≡ pos 0)
      × (db' ≡ record db { accounts = row ∷ db.accounts })
unfolding insert_account
insert_account-eq-ok arg id now db h = ground arith

-- A new account has a fresh id, no entries and no money.
pub add_account-IsLedger :
    (row : AccountRow) (db : Db)
    → IsLedger db
    → any (λ a. a.id == row.id) db.accounts ≡ false
    → row.balance ≡ pos 0
    → IsLedger (record db { accounts = row ∷ db.accounts })
add_account-IsLedger row db l new empty =
    let (credits, debits) = unnamed_sums row.id db.accounts db.entries new l.anchored in
    record {
      keyed = (new, l.keyed);
      reconciled = (empty ∙ (rw (credits, debits) (omega int_laws)), l.reconciled);
      in_range = (rw empty fits_zero, l.in_range);
      solvent = (inr (rw empty (omega arith)), l.solvent);
      conserved = rw (empty, l.conserved) (omega int_laws);
      checked = l.checked;
      anchored =
          All-map (IsAnchored db.accounts) (IsAnchored (row ∷ db.accounts))
            (λ e h. or_true (row.id == e.account_id) h) db.entries l.anchored;
      balanced = l.balanced;
    }

pub statement-keeps :
    {A : Type 0} (b : Backend) (body : ℕ → Db → Result (A × Db)) (Inv : Db → Type 0)
    → ((n : ℕ) (db db' : Db) (a : A) → Inv db → body n db ≡ ok (a, db') → Inv db')
    → (w : World) → Inv w.db
    → Inv (statement b body w).1.db
statement-keeps {A} b body Inv keeps w h = elim (Option-cases (b.fault w.calls)) [
  | inr (e, hit) ↦
      subst (λ (p : Result A × World). Inv p.1.db) {x = (err (database e), tick w)}
        {y = statement b body w} (ground arith) h
  | inl calm ↦ go calm (body w.calls w.db) refl
]
  where
    go :
        b.fault w.calls ≡ none
        → (r : Result (A × Db)) → body w.calls w.db ≡ r
        → Inv (statement b body w).1.db
    go calm (ok (a, db')) ran =
        subst (λ (p : Result A × World). Inv p.1.db) {x = (ok a, record (tick w) { db = db' })}
          {y = statement b body w} (ground arith) (keeps w.calls w.db db' a h ran)
    go calm (err e) ran =
        subst (λ (p : Result A × World). Inv p.1.db) {x = (err e, tick w)} {y = statement b body w}
          (ground arith) h

pub run_create-IsLedger :
    (d : Decimals) (arg : CreateAccountParams) (id : Uuid) (now : Time) (db db' : Db) (a : Account)
    → IsLedger db
    → run_create d arg id now db ≡ ok (a, db')
    → IsLedger db'
run_create-IsLedger d arg id now db db' a l h = go (insert_account arg id now db) refl
  where
    go : (r : Result (AccountRow × Db)) → insert_account arg id now db ≡ r → IsLedger db'
    go (err e) same = absurd (ground arith)
    go (ok (row, db1)) same =
        let (new, empty, after) = insert_account-eq-ok arg id now db same in
        subst IsLedger {x = record db { accounts = row ∷ db.accounts }} (ground arith)
          (add_account-IsLedger row db l new empty)

with_users : (db : Db) (users : List UserRow) → IsLedger db → IsLedger (record db { users = users })
with_users db users l = record {
  keyed = l.keyed;
  reconciled = l.reconciled;
  in_range = l.in_range;
  solvent = l.solvent;
  conserved = l.conserved;
  checked = l.checked;
  anchored = l.anchored;
  balanced = l.balanced;
}

-- Registering a user touches no account and no entry.
pub run_register-IsLedger :
    (arg : CreateUserParams) (id : Uuid) (now : Time) (db db' : Db) (u : CreateUserRow)
    → IsLedger db
    → run_register arg id now db ≡ ok (u, db')
    → IsLedger db'
unfolding insert_user
run_register-IsLedger arg id now db db' u l h =
    subst IsLedger {x = record db { users = db'.users }} (ground arith) (with_users db db'.users l)

module _ (b : Backend) (laws : DecimalLaws b.decimals) where
  perform-IsLedger : (c : Call) (w : World) → IsLedger w.db → IsLedger (perform b c w).db
  unfolding perform create_user create_account
  perform-IsLedger (register arg) w l =
      statement-keeps b (λ n db. run_register arg (b.new_uuid n) (b.now n) db) IsLedger
        (λ n db db' u. run_register-IsLedger arg (b.new_uuid n) (b.now n) db db' u) w l
  perform-IsLedger (open_account arg) w l =
      statement-keeps b (λ n db. run_create b.decimals arg (b.new_uuid n) (b.now n) db) IsLedger
        (λ n db db' a. run_create-IsLedger b.decimals arg (b.new_uuid n) (b.now n) db db' a) w l
  perform-IsLedger (deposits id text) w l = deposit-IsLedger b laws id text w l
  perform-IsLedger (withdraws id text) w l = withdraw-IsLedger b laws id text w l
  perform-IsLedger (transfers from_id to_id text) w l =
      transfer-IsLedger b laws from_id to_id text w l

  pub create_user-IsLedger :
      (arg : CreateUserParams) (w : World) → IsLedger w.db → IsLedger (create_user b arg w).1.db
  unfolding perform
  create_user-IsLedger arg w l = perform-IsLedger (register arg) w l

  pub create_account-IsLedger :
      (arg : CreateAccountParams) (w : World)
      → IsLedger w.db
      → IsLedger (create_account b arg w).1.db
  unfolding perform
  create_account-IsLedger arg w l = perform-IsLedger (open_account arg) w l

  -- After any history of registrations, new accounts, deposits, withdrawals and transfers, from
  -- tables that satisfy the invariant, it holds: ids are distinct, every stored balance is the one
  -- that the entries give and fits its column, only the settlement account may be negative, the
  -- balances sum to zero, every entry is single-sided and names an account, and the entries of each
  -- transaction balance. The database may answer any call with an error.
  pub history-IsLedger : (cs : List Call) (w : World) → IsLedger w.db → IsLedger (history b cs w).db
  unfolding history
  history-IsLedger [] w l = l
  history-IsLedger (c ∷ cs) w l = history-IsLedger cs (perform b c w) (perform-IsLedger c w l)
