-- ===== src/Service/Migrated.antt =====
-- The migrations of postgres/migrations against the invariant of the ledger.
use double_entry_bank_go.Base.{
  All-map, ◌≡◌, ◌⊎◌, refl, sym, ◌∙◌, ap, subst, true, false, not, ◌||◌, ◌==◌, str_eq, String, List,
  [], ◌∷◌, map, any, All, Bool-cases, none, some, inl, inr,
}
use double_entry_bank_go.Int.{pos, ◌+ℤ◌}
use double_entry_bank_go.Errors.{ok}
use double_entry_bank_go.World.{Uuid, Time, AccountRow, Db}
use double_entry_bank_go.Sqlc.Tables.{is_settlement, fits}
use double_entry_bank_go.Sqlc.Balances.{DistinctIds, total}
use double_entry_bank_go.Sqlc.Accounts.{insert_account}
use double_entry_bank_go.Sqlc.Migrations.{
  absent, present, create_if_missing, create_users, seed_settlement, create_accounts,
  create_entries, to_usd, fix_currency, migrate_up, drop_entries, drop_accounts, drop_users,
  migrate_down,
}
use double_entry_bank_go.Service.Invariant.{IsLedger, IsAnchored, IsReconciled, InRange, IsSolvent}
use double_entry_bank_go.Service.History.{add_account-IsLedger}

-- The update of the currency changes nothing else of a row.
usd : (a : AccountRow) → (record a { currency = (to_usd a).currency }) ≡ to_usd a
unfolding to_usd
usd a = elim (Bool-cases (not (str_eq a.currency "USD"))) [
  | inl other ↦ rw other refl
  | inr already ↦ rw already refl
]

-- A property that does not read the currency.
carried :
    (P : AccountRow → Type 0)
    → ((a : AccountRow) (c : String) → P a → P (record a { currency = c }))
    → (accounts : List AccountRow) → All P accounts
    → All P (map to_usd accounts)
carried P stays [] _ = tt
carried P stays (a ∷ accounts) (here, there) =
    (subst P (usd a) (stays a (to_usd a).currency here), carried P stays accounts there)

any-to_usd :
    (id : Uuid) (accounts : List AccountRow)
    → any (λ a. a.id == id) (map to_usd accounts) ≡ any (λ a. a.id == id) accounts
any-to_usd id [] = refl
any-to_usd id (a ∷ accounts) =
    ap (λ r. (r.id == id || any (λ x. x.id == id) (map to_usd accounts))) (sym (usd a))
    ∙ ap (λ rest. (a.id == id || rest)) (any-to_usd id accounts)

total-to_usd : (accounts : List AccountRow) → total (map to_usd accounts) ≡ total accounts
total-to_usd [] = refl
total-to_usd (a ∷ accounts) =
    ap (λ r. r.balance +ℤ total (map to_usd accounts)) (sym (usd a))
    ∙ ap (λ rest. a.balance +ℤ rest) (total-to_usd accounts)

DistinctIds-to_usd :
    (accounts : List AccountRow) → DistinctIds accounts → DistinctIds (map to_usd accounts)
DistinctIds-to_usd [] _ = tt
DistinctIds-to_usd (a ∷ accounts) (here, there) = (
  subst (λ r. any (λ x. x.id == r.id) (map to_usd accounts) ≡ false) (usd a)
      (any-to_usd a.id accounts ∙ here),
  DistinctIds-to_usd accounts there,
)

to_usd-IsLedger :
    (db : Db) → IsLedger db → IsLedger (record db { accounts = map to_usd db.accounts })
to_usd-IsLedger db l = record {
  keyed = DistinctIds-to_usd db.accounts l.keyed;
  reconciled = carried (IsReconciled db.entries) (λ a c h. h) db.accounts l.reconciled;
  in_range = carried InRange (λ a c h. h) db.accounts l.in_range;
  solvent = carried IsSolvent (λ a c h. h) db.accounts l.solvent;
  conserved = total-to_usd db.accounts ∙ l.conserved;
  checked = l.checked;
  anchored =
      All-map (IsAnchored db.accounts) (IsAnchored (map to_usd db.accounts))
        (λ e h. any-to_usd e.account_id db.accounts ∙ h) db.entries l.anchored;
  balanced = l.balanced;
}

any_settlement-to_usd :
    (accounts : List AccountRow)
    → any is_settlement (map to_usd accounts) ≡ any is_settlement accounts
any_settlement-to_usd [] = refl
any_settlement-to_usd (a ∷ accounts) =
    ap (λ r. (is_settlement r || any is_settlement (map to_usd accounts))) (sym (usd a))
    ∙ ap (λ rest. (is_settlement a || rest)) (any_settlement-to_usd accounts)

-- The row of the settlement account.
abbrev pub settlement_row : Uuid → Time → AccountRow
settlement_row id now = record {
  id = id;
  owner_id = none;
  name = "Settlement Account";
  balance = pos 0;
  currency = "USD";
  is_system = true;
  created_at = some now;
}

-- The seed, where there is a settlement account already or its identifier is new.
seeded :
    (id : Uuid) (now : Time) (db : Db)
    → IsLedger db
    → (any is_settlement db.accounts ≡ true) ⊎ (any (λ a. a.id == id) db.accounts ≡ false)
    → (db' : Db) × (seed_settlement id now db ≡ ok db')
      × IsLedger db'
      × (any is_settlement db'.accounts ≡ true)
      × (db'.entries ≡ db.entries)
      × (db'.users ≡ db.users)
unfolding seed_settlement insert_account
seeded id now db l ready = elim (Bool-cases (any is_settlement db.accounts)) [
  | inl there ↦ (db, rw (seed_settlement, there) refl, l, there, refl, refl)
  | inr missing ↦ elim ready [
    | inl there ↦ absurd (cc (sym missing ∙ there))
    | inr new ↦ (
      record db { accounts = settlement_row id now ∷ db.accounts },
      rw (seed_settlement, missing, insert_account, new) refl,
      add_account-IsLedger (settlement_row id now) db l new refl,
      refl,
      refl,
      refl,
    )
  ]
]

-- The migrations succeed on tables that satisfy the invariant of the ledger, and leave tables that
-- satisfy it, with a settlement account, the entries and the users as they were, where there is a
-- settlement account already or the identifier of the seed is new.
pub migrate_up_again :
    (id : Uuid) (now : Time) (db : Db)
    → IsLedger db
    → (any is_settlement db.accounts ≡ true) ⊎ (any (λ a. a.id == id) db.accounts ≡ false)
    → (db' : Db) × (migrate_up id now (present db) ≡ ok (present db'))
      × IsLedger db'
      × (any is_settlement db'.accounts ≡ true)
      × (db'.entries ≡ db.entries)
      × (db'.users ≡ db.users)
unfolding migrate_up create_users create_accounts create_entries fix_currency create_if_missing
migrate_up_again id now db l ready =
    let (db', ran, l', there, entries, users) = seeded id now db l ready in
    (
      record db' { accounts = map to_usd db'.accounts },
      rw (ran, entries, users) refl,
      to_usd-IsLedger db' l',
      any_settlement-to_usd db'.accounts ∙ there,
      entries,
      users,
    )

-- What the migrations leave of a database without tables.
abbrev pub first_tables : Uuid → Time → Db
first_tables id now = record { users = []; accounts = settlement_row id now ∷ []; entries = [] }

pub migrate_up-absent :
    (id : Uuid) (now : Time) → migrate_up id now absent ≡ ok (present (first_tables id now))
unfolding migrate_up create_users create_accounts create_entries fix_currency create_if_missing
    seed_settlement insert_account to_usd
migrate_up-absent id now = refl

pub first_tables-IsLedger : (id : Uuid) (now : Time) → IsLedger (first_tables id now)
unfolding fits
first_tables-IsLedger id now =
    add_account-IsLedger (settlement_row id now)
      (record { users = []; accounts = []; entries = [] })
      (record {
        keyed = tt;
        reconciled = tt;
        in_range = tt;
        solvent = tt;
        conserved = refl;
        checked = tt;
        anchored = tt;
        balanced = λ t. refl;
      })
      refl refl

-- Rolled back from any tables, the migrations leave no table.
pub migrate_down-present : (db : Db) → migrate_down (present db) ≡ ok absent
unfolding migrate_down drop_entries drop_accounts drop_users
migrate_down-present db = refl
