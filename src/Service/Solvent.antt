-- ===== src/Service/Solvent.antt =====
-- The three movements keep the invariant: each account that loses money can bear it.
use double_entry_bank_go.Base.{
  All-map, ◌≡◌, sym, ◌∙◌, subst, true, some, List, find, ◌==◌, inl, inr, All,
}
use double_entry_bank_go.Int.{ℤ, pos, ◌+ℤ◌, ◌-ℤ◌, ◌≤ℤ◌, int_laws}
use double_entry_bank_go.Money.{DecimalLaws}
use double_entry_bank_go.World.{Uuid, AccountRow, Db, Backend}
use double_entry_bank_go.Sqlc.Tables.{find_account, is_settlement}
use double_entry_bank_go.Sqlc.Balances.{DistinctIds}
use double_entry_bank_go.Sqlc.Lookup.{find_passes, find_unique, find_account-id}
use double_entry_bank_go.Service.Invariant.{IsLedger, IsSolvent}
use double_entry_bank_go.Service.Kept.{Bears, Bears-of_gain, Posted-IsLedger}
use double_entry_bank_go.Service.Movements.{Deposited, Withdrawn, Transferred}

-- The row that is found covers what it is to lose, so every row of its id does.
covered-Bears :
    (id : Uuid) (rows : List AccountRow) (row : AccountRow) (m : ℤ)
    → DistinctIds rows
    → find_account id rows ≡ some row
    → m ≤ℤ row.balance
    → All (Bears id (pos 0 -ℤ m)) rows
covered-Bears id rows row m keyed found covered =
    let own = find_account-id id rows found in
    All-map (λ a. a.id ≡ row.id → a ≡ row) (Bears id (pos 0 -ℤ m))
      (λ a same mine.
        subst (λ x. IsSolvent (record x { balance = x.balance +ℤ (pos 0 -ℤ m) }))
          (sym (same (mine ∙ sym own))) (inr (omega int_laws)))
      rows (find_unique (λ a. a.id == id) rows keyed found)

settlement_bears :
    (rows : List AccountRow) (row : AccountRow)
    → DistinctIds rows
    → find is_settlement rows ≡ some row
    → All (λ a. a.id ≡ row.id → is_settlement a ≡ true) rows
settlement_bears rows row keyed settled =
    All-map (λ a. a.id ≡ row.id → a ≡ row) (λ a. a.id ≡ row.id → is_settlement a ≡ true)
      (λ a same mine.
        subst (λ x. is_settlement x ≡ true) (sym (same mine))
          (find_passes is_settlement rows settled))
      rows (find_unique is_settlement rows keyed settled)

module _ (b : Backend) (laws : DecimalLaws b.decimals) where
  open b use {decimals as d}
  open laws use {units}

  module _ {amount : d.Decimal} {db db' : Db} (positive : pos 0 ≤ℤ units amount)
      (l : IsLedger db) where
    pub Deposited-IsLedger : (id : Uuid) → Deposited b laws id amount db db' → IsLedger db'
    Deposited-IsLedger id m =
        Posted-IsLedger id m.settlement.id (pos 0) (units amount) db db' m.posted l
          (All-map IsSolvent (Bears id (units amount -ℤ pos 0))
            (λ a. Bears-of_gain id (units amount -ℤ pos 0) a (omega int_laws)) db.accounts
            l.solvent)
          (inr (settlement_bears db.accounts m.settlement l.keyed m.settled))

    pub Withdrawn-IsLedger : (id : Uuid) → Withdrawn b laws id amount db db' → IsLedger db'
    Withdrawn-IsLedger id m =
        Posted-IsLedger id m.settlement.id (units amount) (pos 0) db db' m.posted l
          (covered-Bears id db.accounts m.account (units amount) l.keyed m.found m.covered)
          (inl (omega int_laws))

    pub Transferred-IsLedger :
        (from_id to_id : Uuid) → Transferred b laws from_id to_id amount db db' → IsLedger db'
    Transferred-IsLedger from_id to_id m =
        Posted-IsLedger from_id to_id (units amount) (pos 0) db db' m.posted l
          (covered-Bears from_id db.accounts m.sender (units amount) l.keyed m.found m.covered)
          (inl (omega int_laws))
