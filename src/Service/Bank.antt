-- ===== src/Service/Bank.antt =====
-- The bank that the tables stand for: balances by account, and one account, the house, that may be
-- overdrawn. Its steps are openings and payments.
use double_entry_bank_go.Base.{
  ◌≡◌, ◌≢◌, ◌⊎◌, refl, sym, ◌∙◌, ap, subst, some, none, Option, ==_iff, ◌==◌, inl, inr, find, List,
  [], ◌∷◌, Bool-cases, false, any, arith,
}
use double_entry_bank_go.Int.{◌≤ℤ◌, ℤ, pos, ◌+ℤ◌, ◌-ℤ◌, int_laws}
use double_entry_bank_go.Errors.{ok}
use double_entry_bank_go.World.{AccountRow, Uuid, Db}
use double_entry_bank_go.Sqlc.Tables.{find_account, is_settlement, add_to_balance}
use double_entry_bank_go.Sqlc.Balances.{Moved, add_to_balance-cons}
use double_entry_bank_go.Sqlc.Lookup.{balance_of, stored_balance, stored_balance-add_to_balance}
use double_entry_bank_go.Service.Invariant.{Posted}
use double_entry_bank_go.Service.Outcome.{Paid}
use double_entry_bank_go.Service.Effects.{Posted_others}

pub record Book : Type 0 where
  pub balance : Uuid → Option ℤ
  pub house : Option Uuid

abbrev pub id_of : Option AccountRow → Option Uuid
id_of none = none
id_of (some a) = some a.id

-- What the bank is where these are the rows of the accounts.
abbrev pub book : List AccountRow → Book
book rows = record { balance = λ k. stored_balance k rows; house = id_of (find is_settlement rows) }

-- One step of the bank.
pub data Step (x y : Book) : Type 0 where
  -- A new account begins at zero.
  opens :
      (id : Uuid)
      → x.balance id ≡ none
      → y.balance id ≡ some (pos 0)
      → ((k : Uuid) → k ≢ id → y.balance k ≡ x.balance k)
      → Step x y
  -- An account pays another one, which the payer can afford or is the house.
  pays :
      (payer payee : Uuid) (n u v : ℤ)
      → payer ≢ payee
      → pos 0 ≤ℤ n
      → (n ≤ℤ u) ⊎ (x.house ≡ some payer)
      → x.balance payer ≡ some u
      → x.balance payee ≡ some v
      → y.balance payer ≡ some (u -ℤ n)
      → y.balance payee ≡ some (v +ℤ n)
      → ((k : Uuid) → k ≢ payer → k ≢ payee → y.balance k ≡ x.balance k)
      → y.house ≡ x.house
      → Step x y
  -- The house pays itself.
  stays : ((k : Uuid) → y.balance k ≡ x.balance k) → y.house ≡ x.house → Step x y

-- Any number of steps, the last one outermost.
pub data Trace (x : Book) : Book → Type 0 where
  unchanged : Trace x x
  after : {y z : Book} → Trace x y → Step y z → Trace x z

-- An update of a balance leaves the house where it is.
house_step :
    (id : Uuid) (n : ℤ) (a : AccountRow) (rows rest : List AccountRow) (m : ℤ)
    → Moved id n a m
    → id_of (find is_settlement rest) ≡ id_of (find is_settlement rows)
    → id_of (find is_settlement (record a { balance = m } ∷ rest))
      ≡ id_of (find is_settlement (a ∷ rows))
house_step id n a rows rest m moved ih = elim (Bool-cases (is_settlement a)) [
  | inl house ↦ rw house refl
  | inr other ↦ rw other ih
]

house-add_to_balance :
    (id : Uuid) (n : ℤ) (rows : List AccountRow) {rows' : List AccountRow}
    → add_to_balance id n rows ≡ ok rows'
    → id_of (find is_settlement rows') ≡ id_of (find is_settlement rows)
unfolding add_to_balance
house-add_to_balance id n [] {rows'} h =
    subst (λ r. id_of (find is_settlement r) ≡ none) {x = []} {y = rows'} (ground arith) refl
house-add_to_balance id n (a ∷ rows) h =
    let (rest, m, later, shape, moved) = add_to_balance-cons id n a rows h in
    rw shape (house_step id n a rows rest m moved (house-add_to_balance id n rows later))

module _ (first second : Uuid) (debit credit : ℤ) (db db' : Db)
    (p : Posted first second debit credit db db') where
  pub Posted_house : (book db'.accounts).house ≡ (book db.accounts).house
  Posted_house =
      house-add_to_balance second _ p.mid p.updated2
      ∙ house-add_to_balance first _ db.accounts p.updated1

  -- A movement between an account and itself changes no balance.
  pub Posted_same :
      (u : ℤ)
      → first ≡ second
      → stored_balance first db.accounts ≡ some u
      → (k : Uuid) → stored_balance k db'.accounts ≡ stored_balance k db.accounts
  Posted_same u same e k = elim (Bool-cases (k == first)) [
    | inr other ↦ ap balance_of (
        Posted_others first second debit credit db db' p k (differs other)
          (λ q. differs other (q ∙ sym same)))
    | inl mine ↦
        let own = (==_iff k first).0 mine in
        let step1 = stored_balance-add_to_balance first _ db.accounts p.updated1 e in
        let step2 =
          stored_balance-add_to_balance second _ p.mid p.updated2
            (subst (λ j. stored_balance j p.mid ≡ some (u +ℤ (credit -ℤ debit))) same step1) in
        subst (λ j. stored_balance j db'.accounts ≡ stored_balance j db.accounts) (sym own)
          (subst
              (λ j.
                stored_balance j db'.accounts
                ≡ some ((u +ℤ (credit -ℤ debit)) +ℤ (debit -ℤ credit)))
              (sym same) step2
            ∙ ap some (back u)
            ∙ sym e)
  ]
    where
      back : (u : ℤ) → (u +ℤ (credit -ℤ debit)) +ℤ (debit -ℤ credit) ≡ u
      back u = omega int_laws

      differs : (k == first) ≡ false → k ≢ first
      differs other q = let t = (==_iff k first).1 q in cc

-- A payment is a step of the bank.
pub Paid-Step :
    (payer payee : Uuid) (n u v : ℤ) (db db' : Db)
    → payer ≢ payee
    → pos 0 ≤ℤ n
    → (n ≤ℤ u) ⊎ ((book db.accounts).house ≡ some payer)
    → stored_balance payer db.accounts ≡ some u
    → stored_balance payee db.accounts ≡ some v
    → (book db'.accounts).house ≡ (book db.accounts).house
    → Paid payer payee n u v db db'
    → Step (book db.accounts) (book db'.accounts)
Paid-Step payer payee n u v db db' ne positive affordable eu ev same p =
    pays payer payee n u v ne positive affordable eu ev p.lost p.gained
      (λ k n1 n2. ap balance_of (p.others k n1 n2)) same

unlisted :
    (id : Uuid) (rows : List AccountRow)
    → any (λ a. a.id == id) rows ≡ false
    → find_account id rows ≡ none
unlisted id [] h = refl
unlisted id (a ∷ rows) h = ground (arith, unlisted id rows)

-- A new account is a step of the bank.
pub opened-Step :
    (row : AccountRow) (rows : List AccountRow)
    → any (λ a. a.id == row.id) rows ≡ false
    → row.balance ≡ pos 0
    → Step (book rows) (book (row ∷ rows))
opened-Step row rows new empty =
    opens row.id (ap balance_of (unlisted row.id rows new))
      (rw ((==_iff row.id row.id).1 refl) (ap some empty)) (λ k ne. kept k ne)
  where
    kept : (k : Uuid) → k ≢ row.id → stored_balance k (row ∷ rows) ≡ stored_balance k rows
    kept k ne = elim (Bool-cases (row.id == k)) [
      | inl same ↦ absurd (ne (sym ((==_iff row.id k).0 same)))
      | inr other ↦ rw other refl
    ]
