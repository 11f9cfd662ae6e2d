-- ===== src/Sqlc/Balances.antt =====
-- Balances under an update, and the calculated balance under an insertion.
use double_entry_bank_go.Base.{
  ◌≡◌, ◌≢◌, ◌⊎◌, refl, sym, ◌∙◌, subst, true, false, List, [], ◌∷◌, inl, inr, any, ◌==◌,
  if◌then◌else◌, arith, All, Bool-cases,
}
use double_entry_bank_go.Int.{ℤ, pos, ◌+ℤ◌, ◌-ℤ◌, int_laws}
use double_entry_bank_go.Errors.{Result, ok, err}
use double_entry_bank_go.World.{Uuid, AccountRow, EntryRow}
use double_entry_bank_go.Sqlc.Tables.{
  fits, add_to_balance, sum_credit, sum_debit, calculated_balance,
}

-- What one entry adds to the balance of an account.
abbrev pub contribution : Uuid → EntryRow → ℤ
contribution id e = if e.account_id == id then e.credit -ℤ e.debit else pos 0

pub calculated_balance-cons :
    (id : Uuid) (e : EntryRow) (es : List EntryRow)
    → calculated_balance id (e ∷ es) ≡ calculated_balance id es +ℤ contribution id e
unfolding sum_credit sum_debit
calculated_balance-cons id e es = elim (Bool-cases (e.account_id == id)) [
  | inl mine ↦ rw mine (omega int_laws)
  | inr other ↦ rw other (omega int_laws)
]

-- The new balance of a row, and why.
abbrev pub Moved : Uuid → ℤ → AccountRow → ℤ → Type 0
Moved id n a m =
    ((a.id ≡ id) × (m ≡ a.balance +ℤ n) × (fits m ≡ true)) ⊎ ((a.id ≢ id) × (m ≡ a.balance))

module _ (id : Uuid) (n : ℤ) where
  pub add_to_balance-cons :
      (a : AccountRow) (rows : List AccountRow) {rows' : List AccountRow}
      → add_to_balance id n (a ∷ rows) ≡ ok rows'
      → (rest : List AccountRow) × (m : ℤ) × (add_to_balance id n rows ≡ ok rest)
        × (rows' ≡ record a { balance = m } ∷ rest)
        × Moved id n a m
  unfolding add_to_balance
  add_to_balance-cons a rows {rows'} h = go (add_to_balance id n rows) refl
    where
      go :
          (r : Result (List AccountRow))
          → add_to_balance id n rows ≡ r
          → (rest : List AccountRow) × (m : ℤ) × (add_to_balance id n rows ≡ ok rest)
            × (rows' ≡ record a { balance = m } ∷ rest)
            × Moved id n a m
      go (err e) same = absurd (ground arith)
      go (ok rest) same = elim (Bool-cases (a.id == id)) [
        | inr other ↦ (rest, a.balance, same, ground arith, inr (ground arith, refl))
        | inl mine ↦ elim (Bool-cases (fits (a.balance +ℤ n))) [
          | inr wide ↦ absurd (ground arith)
          | inl room ↦ (rest, a.balance +ℤ n, same, ground arith, inl (ground arith, refl, room))
        ]
      ]

  -- An update that succeeds takes what holds of every row before to what holds of every row after.
  pub add_to_balance-All :
      (P Q : AccountRow → Type 0)
      → ((a : AccountRow) (m : ℤ) → P a → Moved id n a m → Q (record a { balance = m }))
      → (rows : List AccountRow) {rows' : List AccountRow} → add_to_balance id n rows ≡ ok rows'
      → All P rows
      → All Q rows'
  unfolding add_to_balance
  add_to_balance-All P Q keep [] {rows'} h all = subst (All Q) {x = []} (ground arith) tt
  add_to_balance-All P Q keep (a ∷ rows) h (p, ps) =
      let (rest, m, later, shape, moved) = add_to_balance-cons a rows h in
      subst (All Q) (sym shape) (keep a m p moved, add_to_balance-All P Q keep rows later ps)

  -- The ids of the rows stay as they are.
  pub add_to_balance-any :
      (k : Uuid) (rows : List AccountRow) {rows' : List AccountRow}
      → add_to_balance id n rows ≡ ok rows'
      → any (λ a. a.id == k) rows' ≡ any (λ a. a.id == k) rows
  unfolding add_to_balance
  add_to_balance-any k [] h = ground arith
  add_to_balance-any k (a ∷ rows) h =
      let (rest, m, later, shape, moved) = add_to_balance-cons a rows h in
      rw shape (ground (arith, add_to_balance-any k rows later))

-- The primary key of `accounts`.
abbrev pub DistinctIds : List AccountRow → Type 0
DistinctIds [] = Unit
DistinctIds (a ∷ rows) = (any (λ r. r.id == a.id) rows ≡ false) × DistinctIds rows

abbrev pub total : List AccountRow → ℤ
total [] = pos 0
total (a ∷ rows) = a.balance +ℤ total rows

module _ (id : Uuid) (n : ℤ) where
  pub add_to_balance-DistinctIds :
      (rows : List AccountRow) {rows' : List AccountRow}
      → add_to_balance id n rows ≡ ok rows'
      → DistinctIds rows
      → DistinctIds rows'
  unfolding add_to_balance
  add_to_balance-DistinctIds [] h d = subst DistinctIds {x = []} (ground arith) tt
  add_to_balance-DistinctIds (a ∷ rows) h (new, d) =
      let (rest, m, later, shape, moved) = add_to_balance-cons id n a rows h in
      subst DistinctIds (sym shape)
        (add_to_balance-any id n a.id rows later ∙ new, add_to_balance-DistinctIds rows later d)

  miss_step :
      (a : AccountRow) (rows rest : List AccountRow) (m : ℤ)
      → Moved id n a m
      → any (λ r. r.id == id) (a ∷ rows) ≡ false
      → (any (λ r. r.id == id) rows ≡ false → total rest ≡ total rows)
      → m +ℤ total rest ≡ a.balance +ℤ total rows
  miss_step a rows rest m (inl (mine, _, _)) e ih = absurd (ground arith)
  miss_step a rows rest m (inr (other, kept)) e ih = rw (kept, ih (ground arith))

  hit_step :
      (a : AccountRow) (rows rest : List AccountRow) (m : ℤ)
      → Moved id n a m
      → any (λ r. r.id == a.id) rows ≡ false
      → any (λ r. r.id == id) (a ∷ rows) ≡ true
      → (any (λ r. r.id == id) rows ≡ false → total rest ≡ total rows)
      → (any (λ r. r.id == id) rows ≡ true → total rest ≡ total rows +ℤ n)
      → m +ℤ total rest ≡ a.balance +ℤ total rows +ℤ n
  hit_step a rows rest m (inl (mine, moved, _)) new e miss ih =
      rw (moved, miss (rw mine at new)) (omega int_laws)
  hit_step a rows rest m (inr (other, kept)) new e miss ih =
      rw (kept, ih (ground arith)) (omega int_laws)

  total-add_to_balance_miss :
      (rows : List AccountRow) {rows' : List AccountRow}
      → add_to_balance id n rows ≡ ok rows'
      → any (λ a. a.id == id) rows ≡ false
      → total rows' ≡ total rows
  unfolding add_to_balance
  total-add_to_balance_miss [] {rows'} h e =
      subst (λ r. total r ≡ pos 0) {x = []} (ground arith) refl
  total-add_to_balance_miss (a ∷ rows) h e =
      let (rest, m, later, shape, moved) = add_to_balance-cons id n a rows h in
      rw shape (miss_step a rows rest m moved e (total-add_to_balance_miss rows later))

  -- An update of a row that exists moves the sum of all balances by its amount.
  pub total-add_to_balance :
      (rows : List AccountRow) {rows' : List AccountRow}
      → add_to_balance id n rows ≡ ok rows'
      → DistinctIds rows
      → any (λ a. a.id == id) rows ≡ true
      → total rows' ≡ total rows +ℤ n
  unfolding add_to_balance
  total-add_to_balance [] h d e = absurd (cc)
  total-add_to_balance (a ∷ rows) h (new, d) e =
      let (rest, m, later, shape, moved) = add_to_balance-cons id n a rows h in
      rw shape (
        hit_step a rows rest m moved new e (total-add_to_balance_miss rows later)
          (total-add_to_balance rows later d))
