-- ===== src/Sqlc/Tables.antt =====
-- The statements of postgres/queries over the tables of postgres/migrations, with the constraints
-- of the tables: primary and foreign keys, the range of NUMERIC(19,4), the CHECKs of an entry.
use double_entry_bank_go.Base.{
  ℕ, zero, suc, ◌^◌, Bool, true, false, not, ◌&&◌, ◌||◌, Option, none, some, String, str_eq, List,
  [], ◌∷◌, ltb, ◌==◌, if◌then◌else◌, find, any,
}
use double_entry_bank_go.Int.{ℤ, pos, pos_part, neg_part, ◌+ℤ◌, ◌-ℤ◌, ltb_ℤ, leb_ℤ, eqb_ℤ}
use double_entry_bank_go.Money.{Decimals}
use double_entry_bank_go.Errors.{
  pq, GoError, database, no_rows, Result, ok, err, ◌>>=◌, ◌>>◌, require,
}
use double_entry_bank_go.World.{
  Uuid, Time, AccountRow, EntryRow, OperationType, deposit, withdrawal, transfer, Db,
}
use double_entry_bank_go.Sqlc.Models.{CreateEntryParams}

-- The SQLSTATEs that the statements raise.
abbrev pub invalid_text_representation : GoError
invalid_text_representation = database (pq "22P02")

abbrev pub numeric_value_out_of_range : GoError
numeric_value_out_of_range = database (pq "22003")

abbrev pub check_violation : GoError
check_violation = database (pq "23514")

abbrev pub unique_violation : GoError
unique_violation = database (pq "23505")

abbrev pub foreign_key_violation : GoError
foreign_key_violation = database (pq "23503")

-- NUMERIC(19,4) holds 19 digits: a magnitude below 10^19 ten-thousandths.
unfoldable pub fits : ℤ → Bool
fits n = ltb (pos_part n) (10 ^ 19) && ltb (neg_part n) (10 ^ 19)

abbrev pub in_range : ℤ → Result ℤ
in_range n = if fits n then ok n else err numeric_value_out_of_range

-- A text parameter for a NUMERIC(19,4) column.
abbrev pub numeric_param : Decimals → String → Result ℤ
numeric_param d t = elim (d.numeric_in t) [
  | none ↦ err invalid_text_representation
  | some n ↦ in_range n
]

-- A text parameter for the enum `operation_type`.
abbrev pub operation_param : String → Result OperationType
operation_param t =
    if str_eq t "deposit"
    then ok deposit
    else if str_eq t "withdrawal"
    then ok withdrawal
    else if str_eq t "transfer"
    then ok transfer
    else err invalid_text_representation

abbrev pub find_account : Uuid → List AccountRow → Option AccountRow
find_account id = find (λ a. a.id == id)

-- `WHERE is_system = TRUE AND name = 'Settlement Account'`
abbrev pub is_settlement : AccountRow → Bool
is_settlement a = a.is_system && str_eq a.name "Settlement Account"

-- `:one` returns `sql.ErrNoRows` where the query has no row.
abbrev pub one : {A : Type 0} → Option A → Result A
one o = elim o [ none ↦ err no_rows | some a ↦ ok a ]

-- `CHECK (debit >= 0)`, `CHECK (credit >= 0)` and `check_single_side`.
unfoldable pub entry_check : ℤ → ℤ → Bool
entry_check debit credit =
    leb_ℤ (pos 0) debit
    && leb_ℤ (pos 0) credit
    && (ltb_ℤ (pos 0) debit && eqb_ℤ credit (pos 0) || eqb_ℤ debit (pos 0) && ltb_ℤ (pos 0) credit)

-- `INSERT INTO entries`: the parameters are read, then the checks, the primary key and the
-- reference to `accounts` are tested.
unfoldable pub insert_entry :
    Decimals → CreateEntryParams → Uuid → Time → Db → Result (EntryRow × Db)
insert_entry d arg id now db = do
  debit ← numeric_param d arg.debit
  credit ← numeric_param d arg.credit
  op ← operation_param arg.operation_type
  require (entry_check debit credit) check_violation
  require (not (any (λ e. e.id == id) db.entries)) unique_violation
  require (any (λ a. a.id == arg.account_id) db.accounts) foreign_key_violation
  let row : EntryRow = record {
    id = id;
    account_id = arg.account_id;
    debit = debit;
    credit = credit;
    transaction_id = arg.transaction_id;
    operation_type = op;
    description = arg.description;
    created_at = some now;
  }
  ok (row, record db { entries = row ∷ db.entries })

-- `SET balance = balance + $1 WHERE id = $2`: every matching row, none at all if there is none, and
-- an error if a new balance leaves the range of the column.
unfoldable pub add_to_balance : Uuid → ℤ → List AccountRow → Result (List AccountRow)
add_to_balance id n [] = ok []
add_to_balance id n (a ∷ rows) = do
  rest ← add_to_balance id n rows
  balance ← if a.id == id then in_range (a.balance +ℤ n) else ok a.balance
  ok (record a { balance = balance } ∷ rest)

-- `COALESCE(SUM(credit), 0)` and `COALESCE(SUM(debit), 0)` over the entries of an account.
unfoldable pub sum_credit : Uuid → List EntryRow → ℤ
sum_credit id [] = pos 0
sum_credit id (e ∷ es) =
    if e.account_id == id then e.credit +ℤ sum_credit id es else sum_credit id es

unfoldable pub sum_debit : Uuid → List EntryRow → ℤ
sum_debit id [] = pos 0
sum_debit id (e ∷ es) = if e.account_id == id then e.debit +ℤ sum_debit id es else sum_debit id es

-- `CAST(credits - debits AS NUMERIC(19,4))`
abbrev pub calculated_balance : Uuid → List EntryRow → ℤ
calculated_balance id es = sum_credit id es -ℤ sum_debit id es

-- `ORDER BY`: insertion before the first row that does not come earlier.
abbrev pub insert_by {ℓ} : {A : Type ℓ} → (A → A → Bool) → A → List A → List A
insert_by before a [] = a ∷ []
insert_by before a (b ∷ bs) =
    let rest = insert_by before a bs in if before b a then b ∷ rest else a ∷ b ∷ bs

unfoldable pub sort_by {ℓ} : {A : Type ℓ} → (A → A → Bool) → List A → List A
sort_by before [] = []
sort_by before (a ∷ as') = insert_by before a (sort_by before as')

-- `created_at DESC`, which puts NULL first, and `created_at`, which puts it last.
abbrev pub later : Option Time → Option Time → Bool
later none none = false
later none (some t) = true
later (some s) none = false
later (some s) (some t) = ltb t s

-- `LIMIT n OFFSET m`
abbrev pub take {ℓ} : {A : Type ℓ} → ℕ → List A → List A
take zero xs = []
take (suc n) [] = []
take (suc n) (x ∷ xs) = x ∷ take n xs

abbrev pub drop {ℓ} : {A : Type ℓ} → ℕ → List A → List A
drop zero xs = xs
drop (suc n) [] = []
drop (suc n) (x ∷ xs) = drop n xs
