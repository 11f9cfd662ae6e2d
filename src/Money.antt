-- ===== src/Money.antt =====
-- The two libraries that read and write amounts of money as text, as parameters: the package
-- shopspring/decimal, which internal/service uses, and the text form of the NUMERIC(19,4) columns
-- of postgres/migrations. A column value is an integer, in ten-thousandths of a unit.
use double_entry_bank_go.Base.{◌≡◌, ◌↔◌, Bool, true, false, Option, some, String, ℕ}
use double_entry_bank_go.Int.{ℤ, pos, negate, ◌≤ℤ◌}

pub record Decimals : Type 1 where
  pub Decimal : Type 0
  -- `decimal.NewFromString`; `none` is an error.
  pub new_from_string : String → Option Decimal
  -- The text of that error.
  pub parse_error : String → String
  -- `decimal.Zero`
  pub zero : Decimal
  pub neg : Decimal → Decimal
  pub less_than : Decimal → Decimal → Bool
  pub less_than_or_equal : Decimal → Decimal → Bool
  pub equal : Decimal → Decimal → Bool
  pub string_fixed : Decimal → ℕ → String
  -- The database reads a text with four decimals, and writes a column.
  pub numeric_in : String → Option ℤ
  pub numeric_out : ℤ → String

-- What the packages document. `units` is a decimal rounded to four places, half away from zero,
-- in ten-thousandths.
pub record DecimalLaws (d : Decimals) : Type 0 where
  pub units : d.Decimal → ℤ
  -- The database reads back what `StringFixed(4)` writes.
  pub numeric_in-string_fixed : (a : d.Decimal) → d.numeric_in (d.string_fixed a 4) ≡ some (units a)
  pub units-zero : units d.zero ≡ pos 0
  -- Rounding half away from zero is symmetric, and monotone.
  pub units-neg : (a : d.Decimal) → units (d.neg a) ≡ negate (units a)
  pub units-less_than : (a b : d.Decimal) → d.less_than a b ≡ false → units b ≤ℤ units a
  pub units-less_than_or_equal :
      (a b : d.Decimal) → d.less_than_or_equal a b ≡ false → units b ≤ℤ units a
  -- A column's text is read exactly.
  pub new_from_string-numeric_out :
      (n : ℤ) → (a : d.Decimal) × (d.new_from_string (d.numeric_out n) ≡ some a) × (units a ≡ n)
  pub equal_iff :
      (m n : ℤ) (a b : d.Decimal)
      → d.new_from_string (d.numeric_out m) ≡ some a
      → d.new_from_string (d.numeric_out n) ≡ some b
      → (d.equal a b ≡ true) ↔ (m ≡ n)
