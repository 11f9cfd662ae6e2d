-- ===== src/Tests/Tally.antt =====
-- A small instance of the decimal package and of the column texts, which shows that what is assumed
-- of them can be met: a decimal is an integer of hundred-thousandths, and a text is a sign and a
-- tally, with `x` for a ten-thousandth and `h` for a hundred-thousandth.
use Prim.Native.Char.{code}
use double_entry_bank_go.Base.{
  ℕ, zero, suc, ◌+◌, ◌*◌, ◌/◌, ◌≡◌, ◌↔◌, refl, ◌∙◌, ap, sym, true, false, Option, none, some,
  String, ◌==◌, if◌then◌else◌, arith,
}
use mathlib.Core.Option.{some-injective}
use double_entry_bank_go.Int.{ℤ, pos, negsuc, negate, ◌≤ℤ◌, ltb_ℤ, leb_ℤ, eqb_ℤ}
use double_entry_bank_go.Money.{Decimals, DecimalLaws}

unfoldable pub strokes : ℕ → String
strokes zero = String.[]
strokes (suc n) = String.◌∷◌ "x" (strokes n)

abbrev add_to : ℕ → Option ℕ → Option ℕ
add_to n none = none
add_to n (some m) = some (n + m)

unfoldable pub tally : String → Option ℕ
tally String.[] = some 0
tally (String.◌∷◌ c s) =
    let rest = tally s in
    if code c == b'x' then add_to 10 rest else if code c == b'h' then add_to 1 rest else none

pub tally-strokes : (n : ℕ) → tally (strokes n) ≡ some (10 * n)
unfolding tally strokes
tally-strokes zero = refl
tally-strokes (suc n) = ap (add_to 10) (tally-strokes n) ∙ ap some (omega arith)

abbrev positive : Option ℕ → Option ℤ
positive none = none
positive (some n) = some (pos n)

abbrev negative : Option ℕ → Option ℤ
negative none = none
negative (some n) = some (negate (pos n))

unfoldable pub read : String → Option ℤ
read String.[] = none
read (String.◌∷◌ c s) =
    if code c == b'-'
    then negative (tally s)
    else if code c == b'+'
    then positive (tally s)
    else none

unfoldable pub write : ℤ → String
write (pos n) = String.◌∷◌ "+" (strokes n)
write (negsuc n) = String.◌∷◌ "-" (strokes (suc n))

-- Half away from zero.
unfoldable pub round : ℤ → ℤ
round (pos n) = pos ((n + 5) / 10)
round (negsuc n) = negate (pos ((n + 6) / 10))

abbrev pub tens : ℤ → ℤ
tens (pos n) = pos (10 * n)
tens (negsuc n) = negate (pos (10 * suc n))

pub read-write : (n : ℤ) → read (write n) ≡ some (tens n)
unfolding read write
read-write (pos n) = ap positive (tally-strokes n)
read-write (negsuc n) = ap negative (tally-strokes (suc n))

abbrev round_some : Option ℤ → Option ℤ
round_some none = none
round_some (some n) = some (round n)

pub round-tens : (n : ℤ) → round (tens n) ≡ n
unfolding round negate
round-tens (pos n) = ap pos (omega arith)
round-tens (negsuc n) = ground arith

pub round-negate : (n : ℤ) → round (negate n) ≡ negate (round n)
unfolding round negate
round-negate (pos n) = ground arith
round-negate (negsuc n) = ground arith

pub round_mono : (a b : ℤ) → b ≤ℤ a → round b ≤ℤ round a
unfolding round negate
round_mono a b h = ground arith

abbrev pub tallies : Decimals
tallies = record {
  Decimal = ℤ;
  new_from_string = read;
  parse_error = λ t. t;
  zero = pos 0;
  neg = negate;
  less_than = ltb_ℤ;
  less_than_or_equal = leb_ℤ;
  equal = eqb_ℤ;
  string_fixed = λ a places. write (round a);
  numeric_in = λ t. round_some (read t);
  numeric_out = write;
}

pub tens_injective : (m n : ℤ) → tens m ≡ tens n → m ≡ n
tens_injective m n h = sym (round-tens m) ∙ ap round h ∙ round-tens n

pub eqb_iff : (a b : ℤ) → (eqb_ℤ a b ≡ true) ↔ (a ≡ b)
eqb_iff a b = ground arith

pub round_some-read-write : (a : ℤ) → round_some (read (write a)) ≡ some a
round_some-read-write a = ap round_some (read-write a) ∙ ap some (round-tens a)

pub equal_texts :
    (m n a b : ℤ) → read (write m) ≡ some a → read (write n) ≡ some b → (eqb_ℤ a b ≡ true) ↔ (m ≡ n)
equal_texts m n a b p q =
    let ma = some-injective _ _ (sym p ∙ read-write m) in
    let nb = some-injective _ _ (sym q ∙ read-write n) in
    (
      λ h. tens_injective m n (sym ma ∙ (eqb_iff a b).0 h ∙ nb),
      λ e. (eqb_iff a b).1 (ma ∙ ap tens e ∙ sym nb),
    )

pub round_mono_lt : (a b : ℤ) → ltb_ℤ a b ≡ false → round b ≤ℤ round a
round_mono_lt a b h = round_mono a b (ground arith)

pub round_mono_le : (a b : ℤ) → leb_ℤ a b ≡ false → round b ≤ℤ round a
round_mono_le a b h = round_mono a b (ground arith)

pub round-zero : round (pos 0) ≡ pos 0
unfolding round
round-zero = refl

unfoldable pub tallies_laws : DecimalLaws tallies
tallies_laws = record {
  units = round;
  numeric_in-string_fixed = λ a. round_some-read-write (round a);
  units-zero = round-zero;
  units-neg = round-negate;
  units-less_than = round_mono_lt;
  units-less_than_or_equal = round_mono_le;
  new_from_string-numeric_out = λ n. (tens n, read-write n, round-tens n);
  equal_iff = equal_texts;
}
