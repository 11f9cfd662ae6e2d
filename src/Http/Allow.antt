-- ===== src/Http/Allow.antt =====
-- cmd/main.go, the `NoMethod` handler: the methods of the header Allow.
use double_entry_bank_go.Base.{
  zero, ◌≡◌, ap, refl, false, List, [], ◌∷◌, ◌++◌, All, arith, any, ◌==◌,
}
use double_entry_bank_go.Runes.{Runes, runes, join, cut_on, split_on, has_prefix}

abbrev separator : Runes
separator = runes ", "

-- A text without a comma.
abbrev pub HasNoComma : Runes → Type 0
HasNoComma m = any (λ c. c == b',') m ≡ false

cut_on-last : (m : Runes) → HasNoComma m → cut_on separator zero m ≡ (m, [])
unfolding cut_on has_prefix
cut_on-last [] _ = refl
cut_on-last (c ∷ m) clean = ground (arith, cut_on-last m)

cut_on-part :
    (m rest : Runes)
    → HasNoComma m
    → cut_on separator zero (m ++ separator ++ rest) ≡ (m, split_on separator rest)
unfolding cut_on has_prefix split_on
cut_on-part [] rest _ = refl
cut_on-part (c ∷ m) rest clean = ground (arith, cut_on-part m rest)

-- What gin joins is taken apart again.
pub split_on-join :
    (m : Runes) (ms : List Runes)
    → All HasNoComma (m ∷ ms)
    → split_on separator (join separator (m ∷ ms)) ≡ m ∷ ms
unfolding split_on join
split_on-join m [] (other, _) = rw (cut_on-last m other) refl
split_on-join m (m' ∷ ms) (other, others) =
    rw (cut_on-part m (join separator (m' ∷ ms)) other)
      (ap (λ parts. m ∷ parts) (split_on-join m' ms others))
