-- ===== src/Cors/Echo.antt =====
-- What a name in a parsed list of headers is.
use double_entry_bank_go.Base.{
  ℕ, ◌≡◌, refl, ◌∙◌, ap, Bool, true, false, not, ◌&&◌, ◌==◌, List, [], ◌∷◌, inl, inr, Bool-cases,
  if◌then◌else◌, arith, All,
}
use double_entry_bank_go.Text.{is_space}
use double_entry_bank_go.Runes.{
  Runes, is_nil, trim_left, trim_right, trim_space, cut_at, is_token, all_tokens, ascii_upper,
  ascii_lower, capitals, canonical_header_key,
}
use double_entry_bank_go.Runes.Trim.{
  StartsClean, EndsClean, trim_space_clean, trim_left_clean, trim_right_clean,
}
use double_entry_bank_go.Cors.{parse_parts}

-- No comma.
abbrev pub plain : Runes → Bool
plain [] = true
plain (c ∷ s) = not (c == b',') && plain s

pub cut_at-plain :
    (s : Runes) → (plain (cut_at b',' s).0 ≡ true) × All (λ p. plain p ≡ true) (cut_at b',' s).1
unfolding cut_at
cut_at-plain [] = (refl, tt)
cut_at-plain (c ∷ s) =
    let (part, parts) = cut_at-plain s in
    elim (Bool-cases (c == b',')) [
      | inl comma ↦ rw comma (refl, (part, parts))
      | inr other ↦ rw other (ground arith, parts)
    ]

trim_left-plain : (s : Runes) → plain s ≡ true → plain (trim_left s) ≡ true
unfolding trim_left
trim_left-plain [] h = refl
trim_left-plain (c ∷ s) h = elim (Bool-cases (is_space c)) [
  | inl space ↦ rw space (trim_left-plain s (ground arith))
  | inr clean ↦ rw clean h
]

trim_right-plain : (s : Runes) → plain s ≡ true → plain (trim_right s) ≡ true
unfolding trim_right
trim_right-plain [] h = refl
trim_right-plain (c ∷ s) h =
    let rest = trim_right-plain s (ground arith) in
    elim (Bool-cases (is_nil (trim_right s) && is_space c)) [
      | inl space ↦ rw space refl
      | inr clean ↦ rw clean (ground arith)
    ]

-- A letter of a header's name after `capitals`.
abbrev letter : Bool → ℕ → ℕ
letter first c = if first then ascii_upper c else ascii_lower c

-- A token is neither a comma nor a space.
is_token_char : (c : ℕ) → is_token c ≡ true → (not (c == b',') ≡ true) × (is_space c ≡ false)
unfolding is_token is_space
is_token_char c h = (ground arith, ground arith)

is_token-letter :
    (first : Bool) (c : ℕ)
    → is_token c ≡ true
    → (is_token (letter first c) ≡ true)
      × ((letter first c == b'-') ≡ (c == b'-'))
      × (letter first (letter first c) ≡ letter first c)
unfolding is_token
is_token-letter true c h = (ground arith, ground arith, ground arith)
is_token-letter false c h = (ground arith, ground arith, ground arith)

all_tokens-plain : (s : Runes) → all_tokens s ≡ true → plain s ≡ true
unfolding all_tokens
all_tokens-plain [] h = refl
all_tokens-plain (c ∷ s) h =
    let rest = all_tokens-plain s (ground arith) in
    let char = is_token_char c (ground arith) in ground (arith, char.0)

all_tokens-EndsClean : (s : Runes) → all_tokens s ≡ true → EndsClean s
unfolding all_tokens
all_tokens-EndsClean [] h = tt
all_tokens-EndsClean (c ∷ s) h =
    let (_, clean) = is_token_char c (ground arith) in
    ((λ _. clean), all_tokens-EndsClean s (ground arith))

all_tokens-StartsClean : (s : Runes) → all_tokens s ≡ true → StartsClean s
unfolding all_tokens
all_tokens-StartsClean [] h = tt
all_tokens-StartsClean (c ∷ s) h = let (_, clean) = is_token_char c (ground arith) in clean

all_tokens-trimmed : (s : Runes) → all_tokens s ≡ true → trim_space s ≡ s
unfolding trim_space
all_tokens-trimmed s h =
    ap trim_right (trim_left_clean s (all_tokens-StartsClean s h))
    ∙ trim_right_clean s (all_tokens-EndsClean s h)

all_tokens-capitals :
    (first : Bool) (s : Runes) → all_tokens s ≡ true → all_tokens (capitals first s) ≡ true
unfolding all_tokens capitals
all_tokens-capitals first [] h = refl
all_tokens-capitals first (c ∷ s) h =
    let rest = all_tokens-capitals (c == b'-') s (ground arith) in
    let (token, _, _) = is_token-letter first c (ground arith) in rw (token, rest) refl

capitals-capitals :
    (first : Bool) (s : Runes)
    → all_tokens s ≡ true
    → capitals first (capitals first s) ≡ capitals first s
unfolding all_tokens capitals
capitals-capitals first [] h = refl
capitals-capitals first (c ∷ s) h =
    let (_, hyphen, again) = is_token-letter first c (ground arith) in
    let rest = capitals-capitals (c == b'-') s (ground arith) in rw (again, hyphen, rest) refl

-- A header's name as it stands in a parsed list.
abbrev pub IsName : Runes → Type 0
IsName s = (is_nil s ≡ false) × (plain s ≡ true) × (trim_space s ≡ s) × (canonical_header_key s ≡ s)

capitals-filled : (first : Bool) (s : Runes) → is_nil (capitals first s) ≡ is_nil s
unfolding capitals
capitals-filled first [] = refl
capitals-filled first (c ∷ s) = refl

canonical-IsName :
    (s : Runes)
    → is_nil s ≡ false
    → plain s ≡ true
    → trim_space s ≡ s
    → IsName (canonical_header_key s)
unfolding canonical_header_key
canonical-IsName s filled free trimmed = elim (Bool-cases (all_tokens s)) [
  | inl tokens ↦
      let k = all_tokens-capitals true s tokens in
      rw (tokens, k)
        (
          capitals-filled true s ∙ filled,
          all_tokens-plain _ k,
          all_tokens-trimmed _ k,
          capitals-capitals true s tokens,
        )
  | inr other ↦ rw other (filled, free, trimmed, rw other refl)
]

pub parse_parts-IsName :
    (parts : List Runes) → All (λ p. plain p ≡ true) parts → All IsName (parse_parts parts)
unfolding parse_parts trim_space
parse_parts-IsName [] h = tt
parse_parts-IsName (part ∷ parts) (free, h) =
    let rest = parse_parts-IsName parts h in
    let (_, _, again) = trim_space_clean part in
    elim (Bool-cases (is_nil (trim_space part))) [
      | inl blank ↦ rw blank rest
      | inr filled ↦ rw filled (
        canonical-IsName (trim_space part) filled
            (trim_right-plain (trim_left part) (trim_left-plain part free)) again,
        rest,
      )
    ]
