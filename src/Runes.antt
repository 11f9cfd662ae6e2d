-- ===== src/Runes.antt =====
-- Go's packages strings, strconv and net/http where the source takes texts apart: a text is the list
-- of its code points. Case is exact on ASCII; that of other code points is a parameter.
pub mod Laws
pub mod Trim
use Prim.Native.Char.{code}
use Prim.Native.String
use double_entry_bank_go.Base.{
  ℕ, zero, suc, ◌+◌, ◌-◌, ◌/◌, ◌%◌, Bool, true, false, not, ◌&&◌, ◌||◌, ◌==◌, ltb, leb, String,
  List, [], ◌∷◌, ◌++◌, map, Option, none, some, length, if◌then◌else◌,
}
use double_entry_bank_go.Text.{is_space}

abbrev pub Runes : Type 0
Runes = List ℕ

abbrev pub runes : String → Runes
runes String.[] = []
runes (String.◌∷◌ c s) = code c ∷ runes s

-- `s == t`
unfoldable pub same : Runes → Runes → Bool
same [] [] = true
same (x ∷ xs) (y ∷ ys) = x == y && same xs ys
same _ _ = false

-- `unicode.ToLower` and `unicode.ToUpper` from 128 on.
pub record Casing : Type 0 where
  pub lower_other : ℕ → ℕ
  pub upper_other : ℕ → ℕ

module _ (casing : Casing) where
  unfoldable pub lower : ℕ → ℕ
  lower c = if leb 65 c && leb c 90 then c + 32 else if ltb c 128 then c else casing.lower_other c

  unfoldable pub upper : ℕ → ℕ
  upper c = if leb 97 c && leb c 122 then c - 32 else if ltb c 128 then c else casing.upper_other c

  -- `strings.ToLower` and `strings.ToUpper`
  unfoldable pub to_lower : Runes → Runes
  to_lower s = map lower s

  unfoldable pub to_upper : Runes → Runes
  to_upper s = map upper s

abbrev pub is_nil : Runes → Bool
is_nil [] = true
is_nil (c ∷ s) = false

-- `strings.TrimSpace`
unfoldable pub trim_left : Runes → Runes
trim_left [] = []
trim_left (c ∷ s) = let rest = trim_left s in if is_space c then rest else c ∷ s

unfoldable pub trim_right : Runes → Runes
trim_right [] = []
trim_right (c ∷ s) = let rest = trim_right s in if is_nil rest && is_space c then [] else c ∷ rest

unfoldable pub trim_space : Runes → Runes
trim_space s = trim_right (trim_left s)

-- `strings.Split(s, ",")`: the first part and the others.
unfoldable pub cut_at : ℕ → Runes → Runes × List Runes
cut_at sep [] = ([], [])
cut_at sep (c ∷ s) =
    let (part, parts) = cut_at sep s in if c == sep then ([], part ∷ parts) else (c ∷ part, parts)

unfoldable pub split : ℕ → Runes → List Runes
split sep s = let (part, parts) = cut_at sep s in part ∷ parts

-- `strings.Join`
unfoldable pub join : Runes → List Runes → Runes
join sep [] = []
join sep (p ∷ []) = p
join sep (p ∷ q ∷ ps) = p ++ sep ++ join sep (q ∷ ps)

-- `strings.HasPrefix`, `strings.HasSuffix` and `strings.Contains`
unfoldable pub has_prefix : Runes → Runes → Bool
has_prefix s [] = true
has_prefix [] (p ∷ ps) = false
has_prefix (c ∷ s) (p ∷ ps) = c == p && has_prefix s ps

unfoldable pub has_suffix : Runes → Runes → Bool
has_suffix [] t = same [] t
has_suffix (c ∷ s) t = same (c ∷ s) t || has_suffix s t

unfoldable pub contains : Runes → Runes → Bool
contains [] t = has_prefix [] t
contains (c ∷ s) t = has_prefix (c ∷ s) t || contains s t

-- `strings.IndexByte(s, b)`, as the texts before and behind the first one.
unfoldable pub around : ℕ → Runes → Option (Runes × Runes)
around b [] = none
around b (c ∷ s) =
    let rest = around b s in
    if c == b
    then some ([], s)
    else elim rest [ none ↦ none | some (before, behind) ↦ some (c ∷ before, behind) ]

-- `strings.Split` at a longer separator, whose further code points are passed over once it is met.
unfoldable pub cut_on : Runes → ℕ → Runes → Runes × List Runes
cut_on sep n [] = ([], [])
cut_on sep zero (c ∷ s) =
    let met = has_prefix (c ∷ s) sep in
    let (part, parts) = cut_on sep (if met then length sep - 1 else zero) s in
    if met then ([], part ∷ parts) else (c ∷ part, parts)
cut_on sep (suc n) (c ∷ s) = cut_on sep n s

unfoldable pub split_on : Runes → Runes → List Runes
split_on sep s = let (part, parts) = cut_on sep zero s in part ∷ parts

-- `strconv.Itoa` of a positive number; the number itself is fuel enough, since it falls each round.
unfoldable pub digits : ℕ → ℕ → Runes
digits zero n = []
digits (suc fuel) n =
    let rest = digits fuel (n / 10) in
    if ltb n 10 then (48 + n) ∷ [] else rest ++ (48 + n % 10) ∷ []

abbrev pub itoa : ℕ → Runes
itoa n = digits (suc n) n

-- The bytes of an HTTP token: letters, digits and some punctuation.
unfoldable pub is_token : ℕ → Bool
is_token c =
    leb 48 c && leb c 57
    || leb 65 c && leb c 90
    || leb 94 c && leb c 122
    || c == 33
    || leb 35 c && leb c 39
    || c == 42
    || c == 43
    || c == 45
    || c == 46
    || c == 124
    || c == 126

unfoldable pub all_tokens : Runes → Bool
all_tokens [] = true
all_tokens (c ∷ s) = is_token c && all_tokens s

abbrev pub ascii_upper : ℕ → ℕ
ascii_upper c = if leb 97 c && leb c 122 then c - 32 else c

abbrev pub ascii_lower : ℕ → ℕ
ascii_lower c = if leb 65 c && leb c 90 then c + 32 else c

-- A capital at the start and behind each hyphen, small letters elsewhere.
unfoldable pub capitals : Bool → Runes → Runes
capitals first [] = []
capitals first (c ∷ s) = (if first then ascii_upper c else ascii_lower c) ∷ capitals (c == 45) s

-- `http.CanonicalHeaderKey`, which leaves alone what is no token.
unfoldable pub canonical_header_key : Runes → Runes
canonical_header_key s = if all_tokens s then capitals true s else s

-- `len(s)`, in the bytes of UTF-8.
unfoldable pub byte_length : Runes → ℕ
byte_length [] = 0
byte_length (c ∷ s) =
    (if ltb c 128 then 1 else if ltb c 2048 then 2 else if ltb c 65536 then 3 else 4)
    + byte_length s
