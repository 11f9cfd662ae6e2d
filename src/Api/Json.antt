-- ===== src/Api/Json.antt =====
-- What internal/api reads of a request's body: `json.NewDecoder(r.Body).Decode` into a struct, over
-- the value that the body's text stands for.
use Prim.Native.Char.{code}
use double_entry_bank_go.Base.{
  ℕ, Bool, true, false, ◌&&◌, ◌==◌, ◌-◌, leb, String, List, [], ◌∷◌, Option, none, some,
  if◌then◌else◌,
}

-- A value of a field. A number is its text; what is inside an array or an object is never read.
pub data Field : Type 0 where
  null boolean array nested : Field
  number text : String → Field

-- The first JSON value of the body, or none; `other` is a value that is neither null nor an object.
pub data Body : Type 0 where
  malformed nothing other : Body
  object : List (String × Field) → Body

-- encoding/json matches a key to a field without regard to case: of the code points that fold to an
-- ASCII letter, two are not ASCII.
abbrev fold : ℕ → ℕ
fold c =
    if leb 97 c && leb c 122
    then c - 32
    else if c == 0x17F
    then 83
    else if c == 0x212A
    then 75
    else c

unfoldable pub names : String → String → Bool
names String.[] String.[] = true
names (String.◌∷◌ x s) (String.◌∷◌ y t) = fold (code x) == fold (code y) && names s t
names _ _ = false

-- Decode one key into a field of type `string`: null leaves it, another type is an error.
abbrev set_text : String → Field → Option String
set_text old null = some old
set_text old (text s) = some s
set_text old _ = none

-- The keys in their order; the last one counts. An error is kept, and reported at the end.
unfoldable pub text_field : String → String → List (String × Field) → Option String
text_field name old [] = some old
text_field name old (p ∷ ps) = elim (names name p.0) [
  | false ↦ text_field name old ps
  | true ↦ elim (set_text old p.1) [ none ↦ none | some new ↦ text_field name new ps ]
]

-- A field of type `interface{}` takes the last value, and a missing one is nil.
unfoldable pub any_field : String → Field → List (String × Field) → Field
any_field name old [] = old
any_field name old (p ∷ ps) = any_field name (if names name p.0 then p.1 else old) ps

-- The fields of the body; null leaves the struct as it is.
abbrev pub fields : Body → Option (List (String × Field))
fields malformed = none
fields nothing = some []
fields other = none
fields (object ps) = some ps
