-- ===== src/Headers.antt =====
-- Go's net/http: the headers of a request and of a response. A name is a text as it is written here;
-- a value is a list of code points.
pub mod Values
use double_entry_bank_go.Base.{
  Bool, true, false, not, ◌++◌, List, [], ◌∷◌, String, str_eq, select, find, none, some,
}
use double_entry_bank_go.Runes.{Runes}

-- The method of a request and its headers by name, in order; a name that is missing has no value.
pub record CorsRequest : Type 0 where
  pub method : Runes
  pub header : String → List Runes

-- `r.Header.Get`
abbrev pub get : CorsRequest → String → Runes
get r name = elim (r.header name) [ [] ↦ [] | value ∷ values ↦ value ]

-- `_, ok := r.Header[name]`
abbrev pub has : CorsRequest → String → Bool
has r name = elim (r.header name) [ [] ↦ false | value ∷ values ↦ true ]

-- The headers of a response, with `Add`, `Del` and `Set`.
abbrev pub Headers : Type 0
Headers = List (String × Runes)

unfoldable pub add : String → Runes → Headers → Headers
add name value headers = headers ++ (name, value) ∷ []

unfoldable pub del : String → Headers → Headers
del name headers = select (λ (h : String × Runes). not (str_eq h.0 name)) headers

unfoldable pub set : String → Runes → Headers → Headers
set name value headers = add name value (del name headers)

-- `Get` of a response's headers: the first value, or the empty text.
abbrev pub value_of : String → Headers → Runes
value_of name headers = elim (find (λ (h : String × Runes). str_eq h.0 name) headers) [
  | none ↦ []
  | some h ↦ h.1
]
