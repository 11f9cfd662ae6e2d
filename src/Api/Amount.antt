-- ===== src/Api/Amount.antt =====
-- internal/api/amount.go: the amount of a request.
pub mod Accepted
use double_entry_bank_go.Base.{true, false, String, Option, none, some, str_eq}
use double_entry_bank_go.Text.{trim_space}
use double_entry_bank_go.Api.Json.{Field, null, number, text, Body, fields, any_field}

abbrev trimmed : String → Option String
trimmed s = elim (str_eq (trim_space s) "") [ true ↦ none | false ↦ some (trim_space s) ]

-- `normalizeAmountInput`; with `UseNumber` no value is a `float64`.
unfoldable pub normalize_amount_input : Field → Option String
normalize_amount_input (text s) = trimmed s
normalize_amount_input (number s) = trimmed s
normalize_amount_input _ = none

-- `decodeAmountFromBody`
unfoldable pub decode_amount_from_body : Body → Option String
decode_amount_from_body body = elim (fields body) [
  | none ↦ none
  | some ps ↦ normalize_amount_input (any_field "amount" null ps)
]
