-- ===== src/Tests/Cors.antt =====
-- The CORS middleware at a small configuration, and a request from a wildcard's origin.
use double_entry_bank_go.Base.{Any, ◌≡◌, ◌⊎◌, ◌↔◌, refl, true, str_eq, if◌then◌else◌, [], ◌∷◌}
use double_entry_bank_go.Int.{pos}
use double_entry_bank_go.Runes.{Runes, runes, Casing, to_lower}
use double_entry_bank_go.Headers.{CorsRequest}
use double_entry_bank_go.Cors.{CorsOptions, new_cors_handler, is_origin_allowed, handle}
use double_entry_bank_go.Cors.Matching.{Admits, is_origin_allowed_iff}
use double_entry_bank_go.Cors.Permission.{Decided, handle_decides}

-- No code point from 128 on has a case.
abbrev pub plain : Casing
plain = record { lower_other = λ c. c; upper_other = λ c. c }

abbrev pub options : CorsOptions
options = record {
  allowed_origins = runes "https://golangbank.app" ∷ runes "https://*.Golangbank.app" ∷ [];
  allowed_methods = runes "GET" ∷ runes "POST" ∷ [];
  allowed_headers = runes "accept" ∷ [];
  exposed_headers = runes "Link" ∷ [];
  allow_credentials = true;
  max_age = pos 300;
}

abbrev origin : Runes
origin = runes "https://dev.golangbank.app"

abbrev request : CorsRequest
request = record {
  method = runes "GET";
  header = λ name. if str_eq name "Origin" then origin ∷ [] else [];
}

is_origin_allowed_iff_example :
    (is_origin_allowed plain (new_cors_handler plain options) origin ≡ true) ↔ (
      (options.allowed_origins ≡ [])
      ⊎ Any
          (λ entry. Admits (to_lower plain entry) (to_lower plain origin))
          options.allowed_origins)
is_origin_allowed_iff_example = is_origin_allowed_iff plain options origin

handle_decides_example :
    Decided plain
      (new_cors_handler plain options)
      request
      (handle plain (new_cors_handler plain options) request []).0
handle_decides_example = handle_decides plain (new_cors_handler plain options) request [] refl

-- A granted preflight: a page of that origin asks whether it may send `Accept` and `Origin`.
abbrev preflight : CorsRequest
preflight = record {
  method = runes "OPTIONS";
  header = λ name.
      if str_eq name "Origin"
      then origin ∷ []
      else if str_eq name "Access-Control-Request-Method"
      then runes "GET" ∷ []
      else if str_eq name "Access-Control-Request-Headers"
      then runes " accept ,Origin" ∷ []
      else [];
}
