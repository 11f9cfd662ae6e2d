-- ===== src/Tests/Startup.antt =====
-- The start of the server in a small environment.
use double_entry_bank_go.Base.{
  Any, ◌≡◌, ◌≢◌, ◌↔◌, ◌≤◌, refl, true, false, none, str_eq, [], ◌∷◌, if◌then◌else◌,
}
use double_entry_bank_go.Errors.{ok}
use double_entry_bank_go.Runes.{
  same, to_lower, to_upper, lower, upper, around, trim_left, trim_right, split, cut_at,
  canonical_header_key, capitals, all_tokens, is_token, runes, Casing, is_nil, trim_space,
  byte_length, Runes,
}
use double_entry_bank_go.Cors.{new_cors_handler}
use double_entry_bank_go.Startup.{
  trimmed_parts, Env, Platform, cors_options, parse_allowed_origins, resolve_db_url, start,
}
use double_entry_bank_go.Startup.Origins.{
  AllTrimmed, configured, star_listed, parse_allowed_origins-AllTrimmed,
}
use double_entry_bank_go.Startup.Admitted.{every_origin_admitted_iff}
use double_entry_bank_go.Startup.Address.{
  Resolved, Served, serving_at, resolve_db_url-Resolved, start_serves_iff,
}
use double_entry_bank_go.Headers.{CorsRequest, get, has, add, del, set}
use double_entry_bank_go.Headers.Values.{values}
use double_entry_bank_go.Cors.{
  CorsHandler, handle, handle_actual_request, is_preflight, is_origin_allowed, is_method_allowed,
  scan_origins, canonicalize_headers,
}
use double_entry_bank_go.Cors.Matching.{Admits}
use double_entry_bank_go.Cors.Replies.{permission, asked_method}
use double_entry_bank_go.Startup.Permission.{permission_configured}
use double_entry_bank_go.Text.{is_space}

abbrev plain : Casing
plain = record { lower_other = λ c. c; upper_other = λ c. c }

-- On Render, with a local `DB_URL` and a fallback.
abbrev env : Env
env = λ name.
    if str_eq name "RENDER"
    then "true"
    else if str_eq name "DB_URL"
    then "postgres://u@LOCALHOST:5432/l"
    else if str_eq name "DATABASE_URL"
    then " postgres://u@db/l "
    else if str_eq name "CORS_ALLOWED_ORIGINS"
    then " https://a.app , * ,,"
    else if str_eq name "JWT_SECRET"
    then "0123456789abcdef0123456789abcdef"
    else ""

abbrev platform : Platform
platform = record {
  open_error = λ url. none;
  ping_error = λ url. none;
  listen_error = λ address. none;
}

parse_allowed_origins-AllTrimmed_example :
    (parse_allowed_origins env ≢ []) × AllTrimmed (parse_allowed_origins env)
parse_allowed_origins-AllTrimmed_example = parse_allowed_origins-AllTrimmed env

every_origin_admitted_iff_example :
    ((origin : Runes)
      → is_origin_allowed plain (new_cors_handler plain (cors_options env)) origin ≡ true)
    ↔ ((is_nil (trim_space (configured plain env)) ≡ false) × (star_listed plain env ≡ true))
every_origin_admitted_iff_example = every_origin_admitted_iff plain env

resolve_db_url-Resolved_example : Resolved plain env (resolve_db_url plain env)
resolve_db_url-Resolved_example = resolve_db_url-Resolved plain env

start_serves_iff_example :
    (start plain platform env ≡ ok (serving_at plain env platform (runes "postgres://u@db/l"))) ↔ (
      (32 ≤ byte_length (runes (env "JWT_SECRET")))
      × Served plain env platform (serving_at plain env platform (runes "postgres://u@db/l")))
start_serves_iff_example =
    start_serves_iff plain env platform (serving_at plain env platform (runes "postgres://u@db/l"))

-- A page of another site asks for `/accounts`; the list of origins has an asterisk.
abbrev request : CorsRequest
request = record {
  method = runes "GET";
  header = λ name. if str_eq name "Origin" then runes "https://b.app" ∷ [] else [];
}

abbrev configured_handler : CorsHandler
configured_handler = new_cors_handler plain (cors_options env)

sent_to_all : values permission (handle plain configured_handler request []).0 ≡ runes "*" ∷ []
unfolding new_cors_handler handle handle_actual_request is_preflight is_origin_allowed
    is_method_allowed scan_origins parse_allowed_origins trimmed_parts canonicalize_headers
    canonical_header_key capitals all_tokens is_token same to_lower to_upper lower upper around
    trim_space trim_left trim_right is_space split cut_at add del set
sent_to_all = refl

permission_configured_example :
    (has request "Origin" ≡ true)
    × Any
        (λ entry. Admits (to_lower plain entry) (to_lower plain (get request "Origin")))
        (parse_allowed_origins env)
    × (is_method_allowed plain configured_handler (asked_method plain configured_handler request)
        ≡ true)
permission_configured_example =
    permission_configured plain env request [] refl (λ e. cc (e, sent_to_all))
