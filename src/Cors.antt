-- ===== src/Cors.antt =====
-- internal/api/cors.go: the CORS middleware. Methods and origins are lists of code points.
pub mod Wildcards
pub mod Matching
pub mod Replies
pub mod Permission
pub mod Echo
pub mod Listing
pub mod Allowing
pub mod Repeated
use double_entry_bank_go.Base.{
  ℕ, Bool, true, false, not, ◌&&◌, ◌||◌, ltb, leb, ◌+◌, String, str_eq, List, [], ◌∷◌, ◌++◌, map,
  select, any, length, Option, none, some, if◌then◌else◌,
}
use double_entry_bank_go.Int.{ℤ, pos, negsuc}
use double_entry_bank_go.Headers.{CorsRequest, get, has, Headers, add, del, set}
use double_entry_bank_go.Runes.{
  Runes, runes, same, Casing, to_lower, to_upper, is_nil, trim_space, split, join, has_prefix,
  has_suffix, around, itoa, canonical_header_key,
}

-- `CORSOptions`
pub record CorsOptions : Type 0 where
  pub allowed_origins : List Runes
  pub allowed_methods : List Runes
  pub allowed_headers : List Runes
  pub exposed_headers : List Runes
  pub allow_credentials : Bool
  pub max_age : ℤ

-- `corsWildcard`
pub record CorsWildcard : Type 0 where
  pub prefix : Runes
  pub suffix : Runes

-- `corsWildcard.match`
unfoldable pub match_wildcard : CorsWildcard → Runes → Bool
match_wildcard w s =
    leb (length w.prefix + length w.suffix) (length s)
    && has_prefix s w.prefix
    && has_suffix s w.suffix

-- What the loop over `options.AllowedOrigins` sets.
pub record ScannedOrigins : Type 0 where
  pub all : Bool
  pub plain : List Runes
  pub wild : List CorsWildcard

-- `corsHandler`
pub record CorsHandler : Type 0 where
  pub allowed_origins : List Runes
  pub allowed_w_origins : List CorsWildcard
  pub allowed_methods : List Runes
  pub allowed_headers : List Runes
  pub exposed_headers : List Runes
  pub max_age : ℤ
  pub allowed_origins_all : Bool
  pub allowed_headers_all : Bool
  pub allow_credentials : Bool

abbrev pub star : Runes
star = runes "*"

-- `canonicalizeHeaders`
unfoldable pub canonicalize_headers : List Runes → List Runes
canonicalize_headers headers = map canonical_header_key headers

-- `parseCORSHeaderList`
unfoldable pub parse_parts : List Runes → List Runes
parse_parts [] = []
parse_parts (part ∷ parts) =
    let rest = parse_parts parts in
    if is_nil (trim_space part) then rest else canonical_header_key (trim_space part) ∷ rest

unfoldable pub parse_cors_header_list : Runes → List Runes
parse_cors_header_list s = if is_nil (trim_space s) then [] else parse_parts (split b',' s)

module _ (casing : Casing) where
  -- The loop over `options.AllowedOrigins`; an asterisk alone ends it.
  unfoldable pub scan_origins : List Runes → List Runes → List CorsWildcard → ScannedOrigins
  scan_origins [] plain wild = record { all = false; plain = plain; wild = wild }
  scan_origins (entry ∷ entries) plain wild =
      let origin = to_lower casing entry in
      elim (same origin star) [
        | true ↦ record { all = true; plain = []; wild = [] }
        | false ↦ elim (around b'*' origin) [
          | some (before, behind) ↦
              scan_origins entries plain (wild ++ record { prefix = before; suffix = behind } ∷ [])
          | none ↦ scan_origins entries (plain ++ origin ∷ []) wild
        ]
      ]

  -- `newCORSHandler`
  unfoldable pub new_cors_handler : CorsOptions → CorsHandler
  new_cors_handler options =
      let origins : ScannedOrigins = elim options.allowed_origins [
        | [] ↦ record { all = true; plain = []; wild = [] }
        | o ∷ os ↦ scan_origins (o ∷ os) [] []
      ] in
      let headers_all = any (λ h. same h star) options.allowed_headers in
      record {
        allowed_origins = origins.plain;
        allowed_w_origins = origins.wild;
        allowed_methods = elim options.allowed_methods [
          | [] ↦ runes "GET" ∷ runes "POST" ∷ runes "HEAD" ∷ []
          | m ∷ ms ↦ map (to_upper casing) (m ∷ ms)
        ];
        allowed_headers = elim options.allowed_headers [
          | [] ↦ runes "Origin" ∷ runes "Accept" ∷ runes "Content-Type" ∷ []
          | h ∷ hs ↦
              if headers_all then [] else canonicalize_headers (h ∷ hs ++ runes "Origin" ∷ [])
        ];
        exposed_headers = canonicalize_headers options.exposed_headers;
        max_age = options.max_age;
        allowed_origins_all = origins.all;
        allowed_headers_all = headers_all;
        allow_credentials = options.allow_credentials;
      }

  module _ (c : CorsHandler) where
    -- `isOriginAllowed`
    unfoldable pub is_origin_allowed : Runes → Bool
    is_origin_allowed origin =
        c.allowed_origins_all
        || any (λ o. same o (to_lower casing origin)) c.allowed_origins
        || any (λ w. match_wildcard w (to_lower casing origin)) c.allowed_w_origins

    -- `isMethodAllowed`
    unfoldable pub is_method_allowed : Runes → Bool
    is_method_allowed method = elim c.allowed_methods [
      | [] ↦ false
      | m ∷ ms ↦
          same (to_upper casing method) (runes "OPTIONS")
          || any (λ a. same a (to_upper casing method)) (m ∷ ms)
    ]

    -- The loop of `areHeadersAllowed`.
    unfoldable pub all_listed : List Runes → Bool
    all_listed [] = true
    all_listed (header ∷ headers) =
        any (λ h. same h (canonical_header_key header)) c.allowed_headers && all_listed headers

    -- `areHeadersAllowed`
    unfoldable pub are_headers_allowed : List Runes → Bool
    are_headers_allowed headers = c.allowed_headers_all || all_listed headers

    abbrev pub allow_origin : Runes → Headers → Headers
    allow_origin origin headers =
        set "Access-Control-Allow-Origin" (if c.allowed_origins_all then star else origin) headers

    abbrev pub allow_credentials_if : Headers → Headers
    allow_credentials_if headers =
        if c.allow_credentials
        then set "Access-Control-Allow-Credentials" (runes "true") headers
        else headers

    abbrev pub limit_age : Headers → Headers
    limit_age headers = elim c.max_age [
      | pos n ↦ if ltb 0 n then set "Access-Control-Max-Age" (itoa n) headers else headers
      | negsuc n ↦ headers
    ]

    -- The requested headers of a preflight.
    abbrev pub requested : CorsRequest → List Runes
    requested r = parse_cors_header_list (get r "Access-Control-Request-Headers")

    -- The three tests of `handlePreflight`, which returns at the first one that fails.
    unfoldable pub preflight_allowed : CorsRequest → Bool
    preflight_allowed r =
        is_origin_allowed (get r "Origin")
        && is_method_allowed (get r "Access-Control-Request-Method")
        && are_headers_allowed (requested r)

    -- What `handlePreflight` sets once the tests have passed.
    unfoldable pub grant_preflight : CorsRequest → Headers → Headers
    grant_preflight r headers = limit_age (
        allow_credentials_if (
          let granted =
            set "Access-Control-Allow-Methods"
              (to_upper casing (get r "Access-Control-Request-Method"))
              (allow_origin (get r "Origin") headers) in
          elim (requested r) [
            | [] ↦ granted
            | h ∷ hs ↦ set "Access-Control-Allow-Headers" (join (runes ", ") (h ∷ hs)) granted
          ]))

    -- `handlePreflight`
    unfoldable pub handle_preflight : CorsRequest → Headers → Headers
    handle_preflight r headers =
        let varied = add "Vary" (runes "Access-Control-Request-Headers") (
          add "Vary" (runes "Access-Control-Request-Method")
            (add "Vary" (runes "Origin") (del "Allow" headers))) in
        if preflight_allowed r then grant_preflight r varied else varied

    -- `handleActualRequest`
    unfoldable pub handle_actual_request : CorsRequest → Headers → Headers
    handle_actual_request r headers =
        let varied = add "Vary" (runes "Origin") headers in
        if has r "Origin" && is_origin_allowed (get r "Origin") && is_method_allowed r.method
        then allow_credentials_if (
            let allowed = allow_origin (get r "Origin") varied in
            elim c.exposed_headers [
              | [] ↦ allowed
              | h ∷ hs ↦ set "Access-Control-Expose-Headers" (join (runes ", ") (h ∷ hs)) allowed
            ])
        else varied

    -- The test of `handle` for a preflight request.
    unfoldable pub is_preflight : CorsRequest → Bool
    is_preflight r =
        same r.method (runes "OPTIONS")
        && not (is_nil (get r "Access-Control-Request-Method"))
        && has r "Origin"

    -- `handle`: the headers, and whether the request ends here with status 200.
    unfoldable pub handle : CorsRequest → Headers → Headers × Bool
    handle r headers =
        if is_preflight r
        then (handle_preflight r headers, true)
        else (handle_actual_request r headers, false)
