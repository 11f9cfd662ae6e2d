-- ===== src/Cors/Replies.antt =====
-- What the two kinds of reply hold under the permission's name.
use double_entry_bank_go.Base.{
  ◌≡◌, ◌≢◌, refl, ◌∙◌, inl, inr, Bool, ◌&&◌, String, eq_iff, List, [], ◌∷◌, Bool-cases,
  if◌then◌else◌, arith, ltb,
}
use double_entry_bank_go.Int.{ℤ, pos, negsuc}
use double_entry_bank_go.Runes.{Runes, runes, Casing, to_upper, join, itoa}
use double_entry_bank_go.Headers.{CorsRequest, get, has, Headers, add, del, set}
use double_entry_bank_go.Cors.{
  CorsHandler, star, requested, is_origin_allowed, is_method_allowed, preflight_allowed,
  grant_preflight, handle_preflight, handle_actual_request, is_preflight, allow_origin,
  allow_credentials_if, limit_age,
}
use double_entry_bank_go.Headers.Values.{
  values, values-add_other, values-set_other, values-set_self, values-del_other,
}

abbrev pub permission : String
permission = "Access-Control-Allow-Origin"

module _ (casing : Casing) (c : CorsHandler) (r : CorsRequest) where
  -- The value that grants the permission.
  abbrev pub granted : Runes
  granted = if c.allowed_origins_all then star else get r "Origin"

  -- The method that the request asks for.
  abbrev pub asked_method : Runes
  asked_method = if is_preflight casing c r then get r "Access-Control-Request-Method" else r.method

  allow_origin_lem :
      (headers : Headers)
      → values permission (allow_origin casing c (get r "Origin") headers) ≡ granted ∷ []
  allow_origin_lem headers = values-set_self permission granted headers

  credentials_aside :
      (headers : Headers)
      → values permission (allow_credentials_if casing c headers) ≡ values permission headers
  credentials_aside headers = elim (Bool-cases c.allow_credentials) [
    | inl on ↦ rw on (values-set_other permission _ _ headers other)
    | inr off ↦ rw off refl
  ]
    where
      other : "Access-Control-Allow-Credentials" ≢ permission
      other = ground (arith, eq_iff "Access-Control-Allow-Credentials" permission)

  age_aside :
      (headers : Headers)
      → values permission (limit_age casing c headers) ≡ values permission headers
  age_aside headers = go c.max_age
    where
      other : "Access-Control-Max-Age" ≢ permission
      other = ground (arith, eq_iff "Access-Control-Max-Age" permission)

      go :
          (age : ℤ)
          → values permission (elim age as (λ _. Headers) [
            | pos n ↦ if ltb 0 n then set "Access-Control-Max-Age" (itoa n) headers else headers
            | negsuc n ↦ headers
          ])
            ≡ values permission headers
      go (negsuc n) = refl
      go (pos n) = elim (Bool-cases (ltb 0 n)) [
        | inl on ↦ rw on (values-set_other permission _ _ headers other)
        | inr off ↦ rw off refl
      ]

  grant_preflight_lem :
      (headers : Headers) → values permission (grant_preflight casing c r headers) ≡ granted ∷ []
  unfolding grant_preflight
  grant_preflight_lem headers = age_aside _ ∙ credentials_aside _ ∙ go (requested casing c r)
    where
      methods : "Access-Control-Allow-Methods" ≢ permission
      methods = ground (arith, eq_iff "Access-Control-Allow-Methods" permission)

      listed : "Access-Control-Allow-Headers" ≢ permission
      listed = ground (arith, eq_iff "Access-Control-Allow-Headers" permission)

      with_methods : Headers
      with_methods =
          set "Access-Control-Allow-Methods"
            (to_upper casing (get r "Access-Control-Request-Method"))
            (allow_origin casing c (get r "Origin") headers)

      base : values permission with_methods ≡ granted ∷ []
      base = values-set_other permission _ _ _ methods ∙ allow_origin_lem headers

      go :
          (hs : List Runes)
          → values permission (elim hs as (λ _. Headers) [
            | [] ↦ with_methods
            | h ∷ hs ↦ set "Access-Control-Allow-Headers" (join (runes ", ") (h ∷ hs)) with_methods
          ])
            ≡ granted ∷ []
      go [] = base
      go (h ∷ hs) = values-set_other permission _ _ _ listed ∙ base

  vary_aside :
      (v : Runes) (headers : Headers)
      → values permission (add "Vary" v headers) ≡ values permission headers
  vary_aside v headers = values-add_other permission "Vary" v headers vary
    where
      vary : "Vary" ≢ permission
      vary = ground (arith, eq_iff "Vary" permission)

  allow_aside :
      (headers : Headers) → values permission (del "Allow" headers) ≡ values permission headers
  allow_aside headers = values-del_other permission "Allow" headers allow
    where
      allow : "Allow" ≢ permission
      allow = ground (arith, eq_iff "Allow" permission)

  pub handle_preflight_lem :
      (headers : Headers)
      → values permission headers ≡ []
      → values permission (handle_preflight casing c r headers)
        ≡ (if preflight_allowed casing c r then granted ∷ [] else [])
  unfolding handle_preflight
  handle_preflight_lem headers none' = elim (Bool-cases (preflight_allowed casing c r)) [
    | inl on ↦ rw on (grant_preflight_lem _)
    | inr off ↦
        rw off (vary_aside _ _ ∙ vary_aside _ _ ∙ vary_aside _ _ ∙ allow_aside headers ∙ none')
  ]

  -- The tests of `handleActualRequest`.
  abbrev pub actual_allowed : Bool
  actual_allowed =
      has r "Origin"
      && is_origin_allowed casing c (get r "Origin")
      && is_method_allowed casing c r.method

  pub handle_actual_request_lem :
      (headers : Headers)
      → values permission headers ≡ []
      → values permission (handle_actual_request casing c r headers)
        ≡ (if actual_allowed then granted ∷ [] else [])
  unfolding handle_actual_request
  handle_actual_request_lem headers none' = elim (Bool-cases actual_allowed) [
    | inl on ↦ rw on (credentials_aside _ ∙ go c.exposed_headers)
    | inr off ↦ rw off (vary_aside _ headers ∙ none')
  ]
    where
      exposed : "Access-Control-Expose-Headers" ≢ permission
      exposed = ground (arith, eq_iff "Access-Control-Expose-Headers" permission)

      allowed : Headers
      allowed = allow_origin casing c (get r "Origin") (add "Vary" (runes "Origin") headers)

      go :
          (hs : List Runes)
          → values permission (elim hs as (λ _. Headers) [
            | [] ↦ allowed
            | h ∷ hs ↦ set "Access-Control-Expose-Headers" (join (runes ", ") (h ∷ hs)) allowed
          ])
            ≡ granted ∷ []
      go [] = allow_origin_lem _
      go (h ∷ hs) = values-set_other permission _ _ _ exposed ∙ allow_origin_lem _
