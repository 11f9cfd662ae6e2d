-- ===== src/Cors/Allowing.antt =====
-- The header Allow, which the router sets for an unregistered method: a preflight drops it, another
-- request keeps it.
use double_entry_bank_go.Base.{
  ◌≡◌, ◌≢◌, refl, ◌∙◌, inl, inr, ◌&&◌, String, eq_iff, List, [], ◌∷◌, Bool-cases, if◌then◌else◌,
  arith, ltb,
}
use double_entry_bank_go.Int.{ℤ, pos, negsuc}
use double_entry_bank_go.Runes.{Runes, runes, Casing, join, itoa}
use double_entry_bank_go.Headers.{CorsRequest, get, has, Headers, add, del, set}
use double_entry_bank_go.Cors.{
  CorsHandler, requested, is_origin_allowed, is_method_allowed, preflight_allowed, grant_preflight,
  handle_preflight, handle_actual_request, allow_credentials_if, limit_age,
}
use double_entry_bank_go.Headers.Values.{
  values, values-add_other, values-set_other, values-del_self,
}

-- The header Allow is none of the headers that the middleware sets.
abbrev Other : String → Type 0
Other name = name ≢ "Allow"

set_aside :
    (name : String) (v : Runes) (headers : Headers)
    → Other name
    → values "Allow" (set name v headers) ≡ values "Allow" headers
set_aside name v headers other = values-set_other "Allow" name v headers other

origin : Other "Access-Control-Allow-Origin"
origin = ground (arith, eq_iff "Access-Control-Allow-Origin" "Allow")

credentials : Other "Access-Control-Allow-Credentials"
credentials = ground (arith, eq_iff "Access-Control-Allow-Credentials" "Allow")

age : Other "Access-Control-Max-Age"
age = ground (arith, eq_iff "Access-Control-Max-Age" "Allow")

methods : Other "Access-Control-Allow-Methods"
methods = ground (arith, eq_iff "Access-Control-Allow-Methods" "Allow")

listed : Other "Access-Control-Allow-Headers"
listed = ground (arith, eq_iff "Access-Control-Allow-Headers" "Allow")

exposed : Other "Access-Control-Expose-Headers"
exposed = ground (arith, eq_iff "Access-Control-Expose-Headers" "Allow")

vary : Other "Vary"
vary = ground (arith, eq_iff "Vary" "Allow")

module _ (casing : Casing) (c : CorsHandler) (r : CorsRequest) where
  credentials_aside :
      (headers : Headers)
      → values "Allow" (allow_credentials_if casing c headers) ≡ values "Allow" headers
  credentials_aside headers = elim (Bool-cases c.allow_credentials) [
    | inl on ↦ rw on (set_aside _ _ headers credentials)
    | inr off ↦ rw off refl
  ]

  age_aside :
      (headers : Headers) → values "Allow" (limit_age casing c headers) ≡ values "Allow" headers
  age_aside headers = go c.max_age
    where
      go :
          (max_age : ℤ)
          → values "Allow" (elim max_age as (λ _. Headers) [
            | pos n ↦ if ltb 0 n then set "Access-Control-Max-Age" (itoa n) headers else headers
            | negsuc n ↦ headers
          ])
            ≡ values "Allow" headers
      go (negsuc n) = refl
      go (pos n) = elim (Bool-cases (ltb 0 n)) [
        | inl on ↦ rw on (set_aside _ _ headers age)
        | inr off ↦ rw off refl
      ]

  -- A header that is set where a list is not empty.
  listed_aside :
      (name : String) (headers : Headers) (hs : List Runes)
      → Other name
      → values "Allow" (elim hs as (λ _. Headers) [
        | [] ↦ headers
        | h ∷ hs ↦ set name (join (runes ", ") (h ∷ hs)) headers
      ])
        ≡ values "Allow" headers
  listed_aside name headers [] other = refl
  listed_aside name headers (h ∷ hs) other = set_aside _ _ headers other

  grant_preflight_aside :
      (headers : Headers)
      → values "Allow" (grant_preflight casing c r headers) ≡ values "Allow" headers
  unfolding grant_preflight
  grant_preflight_aside headers =
      age_aside _
      ∙ credentials_aside _
      ∙ listed_aside "Access-Control-Allow-Headers" _ (requested casing c r) listed
      ∙ set_aside _ _ _ methods
      ∙ set_aside _ _ headers origin

  vary_aside :
      (v : Runes) (headers : Headers)
      → values "Allow" (add "Vary" v headers) ≡ values "Allow" headers
  vary_aside v headers = values-add_other "Allow" "Vary" v headers vary

  pub handle_preflight-drops :
      (headers : Headers) → values "Allow" (handle_preflight casing c r headers) ≡ []
  unfolding handle_preflight
  handle_preflight-drops headers = elim (Bool-cases (preflight_allowed casing c r)) [
    | inl on ↦ rw on (grant_preflight_aside _ ∙ varied)
    | inr off ↦ rw off varied
  ]
    where
      varied :
          values "Allow" (
            add "Vary" (runes "Access-Control-Request-Headers") (
              add "Vary"
                (runes "Access-Control-Request-Method")
                (add "Vary" (runes "Origin") (del "Allow" headers))))
          ≡ []
      varied = vary_aside _ _ ∙ vary_aside _ _ ∙ vary_aside _ _ ∙ values-del_self "Allow" headers

  pub handle_actual_request-keeps :
      (headers : Headers)
      → values "Allow" (handle_actual_request casing c r headers) ≡ values "Allow" headers
  unfolding handle_actual_request
  handle_actual_request-keeps headers =
      elim (Bool-cases (
        has r "Origin"
        && is_origin_allowed casing c (get r "Origin")
        && is_method_allowed casing c r.method)) [
          | inl on ↦ rw on (
              credentials_aside _
              ∙ listed_aside "Access-Control-Expose-Headers" _ c.exposed_headers exposed
              ∙ set_aside _ _ _ origin
              ∙ vary_aside _ headers)
          | inr off ↦ rw off (vary_aside _ headers)
        ]
