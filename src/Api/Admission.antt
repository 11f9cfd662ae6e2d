-- ===== src/Api/Admission.antt =====
-- internal/api/middleware.go: whom the protected routes let in, and what the lists are cut to.
use double_entry_bank_go.Base.{
  arith, ◌≡◌, ◌≤◌, ◌↔◌, inr, Bool, false, Option, none, some, ℕ, String, str_eq, List, [], ◌∷◌,
}
use double_entry_bank_go.Api.Auth.{
  Claim, Credentials, Jwt, find_token, token_from_header, token_from_cookie, verify_token,
  verify_request, from_context, authenticator,
}
use double_entry_bank_go.Api.Listing.{page_limit}

module _ (jwt : Jwt) where
  -- A token that parses, is valid now, and whose claims can be read.
  abbrev pub IsGood : ℕ → String → Type 0
  IsGood now text =
      (token : jwt.Token) × (claims : List (String × Claim)) × (jwt.parse text ≡ inr (some token))
      × (jwt.validate now token ≡ none)
      × (jwt.as_map token ≡ inr claims)

  -- What the request presents: the header's token, or else the cookie's.
  abbrev pub presented : Credentials → String
  presented r = find_token (token_from_header ∷ token_from_cookie ∷ []) r

  -- `Authenticator` lets a request through exactly when the token that it presents, the one of the
  -- header before the one of the cookie, is not empty, parses under the server's key, is valid at
  -- the moment, and has claims that can be read.
  pub authenticator_admits :
      (now : ℕ) (r : Credentials)
      → (authenticator jwt (verify_request jwt now r) ≡ none)
        ↔ ((str_eq (presented r) "" ≡ false) × IsGood now (presented r))
  unfolding authenticator from_context verify_request verify_token
  authenticator_admits now r =
      (λ h. ground arith, λ (filled, (token, claims, p, v, m)). ground arith)

-- A page has between 1 and 100 entries, whatever the query says.
pub page_bounds : (o : Option (Bool × ℕ)) → (1 ≤ page_limit o) × (page_limit o ≤ 100)
unfolding page_limit
page_bounds o = ground arith
