-- ===== src/Api/Auth.antt =====
-- internal/api/middleware.go: the token of a request and who it says the caller is.
use Prim.Native.Char.{code}
use double_entry_bank_go.Base.{
  ℕ, Bool, ◌&&◌, ◌==◌, ◌-◌, ◌⊎◌, inl, inr, ltb, leb, String, List, [], ◌∷◌, Option, none, some,
  str_eq, find, if◌then◌else◌,
}
use double_entry_bank_go.Errors.{message, Result, ok, err}

-- Why `Authenticator` refuses a request.
pub data AuthError : Type 0 where
  unauthorized expired nbf_invalid iat_invalid no_token_found : AuthError
  -- An error of `transform.AsMap`.
  not_a_map : String → AuthError

abbrev pub auth_error_text : AuthError → String
auth_error_text unauthorized = "token is unauthorized"
auth_error_text expired = "token is expired"
auth_error_text nbf_invalid = "token nbf validation failed"
auth_error_text iat_invalid = "token iat validation failed"
auth_error_text no_token_found = "no token found"
auth_error_text (not_a_map t) = t

-- A claim's value: a Go string, a number, or anything else.
pub data Claim : Type 0 where
  text : String → Claim
  number : ℕ → Claim
  other : Claim

-- lestrrat-go/jwx with the server's key: `jwt.Parse` with its validation off, `jwt.Validate`, which
-- reads the clock, `transform.AsMap`, `jwt.New`, `Token.Set` and `jwt.Sign`.
pub record Jwt : Type 1 where
  pub Token : Type 0
  pub Failure : Type 0
  -- A token, which may be nil, or an error and no token.
  pub parse : String → Failure ⊎ Option Token
  pub validate : ℕ → Token → Option Failure
  pub is_expired : Failure → Bool
  pub is_invalid_issued_at : Failure → Bool
  pub is_not_yet_valid : Failure → Bool
  pub as_map : Token → String ⊎ List (String × Claim)
  pub empty : Token
  pub set : String → Claim → Token → Option Token
  pub sign : Token → Option String

-- What the handlers read of a request. A missing header is empty, a missing cookie is none.
pub record Credentials : Type 0 where
  pub authorization : String
  pub cookie : Option String

abbrev upper : ℕ → ℕ
upper c = if leb 97 c && leb c 122 then c - 32 else c

-- `strings.ToUpper(s[0:len(prefix)]) == prefix`, and what follows: `none` where they differ.
unfoldable pub after_prefix : String → String → Option String
after_prefix String.[] s = some s
after_prefix (String.◌∷◌ p ps) String.[] = none
after_prefix (String.◌∷◌ p ps) (String.◌∷◌ c s) =
    let rest = after_prefix ps s in if upper (code c) == code p then rest else none

-- `TokenFromHeader`
unfoldable pub token_from_header : Credentials → String
token_from_header r = elim (after_prefix "BEARER " r.authorization) [
  | none ↦ ""
  | some token ↦ token
]

-- `TokenFromCookie`
unfoldable pub token_from_cookie : Credentials → String
token_from_cookie r = elim r.cookie [ none ↦ "" | some value ↦ value ]

-- The loop of `verifyRequest`: the first lookup that is not empty.
unfoldable pub find_token : List (Credentials → String) → Credentials → String
find_token [] r = ""
find_token (fn ∷ fns) r = let rest = find_token fns r in if str_eq (fn r) "" then rest else fn r

-- `InitTokenAuth`, given the secret and its length in bytes.
unfoldable pub init_token_auth : String → ℕ → Result (Unit {0})
init_token_auth secret bytes =
    if str_eq secret ""
    then err (message "JWT_SECRET environment variable is required")
    else if ltb bytes 32
    then err (message "JWT_SECRET must be at least 32 characters")
    else ok tt

module _ (jwt : Jwt) where
  -- What `Verifier` records: the token and the error.
  abbrev pub Verified : Type 0
  Verified = Option jwt.Token × Option AuthError

  -- `errorReason`
  unfoldable pub error_reason : jwt.Failure → AuthError
  error_reason e =
      if jwt.is_expired e
      then expired
      else if jwt.is_invalid_issued_at e
      then iat_invalid
      else if jwt.is_not_yet_valid e
      then nbf_invalid
      else unauthorized

  -- `verifyToken`
  unfoldable pub verify_token : ℕ → String → Verified
  verify_token now token_string = elim (jwt.parse token_string) [
    | inl e ↦ (none, some (error_reason e))
    | inr parsed ↦ elim parsed [
      | none ↦ (none, some unauthorized)
      | some token ↦ elim (jwt.validate now token) [
        | some e ↦ (some token, some (error_reason e))
        | none ↦ (some token, none)
      ]
    ]
  ]

  -- `verifyRequest` with the lookups of `Verifier`.
  unfoldable pub verify_request : ℕ → Credentials → Verified
  verify_request now r =
      let token_string = find_token (token_from_header ∷ token_from_cookie ∷ []) r in
      if str_eq token_string "" then (none, some no_token_found) else verify_token now token_string

  -- `FromContext`: the claims, or the error. A nil token has no claims.
  unfoldable pub from_context : Verified → AuthError ⊎ List (String × Claim)
  from_context (none, none) = inr []
  from_context (none, some e) = inl e
  from_context (some token, e) = elim (jwt.as_map token) [
    | inl t ↦ inl (not_a_map t)
    | inr claims ↦ elim e [ some e ↦ inl e | none ↦ inr claims ]
  ]

  -- `Authenticator`: the text of its refusal, or none if the request goes on.
  unfoldable pub authenticator : Verified → Option String
  authenticator v = elim (from_context v) [
    | inl e ↦ some (auth_error_text e)
    | inr claims ↦ elim v.0 [ none ↦ some "Unauthorized" | some token ↦ none ]
  ]

  -- The loop of `Encode` over the claims.
  unfoldable pub set_claims : List (String × Claim) → jwt.Token → Option jwt.Token
  set_claims [] t = some t
  set_claims (claim ∷ claims) t = elim (jwt.set claim.0 claim.1 t) [
    | none ↦ none
    | some t' ↦ set_claims claims t'
  ]

  -- `Encode`: the token and its text.
  unfoldable pub encode : List (String × Claim) → Option (jwt.Token × String)
  encode claims = elim (set_claims claims jwt.empty) [
    | none ↦ none
    | some t ↦ elim (jwt.sign t) [ none ↦ none | some payload ↦ some (t, payload) ]
  ]

  -- What `GenerateToken` keeps of `Encode`'s results.
  abbrev pub text_of_token : Option (jwt.Token × String) → Option String
  text_of_token o = elim o [ none ↦ none | some p ↦ some p.1 ]

-- The claims of `GenerateToken`.
abbrev pub user_claims : String → ℕ → List (String × Claim)
user_claims user expires = ("user_id", text user) ∷ ("exp", number expires) ∷ []

-- `claims["user_id"].(string)`
unfoldable pub user_claim : List (String × Claim) → Option String
user_claim claims = elim (find (λ (p : String × Claim). str_eq p.0 "user_id") claims) [
  | none ↦ none
  | some p ↦ elim p.1 [ text s ↦ some s | number n ↦ none | other ↦ none ]
]
