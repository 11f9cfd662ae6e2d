-- ===== src/Api/TokenLaws.antt =====
-- github.com/lestrrat-go/jwx: what is assumed of the token package.
use double_entry_bank_go.Base.{
  ℕ, ◌≡◌, ◌≢◌, inr, true, false, Bool, ◌||◌, Option, none, some, String, str_eq, List, find, ltb,
}
use double_entry_bank_go.Api.Auth.{Claim, text, number, Jwt}

-- The names that RFC 7519 registers. The package keeps their values in types of its own; the value of
-- any other name is kept as it is given.
abbrev pub is_registered : String → Bool
is_registered name =
    str_eq name "aud"
    || str_eq name "exp"
    || str_eq name "iat"
    || str_eq name "iss"
    || str_eq name "jti"
    || str_eq name "nbf"
    || str_eq name "sub"

-- The second lies before the year 10000.
abbrev pub is_dated : ℕ → Bool
is_dated second = ltb second 253402300800

-- The token has the claims `exp` and `name`, and no other.
abbrev pub HasOnly :
    (jwt : Jwt) → (String → jwt.Token → Option Claim) → String → String → ℕ → jwt.Token → Type 0
HasOnly jwt claim name value expires t =
    (claim name t ≡ some (text value))
    × (claim "exp" t ≡ some (number expires))
    × ((other : String) → other ≢ name → other ≢ "exp" → claim other t ≡ none)

-- What the token package documents. A token has its claims by name: a new token has none; a text that
-- is set under a name that is not registered, and a second that is set as `exp`, are the claims of
-- these names, and setting one claim changes no other. The rest is about tokens that have an `exp`, a
-- text under one name that is not registered, and no other claim: signed, such a token parses under
-- the same key to one with the same claims; the map of its claims has the text; and, as it has no
-- `iat` and no `nbf`, which would be validated too, it is valid before the second of its `exp`, and
-- refused as expired from then on.
pub record JwtLaws (jwt : Jwt) : Type 0 where
  pub claim : String → jwt.Token → Option Claim
  pub claim-empty : (name : String) → claim name jwt.empty ≡ none
  pub claim-set_text :
      (name value : String) (t t' : jwt.Token)
      → is_registered name ≡ false
      → jwt.set name (text value) t ≡ some t'
      → claim name t' ≡ some (text value)
  pub claim-set_exp :
      (expires : ℕ) (t t' : jwt.Token)
      → is_dated expires ≡ true
      → jwt.set "exp" (number expires) t ≡ some t'
      → claim "exp" t' ≡ some (number expires)
  pub claim-set_other :
      (other name : String) (v : Claim) (t t' : jwt.Token)
      → other ≢ name
      → jwt.set name v t ≡ some t'
      → claim other t' ≡ claim other t
  pub parse-sign :
      (name value : String) (expires : ℕ) (t : jwt.Token) (payload : String)
      → is_registered name ≡ false
      → is_dated expires ≡ true
      → HasOnly jwt claim name value expires t
      → jwt.sign t ≡ some payload
      → (str_eq payload "" ≡ false)
        × (t' : jwt.Token) × (jwt.parse payload ≡ inr (some t'))
        × HasOnly jwt claim name value expires t'
  pub as_map-claim :
      (name value : String) (expires : ℕ) (t : jwt.Token)
      → is_registered name ≡ false
      → HasOnly jwt claim name value expires t
      → (claims : List (String × Claim)) × (jwt.as_map t ≡ inr claims)
        × (find (λ (p : String × Claim). str_eq p.0 name) claims ≡ some (name, text value))
  pub validate-early :
      (name value : String) (now expires : ℕ) (t : jwt.Token)
      → is_registered name ≡ false
      → HasOnly jwt claim name value expires t
      → ltb now expires ≡ true
      → jwt.validate now t ≡ none
  pub validate-late :
      (name value : String) (now expires : ℕ) (t : jwt.Token)
      → is_registered name ≡ false
      → HasOnly jwt claim name value expires t
      → ltb now expires ≡ false
      → (f : jwt.Failure) × (jwt.validate now t ≡ some f) × (jwt.is_expired f ≡ true)
