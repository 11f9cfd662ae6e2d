-- ===== src/Api/Tokens.antt =====
-- internal/api/middleware.go: a token that the server has given out, when it comes back.
use double_entry_bank_go.Base.{
  ℕ, ◌+◌, ◌*◌, ◌≡◌, ◌≢◌, refl, ◌∙◌, ap, inl, inr, true, false, Option, none, some, String, str_eq,
  List, find, ltb, arith, Option-cases, eq_iff,
}
use double_entry_bank_go.World.{Uuid, World}
use double_entry_bank_go.Api.Auth.{
  expired, Claim, text, number, Credentials, set_claims, encode, text_of_token, user_claims,
  user_claim, verify_token, verify_request, from_context, authenticator, error_reason,
}
use double_entry_bank_go.Api.Admission.{presented}
use double_entry_bank_go.Api.Handling.{
  Server, Request, goes_on, ◌>>=◌, next_call, need, authenticate,
}
use double_entry_bank_go.Api.Users.{generate_token}
use double_entry_bank_go.Api.TokenLaws.{is_dated, HasOnly, JwtLaws}

-- The names of the claims differ.
names_differ : (s t : String) → str_eq s t ≡ false → s ≢ t
names_differ s t h e = let k = (eq_iff s t).1 e in cc

module _ (s : Server) (laws : JwtLaws s.jwt) where
  open s use {backend as b, jwt}
  open laws use {claim}

  -- A token that names a user and the second of its end, and nothing beside.
  abbrev IsUserToken : String → ℕ → jwt.Token → Type 0
  IsUserToken user expires t = HasOnly jwt claim "user_id" user expires t

  built-IsUserToken :
      (user : String) (expires : ℕ) (t1 t2 : jwt.Token)
      → is_dated expires ≡ true
      → jwt.set "user_id" (text user) jwt.empty ≡ some t1
      → jwt.set "exp" (number expires) t1 ≡ some t2
      → IsUserToken user expires t2
  built-IsUserToken user expires t1 t2 dated first second = (
    laws.claim-set_other "user_id" "exp" _ t1 t2 (names_differ _ _ refl) second
        ∙ laws.claim-set_text "user_id" user _ t1 refl first,
    laws.claim-set_exp expires t1 t2 dated second,
    λ other ne1 ne2.
        laws.claim-set_other other "exp" _ t1 t2 ne2 second
        ∙ laws.claim-set_other other "user_id" _ _ t1 ne1 first
        ∙ laws.claim-empty other,
  )

  encode-IsUserToken :
      (user : String) (expires : ℕ) (payload : String)
      → is_dated expires ≡ true
      → text_of_token jwt (encode jwt (user_claims user expires)) ≡ some payload
      → (t : jwt.Token) × (jwt.sign t ≡ some payload) × IsUserToken user expires t
  unfolding encode set_claims
  encode-IsUserToken user expires payload dated h =
      elim (Option-cases (jwt.set "user_id" (text user) jwt.empty)) [
        | inl bad ↦ absurd (ground arith)
        | inr (t1, first) ↦ elim (Option-cases (jwt.set "exp" (number expires) t1)) [
          | inl bad ↦ absurd (ground arith)
          | inr (t2, second) ↦ elim (Option-cases (jwt.sign t2)) [
            | inl bad ↦ absurd (ground arith)
            | inr (p, signed) ↦
                let same : p ≡ payload = ground arith in
                (t2, signed ∙ ap some same, built-IsUserToken user expires t1 t2 dated first second)
          ]
        ]
      ]

  generate_token-eq :
      (user_id : Uuid) (w w' : World) (payload : String)
      → generate_token s user_id w ≡ (goes_on payload, w')
      → text_of_token jwt
          (encode jwt (user_claims (b.uuid_string user_id) (s.unix w.calls + 24 * 3600)))
        ≡ some payload
  unfolding generate_token next_call need ◌>>=◌
  generate_token-eq user_id w w' payload h =
      go
        (text_of_token jwt
          (encode jwt (user_claims (b.uuid_string user_id) (s.unix w.calls + 24 * 3600))))
        refl
    where
      go :
          (o : Option String)
          → text_of_token jwt
              (encode jwt (user_claims (b.uuid_string user_id) (s.unix w.calls + 24 * 3600)))
            ≡ o
          → o ≡ some payload
      go none e = absurd (ground arith)
      go (some p) e = ground arith

  module _ (user_id : Uuid) (own : b.uuid_parse (b.uuid_string user_id) ≡ some user_id)
      (w w' : World) (payload : String) (dated : is_dated (s.unix w.calls + 24 * 3600) ≡ true)
      (given : generate_token s user_id w ≡ (goes_on payload, w')) where
    -- The token comes back as it was given.
    returned :
        (t' : jwt.Token) × (str_eq payload "" ≡ false)
        × (jwt.parse payload ≡ inr (some t'))
        × IsUserToken (b.uuid_string user_id) (s.unix w.calls + 24 * 3600) t'
    returned =
        let (t, signed, is) =
          encode-IsUserToken _ _ payload dated (generate_token-eq user_id w w' payload given) in
        let (filled, t', parsed, same) =
          laws.parse-sign "user_id" _ _ t payload refl dated is signed in
        (t', filled, parsed, same)

    module _ (now : ℕ) (r : Credentials) (shown : presented jwt r ≡ payload) where
      verified :
          (t' : jwt.Token)
          → str_eq payload "" ≡ false
          → jwt.parse payload ≡ inr (some t')
          → (jwt.validate now t' ≡ none → verify_request jwt now r ≡ (some t', none))
            × ((f : jwt.Failure)
                → jwt.validate now t' ≡ some f
                → jwt.is_expired f ≡ true
                → verify_request jwt now r ≡ (some t', some expired))
      unfolding verify_request verify_token error_reason
      verified t' filled parsed = ((λ valid. ground arith), (λ f invalid late. ground arith))

      admitted :
          (t' : jwt.Token) (claims : List (String × Claim))
          → jwt.as_map t' ≡ inr claims
          → (authenticator jwt (some t', none) ≡ none)
            × (authenticator jwt (some t', some expired) ≡ some "token is expired")
      unfolding authenticator from_context
      admitted t' claims read = (ground arith, ground arith)

      read_claims :
          (t' : jwt.Token) (claims : List (String × Claim))
          → jwt.as_map t' ≡ inr claims
          → from_context jwt (some t', none) ≡ inr claims
      unfolding from_context
      read_claims t' claims read = ground arith

      read_user :
          (claims : List (String × Claim)) (user : String)
          → find (λ (p : String × Claim). str_eq p.0 "user_id") claims ≡ some ("user_id", text user)
          → user_claim claims ≡ some user
      unfolding user_claim
      read_user claims user named = rw (named, user_claim) refl

      recognized :
          (claims : List (String × Claim)) (q : Request s)
          → from_context jwt q.verified ≡ inr claims
          → user_claim claims ≡ some (b.uuid_string user_id)
          → (w2 : World) → authenticate s q w2 ≡ (goes_on user_id, w2)
      unfolding authenticate need ◌>>=◌
      recognized claims q read named w2 = ground arith

      -- A token that `Register` or `Login` has given to a user, presented again less than 24 hours
      -- later, is let through, and the handlers take the caller for that user; from 24 hours on it
      -- is refused as expired. The UUID package reads back what it prints, the token ends before the
      -- year 10000, and the token package satisfies its laws.
      pub given_token_returns :
          (ltb now (s.unix w.calls + 24 * 3600) ≡ true
            → (authenticator jwt (verify_request jwt now r) ≡ none)
              × ((q : Request s)
                  → q.verified ≡ verify_request jwt now r
                  → (w2 : World) → authenticate s q w2 ≡ (goes_on user_id, w2)))
          × (ltb now (s.unix w.calls + 24 * 3600) ≡ false
              → authenticator jwt (verify_request jwt now r) ≡ some "token is expired")
      given_token_returns =
          let (t', filled, parsed, is) = returned in
          let (claims, read, named) = laws.as_map-claim "user_id" _ _ t' refl is in
          (
            λ early.
                let valid = laws.validate-early "user_id" _ now _ t' refl is early in
                let v = (verified t' filled parsed).0 valid in
                (
                  rw v (admitted t' claims read).0,
                  λ q e w2.
                      recognized claims q
                        (ap (from_context jwt) (e ∙ v) ∙ read_claims t' claims read)
                        (read_user claims _ named) w2,
                ),
            λ late.
                let (f, invalid, old) = laws.validate-late "user_id" _ now _ t' refl is late in
                rw ((verified t' filled parsed).1 f invalid old) (admitted t' claims read).1,
          )
