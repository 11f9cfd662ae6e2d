-- ===== src/Api/Callers.antt =====
-- Confidentiality of whole requests: the token names the caller, and the caller is shown own rows.
use double_entry_bank_go.Base.{
  ◌≡◌, refl, sym, ap, subst, ◌∙◌, ◌⊎◌, inl, inr, Bool, true, false, Option, none, some, String,
  List, arith,
}
use double_entry_bank_go.World.{Uuid, World, tick}
use double_entry_bank_go.Api.Reply.{Reply, Payload, respond_error, error_response, plain_text}
use double_entry_bank_go.Api.Auth.{
  AuthError, Claim, Verified, from_context, user_claim, verify_request, authenticator,
}
use double_entry_bank_go.Api.Handling.{
  Server, Request, Handling, Outcome, goes_on, replied, authenticate, need, next_call, ◌>>=◌,
  respond,
}
use double_entry_bank_go.Api.Accounts.{list_accounts, get_account_handler}
use double_entry_bank_go.Api.Movements.{reconcile_handler}
use double_entry_bank_go.Api.Listing.{get_entries, get_transactions}
use double_entry_bank_go.Api.Denied.{>>=-replied}
use double_entry_bank_go.Api.Reading.{is_reading}
use double_entry_bank_go.Api.Disclosed.{ShowsOwn}
use double_entry_bank_go.Api.Confidential.{handler-ShowsOwn}
use double_entry_bank_go.Api.Router.{
  Endpoint, register_route, login_route, create_account_route, list_accounts_route,
  get_account_route, deposit_route, withdraw_route, transfer_route, entries_route, reconcile_route,
  transactions_route, Incoming, is_public, handler, to_request, guarded, serve,
}

-- A body that says no more than why the request is refused.
abbrev pub is_refusal : Payload → Bool
is_refusal (error_response t) = true
is_refusal (plain_text t) = true
is_refusal _ = false

abbrev invalid_token : Reply
invalid_token = respond_error 401 "invalid token"

-- A reply that is a refusal, by whatever way it was sent.
abbrev IsRefusal : Outcome (Unit {0}) → Type 0
IsRefusal (goes_on a) = Unit
IsRefusal (replied reply) = is_refusal reply.body ≡ true

same_refusal :
    (o : Outcome (Unit {0})) (reply : Reply)
    → o ≡ replied reply
    → IsRefusal o
    → is_refusal reply.body ≡ true
same_refusal o reply sent refuses = subst IsRefusal sent refuses

module _ (s : Server) where
  open s use {backend as b, jwt}

  -- A step that tells who the caller is, or refuses the token, and does nothing else.
  abbrev TellsCaller : Handling Uuid → Type 0
  TellsCaller m =
      (w : World) → ((user : Uuid) × (m w ≡ (goes_on user, w))) ⊎ (m w ≡ (replied invalid_token, w))

  authenticate_cases : (r : Request s) → TellsCaller (authenticate s r)
  unfolding authenticate need ◌>>=◌
  authenticate_cases r = go (from_context jwt r.verified)
    where
      read : (o : Option Uuid) → TellsCaller (need o 401 "invalid token")
      read none w = inr refl
      read (some user) w = inl (user, refl)

      named :
          (o : Option String)
          → TellsCaller
              (need o 401 "invalid token" >>= λ user. need (b.uuid_parse user) 401 "invalid token")
      named none w = inr refl
      named (some text) w = read (b.uuid_parse text) w

      go :
          (c : AuthError ⊎ List (String × Claim))
          → TellsCaller (elim c as (λ _. Handling Uuid) [
            | inl e ↦ respond (respond_error 401 "invalid token")
            | inr claims ↦ need (user_claim claims) 401 "invalid token" >>= λ user.
                need (b.uuid_parse user) 401 "invalid token"
          ])
      go (inl e) w = inr refl
      go (inr claims) w = named (user_claim claims) w

  handler_refuses :
      (e : Endpoint) (r : Request s) (w : World)
      → is_reading e ≡ true
      → is_public e ≡ false
      → authenticate s r w ≡ (replied invalid_token, w)
      → (handler s e r w).0 ≡ replied invalid_token
  unfolding list_accounts get_account_handler get_entries reconcile_handler get_transactions
  handler_refuses list_accounts_route r w reads protected h =
      ap (λ p. p.0) (>>=-replied _ _ w w invalid_token h)
  handler_refuses get_account_route r w reads protected h =
      ap (λ p. p.0) (>>=-replied _ _ w w invalid_token h)
  handler_refuses entries_route r w reads protected h =
      ap (λ p. p.0) (>>=-replied _ _ w w invalid_token h)
  handler_refuses reconcile_route r w reads protected h =
      ap (λ p. p.0) (>>=-replied _ _ w w invalid_token h)
  handler_refuses transactions_route r w reads protected h =
      ap (λ p. p.0) (>>=-replied _ _ w w invalid_token h)
  handler_refuses register_route r w reads protected h = absurd (ground arith)
  handler_refuses login_route r w reads protected h = absurd (ground arith)
  handler_refuses create_account_route r w reads protected h = absurd (ground arith)
  handler_refuses deposit_route r w reads protected h = absurd (ground arith)
  handler_refuses withdraw_route r w reads protected h = absurd (ground arith)
  handler_refuses transfer_route r w reads protected h = absurd (ground arith)

  -- The token of the request is let through, and it names the user.
  abbrev pub IsCaller : Incoming → World → Uuid → Type 0
  IsCaller i w user =
      (authenticator jwt (verify_request jwt (s.unix w.calls) i.credentials) ≡ none)
      × (authenticate s (to_request s (verify_request jwt (s.unix w.calls) i.credentials) i)
            (tick w)
          ≡ (goes_on user, tick w))

  -- The reply to a request on a protected route that only reads says why it is refused, or the
  -- token of the request is let through and names a user, and the reply shows that user rows as the
  -- tables have them: accounts of the user or of nobody, and entries on such accounts or of
  -- transactions with an entry on an account of the user.
  pub serve-ShowsOwn :
      (i : Incoming) (w : World) (reply : Reply)
      → is_reading i.endpoint ≡ true
      → is_public i.endpoint ≡ false
      → (serve s i w).0 ≡ replied reply
      → (is_refusal reply.body ≡ true)
        ⊎ ((user : Uuid) × IsCaller i w user × ShowsOwn s user w.db reply.body)
  unfolding serve guarded next_call ◌>>=◌
  serve-ShowsOwn i w reply reads protected sent =
      go (authenticator jwt v) refl (subst Sent protected sent)
    where
      v : Verified jwt
      v = verify_request jwt (s.unix w.calls) i.credentials

      Sent : Bool → Type 0
      Sent open_to_all =
          ((elim open_to_all as (λ _. Handling (Unit {0})) [
            | true ↦ handler s i.endpoint (to_request s (none, none) i)
            | false ↦ guarded s i
          ])
            w).0
          ≡ replied reply

      go :
          (o : Option String)
          → authenticator jwt v ≡ o
          → ((elim o as (λ _. Handling (Unit {0})) [
            | some text ↦ respond (record { status = 401; body = plain_text text })
            | none ↦ handler s i.endpoint (to_request s v i)
          ])
              (tick w)).0
            ≡ replied reply
          → (is_refusal reply.body ≡ true)
            ⊎ ((user : Uuid) × IsCaller i w user × ShowsOwn s user w.db reply.body)
      go (some text) _ h = inl (same_refusal _ reply h refl)
      go none admitted h = elim (authenticate_cases (to_request s v i) (tick w)) [
        | inl (user, known) ↦ inr (
          user,
          (admitted, known),
          handler-ShowsOwn s user (to_request s v i) (tick w) known i.endpoint reply reads protected
              h,
        )
        | inr refused ↦ inl (
            same_refusal _ reply
              (sym (handler_refuses i.endpoint (to_request s v i) (tick w) reads protected refused)
                ∙ h)
              refl)
      ]
