-- ===== src/Api/Reading.antt =====
-- The steps and the handlers that only read keep whatever holds of the tables.
use double_entry_bank_go.Base.{
  ◌≡◌, arith, Option, none, some, Bool, true, false, String, List, [], ◌∷◌, ◌⊎◌, inl, inr,
}
use double_entry_bank_go.World.{Uuid, Db}
use double_entry_bank_go.Sqlc.Models.{Entry}
use double_entry_bank_go.Service.Reads.{
  get_account-Keeps, list_accounts_by_owner-Keeps, list_entries_by_account-Keeps,
  list_entries_by_transaction-Keeps, get_user_by_email-Keeps, reconcile_account-Keeps,
}
use double_entry_bank_go.Api.Handling.{
  Ending, Server, Request, Handling, ◌>>=◌, next_call, need, respond, go_on, authenticate,
  authorize,
}
use double_entry_bank_go.Api.Auth.{
  AuthError, Claim, from_context, user_claim, Verified, verify_request, authenticator,
}
use double_entry_bank_go.Api.Reply.{respond_error, plain_text}
use double_entry_bank_go.Api.Users.{generate_token, hash_password, login}
use double_entry_bank_go.Api.Accounts.{list_accounts, get_account_handler}
use double_entry_bank_go.Api.Movements.{reconcile_handler}
use double_entry_bank_go.Api.Listing.{owns, authorized_by, get_entries, get_transactions}
use double_entry_bank_go.Api.Kept.{
  Keeps, >>=-Keeps, >>-Keeps, refuse_if-Keeps, need-Keeps, call-Keeps,
}
use double_entry_bank_go.Api.Router.{
  Endpoint, register_route, login_route, create_account_route, list_accounts_route,
  get_account_route, deposit_route, withdraw_route, transfer_route, entries_route, reconcile_route,
  transactions_route, Incoming, handler, is_public, to_request, guarded, serve,
}

-- A route that only reads.
abbrev pub is_reading : Endpoint → Bool
is_reading login_route = true
is_reading list_accounts_route = true
is_reading get_account_route = true
is_reading entries_route = true
is_reading reconcile_route = true
is_reading transactions_route = true
is_reading _ = false

module _ (s : Server) (Inv : Db → Type 0) where
  open s use {backend as b, jwt}

  pub next_call-Keeps : Keeps Inv next_call
  unfolding next_call
  next_call-Keeps w h = h

  pub authenticate-Keeps : (r : Request s) → Keeps Inv (authenticate s r)
  unfolding authenticate
  authenticate-Keeps r = go (from_context jwt r.verified)
    where
      go :
          (c : AuthError ⊎ List (String × Claim))
          → Keeps Inv (elim c as (λ _. Handling Uuid) [
            | inl e ↦ respond (respond_error 401 "invalid token")
            | inr claims ↦ need (user_claim claims) 401 "invalid token" >>= λ user.
                need (b.uuid_parse user) 401 "invalid token"
          ])
      go (inl e) = λ w h. h
      go (inr claims) = >>=-Keeps _ _ _ (need-Keeps _ _ _ _) (λ user. need-Keeps _ _ _ _)

  pub authorize-Keeps :
      (user_id account_id : Uuid) (missing : String)
      → Keeps Inv (authorize s user_id account_id missing)
  unfolding authorize
  authorize-Keeps user_id account_id missing =
      >>=-Keeps _ _ _ (call-Keeps _ _ _ (get_account-Keeps _ b account_id))
        (λ acc. >>-Keeps _ _ _ (refuse_if-Keeps _ _ _ _) (λ w h. h))

  pub generate_token-Keeps : (id : Uuid) → Keeps Inv (generate_token s id)
  unfolding generate_token
  generate_token-Keeps id = >>=-Keeps _ _ _ next_call-Keeps (λ n. need-Keeps _ _ _ _)

  pub hash_password-Keeps : (password : String) → Keeps Inv (hash_password s password)
  unfolding hash_password
  hash_password-Keeps password = >>=-Keeps _ _ _ next_call-Keeps (λ n. need-Keeps _ _ _ _)

  pub login-Keeps : (r : Request s) → Keeps Inv (login s r)
  unfolding login
  login-Keeps r = >>=-Keeps _ _ _ (need-Keeps _ _ _ _) (λ ps.
      >>=-Keeps _ _ _ (need-Keeps _ _ _ _) (λ email.
        >>=-Keeps _ _ _ (need-Keeps _ _ _ _) (λ password.
          >>=-Keeps _ _ _ (call-Keeps _ _ _ (get_user_by_email-Keeps _ b email)) (λ user.
            >>-Keeps _ _ _ (refuse_if-Keeps _ _ _ _)
              (>>=-Keeps _ _ _ (generate_token-Keeps _) (λ token w h. h))))))

  pub list_accounts-Keeps : (r : Request s) → Keeps Inv (list_accounts s r)
  unfolding list_accounts
  list_accounts-Keeps r = >>=-Keeps _ _ _ (authenticate-Keeps r) (λ user_id.
      >>=-Keeps _ _ _ (call-Keeps _ _ _ (list_accounts_by_owner-Keeps _ b _)) (λ accounts w h. h))

  pub get_account_handler-Keeps : (r : Request s) → Keeps Inv (get_account_handler s r)
  unfolding get_account_handler
  get_account_handler-Keeps r = >>=-Keeps _ _ _ (authenticate-Keeps r) (λ user_id.
      >>=-Keeps _ _ _ (need-Keeps _ _ _ _)
        (λ account_id. >>=-Keeps _ _ _ (authorize-Keeps _ _ _) (λ acc w h. h)))

  pub reconcile_handler-Keeps : (r : Request s) → Keeps Inv (reconcile_handler s r)
  unfolding reconcile_handler
  reconcile_handler-Keeps r = >>=-Keeps _ _ _ (authenticate-Keeps r) (λ user_id.
      >>=-Keeps _ _ _ (need-Keeps _ _ _ _) (λ account_id.
        >>=-Keeps _ _ _ (authorize-Keeps _ _ _) (λ acc.
          >>=-Keeps _ _ _ (call-Keeps _ _ _ (reconcile_account-Keeps _ b account_id))
            (λ matched w h. h))))

  pub get_entries-Keeps : (r : Request s) → Keeps Inv (get_entries s r)
  unfolding get_entries
  get_entries-Keeps r = >>=-Keeps _ _ _ (authenticate-Keeps r) (λ user_id.
      >>=-Keeps _ _ _ (need-Keeps _ _ _ _) (λ account_id.
        >>=-Keeps _ _ _ (authorize-Keeps _ _ _) (λ acc. >>-Keeps _ _ _ (refuse_if-Keeps _ _ _ _) (
          >>=-Keeps _ _ _ (call-Keeps _ _ _ (list_entries_by_account-Keeps _ b _))
            (λ entries w h. h)))))

  pub authorized_by-Keeps :
      (user_id : Uuid) (entries : List Entry) → Keeps Inv (authorized_by s user_id entries)
  unfolding authorized_by
  authorized_by-Keeps user_id [] = λ w h. h
  authorized_by-Keeps user_id (entry ∷ entries) =
      >>=-Keeps _ _ _ (call-Keeps _ _ _ (get_account-Keeps _ b _))
        (λ acc. go (authorized_by-Keeps user_id entries) (owns user_id acc))
    where
      go :
          Keeps Inv (authorized_by s user_id entries)
          → (mine : Bool)
          → Keeps Inv (elim mine as (λ _. Handling Bool) [
            | true ↦ go_on true
            | false ↦ authorized_by s user_id entries
          ])
      go rest true = λ w h. h
      go rest false = rest

  pub get_transactions-Keeps : (r : Request s) → Keeps Inv (get_transactions s r)
  unfolding get_transactions
  get_transactions-Keeps r = >>=-Keeps _ _ _ (authenticate-Keeps r) (λ user_id.
      >>=-Keeps _ _ _ (need-Keeps _ _ _ _) (λ transaction_id.
        >>=-Keeps _ _ _ (call-Keeps _ _ _ (list_entries_by_transaction-Keeps _ b _)) (λ entries.
          >>-Keeps _ _ _ (refuse_if-Keeps _ _ _ _) (
            >>=-Keeps _ _ _ (authorized_by-Keeps user_id entries)
              (λ authorized. >>-Keeps _ _ _ (refuse_if-Keeps _ _ _ _) (λ w h. h))))))

  -- Behind the middleware, what the route's handler keeps.
  module _ (i : Incoming) (kept : (r : Request s) → Keeps Inv (handler s i.endpoint r)) where
    guarded-Keeps : Keeps Inv (guarded s i)
    unfolding guarded
    guarded-Keeps =
        >>=-Keeps _ _ _ next_call-Keeps
          (λ n. let v = verify_request jwt (s.unix n) i.credentials in go v (authenticator jwt v))
      where
        go :
            (v : Verified jwt) (o : Option String)
            → Keeps Inv (elim o as (λ _. Ending) [
              | some text ↦ respond (record { status = 401; body = plain_text text })
              | none ↦ handler s i.endpoint (to_request s v i)
            ])
        go v (some text) = λ w h. h
        go v none = kept (to_request s v i)

    pub serve-Keeps : Keeps Inv (serve s i)
    unfolding serve
    serve-Keeps = go (is_public i.endpoint)
      where
        go :
            (open_to_all : Bool)
            → Keeps Inv (elim open_to_all as (λ _. Ending) [
              | true ↦ handler s i.endpoint (to_request s (none, none) i)
              | false ↦ guarded s i
            ])
        go true = kept (to_request s (none, none) i)
        go false = guarded-Keeps

  pub reading_handler-Keeps :
      (e : Endpoint) (r : Request s) → is_reading e ≡ true → Keeps Inv (handler s e r)
  reading_handler-Keeps login_route r _ = login-Keeps r
  reading_handler-Keeps list_accounts_route r _ = list_accounts-Keeps r
  reading_handler-Keeps get_account_route r _ = get_account_handler-Keeps r
  reading_handler-Keeps entries_route r _ = get_entries-Keeps r
  reading_handler-Keeps reconcile_route r _ = reconcile_handler-Keeps r
  reading_handler-Keeps transactions_route r _ = get_transactions-Keeps r
  reading_handler-Keeps register_route r reads = absurd (ground arith)
  reading_handler-Keeps create_account_route r reads = absurd (ground arith)
  reading_handler-Keeps deposit_route r reads = absurd (ground arith)
  reading_handler-Keeps withdraw_route r reads = absurd (ground arith)
  reading_handler-Keeps transfer_route r reads = absurd (ground arith)
