-- ===== src/Docs/Steps.antt =====
-- internal/api/handler.go: the steps that the handlers share reply as the document has it, where it
-- lists the statuses with which they refuse.
use double_entry_bank_go.Base.{Bool, true, false, String, List, [], ◌∷◌, ◌⊎◌, inl, inr, ◌≡◌, ℕ}
use double_entry_bank_go.World.{Uuid}
use double_entry_bank_go.Sqlc.Models.{Entry}
use double_entry_bank_go.Api.Handling.{
  Server, Request, Handling, ◌>>=◌, need, respond, go_on, authenticate, authorize,
}
use double_entry_bank_go.Api.Auth.{AuthError, Claim, from_context, user_claim}
use double_entry_bank_go.Api.Reply.{Reply, respond_error}
use double_entry_bank_go.Api.Users.{generate_token, hash_password}
use double_entry_bank_go.Api.Listing.{owns, authorized_by}
use double_entry_bank_go.Api.Answered.{
  Steps, >>=-Steps, >>-Steps, next_call-Steps, refuse_if-Steps, need-Steps, call-Steps,
}

module _ (s : Server) (P : Reply → Bool) where
  open s use {backend as b, jwt}

  -- The status is one with which a handler may refuse, whatever the text.
  abbrev pub Refuses : ℕ → Type 0
  Refuses status = (text : String) → P (respond_error status text) ≡ true

  pub authenticate-Steps : (r : Request s) → Refuses 401 → Steps P (authenticate s r)
  unfolding authenticate
  authenticate-Steps r fine = go (from_context jwt r.verified)
    where
      go :
          (c : AuthError ⊎ List (String × Claim))
          → Steps P (elim c as (λ _. Handling Uuid) [
            | inl e ↦ respond (respond_error 401 "invalid token")
            | inr claims ↦ need (user_claim claims) 401 "invalid token" >>= λ user.
                need (b.uuid_parse user) 401 "invalid token"
          ])
      go (inl e) = λ w. fine _
      go (inr claims) =
          >>=-Steps _ _ _ (need-Steps _ _ _ (fine _) _) (λ user. need-Steps _ _ _ (fine _) _)

  pub authorize-Steps :
      (user_id account_id : Uuid) (missing : String)
      → Refuses 403
      → Refuses 404
      → Steps P (authorize s user_id account_id missing)
  unfolding authorize
  authorize-Steps user_id account_id missing fine403 fine404 =
      >>=-Steps _ _ _ (call-Steps _ _ _ (λ e. fine404 _))
        (λ acc. >>-Steps _ _ _ (refuse_if-Steps _ _ _ (fine403 _) _) (λ w. tt))

  pub generate_token-Steps : (id : Uuid) → Refuses 500 → Steps P (generate_token s id)
  unfolding generate_token
  generate_token-Steps id fine =
      >>=-Steps _ _ _ (next_call-Steps _) (λ n. need-Steps _ _ _ (fine _) _)

  pub hash_password-Steps : (password : String) → Refuses 500 → Steps P (hash_password s password)
  unfolding hash_password
  hash_password-Steps password fine =
      >>=-Steps _ _ _ (next_call-Steps _) (λ n. need-Steps _ _ _ (fine _) _)

  pub authorized_by-Steps :
      (user_id : Uuid) (entries : List Entry)
      → Refuses 500
      → Steps P (authorized_by s user_id entries)
  unfolding authorized_by
  authorized_by-Steps user_id [] fine = λ w. tt
  authorized_by-Steps user_id (entry ∷ entries) fine =
      >>=-Steps _ _ _ (call-Steps _ _ _ (λ e. fine _))
        (λ acc. go (authorized_by-Steps user_id entries fine) (owns user_id acc))
    where
      go :
          Steps P (authorized_by s user_id entries)
          → (mine : Bool)
          → Steps P (elim mine as (λ _. Handling Bool) [
            | true ↦ go_on true
            | false ↦ authorized_by s user_id entries
          ])
      go rest true = λ w. tt
      go rest false = rest
