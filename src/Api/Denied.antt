-- ===== src/Api/Denied.antt =====
-- Ownership: what a caller is told who names an account of someone else.
use double_entry_bank_go.Base.{
  arith, ◌≡◌, ◌≢◌, ◌∙◌, Bool, true, false, Option, none, some, ℕ, ◌==◌, String, ==_iff, Bool-cases,
  inl, inr,
}
use double_entry_bank_go.Errors.{SqlError, GoError, database, ok, err}
use double_entry_bank_go.World.{Uuid, AccountRow, World, Action, tick}
use double_entry_bank_go.Sqlc.Models.{scan_account}
use double_entry_bank_go.Sqlc.Tables.{find_account}
use double_entry_bank_go.Sqlc.Accounts.{get_account}
use double_entry_bank_go.Sqlc.Calm.{get_account_calm}
use double_entry_bank_go.Api.Reply.{Reply, respond_error}
use double_entry_bank_go.Api.Handling.{
  goes_on, replied, Handling, ◌>>=◌, ◌>>◌, refuse_if, need, call, Server, Request, denied,
  authenticate, authorize,
}
use double_entry_bank_go.Api.Accounts.{get_account_handler}
use double_entry_bank_go.Api.Movements.{deposit_handler, withdraw_handler, reconcile_handler}
use double_entry_bank_go.Api.Listing.{get_entries}
use double_entry_bank_go.Api.Router.{Endpoint, handler}

module _ {A B : Type 0} (m : Handling A) (f : A → Handling B) (w w1 : World) where
  pub >>=-goes_on : (a : A) → m w ≡ (goes_on a, w1) → (m >>= f) w ≡ f a w1
  unfolding ◌>>=◌
  >>=-goes_on a h = ground arith

  pub >>=-replied : (e : Reply) → m w ≡ (replied e, w1) → (m >>= f) w ≡ (replied e, w1)
  unfolding ◌>>=◌
  >>=-replied e h = ground arith

module _ {A : Type 0} (m : Action A) (refusal : GoError → Reply) (w w1 : World) where
  pub call-ok : (a : A) → m w ≡ (ok a, w1) → call m refusal w ≡ (goes_on a, w1)
  unfolding call
  call-ok a h = ground arith

  call-err : (e : GoError) → m w ≡ (err e, w1) → call m refusal w ≡ (replied (refusal e), w1)
  unfolding call
  call-err e h = ground arith

pub need-some :
    {A : Type 0} (o : Option A) (status : ℕ) (text : String) (w : World) (a : A)
    → o ≡ some a
    → need o status text w ≡ (goes_on a, w)
unfolding need
need-some o status text w a h = rw h

refuse_if-true :
    (bad : Bool) (status : ℕ) (text : String) (w : World)
    → bad ≡ true
    → refuse_if bad status text w ≡ (replied (respond_error status text), w)
unfolding refuse_if
refuse_if-true bad status text w h = rw h

-- The routes whose path names an account.
abbrev pub names_account : Endpoint → Bool
names_account Endpoint.get_account_route = true
names_account Endpoint.deposit_route = true
names_account Endpoint.withdraw_route = true
names_account Endpoint.entries_route = true
names_account Endpoint.reconcile_route = true
names_account _ = false

module _ (s : Server) (user_id id owner : Uuid) (row : AccountRow) (w : World)
    (found : find_account id w.db.accounts ≡ some row) (owned : row.owner_id ≡ some owner)
    (foreign : owner ≢ user_id) where
  open s use {backend as b}

  denied-true : denied s (scan_account b.decimals row) user_id ≡ true
  unfolding denied
  denied-true = elim (Bool-cases (owner == user_id)) [
    | inl same ↦ absurd (foreign ((==_iff owner user_id).0 same))
    | inr other ↦ rw (owned, other)
  ]

  pub authorize_forbids :
      (missing : String)
      → b.fault w.calls ≡ none
      → authorize s user_id id missing w ≡ (replied (respond_error 403 "access denied"), tick w)
  unfolding authorize ◌>>◌
  authorize_forbids missing calm =
      >>=-goes_on _ _ w (tick w) _
        (call-ok _ _ w (tick w) _ (get_account_calm b w calm id row found))
      ∙ >>=-replied _ _ (tick w) (tick w) _ (refuse_if-true _ _ _ _ denied-true)

  get_account_faults :
      (e : SqlError) → b.fault w.calls ≡ some e → get_account b id w ≡ (err (database e), tick w)
  unfolding get_account
  get_account_faults e hit = ground arith

  pub authorize_misses :
      (missing : String) (e : SqlError)
      → b.fault w.calls ≡ some e
      → authorize s user_id id missing w ≡ (replied (respond_error 404 missing), tick w)
  unfolding authorize
  authorize_misses missing e hit =
      >>=-replied _ _ w (tick w) _ (call-err _ _ w (tick w) _ (get_account_faults e hit))

  module _ (r : Request s) (known : authenticate s r w ≡ (goes_on user_id, w))
      (named : b.uuid_parse r.id ≡ some id) where
    -- The five handlers begin alike, so that what `authorize` replies is what they reply.
    handler-authorize :
        (e : Endpoint) (reply : Reply)
        → names_account e ≡ true
        → authorize s user_id id "account not found" w ≡ (replied reply, tick w)
        → handler s e r w ≡ (replied reply, tick w)
    unfolding get_account_handler deposit_handler withdraw_handler get_entries reconcile_handler
    handler-authorize Endpoint.get_account_route reply is refused =
        >>=-goes_on _ _ w w _ known
        ∙ >>=-goes_on _ _ w w _ (need-some _ _ _ w _ named)
        ∙ >>=-replied _ _ w (tick w) _ refused
    handler-authorize Endpoint.deposit_route reply is refused =
        >>=-goes_on _ _ w w _ known
        ∙ >>=-goes_on _ _ w w _ (need-some _ _ _ w _ named)
        ∙ >>=-replied _ _ w (tick w) _ refused
    handler-authorize Endpoint.withdraw_route reply is refused =
        >>=-goes_on _ _ w w _ known
        ∙ >>=-goes_on _ _ w w _ (need-some _ _ _ w _ named)
        ∙ >>=-replied _ _ w (tick w) _ refused
    handler-authorize Endpoint.entries_route reply is refused =
        >>=-goes_on _ _ w w _ known
        ∙ >>=-goes_on _ _ w w _ (need-some _ _ _ w _ named)
        ∙ >>=-replied _ _ w (tick w) _ refused
    handler-authorize Endpoint.reconcile_route reply is refused =
        >>=-goes_on _ _ w w _ known
        ∙ >>=-goes_on _ _ w w _ (need-some _ _ _ w _ named)
        ∙ >>=-replied _ _ w (tick w) _ refused
    handler-authorize Endpoint.register_route reply is refused = absurd (ground arith)
    handler-authorize Endpoint.login_route reply is refused = absurd (ground arith)
    handler-authorize Endpoint.create_account_route reply is refused = absurd (ground arith)
    handler-authorize Endpoint.list_accounts_route reply is refused = absurd (ground arith)
    handler-authorize Endpoint.transfer_route reply is refused = absurd (ground arith)
    handler-authorize Endpoint.transactions_route reply is refused = absurd (ground arith)

    -- On each of the routes whose path names an account, an authenticated caller who names an
    -- account that has another owner is told 403, or 404 if the database fails to look the account
    -- up; nothing else is called, and the tables are left alone.
    pub foreign_account_refused :
        (e : Endpoint)
        → names_account e ≡ true
        → (b.fault w.calls ≡ none
            → handler s e r w ≡ (replied (respond_error 403 "access denied"), tick w))
          × ((fault : SqlError)
              → b.fault w.calls ≡ some fault
              → handler s e r w ≡ (replied (respond_error 404 "account not found"), tick w))
    foreign_account_refused e is = (
      λ calm. handler-authorize e _ is (authorize_forbids "account not found" calm),
      λ fault hit. handler-authorize e _ is (authorize_misses "account not found" fault hit),
    )
