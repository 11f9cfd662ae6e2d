-- ===== src/Api/ReadBack.antt =====
-- An account that CreateAccount has opened is what GetAccount shows its owner.
use double_entry_bank_go.Base.{
  ◌≡◌, refl, ◌∙◌, Bool, true, false, some, none, String, str_eq, List, ◌∷◌, any, ◌==◌, ==_iff, ◌+◌,
  arith, ℕ,
}
use double_entry_bank_go.Int.{pos}
use double_entry_bank_go.Errors.{ok}
use double_entry_bank_go.World.{Uuid, AccountRow, World, tick}
use double_entry_bank_go.Sqlc.Models.{scan_account}
use double_entry_bank_go.Sqlc.Tables.{find_account}
use double_entry_bank_go.Sqlc.Accounts.{insert_account, create_account}
use double_entry_bank_go.Api.Json.{Field, fields, text_field}
use double_entry_bank_go.Api.Reply.{AccountResponse, account_response, to_account_response}
use double_entry_bank_go.Api.Handling.{
  Server, Request, goes_on, replied, authenticate, authorize, denied, refuse_if, ◌>>◌,
}
use double_entry_bank_go.Sqlc.Calm.{get_account_calm}
use double_entry_bank_go.Api.Denied.{>>=-goes_on, call-ok, need-some}
use double_entry_bank_go.Api.Accounts.{create_account_handler, get_account_handler}

module _ (s : Server) (user : Uuid) (name : String) (w : World) where
  open s use {backend as b, zero_time}

  -- The row of the new account, and the tables and calls after it.
  abbrev pub new_row : AccountRow
  new_row = record {
    id = b.new_uuid w.calls;
    owner_id = some user;
    name = name;
    balance = pos 0;
    currency = "USD";
    is_system = false;
    created_at = some (b.now w.calls);
  }

  abbrev pub opened : World
  opened = record (tick w) { db = record w.db { accounts = new_row ∷ w.db.accounts } }

  abbrev pub opened_account : AccountResponse
  opened_account = to_account_response b.uuid_string zero_time (scan_account b.decimals new_row)

  create_account_runs :
      b.fault w.calls ≡ none
      → any (λ a. a.id == b.new_uuid w.calls) w.db.accounts ≡ false
      → any (λ u. u.id == user) w.db.users ≡ true
      → create_account b
          (record { owner_id = some user; name = name; currency = "USD"; is_system = false })
          w
        ≡ (ok (scan_account b.decimals new_row), opened)
  unfolding create_account insert_account
  create_account_runs calm fresh known = ground arith

  found_opened : find_account (b.new_uuid w.calls) opened.db.accounts ≡ some new_row
  found_opened = rw ((==_iff (b.new_uuid w.calls) (b.new_uuid w.calls)).1 refl) refl

  refuse_if-false :
      (bad : Bool) (status : ℕ) (text : String) (w' : World)
      → bad ≡ false
      → refuse_if bad status text w' ≡ (goes_on tt, w')
  unfolding refuse_if
  refuse_if-false bad status text w' h = rw h refl

  module _ (r r' : Request s) (ps : List (String × Field))
      (known : authenticate s r w ≡ (goes_on user, w)) (parsed : fields r.body ≡ some ps)
      (named : text_field "name" "" ps ≡ some name) (filled : str_eq name "" ≡ false)
      (registered : any (λ u. u.id == user) w.db.users ≡ true)
      (fresh : any (λ a. a.id == b.new_uuid w.calls) w.db.accounts ≡ false)
      (calm : b.fault w.calls ≡ none) where
    create_account_handler_opens :
        create_account_handler s r w
        ≡ (replied (record { status = 201; body = account_response opened_account }), opened)
    unfolding create_account_handler ◌>>◌
    create_account_handler_opens =
        >>=-goes_on _ _ w w user known
        ∙ >>=-goes_on _ _ w w ps (need-some _ _ _ w ps parsed)
        ∙ >>=-goes_on _ _ w w name (need-some _ _ _ w name named)
        ∙ >>=-goes_on _ _ w w tt (refuse_if-false _ _ _ w filled)
        ∙ >>=-goes_on _ _ w opened (scan_account b.decimals new_row)
            (call-ok _ _ w opened _ (create_account_runs calm fresh registered))

    module _ (known' : authenticate s r' opened ≡ (goes_on user, opened))
        (same_id : b.uuid_parse r'.id ≡ some (b.new_uuid w.calls))
        (calm' : b.fault (w.calls + 1) ≡ none) where
      authorize-opened :
          (missing : String)
          → authorize s user (b.new_uuid w.calls) missing opened
            ≡ (goes_on (scan_account b.decimals new_row), tick opened)
      unfolding authorize ◌>>◌ denied
      authorize-opened missing =
          >>=-goes_on _ _ opened (tick opened) (scan_account b.decimals new_row) (
            call-ok _ _ opened (tick opened) _
              (get_account_calm b opened calm' (b.new_uuid w.calls) new_row found_opened))
          ∙ >>=-goes_on _ _ (tick opened) (tick opened) tt
              (refuse_if-false _ _ _ (tick opened) (rw ((==_iff user user).1 refl) refl))

      -- Where the two calls of the database do not fail, a registered caller who sends a name that is
      -- not empty is told 201 and the new account, which has a fresh id; asked for the account of
      -- that id by the same caller right after, the server answers 200 with the same account.
      pub create_then_get :
          (create_account_handler s r w
            ≡ (replied (record { status = 201; body = account_response opened_account }), opened))
          × (get_account_handler s r' opened ≡ (
            replied (record { status = 200; body = account_response opened_account }),
            tick opened,
          ))
      unfolding get_account_handler
      create_then_get = (
        create_account_handler_opens,
        >>=-goes_on _ _ opened opened user known'
            ∙ >>=-goes_on _ _ opened opened (b.new_uuid w.calls) (need-some _ _ _ opened _ same_id)
            ∙ >>=-goes_on _ _ opened (tick opened) (scan_account b.decimals new_row)
                (authorize-opened "account not found"),
      )
