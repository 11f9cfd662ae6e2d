-- ===== src/Api/Listing.antt =====
-- internal/api/handler.go: GetEntries and GetTransactions.
use double_entry_bank_go.Base.{
  ℕ, Bool, true, false, not, ◌&&◌, ◌||◌, ◌==◌, ltb, List, [], ◌∷◌, map, length, Option, none, some,
  if◌then◌else◌,
}
use double_entry_bank_go.World.{Uuid}
use double_entry_bank_go.Sqlc.Models.{Account, Entry}
use double_entry_bank_go.Sqlc.Accounts.{get_account}
use double_entry_bank_go.Sqlc.Entries.{list_entries_by_account, list_entries_by_transaction}
use double_entry_bank_go.Api.Reply.{respond_error, entry_list, to_entry_response}
use double_entry_bank_go.Api.Handling.{
  Handling, Ending, ◌>>=◌, ◌>>◌, respond, go_on, refuse_if, need, call, Server, Request,
  authenticate, authorize,
}

-- The page's limit and offset, from the results of `strconv.Atoi`: a sign and a size.
unfoldable pub page_limit : Option (Bool × ℕ) → ℕ
page_limit none = 20
page_limit (some (negative, v)) =
    if not negative && ltb 0 v then if ltb v 100 then v else 100 else 20

unfoldable pub page_offset : Option (Bool × ℕ) → ℕ
page_offset none = 0
page_offset (some (negative, v)) = if not negative || v == 0 then v else 0

-- `acc.OwnerID.Valid && acc.OwnerID.UUID == userID`
unfoldable pub owns : Uuid → Account → Bool
owns user_id acc = elim acc.owner_id [ none ↦ false | some owner ↦ owner == user_id ]

module _ (s : Server) where
  open s use {backend as b, zero_time}

  unfoldable pub get_entries : Request s → Ending
  get_entries r = do
    user_id ← authenticate s r
    account_id ← need (b.uuid_parse r.id) 400 "invalid account ID"
    _ ← authorize s user_id account_id "account not found"
    let limit = page_limit (s.atoi r.limit)
    let offset = page_offset (s.atoi r.offset)
    refuse_if (ltb 2147483647 limit || ltb 2147483647 offset) 400 "limit or offset too large"
    entries ←
        call
          (list_entries_by_account b
            (record { account_id = account_id; limit = limit; offset = offset }))
          (λ e. respond_error 500 "failed to fetch entries")
    respond (record {
      status = 200;
      body = entry_list (map (to_entry_response b.uuid_string zero_time) entries);
    })

  -- The loop over the entries: it stops at the first account that the user owns.
  unfoldable pub authorized_by : Uuid → List Entry → Handling Bool
  authorized_by user_id [] = go_on false
  authorized_by user_id (entry ∷ entries) = do
    acc ←
        call (get_account b entry.account_id)
          (λ e. respond_error 500 "failed to authorize transaction")
    elim (owns user_id acc) [ true ↦ go_on true | false ↦ authorized_by user_id entries ]

  unfoldable pub get_transactions : Request s → Ending
  get_transactions r = do
    user_id ← authenticate s r
    transaction_id ← need (b.uuid_parse r.id) 400 "invalid transaction ID"
    entries ←
        call (list_entries_by_transaction b transaction_id)
          (λ e. respond_error 500 "failed to fetch transaction")
    refuse_if (length entries == 0) 404 "transaction not found"
    authorized ← authorized_by user_id entries
    refuse_if (not authorized) 403 "access denied"
    respond (record {
      status = 200;
      body = entry_list (map (to_entry_response b.uuid_string zero_time) entries);
    })
