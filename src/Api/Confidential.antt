-- ===== src/Api/Confidential.antt =====
-- Confidentiality: the handlers that read show a caller only rows that the caller may see.
use double_entry_bank_go.Base.{
  ◌≡◌, sym, ◌∙◌, subst, ◌∙◌, ℕ, inl, inr, true, false, not, List, Any, All, Any-All, some, arith,
}
use double_entry_bank_go.Errors.{ok}
use double_entry_bank_go.World.{Uuid, EntryRow, World}
use double_entry_bank_go.Sqlc.Models.{Account, Entry, scan_entry}
use double_entry_bank_go.Sqlc.Entries.{list_entries_by_account, list_entries_by_transaction}
use double_entry_bank_go.Sqlc.Listing.{
  IsIn, list_entries_by_account-eq-ok, list_entries_by_transaction-eq-ok,
}
use double_entry_bank_go.Service.Reads.{
  list_entries_by_account-Keeps, list_entries_by_transaction-Keeps,
}
use double_entry_bank_go.Api.Reply.{Reply}
use double_entry_bank_go.Api.Handling.{Server, Request, goes_on, replied, authenticate}
use double_entry_bank_go.Api.Listing.{get_entries, get_transactions}
use double_entry_bank_go.Api.Reading.{is_reading}
use double_entry_bank_go.Api.Router.{
  Endpoint, register_route, login_route, create_account_route, list_accounts_route,
  get_account_route, deposit_route, withdraw_route, transfer_route, entries_route, reconcile_route,
  transactions_route, handler, is_public,
}
use double_entry_bank_go.Api.Ensured.{
  >>=-Ensures, >>-Ensures, refuse_if-Ensures, need-Ensures, call-Ensures,
}
use double_entry_bank_go.Api.Disclosed.{
  Any-under_map, OwnsAccount, MaySeeEntry, ShowsOwn, IsOpen, IsAuthorized, authorize-Ensures,
  authorized_by-Ensures,
}
use double_entry_bank_go.Api.Shown.{
  Own', AreOf, shown_after, entries_shown, get_account_handler-shows, list_accounts-shows,
  reconcile_handler-shows,
}

module _ (s : Server) (user : Uuid) (r : Request s) (w : World)
    (known : authenticate s r w ≡ (goes_on user, w)) where
  open s use {backend as b, zero_time}

  abbrev R : Reply → Type 0
  R = Own' s user r w known

  abbrev Listed : (EntryRow → Type 0) → List Entry → Type 0
  Listed = AreOf s user r w known

  get_entries-shows : (reply : Reply) → (get_entries s r w).0 ≡ replied reply → R reply
  unfolding get_entries
  get_entries-shows reply sent =
      shown_after s user r w known _ reply
        (>>=-Ensures w.db R (λ id. b.uuid_parse r.id ≡ some id) (λ _. Unit) _ _
          (need-Ensures w.db R _ _ tt _)
          (λ id _.
            >>=-Ensures w.db R (IsOpen s user w.db id) (λ _. Unit) _ _
              (authorize-Ensures s user w.db id "account not found")
              (λ acc seen.
                >>-Ensures w.db R _ (λ _. Unit) _ _ (refuse_if-Ensures w.db R _ _ tt _)
                  (λ _.
                    >>=-Ensures w.db R (Listed (λ row. row.account_id ≡ id)) (λ _. Unit) _ _
                      (call-Ensures w.db R (Listed (λ row. row.account_id ≡ id)) _ _ (λ e. tt)
                        (list_entries_by_account-Keeps _ b _) (found id _ _))
                      (λ entries listed w' h. (
                        entries_shown s user r w known (λ row. row.account_id ≡ id)
                            (may id acc seen) entries listed,
                        h,
                      ))))))
        sent
    where
      found :
          (id : Uuid) (limit offset : ℕ) (w1 w2 : World) (entries : List Entry)
          → w1.db ≡ w.db
          → list_entries_by_account b
              (record { account_id = id; limit = limit; offset = offset })
              w1
            ≡ (ok entries, w2)
          → Listed (λ row. row.account_id ≡ id) entries
      found id limit offset w1 w2 entries h ran =
          let (rows, is, all) = list_entries_by_account-eq-ok b w1 _ ran in
          (
            rows,
            is,
            subst (λ db. All (λ row. IsIn db.entries row × (row.account_id ≡ id)) rows) h all,
          )

      may :
          (id : Uuid) (acc : Account)
          → IsOpen s user w.db id acc
          → (row : EntryRow) → row.account_id ≡ id
          → MaySeeEntry s user w.db row
      may id acc (account, at, may_see, is) row same = inl (account, rw same at, may_see)

  get_transactions-shows : (reply : Reply) → (get_transactions s r w).0 ≡ replied reply → R reply
  unfolding get_transactions
  get_transactions-shows reply sent =
      shown_after s user r w known _ reply
        (>>=-Ensures w.db R (λ id. b.uuid_parse r.id ≡ some id) (λ _. Unit) _ _
          (need-Ensures w.db R _ _ tt _)
          (λ id _.
            >>=-Ensures w.db R (Listed (λ row. row.transaction_id ≡ id)) (λ _. Unit) _ _
              (call-Ensures w.db R (Listed (λ row. row.transaction_id ≡ id)) _ _ (λ e. tt)
                (list_entries_by_transaction-Keeps _ b id) (found id))
              (λ entries listed.
                >>-Ensures w.db R _ (λ _. Unit) _ _ (refuse_if-Ensures w.db R _ _ tt _)
                  (λ _.
                    >>=-Ensures w.db R (IsAuthorized s user w.db entries) (λ _. Unit) _ _
                      (authorized_by-Ensures s user w.db entries)
                      (λ authorized proves.
                        >>-Ensures w.db R (not authorized ≡ false) (λ _. Unit) _ _
                          (refuse_if-Ensures w.db R _ _ tt _)
                          (λ passed w' h. (
                            entries_shown s user r w known (λ row. row.transaction_id ≡ id)
                                (may id entries listed (proves (ground (arith)))) entries listed,
                            h,
                          )))))))
        sent
    where
      found :
          (id : Uuid) (w1 w2 : World) (entries : List Entry)
          → w1.db ≡ w.db
          → list_entries_by_transaction b id w1 ≡ (ok entries, w2)
          → Listed (λ row. row.transaction_id ≡ id) entries
      found id w1 w2 entries h ran =
          let (rows, is, all) = list_entries_by_transaction-eq-ok b w1 id ran in
          (
            rows,
            is,
            subst (λ db. All (λ row. IsIn db.entries row × (row.transaction_id ≡ id)) rows) h all,
          )

      may :
          (id : Uuid) (entries : List Entry)
          → Listed (λ row. row.transaction_id ≡ id) entries
          → Any (λ e. OwnsAccount s user w.db e.account_id) entries
          → (row : EntryRow) → row.transaction_id ≡ id
          → MaySeeEntry s user w.db row
      may id entries (rows, is, all) own row same =
          let (other, owned, (is_in, of_it)) =
            Any-All _ _ rows
              (Any-under_map (scan_entry b.decimals) (λ e. OwnsAccount s user w.db e.account_id)
                rows (subst (Any (λ e. OwnsAccount s user w.db e.account_id)) is own))
              all in
          inr (other, is_in, of_it ∙ sym same, owned)

  -- What a handler that only reads replies to an authenticated caller shows rows as the tables have
  -- them, and of accounts only those that belong to the caller or to nobody; of entries only those
  -- on such accounts, or of transactions with an entry on an account of the caller.
  pub handler-ShowsOwn :
      (e : Endpoint) (reply : Reply)
      → is_reading e ≡ true
      → is_public e ≡ false
      → (handler s e r w).0 ≡ replied reply
      → ShowsOwn s user w.db reply.body
  handler-ShowsOwn list_accounts_route reply reads protected sent =
      list_accounts-shows s user r w known reply sent
  handler-ShowsOwn get_account_route reply reads protected sent =
      get_account_handler-shows s user r w known reply sent
  handler-ShowsOwn entries_route reply reads protected sent = get_entries-shows reply sent
  handler-ShowsOwn reconcile_route reply reads protected sent =
      reconcile_handler-shows s user r w known reply sent
  handler-ShowsOwn transactions_route reply reads protected sent = get_transactions-shows reply sent
  handler-ShowsOwn register_route reply reads protected sent = absurd (ground arith)
  handler-ShowsOwn create_account_route reply reads protected sent = absurd (ground arith)
  handler-ShowsOwn deposit_route reply reads protected sent = absurd (ground arith)
  handler-ShowsOwn withdraw_route reply reads protected sent = absurd (ground arith)
  handler-ShowsOwn transfer_route reply reads protected sent = absurd (ground arith)
  handler-ShowsOwn login_route reply reads protected sent = absurd (ground arith)
