-- ===== src/Api/Shown.antt =====
-- The handlers that read show a caller only rows that the caller may see.
use double_entry_bank_go.Base.{◌≡◌, refl, sym, ap, ◌∙◌, subst, inr, List, map, All, All-map, some}
use double_entry_bank_go.Errors.{ok}
use double_entry_bank_go.World.{Uuid, AccountRow, EntryRow, World}
use double_entry_bank_go.Sqlc.Models.{Account, Entry, scan_account, scan_entry}
use double_entry_bank_go.Sqlc.Accounts.{list_accounts_by_owner}
use double_entry_bank_go.Sqlc.Listing.{IsIn, list_accounts_by_owner-eq-ok}
use double_entry_bank_go.Service.Reads.{list_accounts_by_owner-Keeps, reconcile_account-Keeps}
use double_entry_bank_go.Api.Reply.{Reply, to_account_response, to_entry_response}
use double_entry_bank_go.Api.Handling.{
  Server, Request, Ending, goes_on, replied, authenticate, ◌>>=◌,
}
use double_entry_bank_go.Api.Accounts.{list_accounts, get_account_handler}
use double_entry_bank_go.Api.Movements.{reconcile_handler}
use double_entry_bank_go.Api.Denied.{>>=-goes_on}
use double_entry_bank_go.Api.Ensured.{Post, Ensures, >>=-Ensures, need-Ensures, call-Ensures}
use double_entry_bank_go.Api.Disclosed.{
  All-under_map, find_account-IsIn, MaySeeEntry, MayShowAccount, MayShowEntry, Own, IsOpen,
  authorize-Ensures,
}

module _ (s : Server) (user : Uuid) (r : Request s) (w : World)
    (known : authenticate s r w ≡ (goes_on user, w)) where
  open s use {backend as b, zero_time}

  abbrev pub Own' : Reply → Type 0
  Own' = Own s user w.db

  -- The handler's last steps.
  abbrev pub Shows : Ending → Type 0
  Shows m = Ensures w.db Own' (λ _. Unit) m

  abbrev pub IsOpen' : Uuid → Account → Type 0
  IsOpen' = IsOpen s user w.db

  -- The reply of a handler that begins with `authenticate`.
  pub shown_after :
      (f : Uuid → Ending) (reply : Reply)
      → Shows (f user)
      → ((authenticate s r >>= f) w).0 ≡ replied reply
      → Own' reply
  shown_after f reply shows sent =
      subst (Post w.db Own' (λ _. Unit))
        (ap (λ p. p.0) (sym (>>=-goes_on (authenticate s r) f w w user known)) ∙ sent)
        (shows w refl).0

  -- What the queries return, as rows of the tables.
  abbrev AreOwned : List Account → Type 0
  AreOwned accounts =
      (rows : List AccountRow) × (accounts ≡ map (scan_account b.decimals) rows)
      × All (λ row. IsIn w.db.accounts row × (row.owner_id ≡ some user)) rows

  abbrev pub AreOf : (EntryRow → Type 0) → List Entry → Type 0
  AreOf P entries =
      (rows : List EntryRow) × (entries ≡ map (scan_entry b.decimals) rows)
      × All (λ row. IsIn w.db.entries row × P row) rows

  account_shown :
      (id : Uuid) (acc : Account)
      → IsOpen' id acc
      → MayShowAccount s user w.db (to_account_response b.uuid_string zero_time acc)
  account_shown id acc (row, at, may, is) = (
    row,
    find_account-IsIn id w.db.accounts row at,
    may,
    ap (to_account_response b.uuid_string zero_time) is,
  )

  accounts_shown :
      (accounts : List Account)
      → AreOwned accounts
      → All
          (MayShowAccount s user w.db)
          (map (to_account_response b.uuid_string zero_time) accounts)
  accounts_shown accounts (rows, is, all) =
      subst
        (λ l.
          All (MayShowAccount s user w.db) (map (to_account_response b.uuid_string zero_time) l))
        (sym is)
        (All-under_map _ _ (map (scan_account b.decimals) rows) (
          All-under_map _ _ rows
            (All-map _ _ (λ row (is_in, mine). (row, is_in, inr mine, refl)) rows all)))

  pub entries_shown :
      (P : EntryRow → Type 0)
      → ((row : EntryRow) → P row → MaySeeEntry s user w.db row)
      → (entries : List Entry) → AreOf P entries
      → All (MayShowEntry s user w.db) (map (to_entry_response b.uuid_string zero_time) entries)
  entries_shown P may entries (rows, is, all) =
      subst
        (λ l. All (MayShowEntry s user w.db) (map (to_entry_response b.uuid_string zero_time) l))
        (sym is)
        (All-under_map _ _ (map (scan_entry b.decimals) rows) (
          All-under_map _ _ rows
            (All-map _ _ (λ row (is_in, p). (row, is_in, may row p, refl)) rows all)))

  pub get_account_handler-shows :
      (reply : Reply) → (get_account_handler s r w).0 ≡ replied reply → Own' reply
  unfolding get_account_handler
  get_account_handler-shows reply sent =
      shown_after _ reply
        (>>=-Ensures w.db Own' (λ id. b.uuid_parse r.id ≡ some id) (λ _. Unit) _ _
          (need-Ensures w.db Own' _ _ tt _)
          (λ id _.
            >>=-Ensures w.db Own' (IsOpen' id) (λ _. Unit) _ _
              (authorize-Ensures s user w.db id "account not found")
              (λ acc seen w' h. (account_shown id acc seen, h))))
        sent

  pub list_accounts-shows : (reply : Reply) → (list_accounts s r w).0 ≡ replied reply → Own' reply
  unfolding list_accounts
  list_accounts-shows reply sent =
      shown_after _ reply
        (>>=-Ensures w.db Own' AreOwned (λ _. Unit) _ _
          (call-Ensures w.db Own' AreOwned _ _ (λ e. tt) (list_accounts_by_owner-Keeps _ b _) found)
          (λ accounts owned w' h. (accounts_shown accounts owned, h)))
        sent
    where
      found :
          (w1 w2 : World) (accounts : List Account)
          → w1.db ≡ w.db
          → list_accounts_by_owner b (some user) w1 ≡ (ok accounts, w2)
          → AreOwned accounts
      found w1 w2 accounts h ran =
          let (rows, is, all) = list_accounts_by_owner-eq-ok b w1 user ran in
          (
            rows,
            is,
            subst (λ db. All (λ row. IsIn db.accounts row × (row.owner_id ≡ some user)) rows) h all,
          )

  pub reconcile_handler-shows :
      (reply : Reply) → (reconcile_handler s r w).0 ≡ replied reply → Own' reply
  unfolding reconcile_handler
  reconcile_handler-shows reply sent =
      shown_after _ reply
        (>>=-Ensures w.db Own' (λ id. b.uuid_parse r.id ≡ some id) (λ _. Unit) _ _
          (need-Ensures w.db Own' _ _ tt _)
          (λ id _.
            >>=-Ensures w.db Own' (IsOpen' id) (λ _. Unit) _ _
              (authorize-Ensures s user w.db id "account not found")
              (λ acc _.
                >>=-Ensures w.db Own' (λ _. Unit) (λ _. Unit) _ _
                  (call-Ensures w.db Own' (λ _. Unit) _ _ (λ e. tt) (reconcile_account-Keeps _ b id)
                    (λ _ _ _ _ _. tt))
                  (λ matched _ w' h. (tt, h)))))
        sent
