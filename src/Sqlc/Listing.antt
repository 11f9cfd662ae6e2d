-- ===== src/Sqlc/Listing.antt =====
-- What the queries for several rows return: rows of the table that satisfy the condition.
use double_entry_bank_go.Base.{
  All-map, ◌≡◌, refl, ap, ◌==◌, ==_iff, Bool, true, false, ℕ, zero, suc, List, [], ◌∷◌, map, select,
  Any, All, none, some, Option, inl, inr, if◌then◌else◌, Bool-cases, arith,
}
use double_entry_bank_go.Errors.{ok}
use double_entry_bank_go.World.{Uuid, AccountRow, EntryRow, Db, World, Backend}
use double_entry_bank_go.Sqlc.Models.{Account, Entry, scan_account, scan_entry}
use double_entry_bank_go.Sqlc.Tables.{insert_by, sort_by, later, take, drop, find_account}
use double_entry_bank_go.Sqlc.Accounts.{
  owned_by, fetch_account, get_account, list_accounts_by_owner,
}
use double_entry_bank_go.Sqlc.Entries.{
  ListEntriesByAccountParams, list_entries_by_account, list_entries_by_transaction,
}
use double_entry_bank_go.Sqlc.Inversion.{statement-eq-ok, fetch_account-eq-ok}

-- A row of the table.
abbrev pub IsIn : {A : Type 0} → List A → A → Type 0
IsIn rows row = Any (λ r. r ≡ row) rows

module _ {A : Type 0} where
  every_row : (rows : List A) → All (IsIn rows) rows
  every_row [] = tt
  every_row (r ∷ rows) =
      (inl refl, All-map (IsIn rows) (IsIn (r ∷ rows)) (λ x h. inr h) rows (every_row rows))

  module _ (P : A → Type 0) where
    All-select :
        (test : A → Bool) (xs : List A)
        → All P xs
        → All (λ x. P x × (test x ≡ true)) (select test xs)
    All-select test [] _ = tt
    All-select test (x ∷ xs) (here, there) = elim (Bool-cases (test x)) [
      | inl passes ↦ rw passes ((here, passes), All-select test xs there)
      | inr fails ↦ rw fails (All-select test xs there)
    ]

    All-insert_by :
        (before : A → A → Bool) (a : A) (xs : List A)
        → P a
        → All P xs
        → All P (insert_by before a xs)
    All-insert_by before a [] h _ = (h, tt)
    All-insert_by before a (x ∷ xs) h (here, there) =
        go (All-insert_by before a xs h there) (before x a)
      where
        go :
            All P (insert_by before a xs)
            → (earlier : Bool) → All P (if earlier then x ∷ insert_by before a xs else a ∷ x ∷ xs)
        go rest true = (here, rest)
        go rest false = (h, (here, there))

    All-sort_by : (before : A → A → Bool) (xs : List A) → All P xs → All P (sort_by before xs)
    unfolding sort_by
    All-sort_by before [] _ = tt
    All-sort_by before (x ∷ xs) (here, there) =
        All-insert_by before x (sort_by before xs) here (All-sort_by before xs there)

    All-take : (n : ℕ) (xs : List A) → All P xs → All P (take n xs)
    All-take zero xs _ = tt
    All-take (suc n) [] _ = tt
    All-take (suc n) (x ∷ xs) (here, there) = (here, All-take n xs there)

    All-drop : (n : ℕ) (xs : List A) → All P xs → All P (drop n xs)
    All-drop zero xs h = h
    All-drop (suc n) [] _ = tt
    All-drop (suc n) (x ∷ xs) (here, there) = All-drop n xs there

owned_by-owner :
    (user : Uuid) (r : AccountRow) → owned_by (some user) r ≡ true → r.owner_id ≡ some user
owned_by-owner user r mine = go r.owner_id mine
  where
    go :
        (o : Option Uuid)
        → elim o as (λ _. Bool) [ none ↦ false | some v ↦ v == user ] ≡ true
        → o ≡ some user
    go none h = absurd (cc)
    go (some v) h = ap some ((==_iff v user).0 h)

module _ (b : Backend) (w : World) {w' : World} where
  pub get_account-eq-ok :
      (id : Uuid) {a : Account}
      → get_account b id w ≡ (ok a, w')
      → (row : AccountRow) × (find_account id w.db.accounts ≡ some row)
        × (a ≡ scan_account b.decimals row)
        × (w'.db ≡ w.db)
  unfolding get_account
  get_account-eq-ok id h =
      let (db, ran, after) =
        statement-eq-ok b (λ n t. fetch_account b.decimals (find_account id t.accounts) t) w h in
      rw after (fetch_account-eq-ok b.decimals w.db (find_account id w.db.accounts) ran)

  pub list_entries_by_transaction-eq-ok :
      (id : Uuid) {es : List Entry}
      → list_entries_by_transaction b id w ≡ (ok es, w')
      → (rows : List EntryRow) × (es ≡ map (scan_entry b.decimals) rows)
        × All (λ r. IsIn w.db.entries r × (r.transaction_id ≡ id)) rows
  unfolding list_entries_by_transaction
  list_entries_by_transaction-eq-ok id {es} h =
      let (db, ran, after) =
        statement-eq-ok b (λ n t. ok (map (scan_entry b.decimals) (found t), t)) w h in
      (
        found w.db,
        ground arith,
        All-map _ _ (λ r (is_in, same). (is_in, (==_iff r.transaction_id id).0 same)) _
            (All-sort_by _ _ _
              (All-select (IsIn w.db.entries) _ w.db.entries (every_row w.db.entries))),
      )
    where
      found : Db → List EntryRow
      found t =
          sort_by (λ r s. later s.created_at r.created_at)
            (select (λ e. e.transaction_id == id) t.entries)

  pub list_entries_by_account-eq-ok :
      (arg : ListEntriesByAccountParams) {es : List Entry}
      → list_entries_by_account b arg w ≡ (ok es, w')
      → (rows : List EntryRow) × (es ≡ map (scan_entry b.decimals) rows)
        × All (λ r. IsIn w.db.entries r × (r.account_id ≡ arg.account_id)) rows
  unfolding list_entries_by_account
  list_entries_by_account-eq-ok arg {es} h =
      let (db, ran, after) =
        statement-eq-ok b (λ n t. ok (map (scan_entry b.decimals) (page t), t)) w h in
      (
        page w.db,
        ground arith,
        All-map _ _ (λ r (is_in, same). (is_in, (==_iff r.account_id arg.account_id).0 same)) _
            (All-take _ arg.limit _ (
              All-drop _ arg.offset _ (
                All-sort_by _ _ _
                  (All-select (IsIn w.db.entries) _ w.db.entries (every_row w.db.entries))))),
      )
    where
      page : Db → List EntryRow
      page t = take arg.limit (
          drop arg.offset (
            sort_by (λ r s. later r.created_at s.created_at)
              (select (λ e. e.account_id == arg.account_id) t.entries)))

  pub list_accounts_by_owner-eq-ok :
      (user : Uuid) {accounts : List Account}
      → list_accounts_by_owner b (some user) w ≡ (ok accounts, w')
      → (rows : List AccountRow) × (accounts ≡ map (scan_account b.decimals) rows)
        × All (λ r. IsIn w.db.accounts r × (r.owner_id ≡ some user)) rows
  unfolding list_accounts_by_owner
  list_accounts_by_owner-eq-ok user {accounts} h =
      let (db, ran, after) =
        statement-eq-ok b (λ n t. ok (map (scan_account b.decimals) (found t), t)) w h in
      (
        found w.db,
        ground arith,
        All-map _ _ (λ r (is_in, mine). (is_in, owned_by-owner user r mine)) _
            (All-sort_by _ _ _
              (All-select (IsIn w.db.accounts) _ w.db.accounts (every_row w.db.accounts))),
      )
    where
      found : Db → List AccountRow
      found t =
          sort_by (λ r s. later r.created_at s.created_at)
            (select (owned_by (some user)) t.accounts)
