-- ===== src/Api/Disclosed.antt =====
-- What the handlers that read show to a caller.
use double_entry_bank_go.Base.{
  ◌≡◌, refl, ap, subst, ◌⊎◌, inl, inr, Bool, true, false, not, ◌==◌, ==_iff, Option, none, some,
  String, List, [], ◌∷◌, map, Any, All, Bool-cases, arith,
}
use double_entry_bank_go.Errors.{ok}
use double_entry_bank_go.World.{Uuid, AccountRow, EntryRow, Db, World}
use double_entry_bank_go.Sqlc.Models.{Account, Entry, scan_account, scan_entry}
use double_entry_bank_go.Sqlc.Tables.{find_account}
use double_entry_bank_go.Sqlc.Accounts.{get_account}
use double_entry_bank_go.Sqlc.Listing.{IsIn, get_account-eq-ok}
use double_entry_bank_go.Service.Reads.{get_account-Keeps}
use double_entry_bank_go.Api.Reply.{
  AccountResponse, EntryResponse, Payload, Reply, account_response, account_list, entry_list,
  to_account_response, to_entry_response,
}
use double_entry_bank_go.Api.Handling.{
  Server, Handling, Outcome, goes_on, replied, authorize, denied, go_on,
}
use double_entry_bank_go.Api.Listing.{owns, authorized_by}
use double_entry_bank_go.Api.Ensured.{
  Post, Ensures, >>=-Ensures, >>-Ensures, refuse_if-Ensures, call-Ensures,
}

module _ {A B : Type 0} (f : A → B) (P : B → Type 0) where
  pub All-under_map : (xs : List A) → All (λ a. P (f a)) xs → All P (map f xs)
  All-under_map [] _ = tt
  All-under_map (x ∷ xs) (here, there) = (here, All-under_map xs there)

  pub Any-under_map : (xs : List A) → Any P (map f xs) → Any (λ a. P (f a)) xs
  Any-under_map [] h = h
  Any-under_map (x ∷ xs) (inl here) = inl here
  Any-under_map (x ∷ xs) (inr there) = inr (Any-under_map xs there)

pub find_account-IsIn :
    (id : Uuid) (rows : List AccountRow) (row : AccountRow)
    → find_account id rows ≡ some row
    → IsIn rows row
find_account-IsIn id [] row h = absurd (cc)
find_account-IsIn id (r ∷ rows) row h = elim (Bool-cases (r.id == id)) [
  | inl here ↦ inl (ground arith)
  | inr other ↦ inr (find_account-IsIn id rows row (ground arith))
]

module _ (s : Server) (user : Uuid) (before : Db) where
  open s use {backend as b, zero_time, jwt}

  -- The account exists, and its owner is the user.
  abbrev pub OwnsAccount : Uuid → Type 0
  OwnsAccount id =
      (row : AccountRow) × (find_account id before.accounts ≡ some row) × (row.owner_id ≡ some user)

  -- The account exists, and belongs to the user or to nobody.
  abbrev pub MaySeeAccount : AccountRow → Type 0
  MaySeeAccount row = (row.owner_id ≡ none) ⊎ (row.owner_id ≡ some user)

  abbrev pub shown_account : AccountRow → AccountResponse
  shown_account row = to_account_response b.uuid_string zero_time (scan_account b.decimals row)

  abbrev pub shown_entry : EntryRow → EntryResponse
  shown_entry row = to_entry_response b.uuid_string zero_time (scan_entry b.decimals row)

  -- An entry on such an account, or one of a transaction with an entry on an account of the user.
  abbrev pub MaySeeEntry : EntryRow → Type 0
  MaySeeEntry e =
      ((row : AccountRow) × (find_account e.account_id before.accounts ≡ some row)
        × MaySeeAccount row)
      ⊎ ((other : EntryRow) × IsIn before.entries other
          × (other.transaction_id ≡ e.transaction_id)
          × OwnsAccount other.account_id)

  abbrev pub MayShowAccount : AccountResponse → Type 0
  MayShowAccount a =
      (row : AccountRow) × IsIn before.accounts row × MaySeeAccount row × (a ≡ shown_account row)

  abbrev pub MayShowEntry : EntryResponse → Type 0
  MayShowEntry e =
      (row : EntryRow) × IsIn before.entries row × MaySeeEntry row × (e ≡ shown_entry row)

  -- A body shows no account and no entry but such ones, as the tables have them.
  abbrev pub ShowsOwn : Payload → Type 0
  ShowsOwn (account_response a) = MayShowAccount a
  ShowsOwn (account_list accounts) = All MayShowAccount accounts
  ShowsOwn (entry_list entries) = All MayShowEntry entries
  ShowsOwn _ = Unit

  abbrev pub Own : Reply → Type 0
  Own reply = ShowsOwn reply.body

  -- What `authorize` lets through.
  abbrev pub IsOpen : Uuid → Account → Type 0
  IsOpen id acc =
      (row : AccountRow) × (find_account id before.accounts ≡ some row)
      × MaySeeAccount row
      × (acc ≡ scan_account b.decimals row)

  not_denied :
      (acc : Account)
      → denied s acc user ≡ false
      → (acc.owner_id ≡ none) ⊎ (acc.owner_id ≡ some user)
  unfolding denied
  not_denied acc allowed = go acc.owner_id allowed
    where
      go :
          (o : Option Uuid)
          → elim o as (λ _. Bool) [ none ↦ false | some owner ↦ not (owner == user) ] ≡ false
          → (o ≡ none) ⊎ (o ≡ some user)
      go none h = inl refl
      go (some owner) h = inr (ap some (ground (arith, ==_iff owner user)))

  pub authorize-Ensures :
      (id : Uuid) (missing : String) → Ensures before Own (IsOpen id) (authorize s user id missing)
  unfolding authorize
  authorize-Ensures id missing =
      >>=-Ensures before Own IsFound (IsOpen id) _ _
        (call-Ensures before Own IsFound _ _ (λ e. tt) (get_account-Keeps _ b id) found)
        (λ acc seen.
          >>-Ensures before Own (denied s acc user ≡ false) (IsOpen id) _ _
            (refuse_if-Ensures before Own _ _ tt _) (passed acc seen))
    where
      IsFound : Account → Type 0
      IsFound acc =
          (row : AccountRow) × (find_account id before.accounts ≡ some row)
          × (acc ≡ scan_account b.decimals row)

      passed :
          (acc : Account)
          → IsFound acc
          → denied s acc user ≡ false
          → Ensures before Own (IsOpen id) (go_on acc)
      passed acc (row, at, is) allowed w h = (
        (
          row,
          at,
          subst (λ a. (a.owner_id ≡ none) ⊎ (a.owner_id ≡ some user)) is (not_denied acc allowed),
          is,
        ),
        h,
      )

      found :
          (w w1 : World) (acc : Account)
          → w.db ≡ before
          → get_account b id w ≡ (ok acc, w1)
          → IsFound acc
      found w w1 acc h ran =
          let (row, at, is, _) = get_account-eq-ok b w id ran in
          (row, subst (λ db. find_account id db.accounts ≡ some row) h at, is)

  owns-OwnsAccount :
      (id : Uuid) (acc : Account) (row : AccountRow)
      → find_account id before.accounts ≡ some row
      → acc ≡ scan_account b.decimals row
      → owns user acc ≡ true
      → OwnsAccount id
  unfolding owns
  owns-OwnsAccount id acc row at is mine =
      (row, at, go row.owner_id (subst (λ a. owns user a ≡ true) is mine))
    where
      go :
          (o : Option Uuid)
          → elim o as (λ _. Bool) [ none ↦ false | some owner ↦ owner == user ] ≡ true
          → o ≡ some user
      go none h = absurd (cc)
      go (some owner) h = ap some ((==_iff owner user).0 h)

  -- The loop ends with true only at an account of the user.
  abbrev pub IsAuthorized : List Entry → Bool → Type 0
  IsAuthorized entries authorized = authorized ≡ true → Any (λ e. OwnsAccount e.account_id) entries

  pub authorized_by-Ensures :
      (entries : List Entry)
      → Ensures before Own (IsAuthorized entries) (authorized_by s user entries)
  unfolding authorized_by
  authorized_by-Ensures [] = λ w h. (λ bad. absurd (cc), h)
  authorized_by-Ensures (entry ∷ entries) =
      >>=-Ensures before Own IsFound (IsAuthorized (entry ∷ entries)) _ _
        (call-Ensures before Own IsFound _ _ (λ e. tt) (get_account-Keeps _ b entry.account_id)
          found)
        (λ acc seen. go acc seen (authorized_by-Ensures entries) (owns user acc) refl)
    where
      IsFound : Account → Type 0
      IsFound acc =
          (row : AccountRow) × (find_account entry.account_id before.accounts ≡ some row)
          × (acc ≡ scan_account b.decimals row)

      found :
          (w w1 : World) (acc : Account)
          → w.db ≡ before
          → get_account b entry.account_id w ≡ (ok acc, w1)
          → IsFound acc
      found w w1 acc h ran =
          let (row, at, is, _) = get_account-eq-ok b w entry.account_id ran in
          (row, subst (λ db. find_account entry.account_id db.accounts ≡ some row) h at, is)

      go :
          (acc : Account)
          → IsFound acc
          → Ensures before Own (IsAuthorized entries) (authorized_by s user entries)
          → (mine : Bool) → owns user acc ≡ mine
          → Ensures before Own (IsAuthorized (entry ∷ entries)) (elim mine as (λ _. Handling Bool) [
            | true ↦ go_on true
            | false ↦ authorized_by s user entries
          ])
      go acc (row, at, is) rest true mine =
          λ w h. (λ _. inl (owns-OwnsAccount entry.account_id acc row at is mine), h)
      go acc seen rest false mine = λ w h. elim_rest (authorized_by s user entries w).0 (rest w h)
        where
          elim_rest :
              (o : Outcome Bool) {T : Type 0}
              → Post before Own (IsAuthorized entries) o × T
              → Post before Own (IsAuthorized (entry ∷ entries)) o × T
          elim_rest (goes_on a) (q, k) = (λ h. inr (q h), k)
          elim_rest (replied e) (q, k) = (q, k)
