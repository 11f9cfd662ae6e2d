-- ===== src/Sqlc/Lookup.antt =====
-- Looking an account up: what the row that is found satisfies, and that its id is its own.
use double_entry_bank_go.Base.{
  ◌≡◌, ◌≢◌, refl, sym, ◌∙◌, ap, subst, Bool, true, false, some, none, List, [], ◌∷◌, inl, inr, any,
  find, ◌==◌, ==_iff, arith, All, Bool-cases, Option,
}
use mathlib.Core.Option.{some-injective}
use double_entry_bank_go.Int.{ℤ, ◌+ℤ◌}
use double_entry_bank_go.Errors.{ok}
use double_entry_bank_go.World.{Uuid, AccountRow}
use double_entry_bank_go.Sqlc.Tables.{find_account, add_to_balance}
use double_entry_bank_go.Sqlc.Balances.{DistinctIds, Moved, add_to_balance-cons}

module _ (p : AccountRow → Bool) where
  pub find_passes : (rows : List AccountRow) {r : AccountRow} → find p rows ≡ some r → p r ≡ true
  find_passes [] h = absurd (cc)
  find_passes (a ∷ rows) h = elim (Bool-cases (p a)) [
    | inl hit ↦ subst (λ x. p x ≡ true) (some-injective _ _ (rw hit at h)) hit
    | inr miss ↦ find_passes rows (rw miss at h)
  ]

  pub find-any :
      (rows : List AccountRow) {r : AccountRow}
      → find p rows ≡ some r
      → any (λ a. a.id == r.id) rows ≡ true
  find-any [] h = absurd (cc)
  find-any (a ∷ rows) {r} h = elim (Bool-cases (p a)) [
    | inl hit ↦
        let same : a ≡ r = some-injective _ _ (rw hit at h) in
        rw ((==_iff a.id r.id).1 (ap (λ x. x.id) same))
    | inr miss ↦ ground (arith, find-any rows (rw miss at h))
  ]

differ : {b : Bool} → b ≡ true → b ≡ false → ⊥
differ p q = cc

absent :
    (k : Uuid) (rows : List AccountRow)
    → any (λ a. a.id == k) rows ≡ false
    → All (λ a. a.id ≢ k) rows
absent k [] h = tt
absent k (a ∷ rows) h = (ground arith, absent k rows (ground arith))

All-absurd :
    (k : Uuid) (r : AccountRow) (rows : List AccountRow)
    → k ≡ r.id
    → All (λ a. a.id ≢ k) rows
    → All (λ a. a.id ≡ r.id → a ≡ r) rows
All-absurd k r [] same h = tt
All-absurd k r (a ∷ rows) same (n, ns) =
    ((λ e. absurd (n (e ∙ sym same))), All-absurd k r rows same ns)

-- No other row has the id of the row that is found.
pub find_unique :
    (p : AccountRow → Bool) (rows : List AccountRow) {r : AccountRow}
    → DistinctIds rows
    → find p rows ≡ some r
    → All (λ a. a.id ≡ r.id → a ≡ r) rows
find_unique p [] d h = tt
find_unique p (a ∷ rows) {r} (new, d) h = elim (Bool-cases (p a)) [
  | inl hit ↦
      let same : a ≡ r = some-injective _ _ (rw hit at h) in
      ((λ _. same), All-absurd a.id r rows (ap (λ x. x.id) same) (absent a.id rows new))
  | inr miss ↦
      let there = find-any p rows (rw miss at h) in
      (
        (λ e. absurd (differ (subst (λ k. any (λ x. x.id == k) rows ≡ true) (sym e) there) new)),
        find_unique p rows d (rw miss at h),
      )
]

pub find_account-id :
    (id : Uuid) (rows : List AccountRow) {r : AccountRow}
    → find_account id rows ≡ some r
    → r.id ≡ id
find_account-id id rows {r} h = (==_iff r.id id).0 (find_passes (λ a. a.id == id) rows h)

-- The stored balance of an account.
abbrev pub balance_of : Option AccountRow → Option ℤ
balance_of none = none
balance_of (some a) = some a.balance

abbrev pub stored_balance : Uuid → List AccountRow → Option ℤ
stored_balance k rows = balance_of (find_account k rows)

module _ (k id : Uuid) (n : ℤ) where
  -- An update leaves every other row as it was.
  find_step_other :
      (a : AccountRow) (rows rest : List AccountRow) (m : ℤ)
      → k ≢ id
      → Moved id n a m
      → find_account k rest ≡ find_account k rows
      → find_account k (record a { balance = m } ∷ rest) ≡ find_account k (a ∷ rows)
  find_step_other a rows rest m other (inl (mine, _, _)) ih = ground arith
  find_step_other a rows rest m other (inr (_, same)) ih = rw (same, ih)

  pub find_account-add_to_balance_ne :
      (rows : List AccountRow) {rows' : List AccountRow}
      → add_to_balance id n rows ≡ ok rows'
      → k ≢ id
      → find_account k rows' ≡ find_account k rows
  unfolding add_to_balance
  find_account-add_to_balance_ne [] h other =
      subst (λ r. find_account k r ≡ none) {x = []} (ground arith) refl
  find_account-add_to_balance_ne (a ∷ rows) h other =
      let (rest, m, later, shape, moved) = add_to_balance-cons id n a rows h in
      rw shape (
        find_step_other a rows rest m other moved (find_account-add_to_balance_ne rows later other))

module _ (id : Uuid) (n : ℤ) where
  find_step_self :
      (a : AccountRow) (rows rest : List AccountRow) (m : ℤ) {v : ℤ}
      → Moved id n a m
      → stored_balance id (a ∷ rows) ≡ some v
      → (stored_balance id rows ≡ some v → stored_balance id rest ≡ some (v +ℤ n))
      → stored_balance id (record a { balance = m } ∷ rest) ≡ some (v +ℤ n)
  find_step_self a rows rest m (inl (mine, moved, _)) e ih = ground arith
  find_step_self a rows rest m (inr (other, _)) e ih = ground (arith, ih)

  -- An update of a row that exists moves its balance by the amount.
  pub stored_balance-add_to_balance :
      (rows : List AccountRow) {rows' : List AccountRow} {v : ℤ}
      → add_to_balance id n rows ≡ ok rows'
      → stored_balance id rows ≡ some v
      → stored_balance id rows' ≡ some (v +ℤ n)
  stored_balance-add_to_balance [] h e = absurd (cc)
  stored_balance-add_to_balance (a ∷ rows) h e =
      let (rest, m, later, shape, moved) = add_to_balance-cons id n a rows h in
      rw shape
        (find_step_self a rows rest m moved e (λ e'. stored_balance-add_to_balance rows later e'))
