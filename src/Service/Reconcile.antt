-- ===== src/Service/Reconcile.antt =====
-- `ReconcileAccount` compares the stored balance with the entries, exactly.
use double_entry_bank_go.Base.{
  ◌≡◌, ◌≢◌, ◌∙◌, ap, subst, true, Bool, not, none, some, ◌==◌, inl, inr, All, List, [], ◌∷◌, find,
  ◌+◌, Bool-cases,
}
use mathlib.Core.Option.{some-injective}
use double_entry_bank_go.Money.{DecimalLaws}
use double_entry_bank_go.Errors.{GoError, ok, err}
use double_entry_bank_go.World.{Uuid, AccountRow, World, Backend, tick, ◌>>◌}
use double_entry_bank_go.Sqlc.Tables.{fits, find_account, calculated_balance}
use double_entry_bank_go.Sqlc.Lookup.{find_account-id}
use double_entry_bank_go.Sqlc.Calm.{
  >>=-ok, >>=-err, on_error-ok, stop_if-false, stop_if-true, or_fail-some, get_account_calm,
  get_account_balance_calm,
}
use double_entry_bank_go.Service.{reconcile_account}
use double_entry_bank_go.Service.Invariant.{IsLedger, InRange, IsReconciled}

find-All :
    (P : AccountRow → Type 0) (p : AccountRow → Bool) (rows : List AccountRow) {r : AccountRow}
    → All P rows
    → find p rows ≡ some r
    → P r
find-All P p [] h e = absurd (cc)
find-All P p (a ∷ rows) (h, hs) e = elim (Bool-cases (p a)) [
  | inl hit ↦ subst P (some-injective _ _ (rw hit at e)) h
  | inr miss ↦ find-All P p rows hs (rw miss at e)
]

not_of : {c : Bool} → (c ≡ true → ⊥) → not c ≡ true
not_of {c} h = elim (Bool-cases c) [ inl yes' ↦ absurd (h yes') | inr no' ↦ rw no' ]

module _ (b : Backend) (laws : DecimalLaws b.decimals) (id : Uuid) (w : World) (row : AccountRow)
    (calm1 : b.fault w.calls ≡ none) (calm2 : b.fault (w.calls + 1) ≡ none)
    (found : find_account id w.db.accounts ≡ some row)
    (room : fits (calculated_balance id w.db.entries) ≡ true) where
  open b use {decimals as d}

  -- Where no call meets a fault and the sum of the entries fits its column, the two balances are
  -- compared: equal balances are reported as matched, different ones as an error, and the tables
  -- are left alone.
  pub reconcile_compares :
      ((row.balance ≡ calculated_balance id w.db.entries)
        → reconcile_account b id w ≡ (ok true, tick (tick w)))
      × ((row.balance ≢ calculated_balance id w.db.entries)
          → (e : GoError) × (reconcile_account b id w ≡ (err e, tick (tick w))))
  unfolding reconcile_account ◌>>◌
  reconcile_compares =
      let total = calculated_balance id w.db.entries in
      let (calculated, read1, _) = laws.new_from_string-numeric_out total in
      let (stored, read2, _) = laws.new_from_string-numeric_out row.balance in
      let same = laws.equal_iff row.balance total stored calculated read2 read1 in
      let to_test =
        >>=-ok _ _ w (tick w) _
          (on_error-ok _ _ w (tick w) _ (get_account_calm b w calm1 id row found))
        ∙ >>=-ok _ _ (tick w) (tick (tick w)) _ (
            on_error-ok _ _ (tick w) (tick (tick w)) _
              (get_account_balance_calm b (tick w) calm2 id room))
        ∙ >>=-ok _ _ (tick (tick w)) (tick (tick w)) calculated
            (or_fail-some _ _ _ calculated read1)
        ∙ >>=-ok _ _ (tick (tick w)) (tick (tick w)) stored (or_fail-some _ _ _ stored read2) in
      (
        λ eq. to_test ∙ >>=-ok _ _ _ (tick (tick w)) tt (stop_if-false _ _ _ (ap not (same.1 eq))),
        λ ne. (
          _,
          to_test
              ∙ >>=-err _ _ _ (tick (tick w)) _ (stop_if-true _ _ _ (not_of (λ h. ne (same.0 h)))),
        ),
      )

-- In a ledger whose invariant holds, every account reconciles, where no call meets a fault.
pub reconcile_account_matches :
    (b : Backend) (laws : DecimalLaws b.decimals) (id : Uuid) (w : World) (row : AccountRow)
    → IsLedger w.db
    → b.fault w.calls ≡ none
    → b.fault (w.calls + 1) ≡ none
    → find_account id w.db.accounts ≡ some row
    → reconcile_account b id w ≡ (ok true, tick (tick w))
reconcile_account_matches b laws id w row l calm1 calm2 found =
    let own = find_account-id id w.db.accounts found in
    let balance =
      subst (λ k. row.balance ≡ calculated_balance k w.db.entries) own
        (find-All (IsReconciled w.db.entries) (λ a. a.id == id) w.db.accounts l.reconciled found) in
    let room = find-All InRange (λ a. a.id == id) w.db.accounts l.in_range found in
    (reconcile_compares b laws id w row calm1 calm2 found
        (subst (λ n. fits n ≡ true) balance room)).0
      balance
