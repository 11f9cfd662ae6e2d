-- ===== src/Service/Ready.antt =====
-- The facts on rows, amounts and ids that let a movement run.
use double_entry_bank_go.Base.{
  ◌≤◌, ◌≡◌, refl, sym, ap, subst, Bool, true, false, not, some, String, str_eq, eq_iff, find, any,
  List, [], ◌∷◌, ◌==◌, ==_iff, arith, Bool-cases, inl, inr,
}
use mathlib.Core.Option.{some-injective}
use double_entry_bank_go.Int.{ℤ, pos, ◌+ℤ◌, ◌-ℤ◌, ◌≤ℤ◌, int_laws}
use double_entry_bank_go.World.{Uuid, AccountRow, World, Backend}
use double_entry_bank_go.Sqlc.Tables.{fits, find_account, entry_check}
use double_entry_bank_go.Sqlc.Balances.{DistinctIds}
use double_entry_bank_go.Sqlc.Lookup.{find-any, find_account-id}
use double_entry_bank_go.Service.Running.{IsFresh}

-- The row that a search finds is the row of its id.
pub find-find_account :
    (p : AccountRow → Bool) (rows : List AccountRow) {r : AccountRow}
    → DistinctIds rows
    → find p rows ≡ some r
    → find_account r.id rows ≡ some r
find-find_account p [] d h = absurd (cc)
find-find_account p (a ∷ rows) {r} (new, d) h = elim (Bool-cases (p a)) [
  | inl hit ↦
      let same : a ≡ r = some-injective _ _ (rw hit at h) in
      let own = (==_iff a.id r.id).1 (ap (λ x. x.id) same) in rw own (ap some same)
  | inr miss ↦
      let there = find-any p rows (rw miss at h) in
      elim (Bool-cases (a.id == r.id)) [
        | inl same ↦
            let e = (==_iff a.id r.id).0 same in
            absurd (clash (subst (λ k. any (λ x. x.id == k) rows ≡ true) (sym e) there) new)
        | inr other ↦ rw other (find-find_account p rows d (rw miss at h))
      ]
]
  where
    clash : {b : Bool} → b ≡ true → b ≡ false → ⊥
    clash p q = cc

pub found-listed :
    (id : Uuid) (rows : List AccountRow) {r : AccountRow}
    → find_account id rows ≡ some r
    → any (λ a. a.id == id) rows ≡ true
found-listed id rows {r} h =
    subst (λ k. any (λ a. a.id == k) rows ≡ true) (find_account-id id rows h)
      (find-any (λ a. a.id == id) rows h)

pub same_currency : (s t : String) → s ≡ t → not (str_eq s t) ≡ false
same_currency s t e = let k = (eq_iff s t).1 e in ground arith

-- An entry with an amount on one side.
pub one_sided :
    (n : ℤ) → pos 1 ≤ℤ n → (entry_check (pos 0) n ≡ true) × (entry_check n (pos 0) ≡ true)
unfolding entry_check
one_sided n h = (ground arith, ground arith)

pub fits_nothing : fits (pos 0) ≡ true
unfolding fits
fits_nothing = refl

pub gain : (u n : ℤ) → fits (u +ℤ n) ≡ true → fits (u +ℤ (n -ℤ pos 0)) ≡ true
gain u n h = subst (λ k. fits k ≡ true) {x = u +ℤ n} (omega int_laws) h

pub loss : (u n : ℤ) → fits (u -ℤ n) ≡ true → fits (u +ℤ (pos 0 -ℤ n)) ≡ true
loss u n h = subst (λ k. fits k ≡ true) {x = u -ℤ n} (omega int_laws) h

pub IsFresh-later :
    (b : Backend) (w w' : World) → IsFresh b w → w'.db ≡ w.db → w.calls ≤ w'.calls → IsFresh b w'
IsFresh-later b w w' f same later = record {
  unused = λ n h. rw same (f.unused n (omega arith));
  distinct = f.distinct;
}
