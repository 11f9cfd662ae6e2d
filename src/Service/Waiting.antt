-- ===== src/Service/Waiting.antt =====
-- How long the three operations wait: the bodies of their transactions, and the attempts.
use double_entry_bank_go.Base.{
  ℕ, ◌+◌, ◌≤◌, ◌≡◌, ◌⊎◌, ◌==◌, refl, Bool, true, false, none, some, Option, String, inl, inr, arith,
  Bool-cases, Option-cases,
}
use double_entry_bank_go.Errors.{GoError, Result, ok, err}
use double_entry_bank_go.World.{
  Uuid, Db, World, Backend, Action, ◌>>=◌, ◌>>◌, on_error, stop_if, or_fail, statement, draw_uuid,
}
use double_entry_bank_go.Sqlc.Models.{CreateEntryParams, UpdateAccountBalanceParams}
use double_entry_bank_go.Sqlc.Accounts.{
  get_account_for_update, get_settlement_account_for_update, update_account_balance,
}
use double_entry_bank_go.Sqlc.Entries.{create_entry}
use double_entry_bank_go.Store.Waiting.{exec_tx-slept}
use double_entry_bank_go.Service.{
  validate_positive_amount, deposit_tx, deposit, withdraw_tx, withdraw, transfer_tx, transfer,
}
use double_entry_bank_go.Service.Posting.{post}

-- An action that does not wait.
abbrev pub IsAwake : {A : Type 0} → Action A → Type 0
IsAwake m = (w : World) → (m w).1.slept ≡ w.slept

>>=-IsAwake :
    {A B : Type 0} (m : Action A) (f : A → Action B)
    → IsAwake m
    → ((a : A) → IsAwake (f a))
    → IsAwake (m >>= f)
unfolding ◌>>=◌
>>=-IsAwake {A = A} m f first then' w = go (m w) refl
  where
    go : (p : Result A × World) → m w ≡ p → ((m >>= f) w).1.slept ≡ w.slept
    go (ok a, w1) ran = ground (arith, first w, then' a w1)
    go (err e, w1) ran = ground (arith, first w)

on_error-IsAwake :
    {A : Type 0} (f : GoError → GoError) (m : Action A) → IsAwake m → IsAwake (on_error f m)
unfolding on_error
on_error-IsAwake {A = A} f m h w = go (m w) refl
  where
    go : (p : Result A × World) → m w ≡ p → (on_error f m w).1.slept ≡ w.slept
    go (ok a, w1) ran = ground (arith, h w)
    go (err e, w1) ran = ground (arith, h w)

stop_if-IsAwake : (c : Bool) (e : GoError) → IsAwake (stop_if c e)
unfolding stop_if
stop_if-IsAwake true e w = refl
stop_if-IsAwake false e w = refl

or_fail-IsAwake : {A : Type 0} (o : Option A) (e : GoError) → IsAwake (or_fail o e)
unfolding or_fail
or_fail-IsAwake none e w = refl
or_fail-IsAwake (some a) e w = refl

Result-cases : {A : Type 0} (r : Result A) → ((e : GoError) × (r ≡ err e)) ⊎ ((a : A) × (r ≡ ok a))
Result-cases (err e) = inl (e, refl)
Result-cases (ok a) = inr (a, refl)

module _ (b : Backend) where
  statement-IsAwake : {A : Type 0} (body : ℕ → Db → Result (A × Db)) → IsAwake (statement b body)
  statement-IsAwake {A = A} body w = elim (Option-cases (b.fault w.calls)) [
    | inr (e, hit) ↦ ground arith
    | inl calm ↦ go calm (body w.calls w.db) refl
  ]
    where
      go :
          b.fault w.calls ≡ none
          → (r : Result (A × Db)) → body w.calls w.db ≡ r
          → (statement b body w).1.slept ≡ w.slept
      go calm (ok p) ran = ground arith
      go calm (err e) ran = ground arith

  get_account_for_update-IsAwake : (id : Uuid) → IsAwake (get_account_for_update b id)
  unfolding get_account_for_update
  get_account_for_update-IsAwake id = statement-IsAwake _

  get_settlement_account_for_update-IsAwake : IsAwake (get_settlement_account_for_update b)
  unfolding get_settlement_account_for_update
  get_settlement_account_for_update-IsAwake = statement-IsAwake _

  create_entry-IsAwake : (arg : CreateEntryParams) → IsAwake (create_entry b arg)
  unfolding create_entry
  create_entry-IsAwake arg = statement-IsAwake _

  update_account_balance-IsAwake :
      (arg : UpdateAccountBalanceParams) → IsAwake (update_account_balance b arg)
  unfolding update_account_balance
  update_account_balance-IsAwake arg = statement-IsAwake _

  post-IsAwake :
      (p1 p2 : CreateEntryParams) (u1 u2 : UpdateAccountBalanceParams)
      → IsAwake (post b p1 p2 u1 u2)
  unfolding post ◌>>◌
  post-IsAwake p1 p2 u1 u2 = >>=-IsAwake _ _ (create_entry-IsAwake p1) λ e1.
      >>=-IsAwake _ _ (create_entry-IsAwake p2) λ e2.
        >>=-IsAwake _ _ (update_account_balance-IsAwake u1) λ _. update_account_balance-IsAwake u2

  open b use {decimals as d}

  deposit_tx-IsAwake : (id : Uuid) (amount : d.Decimal) → IsAwake (deposit_tx b id amount)
  unfolding deposit_tx ◌>>◌ post
  deposit_tx-IsAwake id amount =
      >>=-IsAwake _ _ (on_error-IsAwake _ _ get_settlement_account_for_update-IsAwake) λ s.
        >>=-IsAwake _ _ (on_error-IsAwake _ _ (get_account_for_update-IsAwake id)) λ a.
          >>=-IsAwake _ _ (stop_if-IsAwake _ _)
            λ _. >>=-IsAwake (draw_uuid b) _ (λ w. refl) λ t. post-IsAwake _ _ _ _

  withdraw_tx-IsAwake : (id : Uuid) (amount : d.Decimal) → IsAwake (withdraw_tx b id amount)
  unfolding withdraw_tx ◌>>◌ post
  withdraw_tx-IsAwake id amount =
      >>=-IsAwake _ _ (on_error-IsAwake _ _ get_settlement_account_for_update-IsAwake) λ s.
        >>=-IsAwake _ _ (on_error-IsAwake _ _ (get_account_for_update-IsAwake id)) λ a.
          >>=-IsAwake _ _ (stop_if-IsAwake _ _) λ _.
            >>=-IsAwake _ _ (or_fail-IsAwake _ _) λ balance.
              >>=-IsAwake _ _ (stop_if-IsAwake _ _)
                λ _. >>=-IsAwake (draw_uuid b) _ (λ w. refl) λ t. post-IsAwake _ _ _ _

  transfer_tx-IsAwake :
      (from_id to_id : Uuid) (amount : d.Decimal) → IsAwake (transfer_tx b from_id to_id amount)
  unfolding transfer_tx ◌>>◌ post
  transfer_tx-IsAwake from_id to_id amount =
      >>=-IsAwake _ _ (get_account_for_update-IsAwake from_id) λ from.
        >>=-IsAwake _ _ (get_account_for_update-IsAwake to_id) λ to.
          >>=-IsAwake _ _ (stop_if-IsAwake _ _) λ _.
            >>=-IsAwake _ _ (or_fail-IsAwake _ _) λ balance.
              >>=-IsAwake _ _ (stop_if-IsAwake _ _)
                λ _. >>=-IsAwake (draw_uuid b) _ (λ w. refl) λ t. post-IsAwake _ _ _ _

  -- An operation of the ledger waits at most 5.55 seconds in all, whatever the database answers.
  pub movements_wait :
      (id to_id : Uuid) (text : String) (w : World)
      → ((deposit b id text w).1.slept ≤ w.slept + 5550)
        × ((withdraw b id text w).1.slept ≤ w.slept + 5550)
        × ((transfer b id to_id text w).1.slept ≤ w.slept + 5550)
  unfolding deposit withdraw transfer
  movements_wait id to_id text w = elim (Result-cases (validate_positive_amount d text)) [
    | inl (e, bad) ↦ rw (bad, deposit, withdraw, transfer) (omega arith, omega arith, omega arith)
    | inr (amount, good) ↦ elim (Bool-cases (id == to_id)) [
      | inl same ↦
          rw (good, same, deposit, withdraw, transfer)
            (
              exec_tx-slept b _ (deposit_tx-IsAwake id amount) w,
              exec_tx-slept b _ (withdraw_tx-IsAwake id amount) w,
              omega arith,
            )
      | inr differ ↦
          rw (good, differ, deposit, withdraw, transfer)
            (
              exec_tx-slept b _ (deposit_tx-IsAwake id amount) w,
              exec_tx-slept b _ (withdraw_tx-IsAwake id amount) w,
              exec_tx-slept b _ (transfer_tx-IsAwake id to_id amount) w,
            )
    ]
  ]
