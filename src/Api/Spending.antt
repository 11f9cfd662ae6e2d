-- ===== src/Api/Spending.antt =====
-- Whose money the handlers move: a withdrawal or a transfer is only made from an account that
-- belongs to the caller or to nobody.
use double_entry_bank_go.Base.{
  arith, ◌≡◌, ◌≢◌, ◌⊎◌, inl, inr, refl, sym, ◌∙◌, ap, subst, none, some, String, ◌==◌, ==_iff,
  Bool-cases, Option-cases,
}
use double_entry_bank_go.Errors.{SqlError, GoError, Result, ok, err}
use double_entry_bank_go.World.{Uuid, AccountRow, Db, World, Action}
use double_entry_bank_go.Sqlc.Models.{Account}
use double_entry_bank_go.Sqlc.Tables.{find_account}
use double_entry_bank_go.Sqlc.Accounts.{get_account}
use double_entry_bank_go.Service.{withdraw, transfer}
use double_entry_bank_go.Service.Reads.{get_account-Keeps}
use double_entry_bank_go.Api.Reply.{Reply}
use double_entry_bank_go.Api.Handling.{
  Outcome, goes_on, replied, Handling, ◌>>=◌, ◌>>◌, respond, call, Server, Request, authenticate,
  authorize,
}
use double_entry_bank_go.Api.Movements.{withdraw_handler, transfer_handler}
use double_entry_bank_go.Api.Kept.{
  Keeps, >>=-Keeps, >>-Keeps, refuse_if-Keeps, need-Keeps, call-Keeps,
}
use double_entry_bank_go.Api.Denied.{>>=-goes_on, authorize_forbids}

-- The account exists, and belongs to the user or to nobody.
abbrev pub IsOpenTo : Uuid → Uuid → Db → Type 0
IsOpenTo user id db =
    (row : AccountRow) × (find_account id db.accounts ≡ some row)
    × ((row.owner_id ≡ none) ⊎ (row.owner_id ≡ some user))

-- What has become of the tables: nothing, or what one call of the service that `Allowed` admits made.
module _ (Allowed : Action (Unit {0}) → Type 0) (before : Db) where
  abbrev pub IsUnchangedOrAllowed : World → Type 0
  IsUnchangedOrAllowed after =
      (after.db ≡ before)
      ⊎ ((m : Action (Unit {0})) × (w : World) × Allowed m
          × (w.db ≡ before)
          × (after.db ≡ (m w).1.db))

  abbrev Careful : {A : Type 0} → Handling A → Type 0
  Careful m = (w : World) → w.db ≡ before → IsUnchangedOrAllowed (m w).1

  module _ {A B : Type 0} (m : Handling A) (f : A → Handling B) where
    >>=-Careful :
        Keeps (λ db. db ≡ before) m
        → ((a : A) (w w1 : World) → w.db ≡ before → m w ≡ (goes_on a, w1) → Careful (f a))
        → Careful (m >>= f)
    unfolding ◌>>=◌
    >>=-Careful keeps next w h = go (m w) refl (keeps w h)
      where
        go :
            (p : Outcome A × World)
            → m w ≡ p
            → p.1.db ≡ before
            → IsUnchangedOrAllowed
                (elim p.0 as (λ _. Outcome B × World) [
                  | goes_on a ↦ f a p.1
                  | replied e ↦ (replied e, p.1)
                ]).1
        go (goes_on a, w1) ran k = next a w w1 h ran w1 k
        go (replied e, w1) ran k = inl k

  >>-Careful :
      {B : Type 0} (m : Handling (Unit {0})) (k : Handling B)
      → Keeps (λ db. db ≡ before) m
      → Careful k
      → Careful (m >> k)
  unfolding ◌>>◌
  >>-Careful m k keeps next = >>=-Careful m (λ _. k) keeps (λ _ _ _ _ _. next)

  call_world :
      (m : Action (Unit {0})) (refusal : GoError → Reply) (reply : Reply) (w : World)
      → ((call m refusal >> respond {A = Unit {0}} reply) w).1 ≡ (m w).1
  unfolding ◌>>◌ ◌>>=◌ call
  call_world m refusal reply w = go (m w)
    where
      go :
          (p : Result (Unit {0}) × World)
          → (let q : Outcome (Unit {0}) × World = elim p.0 [
            | ok a ↦ (goes_on a, p.1)
            | err e ↦ (replied (refusal e), p.1)
          ] in
              elim q.0 as (λ _. Outcome (Unit {0}) × World) [
                | goes_on a ↦ (replied reply, q.1)
                | replied e ↦ (replied e, q.1)
              ]).1
            ≡ p.1
      go (ok a, w1) = refl
      go (err e, w1) = refl

  -- The call of the service itself.
  call-Careful :
      (m : Action (Unit {0})) (refusal : GoError → Reply) (reply : Reply)
      → Allowed m
      → Careful (call m refusal >> respond {A = Unit {0}} reply)
  call-Careful m refusal reply allowed w h =
      inr (m, w, allowed, h, ap (λ k. k.db) (call_world m refusal reply w))

module _ (s : Server) (user : Uuid) where
  open s use {backend as b}

  -- A lookup that finds no account is an error.
  nobody_home :
      (id : Uuid) (missing : String) (w w1 : World) (acc : Account)
      → find_account id w.db.accounts ≡ none
      → b.fault w.calls ≡ none
      → authorize s user id missing w ≢ (goes_on acc, w1)
  unfolding authorize ◌>>=◌ ◌>>◌ call get_account
  nobody_home id missing w w1 acc lost calm h = ground arith

  faulty :
      (id : Uuid) (missing : String) (w w1 : World) (acc : Account) (e : SqlError)
      → b.fault w.calls ≡ some e
      → authorize s user id missing w ≢ (goes_on acc, w1)
  unfolding authorize ◌>>=◌ call get_account
  faulty id missing w w1 acc e hit h = ground arith

  authorize-IsOpenTo :
      (id : Uuid) (missing : String) (w w1 : World) (acc : Account)
      → authorize s user id missing w ≡ (goes_on acc, w1)
      → IsOpenTo user id w.db
  authorize-IsOpenTo id missing w w1 acc h = elim (Option-cases (find_account id w.db.accounts)) [
    | inl lost ↦ elim (Option-cases (b.fault w.calls)) [
      | inl calm ↦ absurd (nobody_home id missing w w1 acc lost calm h)
      | inr (e, hit) ↦ absurd (faulty id missing w w1 acc e hit h)
    ]
    | inr (row, found) ↦ elim (Option-cases row.owner_id) [
      | inl nobody ↦ (row, found, inl nobody)
      | inr (owner, is) ↦ elim (Bool-cases (owner == user)) [
        | inl same ↦ (row, found, inr (is ∙ ap some ((==_iff owner user).0 same)))
        | inr other ↦ elim (Option-cases (b.fault w.calls)) [
          | inl calm ↦
              let refused =
                authorize_forbids s user id owner row w found is
                  (λ eq. cc (other, (==_iff owner user).1 eq)) missing calm in
              absurd (cc)
          | inr (e, hit) ↦ absurd (faulty id missing w w1 acc e hit h)
        ]
      ]
    ]
  ]

  authorize-same :
      (before : Db) (id : Uuid) (missing : String)
      → Keeps (λ db. db ≡ before) (authorize s user id missing)
  unfolding authorize
  authorize-same before id missing =
      >>=-Keeps _ _ _ (call-Keeps _ _ _ (get_account-Keeps _ b id))
        (λ acc. >>-Keeps _ _ _ (refuse_if-Keeps _ _ _ _) (λ w h. h))

  -- A withdrawal of any amount from an account that was open to the caller.
  abbrev pub OwnWithdrawal : Db → Action (Unit {0}) → Type 0
  OwnWithdrawal before m =
      (id : Uuid) × (amount : String) × IsOpenTo user id before × (m ≡ withdraw b id amount)

  -- A transfer of any amount from an account that was open to the caller.
  abbrev pub OwnTransfer : Db → Action (Unit {0}) → Type 0
  OwnTransfer before m =
      (from : Uuid) × (to : Uuid) × (amount : String) × IsOpenTo user from before
      × (m ≡ transfer b from to amount)

  module _ (r : Request s) (w : World) (known : authenticate s r w ≡ (goes_on user, w)) where
    -- What a withdrawal request of an authenticated caller makes of the tables is nothing, or what
    -- `Withdraw` makes of them for one account, which belongs to the caller or to nobody.
    pub withdraw_handler_spends :
        IsUnchangedOrAllowed (OwnWithdrawal w.db) w.db (withdraw_handler s r w).1
    unfolding withdraw_handler
    withdraw_handler_spends =
        subst
          (λ (p : Outcome (Unit {0}) × World). IsUnchangedOrAllowed (OwnWithdrawal w.db) w.db p.1)
          (sym (>>=-goes_on _ _ w w user known))
          ((>>=-Careful (OwnWithdrawal w.db) w.db _ _ (need-Keeps _ _ _ _) (λ id _ _ _ _.
              >>=-Careful (OwnWithdrawal w.db) w.db _ _ (authorize-same w.db id _)
                (λ acc w2 w3 h ran.
                  >>=-Careful (OwnWithdrawal w.db) w.db _ _ (need-Keeps _ _ _ _) (λ amount _ _ _ _.
                    call-Careful (OwnWithdrawal w.db) w.db _ _ _ (
                      id,
                      amount,
                      subst (IsOpenTo user id) h (authorize-IsOpenTo id _ w2 w3 acc ran),
                      refl,
                    )))))
            w refl)

    -- What a transfer request of an authenticated caller makes of the tables is nothing, or what
    -- `Transfer` makes of them from one account, which belongs to the caller or to nobody.
    pub transfer_handler_spends :
        IsUnchangedOrAllowed (OwnTransfer w.db) w.db (transfer_handler s r w).1
    unfolding transfer_handler
    transfer_handler_spends =
        subst (λ (p : Outcome (Unit {0}) × World). IsUnchangedOrAllowed (OwnTransfer w.db) w.db p.1)
          (sym (>>=-goes_on _ _ w w user known))
          ((>>=-Careful (OwnTransfer w.db) w.db _ _ (need-Keeps _ _ _ _) (λ ps _ _ _ _.
              >>=-Careful (OwnTransfer w.db) w.db _ _ (need-Keeps _ _ _ _) (λ from_id _ _ _ _.
                >>=-Careful (OwnTransfer w.db) w.db _ _ (need-Keeps _ _ _ _) (λ to_id _ _ _ _.
                  >>=-Careful (OwnTransfer w.db) w.db _ _ (need-Keeps _ _ _ _)
                    (λ from_account_id _ _ _ _.
                      >>=-Careful (OwnTransfer w.db) w.db _ _ (need-Keeps _ _ _ _)
                        (λ to_account_id _ _ _ _.
                          >>-Careful (OwnTransfer w.db) w.db _ _ (refuse_if-Keeps _ _ _ _) (
                            >>-Careful (OwnTransfer w.db) w.db _ _ (refuse_if-Keeps _ _ _ _) (
                              >>=-Careful (OwnTransfer w.db) w.db _ _ (need-Keeps _ _ _ _)
                                (λ from _ _ _ _.
                                  >>=-Careful (OwnTransfer w.db) w.db _ _ (need-Keeps _ _ _ _)
                                    (λ to _ _ _ _.
                                      >>-Careful (OwnTransfer w.db) w.db _ _
                                        (refuse_if-Keeps _ _ _ _)
                                        (>>=-Careful (OwnTransfer w.db) w.db _ _
                                          (need-Keeps _ _ _ _)
                                          (λ amount _ _ _ _.
                                            >>=-Careful (OwnTransfer w.db) w.db _ _
                                              (authorize-same w.db from _)
                                              (λ acc w2 w3 h ran.
                                                call-Careful (OwnTransfer w.db) w.db _ _ _ (
                                                  from,
                                                  to,
                                                  amount,
                                                  subst (IsOpenTo user from) h
                                                      (authorize-IsOpenTo from _ w2 w3 acc ran),
                                                  refl,
                                                ))))))))))))))
            w refl)
