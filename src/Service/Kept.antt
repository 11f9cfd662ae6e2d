-- ===== src/Service/Kept.antt =====
-- A posted movement keeps the ledger's invariant.
use double_entry_bank_go.Base.{
  All-map, ◌≡◌, ◌⊎◌, sym, ◌∙◌, ap₂, inl, inr, true, List, [], ◌∷◌, any, ◌==◌, ==_iff, All, arith,
  Bool-cases,
}
use double_entry_bank_go.Int.{ℤ, pos, ◌+ℤ◌, ◌-ℤ◌, ◌≤ℤ◌, int_laws}
use double_entry_bank_go.World.{Uuid, AccountRow, EntryRow, Db}
use double_entry_bank_go.Sqlc.Tables.{entry_check, is_settlement}
use double_entry_bank_go.Sqlc.Balances.{
  DistinctIds, contribution, calculated_balance-cons, Moved, add_to_balance-All, add_to_balance-any,
  add_to_balance-DistinctIds, total, total-add_to_balance,
}
use double_entry_bank_go.Service.Invariant.{
  transaction_sum, IsReconciled, IsSolvent, InRange, IsAnchored, IsLedger, Posted,
}

All-zip {ℓ κ ι} :
    {A : Type ℓ} (P : A → Type κ) (Q : A → Type ι) (xs : List A)
    → All P xs
    → All Q xs
    → All (λ a. P a × Q a) xs
All-zip P Q [] h k = tt
All-zip P Q (x ∷ xs) (p, ps) (q, qs) = ((p, q), All-zip P Q xs ps qs)

contribution_hit :
    (id : Uuid) (e : EntryRow) → e.account_id ≡ id → contribution id e ≡ e.credit -ℤ e.debit
contribution_hit id e same = rw ((==_iff e.account_id id).1 same)

contribution_miss : (id : Uuid) (e : EntryRow) → (id ≡ e.account_id → ⊥) → contribution id e ≡ pos 0
contribution_miss id e other = ground arith

InRange-moved :
    (id : Uuid) (n : ℤ) (a : AccountRow) (m : ℤ)
    → InRange a
    → Moved id n a m
    → InRange (record a { balance = m })
InRange-moved id n a m h (inl (_, _, room)) = room
InRange-moved id n a m h (inr (_, same)) = rw same h

-- An entry and the update that goes with it move both sides of the equation alike.
IsReconciled-Moved :
    (id : Uuid) (n : ℤ) (e : EntryRow) (es : List EntryRow) (a : AccountRow) (m : ℤ)
    → e.account_id ≡ id
    → e.credit -ℤ e.debit ≡ n
    → IsReconciled es a
    → Moved id n a m
    → IsReconciled (e ∷ es) (record a { balance = m })
IsReconciled-Moved id n e es a m account amount h (inl (mine, moved, _)) =
    moved
    ∙ ap₂ ◌+ℤ◌ h (sym (contribution_hit a.id e (account ∙ sym mine) ∙ amount))
    ∙ sym (calculated_balance-cons a.id e es)
IsReconciled-Moved id n e es a m account amount h (inr (other, same)) =
    same
    ∙ h
    ∙ let zero_part = contribution_miss a.id e (λ p. other (p ∙ account)) in
      let sum = calculated_balance-cons a.id e es in rw (sum, zero_part) (omega int_laws)

opposing_sum : (d c x : ℤ) → x ≡ pos 0 → d -ℤ c +ℤ (c -ℤ d +ℤ x) ≡ pos 0
opposing_sum d c x h = rw h (omega int_laws)

untouched_sum : (x : ℤ) → x ≡ pos 0 → pos 0 +ℤ (pos 0 +ℤ x) ≡ pos 0
untouched_sum x h = rw h (omega int_laws)

-- What a balance needs so that the account stays solvent when it moves by `n`.
abbrev pub Bears : Uuid → ℤ → AccountRow → Type 0
Bears id n a = a.id ≡ id → IsSolvent (record a { balance = a.balance +ℤ n })

IsSolvent-Moved :
    (id : Uuid) (n : ℤ) (a : AccountRow) (m : ℤ)
    → IsSolvent a
    → Bears id n a
    → Moved id n a m
    → IsSolvent (record a { balance = m })
IsSolvent-Moved id n a m h bears (inl (mine, moved, _)) = rw moved (bears mine)
IsSolvent-Moved id n a m h bears (inr (_, same)) = rw same h

-- A credit is borne by every account, and any movement by the settlement account.
pub Bears-of_gain : (id : Uuid) (n : ℤ) (a : AccountRow) → pos 0 ≤ℤ n → IsSolvent a → Bears id n a
Bears-of_gain id n a gain (inl settlement) same = inl settlement
Bears-of_gain id n a gain (inr solvent) same = inr (omega int_laws)

module _ (first second : Uuid) (debit credit : ℤ) (db db' : Db)
    (p : Posted first second debit credit db db') (l : IsLedger db) where
  keyed' : DistinctIds db'.accounts
  keyed' =
      add_to_balance-DistinctIds second _ p.mid p.updated2
        (add_to_balance-DistinctIds first _ db.accounts p.updated1 l.keyed)

  in_range' : All InRange db'.accounts
  in_range' =
      add_to_balance-All second _ InRange InRange (InRange-moved second _) p.mid p.updated2 (
        add_to_balance-All first _ InRange InRange (InRange-moved first _) db.accounts p.updated1
          l.in_range)

  same_ids : (k : Uuid) → any (λ a. a.id == k) db'.accounts ≡ any (λ a. a.id == k) db.accounts
  same_ids k =
      add_to_balance-any second _ k p.mid p.updated2
      ∙ add_to_balance-any first _ k db.accounts p.updated1

  pub conserved' : total db'.accounts ≡ total db.accounts
  conserved' =
      let here = add_to_balance-any first _ second db.accounts p.updated1 ∙ p.listed2 in
      let step1 = total-add_to_balance first _ db.accounts p.updated1 l.keyed p.listed1 in
      let distinct = add_to_balance-DistinctIds first _ db.accounts p.updated1 l.keyed in
      let step2 = total-add_to_balance second _ p.mid p.updated2 distinct here in
      rw (step2, step1) (omega int_laws)

  reconciled' : All (IsReconciled db'.entries) db'.accounts
  reconciled' =
      let step1 =
        add_to_balance-All first _ (IsReconciled db.entries) (IsReconciled (p.entry1 ∷ db.entries))
          (λ a m.
            IsReconciled-Moved first _ p.entry1 db.entries a m p.account1
              (ap₂ ◌-ℤ◌ p.credit1 p.debit1))
          db.accounts p.updated1 l.reconciled in
      rw p.entries (
        add_to_balance-All second _ (IsReconciled (p.entry1 ∷ db.entries))
          (IsReconciled (p.entry2 ∷ p.entry1 ∷ db.entries))
          (λ a m.
            IsReconciled-Moved second _ p.entry2 (p.entry1 ∷ db.entries) a m p.account2
              (ap₂ ◌-ℤ◌ p.credit2 p.debit2))
          p.mid p.updated2 step1)

  checked' : All (λ e. entry_check e.debit e.credit ≡ true) db'.entries
  checked' =
      rw p.entries
        (rw (p.debit2, p.credit2) p.checked2, (rw (p.debit1, p.credit1) p.checked1, l.checked))

  anchored' : All (IsAnchored db'.accounts) db'.entries
  anchored' = rw p.entries (
    same_ids p.entry2.account_id ∙ (rw p.account2 p.listed2),
    (
      same_ids p.entry1.account_id ∙ (rw p.account1 p.listed1),
      All-map (IsAnchored db.accounts) (IsAnchored db'.accounts) (λ e h. same_ids e.account_id ∙ h)
          db.entries l.anchored,
    ),
  )

  balanced' : (t : Uuid) → transaction_sum t db'.entries ≡ pos 0
  balanced' t = rw p.entries (elim (Bool-cases (p.entry1.transaction_id == t)) [
    | inl mine ↦
        rw (p.same_transaction, mine, p.credit1, p.debit1, p.credit2, p.debit2)
          (opposing_sum debit credit _ (l.balanced t))
    | inr other ↦ rw (p.same_transaction, other) (untouched_sum _ (l.balanced t))
  ])

  -- Where the first account can bear its movement, and the second is credited or is the settlement
  -- account, nobody else is overdrawn.
  module _ (bears : All (Bears first (credit -ℤ debit)) db.accounts)
      (second_bears : (pos 0 ≤ℤ debit -ℤ credit)
        ⊎ All (λ a. a.id ≡ second → is_settlement a ≡ true) db.accounts) where
    mid-IsSolvent : All IsSolvent p.mid
    mid-IsSolvent =
        add_to_balance-All first _ (λ a. IsSolvent a × Bears first (credit -ℤ debit) a) IsSolvent
          (λ a m (h, k) moved. IsSolvent-Moved first _ a m h k moved) db.accounts p.updated1
          (All-zip IsSolvent (Bears first (credit -ℤ debit)) db.accounts l.solvent bears)

    -- Whether a row is the settlement account does not turn on its balance.
    settled-Moved :
        (a : AccountRow) (m : ℤ)
        → (a.id ≡ second → is_settlement a ≡ true)
        → Moved first (credit -ℤ debit) a m
        → a.id ≡ second
        → is_settlement (record a { balance = m }) ≡ true
    settled-Moved a m settled _ same = settled same

    mid-Bears : All (λ a. IsSolvent a × Bears second (debit -ℤ credit) a) p.mid
    mid-Bears = elim second_bears [
      | inl gain ↦
          All-map IsSolvent (λ a. IsSolvent a × Bears second (debit -ℤ credit) a)
            (λ a h. (h, Bears-of_gain second (debit -ℤ credit) a gain h)) p.mid mid-IsSolvent
      | inr settled ↦ All-zip IsSolvent (Bears second (debit -ℤ credit)) p.mid mid-IsSolvent (
          All-map (λ a. a.id ≡ second → is_settlement a ≡ true) (Bears second (debit -ℤ credit))
            (λ a h same. inl (h same)) p.mid
            (add_to_balance-All first _ (λ a. a.id ≡ second → is_settlement a ≡ true)
              (λ a. a.id ≡ second → is_settlement a ≡ true) settled-Moved db.accounts p.updated1
              settled))
    ]

    -- A posted movement keeps the whole invariant.
    pub Posted-IsLedger : IsLedger db'
    Posted-IsLedger = record {
      keyed = keyed';
      reconciled = reconciled';
      in_range = in_range';
      solvent =
          add_to_balance-All second _ (λ a. IsSolvent a × Bears second (debit -ℤ credit) a)
            IsSolvent (λ a m (h, k) moved. IsSolvent-Moved second _ a m h k moved) p.mid p.updated2
            mid-Bears;
      conserved = conserved' ∙ l.conserved;
      checked = checked';
      anchored = anchored';
      balanced = balanced';
    }
