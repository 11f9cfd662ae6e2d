-- ===== src/Store/Atomic.antt =====
-- What `ExecTx` promises of the tables: all of the body's effect or none of it, and never twice.
use double_entry_bank_go.Base.{
  ℕ, ◌+◌, ◌≡◌, ◌⊎◌, refl, sym, ◌∙◌, inl, inr, Bool, true, false, none, some, arith, Bool-cases,
  Option-cases, subst,
}
use double_entry_bank_go.Errors.{SqlError, GoError, database, tx_failed, Result, ok, err, as_pq}
use double_entry_bank_go.World.{Db, World, Backend, Action, tick}
use double_entry_bank_go.Store.{
  is_serialization_error, roll_back, commit, exec_tx_once, commit_failed,
}

-- The body ran to its end on tables equal to `before`, and left the tables `after`.
abbrev pub Ran : Action (Unit {0}) → Db → Db → Type 0
Ran fn before after =
    (w0 : World) × (w1 : World) × (w0.db ≡ before) × (fn w0 ≡ (ok tt, w1)) × (after ≡ w1.db)

-- After success the body's effect is there, once; after an error it is there once or not at all.
abbrev pub AtMostOnce : Action (Unit {0}) → Db → Result (Unit {0}) × World → Type 0
AtMostOnce fn before (ok _, w) = Ran fn before w.db
AtMostOnce fn before (err _, w) = (w.db ≡ before) ⊎ Ran fn before w.db

-- A COMMIT that PostgreSQL refuses with a serialization failure has not been carried out.
abbrev pub NoLostConflict : Backend → Type 0
NoLostConflict b =
    (n : ℕ) (e : SqlError)
    → b.fault n ≡ some e
    → is_serialization_error (database e) ≡ true
    → b.commit_lost n ≡ false

commit_failed-is_serialization_error :
    (e : SqlError)
    → is_serialization_error (commit_failed (database e)) ≡ is_serialization_error (database e)
unfolding is_serialization_error as_pq
commit_failed-is_serialization_error e = refl

-- An error whose COMMIT took effect is no serialization failure.
lost_is_final :
    (e : SqlError) {lost : Bool}
    → (is_serialization_error (database e) ≡ true → lost ≡ false)
    → lost ≡ true
    → is_serialization_error (commit_failed (database e)) ≡ false
lost_is_final e safe l = elim (Bool-cases (is_serialization_error (database e))) [
  | inl conflict ↦ cc (safe conflict)
  | inr other ↦ commit_failed-is_serialization_error e ∙ other
]

module _ (b : Backend) (fn : Action (Unit {0})) where
  -- One attempt: as above, and a serialization failure leaves the tables alone where no COMMIT that
  -- meets one is carried out.
  abbrev pub Once : Db → Result (Unit {0}) × World → Type 0
  Once before (ok _, w) = Ran fn before w.db
  Once before (err e, w) =
      (w.db ≡ before) ⊎ (Ran fn before w.db × (NoLostConflict b → is_serialization_error e ≡ false))

  commit_cases :
      (before : Db) (w : World)
      → (commit b before w ≡ (ok tt, tick w))
        ⊎ ((e : SqlError) × (w' : World) × (b.fault w.calls ≡ some e)
            × (commit b before w ≡ (err (commit_failed (database e)), w'))
            × ((w'.db ≡ before) ⊎ ((w'.db ≡ w.db) × (b.commit_lost w.calls ≡ true))))
  commit_cases before w = elim (Option-cases (b.fault w.calls)) [
    | inl calm ↦ inl (ground arith)
    | inr (e, hit) ↦ elim (Bool-cases (b.commit_lost w.calls)) [
      | inl lost ↦ inr (e, tick w, hit, ground arith, inr (refl, lost))
      | inr undone ↦
          inr (e, record w { db = before; calls = w.calls + 1 }, hit, ground arith, inl refl)
    ]
  ]

  roll_back_cases :
      (before : Db) (e : GoError) (w : World)
      → (e' : GoError) × (w' : World) × (roll_back b before e w ≡ (err e', w')) × (w'.db ≡ before)
  roll_back_cases before e w = elim (Option-cases (b.fault w.calls)) [
    | inl calm ↦ (e, record w { db = before; calls = w.calls + 1 }, ground arith, refl)
    | inr (r, hit) ↦ (
      tx_failed e (database r),
      record w { db = before; calls = w.calls + 1 },
      ground arith,
      refl,
    )
  ]

  commit-Once :
      (before : Db) (w0 w1 : World)
      → w0.db ≡ before
      → fn w0 ≡ (ok tt, w1)
      → Once before (commit b before w1)
  commit-Once before w0 w1 same ran = elim (commit_cases before w1) [
    | inl done ↦ subst (Once before) (sym done) (w0, w1, same, ran, refl)
    | inr (e, w2, hit, failed, inl undone) ↦ subst (Once before) (sym failed) (inl undone)
    | inr (e, w2, hit, failed, inr (kept, lost)) ↦
        subst (Once before) (sym failed)
          (inr ((w0, w1, same, ran, kept), λ safe. lost_is_final e (safe w1.calls e hit) lost))
  ]

  ran-Once :
      (w : World)
      → b.fault w.calls ≡ none
      → (r : Result (Unit {0}) × World) → fn (tick w) ≡ r
      → Once w.db (exec_tx_once b fn w)
  unfolding exec_tx_once
  ran-Once w calm (ok _, w1) ran =
      let same : exec_tx_once b fn w ≡ commit b w.db w1 = ground arith in
      subst (Once w.db) (sym same) (commit-Once w.db (tick w) w1 refl ran)
  ran-Once w calm (err e, w1) ran =
      let (e', w2, rolled, undone) = roll_back_cases w.db e w1 in
      let same : exec_tx_once b fn w ≡ (err e', w2) = ground arith in
      subst (Once w.db) (sym same) (inl undone)

  pub exec_tx_once-Once : (w : World) → Once w.db (exec_tx_once b fn w)
  unfolding exec_tx_once
  exec_tx_once-Once w = elim (Option-cases (b.fault w.calls)) [
    | inr (e, hit) ↦ subst (Once w.db) {x = (err (database e), tick w)} (ground arith) (inl refl)
    | inl calm ↦ ran-Once w calm (fn (tick w)) refl
  ]
