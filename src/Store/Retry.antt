-- ===== src/Store/Retry.antt =====
-- The loop of `ExecTx` over its attempts.
use double_entry_bank_go.Base.{
  ℕ, zero, suc, ◌+◌, ◌-◌, ◌≤◌, ◌≡◌, refl, sym, ◌∙◌, inl, inr, true, false, none, ap, arith, ltb,
  Bool-cases, subst,
}
use double_entry_bank_go.Errors.{GoError, nil_error, Result, ok, err}
use double_entry_bank_go.World.{Db, World, Backend, Action, tick}
use double_entry_bank_go.Store.{
  is_serialization_error, max_attempts, retry_wait, sleep_with_context, exec_tx_once, attempts,
  exec_tx,
}
use double_entry_bank_go.Store.Atomic.{Ran, AtMostOnce, NoLostConflict, Once, exec_tx_once-Once}

module _ (b : Backend) (fn : Action (Unit {0})) where
  sleep-db : (d : ℕ) (w : World) → (sleep_with_context b d w).1.db ≡ w.db
  unfolding sleep_with_context
  sleep-db d w = ground arith

  sleep-slept : (d : ℕ) (w : World) → (sleep_with_context b d w).1.slept ≤ w.slept + d
  unfolding sleep_with_context
  sleep-slept d w = ground arith

  -- What the loop does after an attempt, by the attempt's result.
  module _ (P : Result (Unit {0}) × World → Type 0) (left attempt : ℕ) (last : GoError)
      (w : World) where
    after_failure :
        (e : GoError) (w1 : World)
        → exec_tx_once b fn w ≡ (err e, w1)
        → (is_serialization_error e ≡ false → P (err e, w1))
        → (is_serialization_error e ≡ true
            → (waited : GoError) (w2 : World) → w2.db ≡ w1.db
            → P (err waited, w2))
        → (is_serialization_error e ≡ true
            → (w2 : World) → w2.db ≡ w1.db
            → P (attempts b fn left (attempt + 1) e w2))
        → P (attempts b fn (suc left) attempt last w)
    unfolding attempts
    after_failure e w1 tried final cut again = elim (Bool-cases (is_serialization_error e)) [
      | inr other ↦ subst P {x = (err e, w1)} (ground arith) (final other)
      | inl conflict ↦ elim (Bool-cases (ltb attempt (max_attempts - 1))) [
        | inr end ↦
            subst P {x = attempts b fn left (attempt + 1) e w1} (ground arith)
              (again conflict w1 refl)
        | inl wait ↦ slept conflict wait (sleep_with_context b (retry_wait attempt) w1) refl
      ]
    ]
      where
        slept :
            is_serialization_error e ≡ true
            → ltb attempt (max_attempts - 1) ≡ true
            → (p : Result (Unit {0}) × World) → sleep_with_context b (retry_wait attempt) w1 ≡ p
            → P (attempts b fn (suc left) attempt last w)
        slept conflict wait (err waited, w2) s =
            subst P {x = (err waited, w2)} (ground arith)
              (cut conflict waited w2 (sym (ap (λ q. q.1.db) s) ∙ sleep-db (retry_wait attempt) w1))
        slept conflict wait (ok _, w2) s =
            subst P {x = attempts b fn left (attempt + 1) e w2} (ground arith)
              (again conflict w2 (sym (ap (λ q. q.1.db) s) ∙ sleep-db (retry_wait attempt) w1))

    after_success :
        (w1 : World)
        → exec_tx_once b fn w ≡ (ok tt, w1)
        → P (ok tt, w1)
        → P (attempts b fn (suc left) attempt last w)
    unfolding attempts
    after_success w1 done holds = subst P {x = (ok tt, w1)} (ground arith) holds

  next_attempt-AtMostOnce :
      (left attempt : ℕ) (last : GoError) (w : World)
      → NoLostConflict b
      → ((e : GoError) (w2 : World)
          → w2.db ≡ w.db
          → AtMostOnce fn w.db (attempts b fn left (attempt + 1) e w2))
      → (p : Result (Unit {0}) × World) → exec_tx_once b fn w ≡ p
      → Once b fn w.db p
      → AtMostOnce fn w.db (attempts b fn (suc left) attempt last w)
  next_attempt-AtMostOnce left attempt last w safe later (ok _, w1) tried once =
      after_success (AtMostOnce fn w.db) left attempt last w w1 tried once
  next_attempt-AtMostOnce left attempt last w safe later (err e, w1) tried (inl undone) =
      after_failure (AtMostOnce fn w.db) left attempt last w e w1 tried (λ _. inl undone)
        (λ _ waited w2 kept. inl (kept ∙ undone)) (λ _ w2 kept. later e w2 (kept ∙ undone))
  next_attempt-AtMostOnce left attempt last w safe later (err e, w1) tried (inr (ran, final)) =
      after_failure (AtMostOnce fn w.db) left attempt last w e w1 tried (λ _. inr ran)
        (λ conflict. absurd (cc (final safe))) (λ conflict. absurd (cc (final safe)))

  attempts-AtMostOnce :
      (left attempt : ℕ) (last : GoError) (w : World)
      → NoLostConflict b
      → AtMostOnce fn w.db (attempts b fn left attempt last w)
  attempts-AtMostOnce zero attempt last w safe = unfold attempts in inl refl
  attempts-AtMostOnce (suc left) attempt last w safe =
      next_attempt-AtMostOnce left attempt last w safe
        (λ e w2 same.
          subst (λ d. AtMostOnce fn d (attempts b fn left (attempt + 1) e w2)) same
            (attempts-AtMostOnce left (attempt + 1) e w2 safe))
        (exec_tx_once b fn w) refl (exec_tx_once-Once b fn w)

  -- A transaction that succeeds has had its body's effect exactly once; one that fails has had it
  -- once or not at all, however many attempts were made. It is assumed that a COMMIT refused by a
  -- serialization failure is not carried out.
  pub exec_tx-AtMostOnce : (w : World) → NoLostConflict b → AtMostOnce fn w.db (exec_tx b fn w)
  unfolding exec_tx
  exec_tx-AtMostOnce w safe = attempts-AtMostOnce max_attempts 0 nil_error w safe

  -- What the body's effect keeps, the transaction keeps, whatever its result.
  module _ (Inv : Db → Type 0)
      (keeps : (w0 w1 : World) → Inv w0.db → fn w0 ≡ (ok tt, w1) → Inv w1.db) where
    Ran-keeps : (before after : Db) → Inv before → Ran fn before after → Inv after
    Ran-keeps before after holds (w0, w1, same, ran, here) =
        subst Inv (sym here) (keeps w0 w1 (subst Inv (sym same) holds) ran)

    next_attempt-keeps :
        (left attempt : ℕ) (last : GoError) (w : World)
        → ((e : GoError) (w2 : World)
            → Inv w2.db
            → Inv (attempts b fn left (attempt + 1) e w2).1.db)
        → (p : Result (Unit {0}) × World) → exec_tx_once b fn w ≡ p
        → Inv p.1.db
        → Inv (attempts b fn (suc left) attempt last w).1.db
    next_attempt-keeps left attempt last w later (ok _, w1) tried holds =
        after_success (λ q. Inv q.1.db) left attempt last w w1 tried holds
    next_attempt-keeps left attempt last w later (err e, w1) tried holds =
        after_failure (λ q. Inv q.1.db) left attempt last w e w1 tried (λ _. holds)
          (λ _ waited w2 kept. subst Inv (sym kept) holds)
          (λ _ w2 kept. later e w2 (subst Inv (sym kept) holds))

    once-keeps :
        (before : Db) (p : Result (Unit {0}) × World) → Inv before → Once b fn before p → Inv p.1.db
    once-keeps before (ok _, w) holds ran = Ran-keeps before w.db holds ran
    once-keeps before (err e, w) holds (inl undone) = subst Inv (sym undone) holds
    once-keeps before (err e, w) holds (inr (ran, _)) = Ran-keeps before w.db holds ran

    attempts-keeps :
        (left attempt : ℕ) (last : GoError) (w : World)
        → Inv w.db
        → Inv (attempts b fn left attempt last w).1.db
    attempts-keeps zero attempt last w holds = unfold attempts in holds
    attempts-keeps (suc left) attempt last w holds =
        next_attempt-keeps left attempt last w (λ e w2. attempts-keeps left (attempt + 1) e w2)
          (exec_tx_once b fn w) refl
          (once-keeps w.db (exec_tx_once b fn w) holds (exec_tx_once-Once b fn w))

    pub exec_tx-keeps : (w : World) → Inv w.db → Inv (exec_tx b fn w).1.db
    unfolding exec_tx
    exec_tx-keeps w holds = attempts-keeps max_attempts 0 nil_error w holds

  -- Where no call of the first attempt meets a fault, the transaction commits in that attempt.
  pub exec_tx_commits :
      (w w1 : World)
      → b.fault w.calls ≡ none
      → fn (tick w) ≡ (ok tt, w1)
      → b.fault w1.calls ≡ none
      → exec_tx b fn w ≡ (ok tt, tick w1)
  unfolding exec_tx attempts exec_tx_once
  exec_tx_commits w w1 begun ran calm = ground arith

  once_refuses :
      (w w1 : World) (e : GoError)
      → b.fault w.calls ≡ none
      → fn (tick w) ≡ (err e, w1)
      → b.fault w1.calls ≡ none
      → exec_tx_once b fn w ≡ (err e, record w1 { db = w.db; calls = w1.calls + 1 })
  unfolding exec_tx_once
  once_refuses w w1 e begun ran calm = ground arith

  -- Where the first attempt meets no fault, an error of the body that is no serialization failure
  -- ends the transaction at once, and leaves the tables as they were.
  pub exec_tx_refuses :
      (w w1 : World) (e : GoError)
      → b.fault w.calls ≡ none
      → fn (tick w) ≡ (err e, w1)
      → b.fault w1.calls ≡ none
      → is_serialization_error e ≡ false
      → exec_tx b fn w ≡ (err e, record w1 { db = w.db; calls = w1.calls + 1 })
  unfolding exec_tx
  exec_tx_refuses w w1 e begun ran calm final =
      after_failure (λ q. q ≡ (err e, record w1 { db = w.db; calls = w1.calls + 1 })) 9 0 nil_error
        w e (record w1 { db = w.db; calls = w1.calls + 1 }) (once_refuses w w1 e begun ran calm)
        (λ _. refl) (λ conflict. absurd (cc)) (λ conflict. absurd (cc))
