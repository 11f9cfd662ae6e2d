-- ===== src/Store/Protocol.antt =====
-- The loop of `ExecTx` as a protocol of attempts and waits, and how long it can wait.
use double_entry_bank_go.Base.{
  ℕ, zero, suc, ◌+◌, ◌≡◌, ◌↔◌, refl, sym, ◌∙◌, subst, true, false, ltb, arith, Bool-cases, inl, inr,
}
use double_entry_bank_go.Errors.{GoError, nil_error, context_done, Result, ok, err}
use double_entry_bank_go.World.{World, Backend, Action, tick}
use double_entry_bank_go.Store.{
  is_serialization_error, retry_wait, sleep_with_context, exec_tx_once, attempts, exec_tx,
  exhausted,
}

-- The world after a wait.
abbrev pub woken : ℕ → World → World
woken d w = record w { calls = w.calls + 1; slept = w.slept + d }

module _ (b : Backend) (fn : Action (Unit {0})) where
  -- What may happen from attempt number `attempt` on, and with which result: the transaction
  -- commits; it fails for good; the tenth attempt meets a conflict; the wait behind a conflict is
  -- cut short by the context; or it is slept through, and the next attempt follows.
  pub data Protocol : ℕ → World → Result (Unit {0}) × World → Type 0 where
    commits :
        {attempt : ℕ} {w w1 : World}
        → exec_tx_once b fn w ≡ (ok tt, w1)
        → Protocol attempt w (ok tt, w1)
    fails :
        {attempt : ℕ} {w w1 : World} {e : GoError}
        → exec_tx_once b fn w ≡ (err e, w1)
        → is_serialization_error e ≡ false
        → Protocol attempt w (err e, w1)
    exhausts :
        {w w1 : World} {e : GoError}
        → exec_tx_once b fn w ≡ (err e, w1)
        → is_serialization_error e ≡ true
        → Protocol 9 w (err (exhausted e), w1)
    is_cut_short :
        {attempt : ℕ} {w w1 : World} {e : GoError}
        → exec_tx_once b fn w ≡ (err e, w1)
        → is_serialization_error e ≡ true
        → ltb attempt 9 ≡ true
        → b.cancelled w1.calls ≡ true
        → Protocol attempt w (err context_done, tick w1)
    retries :
        {attempt : ℕ} {w w1 : World} {e : GoError} {p : Result (Unit {0}) × World}
        → exec_tx_once b fn w ≡ (err e, w1)
        → is_serialization_error e ≡ true
        → ltb attempt 9 ≡ true
        → b.cancelled w1.calls ≡ false
        → Protocol (attempt + 1) (woken (retry_wait attempt) w1) p
        → Protocol attempt w p

  -- What the loop does after an attempt, by its result.
  module _ (left attempt : ℕ) (last : GoError) (w w1 : World) where
    after_commit :
        exec_tx_once b fn w ≡ (ok tt, w1) → attempts b fn (suc left) attempt last w ≡ (ok tt, w1)
    unfolding attempts
    after_commit tried = ground arith

    module _ (e : GoError) (tried : exec_tx_once b fn w ≡ (err e, w1)) where
      after_error :
          is_serialization_error e ≡ false → attempts b fn (suc left) attempt last w ≡ (err e, w1)
      unfolding attempts
      after_error final = ground arith

      after_last :
          is_serialization_error e ≡ true
          → ltb attempt 9 ≡ false
          → attempts b fn (suc left) attempt last w ≡ attempts b fn left (attempt + 1) e w1
      unfolding attempts
      after_last conflict end = ground arith

      after_cut :
          is_serialization_error e ≡ true
          → ltb attempt 9 ≡ true
          → b.cancelled w1.calls ≡ true
          → attempts b fn (suc left) attempt last w ≡ (err context_done, tick w1)
      unfolding attempts sleep_with_context
      after_cut conflict more cut = ground arith

      after_wait :
          is_serialization_error e ≡ true
          → ltb attempt 9 ≡ true
          → b.cancelled w1.calls ≡ false
          → attempts b fn (suc left) attempt last w
            ≡ attempts b fn left (attempt + 1) e (woken (retry_wait attempt) w1)
      unfolding attempts sleep_with_context
      after_wait conflict more on = ground arith

  attempts_end :
      (attempt : ℕ) (e : GoError) (w : World) → attempts b fn 0 attempt e w ≡ (err (exhausted e), w)
  unfolding attempts
  attempts_end attempt e w = refl

  -- From any attempt on, the attempts that are left are enough for the loop to follow the protocol.
  abbrev Follows : ℕ → Type 0
  Follows left =
      (attempt : ℕ) (last : GoError) (w : World)
      → suc left + attempt ≡ 10
      → Protocol attempt w (attempts b fn (suc left) attempt last w)

  attempts-Protocol : (left : ℕ) → Follows left
  attempts-Protocol zero attempt last w all = go (exec_tx_once b fn w) refl
    where
      go :
          (p : Result (Unit {0}) × World)
          → exec_tx_once b fn w ≡ p
          → Protocol attempt w (attempts b fn 1 attempt last w)
      go (ok _, w1) tried =
          subst (Protocol attempt w) (sym (after_commit 0 attempt last w w1 tried)) (commits tried)
      go (err e, w1) tried = elim (Bool-cases (is_serialization_error e)) [
        | inr final ↦
            subst (Protocol attempt w) (sym (after_error 0 attempt last w w1 e tried final))
              (fails tried final)
        | inl conflict ↦
            subst (λ n. Protocol n w (attempts b fn 1 n last w)) {x = 9} (omega arith)
              (subst (Protocol 9 w)
                (sym (after_last 0 9 last w w1 e tried conflict refl ∙ attempts_end 10 e w1))
                (exhausts tried conflict))
      ]
  attempts-Protocol (suc left) attempt last w all =
      go (attempts-Protocol left) (exec_tx_once b fn w) refl
    where
      go :
          Follows left
          → (p : Result (Unit {0}) × World) → exec_tx_once b fn w ≡ p
          → Protocol attempt w (attempts b fn (suc (suc left)) attempt last w)
      go follows (ok _, w1) tried =
          subst (Protocol attempt w) (sym (after_commit _ attempt last w w1 tried)) (commits tried)
      go follows (err e, w1) tried =
          let more : ltb attempt 9 ≡ true = ground arith in
          elim (Bool-cases (is_serialization_error e)) [
            | inr final ↦
                subst (Protocol attempt w) (sym (after_error _ attempt last w w1 e tried final))
                  (fails tried final)
            | inl conflict ↦ elim (Bool-cases (b.cancelled w1.calls)) [
              | inl cut ↦
                  subst (Protocol attempt w)
                    (sym (after_cut _ attempt last w w1 e tried conflict more cut))
                    (is_cut_short tried conflict more cut)
              | inr on ↦
                  subst (Protocol attempt w)
                    (sym (after_wait _ attempt last w w1 e tried conflict more on))
                    (retries tried conflict more on
                      (follows (attempt + 1) e (woken (retry_wait attempt) w1) (omega arith)))
            ]
          ]

  exec_tx-Protocol : (w : World) → Protocol 0 w (exec_tx b fn w)
  unfolding exec_tx
  exec_tx-Protocol w = attempts-Protocol 9 0 nil_error w refl

  -- The protocol leaves no choice.
  Protocol-attempts :
      {attempt : ℕ} {w : World} {p : Result (Unit {0}) × World}
      → Protocol attempt w p
      → (left : ℕ) (last : GoError) → suc left + attempt ≡ 10
      → attempts b fn (suc left) attempt last w ≡ p
  Protocol-attempts (commits tried) left last all = after_commit left _ last _ _ tried
  Protocol-attempts (fails tried final) left last all = after_error left _ last _ _ _ tried final
  Protocol-attempts (exhausts tried conflict) zero last all =
      after_last 0 9 last _ _ _ tried conflict refl ∙ attempts_end 10 _ _
  Protocol-attempts (exhausts tried conflict) (suc left) last all = absurd (omega arith)
  Protocol-attempts (is_cut_short tried conflict more cut) left last all =
      after_cut left _ last _ _ _ tried conflict more cut
  Protocol-attempts (retries tried conflict more on rest) zero last all = absurd (ground arith)
  Protocol-attempts (retries tried conflict more on rest) (suc left) last all =
      after_wait (suc left) _ last _ _ _ tried conflict more on
      ∙ Protocol-attempts rest left _ (omega arith)

  -- `ExecTx` ends, and it ends as the protocol says and in no other way: it tries the transaction;
  -- it ends with success, or with an error that is no serialization failure; at a serialization
  -- failure it waits and tries again, unless the context cuts the wait short; and the tenth failure
  -- is the end.
  pub exec_tx_iff :
      (w : World) (p : Result (Unit {0}) × World) → (exec_tx b fn w ≡ p) ↔ Protocol 0 w p
  unfolding exec_tx
  exec_tx_iff w p = (
    λ e. subst (Protocol 0 w) e (exec_tx-Protocol w),
    λ run. Protocol-attempts run 9 nil_error refl,
  )
