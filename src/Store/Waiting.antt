-- ===== src/Store/Waiting.antt =====
-- How long a transaction can wait.
use double_entry_bank_go.Base.{ℕ, zero, suc, ◌+◌, ◌≤◌, ◌≡◌, refl, sym, ◌∙◌, ap, arith}
use double_entry_bank_go.Errors.{Result}
use double_entry_bank_go.World.{World, Backend, Action, tick}
use double_entry_bank_go.Store.{retry_wait, double_wait, exec_tx_once, exec_tx}
use double_entry_bank_go.Store.Protocol.{
  Protocol, commits, fails, exhausts, is_cut_short, retries, exec_tx_iff,
}

-- The most that is waited from an attempt on, with so many waits left.
abbrev waits : ℕ → ℕ → ℕ
waits zero attempt = 0
waits (suc left) attempt = retry_wait attempt + waits left (attempt + 1)

module _ (b : Backend) (fn : Action (Unit {0}))
    (awake : (w : World) → (fn w).1.slept ≡ w.slept) where
  once_awake : (w : World) → (exec_tx_once b fn w).1.slept ≡ w.slept
  unfolding exec_tx_once
  once_awake w = ground (arith, awake (tick w))

  awake_after :
      (w w1 : World) (r : Result (Unit {0})) → exec_tx_once b fn w ≡ (r, w1) → w1.slept ≡ w.slept
  awake_after w w1 r tried = sym (ap (λ q. q.1.slept) tried) ∙ once_awake w

  Protocol-slept :
      {attempt : ℕ} {w : World} {p : Result (Unit {0}) × World}
      → Protocol b fn attempt w p
      → (left : ℕ) → left + attempt ≡ 9
      → p.1.slept ≤ w.slept + waits left attempt
  Protocol-slept (commits tried) left all = let e = awake_after _ _ _ tried in omega arith
  Protocol-slept (fails tried final) left all = let e = awake_after _ _ _ tried in omega arith
  Protocol-slept (exhausts tried conflict) left all = let e = awake_after _ _ _ tried in omega arith
  Protocol-slept (is_cut_short tried conflict more cut) left all =
      let e = awake_after _ _ _ tried in omega arith
  Protocol-slept (retries tried conflict more on rest) zero all = absurd (ground arith)
  Protocol-slept (retries tried conflict more on rest) (suc left) all =
      let e = awake_after _ _ _ tried in
      let later = Protocol-slept rest left (omega arith) in omega arith

  waits_in_all : waits 9 0 ≡ 5550
  unfolding retry_wait double_wait
  waits_in_all = refl

  -- A transaction whose body does not wait waits at most 5.55 seconds in all, whatever the database
  -- answers and however often it is tried.
  pub exec_tx-slept : (w : World) → (exec_tx b fn w).1.slept ≤ w.slept + 5550
  exec_tx-slept w =
      let all = Protocol-slept ((exec_tx_iff b fn w _).0 refl) 9 refl in
      let e = waits_in_all in omega arith
