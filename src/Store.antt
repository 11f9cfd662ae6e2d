-- ===== src/Store.antt =====
-- internal/db/store.go: a transaction runs its body on the database and restores it unless COMMIT
-- succeeds, and serialization failures are tried again, at most ten times with a growing pause.
pub mod Backoff
pub mod Atomic
pub mod Retry
pub mod Protocol
pub mod Waiting
use double_entry_bank_go.Base.{
  ℕ, zero, suc, ◌+◌, ◌-◌, ◌*◌, Bool, true, false, Option, none, some, ltb, leb, str_eq,
  if◌then◌else◌,
}
use double_entry_bank_go.Errors.{
  GoError, database, context_done, wrap, tx_failed, nil_error, Result, ok, err, as_pq,
}
use double_entry_bank_go.World.{Db, World, Backend, Action, tick}

-- `isSerializationError`
unfoldable pub is_serialization_error : GoError → Bool
is_serialization_error e = elim (as_pq e) [ none ↦ false | some code ↦ str_eq code "40001" ]

-- `maxAttempts`
abbrev pub max_attempts : ℕ
max_attempts = 10

-- `time.Second`, in milliseconds.
abbrev pub second : ℕ
second = 1000

-- The loop of `retryWait`, on the rounds left.
double_wait : ℕ → ℕ → ℕ
double_wait zero base = base
double_wait (suc rounds) base =
    let doubled = base * 2 in
    let rest = double_wait rounds doubled in if leb second doubled then second else rest

-- `retryWait`
unfoldable pub retry_wait : ℕ → ℕ
unfolding double_wait
retry_wait attempt = double_wait attempt 50

-- `fmt.Errorf("transaction failed after %d attempts due to serialization conflicts: %w", …)`
abbrev pub exhausted : GoError → GoError
exhausted = wrap "transaction failed after 10 attempts due to serialization conflicts"

abbrev pub commit_failed : GoError → GoError
commit_failed = wrap "commit failed"

module _ (b : Backend) where
  -- `sleepWithContext`; a wait that the context cuts short is not counted.
  unfoldable pub sleep_with_context : ℕ → Action (Unit {0})
  sleep_with_context d w =
      if b.cancelled w.calls
      then (err context_done, tick w)
      else (ok tt, record w { calls = w.calls + 1; slept = w.slept + d })

  -- `tx.Rollback()` and its effect: the tables are those that BEGIN saw, also if the call fails,
  -- since the server drops what a lost connection left open.
  abbrev roll_back : Db → GoError → World → Result (Unit {0}) × World
  roll_back before e w = elim (b.fault w.calls) [
    | some r ↦ (err (tx_failed e (database r)), record w { db = before; calls = w.calls + 1 })
    | none ↦ (err e, record w { db = before; calls = w.calls + 1 })
  ]

  -- `tx.Commit()`
  abbrev commit : Db → World → Result (Unit {0}) × World
  commit before w = elim (b.fault w.calls) [
    | some e ↦ (
      err (commit_failed (database e)),
      if b.commit_lost w.calls then tick w else record w { db = before; calls = w.calls + 1 },
    )
    | none ↦ (ok tt, tick w)
  ]

  -- `execTxOnce`, with BEGIN as its first call.
  unfoldable pub exec_tx_once : Action (Unit {0}) → Action (Unit {0})
  exec_tx_once fn w = elim (b.fault w.calls) [
    | some e ↦ (err (database e), tick w)
    | none ↦
        let (r, w') = fn (tick w) in elim r [ ok _ ↦ commit w.db w' | err e ↦ roll_back w.db e w' ]
  ]

  -- The loop of `ExecTx`: the attempts left, the number of the next one, and `lastErr`.
  unfoldable pub attempts : Action (Unit {0}) → ℕ → ℕ → GoError → Action (Unit {0})
  attempts fn zero attempt last w = (err (exhausted last), w)
  attempts fn (suc left) attempt last w =
      let (r, w1) = exec_tx_once fn w in
      elim r [
        | ok _ ↦ (ok tt, w1)
        | err e ↦ elim (is_serialization_error e) [
          | false ↦ (err e, w1)
          | true ↦ elim (ltb attempt (max_attempts - 1)) [
            | false ↦ attempts fn left (attempt + 1) e w1
            | true ↦
                let (s, w2) = sleep_with_context (retry_wait attempt) w1 in
                elim s [
                  | err waited ↦ (err waited, w2)
                  | ok _ ↦ attempts fn left (attempt + 1) e w2
                ]
          ]
        ]
      ]

  -- `ExecTx`
  unfoldable pub exec_tx : Action (Unit {0}) → Action (Unit {0})
  exec_tx fn = attempts fn max_attempts 0 nil_error
