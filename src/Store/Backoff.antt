-- ===== src/Store/Backoff.antt =====
-- The pauses of `retryWait`.
use double_entry_bank_go.Base.{ℕ, zero, suc, ◌*◌, ◌≤◌, ◌≡◌, refl, arith}
use double_entry_bank_go.Store.{double_wait, retry_wait, second}

double_wait_bounds :
    (n base : ℕ) → base ≤ second → (base ≤ double_wait n base) × (double_wait n base ≤ second)
unfolding double_wait
double_wait_bounds zero base h = omega arith
double_wait_bounds (suc n) base h = ground (arith, double_wait_bounds n (base * 2))

double_wait_step : (n base : ℕ) → base ≤ second → double_wait n base ≤ double_wait (suc n) base
unfolding double_wait
double_wait_step zero base h = ground arith
double_wait_step (suc n) base h = ground (arith, double_wait_step n (base * 2))

-- Every pause lies between 50 milliseconds and one second, no pause is shorter than the one before
-- it, and from the sixth attempt on it is one second.
pub retry_wait_bounds :
    (n : ℕ)
    → (50 ≤ retry_wait n)
      × (retry_wait n ≤ second)
      × (retry_wait n ≤ retry_wait (suc n))
      × (retry_wait (suc (suc (suc (suc (suc n))))) ≡ second)
unfolding retry_wait
retry_wait_bounds n = (
  (double_wait_bounds n 50 (omega arith)).0,
  (double_wait_bounds n 50 (omega arith)).1,
  double_wait_step n 50 (omega arith),
  unfold double_wait in refl,
)
