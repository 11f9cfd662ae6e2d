-- ===== src/Api/Ensured.antt =====
-- What a handler that only reads ensures: of the value with which a step goes on, and of the reply.
use double_entry_bank_go.Base.{◌≡◌, refl, Bool, true, false, Option, none, some, ℕ, String}
use double_entry_bank_go.Errors.{GoError, Result, ok, err}
use double_entry_bank_go.World.{Db, World, Action}
use double_entry_bank_go.Service.Reads.{Keeps}
use double_entry_bank_go.Api.Reply.{Reply, respond_error}
use double_entry_bank_go.Api.Handling.{
  Outcome, goes_on, replied, Handling, ◌>>=◌, ◌>>◌, refuse_if, need, call,
}

-- `R` holds of the reply, and the tables stay as they were `before`.
module _ (before : Db) (R : Reply → Type 0) where
  abbrev pub Post : {A : Type 0} → (A → Type 0) → Outcome A → Type 0
  Post Q (goes_on a) = Q a
  Post Q (replied reply) = R reply

  abbrev pub Ensures : {A : Type 0} → (A → Type 0) → Handling A → Type 0
  Ensures Q m = (w : World) → w.db ≡ before → Post Q (m w).0 × ((m w).1.db ≡ before)

  module _ {A B : Type 0} (Q : A → Type 0) (Q' : B → Type 0) (m : Handling A)
      (f : A → Handling B) where
    pub >>=-Ensures : Ensures Q m → ((a : A) → Q a → Ensures Q' (f a)) → Ensures Q' (m >>= f)
    unfolding ◌>>=◌
    >>=-Ensures first next w h = go (m w) (first w h)
      where
        after : Outcome A × World → Outcome B × World
        after p = elim p.0 as (λ _. Outcome B × World) [
          | goes_on a ↦ f a p.1
          | replied e ↦ (replied e, p.1)
        ]

        go :
            (p : Outcome A × World)
            → Post Q p.0 × (p.1.db ≡ before)
            → Post Q' (after p).0 × ((after p).1.db ≡ before)
        go (goes_on a, w1) (q, k) = next a q w1 k
        go (replied e, w1) (r, k) = (r, k)

  pub >>-Ensures :
      {B : Type 0} (P : Type 0) (Q : B → Type 0) (m : Handling (Unit {0})) (k : Handling B)
      → Ensures (λ _. P) m
      → (P → Ensures Q k)
      → Ensures Q (m >> k)
  unfolding ◌>>◌
  >>-Ensures P Q m k first next = >>=-Ensures (λ _. P) Q m (λ _. k) first (λ _. next)

  -- A refusal, whose reply discloses nothing.
  module _ (status : ℕ) (text : String) (fine : R (respond_error status text)) where
    pub refuse_if-Ensures : (bad : Bool) → Ensures (λ _. bad ≡ false) (refuse_if bad status text)
    unfolding refuse_if
    refuse_if-Ensures true w h = (fine, h)
    refuse_if-Ensures false w h = (refl, h)

    pub need-Ensures : {A : Type 0} (o : Option A) → Ensures (λ a. o ≡ some a) (need o status text)
    unfolding need
    need-Ensures none w h = (fine, h)
    need-Ensures (some a) w h = (refl, h)

  pub call-Ensures :
      {A : Type 0} (Q : A → Type 0) (m : Action A) (refusal : GoError → Reply)
      → ((e : GoError) → R (refusal e))
      → Keeps (λ db. db ≡ before) m
      → ((w w1 : World) (a : A) → w.db ≡ before → m w ≡ (ok a, w1) → Q a)
      → Ensures Q (call m refusal)
  unfolding call
  call-Ensures {A} Q m refusal fine keeps finds w h = go (m w) refl (keeps w h)
    where
      after : Result A × World → Outcome A × World
      after p = elim p.0 as (λ _. Outcome A × World) [
        | ok a ↦ (goes_on a, p.1)
        | err e ↦ (replied (refusal e), p.1)
      ]

      go :
          (p : Result A × World)
          → m w ≡ p
          → p.1.db ≡ before
          → Post Q (after p).0 × ((after p).1.db ≡ before)
      go (ok a, w1) ran k = (finds w w1 a h ran, k)
      go (err e, w1) ran k = (fine e, k)
