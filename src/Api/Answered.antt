-- ===== src/Api/Answered.antt =====
-- What a handler replies: a property of the reply goes from one step to the next, and the last step
-- does reply.
use double_entry_bank_go.Base.{Bool, true, false, Option, none, some, ◌≡◌, ℕ, String}
use double_entry_bank_go.Errors.{GoError, Result, ok, err}
use double_entry_bank_go.World.{World, Action}
use double_entry_bank_go.Api.Reply.{Reply, respond_error}
use double_entry_bank_go.Api.Handling.{
  Outcome, goes_on, replied, Handling, ◌>>=◌, ◌>>◌, refuse_if, need, call, next_call,
}

module _ (P : Reply → Bool) where
  -- A step that replies does so as it should.
  abbrev pub StepOutcome : {A : Type 0} → Outcome A → Type 0
  StepOutcome (goes_on a) = Unit
  StepOutcome (replied reply) = P reply ≡ true

  abbrev pub EndOutcome : {A : Type 0} → Outcome A → Type 0
  EndOutcome (goes_on a) = ⊥
  EndOutcome (replied reply) = P reply ≡ true

  abbrev pub Steps : {A : Type 0} → Handling A → Type 0
  Steps m = (w : World) → StepOutcome (m w).0

  abbrev pub Closes : {A : Type 0} → Handling A → Type 0
  Closes m = (w : World) → EndOutcome (m w).0

  module _ {A B : Type 0} (m : Handling A) (f : A → Handling B) where
    pub >>=-Closes : Steps m → ((a : A) → Closes (f a)) → Closes (m >>= f)
    unfolding ◌>>=◌
    >>=-Closes first next w = go (m w) (first w)
      where
        go :
            (p : Outcome A × World)
            → StepOutcome p.0
            → EndOutcome
                (elim p.0 as (λ _. Outcome B × World) [
                  | goes_on a ↦ f a p.1
                  | replied e ↦ (replied e, p.1)
                ]).0
        go (goes_on a, w1) k = next a w1
        go (replied e, w1) k = k

    pub >>=-Steps : Steps m → ((a : A) → Steps (f a)) → Steps (m >>= f)
    unfolding ◌>>=◌
    >>=-Steps first next w = go (m w) (first w)
      where
        go :
            (p : Outcome A × World)
            → StepOutcome p.0
            → StepOutcome
                (elim p.0 as (λ _. Outcome B × World) [
                  | goes_on a ↦ f a p.1
                  | replied e ↦ (replied e, p.1)
                ]).0
        go (goes_on a, w1) k = next a w1
        go (replied e, w1) k = k

  module _ {B : Type 0} (m : Handling (Unit {0})) (k : Handling B) where
    pub >>-Closes : Steps m → Closes k → Closes (m >> k)
    unfolding ◌>>◌
    >>-Closes first next = >>=-Closes m (λ _. k) first (λ _. next)

    pub >>-Steps : Steps m → Steps k → Steps (m >> k)
    unfolding ◌>>◌
    >>-Steps first next = >>=-Steps m (λ _. k) first (λ _. next)

  pub next_call-Steps : Steps next_call
  unfolding next_call
  next_call-Steps w = tt

  module _ (status : ℕ) (text : String) (fine : P (respond_error status text) ≡ true) where
    pub refuse_if-Steps : (bad : Bool) → Steps (refuse_if bad status text)
    unfolding refuse_if
    refuse_if-Steps true w = fine
    refuse_if-Steps false w = tt

    pub need-Steps : {A : Type 0} (o : Option A) → Steps (need o status text)
    unfolding need
    need-Steps none w = fine
    need-Steps (some a) w = tt

  pub call-Steps :
      {A : Type 0} (m : Action A) (refusal : GoError → Reply)
      → ((e : GoError) → P (refusal e) ≡ true)
      → Steps (call m refusal)
  unfolding call
  call-Steps {A} m refusal fine w = go (m w)
    where
      go :
          (p : Result A × World)
          → StepOutcome
              (elim p.0 as (λ _. Outcome A × World) [
                | ok a ↦ (goes_on a, p.1)
                | err e ↦ (replied (refusal e), p.1)
              ]).0
      go (ok a, w1) = tt
      go (err e, w1) = fine e
