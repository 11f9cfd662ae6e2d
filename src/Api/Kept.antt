-- ===== src/Api/Kept.antt =====
-- What a handler leaves true of the tables: an invariant goes from one step to the next.
use double_entry_bank_go.Base.{Bool, true, false, Option, none, some, ℕ, String}
use double_entry_bank_go.Errors.{GoError, Result, ok, err}
use double_entry_bank_go.World.{Db, World, Action}
use double_entry_bank_go.Api.Reply.{Reply}
use double_entry_bank_go.Api.Handling.{
  Outcome, goes_on, replied, Handling, ◌>>=◌, ◌>>◌, refuse_if, need, call,
}

module _ (Inv : Db → Type 0) where
  abbrev pub Keeps : {A : Type 0} → Handling A → Type 0
  Keeps m = (w : World) → Inv w.db → Inv (m w).1.db

  module _ {A B : Type 0} (m : Handling A) (f : A → Handling B) where
    pub >>=-Keeps : Keeps m → ((a : A) → Keeps (f a)) → Keeps (m >>= f)
    unfolding ◌>>=◌
    >>=-Keeps first next w h = go (m w) (first w h)
      where
        go :
            (p : Outcome A × World)
            → Inv p.1.db
            → Inv
                (elim p.0 as (λ _. Outcome B × World) [
                  | goes_on a ↦ f a p.1
                  | replied e ↦ (replied e, p.1)
                ]).1.db
        go (goes_on a, w1) k = next a w1 k
        go (replied e, w1) k = k

  pub >>-Keeps :
      {B : Type 0} (m : Handling (Unit {0})) (k : Handling B) → Keeps m → Keeps k → Keeps (m >> k)
  unfolding ◌>>◌
  >>-Keeps m k first next = >>=-Keeps m (λ _. k) first (λ _. next)

  pub refuse_if-Keeps :
      (bad : Bool) (status : ℕ) (text : String) → Keeps (refuse_if bad status text)
  unfolding refuse_if
  refuse_if-Keeps true status text w h = h
  refuse_if-Keeps false status text w h = h

  pub need-Keeps :
      {A : Type 0} (o : Option A) (status : ℕ) (text : String) → Keeps (need o status text)
  unfolding need
  need-Keeps none status text w h = h
  need-Keeps (some a) status text w h = h

  pub call-Keeps :
      {A : Type 0} (m : Action A) (refusal : GoError → Reply)
      → ((w : World) → Inv w.db → Inv (m w).1.db)
      → Keeps (call m refusal)
  unfolding call
  call-Keeps {A} m refusal keeps w h = go (m w) (keeps w h)
    where
      go :
          (p : Result A × World)
          → Inv p.1.db
          → Inv
              (elim p.0 as (λ _. Outcome A × World) [
                | ok a ↦ (goes_on a, p.1)
                | err e ↦ (replied (refusal e), p.1)
              ]).1.db
      go (ok a, w1) k = k
      go (err e, w1) k = k
