-- ===== src/Headers/Values.antt =====
-- The values that a response's headers hold under one name, after `Add`, `Del` and `Set`.
use double_entry_bank_go.Base.{
  ◌≡◌, ◌≢◌, refl, ◌∙◌, String, str_eq, eq_iff, List, [], ◌∷◌, ◌++◌, if◌then◌else◌, arith,
}
use mathlib.Core.List.{append-nil}
use double_entry_bank_go.Runes.{Runes}
use double_entry_bank_go.Headers.{Headers, add, del, set}

-- The values of a header, in order.
abbrev pub values : String → Headers → List Runes
values name [] = []
values name ((key, value) ∷ headers) =
    let rest = values name headers in if str_eq key name then value ∷ rest else rest

pub values-append :
    (name : String) (xs ys : Headers) → values name (xs ++ ys) ≡ values name xs ++ values name ys
values-append name [] ys = refl
values-append name ((key, value) ∷ xs) ys = ground (arith, values-append name xs ys)

pub values-del_self : (name : String) (xs : Headers) → values name (del name xs) ≡ []
unfolding del
values-del_self name [] = refl
values-del_self name ((key, value) ∷ xs) = ground (arith, values-del_self name xs)

pub values-del_other :
    (name other : String) (xs : Headers)
    → other ≢ name
    → values name (del other xs) ≡ values name xs
unfolding del
values-del_other name other [] ne = refl
values-del_other name other ((key, value) ∷ xs) ne =
    ground (arith, eq_iff key other, eq_iff key name, values-del_other name other xs ne)

pub values-add_other :
    (name other : String) (v : Runes) (xs : Headers)
    → other ≢ name
    → values name (add other v xs) ≡ values name xs
unfolding add
values-add_other name other v xs ne =
    ground (
      arith,
      eq_iff other name,
      values-append name xs ((other, v) ∷ []),
      append-nil (values name xs),
    )

pub values-set_other :
    (name other : String) (v : Runes) (xs : Headers)
    → other ≢ name
    → values name (set other v xs) ≡ values name xs
unfolding set
values-set_other name other v xs ne =
    values-add_other name other v (del other xs) ne ∙ values-del_other name other xs ne

pub values-set_self :
    (name : String) (v : Runes) (xs : Headers) → values name (set name v xs) ≡ v ∷ []
unfolding set add
values-set_self name v xs = ground (
  arith,
  eq_iff name name,
  values-append name (del name xs) ((name, v) ∷ []),
  values-del_self name xs,
)
