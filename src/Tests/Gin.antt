-- ===== src/Tests/Gin.antt =====
-- A matcher that compares paths with the registered ones as they are written.
use double_entry_bank_go.Base.{
  ◌≡◌, ◌≢◌, refl, sym, subst, ◌∙◌, Bool, true, false, ◌&&◌, String, str_eq, List, [], ◌∷◌, find,
  Option, none, some, Any, All, All-map, inl, inr, Bool-cases, arith, if◌then◌else◌,
}
use double_entry_bank_go.Runes.{Runes, same}
use double_entry_bank_go.Runes.Laws.{same-eq}
use double_entry_bank_go.Http.{Route, Matched, found, wrong_method, missing, Gin}
use double_entry_bank_go.Http.Routes.{GinLaws}

abbrev serves : Runes → String → Route → Bool
serves method path r = same r.method method && str_eq r.path path

abbrev methods_at : String → List Route → List Runes
methods_at path [] = []
methods_at path (r ∷ rs) =
    let rest = methods_at path rs in if str_eq r.path path then r.method ∷ rest else rest

abbrev or_missing : List Runes → Matched
or_missing [] = missing
or_missing (m ∷ ms) = wrong_method (m ∷ ms)

abbrev search_routes : List Route → Runes → String → Matched
search_routes rs method path = elim (find (serves method path) rs) [
  | none ↦ or_missing (methods_at path rs)
  | some r ↦ found r "one"
]

abbrev pub literal_gin : Gin
literal_gin = record { find = search_routes; swagger_status = λ path. 200 }

find-Any :
    (method : Runes) (path : String) (rs : List Route) (route : Route)
    → find (serves method path) rs ≡ some route
    → Any (λ r. (r ≡ route) × (r.method ≡ method)) rs
find-Any method path [] route h = absurd (cc)
find-Any method path (r ∷ rs) route h = elim (Bool-cases (serves method path r)) [
  | inl here ↦ inl (ground arith, same-eq r.method method (ground arith))
  | inr other ↦ inr (find-Any method path rs route (ground arith))
]

methods_at-All :
    (path : String) (rs : List Route) → All (λ m. Any (λ r. r.method ≡ m) rs) (methods_at path rs)
methods_at-All path [] = tt
methods_at-All path (r ∷ rs) =
    go
      (All-map (λ m. Any (λ x. x.method ≡ m) rs) (λ m. Any (λ x. x.method ≡ m) (r ∷ rs))
        (λ m h. inr h) (methods_at path rs) (methods_at-All path rs))
      (str_eq r.path path)
  where
    go :
        All (λ m. Any (λ x. x.method ≡ m) (r ∷ rs)) (methods_at path rs)
        → (here : Bool)
        → All
            (λ m. Any (λ x. x.method ≡ m) (r ∷ rs))
            (if here then r.method ∷ methods_at path rs else methods_at path rs)
    go rest true = (inl refl, rest)
    go rest false = rest

pub literal_laws : GinLaws literal_gin
literal_laws = record {
  found_registered = λ rs method path route id h.
      was_found rs method path route id (find (serves method path) rs) (methods_at path rs) refl h;
  methods_registered = λ rs method path methods h.
      was_listed rs path methods (find (serves method path) rs) (methods_at path rs) refl h;
}
  where
    listed_first : {m : Runes} {ms : List Runes} → (m ∷ ms) ≢ []
    listed_first h = cc

    was_found :
        (rs : List Route) (method : Runes) (path : String) (route : Route) (id : String)
        → (o : Option Route) (ms : List Runes) → find (serves method path) rs ≡ o
        → elim o as (λ _. Matched) [ none ↦ or_missing ms | some r ↦ found r "one" ]
          ≡ found route id
        → Any (λ r. (r ≡ route) × (r.method ≡ method)) rs
    was_found rs method path route id none [] e h = absurd (cc)
    was_found rs method path route id none (m ∷ ms) e h = absurd (cc)
    was_found rs method path route id (some r) ms e h =
        find-Any method path rs route (e ∙ ground arith)

    was_listed :
        (rs : List Route) (path : String) (methods : List Runes)
        → (o : Option Route) (ms : List Runes) → methods_at path rs ≡ ms
        → elim o as (λ _. Matched) [ none ↦ or_missing ms | some r ↦ found r "one" ]
          ≡ wrong_method methods
        → (methods ≢ []) × All (λ m. Any (λ r. r.method ≡ m) rs) methods
    was_listed rs path methods none [] e h = absurd (cc)
    was_listed rs path methods none (m ∷ ms) e h =
        let listed : methods_at path rs ≡ methods = e ∙ ground arith in
        (
          λ empty. listed_first (sym e ∙ listed ∙ empty),
          subst (All (λ m. Any (λ r. r.method ≡ m) rs)) listed (methods_at-All path rs),
        )
    was_listed rs path methods (some r) ms e h = absurd (cc)
