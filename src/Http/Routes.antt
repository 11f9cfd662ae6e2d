-- ===== src/Http/Routes.antt =====
-- gin's matcher, and the routes of cmd/main.go: which of them change the tables.
use double_entry_bank_go.Base.{
  Any-All, Any, ◌≡◌, ◌≢◌, refl, sym, subst, ◌∙◌, ◌⊎◌, inl, inr, Bool, true, String, List, [], All,
}
use double_entry_bank_go.Runes.{Runes, runes}
use double_entry_bank_go.Api.Reading.{is_reading}
use double_entry_bank_go.Http.{
  Target, endpoint, health, swagger, Route, routes, found, wrong_method, Gin,
}

-- gin's documented behaviour: a route that it finds is registered, with the request's method, and
-- with a path that is registered with other methods it lists some registered methods.
pub record GinLaws (gin : Gin) : Type 0 where
  pub found_registered :
      (rs : List Route) (method : Runes) (path : String) (route : Route) (id : String)
      → gin.find rs method path ≡ found route id
      → Any (λ r. (r ≡ route) × (r.method ≡ method)) rs
  pub methods_registered :
      (rs : List Route) (method : Runes) (path : String) (methods : List Runes)
      → gin.find rs method path ≡ wrong_method methods
      → (methods ≢ []) × All (λ m. Any (λ r. r.method ≡ m) rs) methods

-- A target that writes no table.
abbrev pub only_reads : Target → Bool
only_reads (endpoint e) = is_reading e
only_reads health = true
only_reads swagger = true

abbrev IsPostOrReads : Route → Type 0
IsPostOrReads r = (r.method ≡ runes "POST") ⊎ (only_reads r.target ≡ true)

-- Each route that writes is registered with POST.
pub writes_by_post : All IsPostOrReads routes
writes_by_post = (
  inl refl,
  (
    inl refl,
    (
      inr refl,
      (
        inr refl,
        (
          inl refl,
          (
            inr refl,
            (inr refl, (inl refl, (inl refl, (inl refl, (inr refl, (inr refl, (inr refl, tt))))))),
          ),
        ),
      ),
    ),
  ),
)

module _ (gin : Gin) (laws : GinLaws gin) where
  pub found-reads :
      (method : Runes) (path : String) (route : Route) (id : String)
      → gin.find routes method path ≡ found route id
      → method ≢ runes "POST"
      → only_reads route.target ≡ true
  found-reads method path route id e other =
      let (r, (is, with_method), kind) =
        Any-All (λ r. (r ≡ route) × (r.method ≡ method)) IsPostOrReads routes
          (laws.found_registered routes method path route id e) writes_by_post in
      elim kind [
        | inl post ↦ absurd (other (sym with_method ∙ post))
        | inr reads ↦ subst (λ x. only_reads x.target ≡ true) is reads
      ]
