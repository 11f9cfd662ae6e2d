-- ===== src/Http/Kept.antt =====
-- What a request leaves true of the tables.
use double_entry_bank_go.Base.{
  ◌≡◌, ◌≢◌, refl, none, subst, sym, Bool, true, false, String, str_eq, ℕ, List, [], ◌∷◌,
  if◌then◌else◌,
}
use double_entry_bank_go.Money.{DecimalLaws}
use double_entry_bank_go.World.{World, Db, tick}
use double_entry_bank_go.Runes.{runes, Casing}
use double_entry_bank_go.Headers.{Headers}
use double_entry_bank_go.Cors.{CorsHandler, handle}
use double_entry_bank_go.Service.Invariant.{IsLedger}
use double_entry_bank_go.Api.Handling.{Server, Request, Outcome, replied, goes_on}
use double_entry_bank_go.Api.Kept.{Keeps}
use double_entry_bank_go.Api.Router.{handler, serve}
use double_entry_bank_go.Api.Reading.{serve-Keeps, reading_handler-Keeps}
use double_entry_bank_go.Api.Preserved.{handler-Keeps}
use double_entry_bank_go.Http.{
  Target, endpoint, health, swagger, Route, routes, Matched, found, wrong_method, missing, Gin,
  Arrival, Answer, payload, empty, to_incoming, initial_headers, identify, sends, run_target,
  dispatch, answer, answer_all,
}
use double_entry_bank_go.Http.Routes.{GinLaws, only_reads, found-reads}

module _ (s : Server) (casing : Casing) (cors : CorsHandler) (gin : Gin) (uptime : ℕ → String) where
  pub identify_db : (a : Arrival) (w : World) → (identify s casing cors gin uptime a w).1.db ≡ w.db
  unfolding identify
  identify_db a w = go (str_eq a.x_request_id "")
    where
      go : (blank : Bool) → (if blank then tick w else w).db ≡ w.db
      go true = refl
      go false = refl

  module _ (Inv : Db → Type 0) where
    -- The handler that the target stands for, if any, keeps the invariant.
    abbrev TargetKeeps : Target → Type 0
    TargetKeeps (endpoint e) = (r : Request s) → Keeps Inv (handler s e r)
    TargetKeeps health = Unit
    TargetKeeps swagger = Unit

    run_target-Keeps :
        (a : Arrival) (id : String) (t : Target) (param : String) (headers : Headers) (w : World)
        → TargetKeeps t
        → Inv w.db
        → Inv (run_target s casing cors gin uptime a id t param headers w).1.db
    unfolding run_target
    run_target-Keeps a id health param headers w _ h = h
    run_target-Keeps a id swagger param headers w _ h = h
    run_target-Keeps a id (endpoint e) param headers w kept h =
        go (serve s (to_incoming a e param) w) (serve-Keeps s Inv (to_incoming a e param) kept w h)
      where
        go :
            (p : Outcome Unit × World)
            → Inv p.1.db
            → Inv
                (elim p.0 as (λ _. Answer × World) [
                  | replied r ↦
                      (sends s casing cors gin uptime a id r.status headers (payload r.body), p.1)
                  | goes_on _ ↦ (sends s casing cors gin uptime a id 200 headers empty, p.1)
                ]).1.db
        go (replied r, w') k = k
        go (goes_on _, w') k = k

    module _ (a : Arrival)
        (kept : (route : Route) (param : String)
          → gin.find routes a.cors.method a.path ≡ found route param
          → TargetKeeps route.target) where
      dispatch-Keeps :
          (id : String) (headers : Headers) (m : Matched) (w : World)
          → gin.find routes a.cors.method a.path ≡ m
          → Inv w.db
          → Inv (dispatch s casing cors gin uptime a id m headers w).1.db
      unfolding dispatch
      dispatch-Keeps id headers (found route param) w e h =
          run_target-Keeps a id route.target param headers w (kept route param e) h
      dispatch-Keeps id headers (wrong_method methods) w e h = h
      dispatch-Keeps id headers missing w e h = h

      pub answer-Keeps : (w : World) → Inv w.db → Inv (answer s casing cors gin uptime a w).1.db
      unfolding answer
      answer-Keeps w h =
          go (handle casing cors a.cors (initial_headers matched)).1
            (handle casing cors a.cors (initial_headers matched)).0
        where
          matched : Matched
          matched = gin.find routes a.cors.method a.path

          identified : String × World
          identified = identify s casing cors gin uptime a w

          known : Inv identified.1.db
          known = subst Inv (sym (identify_db a w)) h

          go :
              (ended : Bool) (headers : Headers)
              → Inv
                  (if ended
                    then (
                      record { status = 200; headers = headers; content = empty; logged = none },
                      identified.1,
                    )
                    else dispatch s casing cors gin uptime a identified.0 matched headers
                        identified.1).1.db
          go true headers = known
          go false headers = dispatch-Keeps identified.0 headers matched identified.1 refl known

  every_target-Keeps : DecimalLaws s.backend.decimals → (t : Target) → TargetKeeps IsLedger t
  every_target-Keeps laws (endpoint e) = handler-Keeps s laws e
  every_target-Keeps laws health = tt
  every_target-Keeps laws swagger = tt

  reading_target-Keeps : (Inv : Db → Type 0) (t : Target) → only_reads t ≡ true → TargetKeeps Inv t
  reading_target-Keeps Inv (endpoint e) reads = λ r. reading_handler-Keeps s Inv e r reads
  reading_target-Keeps Inv health _ = tt
  reading_target-Keeps Inv swagger _ = tt

  -- A request whose method is not POST changes no table, whatever its path and its token are and
  -- whichever calls of the database fail. gin finds a route only where it is registered with the
  -- request's method.
  pub answer_reads :
      GinLaws gin
      → (a : Arrival) (w : World) → a.cors.method ≢ runes "POST"
      → (answer s casing cors gin uptime a w).1.db ≡ w.db
  answer_reads laws a w other =
      answer-Keeps (λ db. db ≡ w.db) a
        (λ route param e.
          reading_target-Keeps (λ db. db ≡ w.db) route.target
            (found-reads gin laws a.cors.method a.path route param e other))
        w refl

  pub answer_all-IsLedger :
      DecimalLaws s.backend.decimals
      → (arrivals : List Arrival) (w : World) → IsLedger w.db
      → IsLedger (answer_all s casing cors gin uptime arrivals w).db
  unfolding answer_all
  answer_all-IsLedger laws [] w h = h
  answer_all-IsLedger laws (a ∷ arrivals) w h =
      answer_all-IsLedger laws arrivals (answer s casing cors gin uptime a w).1
        (answer-Keeps IsLedger a (λ route param e. every_target-Keeps laws route.target) w h)
