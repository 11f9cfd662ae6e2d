-- ===== src/Http/Answers.antt =====
-- cmd/main.go: the requests that the middleware and the router answer by themselves.
use double_entry_bank_go.Base.{
  Any-All, Any, ◌≡◌, ◌≢◌, refl, sym, ap, subst, ◌∙◌, true, false, String, ℕ, List, [], ◌∷◌, ◌++◌,
  All, none, arith,
}
use mathlib.Core.List.{append-nil, append_assoc}
use double_entry_bank_go.World.{World}
use double_entry_bank_go.Runes.{Runes, runes, Casing, join, is_nil}
use double_entry_bank_go.Headers.{Headers, add, del, value_of}
use double_entry_bank_go.Headers.Values.{values, values-append, values-del_self, values-set_self}
use double_entry_bank_go.Cors.{CorsHandler, handle, is_preflight}
use double_entry_bank_go.Cors.Allowing.{handle_preflight-drops, handle_actual_request-keeps}
use double_entry_bank_go.Api.Handling.{Server}
use double_entry_bank_go.Http.{
  routes, Matched, wrong_method, Gin, Arrival, empty, initial_headers, add_allowed, spread_allow,
  dispatch, answer,
}
use double_entry_bank_go.Http.Allow.{HasNoComma, split_on-join}
use double_entry_bank_go.Http.Routes.{GinLaws}
use double_entry_bank_go.Http.Kept.{identify_db}

abbrev first : List Runes → Runes
first [] = []
first (v ∷ vs) = v

value_of-first :
    (name : String) (headers : Headers) → value_of name headers ≡ first (values name headers)
value_of-first name [] = refl
value_of-first name ((key, value) ∷ headers) = ground (arith, value_of-first name headers)

values-add_allowed :
    (methods : List Runes) (headers : Headers)
    → values "Allow" (add_allowed methods headers) ≡ values "Allow" headers ++ methods
unfolding add_allowed add
values-add_allowed [] headers = sym (append-nil (values "Allow" headers))
values-add_allowed (m ∷ ms) headers =
    values-add_allowed ms (add "Allow" m headers)
    ∙ ap (λ vs. vs ++ ms) (values-append "Allow" headers (("Allow", m) ∷ []))
    ∙ append_assoc (values "Allow" headers) (m ∷ []) ms

-- A method that gin may list.
abbrev IsPlain : Runes → Type 0
IsPlain m = HasNoComma m × (is_nil m ≡ false)

registered-IsPlain : All (λ r. IsPlain r.method) routes
registered-IsPlain = (
  (refl, refl),
  (
    (refl, refl),
    (
      (refl, refl),
      (
        (refl, refl),
        (
          (refl, refl),
          (
            (refl, refl),
            (
              (refl, refl),
              (
                (refl, refl),
                ((refl, refl), ((refl, refl), ((refl, refl), ((refl, refl), ((refl, refl), tt))))),
              ),
            ),
          ),
        ),
      ),
    ),
  ),
)

listed-IsPlain :
    (methods : List Runes) → All (λ m. Any (λ r. r.method ≡ m) routes) methods → All IsPlain methods
listed-IsPlain [] _ = tt
listed-IsPlain (m ∷ ms) (here, there) =
    let (r, is, plain) =
      Any-All (λ r. r.method ≡ m) (λ r. IsPlain r.method) routes here registered-IsPlain in
    (subst IsPlain is plain, listed-IsPlain ms there)

not_nil :
    (p : Runes) (ps : List Runes) → is_nil p ≡ false → is_nil (join (runes ", ") (p ∷ ps)) ≡ false
unfolding join
not_nil [] ps h = absurd (ground arith)
not_nil (c ∷ p) [] h = refl
not_nil (c ∷ p) (q ∷ ps) h = refl

no_comma : (ps : List Runes) → All IsPlain ps → All HasNoComma ps
no_comma [] _ = tt
no_comma (p ∷ ps) (plain, rest) = (plain.0, no_comma ps rest)

-- The methods that the header lists in one text are sent in one header each.
spread_allow_lem :
    (methods : List Runes) (headers : Headers)
    → methods ≢ []
    → All IsPlain methods
    → values "Allow" headers ≡ join (runes ", ") methods ∷ []
    → values "Allow" (spread_allow headers) ≡ methods
unfolding spread_allow
spread_allow_lem [] headers some_method _ _ = absurd (some_method refl)
spread_allow_lem (m ∷ ms) headers _ plain sent =
    rw
      (
        value_of-first "Allow" headers,
        sent,
        not_nil m ms plain.0.1,
        split_on-join m ms (no_comma (m ∷ ms) plain),
      )
      (values-add_allowed (m ∷ ms) (del "Allow" headers)
        ∙ ap (λ vs. vs ++ m ∷ ms) (values-del_self "Allow" headers))

module _ (s : Server) (casing : Casing) (cors : CorsHandler) (gin : Gin) (uptime : ℕ → String) where
  -- What gin finds for the request.
  abbrev pub matched_of : Arrival → Matched
  matched_of a = gin.find routes a.cors.method a.path

  -- A preflight is answered by the CORS middleware on any path: with 200, nothing below the headers
  -- and no header Allow, before any handler and before the log, and the tables stay as they are.
  pub answer_preflight :
      (a : Arrival) (w : World)
      → is_preflight casing cors a.cors ≡ true
      → ((answer s casing cors gin uptime a w).0.status ≡ 200)
        × ((answer s casing cors gin uptime a w).0.content ≡ empty)
        × ((answer s casing cors gin uptime a w).0.logged ≡ none)
        × (values "Allow" (answer s casing cors gin uptime a w).0.headers ≡ [])
        × ((answer s casing cors gin uptime a w).1.db ≡ w.db)
  unfolding answer handle
  answer_preflight a w asked = rw asked (
    refl,
    refl,
    refl,
    handle_preflight-drops casing cors a.cors _,
    identify_db s casing cors gin uptime a w,
  )

  -- A request that is no preflight, on a path that is registered with other methods, is answered with
  -- 405, nothing below the headers and one header Allow for each of those methods, in gin's order,
  -- and the tables stay as they are. gin lists some methods there, each that of some route.
  pub answer_wrong_method :
      GinLaws gin
      → (a : Arrival) (w : World) (methods : List Runes) → is_preflight casing cors a.cors ≡ false
      → matched_of a ≡ wrong_method methods
      → ((answer s casing cors gin uptime a w).0.status ≡ 405)
        × ((answer s casing cors gin uptime a w).0.content ≡ empty)
        × (values "Allow" (answer s casing cors gin uptime a w).0.headers ≡ methods)
        × ((answer s casing cors gin uptime a w).1.db ≡ w.db)
  unfolding answer handle dispatch initial_headers
  answer_wrong_method laws a w methods other e =
      let (some_method, registered) =
        laws.methods_registered routes a.cors.method a.path methods e in
      rw (other, e)
        (
          refl,
          refl,
          spread_allow_lem methods _ some_method (listed-IsPlain methods registered)
              (handle_actual_request-keeps casing cors a.cors _ ∙ values-set_self "Allow" _ []),
          identify_db s casing cors gin uptime a w,
        )
