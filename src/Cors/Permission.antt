-- ===== src/Cors/Permission.antt =====
-- Which responses carry the permission to read them.
use double_entry_bank_go.Base.{
  ◌≡◌, refl, sym, ◌∙◌, subst, ◌⊎◌, inl, inr, true, false, [], ◌∷◌, Bool-cases, arith,
}
use double_entry_bank_go.Runes.{Casing}
use double_entry_bank_go.Headers.{CorsRequest, get, has, Headers}
use double_entry_bank_go.Cors.{
  CorsHandler, requested, is_origin_allowed, is_method_allowed, are_headers_allowed,
  preflight_allowed, handle_preflight, handle_actual_request, is_preflight, handle,
}
use double_entry_bank_go.Headers.Values.{values}
use double_entry_bank_go.Cors.Replies.{
  permission, granted, asked_method, actual_allowed, handle_preflight_lem,
  handle_actual_request_lem,
}

module _ (casing : Casing) (c : CorsHandler) (r : CorsRequest) where
  -- What a response needs to carry the permission.
  pub record IsPermitted : Type 0 where
    pub origin_sent : has r "Origin" ≡ true
    pub origin_allowed : is_origin_allowed casing c (get r "Origin") ≡ true
    pub method_allowed : is_method_allowed casing c (asked_method casing c r) ≡ true
    pub headers_allowed :
        is_preflight casing c r ≡ true → are_headers_allowed casing c (requested casing c r) ≡ true

  origin_of_preflight : is_preflight casing c r ≡ true → has r "Origin" ≡ true
  unfolding is_preflight
  origin_of_preflight pre = ground arith

  preflight_tests :
      preflight_allowed casing c r ≡ true
      → (is_origin_allowed casing c (get r "Origin") ≡ true)
        × (is_method_allowed casing c (get r "Access-Control-Request-Method") ≡ true)
        × (are_headers_allowed casing c (requested casing c r) ≡ true)
  unfolding preflight_allowed
  preflight_tests h = (ground arith, ground arith, ground arith)

  tests_of_preflight :
      is_origin_allowed casing c (get r "Origin") ≡ true
      → is_method_allowed casing c (get r "Access-Control-Request-Method") ≡ true
      → are_headers_allowed casing c (requested casing c r) ≡ true
      → preflight_allowed casing c r ≡ true
  unfolding preflight_allowed
  tests_of_preflight o m h = rw (o, m, h)

  asked_of_preflight :
      is_preflight casing c r ≡ true
      → asked_method casing c r ≡ get r "Access-Control-Request-Method"
  asked_of_preflight pre = rw pre

  asked_of_actual : is_preflight casing c r ≡ false → asked_method casing c r ≡ r.method
  asked_of_actual act = rw act

  handled_preflight :
      (headers : Headers)
      → is_preflight casing c r ≡ true
      → (handle casing c r headers).0 ≡ handle_preflight casing c r headers
  unfolding handle
  handled_preflight headers pre = rw pre

  handled_actual :
      (headers : Headers)
      → is_preflight casing c r ≡ false
      → (handle casing c r headers).0 ≡ handle_actual_request casing c r headers
  unfolding handle
  handled_actual headers act = rw act

  abbrev pub Decided : Headers → Type 0
  Decided headers =
      (IsPermitted × (values permission headers ≡ granted casing c r ∷ []))
      ⊎ ((¬ IsPermitted) × (values permission headers ≡ []))

  preflight-Decided :
      (headers : Headers)
      → values permission headers ≡ []
      → is_preflight casing c r ≡ true
      → Decided (handle_preflight casing c r headers)
  preflight-Decided headers none' pre = elim (Bool-cases (preflight_allowed casing c r)) [
    | inl on ↦
        let (o, m, h) = preflight_tests on in
        inl (
          record {
            origin_sent = origin_of_preflight pre;
            origin_allowed = o;
            method_allowed = rw (asked_of_preflight pre) m;
            headers_allowed = λ _. h;
          },
          handle_preflight_lem casing c r headers none' ∙ rw on refl,
        )
    | inr off ↦ inr (
      λ p. cc (
        off,
        tests_of_preflight p.origin_allowed
            (subst (λ k. is_method_allowed casing c k ≡ true) (asked_of_preflight pre)
              p.method_allowed)
            (p.headers_allowed pre),
      ),
      handle_preflight_lem casing c r headers none' ∙ rw off refl,
    )
  ]

  actual-Decided :
      (headers : Headers)
      → values permission headers ≡ []
      → is_preflight casing c r ≡ false
      → Decided (handle_actual_request casing c r headers)
  actual-Decided headers none' act = elim (Bool-cases (actual_allowed casing c r)) [
    | inl on ↦ inl (
      record {
        origin_sent = ground arith;
        origin_allowed = ground arith;
        method_allowed = rw (asked_of_actual act) (ground arith);
        headers_allowed = λ pre. cc (pre, act);
      },
      handle_actual_request_lem casing c r headers none' ∙ rw on refl,
    )
    | inr off ↦ inr (
      λ p. cc (
        off,
        tests_of_actual p.origin_sent p.origin_allowed (
            subst (λ k. is_method_allowed casing c k ≡ true) (asked_of_actual act)
              p.method_allowed),
      ),
      handle_actual_request_lem casing c r headers none' ∙ rw off refl,
    )
  ]
    where
      tests_of_actual :
          has r "Origin" ≡ true
          → is_origin_allowed casing c (get r "Origin") ≡ true
          → is_method_allowed casing c r.method ≡ true
          → actual_allowed casing c r ≡ true
      tests_of_actual s o m = ground arith

  -- A response that had no permission yet carries exactly one after the middleware, if the request
  -- names an origin that is allowed, asks for a method that is allowed and, as a preflight, for
  -- headers that are; and none otherwise.
  pub handle_decides :
      (headers : Headers) → values permission headers ≡ [] → Decided (handle casing c r headers).0
  handle_decides headers none' = elim (Bool-cases (is_preflight casing c r)) [
    | inl pre ↦
        subst Decided (sym (handled_preflight headers pre)) (preflight-Decided headers none' pre)
    | inr act ↦ subst Decided (sym (handled_actual headers act)) (actual-Decided headers none' act)
  ]
