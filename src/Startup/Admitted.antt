-- ===== src/Startup/Admitted.antt =====
-- When the server admits every origin.
use double_entry_bank_go.Base.{
  ◌≡◌, ◌↔◌, refl, sym, ap, ◌∙◌, ◌++◌, ◌==◌, ℕ, true, false, inl, inr, List, [], ◌∷◌, any, Any,
  arith, some, Bool-cases, ==_iff,
}
use double_entry_bank_go.Runes.{Runes, same, Casing, to_lower, is_nil, trim_space, around}
use double_entry_bank_go.Runes.Laws.{same_refl}
use double_entry_bank_go.Cors.{star, new_cors_handler, is_origin_allowed}
use double_entry_bank_go.Cors.Matching.{Admits, is_origin_allowed_iff}
use double_entry_bank_go.Startup.{Env, cors_options, parse_allowed_origins}
use double_entry_bank_go.Startup.Origins.{
  AllTrimmed, configured, star_listed, star_of_env, parse_allowed_origins-AllTrimmed,
  allowed_origins_all_iff,
}

-- Only the asterisk alone has nothing before and nothing behind its first asterisk.
around_nothing : (b : ℕ) (s : Runes) → around b s ≡ some ([], []) → s ≡ b ∷ []
unfolding around
around_nothing b [] h = absurd (cc)
around_nothing b (c ∷ s) h = elim (Bool-cases (c == b)) [
  | inl here ↦ let same_c = (==_iff c b).0 here in ground arith
  | inr later ↦ absurd (ground arith)
]

nothing_joined : (before rest : Runes) → [] ≡ before ++ rest → (before ≡ []) × (rest ≡ [])
nothing_joined [] rest h = (refl, sym h)
nothing_joined (c ∷ before) rest h = absurd (cc)

is_nil-to_lower : (casing : Casing) (s : Runes) → is_nil (to_lower casing s) ≡ is_nil s
unfolding to_lower
is_nil-to_lower casing [] = refl
is_nil-to_lower casing (c ∷ s) = refl

-- The only entry that admits the empty origin, and is not empty itself, is the asterisk.
Admits-nothing : (entry : Runes) → is_nil entry ≡ false → Admits entry [] → same entry star ≡ true
Admits-nothing entry filled (inl (exact, e)) = absurd (cc (sym filled ∙ ap is_nil e))
Admits-nothing entry filled (inr (before, behind, middle, found, spelt)) =
    let (none_before, rest) = nothing_joined before (middle ++ behind) spelt in
    let (_, none_behind) = nothing_joined middle behind (sym rest) in
    let alone : entry ≡ star = around_nothing b'*' entry (rw (none_before, none_behind) at found) in
    rw alone (same_refl star)

module _ (casing : Casing) where
  some_star :
      (entries : List Runes)
      → AllTrimmed entries
      → Any (λ entry. Admits (to_lower casing entry) []) entries
      → any (λ o. same (to_lower casing o) star) entries ≡ true
  some_star [] _ h = absurd h
  some_star (entry ∷ entries) ((filled, _), trimmed) (inl here) =
      rw (Admits-nothing (to_lower casing entry) (is_nil-to_lower casing entry ∙ filled) here) refl
  some_star (entry ∷ entries) (_, trimmed) (inr there) =
      let later = some_star entries trimmed there in ground arith

  module _ (env : Env) where
    allowed_at_star :
        (new_cors_handler casing (cors_options env)).allowed_origins_all ≡ true
        → (origin : Runes)
        → is_origin_allowed casing (new_cors_handler casing (cors_options env)) origin ≡ true
    unfolding is_origin_allowed
    allowed_at_star all origin = rw all refl

    star_configured :
        is_origin_allowed casing (new_cors_handler casing (cors_options env)) [] ≡ true
        → any (λ o. same (to_lower casing o) star) (parse_allowed_origins env) ≡ true
    unfolding to_lower
    star_configured allowed =
        let (filled, trimmed) = parse_allowed_origins-AllTrimmed env in
        elim ((is_origin_allowed_iff casing (cors_options env) []).0 allowed) [
          | inl nothing_listed ↦ absurd (filled nothing_listed)
          | inr admitted ↦ some_star (parse_allowed_origins env) trimmed admitted
        ]

    -- The server admits every origin exactly when `CORS_ALLOWED_ORIGINS` is not blank and one of the
    -- texts between its commas is an asterisk, with or without space around it. So a variable that is
    -- not set, or blank, never opens the server to every origin, although a CORS handler without
    -- origins would.
    pub every_origin_admitted_iff :
        ((origin : Runes)
          → is_origin_allowed casing (new_cors_handler casing (cors_options env)) origin ≡ true)
        ↔ ((is_nil (trim_space (configured casing env)) ≡ false) × (star_listed casing env ≡ true))
    every_origin_admitted_iff =
        let starred = star_of_env casing env in
        (
          λ every. let listed = star_configured (every []) in ground arith,
          λ listed. allowed_at_star ((allowed_origins_all_iff casing env).1 listed),
        )
