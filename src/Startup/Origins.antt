-- ===== src/Startup/Origins.antt =====
-- The origins that the server allows, and when it allows every one.
use double_entry_bank_go.Base.{
  ◌≡◌, ◌≢◌, ◌↔◌, refl, ◌∙◌, ◌++◌, Bool, true, false, not, ◌&&◌, inl, inr, List, [], ◌∷◌, any, arith,
  Bool-cases, Option-cases,
}
use double_entry_bank_go.Runes.{
  Runes, runes, same, Casing, lower, to_lower, is_nil, trim_left, trim_right, trim_space, split,
  around,
}
use double_entry_bank_go.Text.{is_space}
use double_entry_bank_go.Runes.Trim.{trim_space_clean}
use double_entry_bank_go.Cors.{CorsWildcard, CorsOptions, star, scan_origins, new_cors_handler}
use double_entry_bank_go.Startup.{
  Env, default_origins, trimmed_parts, parse_allowed_origins, cors_options,
}

-- A text that is not empty and has no space at its ends.
abbrev pub IsTrimmed : Runes → Type 0
IsTrimmed s = (is_nil s ≡ false) × (trim_space s ≡ s)

abbrev pub AllTrimmed : List Runes → Type 0
AllTrimmed [] = Unit
AllTrimmed (s ∷ ss) = IsTrimmed s × AllTrimmed ss

trimmed_parts-AllTrimmed : (parts : List Runes) → AllTrimmed (trimmed_parts parts)
unfolding trimmed_parts
trimmed_parts-AllTrimmed [] = tt
trimmed_parts-AllTrimmed (part ∷ parts) =
    let rest = trimmed_parts-AllTrimmed parts in
    elim (Bool-cases (is_nil (trim_space part))) [
      | inl blank ↦ rw (blank, AllTrimmed) rest
      | inr kept ↦
          let (_, _, again) = trim_space_clean part in rw (kept, AllTrimmed) ((kept, again), rest)
    ]

default_origins-AllTrimmed : AllTrimmed default_origins
unfolding trim_space trim_left trim_right is_space
default_origins-AllTrimmed =
    ((refl, refl), ((refl, refl), ((refl, refl), ((refl, refl), ((refl, refl), tt)))))

abbrev choose : List Runes → List Runes
choose origins = elim origins [ [] ↦ default_origins | o ∷ os ↦ o ∷ os ]

choose-AllTrimmed :
    (origins : List Runes)
    → AllTrimmed origins
    → (choose origins ≢ []) × AllTrimmed (choose origins)
choose-AllTrimmed [] h = ((λ e. cc), default_origins-AllTrimmed)
choose-AllTrimmed (o ∷ os) h = ((λ e. cc), h)

-- Whatever `CORS_ALLOWED_ORIGINS` holds, at least one origin is allowed, and every one is a text
-- that is not empty and has no space at its ends.
pub parse_allowed_origins-AllTrimmed :
    (env : Env) → (parse_allowed_origins env ≢ []) × AllTrimmed (parse_allowed_origins env)
unfolding parse_allowed_origins
parse_allowed_origins-AllTrimmed env =
    elim (Bool-cases (is_nil (trim_space (runes (env "CORS_ALLOWED_ORIGINS"))))) [
      | inl blank ↦ rw blank ((λ e. cc), default_origins-AllTrimmed)
      | inr filled ↦ rw filled (
          choose-AllTrimmed (trimmed_parts (split b',' (runes (env "CORS_ALLOWED_ORIGINS"))))
            (trimmed_parts-AllTrimmed _))
    ]

-- The loop of `newCORSHandler` ends with every origin allowed only at an asterisk.
scan_origins_all :
    (casing : Casing) (entries plain : List Runes) (wild : List CorsWildcard)
    → (scan_origins casing entries plain wild).all
      ≡ any (λ o. same (to_lower casing o) star) entries
unfolding scan_origins
scan_origins_all casing [] plain wild = refl
scan_origins_all casing (entry ∷ entries) plain wild =
    elim (Bool-cases (same (to_lower casing entry) star)) [
      | inl whole ↦ ground arith
      | inr more ↦ elim (Option-cases (around b'*' (to_lower casing entry))) [
        | inl exact ↦
            let rest = scan_origins_all casing entries (plain ++ to_lower casing entry ∷ []) wild in
            ground arith
        | inr (w, e) ↦
            let rest =
              scan_origins_all casing entries plain
                (wild ++ record { prefix = w.0; suffix = w.1 } ∷ []) in
            ground arith
      ]
    ]

all_of_options :
    (casing : Casing) (options : CorsOptions)
    → options.allowed_origins ≢ []
    → (new_cors_handler casing options).allowed_origins_all
      ≡ any (λ o. same (to_lower casing o) star) options.allowed_origins
unfolding new_cors_handler
all_of_options casing options some_origin = go options.allowed_origins refl
  where
    go :
        (entries : List Runes)
        → options.allowed_origins ≡ entries
        → (new_cors_handler casing options).allowed_origins_all
          ≡ any (λ o. same (to_lower casing o) star) options.allowed_origins
    go [] e = absurd (some_origin e)
    go (entry ∷ entries) e = rw e (scan_origins_all casing (entry ∷ entries) [] [])

-- No entry of the default is an asterisk.
no_star : (casing : Casing) → any (λ o. same (to_lower casing o) star) default_origins ≡ false
unfolding same to_lower lower
no_star casing = refl

nothing_is_no_star :
    (casing : Casing) (s : Runes) → is_nil s ≡ true → same (to_lower casing s) star ≡ false
unfolding same to_lower
nothing_is_no_star casing [] e = refl
nothing_is_no_star casing (c ∷ s) e = absurd (cc)

star_of_parts :
    (casing : Casing) (parts : List Runes)
    → any (λ o. same (to_lower casing o) star) (trimmed_parts parts)
      ≡ any (λ part. same (to_lower casing (trim_space part)) star) parts
unfolding trimmed_parts
star_of_parts casing [] = refl
star_of_parts casing (part ∷ parts) =
    let rest = star_of_parts casing parts in
    elim (Bool-cases (is_nil (trim_space part))) [
      | inl blank ↦ rw (blank, nothing_is_no_star casing _ blank) rest
      | inr kept ↦ rw (kept, rest) refl
    ]

star_of_choice :
    (casing : Casing) (origins : List Runes)
    → any (λ o. same (to_lower casing o) star) (choose origins)
      ≡ any (λ o. same (to_lower casing o) star) origins
star_of_choice casing [] = no_star casing
star_of_choice casing (o ∷ os) = refl

module _ (casing : Casing) (env : Env) where
  abbrev pub configured : Runes
  configured = runes (env "CORS_ALLOWED_ORIGINS")

  -- One of the texts between commas is an asterisk, with or without space around it.
  abbrev pub star_listed : Bool
  star_listed = any (λ part. same (to_lower casing (trim_space part)) star) (split b',' configured)

  pub star_of_env :
      any (λ o. same (to_lower casing o) star) (parse_allowed_origins env)
      ≡ (not (is_nil (trim_space configured)) && star_listed)
  unfolding parse_allowed_origins
  star_of_env = elim (Bool-cases (is_nil (trim_space configured))) [
    | inl blank ↦ rw blank (no_star casing)
    | inr filled ↦ rw filled (
        star_of_choice casing (trimmed_parts (split b',' configured))
        ∙ star_of_parts casing (split b',' configured))
  ]

  -- The flag of the CORS handler, by the variable.
  pub allowed_origins_all_iff :
      ((new_cors_handler casing (cors_options env)).allowed_origins_all ≡ true)
      ↔ ((is_nil (trim_space configured) ≡ false) × (star_listed ≡ true))
  allowed_origins_all_iff =
      let whole =
        all_of_options casing (cors_options env) (parse_allowed_origins-AllTrimmed env).0
        ∙ star_of_env in
      ((λ h. ground arith), (λ h. ground arith))
