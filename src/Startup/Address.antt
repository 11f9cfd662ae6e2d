-- ===== src/Startup/Address.antt =====
-- Which database the server connects to, and when it serves at all.
use double_entry_bank_go.Base.{
  ◌<>◌, ◌≡◌, ◌⊎◌, ◌↔◌, refl, subst, true, false, ◌≤◌, ltb, eq_iff, inl, inr, String, str_eq, List,
  [], ◌∷◌, some, none, arith, Bool-cases, Option-cases, if◌then◌else◌,
}
use double_entry_bank_go.Errors.{GoError, Result, ok, err, message}
use double_entry_bank_go.Runes.{Runes, runes, Casing, is_nil, trim_space, byte_length}
use double_entry_bank_go.Cors.{new_cors_handler}
use double_entry_bank_go.Api.Auth.{init_token_auth}
use double_entry_bank_go.Startup.{
  Env, Platform, Serving, fallback_vars, first_set, development_url, on_render, is_local_host_url,
  resolve_db_url, init_token_auth_from_env, start, cors_options,
}

-- The text is the trimmed value of a variable that is not blank.
abbrev pub IsValueOf : Env → String → Runes → Type 0
IsValueOf env name url = (is_nil url ≡ false) × (trim_space (runes (env name)) ≡ url)

-- The first variable of a list that is not blank has this value.
abbrev pub IsFirstOf : Env → List String → Runes → Type 0
IsFirstOf env [] url = ⊥
IsFirstOf env (name ∷ names) url =
    IsValueOf env name url
    ⊎ ((is_nil (trim_space (runes (env name))) ≡ true) × IsFirstOf env names url)

abbrev pub AllBlank : Env → List String → Type 0
AllBlank env [] = Unit
AllBlank env (name ∷ names) = (is_nil (trim_space (runes (env name))) ≡ true) × AllBlank env names

first_set_cases :
    (env : Env) (names : List String)
    → ((first_set env names ≡ none) × AllBlank env names)
      ⊎ ((url : Runes) × (first_set env names ≡ some url) × IsFirstOf env names url)
unfolding first_set
first_set_cases env [] = inl (refl, tt)
first_set_cases env (name ∷ names) = elim (Bool-cases (is_nil (trim_space (runes (env name))))) [
  | inl blank ↦ elim (first_set_cases env names) [
    | inl (none', all) ↦ inl (rw (blank, none') refl, (blank, all))
    | inr (url, found, is) ↦ inr (url, rw (blank, found) refl, inr (blank, is))
  ]
  | inr filled ↦ inr (trim_space (runes (env name)), rw filled refl, inl (filled, refl))
]

module _ (casing : Casing) (env : Env) where
  -- Where the address may come from: `DB_URL` that does not name the server's own host; `DB_URL`
  -- blank or local, and the first fallback that is set; or, with no fallback set and off Render,
  -- `DB_URL` though it is local, or the address of a development database where it is blank.
  pub data Source (url : Runes) : Type 0 where
    configured : IsValueOf env "DB_URL" url → is_local_host_url casing url ≡ false → Source url
    fallback :
        (is_nil (trim_space (runes (env "DB_URL"))) ≡ true)
          ⊎ (is_local_host_url casing (trim_space (runes (env "DB_URL"))) ≡ true)
        → IsFirstOf env fallback_vars url
        → Source url
    local :
        on_render env ≡ false
        → AllBlank env fallback_vars
        → IsValueOf env "DB_URL" url
        → is_local_host_url casing url ≡ true
        → Source url
    development :
        on_render env ≡ false
        → AllBlank env fallback_vars
        → is_nil (trim_space (runes (env "DB_URL"))) ≡ true
        → url ≡ development_url
        → Source url

  -- The outcome of `resolveDBURL`.
  abbrev pub Resolved : Result Runes → Type 0
  Resolved (ok url) = Source url
  Resolved (err e) =
      (on_render env ≡ true)
      × AllBlank env fallback_vars
      × ((is_nil (trim_space (runes (env "DB_URL"))) ≡ true)
          ⊎ (is_local_host_url casing (trim_space (runes (env "DB_URL"))) ≡ true))

  -- The server's address comes from `DB_URL`, or from the first fallback variable that is set where
  -- `DB_URL` is blank or names the server's own host. Only off Render, and with no fallback set, is
  -- it a local `DB_URL` or the development default; on Render the process then ends instead, and it
  -- ends in no other case.
  pub resolve_db_url-Resolved : Resolved (resolve_db_url casing env)
  unfolding resolve_db_url
  resolve_db_url-Resolved = elim (Bool-cases (is_nil (trim_space (runes (env "DB_URL"))))) [
    | inl blank ↦ elim (first_set_cases env fallback_vars) [
      | inr (url, found, is) ↦ rw (blank, found) (fallback (inl blank) is)
      | inl (none', all) ↦ elim (Bool-cases (on_render env)) [
        | inl render ↦ rw (blank, none', render) (render, all, inl blank)
        | inr off ↦ rw (blank, none', off) (development off all blank refl)
      ]
    ]
    | inr filled ↦
        elim (Bool-cases (is_local_host_url casing (trim_space (runes (env "DB_URL"))))) [
          | inr remote ↦ rw (filled, remote) (configured (filled, refl) remote)
          | inl here ↦ elim (first_set_cases env fallback_vars) [
            | inr (url, found, is) ↦ rw (filled, here, found) (fallback (inr here) is)
            | inl (none', all) ↦ elim (Bool-cases (on_render env)) [
              | inl render ↦ rw (filled, here, none', render) (render, all, inr here)
              | inr off ↦ rw (filled, here, none', off) (local off all (filled, refl) here)
            ]
          ]
        ]
  ]

  secret_accepted :
      32 ≤ byte_length (runes (env "JWT_SECRET")) → init_token_auth_from_env env ≡ ok tt
  unfolding init_token_auth_from_env init_token_auth byte_length
  secret_accepted long = elim (Bool-cases (str_eq (env "JWT_SECRET") "")) [
    | inl empty ↦
        let e = (eq_iff (env "JWT_SECRET") "").0 empty in
        let none_left : 32 ≤ byte_length (runes "") =
          subst (λ t. 32 ≤ byte_length (runes t)) e long in
        absurd (omega arith)
    | inr some_text ↦ ground arith
  ]

  secret_refused :
      ltb (byte_length (runes (env "JWT_SECRET"))) 32 ≡ true
      → (e : GoError) × (init_token_auth_from_env env ≡ err e)
  unfolding init_token_auth_from_env init_token_auth
  secret_refused short = elim (Bool-cases (str_eq (env "JWT_SECRET") "")) [
    | inl empty ↦ (message "JWT_SECRET environment variable is required", rw empty refl)
    | inr some_text ↦
        (message "JWT_SECRET must be at least 32 characters", rw (some_text, short) refl)
  ]

  -- The port to serve on: `PORT`, or 8080 where it is not set.
  abbrev pub configured_port : String
  configured_port = if str_eq (env "PORT") "" then "8080" else env "PORT"

  module _ (platform : Platform) where
    -- The database opens and answers at an address.
    abbrev pub Answers : Runes → Type 0
    Answers url = (platform.open_error url ≡ none) × (platform.ping_error url ≡ none)

    abbrev pub serving_at : Runes → Serving
    serving_at url = record {
      database = url;
      port = configured_port;
      cors = new_cors_handler casing (cors_options env);
    }

    module _ (serving : Serving) where
      abbrev pub Served : Type 0
      Served =
          (url : Runes) × (resolve_db_url casing env ≡ ok url)
          × Answers url
          × (platform.listen_error (":" <> configured_port) ≡ none)
          × (serving ≡ serving_at url)

      served :
          (r : Result Runes)
          → resolve_db_url casing env ≡ r
          → init_token_auth_from_env env ≡ ok tt
          → start casing platform env ≡ ok serving
          → Served
      unfolding start
      served (err e) resolved secret h = absurd (ground arith)
      served (ok url) resolved secret h = elim (Option-cases (platform.open_error url)) [
        | inr (e, closed) ↦ absurd (ground arith)
        | inl opened ↦ elim (Option-cases (platform.ping_error url)) [
          | inr (e, silent) ↦ absurd (ground arith)
          | inl pinged ↦ elim (Option-cases (platform.listen_error (":" <> configured_port))) [
            | inr (e, taken) ↦ absurd (ground arith)
            | inl listens ↦ (url, resolved, (opened, pinged), listens, ground arith)
          ]
        ]
      ]

      -- The process comes to serve, and not to an end with a message, exactly where the secret has 32
      -- bytes at least, the address of the database is resolved, the database opens and answers
      -- there, and `ListenAndServe` does not fail on `PORT`, or on 8080 where that is not set; it then
      -- serves from that database, on that port, with the CORS handler of its options.
      pub start_serves_iff :
          (start casing platform env ≡ ok serving)
          ↔ ((32 ≤ byte_length (runes (env "JWT_SECRET"))) × Served)
      unfolding start
      start_serves_iff = (
        λ h. elim (Bool-cases (ltb (byte_length (runes (env "JWT_SECRET"))) 32)) [
          | inl short ↦ let (e, refused) = secret_refused short in absurd (ground arith)
          | inr long ↦
              let enough : 32 ≤ byte_length (runes (env "JWT_SECRET")) = ground arith in
              (enough, served _ refl (secret_accepted enough) h)
        ],
        λ (long, (url, resolved, (opened, pinged), listens, same)).
            let secret = secret_accepted long in ground arith,
      )
