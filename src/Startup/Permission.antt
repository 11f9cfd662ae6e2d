-- ===== src/Startup/Permission.antt =====
-- Whom the server lets read its responses, by the environment that it was started in.
use double_entry_bank_go.Base.{Any, ◌≡◌, ◌≢◌, inl, inr, true, []}
use double_entry_bank_go.Runes.{Casing, to_lower}
use double_entry_bank_go.Headers.{CorsRequest, get, has, Headers}
use double_entry_bank_go.Headers.Values.{values}
use double_entry_bank_go.Cors.{new_cors_handler, handle, is_method_allowed}
use double_entry_bank_go.Cors.Matching.{Admits, is_origin_allowed_iff}
use double_entry_bank_go.Cors.Replies.{permission, asked_method}
use double_entry_bank_go.Cors.Permission.{handle_decides}
use double_entry_bank_go.Startup.{Env, cors_options, parse_allowed_origins}
use double_entry_bank_go.Startup.Origins.{parse_allowed_origins-AllTrimmed}

-- A response of the server that carries any permission answers a request that names its origin, and
-- one of the allowed origins, from `CORS_ALLOWED_ORIGINS` or the default, admits that origin, both
-- in small letters; the method that the request asks for is one that the server allows. The
-- response had no permission before the middleware.
pub permission_configured :
    (casing : Casing) (env : Env) (r : CorsRequest) (headers : Headers)
    → values permission headers ≡ []
    → values permission (handle casing (new_cors_handler casing (cors_options env)) r headers).0
      ≢ []
    → (has r "Origin" ≡ true)
      × Any
          (λ entry. Admits (to_lower casing entry) (to_lower casing (get r "Origin")))
          (parse_allowed_origins env)
      × (is_method_allowed casing
            (new_cors_handler casing (cors_options env))
            (asked_method casing (new_cors_handler casing (cors_options env)) r)
          ≡ true)
permission_configured casing env r headers before sent =
    elim (handle_decides casing (new_cors_handler casing (cors_options env)) r headers before) [
      | inr (_, nothing) ↦ absurd (sent nothing)
      | inl (p, _) ↦
          elim ((is_origin_allowed_iff casing (cors_options env) (get r "Origin")).0
            p.origin_allowed) [
              | inl none_listed ↦ absurd ((parse_allowed_origins-AllTrimmed env).0 none_listed)
              | inr admitted ↦ (p.origin_sent, admitted, p.method_allowed)
            ]
    ]
