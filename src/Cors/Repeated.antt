-- ===== src/Cors/Repeated.antt =====
-- The header Access-Control-Allow-Headers of a reply to a preflight.
use double_entry_bank_go.Base.{◌≡◌, ◌⊎◌, String, List, [], ◌∷◌}
use double_entry_bank_go.Runes.{Runes, Casing}
use double_entry_bank_go.Headers.{CorsRequest, Headers}
use double_entry_bank_go.Cors.{CorsHandler, requested, parse_cors_header_list}

abbrev pub repeated : String
repeated = "Access-Control-Allow-Headers"

module _ (casing : Casing) (c : CorsHandler) (r : CorsRequest) where
  -- What the reply holds under the name: nothing where the request asks for no header, and otherwise
  -- one text, which reads back as the list that the request asks for.
  abbrev pub Repeats : List Runes → Type 0
  Repeats held =
      ((requested casing c r ≡ []) × (held ≡ []))
      ⊎ ((value : Runes) × (held ≡ value ∷ [])
          × (parse_cors_header_list value ≡ requested casing c r))
