-- ===== src/Http.antt =====
-- cmd/main.go, newRouter: the table of routes, the middleware in front of every request, and the
-- answers of the router itself.
pub mod Allow
pub mod Routes
pub mod Kept
pub mod Answers
pub mod Deployed
use double_entry_bank_go.Base.{
  ℕ, ◌+◌, Bool, true, false, ◌≡◌, String, str_eq, List, [], ◌∷◌, Option, none, some, if◌then◌else◌,
}
use double_entry_bank_go.World.{World, tick}
use double_entry_bank_go.Runes.{Runes, runes, Casing, is_nil, join, split_on}
use double_entry_bank_go.Headers.{CorsRequest, Headers, add, del, set, value_of}
use double_entry_bank_go.Cors.{CorsHandler, handle}
use double_entry_bank_go.Startup.{request_id}
use double_entry_bank_go.Api.Json.{Body}
use double_entry_bank_go.Api.Reply.{Payload}
use double_entry_bank_go.Api.Auth.{Credentials}
use double_entry_bank_go.Api.Handling.{Server, Outcome, replied, goes_on}
use double_entry_bank_go.Api.Router.{
  Endpoint, register_route, login_route, create_account_route, list_accounts_route,
  get_account_route, deposit_route, withdraw_route, transfer_route, entries_route, reconcile_route,
  transactions_route, Incoming, serve,
}

-- What a route is registered with: a handler of the store, or the health report, or the pages of
-- http-swagger.
pub data Target : Type 0 where
  endpoint : Endpoint → Target
  health swagger : Target

pub record Route : Type 0 where
  pub method : Runes
  pub path : String
  pub target : Target

abbrev pub get_of : String → Target → Route
get_of path target = record { method = runes "GET"; path = path; target = target }

abbrev pub post_of : String → Target → Route
post_of path target = record { method = runes "POST"; path = path; target = target }

-- The public routes, then the protected ones.
abbrev pub routes : List Route
routes =
    post_of "/register" (endpoint register_route)
    ∷ post_of "/login" (endpoint login_route)
    ∷ get_of "/health" health
    ∷ get_of "/swagger/*any" swagger
    ∷ post_of "/accounts" (endpoint create_account_route)
    ∷ get_of "/accounts" (endpoint list_accounts_route)
    ∷ get_of "/accounts/:id" (endpoint get_account_route)
    ∷ post_of "/accounts/:id/deposit" (endpoint deposit_route)
    ∷ post_of "/accounts/:id/withdraw" (endpoint withdraw_route)
    ∷ post_of "/transfers" (endpoint transfer_route)
    ∷ get_of "/accounts/:id/entries" (endpoint entries_route)
    ∷ get_of "/accounts/:id/reconcile" (endpoint reconcile_route)
    ∷ get_of "/transactions/:id" (endpoint transactions_route)
    ∷ []

-- What gin finds for a method and a path: a route with the parameter `id`, or that the path is
-- registered with other methods only, which it lists, or nothing.
pub data Matched : Type 0 where
  found : Route → String → Matched
  wrong_method : List Runes → Matched
  missing : Matched

-- gin's tree of routes, without the two redirections and with `HandleMethodNotAllowed`, and
-- http-swagger's status for a path.
pub record Gin : Type 0 where
  pub find : List Route → Runes → String → Matched
  pub swagger_status : String → ℕ

-- A request. The header X-Request-Id and the credentials are given as texts.
pub record Arrival : Type 0 where
  pub cors : CorsRequest
  pub x_request_id : String
  pub path : String
  pub credentials : Credentials
  pub limit : String
  pub offset : String
  pub body : Body

-- What is written below the headers.
pub data Content : Type 0 where
  payload : Payload → Content
  -- The three fields of the health report.
  health_report : List (String × String) → Content
  -- The text of `http.NotFound`, a page of http-swagger, and nothing.
  not_found swagger_page empty : Content

-- The headers are those that the router and the CORS middleware set. `logged` is the identifier and
-- the path of the line "Request received".
pub record Answer : Type 0 where
  pub status : ℕ
  pub headers : Headers
  pub content : Content
  pub logged : Option (String × String)

-- gin's header for a path that is registered with other methods.
unfoldable pub initial_headers : Matched → Headers
initial_headers (found route id) = []
initial_headers (wrong_method methods) = set "Allow" (join (runes ", ") methods) []
initial_headers missing = []

-- The loop of the `NoMethod` handler: one header for each method.
unfoldable pub add_allowed : List Runes → Headers → Headers
add_allowed [] headers = headers
add_allowed (method ∷ methods) headers = add_allowed methods (add "Allow" method headers)

-- The `NoMethod` handler's headers.
unfoldable pub spread_allow : Headers → Headers
spread_allow headers =
    let allow = value_of "Allow" headers in
    if is_nil allow
    then headers
    else add_allowed (split_on (runes ", ") allow) (del "Allow" headers)

abbrev pub to_incoming : Arrival → Endpoint → String → Incoming
to_incoming a e id = record {
  endpoint = e;
  credentials = a.credentials;
  id = id;
  limit = a.limit;
  offset = a.offset;
  body = a.body;
}

module _ (s : Server) (casing : Casing) (cors : CorsHandler) (gin : Gin) (uptime : ℕ → String) where
  open s use {backend as b}

  -- `requestID`
  unfoldable pub identify : Arrival → World → String × World
  identify a w = (
    request_id a.x_request_id (b.uuid_string (b.new_uuid w.calls)),
    if str_eq a.x_request_id "" then tick w else w,
  )

  -- What is sent once the request is logged.
  abbrev pub sends : Arrival → String → ℕ → Headers → Content → Answer
  sends a id status headers content = record {
    status = status;
    headers = headers;
    content = content;
    logged = some (id, a.path);
  }

  -- The handler of a route behind the middleware; a handler that wrote nothing would send 200.
  unfoldable pub run_target : Arrival → String → Target → String → Headers → World → Answer × World
  run_target a id (endpoint e) param headers w =
      let (o, w') = serve s (to_incoming a e param) w in
      elim o [
        | replied r ↦ (sends a id r.status headers (payload r.body), w')
        | goes_on _ ↦ (sends a id 200 headers empty, w')
      ]
  run_target a id health param headers w = (
    sends a id 200 (set "Content-Type" (runes "application/json") headers) (
        health_report
          (("status", "healthy") ∷ ("version", "0.1.0") ∷ ("uptime", uptime w.calls) ∷ [])),
    tick w,
  )
  run_target a id swagger param headers w =
      (sends a id (gin.swagger_status a.path) headers swagger_page, w)

  -- Once the middleware has let the request through.
  unfoldable pub dispatch : Arrival → String → Matched → Headers → World → Answer × World
  dispatch a id (found route param) headers w = run_target a id route.target param headers w
  dispatch a id (wrong_method methods) headers w = (sends a id 405 (spread_allow headers) empty, w)
  dispatch a id missing headers w = (sends a id 404 headers not_found, w)

  -- One request: its identifier, the CORS middleware, which ends a preflight, and the handler.
  unfoldable pub answer : Arrival → World → Answer × World
  answer a w =
      let (id, w') = identify a w in
      let matched = gin.find routes a.cors.method a.path in
      let (headers, ended) = handle casing cors a.cors (initial_headers matched) in
      if ended
      then (record { status = 200; headers = headers; content = empty; logged = none }, w')
      else dispatch a id matched headers w'

  -- The requests one after another.
  unfoldable pub answer_all : List Arrival → World → World
  answer_all [] w = w
  answer_all (a ∷ as') w = answer_all as' (answer a w).1
