-- ===== src/Tests/Http.antt =====
-- The router, the document and the migrations at the small bank.
use double_entry_bank_go.Base.{
  ◌≡◌, ◌≢◌, ◌⊎◌, refl, true, false, none, str_eq, String, List, [], ◌∷◌, inl, if◌then◌else◌, any, ℕ,
}
use double_entry_bank_go.Errors.{ok}
use double_entry_bank_go.World.{Db, World}
use double_entry_bank_go.Runes.{Runes, runes, same}
use double_entry_bank_go.Headers.Values.{values}
use double_entry_bank_go.Cors.{CorsHandler, new_cors_handler, is_preflight}
use double_entry_bank_go.Sqlc.Tables.{is_settlement}
use double_entry_bank_go.Sqlc.Migrations.{absent, present, migrate_up}
use double_entry_bank_go.Service.Invariant.{IsLedger}
use double_entry_bank_go.Api.Json.{Field, Body}
use double_entry_bank_go.Api.Reply.{Reply, Payload}
use double_entry_bank_go.Api.Auth.{
  from_context, user_claim, verify_request, find_token, token_from_header, after_prefix,
  token_from_cookie, verify_token, authenticator,
}
use double_entry_bank_go.Api.Handling.{
  Outcome, replied, goes_on, authenticate, authorize, denied, need, call, refuse_if, next_call,
  ◌>>=◌, ◌>>◌,
}
use double_entry_bank_go.Api.Listing.{get_entries, page_limit, page_offset}
use double_entry_bank_go.Sqlc.Accounts.{get_account}
use double_entry_bank_go.Sqlc.Entries.{list_entries_by_account}
use double_entry_bank_go.Api.Router.{Endpoint, Incoming, serve, guarded}
use double_entry_bank_go.Api.Disclosed.{ShowsOwn}
use double_entry_bank_go.Api.Callers.{is_refusal, IsCaller, serve-ShowsOwn}
use double_entry_bank_go.Docs.Served.{is_expected, serve-documented}
use double_entry_bank_go.Service.Migrated.{migrate_up_again}
use double_entry_bank_go.Http.{Arrival, Answer, empty, wrong_method, answer, answer_all}
use double_entry_bank_go.Http.Kept.{answer_reads}
use double_entry_bank_go.Http.Answers.{matched_of, answer_preflight, answer_wrong_method}
use double_entry_bank_go.Http.Deployed.{deployed-IsLedger}
use double_entry_bank_go.Tests.Tally.{tallies_laws}
use double_entry_bank_go.Tests.Bank.{bank, tables, tables-IsLedger}
use double_entry_bank_go.Tests.Api.{server, cookie, incoming}
use double_entry_bank_go.Tests.Cors.{plain, options}
use double_entry_bank_go.Tests.Gin.{literal_gin, literal_laws}

abbrev cors : CorsHandler
cors = new_cors_handler plain options

abbrev uptime : ℕ → String
uptime n = "1s"

abbrev time_text : ℕ → String
time_text t = "2026-01-01T00:00:00Z"

abbrev arrival : Runes → String → Arrival
arrival method path = record {
  cors = record {
    method = method;
    header = λ name.
        if str_eq name "Origin"
        then runes "https://dev.golangbank.app" ∷ []
        else if str_eq name "Access-Control-Request-Method"
        then runes "GET" ∷ []
        else [];
  };
  x_request_id = "";
  path = path;
  credentials = cookie;
  limit = "";
  offset = "";
  body = Body.object (("amount", Field.text "+xx") ∷ []);
}

serve-documented_example :
    (reply : Reply) × ((serve server (incoming Endpoint.deposit_route "one") bank).0
      ≡ replied reply)
    × (is_expected time_text Endpoint.deposit_route reply ≡ true)
serve-documented_example =
    serve-documented time_text server (incoming Endpoint.deposit_route "one") bank

no_post : runes "GET" ≢ runes "POST"
no_post h = cc

answer_reads_example :
    (answer server plain cors literal_gin uptime
      (arrival (runes "GET") "/accounts/:id/entries")
      bank).1.db
    ≡ bank.db
answer_reads_example =
    answer_reads server plain cors literal_gin uptime literal_laws
      (arrival (runes "GET") "/accounts/:id/entries") bank no_post

is_asked : is_preflight plain cors (arrival (runes "OPTIONS") "/accounts").cors ≡ true
unfolding is_preflight same
is_asked = refl

abbrev preflight_answer : Answer × World
preflight_answer =
    answer server plain cors literal_gin uptime (arrival (runes "OPTIONS") "/accounts") bank

answer_preflight_example :
    (preflight_answer.0.status ≡ 200)
    × (preflight_answer.0.content ≡ empty)
    × (preflight_answer.0.logged ≡ none)
    × (values "Allow" preflight_answer.0.headers ≡ [])
    × (preflight_answer.1.db ≡ bank.db)
answer_preflight_example =
    answer_preflight server plain cors literal_gin uptime (arrival (runes "OPTIONS") "/accounts")
      bank is_asked

is_plain : is_preflight plain cors (arrival (runes "PUT") "/accounts").cors ≡ false
unfolding is_preflight same
is_plain = refl

abbrev listed : List Runes
listed = runes "POST" ∷ runes "GET" ∷ []

is_listed :
    matched_of server plain cors literal_gin uptime (arrival (runes "PUT") "/accounts")
    ≡ wrong_method listed
unfolding same
is_listed = refl

abbrev put_answer : Answer × World
put_answer = answer server plain cors literal_gin uptime (arrival (runes "PUT") "/accounts") bank

answer_wrong_method_example :
    (put_answer.0.status ≡ 405)
    × (put_answer.0.content ≡ empty)
    × (values "Allow" put_answer.0.headers ≡ listed)
    × (put_answer.1.db ≡ bank.db)
answer_wrong_method_example =
    answer_wrong_method server plain cors literal_gin uptime literal_laws
      (arrival (runes "PUT") "/accounts") bank listed is_plain is_listed

abbrev arrivals : List Arrival
arrivals = arrival (runes "POST") "/accounts/:id/deposit" ∷ arrival (runes "GET") "/nowhere" ∷ []

deployed-IsLedger_example :
    (db : Db) × (migrate_up 9 0 absent ≡ ok (present db))
    × IsLedger
        (answer_all server plain cors literal_gin uptime arrivals
          (record { db = db; calls = 0; slept = 0 })).db
deployed-IsLedger_example =
    deployed-IsLedger server plain cors literal_gin uptime tallies_laws 9 0 arrivals 0 0

-- User 5 lists the entries of account 1, which is theirs.
abbrev listing : Incoming
listing = incoming Endpoint.entries_route "one"

abbrev reply_of : Outcome Unit → Reply
reply_of (replied reply) = reply
reply_of (goes_on _) = record { status = 0; body = Payload.message_response "" }

abbrev entries_reply : Reply
entries_reply = reply_of (serve server listing bank).0

is_sent : (serve server listing bank).0 ≡ replied entries_reply
unfolding serve guarded next_call verify_request find_token token_from_header after_prefix
    token_from_cookie verify_token authenticator get_entries authenticate from_context user_claim
    need authorize denied call refuse_if ◌>>=◌ ◌>>◌ get_account list_entries_by_account page_limit
    page_offset
is_sent = refl

serve-ShowsOwn_example :
    (is_refusal entries_reply.body ≡ true)
    ⊎ ((user : ℕ) × IsCaller server listing bank user
        × ShowsOwn server user tables entries_reply.body)
serve-ShowsOwn_example = serve-ShowsOwn server listing bank entries_reply refl refl is_sent

migrate_up_again_example :
    (db : Db) × (migrate_up 7 1 (present tables) ≡ ok (present db))
    × IsLedger db
    × (any is_settlement db.accounts ≡ true)
    × (db.entries ≡ tables.entries)
    × (db.users ≡ tables.users)
migrate_up_again_example = migrate_up_again 7 1 tables tables-IsLedger (inl refl)
