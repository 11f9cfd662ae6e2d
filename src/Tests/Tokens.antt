-- ===== src/Tests/Tokens.antt =====
-- A token that comes back.
use double_entry_bank_go.Base.{◌+◌, ◌*◌, ◌≡◌, refl, true, false, none, some, String, str_eq}
use double_entry_bank_go.World.{World, tick}
use double_entry_bank_go.Api.Auth.{
  Credentials, verify_request, authenticator, find_token, token_from_header, token_from_cookie,
  after_prefix, encode, set_claims,
}
use double_entry_bank_go.Api.Admission.{presented}
use double_entry_bank_go.Api.Handling.{
  Server, Request, goes_on, authenticate, ◌>>=◌, next_call, need,
}
use double_entry_bank_go.Api.Users.{generate_token}
use double_entry_bank_go.Api.Tokens.{given_token_returns}
use double_entry_bank_go.Tests.Bank.{backend, bank}
use double_entry_bank_go.Tests.Stamps.{write_token, written, tokens, laws}

abbrev server : Server
server = record {
  backend = backend;
  jwt = tokens;
  generate_from_password = λ n password. some "#";
  compare_hash_and_password = λ hash password. str_eq hash "#";
  sql_text = λ e. "pq: error";
  context_text = "context canceled";
  zero_time = 0;
  unix = λ n. n;
  atoi = λ t. none;
}

-- The token of user 1, given out at second 0.
given : String
given = write_token (0 + 24 * 3600) "one"

user_given : generate_token server 1 bank ≡ (goes_on given, tick bank)
unfolding generate_token encode set_claims next_call need ◌>>=◌ given
user_given = refl

abbrev cookie : Credentials
cookie = record { authorization = ""; cookie = some given }

cookie_presents : presented tokens cookie ≡ given
unfolding find_token token_from_header token_from_cookie after_prefix given
cookie_presents = let e = written (0 + 24 * 3600) "one" in rw e refl

given_token_returns_example :
    (true ≡ true
      → (authenticator tokens (verify_request tokens 50 cookie) ≡ none)
        × ((q : Request server)
            → q.verified ≡ verify_request tokens 50 cookie
            → (w2 : World) → authenticate server q w2 ≡ (goes_on 1, w2)))
    × (true ≡ false
        → authenticator tokens (verify_request tokens 50 cookie) ≡ some "token is expired")
given_token_returns_example =
    given_token_returns server laws 1 refl bank (tick bank) given refl user_given 50 cookie
      cookie_presents
