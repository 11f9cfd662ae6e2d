-- ===== src/Tests/Api.antt =====
-- The theorems on the handlers at the small bank.
use double_entry_bank_go.Base.{
  arith, ◌≡◌, ◌↔◌, inl, inr, refl, true, false, none, some, String, List, [], ◌∷◌, str_eq, ltb,
  if◌then◌else◌,
}
use double_entry_bank_go.Errors.{SqlError}
use double_entry_bank_go.World.{tick}
use double_entry_bank_go.Service.Invariant.{IsLedger}
use double_entry_bank_go.Api.Json.{Field, Body}
use double_entry_bank_go.Api.Reply.{respond_error}
use double_entry_bank_go.Api.Auth.{
  Claim, Credentials, Jwt, verify_request, authenticator, from_context, user_claim,
}
use double_entry_bank_go.Api.Handling.{replied, goes_on, Server, Request, authenticate, need, ◌>>=◌}
use double_entry_bank_go.Api.Router.{Endpoint, Incoming, handler}
use double_entry_bank_go.Api.Requests.{serve_all, serve_all-IsLedger}
use double_entry_bank_go.Api.Movements.{withdraw_handler, transfer_handler}
use double_entry_bank_go.Api.Spending.{
  IsUnchangedOrAllowed, OwnWithdrawal, OwnTransfer, withdraw_handler_spends,
  transfer_handler_spends,
}
use double_entry_bank_go.Api.Denied.{foreign_account_refused}
use double_entry_bank_go.Api.Amount.{normalize_amount_input}
use double_entry_bank_go.Api.Amount.Accepted.{IsAmount, normalize_amount_input_iff}
use double_entry_bank_go.Api.Admission.{IsGood, presented, authenticator_admits}
use double_entry_bank_go.Tests.Tally.{tallies_laws}
use double_entry_bank_go.Tests.Bank.{backend, bank, account, tables-IsLedger}

-- A token is the text of its user's id, and expires at 1000.
abbrev pub tokens : Jwt
tokens = record {
  Token = String;
  Failure = Unit {0};
  parse = λ t. if str_eq t "forged" then inl tt else inr (some t);
  validate = λ now t. if ltb now 1000 then none else some tt;
  is_expired = λ e. true;
  is_invalid_issued_at = λ e. false;
  is_not_yet_valid = λ e. false;
  as_map = λ t. inr (("user_id", Claim.text t) ∷ []);
  empty = "";
  set = λ name value t. elim value [
    | Claim.text u ↦ some u
    | Claim.number n ↦ some t
    | Claim.other ↦ none
  ];
  sign = λ t. some t;
}

abbrev pub server : Server
server = record {
  backend = backend;
  jwt = tokens;
  generate_from_password = λ n password. some "#";
  compare_hash_and_password = λ hash password. str_eq hash "#";
  sql_text = λ e. "pq: error";
  context_text = "context canceled";
  zero_time = 0;
  unix = λ n. n;
  atoi = λ t. none;
}

abbrev pub cookie : Credentials
cookie = record { authorization = ""; cookie = some "user-5" }

abbrev pub incoming : Endpoint → String → Incoming
incoming e id = record {
  endpoint = e;
  credentials = cookie;
  id = id;
  limit = "";
  offset = "";
  body = Body.object (("amount", Field.text "+xx") ∷ []);
}

abbrev requests : List Incoming
requests = incoming Endpoint.deposit_route "one" ∷ incoming Endpoint.withdraw_route "two" ∷ []

serve_all-IsLedger_example : IsLedger (serve_all server tallies_laws requests bank).db
serve_all-IsLedger_example = serve_all-IsLedger server tallies_laws requests bank tables-IsLedger

-- User 5 asks for account 2, which is user 6's.
abbrev pub for_two : Request server
for_two = record {
  verified = (some "user-5", none);
  id = "two";
  limit = "";
  offset = "";
  body = Body.object (("amount", Field.text "+xx") ∷ []);
}

for_two_caller : authenticate server for_two bank ≡ (goes_on 5, bank)
unfolding authenticate from_context user_claim need ◌>>=◌
for_two_caller = refl

foreign_account_refused_example :
    (backend.fault 0 ≡ none
      → handler server Endpoint.withdraw_route for_two bank
        ≡ (replied (respond_error 403 "access denied"), tick bank))
    × ((fault : SqlError)
        → backend.fault 0 ≡ some fault
        → handler server Endpoint.withdraw_route for_two bank
          ≡ (replied (respond_error 404 "account not found"), tick bank))
foreign_account_refused_example =
    foreign_account_refused server 5 2 6 (account 2 6 3) bank refl refl (omega arith) for_two
      for_two_caller refl Endpoint.withdraw_route refl

authenticator_admits_example :
    (authenticator tokens (verify_request tokens 7 cookie) ≡ none)
    ↔ ((str_eq (presented tokens cookie) "" ≡ false) × IsGood tokens 7 (presented tokens cookie))
authenticator_admits_example = authenticator_admits tokens 7 cookie

normalize_amount_input_iff_example :
    (normalize_amount_input (Field.text "  12.5 ") ≡ some "12.5")
    ↔ IsAmount (Field.text "  12.5 ") "12.5"
normalize_amount_input_iff_example = normalize_amount_input_iff (Field.text "  12.5 ") "12.5"

-- User 5 takes money out of account 1, which is theirs, and sends some from it to account 2.
abbrev withdrawal : Request server
withdrawal = record {
  verified = (some "user-5", none);
  id = "one";
  limit = "";
  offset = "";
  body = Body.object (("amount", Field.text "+xx") ∷ []);
}

abbrev transfer_request : Request server
transfer_request = record {
  verified = (some "user-5", none);
  id = "";
  limit = "";
  offset = "";
  body = Body.object (
      ("from_id", Field.text "one")
      ∷ ("to_id", Field.text "two")
      ∷ ("amount", Field.text "+xx")
      ∷ []);
}

withdrawal_caller : authenticate server withdrawal bank ≡ (goes_on 5, bank)
unfolding authenticate from_context user_claim need ◌>>=◌
withdrawal_caller = refl

transfer_request_caller : authenticate server transfer_request bank ≡ (goes_on 5, bank)
unfolding authenticate from_context user_claim need ◌>>=◌
transfer_request_caller = refl

withdraw_handler_spends_example :
    IsUnchangedOrAllowed
      (OwnWithdrawal server 5 bank.db)
      bank.db
      (withdraw_handler server withdrawal bank).1
withdraw_handler_spends_example = withdraw_handler_spends server 5 withdrawal bank withdrawal_caller

transfer_handler_spends_example :
    IsUnchangedOrAllowed
      (OwnTransfer server 5 bank.db)
      bank.db
      (transfer_handler server transfer_request bank).1
transfer_handler_spends_example =
    transfer_handler_spends server 5 transfer_request bank transfer_request_caller
