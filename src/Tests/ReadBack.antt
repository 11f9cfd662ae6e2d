-- ===== src/Tests/ReadBack.antt =====
-- A new account at the small bank.
use double_entry_bank_go.Base.{◌≡◌, refl, some, none, str_eq, [], ◌∷◌, if◌then◌else◌}
use double_entry_bank_go.World.{Backend, World, tick}
use double_entry_bank_go.Api.Json.{Field, Body, fields, text_field, names}
use double_entry_bank_go.Api.Reply.{account_response}
use double_entry_bank_go.Api.Auth.{from_context, user_claim}
use double_entry_bank_go.Api.Handling.{Server, Request, replied, goes_on, authenticate, need, ◌>>=◌}
use double_entry_bank_go.Api.Accounts.{create_account_handler, get_account_handler}
use double_entry_bank_go.Api.ReadBack.{opened, opened_account, create_then_get}
use double_entry_bank_go.Tests.Bank.{parse_id, backend, bank}
use double_entry_bank_go.Tests.Api.{server}

-- The bank's next identifier, 100, is read back.
abbrev reading_backend : Backend
reading_backend = record backend {
  uuid_parse = λ t. if str_eq t "new" then some 100 else parse_id t;
}

abbrev reading_server : Server
reading_server = record server { backend = reading_backend }

abbrev opening : Request reading_server
opening = record {
  verified = (some "user-5", none);
  id = "";
  limit = "";
  offset = "";
  body = Body.object (("name", Field.text "Holidays") ∷ []);
}

abbrev looking : Request reading_server
looking = record {
  verified = (some "user-5", none);
  id = "new";
  limit = "";
  offset = "";
  body = Body.object [];
}

abbrev after : World
after = opened reading_server 5 "Holidays" bank

opening_caller : authenticate reading_server opening bank ≡ (goes_on 5, bank)
unfolding authenticate from_context user_claim need ◌>>=◌
opening_caller = refl

looking_caller : authenticate reading_server looking after ≡ (goes_on 5, after)
unfolding authenticate from_context user_claim need ◌>>=◌
looking_caller = refl

has_name : text_field "name" "" (("name", Field.text "Holidays") ∷ []) ≡ some "Holidays"
unfolding text_field names
has_name = refl

has_fields : fields opening.body ≡ some (("name", Field.text "Holidays") ∷ [])
has_fields = refl

create_then_get_example :
    (create_account_handler reading_server opening bank ≡ (
      replied (record {
        status = 201;
        body = account_response (opened_account reading_server 5 "Holidays" bank);
      }),
      after,
    ))
    × (get_account_handler reading_server looking after ≡ (
      replied (record {
        status = 200;
        body = account_response (opened_account reading_server 5 "Holidays" bank);
      }),
      tick after,
    ))
create_then_get_example =
    create_then_get reading_server 5 "Holidays" bank opening looking
      (("name", Field.text "Holidays") ∷ []) opening_caller has_fields has_name refl refl refl refl
      looking_caller refl refl
