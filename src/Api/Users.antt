-- ===== src/Api/Users.antt =====
-- internal/api/handler.go: Register and Login, and the token that they return.
use double_entry_bank_go.Base.{◌+◌, ◌*◌, ◌||◌, not, String, str_eq}
use double_entry_bank_go.World.{Uuid}
use double_entry_bank_go.Sqlc.Users.{create_user, get_user_by_email}
use double_entry_bank_go.Api.Json.{fields, text_field}
use double_entry_bank_go.Api.Reply.{respond_error, register_response, token_response}
use double_entry_bank_go.Api.Auth.{encode, user_claims, text_of_token}
use double_entry_bank_go.Api.Handling.{
  Handling, Ending, ◌>>=◌, ◌>>◌, respond, refuse_if, need, next_call, call, Server, Request,
}

module _ (s : Server) where
  open s use {backend as b, jwt}

  -- `GenerateToken`: it names the user and lasts for 24 hours. `TokenAuth` is set when the server
  -- starts, so it is not nil here.
  unfoldable pub generate_token : Uuid → Handling String
  generate_token user_id = do
    n ← next_call
    need
        (text_of_token jwt
          (encode jwt (user_claims (b.uuid_string user_id) (s.unix n + 24 * 3600))))
        500 "failed to generate token"

  -- The randomness of bcrypt's salt.
  unfoldable pub hash_password : String → Handling String
  hash_password password = do
    n ← next_call
    need (s.generate_from_password n password) 500 "failed to hash password"

  unfoldable pub register : Request s → Ending
  register r = do
    ps ← need (fields r.body) 400 "invalid input"
    email ← need (text_field "email" "" ps) 400 "invalid input"
    password ← need (text_field "password" "" ps) 400 "invalid input"
    refuse_if (str_eq email "" || str_eq password "") 400 "email and password required"
    hashed ← hash_password password
    user ←
        call (create_user b (record { email = email; hashed_password = hashed }))
          (λ e. respond_error 409 "user already exists or failed")
    token ← generate_token user.id
    respond (record {
      status = 201;
      body =
          register_response
            (record { user_id = b.uuid_string user.id; email = user.email; token = token });
    })

  unfoldable pub login : Request s → Ending
  login r = do
    ps ← need (fields r.body) 400 "invalid input"
    email ← need (text_field "email" "" ps) 400 "invalid input"
    password ← need (text_field "password" "" ps) 400 "invalid input"
    user ← call (get_user_by_email b email) (λ e. respond_error 401 "invalid credentials")
    refuse_if (not (s.compare_hash_and_password user.hashed_password password)) 401
        "invalid credentials"
    token ← generate_token user.id
    respond (record { status = 200; body = token_response token })
