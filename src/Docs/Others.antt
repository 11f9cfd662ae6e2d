-- ===== src/Docs/Others.antt =====
-- docs/docs.go: the operations on users and transactions.
use double_entry_bank_go.Base.{true, false, [], ◌∷◌}
use double_entry_bank_go.Docs.{
  string, simple, object_of, reference, list_of, in_path, in_body, Operation, failure,
}

-- `post /register`
abbrev pub register_operation : Operation
register_operation = record {
  path = "/register";
  method = "post";
  secured = false;
  description =
      "Creates a new user with email and hashed password, returns user details and JWT token";
  consumes = "application/json" ∷ [];
  produces = "application/json" ∷ [];
  tags = "auth" ∷ [];
  summary = "Register a new user";
  parameters =
      record {
        place = in_body;
        name = "body";
        description = "User registration details";
        required = true;
        schema = object_of (("email", string) ∷ ("password", string) ∷ []);
      }
      ∷ [];
  responses =
      record { status = 201; description = "Created"; schema = reference "api.RegisterResponse" }
      ∷ failure 400 "Bad Request"
      ∷ failure 409 "Conflict"
      ∷ failure 500 "Internal Server Error"
      ∷ [];
}

-- `post /login`
abbrev pub login_operation : Operation
login_operation = record {
  path = "/login";
  method = "post";
  secured = false;
  description = "Authenticates user with email/password and returns JWT token";
  consumes = "application/json" ∷ [];
  produces = "application/json" ∷ [];
  tags = "auth" ∷ [];
  summary = "Login user";
  parameters =
      record {
        place = in_body;
        name = "body";
        description = "User login details";
        required = true;
        schema = object_of (("email", string) ∷ ("password", string) ∷ []);
      }
      ∷ [];
  responses =
      record { status = 200; description = "OK"; schema = reference "api.TokenResponse" }
      ∷ failure 400 "Bad Request"
      ∷ failure 401 "Unauthorized"
      ∷ failure 500 "Internal Server Error"
      ∷ [];
}

-- `get /transactions/{id}`
abbrev pub transactions_operation : Operation
transactions_operation = record {
  path = "/transactions/{id}";
  method = "get";
  secured = true;
  description = "Returns both entries (debit and credit) for a complete transaction view";
  consumes = [];
  produces = "application/json" ∷ [];
  tags = "accounts" ∷ [];
  summary = "Get transaction details";
  parameters =
      record {
        place = in_path;
        name = "id";
        description = "Transaction ID";
        required = true;
        schema = simple string;
      }
      ∷ [];
  responses =
      record { status = 200; description = "OK"; schema = list_of "api.EntryResponse" }
      ∷ failure 400 "Bad Request"
      ∷ failure 401 "Unauthorized"
      ∷ failure 403 "Forbidden"
      ∷ failure 404 "Not Found"
      ∷ failure 500 "Internal Server Error"
      ∷ [];
}
