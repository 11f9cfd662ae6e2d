-- ===== src/Docs.antt =====
-- docs/docs.go: the document of the interface that the server publishes, as data. `$ref` names a
-- definition without its prefix.
pub mod Accounts
pub mod Payments
pub mod Others
pub mod Operations
pub mod Conformance
pub mod Steps
pub mod Bodies
pub mod Listed
pub mod Replies
pub mod Served
use double_entry_bank_go.Base.{ℕ, Bool, String, List, [], ◌∷◌}

pub data Primitive : Type 0 where
  string integer boolean : Primitive

-- The schemas that the document uses: a primitive type, an object with its properties, a definition,
-- and an array of a definition.
pub data Schema : Type 0 where
  simple : Primitive → Schema
  object_of : List (String × Primitive) → Schema
  reference list_of : String → Schema

pub data Place : Type 0 where
  in_path in_query in_body : Place

pub record Parameter : Type 0 where
  pub place : Place
  pub name : String
  pub description : String
  pub required : Bool
  pub schema : Schema

pub record Response : Type 0 where
  pub status : ℕ
  pub description : String
  pub schema : Schema

-- One method of one path. `secured` stands for the security requirement `Bearer`.
pub record Operation : Type 0 where
  pub path : String
  pub method : String
  pub secured : Bool
  pub description : String
  pub consumes : List String
  pub produces : List String
  pub tags : List String
  pub summary : String
  pub parameters : List Parameter
  pub responses : List Response

-- A response with an `api.ErrorResponse`.
abbrev pub failure : ℕ → String → Response
failure status description = record {
  status = status;
  description = description;
  schema = reference "api.ErrorResponse";
}

-- The properties of `api.AccountResponse` and of `api.EntryResponse`.
abbrev pub account_properties : List (String × Primitive)
account_properties =
    ("balance", string)
    ∷ ("created_at", string)
    ∷ ("currency", string)
    ∷ ("id", string)
    ∷ ("is_system", boolean)
    ∷ ("name", string)
    ∷ ("owner_id", string)
    ∷ []

abbrev pub entry_properties : List (String × Primitive)
entry_properties =
    ("account_id", string)
    ∷ ("created_at", string)
    ∷ ("credit", string)
    ∷ ("debit", string)
    ∷ ("description", string)
    ∷ ("id", string)
    ∷ ("operation_type", string)
    ∷ ("transaction_id", string)
    ∷ []

-- `definitions`
abbrev pub api_definitions : List (String × List (String × Primitive))
api_definitions =
    ("api.AccountResponse", account_properties)
    ∷ ("api.EntryResponse", entry_properties)
    ∷ ("api.ErrorResponse", ("error", string) ∷ [])
    ∷ ("api.MessageResponse", ("message", string) ∷ [])
    ∷ ("api.ReconcileResponse", ("matched", boolean) ∷ ("message", string) ∷ [])
    ∷ ("api.RegisterResponse", ("email", string) ∷ ("token", string) ∷ ("user_id", string) ∷ [])
    ∷ ("api.TokenResponse", ("token", string) ∷ [])
    ∷ []
