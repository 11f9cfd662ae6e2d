-- ===== src/Api/Reply.antt =====
-- internal/api/dto.go, mapper.go and response.go: the bodies of the replies.
use double_entry_bank_go.Base.{ℕ, Bool, String, List, Option, none, some}
use double_entry_bank_go.World.{Uuid, Time}
use double_entry_bank_go.Sqlc.Models.{Account, Entry}

pub record AccountResponse : Type 0 where
  pub id : String
  pub name : String
  pub balance : String
  pub currency : String
  pub owner_id : Option String
  pub created_at : Time
  pub is_system : Bool

pub record EntryResponse : Type 0 where
  pub created_at : Time
  pub id : String
  pub account_id : String
  pub debit : String
  pub credit : String
  pub transaction_id : String
  pub operation_type : String
  pub description : String

pub record RegisterResponse : Type 0 where
  pub user_id : String
  pub email : String
  pub token : String

-- The value that a handler encodes, or the plain text of `http.Error`.
pub data Payload : Type 0 where
  error_response token_response message_response plain_text : String → Payload
  register_response : RegisterResponse → Payload
  account_response : AccountResponse → Payload
  account_list : List AccountResponse → Payload
  entry_list : List EntryResponse → Payload
  reconcile_response : Bool → String → Payload

-- `respondJSON`
pub record Reply : Type 0 where
  pub status : ℕ
  pub body : Payload

-- `respondError`
abbrev pub respond_error : ℕ → String → Reply
respond_error status text = record { status = status; body = error_response text }

-- The time of a `sql.NullTime`, which is the zero time for NULL.
abbrev time_of : Time → Option Time → Time
time_of zero_time none = zero_time
time_of zero_time (some t) = t

module _ (uuid_string : Uuid → String) (zero_time : Time) where
  -- `toAccountResponse`
  unfoldable pub to_account_response : Account → AccountResponse
  to_account_response acc = record {
    id = uuid_string acc.id;
    owner_id = elim acc.owner_id [ none ↦ none | some owner ↦ some (uuid_string owner) ];
    name = acc.name;
    balance = acc.balance;
    currency = acc.currency;
    is_system = acc.is_system;
    created_at = time_of zero_time acc.created_at;
  }

  -- `toEntryResponse`; `operationTypeToString` gives the text of the enum whichever way it arrives.
  unfoldable pub to_entry_response : Entry → EntryResponse
  to_entry_response entry = record {
    id = uuid_string entry.id;
    account_id = uuid_string entry.account_id;
    debit = entry.debit;
    credit = entry.credit;
    transaction_id = uuid_string entry.transaction_id;
    operation_type = entry.operation_type;
    description = elim entry.description [ none ↦ "" | some t ↦ t ];
    created_at = time_of zero_time entry.created_at;
  }
