-- ===== src/Api/Handling.antt =====
-- internal/api/handler.go: what every handler does, as a monad in which a handler stops with a
-- reply, and the steps with which the handlers begin.
use double_entry_bank_go.Base.{
  ℕ, Bool, true, false, not, inl, inr, String, Option, none, some, ◌==◌,
}
use double_entry_bank_go.Errors.{SqlError, GoError, ok, err, error_text}
use double_entry_bank_go.World.{Uuid, Time, World, Backend, Action, tick}
use double_entry_bank_go.Sqlc.Models.{Account}
use double_entry_bank_go.Sqlc.Accounts.{get_account}
use double_entry_bank_go.Api.Json.{Body}
use double_entry_bank_go.Api.Reply.{Reply, respond_error}
use double_entry_bank_go.Api.Auth.{Jwt, Verified, from_context, user_claim}

-- A step of a handler: it goes on with a value, or it has replied.
pub data Outcome (A : Type 0) : Type 0 where
  goes_on : A → Outcome A
  replied : Reply → Outcome A

abbrev pub Handling : Type 0 → Type 0
Handling A = World → Outcome A × World

-- A handler ends with a reply.
abbrev pub Ending : Type 0
Ending = Handling (Unit {0})

infixl 5 ◌>>=◌ ◌>>◌
unfoldable pub ◌>>=◌ : {A B : Type 0} → Handling A → (A → Handling B) → Handling B
◌>>=◌ m f w = let (r, w') = m w in elim r [ goes_on a ↦ f a w' | replied e ↦ (replied e, w') ]

unfoldable pub ◌>>◌ : {B : Type 0} → Handling (Unit {0}) → Handling B → Handling B
m >> k = m >>= λ _. k

abbrev pub respond : {A : Type 0} → Reply → Handling A
respond r w = (replied r, w)

abbrev pub go_on : {A : Type 0} → A → Handling A
go_on a w = (goes_on a, w)

-- `if bad { respondError(…); return }`
unfoldable pub refuse_if : Bool → ℕ → String → Handling (Unit {0})
refuse_if bad status text = elim bad [
  | true ↦ respond (respond_error status text)
  | false ↦ go_on tt
]

-- `v, ok := …; if !ok { respondError(…); return }`
unfoldable pub need : {A : Type 0} → Option A → ℕ → String → Handling A
need o status text = elim o [ none ↦ respond (respond_error status text) | some a ↦ go_on a ]

-- A call outside the database: its number picks the answer.
unfoldable pub next_call : Handling ℕ
next_call w = (goes_on w.calls, tick w)

-- A call of the store or of the ledger, with the reply to its error.
unfoldable pub call : {A : Type 0} → Action A → (GoError → Reply) → Handling A
call m refusal w =
    let (r, w') = m w in elim r [ ok a ↦ (goes_on a, w') | err e ↦ (replied (refusal e), w') ]

-- What the handlers use beside the store: the tokens, bcrypt, and the texts of the errors.
pub record Server : Type 1 where
  pub backend : Backend
  pub jwt : Jwt
  -- `bcrypt.GenerateFromPassword`, given the randomness, and `bcrypt.CompareHashAndPassword`.
  pub generate_from_password : ℕ → String → Option String
  pub compare_hash_and_password : String → String → Bool
  pub sql_text : SqlError → String
  pub context_text : String
  pub zero_time : Time
  -- `time.Now().Unix()` at the n-th call, and `strconv.Atoi`.
  pub unix : ℕ → ℕ
  pub atoi : String → Option (Bool × ℕ)

-- What a handler reads: the parameter `id` of the path, the query, the body, and what `Verifier`
-- recorded.
pub record Request (s : Server) : Type 0 where
  pub verified : Verified s.jwt
  pub id : String
  pub limit : String
  pub offset : String
  pub body : Body

module _ (s : Server) where
  open s use {backend as b, jwt}

  -- `err.Error()`
  abbrev pub text_of : GoError → String
  text_of e = error_text s.sql_text s.context_text e

  -- Step 1 of the handlers: who the caller is.
  unfoldable pub authenticate : Request s → Handling Uuid
  authenticate r = elim (from_context jwt r.verified) [
    | inl e ↦ respond (respond_error 401 "invalid token")
    | inr claims ↦ do
      user ← need (user_claim claims) 401 "invalid token"
      need (b.uuid_parse user) 401 "invalid token"
  ]

  -- `acc.OwnerID.Valid && acc.OwnerID.UUID != userID`
  unfoldable pub denied : Account → Uuid → Bool
  denied acc user_id = elim acc.owner_id [ none ↦ false | some owner ↦ not (owner == user_id) ]

  -- Load an account and enforce its ownership.
  unfoldable pub authorize : Uuid → Uuid → String → Handling Account
  authorize user_id account_id missing = do
    acc ← call (get_account b account_id) (λ e. respond_error 404 missing)
    refuse_if (denied acc user_id) 403 "access denied"
    go_on acc
