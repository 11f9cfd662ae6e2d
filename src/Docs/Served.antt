-- ===== src/Docs/Served.antt =====
-- cmd/main.go and docs/docs.go: what the router replies, against the document.
use double_entry_bank_go.Base.{
  Bool, true, false, ◌||◌, ◌&&◌, ◌==◌, String, Option, none, some, ◌≡◌, refl, arith,
}
use double_entry_bank_go.World.{Time, World}
use double_entry_bank_go.Docs.Operations.{operation}
use double_entry_bank_go.Docs.Conformance.{is_documented}
use double_entry_bank_go.Api.Wire.{encode_payload}
use double_entry_bank_go.Docs.Replies.{handler-Listed}
use double_entry_bank_go.Api.Reply.{Reply, Payload, plain_text}
use double_entry_bank_go.Api.Auth.{Verified, verify_request, authenticator}
use double_entry_bank_go.Api.Handling.{Server, Ending, Outcome, replied, goes_on, respond}
use double_entry_bank_go.Api.Answered.{EndOutcome, Closes, >>=-Closes, next_call-Steps}
use double_entry_bank_go.Api.Router.{
  register_route, login_route, create_account_route, list_accounts_route, get_account_route,
  deposit_route, withdraw_route, transfer_route, entries_route, reconcile_route, transactions_route,
  Endpoint, Incoming, is_public, handler, to_request, guarded, serve,
}

-- A refusal of the middleware: 401 with a plain text, on a route that asks for a token.
abbrev pub is_plain_text : Payload → Bool
is_plain_text (plain_text t) = true
is_plain_text _ = false

abbrev pub is_refusal_401 : Endpoint → Reply → Bool
is_refusal_401 e reply = (operation e).secured && reply.status == 401 && is_plain_text reply.body

module _ (time_text : Time → String) where
  abbrev pub is_expected : Endpoint → Reply → Bool
  is_expected e reply = is_documented time_text (operation e) reply || is_refusal_401 e reply

  weaken :
      (e : Endpoint) (m : Ending)
      → Closes (is_documented time_text (operation e)) m
      → Closes (is_expected e) m
  weaken e m closes w = go (m w).0 (closes w)
    where
      go :
          (o : Outcome Unit)
          → EndOutcome (is_documented time_text (operation e)) o
          → EndOutcome (is_expected e) o
      go (goes_on a) fine = elim fine [ ]
      go (replied reply) fine = rw (fine) refl

  plain_text_lem :
      (e : Endpoint) (text : String)
      → is_public e ≡ false
      → is_expected e (record { status = 401; body = plain_text text }) ≡ true
  unfolding is_documented encode_payload
  plain_text_lem register_route text protected = absurd (ground arith)
  plain_text_lem login_route text protected = absurd (ground arith)
  plain_text_lem create_account_route text protected = refl
  plain_text_lem list_accounts_route text protected = refl
  plain_text_lem get_account_route text protected = refl
  plain_text_lem deposit_route text protected = refl
  plain_text_lem withdraw_route text protected = refl
  plain_text_lem transfer_route text protected = refl
  plain_text_lem entries_route text protected = refl
  plain_text_lem reconcile_route text protected = refl
  plain_text_lem transactions_route text protected = refl

  module _ (s : Server) where
    open s use {jwt}

    guarded-Listed :
        (i : Incoming)
        → is_public i.endpoint ≡ false
        → Closes (is_expected i.endpoint) (guarded s i)
    unfolding guarded
    guarded-Listed i protected =
        >>=-Closes _ _ _ (next_call-Steps _)
          (λ n. let v = verify_request jwt (s.unix n) i.credentials in go v (authenticator jwt v))
      where
        go :
            (v : Verified jwt) (o : Option String)
            → Closes (is_expected i.endpoint) (elim o as (λ _. Ending) [
              | some text ↦ respond (record { status = 401; body = plain_text text })
              | none ↦ handler s i.endpoint (to_request s v i)
            ])
        go v (some text) = λ w. plain_text_lem i.endpoint text protected
        go v none =
            weaken i.endpoint (handler s i.endpoint (to_request s v i))
              (handler-Listed time_text s i.endpoint (to_request s v i))

    serve-Closes : (i : Incoming) → Closes (is_expected i.endpoint) (serve s i)
    unfolding serve
    serve-Closes i = go (is_public i.endpoint) refl
      where
        go :
            (open_to_all : Bool)
            → is_public i.endpoint ≡ open_to_all
            → Closes (is_expected i.endpoint) (elim open_to_all as (λ _. Ending) [
              | true ↦ handler s i.endpoint (to_request s (none, none) i)
              | false ↦ guarded s i
            ])
        go true _ =
            weaken i.endpoint (handler s i.endpoint (to_request s (none, none) i))
              (handler-Listed time_text s i.endpoint (to_request s (none, none) i))
        go false protected = guarded-Listed i protected

    -- Every request on a route gets a reply: one that the document lists for the route, with its
    -- status and a body whose properties are documented ones of the documented types, and which has
    -- every documented one but an owner or a description that dto.go leaves out when empty; or the
    -- plain text of the middleware's refusal, with the status 401 and on a route that the document
    -- protects.
    pub serve-documented :
        (i : Incoming) (w : World)
        → (reply : Reply) × ((serve s i w).0 ≡ replied reply)
          × (is_expected i.endpoint reply ≡ true)
    serve-documented i w = go (serve s i w).0 (serve-Closes i w)
      where
        go :
            (o : Outcome Unit)
            → EndOutcome (is_expected i.endpoint) o
            → (reply : Reply) × (o ≡ replied reply) × (is_expected i.endpoint reply ≡ true)
        go (goes_on a) fine = elim fine [ ]
        go (replied reply) fine = (reply, refl, fine)
