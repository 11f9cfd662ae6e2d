-- ===== src/Tests/Stamps.antt =====
-- A small token package that satisfies its laws: a token's text is a tally of its last second, a dot
-- and the user.
use Prim.Native.Char.{code}
use double_entry_bank_go.Base.{
  ℕ, zero, suc, ◌≡◌, ◌≢◌, ◌⊎◌, refl, sym, ◌∙◌, ap, subst, inl, inr, true, false, Option, none, some,
  String, str_eq, List, [], ◌∷◌, find, ltb, ◌==◌, if◌then◌else◌, arith, Bool-cases, eq_iff,
}
use mathlib.Core.Option.{some-injective}
use double_entry_bank_go.Api.Auth.{Claim, Jwt}
use double_entry_bank_go.Api.TokenLaws.{HasOnly, JwtLaws}

unfoldable pub write_token : ℕ → String → String
write_token zero user = String.◌∷◌ "." user
write_token (suc n) user = String.◌∷◌ "x" (write_token n user)

abbrev pub one_more : Option (ℕ × String) → Option (ℕ × String)
one_more none = none
one_more (some (n, user)) = some (suc n, user)

unfoldable pub read_token : String → Option (ℕ × String)
read_token String.[] = none
read_token (String.◌∷◌ c s) =
    let rest = read_token s in
    if code c == b'x' then one_more rest else if code c == b'.' then some (0, s) else none

read_token-write_token : (n : ℕ) (user : String) → read_token (write_token n user) ≡ some (n, user)
unfolding read_token write_token
read_token-write_token zero user = refl
read_token-write_token (suc n) user = ap one_more (read_token-write_token n user)

pub written : (n : ℕ) (user : String) → str_eq (write_token n user) "" ≡ false
unfolding read_token
written n user = elim (Bool-cases (str_eq (write_token n user) "")) [
  | inr filled ↦ filled
  | inl empty ↦
      let e : read_token "" ≡ some (n, user) =
        ap read_token (sym ((eq_iff _ _).0 empty)) ∙ read_token-write_token n user in
      absurd (cc)
]

pub record Token : Type 0 where
  pub user : Option String
  pub exp : Option ℕ

abbrev pub sign : Token → Option String
sign t = elim t.user [
  | none ↦ none
  | some user ↦ elim t.exp [ none ↦ none | some exp ↦ some (write_token exp user) ]
]

abbrev pub parsed : Option (ℕ × String) → Unit {0} ⊎ Option Token
parsed none = inl tt
parsed (some (n, user)) = inr (some (record { user = some user; exp = some n }))

abbrev pub set_value : String → Claim → Token → Option Token
set_value name value t = elim value [
  | Claim.text v ↦ if str_eq name "user_id" then some (record t { user = some v }) else none
  | Claim.number n ↦ if str_eq name "exp" then some (record t { exp = some n }) else none
  | Claim.other ↦ none
]

abbrev pub as_text : Option String → Option Claim
as_text none = none
as_text (some s) = some (Claim.text s)

abbrev pub as_number : Option ℕ → Option Claim
as_number none = none
as_number (some n) = some (Claim.number n)

abbrev pub claim_of : String → Token → Option Claim
claim_of name t =
    if str_eq name "user_id"
    then as_text t.user
    else if str_eq name "exp"
    then as_number t.exp
    else none

abbrev pub list_of : Option String → List (String × Claim)
list_of none = []
list_of (some s) = ("user_id", Claim.text s) ∷ []

abbrev pub tokens : Jwt
tokens = record {
  Token = Token;
  Failure = Unit {0};
  parse = λ t. parsed (read_token t);
  validate = λ now t. elim t.exp [ none ↦ some tt | some n ↦ if ltb now n then none else some tt ];
  is_expired = λ e. true;
  is_invalid_issued_at = λ e. false;
  is_not_yet_valid = λ e. false;
  as_map = λ t. inr (list_of t.user);
  empty = record { user = none; exp = none };
  set = set_value;
  sign = sign;
}

claim_of-empty : (name : String) → claim_of name (record { user = none; exp = none }) ≡ none
claim_of-empty name = ground arith

differ :
    (other name own : String) → other ≢ name → str_eq name own ≡ true → str_eq other own ≡ false
differ other name own ne e = elim (Bool-cases (str_eq other own)) [
  | inr apart ↦ apart
  | inl same ↦ absurd (ne ((eq_iff other own).0 same ∙ sym ((eq_iff name own).0 e)))
]

not_user_id : (name : String) → str_eq name "exp" ≡ true → str_eq name "user_id" ≡ false
not_user_id name e = subst (λ k. str_eq k "user_id" ≡ false) (sym ((eq_iff name "exp").0 e)) refl

claim_of-set_self :
    (name : String) (v : Claim) (t t' : Token)
    → set_value name v t ≡ some t'
    → claim_of name t' ≡ some v
claim_of-set_self name (Claim.text s) t t' h = elim (Bool-cases (str_eq name "user_id")) [
  | inr other ↦ absurd (ground arith)
  | inl own ↦
      let same : record t { user = some s } ≡ t' = some-injective _ _ (rw own at h) in
      subst (λ k. claim_of name k ≡ some (Claim.text s)) same (rw own refl)
]
claim_of-set_self name (Claim.number n) t t' h = elim (Bool-cases (str_eq name "exp")) [
  | inr other ↦ absurd (ground arith)
  | inl own ↦
      let same : record t { exp = some n } ≡ t' = some-injective _ _ (rw own at h) in
      subst (λ k. claim_of name k ≡ some (Claim.number n)) same
        (rw (not_user_id name own, own) refl)
]
claim_of-set_self name Claim.other t t' h = absurd (cc)

claim_of-set_other :
    (other name : String) (v : Claim) (t t' : Token)
    → other ≢ name
    → set_value name v t ≡ some t'
    → claim_of other t' ≡ claim_of other t
claim_of-set_other other name (Claim.text s) t t' ne h = elim (Bool-cases (str_eq name "user_id")) [
  | inr differs ↦ absurd (ground arith)
  | inl own ↦
      let same : record t { user = some s } ≡ t' = some-injective _ _ (rw own at h) in
      let apart = differ other name "user_id" ne own in
      subst (λ k. claim_of other k ≡ claim_of other t) same (rw apart refl)
]
claim_of-set_other other name (Claim.number n) t t' ne h = elim (Bool-cases (str_eq name "exp")) [
  | inr differs ↦ absurd (ground arith)
  | inl own ↦
      let same : record t { exp = some n } ≡ t' = some-injective _ _ (rw own at h) in
      let apart = differ other name "exp" ne own in
      subst (λ k. claim_of other k ≡ claim_of other t) same (rw apart refl)
]
claim_of-set_other other name Claim.other t t' ne h = absurd (cc)

parse-sign :
    (t : Token) (payload : String)
    → sign t ≡ some payload
    → (str_eq payload "" ≡ false)
      × (t' : Token) × (parsed (read_token payload) ≡ inr (some t'))
      × (t' ≡ t)
parse-sign t payload h = go t.user t.exp refl refl
  where
    go :
        (u : Option String) (e : Option ℕ)
        → t.user ≡ u
        → t.exp ≡ e
        → (str_eq payload "" ≡ false)
          × (t' : Token) × (parsed (read_token payload) ≡ inr (some t'))
          × (t' ≡ t)
    go none e hu he = absurd (ground arith)
    go (some u) none hu he = absurd (ground arith)
    go (some u) (some n) hu he =
        let same : write_token n u ≡ payload = ground arith in
        (
          subst (λ k. str_eq k "" ≡ false) same (written n u),
          record { user = some u; exp = some n },
          subst (λ k. parsed (read_token k) ≡ inr (some (record { user = some u; exp = some n })))
              same (ap parsed (read_token-write_token n u)),
          rw (hu, he) refl,
        )

as_map-claim :
    (t : Token) (name value : String)
    → claim_of name t ≡ some (Claim.text value)
    → (claims : List (String × Claim)) × (tokens.as_map t ≡ inr claims)
      × (find (λ (p : String × Claim). str_eq p.0 name) claims ≡ some (name, Claim.text value))
as_map-claim t name value h = (list_of t.user, refl, go t.user t.exp refl refl)
  where
    go :
        (u : Option String) (e : Option ℕ)
        → t.user ≡ u
        → t.exp ≡ e
        → find (λ (p : String × Claim). str_eq p.0 name) (list_of t.user)
          ≡ some (name, Claim.text value)
    go (some u) e hu he = elim (Bool-cases (str_eq name "user_id")) [
      | inl own ↦
          let n = (eq_iff name "user_id").0 own in
          let same : u ≡ value = ground arith in
          let back : str_eq "user_id" name ≡ true = (eq_iff "user_id" name).1 (sym n) in
          rw (hu, back)
            (ap some (ap (λ k. (k, Claim.text u)) (sym n) ∙ ap (λ k. (name, Claim.text k)) same))
      | inr other ↦ absurd (no_text other e he)
    ]
      where
        no_text : str_eq name "user_id" ≡ false → (e : Option ℕ) → t.exp ≡ e → ⊥
        no_text other none he = ground arith
        no_text other (some n) he = ground arith
    go none none hu he = absurd (ground arith)
    go none (some n) hu he = absurd (ground arith)

ends_at : (t : Token) (n : ℕ) → claim_of "exp" t ≡ some (Claim.number n) → t.exp ≡ some n
ends_at t n h = go t.exp refl
  where
    go : (e : Option ℕ) → t.exp ≡ e → t.exp ≡ some n
    go none he = absurd (ground arith)
    go (some m) he = ground arith

pub laws : JwtLaws tokens
laws = record {
  claim = claim_of;
  claim-empty = claim_of-empty;
  claim-set_text = λ name value t t' free set. claim_of-set_self name (Claim.text value) t t' set;
  claim-set_exp = λ n t t' dated set. claim_of-set_self "exp" (Claim.number n) t t' set;
  claim-set_other = claim_of-set_other;
  parse-sign = λ name value expires t payload free dated has signed.
      let (filled, t', read, same) = parse-sign t payload signed in
      (filled, t', read, subst (HasOnly tokens claim_of name value expires) (sym same) has);
  as_map-claim = λ name value expires t free has. as_map-claim t name value has.0;
  validate-early =
      λ name value now expires t free has early. rw (ends_at t expires has.1, early) refl;
  validate-late =
      λ name value now expires t free has late. (tt, rw (ends_at t expires has.1, late) refl, refl);
}
