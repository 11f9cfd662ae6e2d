-- ===== src/Cors/Matching.antt =====
-- Which origins are allowed: the lists that are built once, against the entries one by one.
use double_entry_bank_go.Base.{
  Any, ◌≡◌, ◌↔◌, refl, sym, ◌∙◌, ap, ◌⊎◌, inl, inr, Bool, true, false, ◌||◌, List, [], ◌∷◌, ◌++◌,
  any, none, some, Bool-cases, Option-cases, arith,
}
use mathlib.Core.List.{append-nil}
use double_entry_bank_go.Runes.{Runes, same, Casing, to_lower, around}
use double_entry_bank_go.Runes.Laws.{same-eq, same_refl}
use double_entry_bank_go.Cors.{
  CorsOptions, CorsWildcard, ScannedOrigins, star, match_wildcard, scan_origins, new_cors_handler,
  is_origin_allowed,
}
use double_entry_bank_go.Cors.Wildcards.{match_wildcard_iff}

-- One entry, in small letters, against an origin, in small letters.
abbrev admits : Runes → Runes → Bool
admits origin entry = elim (around b'*' entry) [
  | none ↦ same entry origin
  | some (before, behind) ↦ match_wildcard (record { prefix = before; suffix = behind }) origin
]

matches_all : (origin : Runes) → match_wildcard (record { prefix = []; suffix = [] }) origin ≡ true
matches_all origin =
    (match_wildcard_iff (record { prefix = []; suffix = [] }) origin).1
      (origin, sym (append-nil origin))

any-append :
    {A : Type 0} (p : A → Bool) (xs ys : List A) → any p (xs ++ ys) ≡ (any p xs || any p ys)
any-append p [] ys = refl
any-append p (x ∷ xs) ys = ground (arith, any-append p xs ys)

at_star : (entry : Runes) → entry ≡ star → around b'*' entry ≡ some ([], [])
unfolding around
at_star entry e = rw e

module _ (casing : Casing) (origin : Runes) where
  -- What `isOriginAllowed` tests, on the result of the loop.
  abbrev passes : ScannedOrigins → Bool
  passes o = o.all || any (λ p. same p origin) o.plain || any (λ w. match_wildcard w origin) o.wild

  abbrev entry_admits : Runes → Bool
  entry_admits entry = admits origin (to_lower casing entry)

  module _ (entry : Runes) (entries plain : List Runes) (wild : List CorsWildcard) where
    scan_star :
        same (to_lower casing entry) star ≡ true
        → scan_origins casing (entry ∷ entries) plain wild
          ≡ record { all = true; plain = []; wild = [] }
    unfolding scan_origins
    scan_star whole = ground arith

    scan_plain :
        same (to_lower casing entry) star ≡ false
        → around b'*' (to_lower casing entry) ≡ none
        → scan_origins casing (entry ∷ entries) plain wild
          ≡ scan_origins casing entries (plain ++ to_lower casing entry ∷ []) wild
    unfolding scan_origins
    scan_plain more exact = ground arith

    scan_wild :
        (w : Runes × Runes)
        → same (to_lower casing entry) star ≡ false
        → around b'*' (to_lower casing entry) ≡ some w
        → scan_origins casing (entry ∷ entries) plain wild
          ≡ scan_origins casing entries plain (wild ++ record { prefix = w.0; suffix = w.1 } ∷ [])
    unfolding scan_origins
    scan_wild w more found = ground arith

  scan_origins_lem :
      (entries plain : List Runes) (wild : List CorsWildcard)
      → passes (scan_origins casing entries plain wild) ≡ (
          any entry_admits entries
          || any (λ p. same p origin) plain
          || any (λ w. match_wildcard w origin) wild)
  unfolding scan_origins
  scan_origins_lem [] plain wild = refl
  scan_origins_lem (entry ∷ entries) plain wild =
      elim (Bool-cases (same (to_lower casing entry) star)) [
        | inl whole ↦
            let at = at_star (to_lower casing entry) (same-eq _ _ whole) in
            let every = matches_all origin in
            let step = scan_star entry entries plain wild whole in ground arith
        | inr more ↦ elim (Option-cases (around b'*' (to_lower casing entry))) [
          | inl exact ↦
              let step = scan_plain entry entries plain wild more exact in
              let rest = scan_origins_lem entries (plain ++ to_lower casing entry ∷ []) wild in
              let last = any-append (λ p. same p origin) plain (to_lower casing entry ∷ []) in
              ap passes step ∙ rest ∙ ground arith
          | inr (w, e) ↦
              let new : CorsWildcard = record { prefix = w.0; suffix = w.1 } in
              let step = scan_wild entry entries plain wild w more e in
              let rest = scan_origins_lem entries plain (wild ++ new ∷ []) in
              let last = any-append (λ k. match_wildcard k origin) wild (new ∷ []) in
              ap passes step ∙ rest ∙ ground arith
        ]
      ]

-- The pattern of an entry: without an asterisk it is the origin itself, and the first asterisk
-- stands for any text.
abbrev pub Admits : Runes → Runes → Type 0
Admits entry origin =
    ((around b'*' entry ≡ none) × (entry ≡ origin))
    ⊎ ((before : Runes) × (behind : Runes) × (middle : Runes) × (around b'*' entry
          ≡ some (before, behind))
        × (origin ≡ before ++ (middle ++ behind)))

admits_iff : (origin entry : Runes) → (admits origin entry ≡ true) ↔ Admits entry origin
admits_iff origin entry = (forth, back)
  where
    forth : admits origin entry ≡ true → Admits entry origin
    forth h = elim (Option-cases (around b'*' entry)) [
      | inl exact ↦ inl (exact, same-eq entry origin (ground arith))
      | inr (w, e) ↦
          let (middle, spelt) =
            (match_wildcard_iff (record { prefix = w.0; suffix = w.1 }) origin).0 (ground arith) in
          inr (w.0, w.1, middle, e, spelt)
    ]

    back : Admits entry origin → admits origin entry ≡ true
    back (inl (exact, e)) = rw (exact, e, admits) (same_refl origin)
    back (inr (before, behind, middle, found, spelt)) =
        rw (found, admits)
          ((match_wildcard_iff (record { prefix = before; suffix = behind }) origin).1
            (middle, spelt))

or_true : (a : Bool) {b : Bool} → b ≡ true → (a || b) ≡ true
or_true a h = ground arith

or_false : (a : Bool) {b : Bool} → a ≡ false → (a || b) ≡ true → b ≡ true
or_false a e h = ground arith

any_iff :
    {A : Type 0} (p : A → Bool) (P : A → Type 0) (holds : (a : A) → (p a ≡ true) ↔ P a)
    (xs : List A)
    → (any p xs ≡ true) ↔ Any P xs
any_iff p P holds [] = (λ h. cc, λ h. absurd h)
any_iff p P holds (x ∷ xs) =
    let rest = any_iff p P holds xs in
    (
      λ h. elim (Bool-cases (p x)) [
        | inl here ↦ inl ((holds x).0 here)
        | inr later ↦ inr (rest.0 (or_false (p x) later h))
      ],
      λ h. elim h [
        | inl here ↦ rw ((holds x).1 here) refl
        | inr later ↦ or_true (p x) (rest.1 later)
      ],
    )

allowed_by_entries :
    (casing : Casing) (options : CorsOptions) (origin entry : Runes) (entries : List Runes)
    → options.allowed_origins ≡ entry ∷ entries
    → is_origin_allowed casing (new_cors_handler casing options) origin
      ≡ any (entry_admits casing (to_lower casing origin)) (entry ∷ entries)
unfolding is_origin_allowed new_cors_handler
allowed_by_entries casing options origin entry entries e =
    let scanned = scan_origins_lem casing (to_lower casing origin) (entry ∷ entries) [] [] in
    rw e (scanned ∙ ground arith)

no_entries :
    (casing : Casing) (options : CorsOptions) (origin : Runes)
    → options.allowed_origins ≡ []
    → is_origin_allowed casing (new_cors_handler casing options) origin ≡ true
unfolding is_origin_allowed new_cors_handler
no_entries casing options origin e = rw e refl

-- An origin is allowed by the handler built from the options exactly when the options list no
-- origin, or one of the origins listed admits it, both in small letters: it is that origin, or its
-- first asterisk stands for some text; an asterisk alone admits every origin.
pub is_origin_allowed_iff :
    (casing : Casing) (options : CorsOptions) (origin : Runes)
    → (is_origin_allowed casing (new_cors_handler casing options) origin ≡ true) ↔ (
        (options.allowed_origins ≡ [])
        ⊎ Any
            (λ entry. Admits (to_lower casing entry) (to_lower casing origin))
            options.allowed_origins)
is_origin_allowed_iff casing options origin = go options.allowed_origins refl
  where
    go :
        (entries : List Runes)
        → options.allowed_origins ≡ entries
        → (is_origin_allowed casing (new_cors_handler casing options) origin ≡ true) ↔ (
            (entries ≡ [])
            ⊎ Any (λ entry. Admits (to_lower casing entry) (to_lower casing origin)) entries)
    go [] e = (λ _. inl refl, λ _. no_entries casing options origin e)
    go (entry ∷ entries) e =
        let built = allowed_by_entries casing options origin entry entries e in
        let every =
          any_iff (entry_admits casing (to_lower casing origin))
            (λ k. Admits (to_lower casing k) (to_lower casing origin))
            (λ k. admits_iff (to_lower casing origin) (to_lower casing k)) (entry ∷ entries) in
        (
          λ h. inr (every.0 (sym built ∙ h)),
          λ h. elim h [ inl none' ↦ absurd (cc) | inr some' ↦ built ∙ every.1 some' ],
        )
