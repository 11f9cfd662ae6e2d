-- ===== src/Cors/Listing.antt =====
-- The list of headers that a preflight asks for, when the reply repeats it.
use double_entry_bank_go.Base.{
  ℕ, ◌≡◌, refl, ◌∙◌, ap, subst, true, false, ◌==◌, List, [], ◌∷◌, ◌++◌, inl, inr, Bool-cases, arith,
  All,
}
use mathlib.Core.List.{append_assoc}
use double_entry_bank_go.Text.{is_space}
use double_entry_bank_go.Runes.{
  Runes, runes, is_nil, trim_left, trim_right, trim_space, cut_at, split, join,
}
use double_entry_bank_go.Runes.Trim.{StartsClean, trim_space_clean}
use double_entry_bank_go.Cors.{parse_parts, parse_cors_header_list}
use double_entry_bank_go.Cors.Echo.{plain, IsName, cut_at-plain, parse_parts-IsName}

cut_at-whole : (p : Runes) → plain p ≡ true → cut_at b',' p ≡ (p, [])
unfolding cut_at
cut_at-whole [] h = refl
cut_at-whole (c ∷ p) h =
    let rest = cut_at-whole p (ground arith) in
    let other : (c == b',') ≡ false = ground arith in rw (rest, other) refl

cut_at-append : (p s : Runes) → plain p ≡ true → cut_at b',' (p ++ b',' ∷ s) ≡ (p, split b',' s)
unfolding cut_at split
cut_at-append [] s h = refl
cut_at-append (c ∷ p) s h =
    let rest = cut_at-append p s (ground arith) in
    let other : (c == b',') ≡ false = ground arith in rw (rest, other) refl

-- The headers between the commas of a text.
abbrev parsed : Runes → List Runes
parsed s = parse_parts (split b',' s)

parsed-space : (s : Runes) → parsed (b' ' ∷ s) ≡ parsed s
unfolding split cut_at parse_parts trim_space trim_left is_space
parsed-space s = refl

parsed-one : (h : Runes) → IsName h → parsed h ≡ h ∷ []
unfolding split parse_parts
parsed-one h (filled, free, trimmed, canonical) =
    rw (cut_at-whole h free, trimmed, filled, canonical) refl

parsed-cons : (h s : Runes) → IsName h → parsed (h ++ b',' ∷ s) ≡ h ∷ parsed s
unfolding split parse_parts
parsed-cons h s (filled, free, trimmed, canonical) =
    ap parse_parts (ap (λ (p : Runes × List Runes). p.0 ∷ p.1) (cut_at-append h s free))
    ∙ rw (trimmed, filled, canonical) refl

parsed-join :
    (h : Runes) (hs : List Runes)
    → All IsName (h ∷ hs)
    → parsed (join (runes ", ") (h ∷ hs)) ≡ h ∷ hs
unfolding join
parsed-join h [] (name, _) = parsed-one h name
parsed-join h (k ∷ hs) (name, names) =
    ap parsed (append_assoc h (runes ", ") (join (runes ", ") (k ∷ hs)))
    ∙ parsed-cons h (b' ' ∷ join (runes ", ") (k ∷ hs)) name
    ∙ ap (λ t. h ∷ t) (parsed-space (join (runes ", ") (k ∷ hs)) ∙ parsed-join k hs names)

-- A text that starts with no space is not blank.
not_blank : (c : ℕ) (s : Runes) → is_space c ≡ false → is_nil (trim_space (c ∷ s)) ≡ false
unfolding trim_space trim_left trim_right
not_blank c s clean = ground arith

name_starts : (h : Runes) → IsName h → StartsClean h
name_starts h (filled, free, trimmed, canonical) =
    let (start, _, _) = trim_space_clean h in subst StartsClean trimmed start

join-filled :
    (h : Runes) (hs : List Runes)
    → IsName h
    → is_nil (trim_space (join (runes ", ") (h ∷ hs))) ≡ false
unfolding join
join-filled [] hs (filled, _, _, _) = absurd (cc)
join-filled (c ∷ h) [] name = not_blank c h (name_starts (c ∷ h) name)
join-filled (c ∷ h) (k ∷ hs) name = not_blank c _ (name_starts (c ∷ h) name)

names_again : (hs : List Runes) → All IsName hs → parse_cors_header_list (join (runes ", ") hs) ≡ hs
unfolding parse_cors_header_list join
names_again [] _ = unfold trim_space trim_left trim_right in refl
names_again (h ∷ hs) (name, names) = rw (join-filled h hs name) (parsed-join h hs (name, names))

listed-IsName : (s : Runes) → All IsName (parse_cors_header_list s)
unfolding parse_cors_header_list split
listed-IsName s = elim (Bool-cases (is_nil (trim_space s))) [
  | inl blank ↦ rw blank tt
  | inr filled ↦ rw filled (parse_parts-IsName (split b',' s) (cut_at-plain s))
]

-- A parsed list, joined and parsed again, is the same list.
pub parse_cors_header_list-join :
    (s : Runes)
    → parse_cors_header_list (join (runes ", ") (parse_cors_header_list s))
      ≡ parse_cors_header_list s
parse_cors_header_list-join s = names_again (parse_cors_header_list s) (listed-IsName s)
