-- ===== src/Api/Amount/Accepted.antt =====
-- internal/api/amount.go: which amounts are accepted, and as what.
use double_entry_bank_go.Base.{
  arith, ◌≡◌, ◌≢◌, ◌↔◌, refl, subst, sym, false, some, String, str_eq, eq_iff,
}
use double_entry_bank_go.Text.{trim_space, is_empty}
use double_entry_bank_go.Text.Trim.{StartsClean, EndsClean, trim_space_clean}
use double_entry_bank_go.Text.Parted.{IsPadded, trim_space-IsPadded, trim_space_padded}
use double_entry_bank_go.Api.Json.{Field, null, boolean, array, nested, number, text}
use double_entry_bank_go.Api.Amount.{normalize_amount_input}

-- The value is the text `s`, or a number that is written as `s`.
abbrev pub Spells : Field → String → Type 0
Spells (text u) s = u ≡ s
Spells (number u) s = u ≡ s
Spells _ s = ⊥

-- `t` is not empty, has no space at its ends, and stands in the value with nothing but space around it.
abbrev pub IsAmount : Field → String → Type 0
IsAmount value t =
    (t ≢ "") × StartsClean t × EndsClean t × ((s : String) × Spells value s × IsPadded t s)

trimmed_cases :
    (s t : String)
    → normalize_amount_input (text s) ≡ some t
    → (str_eq (trim_space s) "" ≡ false) × (trim_space s ≡ t)
unfolding normalize_amount_input
trimmed_cases s t h = ground arith

accepted :
    (s t : String)
    → str_eq t "" ≡ false
    → trim_space s ≡ t
    → normalize_amount_input (text s) ≡ some t
unfolding normalize_amount_input
accepted s t filled e = ground arith

not_blank : (t : String) → str_eq t "" ≡ false → t ≢ ""
not_blank t filled e = ground (arith, eq_iff t "")

filled_text : (t : String) → t ≢ "" → str_eq t "" ≡ false
filled_text t filled = ground (arith, eq_iff t "")

is_empty-false : (t : String) → t ≢ "" → is_empty t ≡ false
is_empty-false String.[] filled = absurd (filled refl)
is_empty-false (String.◌∷◌ c t) filled = refl

text_parts :
    (s t : String)
    → normalize_amount_input (text s) ≡ some t
    → (t ≢ "") × StartsClean t × EndsClean t × IsPadded t s
text_parts s t h =
    let (filled, is) = trimmed_cases s t h in
    let (start, end, _) = trim_space_clean s in
    subst (λ k. (k ≢ "") × StartsClean k × EndsClean k × IsPadded k s) is
      (not_blank (trim_space s) filled, start, end, trim_space-IsPadded s)

accepted_text :
    (s t : String)
    → t ≢ ""
    → StartsClean t
    → EndsClean t
    → IsPadded t s
    → normalize_amount_input (text s) ≡ some t
accepted_text s t filled start end padded =
    accepted s t (filled_text t filled)
      (trim_space_padded t s (is_empty-false t filled) start end padded)

field_parts :
    (value : Field) (t : String) → normalize_amount_input value ≡ some t → IsAmount value t
unfolding normalize_amount_input
field_parts (text s) t h =
    let (filled, start, end, padded) = text_parts s t h in (filled, start, end, (s, refl, padded))
field_parts (number s) t h =
    let (filled, start, end, padded) = text_parts s t h in (filled, start, end, (s, refl, padded))
field_parts null t h = absurd (ground arith)
field_parts boolean t h = absurd (ground arith)
field_parts array t h = absurd (ground arith)
field_parts nested t h = absurd (ground arith)

accepted_amount :
    (value : Field) (t : String) → IsAmount value t → normalize_amount_input value ≡ some t
unfolding normalize_amount_input
accepted_amount (text u) t (filled, start, end, (s, spelt, padded)) =
    accepted_text u t filled start end (subst (IsPadded t) (sym spelt) padded)
accepted_amount (number u) t (filled, start, end, (s, spelt, padded)) =
    accepted_text u t filled start end (subst (IsPadded t) (sym spelt) padded)
accepted_amount null t (_, _, _, (_, spelt, _)) = absurd spelt
accepted_amount boolean t (_, _, _, (_, spelt, _)) = absurd spelt
accepted_amount array t (_, _, _, (_, spelt, _)) = absurd spelt
accepted_amount nested t (_, _, _, (_, spelt, _)) = absurd spelt

-- An amount is accepted as the text `t` exactly when the value is a text or a number that consists of
-- `t` with nothing but space before it and behind it, where `t` is not empty and has no space at its
-- ends. So a blank text and every value of another kind is refused.
pub normalize_amount_input_iff :
    (value : Field) (t : String) → (normalize_amount_input value ≡ some t) ↔ IsAmount value t
normalize_amount_input_iff value t = (field_parts value t, accepted_amount value t)
