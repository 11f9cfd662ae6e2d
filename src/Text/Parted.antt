-- ===== src/Text/Parted.antt =====
-- `TrimSpace` parts a text into the space at its start, its result, and the space at its end.
use Prim.Native.Char.{Char, code}
use double_entry_bank_go.Base.{
  ◌≡◌, refl, sym, ap, ◌∙◌, true, false, ◌&&◌, String, ◌<>◌, inl, inr, Bool-cases, if◌then◌else◌,
}
use text.Mathlib.TextLemmas.{nil-append, cons-append}
use double_entry_bank_go.Text.{is_space, is_empty, trim_left, trim_right, trim_space}
use double_entry_bank_go.Text.Trim.{StartsClean, EndsClean, trim_left_clean, trim_right_clean}

abbrev pub AllSpace : String → Type 0
AllSpace String.[] = Unit
AllSpace (String.◌∷◌ c s) = (is_space (code c) ≡ true) × AllSpace s

-- The text `s` is `t` with space before it and behind it.
abbrev pub IsPadded : String → String → Type 0
IsPadded t s =
    (before : String) × (behind : String) × AllSpace before
    × AllSpace behind
    × (s ≡ before <> t <> behind)

left_parted : (s : String) → (before : String) × AllSpace before × (s ≡ before <> trim_left s)
unfolding trim_left
left_parted String.[] = ("", tt, sym (nil-append ""))
left_parted (String.◌∷◌ c s) = elim (Bool-cases (is_space (code c))) [
  | inl space ↦
      let (before, all, e) = left_parted s in
      (
        String.◌∷◌ c before,
        (space, all),
        rw (space, cons-append c before (trim_left s)) (ap (String.◌∷◌ c) e),
      )
  | inr clean ↦ ("", tt, rw (clean, nil-append (String.◌∷◌ c s)) refl)
]

keep : Char → String → String
keep c rest = if is_empty rest && is_space (code c) then "" else String.◌∷◌ c rest

keep_parted :
    (c : Char) (rest behind : String)
    → AllSpace behind
    → (after : String) × AllSpace after × (String.◌∷◌ c (rest <> behind) ≡ keep c rest <> after)
unfolding keep
keep_parted c String.[] behind all = elim (Bool-cases (is_space (code c))) [
  | inl space ↦ (
    String.◌∷◌ c behind,
    (space, all),
    rw (space, nil-append behind, nil-append (String.◌∷◌ c behind)) refl,
  )
  | inr clean ↦ (behind, all, rw (clean, cons-append c "" behind) refl)
]
keep_parted c (String.◌∷◌ x s) behind all =
    (behind, all, rw (cons-append c (String.◌∷◌ x s) behind) refl)

right_parted : (s : String) → (behind : String) × AllSpace behind × (s ≡ trim_right s <> behind)
unfolding trim_right keep
right_parted String.[] = ("", tt, sym (nil-append ""))
right_parted (String.◌∷◌ c s) =
    let (behind, all, e) = right_parted s in
    let (after, all', e') = keep_parted c (trim_right s) behind all in
    (after, all', ap (String.◌∷◌ c) e ∙ e')

pub trim_space-IsPadded : (s : String) → IsPadded (trim_space s) s
unfolding trim_space
trim_space-IsPadded s =
    let (before, all, e) = left_parted s in
    let (behind, all', e') = right_parted (trim_left s) in
    (before, behind, all, all', e ∙ ap (λ u. before <> u) e')

trim_left-space : (before s : String) → AllSpace before → trim_left (before <> s) ≡ trim_left s
unfolding trim_left
trim_left-space String.[] s all = rw (nil-append s) refl
trim_left-space (String.◌∷◌ c before) s (space, all) =
    rw (cons-append c before s, space) (trim_left-space before s all)

trim_right_space : (behind : String) → AllSpace behind → trim_right behind ≡ ""
unfolding trim_right
trim_right_space String.[] all = refl
trim_right_space (String.◌∷◌ c behind) (space, all) = rw (trim_right_space behind all, space) refl

trim_right-space : (s behind : String) → AllSpace behind → trim_right (s <> behind) ≡ trim_right s
unfolding trim_right
trim_right-space String.[] behind all = rw (nil-append behind) (trim_right_space behind all)
trim_right-space (String.◌∷◌ c s) behind all =
    rw (cons-append c s behind, trim_right-space s behind all) refl

StartsClean-behind :
    (t behind : String) → is_empty t ≡ false → StartsClean t → StartsClean (t <> behind)
StartsClean-behind String.[] behind filled start = absurd (cc)
StartsClean-behind (String.◌∷◌ c t) behind filled start = rw (cons-append c t behind) start

-- Where a text that is not empty and has no space at its ends is padded, `TrimSpace` finds it again.
pub trim_space_padded :
    (t s : String)
    → is_empty t ≡ false
    → StartsClean t
    → EndsClean t
    → IsPadded t s
    → trim_space s ≡ t
unfolding trim_space
trim_space_padded t s filled start end (before, behind, all, all', e) =
    ap trim_space e
    ∙ ap trim_right (
        trim_left-space before (t <> behind) all
        ∙ trim_left_clean _ (StartsClean-behind t behind filled start))
    ∙ trim_right-space t behind all'
    ∙ trim_right_clean t end
