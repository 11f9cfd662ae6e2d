-- ===== src/Text/Trim.antt =====
-- Trimming removes all the space at the ends, so trimming again changes nothing.
use Prim.Native.Char.{Char, code}
use double_entry_bank_go.Base.{
  ◌≡◌, refl, ◌∙◌, ap, true, false, ◌&&◌, String, inl, inr, arith, Bool-cases, if◌then◌else◌,
}
use double_entry_bank_go.Text.{is_space, is_empty, trim_left, trim_right, trim_space}

-- The first character, if there is one, is no space; and likewise the last.
abbrev pub StartsClean : String → Type 0
StartsClean String.[] = Unit
StartsClean (String.◌∷◌ c s) = is_space (code c) ≡ false

abbrev pub EndsClean : String → Type 0
EndsClean String.[] = Unit
EndsClean (String.◌∷◌ c s) = (is_empty s ≡ true → is_space (code c) ≡ false) × EndsClean s

trim_left-StartsClean : (s : String) → StartsClean (trim_left s)
unfolding trim_left
trim_left-StartsClean String.[] = tt
trim_left-StartsClean (String.◌∷◌ c s) = elim (Bool-cases (is_space (code c))) [
  | inl space ↦ rw (space, StartsClean) (trim_left-StartsClean s)
  | inr clean ↦ rw (clean, StartsClean) clean
]

-- One step of `trim_right`, whatever is left of the rest of the text.
abbrev keep : Char → String → String
keep c rest = if is_empty rest && is_space (code c) then "" else String.◌∷◌ c rest

keep-EndsClean : (c : Char) (rest : String) → EndsClean rest → EndsClean (keep c rest)
keep-EndsClean c String.[] h = elim (Bool-cases (is_space (code c))) [
  | inl space ↦ rw (space, EndsClean) tt
  | inr clean ↦ rw (clean, EndsClean) ((λ _. clean), tt)
]
keep-EndsClean c (String.◌∷◌ x s) h = ((λ e. ground arith), h)

keep-StartsClean :
    (c : Char) (rest : String) → is_space (code c) ≡ false → StartsClean (keep c rest)
keep-StartsClean c String.[] h = rw (h, StartsClean) h
keep-StartsClean c (String.◌∷◌ x s) h = h

keep_clean :
    (c x : Char) (s rest : String)
    → rest ≡ String.◌∷◌ x s
    → keep c rest ≡ String.◌∷◌ c (String.◌∷◌ x s)
keep_clean c x s rest e = rw e

trim_right-EndsClean : (s : String) → EndsClean (trim_right s)
unfolding trim_right
trim_right-EndsClean String.[] = tt
trim_right-EndsClean (String.◌∷◌ c s) = keep-EndsClean c (trim_right s) (trim_right-EndsClean s)

trim_right-StartsClean : (s : String) → StartsClean s → StartsClean (trim_right s)
unfolding trim_right
trim_right-StartsClean String.[] h = tt
trim_right-StartsClean (String.◌∷◌ c s) h = keep-StartsClean c (trim_right s) h

pub trim_left_clean : (s : String) → StartsClean s → trim_left s ≡ s
unfolding trim_left
trim_left_clean String.[] h = refl
trim_left_clean (String.◌∷◌ c s) h = rw h

pub trim_right_clean : (s : String) → EndsClean s → trim_right s ≡ s
unfolding trim_right
trim_right_clean String.[] h = refl
trim_right_clean (String.◌∷◌ c String.[]) (last, h) = rw (last refl)
trim_right_clean (String.◌∷◌ c (String.◌∷◌ x s)) (last, h) =
    keep_clean c x s _ (trim_right_clean (String.◌∷◌ x s) h)

-- The result of `TrimSpace` neither starts nor ends with a space, and trimming it again leaves it.
pub trim_space_clean :
    (s : String)
    → StartsClean (trim_space s)
      × EndsClean (trim_space s)
      × (trim_space (trim_space s) ≡ trim_space s)
unfolding trim_space
trim_space_clean s =
    let start = trim_right-StartsClean (trim_left s) (trim_left-StartsClean s) in
    let end = trim_right-EndsClean (trim_left s) in
    (start, end, ap trim_right (trim_left_clean _ start) ∙ trim_right_clean _ end)
