-- ===== src/Runes/Trim.antt =====
-- Trimming a list of code points, and the ends of what is left.
use double_entry_bank_go.Base.{
  ℕ, [], ◌∷◌, ◌≡◌, refl, ◌∙◌, ap, true, false, ◌&&◌, inl, inr, arith, Bool-cases, if◌then◌else◌,
}
use double_entry_bank_go.Text.{is_space}
use double_entry_bank_go.Runes.{Runes, is_nil, trim_left, trim_right, trim_space}

-- The first character, if there is one, is no space; and likewise the last.
abbrev pub StartsClean : Runes → Type 0
StartsClean [] = Unit
StartsClean (c ∷ s) = is_space c ≡ false

abbrev pub EndsClean : Runes → Type 0
EndsClean [] = Unit
EndsClean (c ∷ s) = (is_nil s ≡ true → is_space c ≡ false) × EndsClean s

trim_left-StartsClean : (s : Runes) → StartsClean (trim_left s)
unfolding trim_left
trim_left-StartsClean [] = tt
trim_left-StartsClean (c ∷ s) = elim (Bool-cases (is_space c)) [
  | inl space ↦ rw (space, StartsClean) (trim_left-StartsClean s)
  | inr clean ↦ rw (clean, StartsClean) clean
]

-- One step of `trim_right`, whatever is left of the rest of the text.
abbrev keep : ℕ → Runes → Runes
keep c rest = if is_nil rest && is_space c then [] else c ∷ rest

keep-EndsClean : (c : ℕ) (rest : Runes) → EndsClean rest → EndsClean (keep c rest)
keep-EndsClean c [] h = elim (Bool-cases (is_space c)) [
  | inl space ↦ rw (space, EndsClean) tt
  | inr clean ↦ rw (clean, EndsClean) ((λ _. clean), tt)
]
keep-EndsClean c (x ∷ s) h = ((λ e. ground arith), h)

keep-StartsClean : (c : ℕ) (rest : Runes) → is_space c ≡ false → StartsClean (keep c rest)
keep-StartsClean c [] h = rw (h, StartsClean) h
keep-StartsClean c (x ∷ s) h = h

keep_clean : (c x : ℕ) (s rest : Runes) → rest ≡ x ∷ s → keep c rest ≡ c ∷ x ∷ s
keep_clean c x s rest e = rw e

trim_right-EndsClean : (s : Runes) → EndsClean (trim_right s)
unfolding trim_right
trim_right-EndsClean [] = tt
trim_right-EndsClean (c ∷ s) = keep-EndsClean c (trim_right s) (trim_right-EndsClean s)

trim_right-StartsClean : (s : Runes) → StartsClean s → StartsClean (trim_right s)
unfolding trim_right
trim_right-StartsClean [] h = tt
trim_right-StartsClean (c ∷ s) h = keep-StartsClean c (trim_right s) h

pub trim_left_clean : (s : Runes) → StartsClean s → trim_left s ≡ s
unfolding trim_left
trim_left_clean [] h = refl
trim_left_clean (c ∷ s) h = rw h

pub trim_right_clean : (s : Runes) → EndsClean s → trim_right s ≡ s
unfolding trim_right
trim_right_clean [] h = refl
trim_right_clean (c ∷ []) (last, h) = rw (last refl)
trim_right_clean (c ∷ x ∷ s) (last, h) = keep_clean c x s _ (trim_right_clean (x ∷ s) h)

-- The result of `TrimSpace` neither starts nor ends with a space, and trimming it again leaves it.
pub trim_space_clean :
    (s : Runes)
    → StartsClean (trim_space s)
      × EndsClean (trim_space s)
      × (trim_space (trim_space s) ≡ trim_space s)
unfolding trim_space
trim_space_clean s =
    let start = trim_right-StartsClean (trim_left s) (trim_left-StartsClean s) in
    let end = trim_right-EndsClean (trim_left s) in
    (start, end, ap trim_right (trim_left_clean _ start) ∙ trim_right_clean _ end)
