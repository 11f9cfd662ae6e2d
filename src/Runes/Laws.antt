-- ===== src/Runes/Laws.antt =====
-- What the operations on texts compute.
use double_entry_bank_go.Base.{
  ℕ, ◌+◌, ◌≤◌, ◌≡◌, refl, ap, inl, inr, true, ◌==◌, [], ◌∷◌, ◌++◌, length, some, Bool-cases,
  Option-cases, arith,
}
use double_entry_bank_go.Runes.{Runes, same, has_prefix, has_suffix, around}

pub same-eq : (s t : Runes) → same s t ≡ true → s ≡ t
unfolding same
same-eq [] [] h = refl
same-eq [] (y ∷ ys) h = cc
same-eq (x ∷ xs) [] h = cc
same-eq (x ∷ xs) (y ∷ ys) h = ground (arith, same-eq xs ys)

pub same_refl : (s : Runes) → same s s ≡ true
unfolding same
same_refl [] = refl
same_refl (x ∷ xs) = ground (arith, same_refl xs)

pub length-append : (s t : Runes) → length (s ++ t) ≡ length s + length t
length-append [] t = omega arith
length-append (x ∷ s) t = omega (arith, length-append s t)

pub has_prefix-append : (p s : Runes) → has_prefix (p ++ s) p ≡ true
unfolding has_prefix
has_prefix-append [] [] = refl
has_prefix-append [] (c ∷ s) = refl
has_prefix-append (c ∷ p) s = ground (arith, has_prefix-append p s)

pub has_prefix-rest : (s p : Runes) → has_prefix s p ≡ true → (rest : Runes) × (s ≡ p ++ rest)
unfolding has_prefix
has_prefix-rest s [] h = (s, refl)
has_prefix-rest [] (c ∷ p) h = absurd (cc)
has_prefix-rest (c ∷ s) (x ∷ p) h =
    let (rest, e) = has_prefix-rest s p (ground arith) in (rest, ground arith)

pub has_suffix_self : (s : Runes) → has_suffix s s ≡ true
unfolding has_suffix
has_suffix_self [] = same_refl []
has_suffix_self (c ∷ s) = ground (arith, same_refl (c ∷ s))

pub has_suffix-append : (s t : Runes) → has_suffix (s ++ t) t ≡ true
unfolding has_suffix
has_suffix-append [] t = has_suffix_self t
has_suffix-append (c ∷ s) t = ground (arith, has_suffix-append s t)

pub has_suffix-front : (s t : Runes) → has_suffix s t ≡ true → (front : Runes) × (s ≡ front ++ t)
unfolding has_suffix
has_suffix-front [] t h = ([], same-eq [] t h)
has_suffix-front (c ∷ s) t h = elim (Bool-cases (same (c ∷ s) t)) [
  | inl whole ↦ ([], same-eq (c ∷ s) t whole)
  | inr more ↦
      let (front, e) = has_suffix-front s t (ground arith) in (c ∷ front, ap (λ k. c ∷ k) e)
]

-- A suffix that is short enough is a suffix of what follows a prefix.
pub has_suffix_behind :
    (p s t : Runes) → length t ≤ length s → has_suffix (p ++ s) t ≡ true → has_suffix s t ≡ true
unfolding has_suffix
has_suffix_behind [] s t short h = h
has_suffix_behind (c ∷ p) s t short h = elim (Bool-cases (same (c ∷ (p ++ s)) t)) [
  | inl whole ↦
      let e = ap length (same-eq (c ∷ (p ++ s)) t whole) in
      absurd (omega (arith, length-append p s))
  | inr more ↦ has_suffix_behind p s t short (ground arith)
]

-- The texts around the first byte `b` spell the whole.
pub around-some :
    (b : ℕ) (s before behind : Runes)
    → around b s ≡ some (before, behind)
    → s ≡ before ++ b ∷ behind
unfolding around
around-some b [] before behind h = absurd (cc)
around-some b (c ∷ s) before behind h = elim (Bool-cases (c == b)) [
  | inl here ↦ ground arith
  | inr later ↦ elim (Option-cases (around b s)) [
    | inl no_star ↦ absurd (ground arith)
    | inr (found, e) ↦ let ih = around-some b s found.0 found.1 e in ground arith
  ]
]
