-- ===== src/Cors/Wildcards.antt =====
-- A pattern with one asterisk against a text.
use double_entry_bank_go.Base.{
  ◌+◌, ◌≡◌, ◌↔◌, refl, sym, ◌∙◌, ap, subst, true, ◌&&◌, leb, ◌++◌, length, arith,
}
use mathlib.Core.List.{append_assoc}
use double_entry_bank_go.Runes.{Runes, has_prefix, has_suffix}
use double_entry_bank_go.Runes.Laws.{
  length-append, has_prefix-append, has_prefix-rest, has_suffix-append, has_suffix-front,
  has_suffix_behind,
}
use double_entry_bank_go.Cors.{CorsWildcard, match_wildcard}

-- The text is the prefix, anything, and the suffix.
abbrev pub Between : CorsWildcard → Runes → Type 0
Between w s = (middle : Runes) × (s ≡ w.prefix ++ (middle ++ w.suffix))

pub match_wildcard_iff : (w : CorsWildcard) (s : Runes) → (match_wildcard w s ≡ true) ↔ Between w s
unfolding match_wildcard
match_wildcard_iff w s = (forth, back)
  where
    forth :
        (leb (length w.prefix + length w.suffix) (length s)
            && has_prefix s w.prefix
            && has_suffix s w.suffix)
          ≡ true
        → Between w s
    forth h =
        let (rest, e) = has_prefix-rest s w.prefix (ground arith) in
        let sum = length-append w.prefix rest in
        let size : length s ≡ length (w.prefix ++ rest) = ap length e in
        let (middle, e') = has_suffix-front rest w.suffix (
          has_suffix_behind w.prefix rest w.suffix (ground arith)
            (subst (λ k. has_suffix k w.suffix ≡ true) e (ground arith))) in
        (middle, e ∙ ap (λ k. w.prefix ++ k) e')

    back :
        Between w s
        → (leb (length w.prefix + length w.suffix) (length s)
            && has_prefix s w.prefix
            && has_suffix s w.suffix)
          ≡ true
    back (middle, e) =
        let size : length s ≡ length (w.prefix ++ (middle ++ w.suffix)) = ap length e in
        let front = has_prefix-append w.prefix (middle ++ w.suffix) in
        let end = has_suffix-append (w.prefix ++ middle) w.suffix in
        let short : leb (length w.prefix + length w.suffix) (length s) ≡ true =
          ground
            (arith, length-append w.prefix (middle ++ w.suffix), length-append middle w.suffix) in
        let starts : has_prefix s w.prefix ≡ true = rw e front in
        let ends : has_suffix s w.suffix ≡ true =
          subst (λ k. has_suffix k w.suffix ≡ true) (append_assoc w.prefix middle w.suffix ∙ sym e)
            end in
        rw (short, starts, ends) refl
