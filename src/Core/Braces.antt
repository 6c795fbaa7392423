-- ===== src/Core/Braces.antt =====
-- src/jml_core.c: what a format string means, and what its first pair of braces cuts it into.

use jml.Base.{
  ℕ, suc, ◌+◌, ◌-◌, ◌≤◌, ◌≡◌, refl, sym, ap, ◌∙◌, Bool, true, false, ◌&&◌, ◌||◌, List, [], ◌∷◌,
  ◌++◌, some, none, length, get_or, drop, leb, ◌==◌, Bool-cases, arith, if◌then◌else◌, inl, inr,
}
use jml.Util.Strings.{starts_with, behind, strstr}
use jml.Core.Format.{braces, ends_in_braces}

abbrev pub are_braces : ℕ → ℕ → Bool
are_braces c d = c == b'{' && d == b'}'

-- The pairs of braces of a format string.
unfoldable pub placeholders : List ℕ → ℕ
placeholders [] = 0
placeholders (c ∷ []) = 0
placeholders (c ∷ d ∷ s) =
    let behind_pair = placeholders s in
    let behind_char = placeholders (d ∷ s) in
    if are_braces c d then 1 + behind_pair else behind_char

-- The format string with an argument for each pair of braces.
unfoldable pub filled : List ℕ → List (List ℕ) → List ℕ
filled [] args = []
filled (c ∷ []) args = c ∷ []
filled (c ∷ d ∷ s) args =
    let behind_pair = filled s (drop 1 args) in
    let behind_char = filled (d ∷ s) args in
    if are_braces c d then get_or args 0 [] ++ behind_pair else c ∷ behind_char

abbrev pub is_nil : List ℕ → Bool
is_nil [] = true
is_nil (c ∷ s) = false

-- A string without braces, or one with its first pair behind `before`.
pub data Cut (s : List ℕ) : Type 0 where
  whole :
      strstr s braces ≡ none
      → placeholders s ≡ 0
      → ((args : List (List ℕ)) → filled s args ≡ s)
      → ends_in_braces s ≡ false
      → Cut s
  pair :
      (before rest : List ℕ)
      → strstr s braces ≡ some (before, b'{' ∷ b'}' ∷ rest)
      → placeholders s ≡ 1 + placeholders rest
      → ((args : List (List ℕ))
          → filled s args ≡ before ++ get_or args 0 [] ++ filled rest (drop 1 args))
      → ends_in_braces s ≡ is_nil rest || ends_in_braces rest
      → length rest + 2 ≤ length s
      → Cut s

-- The test on the last two bytes, for a string of `m` bytes.
abbrev ends_at : List ℕ → ℕ → Bool
ends_at s m = leb 2 m && (get_or s (m - 1) 0 == b'}' && get_or s (m - 2) 0 == b'{')

ends_of :
    (s : List ℕ) (n : ℕ)
    → ends_at s (suc (suc n)) ≡ (get_or s (suc n) 0 == b'}' && get_or s n 0 == b'{')
ends_of s n =
    let two : leb 2 (suc (suc n)) ≡ true = ground arith in
    let one_off : suc (suc n) - 1 ≡ suc n = omega arith in
    let two_off : suc (suc n) - 2 ≡ n = omega arith in
    ap (λ b. b && (get_or s (suc (suc n) - 1) 0 == b'}' && get_or s (suc (suc n) - 2) 0 == b'{'))
      two
    ∙ ap (λ k. get_or s k 0 == b'}' && get_or s (suc (suc n) - 2) 0 == b'{') one_off
    ∙ ap (λ k. get_or s (suc n) 0 == b'}' && get_or s k 0 == b'{') two_off

-- A byte before two others is none of the last two.
ends_later : (c d e : ℕ) (s : List ℕ) → ends_in_braces (c ∷ d ∷ e ∷ s) ≡ ends_in_braces (d ∷ e ∷ s)
ends_later c d e s = ends_of (c ∷ d ∷ e ∷ s) (suc (length s)) ∙ sym (ends_of (d ∷ e ∷ s) (length s))

and_false : (b : Bool) → b && false ≡ false
and_false true = refl
and_false false = refl

ends_pair :
    (rest : List ℕ) → ends_in_braces (b'{' ∷ b'}' ∷ rest) ≡ is_nil rest || ends_in_braces rest
ends_pair [] = refl
ends_pair (c ∷ []) = and_false (c == b'}')
ends_pair (c ∷ d ∷ s) = ends_later b'{' b'}' c (d ∷ s) ∙ ends_later b'}' c d s

-- Two bytes that are no pair, and no more.
ends_two : (c d : ℕ) → are_braces c d ≡ false → ends_in_braces (c ∷ d ∷ []) ≡ false
ends_two c d other = ground arith

-- A pair at the start.
first-Cut : (rest : List ℕ) → Cut (b'{' ∷ b'}' ∷ rest)
unfolding strstr placeholders filled
first-Cut rest = pair [] rest refl refl (λ args. refl) (ends_pair rest) (omega arith)

ends_before :
    (c d : ℕ) (s : List ℕ)
    → are_braces c d ≡ false
    → ends_in_braces (c ∷ d ∷ s) ≡ ends_in_braces (d ∷ s)
ends_before c d [] other = ends_two c d other
ends_before c d (e ∷ s) other = ends_later c d e s

and_true : (b : Bool) → b && true ≡ b
and_true true = refl
and_true false = refl

starts : (c d : ℕ) (s : List ℕ) → starts_with (c ∷ d ∷ s) braces ≡ are_braces c d
starts c d s = ap (λ b. c == b'{' && b) (and_true (d == b'}'))

module _ (c d : ℕ) (s : List ℕ) (other : are_braces c d ≡ false) where
  strstr_later : strstr (c ∷ d ∷ s) braces ≡ behind c (strstr (d ∷ s) braces)
  unfolding strstr
  strstr_later =
      ap (λ b. if b then some ([], c ∷ d ∷ s) else behind c (strstr (d ∷ s) braces))
        (starts c d s ∙ other)

  placeholders_later : placeholders (c ∷ d ∷ s) ≡ placeholders (d ∷ s)
  unfolding placeholders
  placeholders_later = ap (λ b. if b then 1 + placeholders s else placeholders (d ∷ s)) other

  filled_later : (args : List (List ℕ)) → filled (c ∷ d ∷ s) args ≡ c ∷ filled (d ∷ s) args
  unfolding filled
  filled_later args =
      ap (λ b. if b then get_or args 0 [] ++ filled s (drop 1 args) else c ∷ filled (d ∷ s) args)
        other

  -- A byte that starts no pair.
  later-Cut : Cut (d ∷ s) → Cut (c ∷ d ∷ s)
  later-Cut (whole none_found no_pair same ends) =
      whole (strstr_later ∙ ap (behind c) none_found) (placeholders_later ∙ no_pair)
        (λ args. filled_later args ∙ ap (λ l. c ∷ l) (same args)) (ends_before c d s other ∙ ends)
  later-Cut (pair before rest found more same ends size) =
      pair (c ∷ before) rest (strstr_later ∙ ap (behind c) found) (placeholders_later ∙ more)
        (λ args. filled_later args ∙ ap (λ l. c ∷ l) (same args)) (ends_before c d s other ∙ ends)
        (omega (arith, size))

pub cut : (s : List ℕ) → Cut s
unfolding strstr placeholders filled
cut [] = whole refl refl (λ args. refl) refl
cut (c ∷ []) =
    whole (ap (λ b. if b then some ([], c ∷ []) else none) (and_false (c == b'{'))) refl
      (λ args. refl) refl
cut (c ∷ d ∷ s) = elim (Bool-cases (are_braces c d)) [
  | inl here ↦
      let left : c ≡ b'{' = ground (arith, here) in
      let right : d ≡ b'}' = ground (arith, here) in rw (left, right) (first-Cut s)
  | inr other ↦ later-Cut c d s other (cut (d ∷ s))
]
