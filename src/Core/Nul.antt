-- ===== src/Core/Nul.antt =====
-- src/jml_core.c: the text that is made of a format and of arguments before their first NUL has no NUL.
use jml.Base.{ℕ, ◌≡◌, refl, ap, false, List, [], ◌∷◌, ◌++◌, get_or, drop, ◌==◌, if_lem}
use jml.Util.Strings.{before_nul}
use jml.Core.Format.{value_strs}
use jml.Core.Braces.{are_braces, filled}

abbrev HasNoNul : List ℕ → Type 0
HasNoNul [] = Unit {0}
HasNoNul (c ∷ s) = ((c == 0) ≡ false) × HasNoNul s

abbrev AllHaveNoNul : List (List ℕ) → Type 0
AllHaveNoNul [] = Unit {0}
AllHaveNoNul (s ∷ ss) = HasNoNul s × AllHaveNoNul ss

before_nul-HasNoNul : (s : List ℕ) → HasNoNul (before_nul s)
before_nul-HasNoNul [] = tt
before_nul-HasNoNul (c ∷ s) =
    if_lem HasNoNul (c == 0) (λ _. tt) λ other. (other, before_nul-HasNoNul s)

before_nul_same : (s : List ℕ) → HasNoNul s → before_nul s ≡ s
before_nul_same [] h = refl
before_nul_same (c ∷ s) (other, h) = rw other (ap (◌∷◌ c) (before_nul_same s h))

value_strs-AllHaveNoNul : (values : List (List ℕ)) → AllHaveNoNul (value_strs values)
value_strs-AllHaveNoNul [] = tt
value_strs-AllHaveNoNul (value ∷ values) =
    (before_nul-HasNoNul value, value_strs-AllHaveNoNul values)

append-HasNoNul : (s t : List ℕ) → HasNoNul s → HasNoNul t → HasNoNul (s ++ t)
append-HasNoNul [] t h g = g
append-HasNoNul (c ∷ s) t (other, h) g = (other, append-HasNoNul s t h g)

first-HasNoNul : (args : List (List ℕ)) → AllHaveNoNul args → HasNoNul (get_or args 0 [])
first-HasNoNul [] all = tt
first-HasNoNul (a ∷ args) (h, all) = h

rest-AllHaveNoNul : (args : List (List ℕ)) → AllHaveNoNul args → AllHaveNoNul (drop 1 args)
rest-AllHaveNoNul [] all = tt
rest-AllHaveNoNul (a ∷ args) (h, all) = all

filled-HasNoNul :
    (s : List ℕ) (args : List (List ℕ)) → HasNoNul s → AllHaveNoNul args → HasNoNul (filled s args)
unfolding filled
filled-HasNoNul [] args h all = tt
filled-HasNoNul (c ∷ []) args h all = h
filled-HasNoNul (c ∷ d ∷ s) args (hc, (hd, h)) all =
    if_lem HasNoNul (are_braces c d)
      (λ pair.
        append-HasNoNul (get_or args 0 []) (filled s (drop 1 args)) (first-HasNoNul args all)
          (filled-HasNoNul s (drop 1 args) h (rest-AllHaveNoNul args all)))
      λ char. (hc, filled-HasNoNul (d ∷ s) args (hd, h) all)

-- `strlen(buffer)` is the length of the whole text.
pub before_nul-filled :
    (chars : List ℕ) (values : List (List ℕ))
    → before_nul (filled (before_nul chars) (value_strs values))
      ≡ filled (before_nul chars) (value_strs values)
before_nul-filled chars values = before_nul_same (filled (before_nul chars) (value_strs values)) (
    filled-HasNoNul (before_nul chars) (value_strs values) (before_nul-HasNoNul chars)
      (value_strs-AllHaveNoNul values))
