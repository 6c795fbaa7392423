-- ===== src/Core/Tests.antt =====
-- src/jml_core.c: a few format strings.
use jml.Base.{inr, ◌++◌, ℕ, ◌≡◌, refl, List, [], ◌∷◌, some, codes, arith}
use jml.Util.Strings.{strtok, strstr}
use jml.Core.Format.{value_strs, text, format_err, null_last, format_loop, format_internal}
use jml.Core.Formatted.{outcome, format_internal-outcome}

abbrev two_args : List (List ℕ)
two_args = codes "x" ∷ codes "yz" ∷ []

formats_two : format_internal 9 (codes "a{}b{}c") two_args ≡ some (text (codes "axbyzc"))
unfolding format_internal format_loop strtok strstr
formats_two = refl

formats_too_few : format_internal 9 (codes "{}{}") (codes "x" ∷ []) ≡ some (format_err 2 1)
unfolding format_internal format_loop strtok strstr
formats_too_few = refl

formats_nothing : format_internal 9 [] [] ≡ some null_last
unfolding format_internal format_loop strtok strstr
formats_nothing = refl

-- A NUL before the first token, and one behind it.
formats_nul : format_internal 9 (0 ∷ codes "abc") [] ≡ some null_last
unfolding format_internal format_loop strtok strstr
formats_nul = refl

formats_cut :
    format_internal 9 (codes "a{}b" ++ 0 ∷ codes "c") (codes "x" ∷ []) ≡ some (text (codes "axb"))
unfolding format_internal format_loop strtok strstr
formats_cut = refl

format_internal-outcome_example :
    format_internal 9 (codes "a{}b{}c") two_args
    ≡ some (outcome (codes "a{}b{}c") (value_strs two_args))
format_internal-outcome_example =
    format_internal-outcome 9 (codes "a{}b{}c") two_args (inr refl) (omega arith)
