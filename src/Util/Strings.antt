-- ===== src/Util/Strings.antt =====
-- src/jml_util.c: `jml_strtok`. A C string is the list of its bytes before the NUL, and a pointer into it is the
-- suffix that it points at.
use jml.Base.{
  ℕ, Bool, true, false, ◌&&◌, List, [], ◌∷◌, Option, some, none, length, drop, ◌==◌, if◌then◌else◌,
}

-- The C string that an array of characters holds: those before the first NUL.
abbrev pub before_nul : List ℕ → List ℕ
before_nul [] = []
before_nul (c ∷ s) = let rest = before_nul s in if c == 0 then [] else c ∷ rest

abbrev pub starts_with : List ℕ → List ℕ → Bool
starts_with s [] = true
starts_with [] (d ∷ ds) = false
starts_with (c ∷ s) (d ∷ ds) = c == d && starts_with s ds

abbrev pub behind : ℕ → Option (List ℕ × List ℕ) → Option (List ℕ × List ℕ)
behind c none = none
behind c (some (before, found)) = some (c ∷ before, found)

-- `strstr`: what stands before the first match, and the string from there on.
unfoldable pub strstr : List ℕ → List ℕ → Option (List ℕ × List ℕ)
strstr [] delim = if starts_with [] delim then some ([], []) else none
strstr (c ∷ s) delim =
    let later = behind c (strstr s delim) in
    if starts_with (c ∷ s) delim then some ([], c ∷ s) else later

-- The token, and what is left in `save`.
abbrev pub cut_at : List ℕ → List ℕ → Option (List ℕ × List ℕ) → Option (List ℕ) × Option (List ℕ)
cut_at str delim none = (some str, none)
cut_at str delim (some (before, found)) = (some before, some (drop (length delim) found))

abbrev pub strtok_from : List ℕ → List ℕ → Option (List ℕ) × Option (List ℕ)
strtok_from [] delim = (none, some [])
strtok_from (c ∷ s) delim = cut_at (c ∷ s) delim (strstr (c ∷ s) delim)

unfoldable pub strtok :
    Option (List ℕ) → List ℕ → Option (List ℕ) → Option (List ℕ) × Option (List ℕ)
unfolding strstr
strtok (some str) delim save = strtok_from str delim
strtok none delim (some str) = strtok_from str delim
strtok none delim none = (none, none)
