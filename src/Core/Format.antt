-- ===== src/Core/Format.antt =====
-- src/jml_core.c: `jml_core_format_internal`. The characters of a string object may hold a NUL, where the copy that
-- the tokens are cut from ends. The arguments are what `jml_value_stringify` makes of them, read as C strings.
use jml.Base.{
  ℕ, zero, suc, ◌+◌, ◌-◌, Bool, ◌&&◌, ◌||◌, not, List, [], ◌∷◌, ◌++◌, Option, some, none, length,
  get_or, leb, ltb, ◌==◌, if◌then◌else◌, ◌>>=◌,
}
use jml.Util.Strings.{before_nul, strtok}

abbrev pub braces : List ℕ
braces = b'{' ∷ b'}' ∷ []

-- The variables of the loop.
pub record Filling : Type 0 where
  pub buffer : List ℕ
  pub fmt_args : ℕ
  pub fmt_extra : ℕ
  pub last : Option (List ℕ)

-- The body of the loop.
abbrev pub fill_token : List (List ℕ) → List ℕ → Filling → Filling
fill_token args token f =
    let over = leb (length args) f.fmt_args in
    record {
      buffer = if over then f.buffer else f.buffer ++ token ++ get_or args f.fmt_args [];
      fmt_args = f.fmt_args + 1;
      fmt_extra = if over then f.fmt_extra + 1 else f.fmt_extra;
      last = some token;
    }

-- `none`: no fuel is left.
unfoldable pub format_loop :
    ℕ → List (List ℕ) → Option (List ℕ) × Option (List ℕ) → Filling → Option Filling
unfolding strtok
format_loop zero args next f = none
format_loop (suc n) args (none, save) f = some f
format_loop (suc n) args (some token, save) f =
    format_loop n args (strtok none braces save) (fill_token args token f)

pub data Formatted : Type 0 where
  text : List ℕ → Formatted
  -- `fmt_err` and `arg_count`
  format_err : ℕ → ℕ → Formatted
  -- `jml_strcat(buffer, NULL)`
  null_last : Formatted

abbrev pub ends_in_braces : List ℕ → Bool
ends_in_braces chars =
    leb 2 (length chars)
    && (get_or chars (length chars - 1) 0 == b'}' && get_or chars (length chars - 2) 0 == b'{')

-- The result, from the tests of `fmt_extra > 0` and `fmt_err != arg_count`; `strlen` ends the buffer at a NUL.
abbrev pub checked : ℕ → List (List ℕ) → ℕ → ℕ → List ℕ → Formatted
checked allowed args extra err buffer =
    if ltb allowed extra || not (err == length args)
    then format_err err (length args)
    else text (before_nul buffer)

-- What follows the loop; `fmt_extra` and `fmt_err` are one less where the format does not end in braces.
abbrev pub format_end : List ℕ → List (List ℕ) → Filling → Formatted
format_end chars args f =
    if ends_in_braces chars then checked 0 args f.fmt_extra f.fmt_args f.buffer else elim f.last [
      | none ↦ null_last
      | some last ↦ checked 1 args f.fmt_extra (f.fmt_args - 1) (f.buffer ++ last)
    ]

abbrev pub nothing_filled : Filling
nothing_filled = record { buffer = []; fmt_args = 0; fmt_extra = 0; last = none }

-- `value_str` of each argument.
abbrev pub value_strs : List (List ℕ) → List (List ℕ)
value_strs [] = []
value_strs (value ∷ values) = before_nul value ∷ value_strs values

unfoldable pub format_internal : ℕ → List ℕ → List (List ℕ) → Option Formatted
unfolding format_loop strtok
format_internal n chars values =
    let args = value_strs values in
    let fmt_str = before_nul chars in
    format_loop n args (strtok (some fmt_str) braces none) nothing_filled >>= λ f.
    some (format_end chars args f)
