-- ===== src/Core/Formatted.antt =====
-- src/jml_core.c: `jml_core_format_internal` puts the arguments in the places of the braces.

use jml.Base.{
  ◌⊎◌, ◌&&◌, ℕ, ◌+◌, ◌-◌, ◌<◌, ◌≡◌, refl, sym, ap, ◌∙◌, true, false, ◌||◌, not, List, [], ◌∷◌, ◌++◌,
  some, none, length, ltb, ◌==◌, Bool-cases, bind_runs, arith, if◌then◌else◌, inl, inr,
}
use jml.Util.Strings.{before_nul, strtok}
use jml.Core.Format.{
  value_strs, ends_in_braces, Filling, Formatted, text, format_err, null_last, checked, format_end,
  nothing_filled, format_internal,
}
use jml.Core.Nul.{before_nul-filled}
use jml.Core.Braces.{placeholders, filled, is_nil}
use jml.Core.Loop.{closed, counted, or_empty, with_last, FilledIn, format_loop-FilledIn}

-- The meaning of a format: the text, or the numbers of arguments that it takes and that it has.
abbrev pub formatted : List ℕ → List (List ℕ) → Formatted
formatted chars args =
    if placeholders chars == length args
    then text (filled chars args)
    else format_err (placeholders chars) (length args)

checked-formatted :
    (allowed : ℕ) (chars : List ℕ) (args : List (List ℕ)) (extra err : ℕ) (buffer : List ℕ)
    → err ≡ placeholders chars
    → extra ≡ err + allowed - length args
    → (placeholders chars ≡ length args → before_nul buffer ≡ filled chars args)
    → checked allowed args extra err buffer ≡ formatted chars args
checked-formatted allowed chars args extra err buffer is_err is_extra same =
    elim (Bool-cases (placeholders chars == length args)) [
      | inl enough ↦
          let fits : (ltb allowed extra || not (err == length args)) ≡ false =
            ground (arith, is_err, is_extra, enough) in
          rw (fits, enough) (ap text (same (ground (arith, enough))))
      | inr differs ↦
          let bad : (ltb allowed extra || not (err == length args)) ≡ true =
            ground (arith, is_err, is_extra, differs) in
          rw (bad, differs) (ap (λ k. format_err k (length args)) is_err)
    ]

-- The part of a format before its first NUL is empty, or ends in braces as the whole does.
abbrev pub EndsAlike : List ℕ → Type 0
EndsAlike chars =
    (before_nul chars ≡ []) ⊎ (ends_in_braces chars ≡ ends_in_braces (before_nul chars))

-- What a format gives by its part before the first NUL. An empty part goes through NULL, unless the whole ends in
-- braces.
abbrev pub outcome : List ℕ → List (List ℕ) → Formatted
outcome chars args =
    if is_nil (before_nul chars) && not (ends_in_braces chars)
    then null_last
    else formatted (before_nul chars) args

-- The text of a buffer that the loop has filled.
text_of :
    (chars : List ℕ) (values : List (List ℕ)) (buffer : List ℕ)
    → buffer ≡ filled (before_nul chars) (value_strs values)
    → before_nul buffer ≡ filled (before_nul chars) (value_strs values)
text_of chars values buffer e = ap before_nul e ∙ before_nul-filled chars values

module _ (chars : List ℕ) (values : List (List ℕ)) (f' : Filling)
    (g : FilledIn (value_strs values) (before_nul chars) nothing_filled f') where
  abbrev str : List ℕ
  str = before_nul chars

  abbrev args : List (List ℕ)
  args = value_strs values

  -- The total ends in braces, and no token is left.
  closed-formatted :
      ends_in_braces chars ≡ true
      → closed str ≡ true
      → format_end chars args f' ≡ formatted str args
  closed-formatted total ends =
      let all : f'.fmt_args ≡ placeholders str =
        g.count ∙ ap (λ b. 0 + counted b (placeholders str)) ends ∙ omega arith in
      rw total (
        checked-formatted 0 str args f'.fmt_extra f'.fmt_args f'.buffer all (omega (arith, g.extra))
          (λ enough.
            text_of chars values f'.buffer
              (sym (ap (λ b. with_last b f') ends) ∙ g.filling (omega (arith, enough)))))

  -- A token is left.
  tail-formatted :
      ends_in_braces chars ≡ false
      → closed str ≡ false
      → format_end chars args f' ≡ formatted str args
  tail-formatted total tail =
      let (l, is) = g.last tail in
      let all : f'.fmt_args ≡ placeholders str + 1 =
        g.count ∙ ap (λ b. 0 + counted b (placeholders str)) tail ∙ omega arith in
      rw (total, is)
        (checked-formatted 1 str args f'.fmt_extra (f'.fmt_args - 1) (f'.buffer ++ l)
          (omega (arith, all)) (omega (arith, g.extra, all))
          (λ enough. text_of chars values (f'.buffer ++ l) (
            ap (λ x. f'.buffer ++ or_empty x) (sym is)
            ∙ sym (ap (λ b. with_last b f') tail)
            ∙ g.filling (omega (arith, enough)))))

is_nil-eq : (s : List ℕ) → is_nil s ≡ true → s ≡ []
is_nil-eq [] h = refl
is_nil-eq (c ∷ s) h = absurd (ground (arith, h))

format_end-outcome :
    (chars : List ℕ) (values : List (List ℕ)) (f' : Filling)
    → EndsAlike chars
    → FilledIn (value_strs values) (before_nul chars) nothing_filled f'
    → (before_nul chars ≡ [] → f'.last ≡ none)
    → format_end chars (value_strs values) f' ≡ outcome chars (value_strs values)
format_end-outcome chars values f' alike g none_left =
    let str = before_nul chars in
    elim (Bool-cases (is_nil str)) [
      | inl empty ↦ elim (Bool-cases (ends_in_braces chars)) [
        | inl total ↦
            closed-formatted chars values f' g total (ap (λ b. b || ends_in_braces str) empty)
            ∙ sym (read (ap (λ b. b && not (ends_in_braces chars)) empty ∙ ap not total))
        | inr total ↦ rw (empty, total, none_left (is_nil-eq str empty)) refl
      ]
      | inr full ↦
          let ends : closed str ≡ ends_in_braces chars =
            ap (λ b. b || ends_in_braces str) full ∙ sym (same full) in
          elim (Bool-cases (ends_in_braces chars)) [
            | inl total ↦
                closed-formatted chars values f' g total (ends ∙ total)
                ∙ sym (read (ap (λ b. b && not (ends_in_braces chars)) full))
            | inr total ↦
                tail-formatted chars values f' g total (ends ∙ total)
                ∙ sym (read (ap (λ b. b && not (ends_in_braces chars)) full))
          ]
    ]
  where
    read :
        (is_nil (before_nul chars) && not (ends_in_braces chars)) ≡ false
        → outcome chars (value_strs values) ≡ formatted (before_nul chars) (value_strs values)
    read e = ap (λ b. if b then null_last else formatted (before_nul chars) (value_strs values)) e

    same :
        is_nil (before_nul chars) ≡ false → ends_in_braces chars ≡ ends_in_braces (before_nul chars)
    same full = elim alike [
      | inl empty ↦ absurd (ground (arith, ap is_nil empty, full))
      | inr e ↦ e
    ]

-- With fuel for one token more than the format has bytes before its first NUL `jml_core_format_internal` ends.
-- If these bytes have as many pairs of braces as there are arguments it gives them with each pair replaced by
-- its argument, that one before its first NUL too, and otherwise the exception with the two numbers; but if
-- there are no such bytes, and the format does not end in braces, it goes through NULL. The bytes before the
-- first NUL are none, or both they and the whole format end in braces, or neither does.
pub format_internal-outcome :
    (n : ℕ) (chars : List ℕ) (values : List (List ℕ))
    → EndsAlike chars
    → length (before_nul chars) < n
    → format_internal n chars values ≡ some (outcome chars (value_strs values))
unfolding format_internal strtok
format_internal-outcome n chars values alike fuel =
    let (f', run, g) =
      format_loop-FilledIn n (value_strs values) (before_nul chars) nothing_filled (omega arith)
        fuel in
    bind_runs _ run
      (ap some (format_end-outcome chars values f' alike g (λ e. g.none_read (ap is_nil e))))
