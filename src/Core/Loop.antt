-- ===== src/Core/Loop.antt =====
-- src/jml_core.c: `jml_core_format_internal` goes through the tokens of the format.

use jml.Base.{
  ℕ, zero, suc, ◌+◌, ◌-◌, ◌≤◌, ◌<◌, ◌≡◌, refl, sym, ap, ◌∙◌, Bool, true, false, ◌||◌, List, [], ◌∷◌,
  ◌++◌, append-nil, append_assoc, Option, some, none, length, get_or, drop, leb, arith,
  if◌then◌else◌,
}
use jml.Util.Strings.{strtok, strtok_from}
use jml.Core.Format.{braces, ends_in_braces, Filling, fill_token, format_loop}
use jml.Core.Braces.{placeholders, filled, is_nil, whole, pair, cut}

-- No token is left behind the last pair of braces.
abbrev pub closed : List ℕ → Bool
closed s = is_nil s || ends_in_braces s

abbrev pub counted : Bool → ℕ → ℕ
counted b p = if b then p else p + 1

abbrev pub token_count : List ℕ → ℕ
token_count s = counted (closed s) (placeholders s)

counted_suc : (b : Bool) (k p : ℕ) → k + 1 + counted b p ≡ k + counted b (1 + p)
counted_suc true k p = omega arith
counted_suc false k p = omega arith

abbrev pub or_empty : Option (List ℕ) → List ℕ
or_empty none = []
or_empty (some l) = l

-- The text, with the last token where it is no argument's.
abbrev pub with_last : Bool → Filling → List ℕ
with_last true f = f.buffer
with_last false f = f.buffer ++ or_empty f.last

-- What the loop makes of the tokens of `s`.
pub record FilledIn (args : List (List ℕ)) (s : List ℕ) (f f' : Filling) : Type 0 where
  pub count : f'.fmt_args ≡ f.fmt_args + token_count s
  pub extra : f'.fmt_extra ≡ f'.fmt_args - length args
  pub last : closed s ≡ false → (l : List ℕ) × (f'.last ≡ some l)
  pub none_read : is_nil s ≡ true → f'.last ≡ f.last
  pub filling :
      f.fmt_args + placeholders s ≡ length args
      → with_last (closed s) f' ≡ f.buffer ++ filled s (drop f.fmt_args args)

get_or-drop : (args : List (List ℕ)) (k : ℕ) → get_or (drop k args) 0 [] ≡ get_or args k []
get_or-drop [] zero = refl
get_or-drop [] (suc k) = refl
get_or-drop (a ∷ args) zero = refl
get_or-drop (a ∷ args) (suc k) = get_or-drop args k

drop-drop : (args : List (List ℕ)) (k : ℕ) → drop 1 (drop k args) ≡ drop (suc k) args
drop-drop [] zero = refl
drop-drop [] (suc k) = refl
drop-drop (a ∷ args) zero = refl
drop-drop (a ∷ args) (suc k) = drop-drop args k

fill_token-extra :
    (args : List (List ℕ)) (token : List ℕ) (f : Filling)
    → f.fmt_extra ≡ f.fmt_args - length args
    → (fill_token args token f).fmt_extra ≡ f.fmt_args + 1 - length args
fill_token-extra args token f e = ground (arith, e)

fill_token-buffer :
    (args : List (List ℕ)) (token : List ℕ) (f : Filling)
    → f.fmt_args < length args
    → (fill_token args token f).buffer ≡ f.buffer ++ token ++ get_or args f.fmt_args []
fill_token-buffer args token f lt =
    let inside : leb (length args) f.fmt_args ≡ false = ground arith in rw inside refl

fill_token-over :
    (args : List (List ℕ)) (token : List ℕ) (f : Filling)
    → length args ≤ f.fmt_args
    → (fill_token args token f).buffer ≡ f.buffer
fill_token-over args token f le =
    let over : leb (length args) f.fmt_args ≡ true = ground arith in rw over refl

module _ (args : List (List ℕ)) (f : Filling) (e : f.fmt_extra ≡ f.fmt_args - length args) where
  nil-FilledIn : FilledIn args [] f f
  unfolding placeholders filled
  nil-FilledIn = record {
    count = omega arith;
    extra = e;
    last = λ tail. absurd (ground (arith, tail));
    none_read = λ _. refl;
    filling = λ enough. sym (append-nil f.buffer);
  }

  -- The last token, with no braces in it.
  whole-FilledIn :
      (s : List ℕ)
      → closed s ≡ false
      → placeholders s ≡ 0
      → ((given : List (List ℕ)) → filled s given ≡ s)
      → FilledIn args s f (fill_token args s f)
  whole-FilledIn s tail no_pair same = record {
    count = rw (tail, no_pair) refl;
    extra = fill_token-extra args s f e;
    last = λ _. (s, refl);
    none_read = λ empty. absurd (ground (arith, tail, empty));
    filling = λ enough. rw tail (
        ap (λ l. l ++ s) (fill_token-over args s f (omega (arith, no_pair)))
        ∙ ap (λ l. f.buffer ++ l) (sym (same (drop f.fmt_args args))));
  }

  -- A token, and the argument behind it.
  pair-FilledIn :
      (s before rest : List ℕ) (f' : Filling)
      → is_nil s ≡ false
      → placeholders s ≡ 1 + placeholders rest
      → ((given : List (List ℕ))
          → filled s given ≡ before ++ get_or given 0 [] ++ filled rest (drop 1 given))
      → closed s ≡ closed rest
      → FilledIn args rest (fill_token args before f) f'
      → FilledIn args s f f'
  pair-FilledIn s before rest f' full more same ends g = record {
    count =
        g.count
        ∙ counted_suc (closed rest) f.fmt_args (placeholders rest)
        ∙ ap (λ b. f.fmt_args + counted b (1 + placeholders rest)) (sym ends)
        ∙ ap (λ p. f.fmt_args + counted (closed s) p) (sym more);
    extra = g.extra;
    last = λ tail. g.last (sym ends ∙ tail);
    none_read = λ empty. absurd (ground (arith, full, empty));
    filling = λ enough.
        let k = f.fmt_args in
        let arg = get_or args k [] in
        let behind = filled rest (drop (k + 1) args) in
        ap (λ b. with_last b f') ends
        ∙ g.filling (omega (arith, more))
        ∙ ap (λ l. l ++ filled rest (drop (k + 1) args))
            (fill_token-buffer args before f (omega (arith, more)))
        ∙ ap (λ l. l ++ behind) (append_assoc f.buffer before arg)
        ∙ append_assoc f.buffer (before ++ arg) behind
        ∙ ap (λ l. f.buffer ++ (before ++ l ++ behind)) (sym (get_or-drop args k))
        ∙ ap (λ l. f.buffer ++ (before ++ get_or (drop k args) 0 [] ++ filled rest l))
            (sym (drop-drop args k ∙ ap (λ n. drop n args) {x = suc k} {y = k + 1} (omega arith)))
        ∙ ap (λ l. f.buffer ++ l) (sym (same (drop k args)));
  }

-- The loop ends with all tokens of a string.
pub format_loop-FilledIn :
    (n : ℕ) (args : List (List ℕ)) (s : List ℕ) (f : Filling)
    → f.fmt_extra ≡ f.fmt_args - length args
    → length s < n
    → (f' : Filling) × (format_loop n args (strtok_from s braces) f ≡ some f')
      × FilledIn args s f f'
unfolding format_loop strtok
format_loop-FilledIn zero args s f e fuel = absurd (omega arith)
format_loop-FilledIn (suc n) args [] f e fuel = (f, refl, nil-FilledIn args f e)
format_loop-FilledIn (suc zero) args (c ∷ t) f e fuel = absurd (omega arith)
format_loop-FilledIn (suc (suc n)) args (c ∷ t) f e fuel = elim (cut (c ∷ t)) [
  | whole none_found no_pair same ends ↦
      rw none_found
        (fill_token args (c ∷ t) f, refl, whole-FilledIn args f e (c ∷ t) ends no_pair same)
  | pair before rest found more same ends size ↦
      let (f', run, g) =
        format_loop-FilledIn (suc n) args rest (fill_token args before f)
          (fill_token-extra args before f e) (omega (arith, size, fuel)) in
      rw found (f', run, pair-FilledIn args f e (c ∷ t) before rest f' refl more same ends g)
]
