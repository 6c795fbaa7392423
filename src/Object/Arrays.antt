-- ===== src/Object/Arrays.antt =====
-- src/jml_type.c and src/jml_vm.c: arrays that are appended to one another, and the one that ends never.
use mathlib.Core.Path.{subst}
use jml.Base.{
  ℕ, zero, suc, ◌+◌, ◌≤◌, ◌<◌, ◌≡◌, refl, sym, ap, ◌∙◌, true, false, List, [], ◌∷◌, ◌++◌,
  append-nil, append_assoc, Option, some, none, length, take, drop, get_or, ltb, ◌==◌, ==_refl,
  if_lem, arith,
}
use jml.Value.{Value, none_val}
use jml.Bytecode.Array.{ValueArray, value_array_write}
use jml.Bytecode.Arrays.{IsArray, contents, value_array_write-appends}
use jml.Object.Intern.{write_at}
use jml.Object.Array.{Arrays, array_append, append_from}

-- The array `dest` has the values of `more` behind its own, and no other object changes.
pub record Fills (s : Arrays) (dest : ℕ) (more : List Value) (s' : Arrays) : Type 0 where
  pub array : IsArray (s'.arrays dest)
  pub holds : contents (s'.arrays dest) ≡ contents (s.arrays dest) ++ more
  pub others : (j : ℕ) → (dest == j) ≡ false → s'.arrays j ≡ s.arrays j
  pub kinds : s'.is_array ≡ s.is_array
  pub fresh : s'.fresh ≡ s.fresh

Fills-none : (s : Arrays) (dest : ℕ) → IsArray (s.arrays dest) → Fills s dest [] s
Fills-none s dest is = record {
  array = is;
  holds = sym (append-nil (contents (s.arrays dest)));
  others = λ j away. refl;
  kinds = refl;
  fresh = refl;
}

Fills-then :
    (s s1 s2 : Arrays) (dest : ℕ) (first rest : List Value)
    → Fills s dest first s1
    → Fills s1 dest rest s2
    → Fills s dest (first ++ rest) s2
Fills-then s s1 s2 dest first rest f g = record {
  array = g.array;
  holds =
      g.holds ∙ ap (λ l. l ++ rest) f.holds ∙ append_assoc (contents (s.arrays dest)) first rest;
  others = λ j away. g.others j away ∙ f.others j away;
  kinds = g.kinds ∙ f.kinds;
  fresh = g.fresh ∙ f.fresh;
}

pub write_at_self : {A : Type 0} (f : ℕ → A) (k : ℕ) (v : A) → write_at f k v k ≡ v
write_at_self f k v = rw (==_refl k) refl

pub write_at_other :
    {A : Type 0} (f : ℕ → A) (k : ℕ) (v : A) (j : ℕ) → (k == j) ≡ false → write_at f k v j ≡ f j
write_at_other f k v j away = rw away refl

pub array_append-Fills :
    (s : Arrays) (dest : ℕ) (value : Value)
    → IsArray (s.arrays dest)
    → Fills s dest (value ∷ []) (array_append s dest value)
unfolding array_append
array_append-Fills s dest value is =
    let (array, tail, count) = value_array_write-appends (s.arrays dest) value is in
    let written = value_array_write (s.arrays dest) value in
    let self : write_at s.arrays dest written dest ≡ written =
      write_at_self s.arrays dest written in
    record {
      array = rw self array;
      holds = ap contents self ∙ tail;
      others = write_at_other s.arrays dest written;
      kinds = refl;
      fresh = refl;
    }

-- The values of an array from an index on.
drop-take-get :
    (vs : List Value) (c i : ℕ)
    → i < c
    → c ≤ length vs
    → drop i (take c vs) ≡ get_or vs i none_val ∷ drop (suc i) (take c vs)
drop-take-get [] c i lt le = absurd (omega arith)
drop-take-get (v ∷ vs) zero i lt le = absurd (omega arith)
drop-take-get (v ∷ vs) (suc c) zero lt le = refl
drop-take-get (v ∷ vs) (suc c) (suc i) lt le = drop-take-get vs c i (omega arith) (omega arith)

drop-take_end : (vs : List Value) (c i : ℕ) → c ≤ i → drop i (take c vs) ≡ []
drop-take_end vs zero zero le = refl
drop-take_end vs zero (suc i) le = refl
drop-take_end vs (suc c) zero le = absurd (omega arith)
drop-take_end [] (suc c) (suc i) le = refl
drop-take_end (v ∷ vs) (suc c) (suc i) le = drop-take_end vs c i (omega arith)

-- A loop that ends, and what it has appended.
abbrev pub FilledBy : Arrays → ℕ → List Value → Option Arrays → Type 0
FilledBy s dest more r = (s' : Arrays) × (r ≡ some s') × Fills s dest more s'

-- The loop ends with the values of the source from `i` on at the end of the other array.
pub append_from-Fills :
    (n : ℕ) (s : Arrays) (source dest i : ℕ)
    → IsArray (s.arrays source)
    → IsArray (s.arrays dest)
    → (dest == source) ≡ false
    → i ≤ (s.arrays source).count
    → (s.arrays source).count < i + n
    → FilledBy s dest (drop i (contents (s.arrays source))) (append_from n s source dest i)
unfolding append_from
append_from-Fills zero s source dest i is_source is_dest away le fuel = absurd (omega arith)
append_from-Fills (suc n) s source dest i is_source is_dest away le fuel =
    let a = s.arrays source in
    let value = get_or a.values i none_val in
    let s1 = array_append s dest value in
    let f = array_append-Fills s dest value is_dest in
    let same : s1.arrays source ≡ a = f.others source away in
    if_lem (FilledBy s dest (drop i (contents a))) (ltb i a.count)
      (λ more.
        let (s', run, rest) =
          append_from-Fills n s1 source dest (i + 1) (subst IsArray (sym same) is_source) f.array
            away (ground (arith, ap (λ (x : ValueArray). x.count) same))
            (omega (arith, ap (λ (x : ValueArray). x.count) same)) in
        let next : value ∷ drop (i + 1) (contents (s1.arrays source)) ≡ drop i (contents a) =
          ap (λ l. value ∷ drop (i + 1) l) (ap contents same)
          ∙ ap (λ k. value ∷ drop k (contents a)) {y = suc i} (omega arith)
          ∙ sym (
              drop-take-get a.values a.count i (ground arith)
                (omega (arith, is_source.inside, is_source.cells))) in
        (
          s',
          run,
          subst (λ l. Fills s dest l s') next
              (Fills-then s s1 s' dest (value ∷ []) (drop (i + 1) (contents (s1.arrays source))) f
                rest),
        ))
      λ over.
        let done : drop i (contents a) ≡ [] = drop-take_end a.values a.count i (ground arith) in
        (s, refl, subst (λ l. Fills s dest l s) (sym done) (Fills-none s dest is_dest))

-- An array with values that is appended to itself: the loop never ends.
pub append_from-itself :
    (n : ℕ) (s : Arrays) (array i : ℕ)
    → IsArray (s.arrays array)
    → i < (s.arrays array).count
    → append_from n s array array i ≡ none
unfolding append_from array_append
append_from-itself zero s array i is lt = refl
append_from-itself (suc n) s array i is lt =
    let value = get_or (s.arrays array).values i none_val in
    let written = value_array_write (s.arrays array) value in
    let self : (array_append s array value).arrays array ≡ written =
      write_at_self s.arrays array written in
    let (array_is, tail, count) = value_array_write-appends (s.arrays array) value is in
    let inside : ltb i (s.arrays array).count ≡ true = ground arith in
    rw inside (
      append_from-itself n (array_append s array value) array (i + 1)
        (subst IsArray (sym self) array_is)
        (omega (arith, ap (λ (x : ValueArray). x.count) self, count)))
