-- ===== src/Object/Joined.antt =====
-- src/jml_type.c and src/jml_vm.c: `jml_obj_array_add` and `jml_array_concatenate`.
use mathlib.Core.Path.{subst}
use jml.Base.{
  ℕ, ◌+◌, ◌<◌, ◌≡◌, refl, sym, ap, ◌∙◌, true, false, List, [], ◌∷◌, ◌++◌, append-nil, Option, some,
  none, ◌==◌, Bool-cases, bind_runs, arith, if◌then◌else◌, ◌>>=◌, inl, inr,
}
use jml.Value.{Value, none_val, bool_val, num_val, obj_val}
use jml.Bytecode.Array.{ValueArray, value_array_init}
use jml.Bytecode.Arrays.{IsArray, contents}
use jml.Object.Array.{
  Arrays, array_new, array_append, array_add, array_copy, join_value, array_concatenate,
}
use jml.Object.Arrays.{
  Fills, FilledBy, array_append-Fills, append_from-Fills, append_from-itself, write_at_self,
  write_at_other,
}

-- On arrays in order `jml_obj_array_add` ends, with fuel for the source, if the arrays are not the same; the
-- values of the source are then behind those of the other array, and no other object changes. For an array
-- with values that is added to itself it never ends.
pub array_add-Adds :
    (n : ℕ) (s : Arrays) (source dest : ℕ)
    → IsArray (s.arrays source)
    → IsArray (s.arrays dest)
    → (s.arrays source).count < n
    → ((dest == source) ≡ false
        → FilledBy s dest (contents (s.arrays source)) (array_add n s source dest))
      × (0 < (s.arrays source).count → (m : ℕ) → array_add m s source source ≡ none)
unfolding array_add
array_add-Adds n s source dest is_source is_dest fuel = (
  λ away. append_from-Fills n s source dest 0 is_source is_dest away (omega arith) (omega arith),
  λ values m. append_from-itself m s source 0 is_source values,
)

-- Arrays in order: each is at an address that is taken.
pub record AreArrays (s : Arrays) : Type 0 where
  pub arrays : (k : ℕ) → s.is_array k ≡ true → IsArray (s.arrays k)
  pub taken : (k : ℕ) → s.is_array k ≡ true → k < s.fresh

-- What stands behind the values of the first array.
abbrev pub joined_values : Arrays → ℕ → Value → List Value
joined_values s array (obj_val k) =
    if s.is_array k then (if array == k then [] else contents (s.arrays k)) else obj_val k ∷ []
joined_values s array value = value ∷ []

-- `copy` is a new array, with the values of `array` and then `more`; the objects that there were are as they were.
pub record Joined (s : Arrays) (array : ℕ) (more : List Value) (copy : ℕ) (s' : Arrays)
    : Type 0 where
  pub new : copy ≡ s.fresh
  pub is_array : s'.is_array copy ≡ true
  pub array_is : IsArray (s'.arrays copy)
  pub holds : contents (s'.arrays copy) ≡ contents (s.arrays array) ++ more
  pub others : (j : ℕ) → j < s.fresh → (s'.arrays j ≡ s.arrays j) × (s'.is_array j ≡ s.is_array j)
  pub next : s'.fresh ≡ s.fresh + 1

value_array_init-IsArray : IsArray value_array_init
unfolding value_array_init
value_array_init-IsArray = record { inside = omega arith; cells = refl }

value_array_init-contents : contents value_array_init ≡ []
unfolding value_array_init
value_array_init-contents = refl

old_away : (s : Arrays) (j : ℕ) → j < s.fresh → (s.fresh == j) ≡ false
old_away s j lt = ground arith

-- The copy of an array.
array_copy-Joined :
    (n : ℕ) (s : Arrays) (array : ℕ)
    → AreArrays s
    → s.is_array array ≡ true
    → (s.arrays array).count < n
    → (s' : Arrays) × (array_copy n s array ≡ some (s.fresh, s')) × Joined s array [] s.fresh s'
unfolding array_copy array_new
array_copy-Joined n s array all is fuel =
    let with_copy = (array_new s).1 in
    let away = old_away s array (all.taken array is) in
    let same : with_copy.arrays array ≡ s.arrays array =
      write_at_other s.arrays s.fresh value_array_init array away in
    let self : with_copy.arrays s.fresh ≡ value_array_init =
      write_at_self s.arrays s.fresh value_array_init in
    let (s', run, f) =
      append_from-Fills n with_copy array s.fresh 0 (subst IsArray (sym same) (all.arrays array is))
        (subst IsArray (sym self) value_array_init-IsArray) away (omega arith)
        (omega (arith, ap (λ (x : ValueArray). x.count) same)) in
    (
      s',
      bind_runs _ run refl,
      record {
        new = refl;
        is_array = ap (λ kinds. kinds s.fresh) f.kinds ∙ write_at_self s.is_array s.fresh true;
        array_is = f.array;
        holds =
            f.holds
            ∙ ap (λ l. l ++ contents (with_copy.arrays array))
                (ap contents self ∙ value_array_init-contents)
            ∙ ap contents same
            ∙ sym (append-nil (contents (s.arrays array)));
        others = λ j lt. (
          f.others j (old_away s j lt)
              ∙ write_at_other s.arrays s.fresh value_array_init j (old_away s j lt),
          ap (λ kinds. kinds j) f.kinds
              ∙ write_at_other s.is_array s.fresh true j (old_away s j lt),
        );
        next = f.fresh;
      },
    )

-- A copy with more values behind it.
Joined-Fills :
    (s s1 s' : Arrays) (array : ℕ) (more : List Value)
    → Joined s array [] s.fresh s1
    → Fills s1 s.fresh more s'
    → Joined s array more s.fresh s'
Joined-Fills s s1 s' array more copied f = record {
  new = refl;
  is_array = ap (λ kinds. kinds s.fresh) f.kinds ∙ copied.is_array;
  array_is = f.array;
  holds = f.holds ∙ ap (λ l. l ++ more) (copied.holds ∙ append-nil (contents (s.arrays array)));
  others = λ j lt. (
    f.others j (old_away s j lt) ∙ (copied.others j lt).0,
    ap (λ kinds. kinds j) f.kinds ∙ (copied.others j lt).1,
  );
  next = f.fresh ∙ copied.next;
}

-- The count of the values that the second loop appends.
abbrev pub joined_count : Arrays → Value → ℕ
joined_count s (obj_val k) = (s.arrays k).count
joined_count s _ = 0

-- The outcome: the copy, with the values of both.
abbrev pub Joins : Arrays → ℕ → Value → Option (ℕ × Arrays) → Type 0
Joins s array value r =
    (s' : Arrays) × (r ≡ some (s.fresh, s'))
    × Joined s array (joined_values s array value) s.fresh s'

append_value-Joined :
    (s s1 : Arrays) (array : ℕ) (value : Value)
    → Joined s array [] s.fresh s1
    → Joined s array (value ∷ []) s.fresh (array_append s1 s.fresh value)
append_value-Joined s s1 array value copied =
    Joined-Fills s s1 (array_append s1 s.fresh value) array (value ∷ []) copied
      (array_append-Fills s1 s.fresh value copied.array_is)

-- What follows the copy, for an object.
join_object-Joins :
    (n : ℕ) (s s1 : Arrays) (array k : ℕ)
    → AreArrays s
    → k < s.fresh
    → Joined s array [] s.fresh s1
    → (s.arrays k).count < n
    → Joins s array
        (obj_val k)
        (join_value n s1 array s.fresh (obj_val k) >>= λ joined. some (s.fresh, joined))
join_object-Joins n s s1 array k all old copied fuel =
    let (same, kind) = copied.others k old in
    elim (Bool-cases (s.is_array k)) [
      | inr other ↦
          rw (kind ∙ other, other)
            (
              array_append s1 s.fresh (obj_val k),
              refl,
              append_value-Joined s s1 array (obj_val k) copied,
            )
      | inl is ↦ elim (Bool-cases (array == k)) [
        | inl itself ↦ rw (kind ∙ is, is, itself) (s1, refl, copied)
        | inr two ↦
            let (s', run, f) =
              append_from-Fills n s1 k s.fresh 0 (subst IsArray (sym same) (all.arrays k is))
                copied.array_is (old_away s k old) (omega arith)
                (omega (arith, ap (λ (x : ValueArray). x.count) same)) in
            rw (kind ∙ is, is, two)
              (
                s',
                bind_runs _ run refl,
                Joined-Fills s s1 s' array (contents (s.arrays k)) copied
                    (subst (λ l. Fills s1 s.fresh l s') (ap contents same) f),
              )
      ]
    ]

-- An object value has an address that is taken.
abbrev pub IsOld : Arrays → Value → Type 0
IsOld s (obj_val k) = k < s.fresh
IsOld s _ = Unit {0}

join_value-Joins :
    (n : ℕ) (s s1 : Arrays) (array : ℕ) (value : Value)
    → AreArrays s
    → IsOld s value
    → Joined s array [] s.fresh s1
    → joined_count s value < n
    → Joins s array value (join_value n s1 array s.fresh value >>= λ joined. some (s.fresh, joined))
join_value-Joins n s s1 array none_val all old copied fuel =
    (array_append s1 s.fresh none_val, refl, append_value-Joined s s1 array none_val copied)
join_value-Joins n s s1 array (bool_val b) all old copied fuel =
    (array_append s1 s.fresh (bool_val b), refl, append_value-Joined s s1 array (bool_val b) copied)
join_value-Joins n s s1 array (num_val x) all old copied fuel =
    (array_append s1 s.fresh (num_val x), refl, append_value-Joined s s1 array (num_val x) copied)
join_value-Joins n s s1 array (obj_val k) all old copied fuel =
    join_object-Joins n s s1 array k all old copied fuel

-- On arrays in order `jml_array_concatenate` ends, with fuel for the longer of the two, and gives a new array
-- with the values of the first one and, behind them, those of the second one, or the value if it is no array;
-- but nothing more if the second one is the first one itself. No object that there was changes.
pub array_concatenate-Joins :
    (n : ℕ) (s : Arrays) (array : ℕ) (value : Value)
    → AreArrays s
    → s.is_array array ≡ true
    → IsOld s value
    → (s.arrays array).count < n
    → joined_count s value < n
    → Joins s array value (array_concatenate n s array value)
unfolding array_concatenate
array_concatenate-Joins n s array value all is old fuel fuel' =
    let (s1, run, copied) = array_copy-Joined n s array all is fuel in
    let (s', run', joined) = join_value-Joins n s s1 array value all old copied fuel' in
    (s', bind_runs _ run run', joined)
