-- ===== src/HashMap/Iterator.antt =====
-- src/jml_value.c: `jml_hashmap_iterator`, the array of the entries with a key.
use jml.Base.{
  ℕ, suc, ◌-◌, ◌≤◌, ◌≡◌, ap, ◌∙◌, false, List, [], ◌∷◌, ◌++◌, none, length, replicate, ◌==◌,
  if◌then◌else◌, arith, Bool-cases, inl, inr,
}
use jml.Value.{bool_val}
use jml.HashMap.Table.{Strings, Entry, HashMap, has_key}
use jml.HashMap.Places.{used}
use jml.HashMap.Laws.{IsValid}

-- An entry of the zeroed allocation.
abbrev pub zeroed : Entry
zeroed = record { key = none; value = bool_val false }

-- The loop, over the entries that are left, with room for `room` more in the array.
unfoldable pub iterator_loop : List Entry → ℕ → List Entry
iterator_loop [] room = replicate room zeroed
iterator_loop (e ∷ entries) room =
    let skip = iterator_loop entries room in
    let taken = iterator_loop entries (room - 1) in
    if has_key e then (if room == 0 then [] else e ∷ taken) else skip

unfoldable pub iterator : HashMap → List Entry
iterator map = iterator_loop map.entries map.count

abbrev pub keyed : List Entry → List Entry
keyed [] = []
keyed (e ∷ es) = if has_key e then e ∷ keyed es else keyed es

length-keyed : (es : List Entry) → length (keyed es) ≤ used es
unfolding used
length-keyed [] = omega arith
length-keyed (e ∷ es) = ground (arith, length-keyed es)

iterator_loop-keyed :
    (es : List Entry) (room : ℕ)
    → length (keyed es) ≤ room
    → iterator_loop es room ≡ keyed es ++ replicate (room - length (keyed es)) zeroed
unfolding iterator_loop
iterator_loop-keyed [] room h = ap (λ n. replicate n zeroed) (omega arith)
iterator_loop-keyed (e ∷ es) room h = elim (Bool-cases (has_key e)) [
  | inr free ↦ rw free (iterator_loop-keyed es room (ground arith))
  | inl key ↦
      let some_room : (room == 0) ≡ false = ground arith in
      let less : room - 1 - length (keyed es) ≡ room - suc (length (keyed es)) = omega arith in
      rw (key, some_room)
        (ap (◌∷◌ e) (
          iterator_loop-keyed es (room - 1) (ground arith)
          ∙ ap (λ n. keyed es ++ replicate n zeroed) less))
]

-- On a map in order the array that `jml_hashmap_iterator` gives has every entry with a key, in the order of the slots,
-- and then zeroed entries up to the count of the map.
pub iterator-keyed :
    (strings : Strings) {m : HashMap}
    → IsValid strings m
    → iterator m ≡ keyed m.entries ++ replicate (m.count - length (keyed m.entries)) zeroed
unfolding iterator
iterator-keyed strings {m} valid =
    iterator_loop-keyed m.entries m.count
      (omega (arith, length-keyed m.entries, valid.table.counted))
