-- ===== src/Object/Tests.antt =====
-- src/jml_type.c and src/jml_vm.c: a string that is interned, and arrays that are joined.
use jml.Base.{
  ℕ, ◌≡◌, ◌<◌, ◌==◌, refl, false, [], ◌∷◌, none, codes, ltb, if_lem, if◌then◌else◌, arith,
}
use jml.HashMap.Table.{init}
use jml.Object.Intern.{string_hash, hash_from, Heap}
use jml.Bytecode.Array.{ValueArray}
use jml.Bytecode.Arrays.{IsArray, contents}
use jml.Value.{true_val, none_val, num_val, obj_val}
use jml.Object.Array.{Arrays, array_add, array_concatenate}
use jml.Object.Arrays.{FilledBy}
use jml.Object.Joined.{AreArrays, Joins, array_concatenate-Joins, array_add-Adds}
use jml.Object.Interned.{Interned}

abbrev no_strings : Heap
no_strings = record {
  strings = record { hash = λ k. 0; chars = λ k. []; marked = λ k. false };
  fresh = 0;
  table = init;
}

-- FNV-1a of "a".
hash_of_a : string_hash (codes "a") ≡ 0xe40c292c
unfolding string_hash hash_from
hash_of_a = refl

abbrev pair_of : ValueArray
pair_of = record { capacity = 2; count = 2; values = true_val ∷ num_val 5 ∷ [] }

abbrev one_of : ValueArray
one_of = record { capacity = 1; count = 1; values = none_val ∷ [] }

-- Two arrays, at 0 and 1, and a third object.
abbrev objects : Arrays
objects = record {
  is_array = λ k. ltb k 2;
  arrays = λ k. if k == 0 then pair_of else one_of;
  fresh = 3;
}

object-IsArray : (k : ℕ) → IsArray (objects.arrays k)
object-IsArray k =
    if_lem IsArray (k == 0) (λ first. record { inside = omega arith; cells = refl })
      λ second. record { inside = omega arith; cells = refl }

objects-AreArrays : AreArrays objects
objects-AreArrays = record { arrays = λ k is. object-IsArray k; taken = λ k is. ground (arith, is) }

array_concatenate-Joins_example :
    Joins objects 0 (obj_val 1) (array_concatenate 3 objects 0 (obj_val 1))
array_concatenate-Joins_example =
    array_concatenate-Joins 3 objects 0 (obj_val 1) objects-AreArrays refl (omega arith)
      (omega arith) (omega arith)

array_add-Adds_example :
    ((1 == 0) ≡ false → FilledBy objects 1 (contents (objects.arrays 0)) (array_add 3 objects 0 1))
    × (0 < (objects.arrays 0).count → (m : ℕ) → array_add m objects 0 0 ≡ none)
array_add-Adds_example =
    array_add-Adds 3 objects 0 1 (object-IsArray 0) (object-IsArray 1) (omega arith)
