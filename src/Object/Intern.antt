-- ===== src/Object/Intern.antt =====
-- src/jml_type.c: string objects, which are interned in `vm->strings`.
use Prim.Native.Nat.{bit_xor}
use jml.Base.{
  ℕ, ◌+◌, ◌-◌, ◌*◌, ◌^◌, false, List, [], ◌∷◌, ◌++◌, Option, some, none, u32, ltb, ◌==◌,
  if◌then◌else◌, ◌>>=◌,
}
use jml.Value.{none_val}
use jml.HashMap.Table.{Strings, HashMap, set_key}
use jml.HashMap.Content.{find}

-- A `char` as the `uint32_t` that `^=` takes it for; it is signed.
abbrev pub sign_extend : ℕ → ℕ
sign_extend c = if ltb c 128 then c else c + (2 ^ 32 - 2 ^ 8)

-- The loop of `jml_obj_string_hash`, for a length below 2^32.
unfoldable pub hash_from : ℕ → List ℕ → ℕ
hash_from hash [] = hash
hash_from hash (c ∷ key) = hash_from (u32 (bit_xor hash (sign_extend c) * 16777619)) key

unfoldable pub string_hash : List ℕ → ℕ
unfolding hash_from
string_hash key = hash_from 2166136261 key

-- The string objects by their addresses, of which `fresh` is the next, and `vm->strings`. That an object is kept
-- from the collector while it is entered is left out.
pub record Heap : Type 0 where
  pub strings : Strings
  pub fresh : ℕ
  pub table : HashMap

abbrev pub write_at {ℓ} : {A : Type ℓ} → (ℕ → A) → ℕ → A → ℕ → A
write_at f k v q = if k == q then v else f q

-- The fields of a new string object.
abbrev pub with_string : Strings → ℕ → List ℕ → ℕ → Strings
with_string s k chars hash = record {
  hash = write_at s.hash k hash;
  chars = write_at s.chars k chars;
  marked = write_at s.marked k false;
}

-- `none`: the map does not end.
unfoldable pub string_allocate : Heap → List ℕ → ℕ → Option (ℕ × Heap)
unfolding set_key
string_allocate h chars hash =
    let strings = with_string h.strings h.fresh chars hash in
    set_key strings h.table h.fresh none_val >>= λ r.
    some (h.fresh, record { strings = strings; fresh = h.fresh + 1; table = r.1 })

abbrev pub found_or_new : Option ℕ → Heap → List ℕ → ℕ → Option (ℕ × Heap)
found_or_new (some k) h chars hash = some (k, h)
found_or_new none h chars hash = string_allocate h chars hash

-- The characters are the first `length` bytes of the argument; they are copied.
unfoldable pub string_copy : Heap → List ℕ → Option (ℕ × Heap)
unfolding string_hash find string_allocate
string_copy h chars =
    let hash = string_hash chars in
    find h.strings h.table chars hash >>= λ interned. found_or_new interned h chars hash

-- The object takes the argument itself, or it is freed.
unfoldable pub string_take : Heap → List ℕ → Option (ℕ × Heap)
unfolding string_hash find string_allocate
string_take h chars =
    let hash = string_hash chars in
    find h.strings h.table chars hash >>= λ interned. found_or_new interned h chars hash

-- `jml_string_concatenate`, but for the stack from which it takes its arguments and to which it gives the string.
unfoldable pub string_concatenate : Heap → ℕ → ℕ → Option (ℕ × Heap)
unfolding string_take
string_concatenate h a b = string_take h (h.strings.chars a ++ h.strings.chars b)
