-- ===== src/Serialization/Memory.antt =====
-- The growing buffer of src/jml_serialization.c, and the macro `REALLOC` of include/jml/jml_gc.h.
-- Every serialiser gets the buffer's pointer by value and its size by reference.
use jml.Base.{
  ℕ, zero, suc, ◌+◌, ◌-◌, ◌*◌, ◌/◌, Bool, ◌&&◌, List, [], ◌∷◌, ◌++◌, Option, some, none, length,
  replicate, leb, ◌==◌, if◌then◌else◌, ◌>>=◌,
}

-- The allocation: its bytes, as many as `*size` says, and how often it has moved. A pointer is the
-- number of moves before it was handed out: it dangles once there have been more.
pub record Memory : Type 0 where
  pub bytes : List ℕ
  pub moves : ℕ

-- `do size *= 1.5; while (size <= new_size)`; `none` if the fuel runs out
unfoldable pub grow_size : ℕ → ℕ → ℕ → Option ℕ
grow_size zero need size = none
grow_size (suc fuel) need size =
    let bigger = size * 3 / 2 in
    let again : Option ℕ = grow_size fuel need bigger in
    if leb bigger need then again else some bigger

-- `realloc`: `moving` says whether the allocator moves the block. The new bytes are unspecified in C.
unfoldable pub resize : Bool → Memory → ℕ → Memory
resize moving m size = record {
  bytes = m.bytes ++ replicate (size - length m.bytes) 0;
  moves = if moving then m.moves + 1 else m.moves;
}

-- The macro: the pointer and the allocation behind it; `none` for the use of a dangling pointer, or a
-- loop without end.
unfoldable pub realloc : Bool → ℕ → Memory → ℕ → Option (ℕ × Memory)
unfolding resize
realloc moving pointer m need =
    if leb (length m.bytes) need
    then (if pointer == m.moves
        then (grow_size (need + 1) need (length m.bytes) >>= λ size.
            let m' = resize moving m size in some (m'.moves, m'))
        else none)
    else some (pointer, m)

-- `bs` written over the bytes from `pos` on
unfoldable pub overwrite : List ℕ → ℕ → List ℕ → List ℕ
overwrite old zero [] = old
overwrite [] zero (b ∷ bs) = b ∷ bs
overwrite (x ∷ old) zero (b ∷ bs) = b ∷ overwrite old zero bs
overwrite [] (suc pos) bs = []
overwrite (x ∷ old) (suc pos) bs = x ∷ overwrite old pos bs

-- Stores through a pointer; `none` for a dangling pointer or a store out of bounds.
unfoldable pub write : ℕ → Memory → ℕ → List ℕ → Option Memory
write pointer m pos bs =
    if pointer == m.moves && leb (pos + length bs) (length m.bytes)
    then some (record m { bytes = overwrite m.bytes pos bs })
    else none
