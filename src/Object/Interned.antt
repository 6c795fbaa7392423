-- ===== src/Object/Interned.antt =====
-- src/jml_type.c: equal strings are one object.
use jml.Base.{ℕ, ◌+◌, ◌<◌, ◌≡◌, Bool, List, some}
use jml.Value.{Value, none_val}
use jml.HashMap.Table.{Strings, HashMap}
use jml.HashMap.Lookup.{lookup}
use jml.HashMap.Placed.{Placed}
use jml.HashMap.Laws.{IsValid}
use jml.HashMap.Methods.{Does}
use jml.HashMap.Content.{HasContent}
use jml.Object.Intern.{string_hash, Heap, with_string}

-- The string is interned.
abbrev pub Interned : Heap → ℕ → Type 0
Interned h k = (v : Value) × (lookup h.table.entries k ≡ some v)

-- The table is in order; its strings have been allocated, carry the hash of their characters, and no two of them
-- have the same characters.
pub record IsHeap (h : Heap) : Type 0 where
  pub valid : IsValid h.strings h.table
  pub allocated : (k : ℕ) → Interned h k → k < h.fresh
  pub hashed : (k : ℕ) → Interned h k → h.strings.hash k ≡ string_hash (h.strings.chars k)
  pub one : (j k : ℕ) → Interned h j → Interned h k → h.strings.chars j ≡ h.strings.chars k → j ≡ k

-- What interning gives: a string with the characters, and all strings that were interned, as they were. It is
-- the one that was interned with them, if there was one; then nothing else changes.
pub record Interns (h : Heap) (chars : List ℕ) (k : ℕ) (h' : Heap) : Type 0 where
  pub heap : IsHeap h'
  pub interned : Interned h' k
  pub has_chars : h'.strings.chars k ≡ chars
  pub keeps :
      (j : ℕ)
      → Interned h j
      → Interned h' j
        × (h'.strings.chars j ≡ h.strings.chars j)
        × (h'.strings.hash j ≡ h.strings.hash j)
  pub same : (j : ℕ) → Interned h j → h.strings.chars j ≡ chars → (k ≡ j) × (h' ≡ h)

module _ (h : Heap) (v : IsHeap h) (chars : List ℕ) where
  -- No interned string has the characters.
  Missing : Type 0
  Missing = (k : ℕ) → ¬ HasContent h.strings chars (string_hash chars) h.table.entries k

module _ (h : Heap) (v : IsHeap h) (chars : List ℕ) (missing : Missing h v chars) where
  strings' : Strings
  strings' = with_string h.strings h.fresh chars (string_hash chars)

  module _ (b : Bool) (r : Bool × HashMap)
      (does : Does strings' h.table h.fresh (some none_val) b r) where
    abbrev new_heap : Heap
    new_heap = record { strings = strings'; fresh = h.fresh + 1; table = r.1 }
