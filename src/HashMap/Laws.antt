-- ===== src/HashMap/Laws.antt =====
-- The operations of the map against its abstract meaning: each ends, keeps the invariant, and
-- changes the value at its key alone.
use jml.Base.{
  ℕ, ◌+◌, ◌*◌, ◌≤◌, ◌<◌, ◌≡◌, refl, Bool, true, false, List, Option, some, none, set, ◌==◌,
  if◌then◌else◌, arith, inl, inr, Bool-cases, [], ◌∷◌,
}
use jml.Value.{Value, is_none}
use jml.HashMap.Mask.{IsSlots}
use jml.HashMap.Table.{
  Strings, Entry, HashMap, at, entry, tombstone, has_key, find_entry, get, stored, store,
}
use jml.HashMap.Places.{used, used-set}
use jml.HashMap.Probe.{Found}
use jml.HashMap.Lookup.{lookup, is_absent}
use jml.HashMap.Placed.{home, Placed}
use jml.HashMap.Entries.{
  Updates, find_entry-Found, found-lookup, entry-Placed, entry-Updates, tombstone-Placed,
  tombstone-Updates, found_lt,
}

module _ (strings : Strings) where
  -- The table is in order, and its number of used slots is counted.
  pub record IsTable (m : HashMap) : Type 0 where
    pub slots : IsSlots m.slots
    pub placed : Placed strings m.slots m.entries
    pub counted : m.count ≡ used m.entries

  -- The invariant of a map between operations: at most three quarters of the slots are used.
  pub record IsValid (m : HashMap) : Type 0 where
    pub table : IsTable m
    pub load : m.count * 4 ≤ m.slots * 3

  pub empty-lookup : (es : List Entry) (key : ℕ) → used es ≡ 0 → lookup es key ≡ none
  unfolding used lookup
  empty-lookup [] key h = refl
  empty-lookup (e ∷ es) key h = ground (arith, empty-lookup es key)

  -- What a probe finds in a map with a free slot.
  pub record FindsSlot (m : HashMap) (key : ℕ) : Type 0 where
    pub index : ℕ
    pub runs : find_entry strings m.entries m.slots key ≡ some index
    pub found : Found m.entries m.slots key (home strings m.slots key) index

  pub finds_slot : {m : HashMap} → IsTable m → m.count < m.slots → (key : ℕ) → FindsSlot m key
  finds_slot t room key =
      let (i, run, found) =
        find_entry-Found strings t.slots (omega arith) t.placed key (omega (arith, t.counted)) in
      record { index = i; runs = run; found = found }

  if_some :
      (b : Bool) (x y : Option Value) → (if b then some x else some y) ≡ some (if b then x else y)
  if_some true x y = refl
  if_some false x y = refl

  -- `jml_hashmap_get` ends, and gives the value under the key.
  pub get-lookup :
      {m : HashMap} → IsValid m → (key : ℕ) → get strings m key ≡ some (lookup m.entries key)
  unfolding get
  get-lookup {m} v key = elim (Bool-cases (m.count == 0)) [
    | inl e ↦ rw (e, empty-lookup m.entries key (ground (arith, v.table.counted)))
    | inr e ↦
        let f = finds_slot v.table (ground (arith, v.load)) key in
        rw
          (
            e,
            f.runs,
            found-lookup strings v.table.slots (ground (arith, v.load)) v.table.placed key f.index
                f.found,
          )
          (if_some (has_key (at m.entries f.index)) _ _)
  ]

  -- What a write of `v` at `key` makes of the map, `none` for a deletion.
  pub record Writes (m : HashMap) (key : ℕ) (v : Option Value) (r : HashMap) : Type 0 where
    pub table : IsTable r
    pub same_slots : r.slots ≡ m.slots
    pub updates : Updates m.entries key v r.entries

  pub store-Writes :
      {m : HashMap}
      → IsTable m
      → m.count < m.slots
      → (key : ℕ) (v : Value)
      → (r : Bool × HashMap) × (store strings m key v ≡ some r)
        × Writes m key (some v) r.1
        × (r.1.count ≤ m.count + 1)
        × (r.0 ≡ is_absent (lookup m.entries key))
  unfolding store
  store-Writes {m} t room key v =
      let f = finds_slot t room key in
      let e = at m.entries f.index in
      let pos : 0 < m.slots = omega arith in
      let lt = found_lt strings t.slots pos t.placed key f.index f.found in
      let counted = used-set m.entries f.index (entry key v) (omega (arith, t.placed.width)) in
      (
        stored m key v f.index,
        rw f.runs,
        record {
          table = record {
            slots = t.slots;
            placed = entry-Placed strings t.slots pos t.placed key f.index f.found v;
            counted = ground (arith, counted, t.counted);
          };
          same_slots = refl;
          updates = entry-Updates strings t.slots pos t.placed key f.index f.found v;
        },
        ground arith,
        ground (arith, found-lookup strings t.slots pos t.placed key f.index f.found),
      )

  pub tombstone-Writes :
      {m : HashMap} (t : IsTable m) (pos : 0 < m.slots) (key i : ℕ)
      → Found m.entries m.slots key (home strings m.slots key) i
      → has_key (at m.entries i) ≡ true
      → Writes m key none (record m { entries = set m.entries i tombstone })
  unfolding is_none
  tombstone-Writes {m} t pos key i found h =
      let lt = found_lt strings t.slots pos t.placed key i found in
      let counted = used-set m.entries i tombstone (omega (arith, t.placed.width)) in
      record {
        table = record {
          slots = t.slots;
          placed = tombstone-Placed strings t.slots pos t.placed key i found;
          counted = ground (arith, counted, t.counted);
        };
        same_slots = refl;
        updates = tombstone-Updates strings t.slots pos t.placed key i found h;
      }
