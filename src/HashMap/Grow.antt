-- ===== src/HashMap/Grow.antt =====
-- `jml_hashmap_adjust_capacity`: the entries move to a new table, and every lookup stays.
use native.Mathlib.Nat.{pow-suc}
use jml.Base.{
  ℕ, zero, suc, ◌+◌, ◌*◌, ◌≤◌, ◌<◌, ◌≡◌, refl, ◌∙◌, true, false, List, [], ◌∷◌, Option, some, none,
  length, set, replicate, ltb, ◌==◌, if◌then◌else◌, arith, ◌⊎◌, inl, inr, Bool-cases, Option-cases,
}
use jml.Value.{Value, is_none}
use jml.HashMap.Mask.{IsSlots, power, no_slots}
use jml.HashMap.Table.{
  Strings, Entry, HashMap, at, entry, empty_entry, is_free, has_key, holds_key, find_entry,
  grow_capacity, rehash, adjust_capacity, make_room,
}
use jml.HashMap.Places.{used, used-set, at-set, at-replicate, length-replicate, used-replicate}
use jml.HashMap.Lookup.{lookup, Nowhere, lookup-eq-none}
use jml.HashMap.Entries.{found-lookup, entry-Placed, entry-Updates, found_lt}
use jml.HashMap.Laws.{IsTable, IsValid, finds_slot}

keyed : List Entry → ℕ
keyed [] = 0
keyed (e ∷ es) = (if has_key e then 1 else 0) + keyed es

keyed-le-used : (es : List Entry) → keyed es ≤ used es
unfolding keyed used
keyed-le-used [] = omega arith
keyed-le-used (e ∷ es) = ground (arith, keyed-le-used es)

-- no key stands twice
abbrev pub Distinct : List Entry → Type 0
Distinct [] = Unit
Distinct (e ∷ es) = ((k : ℕ) → holds_key k e ≡ true → Nowhere es k) × Distinct es

pub Distinct-of_unique :
    (es : List Entry)
    → ((i j k : ℕ)
        → i < length es
        → j < length es
        → holds_key k (at es i) ≡ true
        → holds_key k (at es j) ≡ true
        → i ≡ j)
    → Distinct es
Distinct-of_unique [] u = tt
Distinct-of_unique (e ∷ es) u = (
  λ k h i lt. elim (Bool-cases (holds_key k (at es i))) [
    | inr clear ↦ clear
    | inl twice ↦ absurd (omega (arith, u 0 (suc i) k (omega arith) (omega arith) h twice))
  ],
  Distinct-of_unique es
      (λ i j k li lj hi hj. omega (arith, u (suc i) (suc j) k (omega arith) (omega arith) hi hj)),
)

abbrev NoTombs : List Entry → Type 0
NoTombs es = (i : ℕ) → has_key (at es i) ≡ false → is_free (at es i) ≡ true

abbrev pub or_else : Option Value → Option Value → Option Value
or_else none b = b
or_else (some a) b = some a

-- No key of the entries that are left is in the new table.
abbrev Apart : List Entry → List Entry → Type 0
Apart es new = (q : ℕ) → (lookup es q ≡ none) ⊎ (lookup new q ≡ none)

module _ (strings : Strings) where
  record Fresh (m : HashMap) : Type 0 where
    table : IsTable strings m
    no_tombs : NoTombs m.entries

  -- the new table after one entry
  abbrev moved : HashMap → ℕ → ℕ → Value → HashMap
  moved m i k v = record m { count = m.count + 1; entries = set m.entries i (entry k v) }

  -- One entry moves to a free slot.
  record Takes (m : HashMap) (k : ℕ) (v : Value) : Type 0 where
    index : ℕ
    runs : find_entry strings m.entries m.slots k ≡ some index
    fresh : Fresh (moved m index k v)
    updates :
        (q : ℕ)
        → lookup (moved m index k v).entries q ≡ (if k == q then some v else lookup m.entries q)

  takes :
      {m : HashMap}
      → Fresh m
      → m.count < m.slots
      → (k : ℕ) (v : Value) → lookup m.entries k ≡ none
      → Takes m k v
  takes {m} f room k v absent =
      let t = f.table in
      let s = finds_slot strings t room k in
      let i = s.index in
      let pos : 0 < m.slots = omega arith in
      let lt = found_lt strings t.slots pos t.placed k i s.found in
      let keyless : has_key (at m.entries i) ≡ false =
        ground (arith, absent, found-lookup strings t.slots pos t.placed k i s.found) in
      let free = f.no_tombs i keyless in
      let lt' : i < length m.entries = omega (arith, t.placed.width) in
      record {
        index = i;
        runs = s.runs;
        fresh = record {
          table = record {
            slots = t.slots;
            placed = entry-Placed strings t.slots pos t.placed k i s.found v;
            counted = ground (arith, used-set m.entries i (entry k v) lt', t.counted, free);
          };
          no_tombs = λ j h. ground (arith, at-set m.entries i j (entry k v) lt', f.no_tombs j);
        };
        updates = entry-Updates strings t.slots pos t.placed k i s.found v;
      }

  -- The new table has all the entries, the ones that were there first.
  record Rehashed (es : List Entry) (m : HashMap) : Type 0 where
    result : HashMap
    runs : rehash strings es m ≡ some result
    fresh : Fresh result
    same_slots : result.slots ≡ m.slots
    size : result.count ≡ m.count + keyed es
    reads : (q : ℕ) → lookup result.entries q ≡ or_else (lookup m.entries q) (lookup es q)

  rehash-Rehashed :
      (es : List Entry) (m : HashMap)
      → Fresh m
      → m.count + keyed es < m.slots
      → Distinct es
      → Apart es m.entries
      → Rehashed es m
  unfolding rehash keyed lookup
  rehash-Rehashed [] m f room d apart = record {
    result = m;
    runs = refl;
    fresh = f;
    same_slots = refl;
    size = omega arith;
    reads = λ q. ground arith;
  }
  rehash-Rehashed (e ∷ es) m f room d apart = elim (Option-cases e.key) [
    | inl nk ↦
        let r = rehash-Rehashed es m f (ground arith) d.1 (λ q. ground (arith, apart q)) in
        record {
          result = r.result;
          runs = rw nk r.runs;
          fresh = r.fresh;
          same_slots = r.same_slots;
          size = ground (arith, r.size);
          reads = λ q. ground (arith, r.reads q);
        }
    | inr (k, ek) ↦
        let absent : lookup m.entries k ≡ none = ground (arith, apart k) in
        let s = takes f (ground arith) k e.value absent in
        let r = rehash-Rehashed es (moved m s.index k e.value) s.fresh (ground arith) d.1 (λ q.
          elim (Bool-cases (k == q)) [
            | inl same ↦ inl (lookup-eq-none es q (d.0 q (ground arith)))
            | inr other ↦ ground (arith, apart q, s.updates q)
          ]) in
        record {
          result = r.result;
          runs = rw ek (rw s.runs r.runs);
          fresh = r.fresh;
          same_slots = r.same_slots;
          size = ground (arith, r.size);
          reads = λ q. ground (arith, r.reads q, s.updates q);
        }
  ]

  empty-Fresh :
      (n : ℕ)
      → IsSlots n
      → Fresh (record { count = 0; slots = n; entries = replicate n empty_entry })
  unfolding is_none
  empty-Fresh n slots = record {
    table = record {
      slots = slots;
      placed = record {
        width = length-replicate n empty_entry;
        reached = λ i key lt h. cc (h, at-replicate n i);
        unique = λ i j key li lj hi hj. cc (hi, at-replicate n i);
      };
      counted = omega (arith, used-replicate n);
    };
    no_tombs = λ i h. rw (at-replicate n i);
  }

  lookup-replicate : (n q : ℕ) → lookup (replicate n empty_entry) q ≡ none
  unfolding lookup
  lookup-replicate zero q = refl
  lookup-replicate (suc n) q = lookup-replicate n q

  -- The same entries in a table of another size.
  pub record Resized (m : HashMap) (slots : ℕ) (r : HashMap) : Type 0 where
    pub table : IsTable strings r
    pub size : r.slots ≡ slots
    pub fewer : r.count ≤ m.count
    pub reads : (q : ℕ) → lookup r.entries q ≡ lookup m.entries q

  -- `jml_hashmap_adjust_capacity` ends, and keeps the value of every key.
  pub adjust_capacity-Resized :
      {m : HashMap} (n : ℕ)
      → IsTable strings m
      → IsSlots n
      → m.count < n
      → (r : HashMap) × (adjust_capacity strings m n ≡ some r) × Resized m n r
  unfolding adjust_capacity
  adjust_capacity-Resized {m} n t slots room =
      let few = keyed-le-used m.entries in
      let r =
        rehash-Rehashed m.entries
          (record { count = 0; slots = n; entries = replicate n empty_entry }) (empty-Fresh n slots)
          (omega (arith, t.counted))
          (Distinct-of_unique m.entries (λ i j k li lj hi hj.
            t.placed.unique i j k (omega (arith, t.placed.width)) (omega (arith, t.placed.width)) hi
              hj))
          (λ q. inr (lookup-replicate n q)) in
      (
        r.result,
        r.runs,
        record {
          table = r.fresh.table;
          size = r.same_slots;
          fewer = omega (arith, r.size, t.counted);
          reads = λ q. r.reads q ∙ rw (lookup-replicate n q);
        },
      )

  grow_capacity-IsSlots : (n : ℕ) → IsSlots n → IsSlots (grow_capacity n)
  unfolding grow_capacity
  grow_capacity-IsSlots _ no_slots = power 8 3 refl
  grow_capacity-IsSlots _ (power n p e) = elim (Bool-cases (ltb n 8)) [
    | inl few ↦ rw few (power 8 3 refl)
    | inr many ↦ rw many (power (n * 2) (suc p) (omega (arith, pow-suc 2 p)))
  ]

  -- The step of `jml_hashmap_set` that grows a full map.
  pub record Roomy (m r : HashMap) : Type 0 where
    pub table : IsTable strings r
    pub room : (r.count + 1) * 4 ≤ r.slots * 3
    pub reads : (q : ℕ) → lookup r.entries q ≡ lookup m.entries q

  pub make_room-Roomy :
      {m : HashMap} → IsValid strings m → (r : HashMap) × (make_room strings m ≡ some r) × Roomy m r
  unfolding make_room grow_capacity
  make_room-Roomy {m} v = elim (Bool-cases (ltb (m.slots * 3) ((m.count + 1) * 4))) [
    | inl full ↦
        let (r, run, z) =
          adjust_capacity-Resized (grow_capacity m.slots) v.table
            (grow_capacity-IsSlots m.slots v.table.slots) (ground (arith, v.load)) in
        (
          r,
          rw full run,
          record {
            table = z.table;
            room = ground (arith, v.load, z.size, z.fewer);
            reads = z.reads;
          },
        )
    | inr fits ↦ (m, rw fits, record { table = v.table; room = ground arith; reads = λ q. refl })
  ]
