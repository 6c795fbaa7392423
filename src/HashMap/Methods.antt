-- ===== src/HashMap/Methods.antt =====
-- The map refines a function from keys to values: each operation ends, keeps the invariant, returns
-- what the function had, and updates it.
use mathlib.Core.Option
use jml.Base.{
  ℕ, ◌<◌, ◌≡◌, refl, sym, ◌∙◌, ap, Bool, not, Option, some, none, set, ◌==◌, if◌then◌else◌, arith,
  inl, inr, Bool-cases, ==_iff,
}
use jml.Value.{Value}
use jml.HashMap.Mask.{no_slots}
use jml.HashMap.Table.{Strings, HashMap, init, at, tombstone, has_key, get, set_key, pop, del}
use jml.HashMap.Places.{used}
use jml.HashMap.Lookup.{lookup, is_absent}
use jml.HashMap.Entries.{Updates, found-lookup}
use jml.HashMap.Laws.{IsValid, finds_slot, empty-lookup, get-lookup, store-Writes, tombstone-Writes}
use jml.HashMap.Grow.{make_room-Roomy}

module _ (strings : Strings) where
  -- The empty map is in order, and holds nothing.
  pub init-IsValid : IsValid strings init × ((key : ℕ) → lookup init.entries key ≡ none)
  unfolding init used lookup
  init-IsValid = (
    record {
      table = record {
        slots = no_slots;
        placed = record {
          width = refl;
          reached = λ i key lt h. absurd (omega arith);
          unique = λ i j key li lj hi hj. absurd (omega arith);
        };
        counted = refl;
      };
      load = omega arith;
    },
    λ key. refl,
  )

  -- What an operation on `key` does: it returns `result`, and gives the key the value `v`.
  pub record Does {R : Type 0} (m : HashMap) (key : ℕ) (v : Option Value) (result : R)
      (r : R × HashMap) : Type 0 where
    pub valid : IsValid strings r.1
    pub returns : r.0 ≡ result
    pub updates : Updates m.entries key v r.1.entries

  -- On a map in order `jml_hashmap_set` ends, also where it grows the map; it says whether the key
  -- was absent, gives the key the value, leaves every other key as it was, and keeps the order.
  pub set_key-Does :
      {m : HashMap}
      → IsValid strings m
      → (key : ℕ) (v : Value)
      → (r : Bool × HashMap) × (set_key strings m key v ≡ some r)
        × Does m key (some v) (is_absent (lookup m.entries key)) r
  unfolding set_key
  set_key-Does {m} valid key v =
      let (roomy, grown, g) = make_room-Roomy strings valid in
      let (r, run, w, count, new) = store-Writes strings g.table (omega (arith, g.room)) key v in
      (
        r,
        rw grown run,
        record {
          valid = record { table = w.table; load = omega (arith, g.room, w.same_slots) };
          returns = new ∙ ap is_absent (g.reads key);
          updates = λ q. w.updates q ∙ rw (g.reads q);
        },
      )

  -- A `jml_hashmap_get` after a `jml_hashmap_set` gives the new value at its key, and what the map had
  -- before at every other key.
  pub get-set_key :
      {m : HashMap}
      → IsValid strings m
      → (key q : ℕ) (v : Value)
      → (r : Bool × HashMap) × (set_key strings m key v ≡ some r)
        × (get strings r.1 q ≡ (if key == q then some (some v) else get strings m q))
  get-set_key {m} valid key q v =
      let (r, run, d) = set_key-Does valid key v in
      (
        r,
        run,
        get-lookup strings d.valid q
            ∙ ap some (d.updates q)
            ∙ rw (get-lookup strings valid q) (ground arith),
      )

  -- the branch of an operation that finds no key
  untouched :
      {m : HashMap}
      → IsValid strings m
      → (key : ℕ) → lookup m.entries key ≡ none
      → Updates m.entries key none m.entries
  untouched valid key e q = elim (Bool-cases (key == q)) [
    | inl same ↦ rw same (ap (lookup _) (sym ((==_iff key q).0 same)) ∙ e)
    | inr other ↦ rw other
  ]

  -- On a map in order `jml_hashmap_pop` ends, returns the value under the key if there is one, takes
  -- the key out of the map, leaves every other key as it was, and keeps the order.
  pub pop-Does :
      {m : HashMap}
      → IsValid strings m
      → (key : ℕ)
      → (r : Option Value × HashMap) × (pop strings m key ≡ some r)
        × Does m key none (lookup m.entries key) r
  unfolding pop
  pop-Does {m} valid key = elim (Bool-cases (m.count == 0)) [
    | inl z ↦
        let e = empty-lookup strings m.entries key (ground (arith, valid.table.counted)) in
        (
          (none, m),
          rw z,
          record { valid = valid; returns = sym e; updates = untouched valid key e },
        )
    | inr nz ↦
        let f = finds_slot strings valid.table (ground (arith, valid.load)) key in
        let pos : 0 < m.slots = ground (arith, valid.load) in
        let l = found-lookup strings valid.table.slots pos valid.table.placed key f.index f.found in
        elim (Bool-cases (has_key (at m.entries f.index))) [
          | inl h ↦
              let w = tombstone-Writes strings valid.table pos key f.index f.found h in
              (
                (
                  some (at m.entries f.index).value,
                  record m { entries = set m.entries f.index tombstone },
                ),
                rw nz (rw f.runs (rw h)),
                record {
                  valid = record { table = w.table; load = valid.load };
                  returns = ground (arith, l);
                  updates = w.updates;
                },
              )
          | inr h ↦
              let e : lookup m.entries key ≡ none = ground (arith, l) in
              (
                (none, m),
                rw nz (rw f.runs (rw h)),
                record { valid = valid; returns = sym e; updates = untouched valid key e },
              )
        ]
  ]

  -- `jml_hashmap_del` does to the map what `jml_hashmap_pop` does, and says whether the key was there.
  pub del-pop :
      (m : HashMap) (key : ℕ)
      → del strings m key ≡ Option.map (λ r. (not (is_absent r.0), r.1)) (pop strings m key)
  unfolding del pop
  del-pop m key = ground arith
