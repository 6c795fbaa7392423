-- ===== src/HashMap/Table.antt =====
-- src/jml_value.c: the map and its operations. `none` in the results of type `Option` stands for a
-- probe that never ends.
use jml.Base.{
  ℕ, zero, suc, ◌+◌, ◌-◌, ◌*◌, Bool, true, false, not, ◌&&◌, List, [], ◌∷◌, Option, some, none,
  bit_and, get_or, set, replicate, ltb, ◌==◌, if◌then◌else◌, ◌>>=◌,
}
use jml.Value.{Value, none_val, true_val, is_none}

-- What the map reads of a string object by its address. None of it changes while a key is in a map,
-- but for the mark, which only the garbage collector writes.
pub record Strings : Type 0 where
  pub hash : ℕ → ℕ
  pub chars : ℕ → List ℕ
  pub marked : ℕ → Bool

-- `key` is `none` for NULL.
pub record Entry : Type 0 where
  pub key : Option ℕ
  pub value : Value

abbrev pub empty_entry : Entry
empty_entry = record { key = none; value = none_val }

abbrev pub tombstone : Entry
tombstone = record { key = none; value = true_val }

abbrev pub entry : ℕ → Value → Entry
entry k v = record { key = some k; value = v }

abbrev pub at : List Entry → ℕ → Entry
at entries i = get_or entries i empty_entry

-- `slots` is `capacity + 1`: 0 for the capacity -1 of a map with no entries.
pub record HashMap : Type 0 where
  pub count : ℕ
  pub slots : ℕ
  pub entries : List Entry

unfoldable pub init : HashMap
init = record { count = 0; slots = 0; entries = [] }

-- `GROW_CAPACITY`
unfoldable pub grow_capacity : ℕ → ℕ
grow_capacity capacity = if ltb capacity 8 then 8 else capacity * 2

-- `entry->key == NULL && IS_NONE(entry->value)`
abbrev pub is_free : Entry → Bool
is_free e = elim e.key [ none ↦ is_none e.value | some _ ↦ false ]

abbrev pub holds_key : ℕ → Entry → Bool
holds_key k e = elim e.key [ none ↦ false | some j ↦ j == k ]

abbrev pub has_key : Entry → Bool
has_key e = elim e.key [ none ↦ false | some _ ↦ true ]

-- `tombstone != NULL ? tombstone : entry`
abbrev pub or_here : Option ℕ → ℕ → ℕ
or_here none i = i
or_here (some t) i = t

-- The loop of `jml_hashmap_find_entry`; the entry that it returns is given by its index.
unfoldable pub probe : ℕ → List Entry → ℕ → ℕ → ℕ → Option ℕ → Option ℕ
probe zero entries capacity key index tomb = none
probe (suc fuel) entries capacity key index tomb =
    let e = at entries index in
    let next = bit_and (index + 1) capacity in
    let go_on : Option ℕ = probe fuel entries capacity key next tomb in
    let go_on_with : Option ℕ = probe fuel entries capacity key next (some (or_here tomb index)) in
    if not (has_key e)
    then (if is_none e.value then some (or_here tomb index) else go_on_with)
    else if holds_key key e
    then some index
    else go_on

-- The write of `jml_hashmap_set`, at the entry that the probe gave.
abbrev pub stored : HashMap → ℕ → Value → ℕ → Bool × HashMap
stored map key value i =
    let e = at map.entries i in
    let new_key = not (has_key e) in
    (
      new_key,
      record map {
        count = if new_key && is_none e.value then map.count + 1 else map.count;
        entries = set map.entries i (entry key value);
      },
    )

module _ (strings : Strings) where
  unfoldable pub find_entry : List Entry → ℕ → ℕ → Option ℕ
  find_entry entries slots key =
      let capacity = slots - 1 in
      probe slots entries capacity key (bit_and (strings.hash key) capacity) none

  -- The second loop of `jml_hashmap_adjust_capacity`, over the entries that are left.
  unfoldable pub rehash : List Entry → HashMap → Option HashMap
  rehash [] map = some map
  rehash (e ∷ es) map =
      let skip : Option HashMap = rehash es map in
      elim e.key [
        | none ↦ skip
        | some k ↦ find_entry map.entries map.slots k >>= λ i.
            rehash es
              (record map { count = map.count + 1; entries = set map.entries i (entry k e.value) })
      ]

  unfoldable pub adjust_capacity : HashMap → ℕ → Option HashMap
  adjust_capacity map slots =
      rehash map.entries
        (record { count = 0; slots = slots; entries = replicate slots empty_entry })

  unfoldable pub get : HashMap → ℕ → Option (Option Value)
  get map key =
      if map.count == 0
      then some none
      else find_entry map.entries map.slots key >>= λ i.
          let e = at map.entries i in if has_key e then some (some e.value) else some none

  -- The test of the load factor, `count + 1 > (capacity + 1) * 0.75`, and the growth behind it.
  unfoldable pub make_room : HashMap → Option HashMap
  make_room map =
      if ltb (map.slots * 3) ((map.count + 1) * 4)
      then adjust_capacity map (grow_capacity map.slots)
      else some map

  -- `jml_hashmap_set` behind its test of the load factor
  unfoldable pub store : HashMap → ℕ → Value → Option (Bool × HashMap)
  store map key value = find_entry map.entries map.slots key >>= λ i. some (stored map key value i)

  unfoldable pub set_key : HashMap → ℕ → Value → Option (Bool × HashMap)
  set_key map key value = make_room map >>= λ roomy. store roomy key value

  -- The value is `some` when the key was there.
  unfoldable pub pop : HashMap → ℕ → Option (Option Value × HashMap)
  pop map key =
      if map.count == 0
      then some (none, map)
      else find_entry map.entries map.slots key >>= λ i.
          let e = at map.entries i in
          if has_key e
          then some (some e.value, record map { entries = set map.entries i tombstone })
          else some (none, map)

  unfoldable pub del : HashMap → ℕ → Option (Bool × HashMap)
  del map key =
      if map.count == 0
      then some (false, map)
      else find_entry map.entries map.slots key >>= λ i.
          if has_key (at map.entries i)
          then some (true, record map { entries = set map.entries i tombstone })
          else some (false, map)

  -- `jml_hashmap_add`, over the entries of the source
  unfoldable pub add : List Entry → HashMap → Option HashMap
  add [] dest = some dest
  add (e ∷ source) dest =
      let skip : Option HashMap = add source dest in
      elim e.key [ none ↦ skip | some k ↦ set_key dest k e.value >>= λ r. add source r.1 ]

  -- `jml_hashmap_remove_white`, over the indices of the entries that are left
  unfoldable pub remove_white : ℕ → ℕ → HashMap → Option HashMap
  remove_white zero i map = some map
  remove_white (suc left) i map =
      let skip : Option HashMap = remove_white left (i + 1) map in
      elim (at map.entries i).key [
        | none ↦ skip
        | some k ↦
            if strings.marked k then skip else del map k >>= λ r. remove_white left (i + 1) r.1
      ]
