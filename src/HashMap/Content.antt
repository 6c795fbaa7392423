-- ===== src/HashMap/Content.antt =====
-- src/jml_value.c: `jml_hashmap_find`, by which a string is looked up by its characters.
use native.Mathlib.Nat.{mod-lt, mod-eq_of_lt}
use mathlib.Core.Path.{subst}
use jml.Base.{
  ℕ, zero, suc, ◌+◌, ◌-◌, ◌%◌, ◌≤◌, ◌<◌, ◌≡◌, refl, sym, ◌∙◌, ap, Bool, true, false, not, ◌&&◌,
  List, Option, some, none, length, ltb, ◌==◌, if◌then◌else◌, if_lem, bit_and, arith, inl, inr,
  Bool-cases, eq_or_ne, Option-cases,
}
use jml.Value.{is_none}
use jml.Lexer.Identifier.{mem_eq}
use jml.HashMap.Mask.{IsSlots-mask}
use jml.HashMap.Table.{Strings, Entry, HashMap, at, is_free, has_key}
use jml.HashMap.Places.{free_slot, distance, next_place}
use jml.HashMap.Probe.{place}
use jml.HashMap.Placed.{Placed}
use jml.HashMap.Laws.{IsValid, empty-lookup}
use jml.HashMap.White.{nowhere}

-- The test of a key against the characters.
abbrev pub has_content : Strings → List ℕ → ℕ → Entry → Bool
has_content strings chars hash e = elim e.key [
  | none ↦ false
  | some k ↦
      length (strings.chars k) == length chars
      && strings.hash k == hash
      && mem_eq (length chars) (strings.chars k) chars
]

-- The loop, with the test `hit`; `none` if the fuel runs out, `some none` for NULL.
unfoldable pub find_loop : ℕ → List Entry → ℕ → (Entry → Bool) → ℕ → Option (Option ℕ)
find_loop zero entries capacity hit index = none
find_loop (suc fuel) entries capacity hit index =
    let e = at entries index in
    let go_on : Option (Option ℕ) =
      find_loop fuel entries capacity hit (bit_and (index + 1) capacity) in
    if not (has_key e)
    then (if is_none e.value then some none else go_on)
    else if hit e
    then some e.key
    else go_on

unfoldable pub find : Strings → HashMap → List ℕ → ℕ → Option (Option ℕ)
find strings map chars hash =
    if map.count == 0
    then some none
    else find_loop map.slots map.entries (map.slots - 1) (has_content strings chars hash)
        (bit_and hash (map.slots - 1))

module _ (es : List Entry) (n h : ℕ) (hit : Entry → Bool) where
  -- no free slot and no hit before distance `d`
  Missed : ℕ → Type 0
  Missed d =
      (d' : ℕ)
      → d' < d
      → (is_free (at es (place n h d')) ≡ false)
        × (has_key (at es (place n h d')) ≡ true → hit (at es (place n h d')) ≡ false)

  -- Where the loop ends: at a hit, or at the first free slot.
  data Result : Option ℕ → Type 0 where
    hits :
        (d : ℕ)
        → d < n
        → has_key (at es (place n h d)) ≡ true
        → hit (at es (place n h d)) ≡ true
        → Result (at es (place n h d)).key
    misses : (d : ℕ) → d < n → is_free (at es (place n h d)) ≡ true → Missed d → Result none

  Missed-suc :
      (d : ℕ)
      → Missed d
      → is_free (at es (place n h d)) ≡ false
      → (has_key (at es (place n h d)) ≡ true → hit (at es (place n h d)) ≡ false)
      → Missed (suc d)
  unfolding Missed
  Missed-suc d m a b d' lt = elim (eq_or_ne d' d) [
    | inl e ↦
        subst
          (λ x.
            (is_free (at es (place n h x)) ≡ false)
            × (has_key (at es (place n h x)) ≡ true → hit (at es (place n h x)) ≡ false))
          (sym e) (a, b)
    | inr ne ↦ m d' (omega arith)
  ]

  module _ (mask : (x : ℕ) → bit_and x (n - 1) ≡ x % n) (last : ℕ) (in_table : last < n)
      (free : is_free (at es (place n h last)) ≡ true) where
    next_slot : (d : ℕ) → bit_and (place n h d + 1) (n - 1) ≡ place n h (suc d)
    next_slot d = mask (place n h d + 1) ∙ next_place n h d

    not_last : (d : ℕ) → d ≤ last → is_free (at es (place n h d)) ≡ false → suc d ≤ last
    not_last d le nf = elim (eq_or_ne d last) [ inl e ↦ cc (nf, free, e) | inr ne ↦ omega arith ]

    find_loop-Result :
        (f d : ℕ)
        → d ≤ last
        → last < d + f
        → Missed d
        → (r : Option ℕ) × (find_loop f es (n - 1) hit (place n h d) ≡ some r) × Result r
    unfolding find_loop
    find_loop-Result zero d le lt m = absurd (omega arith)
    find_loop-Result (suc f) d le lt m =
        let i = place n h d in
        let Goal = λ (o : Option (Option ℕ)). (r : Option ℕ) × (o ≡ some r) × Result r in
        let go_on =
          λ (nf : is_free (at es i) ≡ false)
              (miss : has_key (at es i) ≡ true → hit (at es i) ≡ false).
            subst (λ x. Goal (find_loop f es (n - 1) hit x)) (sym (next_slot d))
              (find_loop-Result f (suc d) (not_last d le nf) (omega arith)
                (Missed-suc d m nf miss)) in
        if_lem Goal (not (has_key (at es i)))
          (λ keyless.
            if_lem Goal (is_none (at es i).value)
              (λ nil. (none, refl, misses d (omega arith) (ground arith) m))
              λ val. go_on (ground arith) (λ k. absurd (ground arith)))
          λ keyed.
            if_lem Goal (hit (at es i))
              (λ yes_hit. ((at es i).key, refl, hits d (omega arith) (ground arith) yes_hit))
              λ miss. go_on (ground arith) (λ k. miss)

module _ (strings : Strings) (chars : List ℕ) (hash : ℕ) where
  -- The key `k` is in the table, with these characters and this hash.
  abbrev pub HasContent : List Entry → ℕ → Type 0
  HasContent es k =
      (i : ℕ) × (i < length es)
      × ((at es i).key ≡ some k)
      × (has_content strings chars hash (at es i) ≡ true)

  -- What `jml_hashmap_find` gives: a key with these characters, or NULL if there is none.
  pub data Finds (es : List Entry) : Option ℕ → Type 0 where
    finds : (k : ℕ) → HasContent es k → Finds es (some k)
    absent : ((k : ℕ) → ¬ HasContent es k) → Finds es none

  key_of : (e : Entry) → has_key e ≡ true → (k : ℕ) × (e.key ≡ some k)
  key_of e h = elim (Option-cases e.key) [
    | inl none_there ↦ absurd (ground arith)
    | inr there ↦ there
  ]

  -- A key with these characters would have been met before the first free slot.
  Missed-absent :
      {es : List Entry} {n : ℕ}
      → Placed strings n es
      → (d : ℕ) → is_free (at es (place n (hash % n) d)) ≡ true
      → Missed es n (hash % n) (has_content strings chars hash) d
      → (k : ℕ) → ¬ HasContent es k
  unfolding Missed
  Missed-absent {es} {n} t d free m k (i, li, key, content) =
      let (e, le, at_e, clear) = t.reached i k (omega (arith, t.width)) (ground arith) in
      let same : strings.hash k ≡ hash = ground arith in
      let here = subst (λ x. i ≡ place n (x % n) e) same at_e in
      let passed =
        subst (λ x. (d' : ℕ) → d' < e → is_free (at es (place n (x % n) d')) ≡ false) same clear in
      let content' = subst (λ x. has_content strings chars hash (at es x) ≡ true) here content in
      let key' = subst (λ x. (at es x).key ≡ some k) here key in
      elim (Bool-cases (ltb e d)) [
        | inl near ↦ absurd (ground (arith, (m e (ground arith)).1 (ground arith)))
        | inr far ↦ elim (eq_or_ne d e) [
          | inl e_d ↦
              let free' = subst (λ x. is_free (at es (place n (hash % n) x)) ≡ true) e_d free in
              absurd (ground (arith, free'))
          | inr more ↦ absurd (ground (arith, passed d (ground arith)))
        ]
      ]

  Result-Finds :
      {es : List Entry} {n : ℕ}
      → Placed strings n es
      → 0 < n
      → (r : Option ℕ) → Result es n (hash % n) (has_content strings chars hash) r
      → Finds es r
  Result-Finds {es} {n} t pos _ (misses d lt free m) = absent (Missed-absent t d free m)
  Result-Finds {es} {n} t pos _ (hits d lt keyed content) =
      let i = place n (hash % n) d in
      let (k, key) = key_of (at es i) keyed in
      subst (λ o. Finds es o) (sym key)
        (finds k (i, omega (arith, t.width, mod-lt (hash % n + d) pos), key, content))

  -- On a map in order `jml_hashmap_find` ends; it gives a key of the map that has the characters and the hash, and NULL
  -- only if no key of the map has them.
  pub find-Finds :
      {m : HashMap}
      → IsValid strings m
      → (r : Option ℕ) × (find strings m chars hash ≡ some r) × Finds m.entries r
  unfolding find Missed
  find-Finds {m} valid = elim (Bool-cases (m.count == 0)) [
    | inl z ↦ (
      none,
      rw z,
      absent (λ k (i, li, key, content).
          let e = empty-lookup strings m.entries k (ground (arith, valid.table.counted)) in
          absurd (ground (arith, nowhere m.entries k i e li))),
    )
    | inr nz ↦
        let t = valid.table in
        let n = m.slots in
        let pos : 0 < n = ground (arith, valid.load) in
        let mask = IsSlots-mask t.slots pos in
        let h_lt : hash % n < n = mod-lt hash pos in
        let width = t.placed.width in
        let (i, lt, free) = free_slot m.entries (ground (arith, t.counted, width, valid.load)) in
        let (d, d_lt, at_i) = distance n (hash % n) i h_lt (omega (arith, width)) in
        let (r, run, result) =
          find_loop-Result m.entries n (hash % n) (has_content strings chars hash) mask d d_lt
            (subst (λ x. is_free (at m.entries x) ≡ true) (sym at_i) free) n 0 (omega arith)
            (omega arith) (λ d' l. absurd (omega arith)) in
        let start : bit_and hash (n - 1) ≡ place n (hash % n) 0 =
          mask hash ∙ sym (mod-eq_of_lt h_lt) ∙ ap (λ x. x % n) (omega arith) in
        (r, rw (nz, start) run, Result-Finds t.placed pos r result)
  ]
