-- ===== src/HashMap/White.antt =====
-- src/jml_value.c: `jml_hashmap_remove_white`, by which the collector drops the strings that it did not mark.
use mathlib.Core.Option
use mathlib.Core.Option.{some-injective}
use mathlib.Core.Path.{subst}
use jml.Base.{
  ℕ, zero, suc, ◌+◌, ◌≤◌, ◌<◌, ◌≡◌, refl, sym, ◌∙◌, ap, Bool, true, false, not, List, [], ◌∷◌,
  Option, some, none, length, set, ltb, ◌==◌, if◌then◌else◌, arith, inl, inr, Bool-cases,
  Option-cases, eq_or_ne,
}
use jml.Value.{Value}
use jml.HashMap.Table.{
  Strings, Entry, HashMap, at, tombstone, has_key, holds_key, find_entry, pop, del, remove_white,
}
use jml.HashMap.Places.{at-set}
use jml.HashMap.Lookup.{lookup, lookup_cases, lookup-eq-none, is_absent}
use jml.HashMap.Laws.{IsValid}
use jml.HashMap.Methods.{pop-Does, del-pop}

set_outside : (es : List Entry) (i : ℕ) (e : Entry) → length es ≤ i → set es i e ≡ es
set_outside [] i e h = refl
set_outside (x ∷ es) zero e h = absurd (omega arith)
set_outside (x ∷ es) (suc i) e h = ap (◌∷◌ x) (set_outside es i e (omega arith))

-- A tombstone holds no key.
tombstone_shrinks :
    (es : List Entry) (i j q : ℕ)
    → holds_key q (at (set es i tombstone) j) ≡ true
    → holds_key q (at es j) ≡ true
tombstone_shrinks es i j q h = elim (Bool-cases (ltb i (length es))) [
  | inl inside ↦ ground (arith, at-set es i j tombstone (ground arith))
  | inr outside ↦
      subst (λ xs. holds_key q (at xs j) ≡ true) (set_outside es i tombstone (ground arith)) h
]

pub nowhere :
    (es : List Entry) (q j : ℕ) → lookup es q ≡ none → j < length es → holds_key q (at es j) ≡ false
nowhere es q j e lt = elim (lookup_cases es q) [
  | inl (_, none_there) ↦ none_there j lt
  | inr (i, li, h, some_there) ↦ cc
]

module _ (strings : Strings) where
  -- The result of a removal has no key in a slot that did not have it.
  record Removes (m r : HashMap) : Type 0 where
    pub shrinks :
        (j q : ℕ) → holds_key q (at r.entries j) ≡ true → holds_key q (at m.entries j) ≡ true
    pub same_slots : r.slots ≡ m.slots

  Removes-refl : (m : HashMap) → Removes m m
  Removes-refl m = record { shrinks = λ j q h. h; same_slots = refl }

  pop-Removes :
      (m : HashMap) (key : ℕ) (r : Option Value × HashMap)
      → pop strings m key ≡ some r
      → Removes m r.1
  unfolding pop
  pop-Removes m key r run = elim (Bool-cases (m.count == 0)) [
    | inl z ↦
        subst (λ (x : Option Value × HashMap). Removes m x.1) (some-injective _ _ (rw z at run))
          (Removes-refl m)
    | inr nz ↦ elim (Option-cases (find_entry strings m.entries m.slots key)) [
      | inl e ↦ absurd (ground (arith, run))
      | inr (i, e) ↦ elim (Bool-cases (has_key (at m.entries i))) [
        | inl h ↦
            let dropped = record m { entries = set m.entries i tombstone } in
            let known : pop strings m key ≡ some (some (at m.entries i).value, dropped) =
              rw nz (rw e (rw h)) in
            subst (λ (x : Option Value × HashMap). Removes m x.1)
              (some-injective _ _ (sym known ∙ run))
              (record { shrinks = λ j q. tombstone_shrinks m.entries i j q; same_slots = refl })
        | inr h ↦
            let known : pop strings m key ≡ some (none, m) = rw nz (rw e (rw h)) in
            subst (λ (x : Option Value × HashMap). Removes m x.1)
              (some-injective _ _ (sym known ∙ run)) (Removes-refl m)
      ]
    ]
  ]

  -- No slot before `i` has a key that is not marked.
  abbrev Clean : List Entry → ℕ → Type 0
  Clean es i = (j q : ℕ) → j < i → strings.marked q ≡ false → holds_key q (at es j) ≡ false

  -- The map `m` without the keys that are not marked.
  pub record Whitened (m r : HashMap) : Type 0 where
    pub valid : IsValid strings r
    pub reads :
        (q : ℕ) → lookup r.entries q ≡ (if strings.marked q then lookup m.entries q else none)

  -- what the loop keeps of the map `m`
  record Whitening (m r : HashMap) (i : ℕ) : Type 0 where
    pub valid : IsValid strings r
    pub marked_stay : (q : ℕ) → strings.marked q ≡ true → lookup r.entries q ≡ lookup m.entries q
    pub clean : Clean r.entries i
    pub same_slots : r.slots ≡ m.slots

  clean_step :
      (m r : HashMap) (i : ℕ)
      → Whitening m r i
      → ((q : ℕ) → strings.marked q ≡ false → holds_key q (at r.entries i) ≡ false)
      → Whitening m r (i + 1)
  clean_step m r i w here = record {
    valid = w.valid;
    marked_stay = w.marked_stay;
    clean = λ j q lj white. elim (eq_or_ne j i) [
      | inl e ↦ subst (λ x. holds_key q (at r.entries x) ≡ false) (sym e) (here q white)
      | inr ne ↦ w.clean j q (omega arith) white
    ];
    same_slots = w.same_slots;
  }

  held : (k q : ℕ) (e : Entry) → e.key ≡ some k → holds_key q e ≡ true → k ≡ q
  held k q e key h = ground arith

  not_held :
      (k q : ℕ) (e : Entry)
      → e.key ≡ some k
      → strings.marked k ≡ true
      → strings.marked q ≡ false
      → holds_key q e ≡ false
  not_held k q e key black white = elim (Bool-cases (holds_key q e)) [
    | inr free ↦ free
    | inl h ↦ absurd (ground (arith, ap strings.marked (held k q e key h)))
  ]

  -- The step at slot `i`, where the key is not marked.
  white_step :
      (m r : HashMap) (i k : ℕ)
      → Whitening m r i
      → i < r.slots
      → (at r.entries i).key ≡ some k
      → strings.marked k ≡ false
      → (s : Bool × HashMap) × (del strings r k ≡ some s) × Whitening m s.1 (i + 1)
  white_step m r i k w lt key white =
      let (p, run, does) = pop-Does strings w.valid k in
      let removes = pop-Removes r k p run in
      let deleted : del strings r k ≡ some (not (is_absent p.0), p.1) =
        del-pop strings r k ∙ ap (Option.map (λ r. (not (is_absent r.0), r.1))) run in
      let gone : lookup p.1.entries k ≡ none = does.updates k ∙ rw refl_k in
      let width = does.valid.table.placed.width in
      (
        (not (is_absent p.0), p.1),
        deleted,
        record {
          valid = does.valid;
          marked_stay = λ q black. does.updates q ∙ ground (arith, w.marked_stay q black);
          clean = λ j q lj white_q. elim (Bool-cases (holds_key q (at p.1.entries j))) [
            | inr free ↦ free
            | inl h ↦
                let before = removes.shrinks j q h in
                elim (eq_or_ne j i) [
                  | inl e ↦
                      let same : k ≡ q =
                        held k q (at r.entries i) key
                          (subst (λ x. holds_key q (at r.entries x) ≡ true) e before) in
                      let free =
                        nowhere p.1.entries k j gone (omega (arith, width, removes.same_slots)) in
                      subst (λ x. holds_key x (at p.1.entries j) ≡ false) same free
                  | inr ne ↦ absurd (ground (arith, w.clean j q (omega arith) white_q))
                ]
          ];
          same_slots = removes.same_slots ∙ w.same_slots;
        },
      )
    where
      refl_k : (k == k) ≡ true
      refl_k = ground arith

  skips_free :
      (left i : ℕ) (r : HashMap)
      → (at r.entries i).key ≡ none
      → remove_white strings (suc left) i r ≡ remove_white strings left (i + 1) r
  unfolding remove_white
  skips_free left i r free = rw (remove_white, free)

  skips_black :
      (left i : ℕ) (r : HashMap) (k : ℕ)
      → (at r.entries i).key ≡ some k
      → strings.marked k ≡ true
      → remove_white strings (suc left) i r ≡ remove_white strings left (i + 1) r
  unfolding remove_white
  skips_black left i r k key black = rw (remove_white, key) (rw black)

  drops_white :
      (left i : ℕ) (r : HashMap) (k : ℕ) (d : Bool × HashMap)
      → (at r.entries i).key ≡ some k
      → strings.marked k ≡ false
      → del strings r k ≡ some d
      → remove_white strings (suc left) i r ≡ remove_white strings left (i + 1) d.1
  unfolding remove_white
  drops_white left i r k d key white deleted = rw (remove_white, key) (rw white (rw deleted))

  remove_white-Whitening :
      (left i : ℕ) (m r : HashMap)
      → Whitening m r i
      → r.slots ≡ i + left
      → (s : HashMap) × (remove_white strings left i r ≡ some s) × Whitening m s (i + left)
  unfolding remove_white
  remove_white-Whitening zero i m r w e = (r, refl, subst (λ n. Whitening m r n) (omega arith) w)
  remove_white-Whitening (suc left) i m r w e =
      let next : i + 1 + left ≡ i + suc left = omega arith in
      elim (Option-cases (at r.entries i).key) [
        | inl free ↦
            let (s, run, done) =
              remove_white-Whitening left (i + 1) m r (clean_step m r i w (λ q white. ground arith))
                (omega arith) in
            (s, skips_free left i r free ∙ run, subst (λ n. Whitening m s n) next done)
        | inr (k, key) ↦ elim (Bool-cases (strings.marked k)) [
          | inl black ↦
              let (s, run, done) =
                remove_white-Whitening left (i + 1) m r
                  (clean_step m r i w (λ q white. not_held k q (at r.entries i) key black white))
                  (omega arith) in
              (s, skips_black left i r k key black ∙ run, subst (λ n. Whitening m s n) next done)
          | inr white ↦
              let (d, deleted, w') = white_step m r i k w (omega arith) key white in
              let (s, run, done) =
                remove_white-Whitening left (i + 1) m d.1 w'
                  (omega (arith, w'.same_slots, w.same_slots)) in
              (
                s,
                drops_white left i r k d key white deleted ∙ run,
                subst (λ n. Whitening m s n) next done,
              )
        ]
      ]

  -- On a map in order `jml_hashmap_remove_white` ends and keeps the order; the map then has what it had under the
  -- keys that are marked, and nothing under the others.
  pub remove_white-Whitened :
      {m : HashMap}
      → IsValid strings m
      → (r : HashMap) × (remove_white strings m.slots 0 m ≡ some r) × Whitened m r
  remove_white-Whitened {m} valid =
      let start : Whitening m m 0 = record {
        valid = valid;
        marked_stay = λ q black. refl;
        clean = λ j q lj white. absurd (omega arith);
        same_slots = refl;
      } in
      let (r, run, w) = remove_white-Whitening m.slots 0 m m start (omega arith) in
      (
        r,
        run,
        record {
          valid = w.valid;
          reads = λ q. elim (Bool-cases (strings.marked q)) [
            | inl black ↦ rw black (w.marked_stay q black)
            | inr white ↦ rw white (
                lookup-eq-none r.entries q (λ j lj.
                  w.clean j q (omega (arith, w.valid.table.placed.width, w.same_slots)) white))
          ];
        },
      )
