-- ===== src/HashMap/Entries.antt =====
-- The two writes of the map, at the slot where a probe has ended: of a key with its value, and of a
-- tombstone over a key.
use native.Mathlib.Nat.{mod-lt, mod-eq_of_lt}
use mathlib.Core.Path.{subst}
use jml.Base.{
  length-set, ℕ, ◌-◌, ◌%◌, ◌<◌, ◌≡◌, ◌≢◌, refl, sym, ◌∙◌, ap, true, false, List, Option, some, none,
  set, ◌==◌, if◌then◌else◌, arith, inl, inr, Bool-cases, eq_or_ne, bit_and,
}
use jml.Value.{Value, is_none}
use jml.HashMap.Mask.{IsSlots, IsSlots-mask}
use jml.HashMap.Table.{
  Strings, Entry, at, entry, tombstone, is_free, has_key, holds_key, find_entry,
}
use jml.HashMap.Places.{used, free_slot, distance}
use jml.HashMap.Probe.{place, Found, present, absent, no_tomb, probe-Found}
use jml.HashMap.Lookup.{lookup, lookup-eq-none, lookup-at}
use jml.HashMap.Placed.{home, Reached, Placed, absent-Nowhere, keyless, same_key}
use jml.HashMap.Writes.{holds_after, set-Placed, lookup-set_other, lookup-set_self}

-- What a table means after key `k` has been given the value `v`, `none` for no value.
abbrev pub Updates : List Entry → ℕ → Option Value → List Entry → Type 0
Updates es k v es' = (q : ℕ) → lookup es' q ≡ (if k == q then v else lookup es q)

module _ (strings : Strings) {n : ℕ} {es : List Entry} (slots : IsSlots n) (pos : 0 < n)
    (t : Placed strings n es) (key : ℕ) where
  abbrev FoundAt : ℕ → Type 0
  FoundAt = Found es n key (home strings n key)

  -- The probe ends if some slot is free.
  pub find_entry-Found : used es < n → (i : ℕ) × (find_entry strings es n key ≡ some i) × FoundAt i
  unfolding find_entry
  find_entry-Found room =
      let mask = IsSlots-mask slots pos in
      let h = home strings n key in
      let h_lt : h < n = mod-lt (strings.hash key) pos in
      let (i, lt, free) = free_slot es (omega (arith, t.width)) in
      let (d, d_lt, at_i) = distance n h i h_lt (omega (arith, t.width)) in
      let (r, run, found) =
        probe-Found es n key h mask d d_lt (subst (λ x. is_free (at es x) ≡ true) (sym at_i) free) n
          0 none (omega arith) (omega arith) (λ d' l. absurd (omega arith)) no_tomb in
      let start : bit_and (strings.hash key) (n - 1) ≡ place n h 0 =
        mask (strings.hash key) ∙ sym (mod-eq_of_lt h_lt) ∙ ap (λ x. x % n) (omega arith) in
      (r, rw start run, found)

  pub found_lt : (i : ℕ) → FoundAt i → i < n
  found_lt i (present d l e k p) = rw e (mod-lt _ pos)
  found_lt i (absent d l f p d' le e k) = rw e (mod-lt _ pos)

  found-Reached : (i : ℕ) → FoundAt i → Reached strings es n key i
  found-Reached i (present d l e k p) = (d, l, e, λ d' h. (p d' h).0)
  found-Reached i (absent d l f p d' le e k) = (d', omega arith, e, λ c h. (p c (omega arith)).0)

  found_only : (i : ℕ) → FoundAt i → (j : ℕ) → j < n → holds_key key (at es j) ≡ true → j ≡ i
  found_only i (present d l e k p) j lj h = t.unique j i key lj (rw e (mod-lt _ pos)) h k
  found_only i (absent d l f p d' le e k) j lj h =
      cc (absent-Nowhere strings n key es d t l f p j (omega (arith, t.width)), h)

  found_other : (i : ℕ) → FoundAt i → (q : ℕ) → key ≢ q → holds_key q (at es i) ≡ false
  found_other i (present d l e k p) q ne = elim (Bool-cases (holds_key q (at es i))) [
    | inl h ↦ absurd (ne (same_key key q (at es i) k h))
    | inr h ↦ h
  ]
  found_other i (absent d l f p d' le e k) q ne = keyless q (at es i) k

  -- The slot where the probe ended tells the value of the key.
  pub found-lookup :
      (i : ℕ)
      → FoundAt i
      → lookup es key ≡ (if has_key (at es i) then some (at es i).value else none)
  found-lookup i (present d l e k p) =
      lookup-at es key i (rw (e, t.width) (mod-lt _ pos)) k
        (λ j lj h. t.unique j i key (omega (arith, t.width)) (rw e (mod-lt _ pos)) h k)
      ∙ ground arith
  found-lookup i (absent d l f p d' le e k) =
      lookup-eq-none es key (absent-Nowhere strings n key es d t l f p) ∙ rw k

  module _ (i : ℕ) (found : FoundAt i) (v : Value) where
    entry_key : (k : ℕ) → holds_key k (entry key v) ≡ true → key ≡ k
    entry_key k h = ground arith

    entry_new : (k : ℕ) → holds_key k (entry key v) ≡ true → Reached strings es n k i
    entry_new k h = subst (λ x. Reached strings es n x i) (entry_key k h) (found-Reached i found)

    entry_only :
        (k j : ℕ) → holds_key k (entry key v) ≡ true → j < n → holds_key k (at es j) ≡ true → j ≡ i
    entry_only k j h lj hj =
        found_only i found j lj (subst (λ x. holds_key x (at es j) ≡ true) (sym (entry_key k h)) hj)

    pub entry-Placed : Placed strings n (set es i (entry key v))
    entry-Placed = set-Placed strings t i (entry key v) (found_lt i found) refl entry_new entry_only

    pub entry-Updates : Updates es key (some v) (set es i (entry key v))
    entry-Updates q = elim (eq_or_ne key q) [
      | inl same ↦
          lookup-set_self strings t i (entry key v) (found_lt i found) refl entry_new entry_only q
            (ground arith)
          ∙ ground arith
      | inr other ↦
          lookup-set_other strings t i (entry key v) (found_lt i found) refl entry_new entry_only q
            (ground arith) (found_other i found q other)
          ∙ ground arith
    ]

  module _ (i : ℕ) (found : FoundAt i) where
    no_key : (k : ℕ) → holds_key k tombstone ≡ true → Reached strings es n k i
    no_key k h = cc

    no_key_only :
        (k j : ℕ) → holds_key k tombstone ≡ true → j < n → holds_key k (at es j) ≡ true → j ≡ i
    no_key_only k j h = cc

    pub tombstone-Placed : Placed strings n (set es i tombstone)
    unfolding is_none
    tombstone-Placed = set-Placed strings t i tombstone (found_lt i found) refl no_key no_key_only

    gone : (j : ℕ) → j < n → holds_key key (at (set es i tombstone) j) ≡ false
    unfolding is_none
    gone j lj = elim (Bool-cases (holds_key key (at (set es i tombstone) j))) [
      | inr h ↦ h
      | inl h ↦ elim (holds_after strings t i tombstone (found_lt i found) refl key j h) [
        | inl (_, k) ↦ cc
        | inr (other, old) ↦ absurd (other (sym (found_only i found j lj old)))
      ]
    ]

    pub tombstone-Updates : has_key (at es i) ≡ true → Updates es key none (set es i tombstone)
    unfolding is_none
    tombstone-Updates h q = elim (eq_or_ne key q) [
      | inl same ↦
          lookup-eq-none (set es i tombstone) q (λ j lj.
            subst (λ x. holds_key x (at (set es i tombstone) j) ≡ false) same
              (gone j (omega (arith, length-set es i tombstone, t.width))))
          ∙ ground arith
      | inr other ↦
          lookup-set_other strings t i tombstone (found_lt i found) refl no_key no_key_only q refl
            (found_other i found q other)
          ∙ ground arith
    ]
