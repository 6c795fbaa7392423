-- ===== src/HashMap/Placed.antt =====
-- The invariant of a table: every key can be reached by its probe, and stands in one slot.

use jml.Base.{
  ℕ, ◌%◌, ◌<◌, ◌≡◌, true, false, List, length, ltb, ◌==◌, ==_iff, arith, inl, inr, Bool-cases,
}
use jml.HashMap.Table.{Strings, Entry, at, is_free, has_key, holds_key}
use jml.HashMap.Probe.{place, Passed}
use jml.HashMap.Lookup.{Nowhere}

pub free_keyless : (key : ℕ) (e : Entry) → is_free e ≡ true → holds_key key e ≡ false
free_keyless key e h = ground arith

pub keyless : (key : ℕ) (e : Entry) → has_key e ≡ false → holds_key key e ≡ false
keyless key e h = ground arith

pub same_key : (j k : ℕ) (e : Entry) → holds_key j e ≡ true → holds_key k e ≡ true → j ≡ k
same_key j k e g h = ground arith

module _ (strings : Strings) where
  abbrev pub home : ℕ → ℕ → ℕ
  home n key = strings.hash key % n

  -- No slot on the way from the home of the key to slot `i` is free.
  abbrev pub Reached : List Entry → ℕ → ℕ → ℕ → Type 0
  Reached es n key i =
      (d : ℕ) × (d < n)
      × (i ≡ place n (home n key) d)
      × ((d' : ℕ) → d' < d → is_free (at es (place n (home n key) d')) ≡ false)

  pub record Placed (n : ℕ) (es : List Entry) : Type 0 where
    pub width : length es ≡ n
    pub reached : (i key : ℕ) → i < n → holds_key key (at es i) ≡ true → Reached es n key i
    pub unique :
        (i j key : ℕ)
        → i < n
        → j < n
        → holds_key key (at es i) ≡ true
        → holds_key key (at es j) ≡ true
        → i ≡ j

  -- Where the probe found no key, there is none in the table.
  pub absent-Nowhere :
      (n key : ℕ) (es : List Entry) (d : ℕ)
      → Placed n es
      → d < n
      → is_free (at es (place n (home n key) d)) ≡ true
      → Passed es n key (home n key) d
      → Nowhere es key
  absent-Nowhere n key es d t lt free passed i li = elim (Bool-cases (holds_key key (at es i))) [
    | inr h ↦ h
    | inl h ↦
        let (e, le, at_e, clear) = t.reached i key (omega (arith, t.width)) h in
        elim (Bool-cases (ltb e d)) [
          | inl near ↦ cc (at_e, (passed e (ground arith)).1)
          | inr far ↦ elim (Bool-cases (d == e)) [
            | inl same ↦
                let free_i : is_free (at es i) ≡ true = cc (at_e, free, (==_iff d e).0 same) in
                cc (free_keyless key (at es i) free_i)
            | inr more ↦ cc (free, clear d (ground arith))
          ]
        ]
  ]
