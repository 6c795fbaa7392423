-- ===== src/HashMap/Places.antt =====
-- Slots of a table: reads after writes, the number of used slots, and the places of a probe.
use native.Mathlib.Nat.{mod-eq_of_lt, mod-add-mod, add-mod_right}
use jml.Base.{
  ℕ, zero, suc, ◌+◌, ◌-◌, ◌%◌, ◌≤◌, ◌<◌, ◌≡◌, refl, ◌∙◌, ap, true, List, [], ◌∷◌, set, replicate,
  length, ◌==◌, leb, if◌then◌else◌, arith, inl, inr, Bool-cases,
}
use jml.Value.{is_none}
use jml.HashMap.Table.{Entry, empty_entry, at, is_free}

-- the slots that are not free: keys and tombstones
unfoldable pub used : List Entry → ℕ
used [] = 0
used (e ∷ es) = (if is_free e then 0 else 1) + used es

pub used-le-length : (es : List Entry) → used es ≤ length es
unfolding used
used-le-length [] = omega arith
used-le-length (e ∷ es) = ground (arith, used-le-length es)

-- Where not every slot is used there is a free one.
pub free_slot :
    (es : List Entry) → used es < length es → (i : ℕ) × (i < length es) × (is_free (at es i) ≡ true)
unfolding used
free_slot [] h = absurd (omega arith)
free_slot (e ∷ es) h = elim (Bool-cases (is_free e)) [
  | inl f ↦ (0, omega arith, f)
  | inr f ↦ let (i, lt, g) = free_slot es (ground arith) in (suc i, omega arith, g)
]

pub at-set :
    (es : List Entry) (i j : ℕ) (e : Entry)
    → i < length es
    → at (set es i e) j ≡ (if i == j then e else at es j)
at-set [] i j e h = absurd (omega arith)
at-set (x ∷ es) zero zero e h = refl
at-set (x ∷ es) zero (suc j) e h = ground arith
at-set (x ∷ es) (suc i) zero e h = ground arith
at-set (x ∷ es) (suc i) (suc j) e h = ground (arith, at-set es i j e)

-- A write counts for its slot, and for no other.
pub used-set :
    (es : List Entry) (i : ℕ) (e : Entry)
    → i < length es
    → used (set es i e) + (if is_free (at es i) then 0 else 1)
      ≡ used es + (if is_free e then 0 else 1)
unfolding used
used-set [] i e h = absurd (omega arith)
used-set (x ∷ es) zero e h = omega arith
used-set (x ∷ es) (suc i) e h = omega (arith, used-set es i e (omega arith))

pub length-replicate : (n : ℕ) (e : Entry) → length (replicate n e) ≡ n
length-replicate zero e = refl
length-replicate (suc n) e = ap suc (length-replicate n e)

pub at-replicate : (n i : ℕ) → at (replicate n empty_entry) i ≡ empty_entry
at-replicate zero i = refl
at-replicate (suc n) zero = refl
at-replicate (suc n) (suc i) = at-replicate n i

pub used-replicate : (n : ℕ) → used (replicate n empty_entry) ≡ 0
unfolding used is_none
used-replicate zero = refl
used-replicate (suc n) = omega (arith, used-replicate n)

-- Every slot is on the way of a probe, wherever it starts.
pub distance : (n h i : ℕ) → h < n → i < n → (d : ℕ) × (d < n) × ((h + d) % n ≡ i)
distance n h i hn hi = elim (Bool-cases (leb h i)) [
  | inl le ↦ let e : h + (i - h) ≡ i = ground arith in (i - h, ground arith, rw e (mod-eq_of_lt hi))
  | inr gt ↦
      let e : h + (i + n - h) ≡ i + n = ground arith in
      (i + n - h, ground arith, rw e (add-mod_right i n ∙ mod-eq_of_lt hi))
]

-- The next place of a probe.
pub next_place : (n h d : ℕ) → ((h + d) % n + 1) % n ≡ (h + suc d) % n
next_place n h d = let e : h + d + 1 ≡ h + suc d = omega arith in rw (mod-add-mod (h + d) n 1, e)
