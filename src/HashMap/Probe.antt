-- ===== src/HashMap/Probe.antt =====
-- `jml_hashmap_find_entry`: where a probe ends, and that it ends if some slot is free.
use mathlib.Core.Path.{subst}
use jml.Base.{
  ℕ, zero, suc, ◌+◌, ◌-◌, ◌%◌, ◌≤◌, ◌<◌, ◌≡◌, refl, ◌∙◌, true, false, List, Option, some, none,
  bit_and, arith, inl, inr, Bool-cases, ◌==◌, ==_iff, sym,
}
use jml.Value.{is_none}
use jml.HashMap.Table.{Entry, at, is_free, has_key, holds_key, or_here, probe}
use jml.HashMap.Places.{next_place}

-- One round of the loop, in each of its four cases.
module _ (f : ℕ) (es : List Entry) (cap key index : ℕ) (t : Option ℕ) where
  probe_stop :
      has_key (at es index) ≡ false
      → is_none (at es index).value ≡ true
      → probe (suc f) es cap key index t ≡ some (or_here t index)
  unfolding probe
  probe_stop a b = rw (a, b)

  probe_tomb :
      has_key (at es index) ≡ false
      → is_none (at es index).value ≡ false
      → probe (suc f) es cap key index t
        ≡ probe f es cap key (bit_and (index + 1) cap) (some (or_here t index))
  unfolding probe
  probe_tomb a b = rw (a, b)

  probe_hit :
      has_key (at es index) ≡ true
      → holds_key key (at es index) ≡ true
      → probe (suc f) es cap key index t ≡ some index
  unfolding probe
  probe_hit a b = rw (a, b)

  probe_other :
      has_key (at es index) ≡ true
      → holds_key key (at es index) ≡ false
      → probe (suc f) es cap key index t ≡ probe f es cap key (bit_and (index + 1) cap) t
  unfolding probe
  probe_other a b = rw (a, b)

-- the slot of `n` at distance `d` from `h`
abbrev pub place : ℕ → ℕ → ℕ → ℕ
place n h d = (h + d) % n

module _ (es : List Entry) (n key h : ℕ) where
  -- the probe has gone past every slot before distance `d`
  abbrev pub Passed : ℕ → Type 0
  Passed d =
      (d' : ℕ)
      → d' < d
      → (is_free (at es (place n h d')) ≡ false) × (holds_key key (at es (place n h d')) ≡ false)

  -- Where the probe ends: at the key; or at the first free slot, in which case the slot returned is
  -- one without a key, no further than that.
  pub data Found (i : ℕ) : Type 0 where
    present :
        (d : ℕ) → d < n → i ≡ place n h d → holds_key key (at es i) ≡ true → Passed d → Found i
    absent :
        (d : ℕ)
        → d < n
        → is_free (at es (place n h d)) ≡ true
        → Passed d
        → (d' : ℕ) → d' ≤ d
        → i ≡ place n h d'
        → has_key (at es i) ≡ false
        → Found i

  pub data TombBefore (d : ℕ) : Option ℕ → Type 0 where
    no_tomb : TombBefore d none
    tomb :
        (i d' : ℕ) → d' < d → i ≡ place n h d' → has_key (at es i) ≡ false → TombBefore d (some i)

  Passed-suc :
      (d : ℕ)
      → Passed d
      → is_free (at es (place n h d)) ≡ false
      → holds_key key (at es (place n h d)) ≡ false
      → Passed (suc d)
  Passed-suc d p a b d' lt = elim (Bool-cases (d' == d)) [
    | inl e ↦
        subst
          (λ x.
            (is_free (at es (place n h x)) ≡ false) × (holds_key key (at es (place n h x)) ≡ false))
          (sym ((==_iff d' d).0 e)) (a, b)
    | inr ne ↦ p d' (ground arith)
  ]

  -- the slot without a key that the probe returns at its first free slot
  stop-Found :
      (d : ℕ) (t : Option ℕ)
      → d < n
      → has_key (at es (place n h d)) ≡ false
      → is_none (at es (place n h d)).value ≡ true
      → Passed d
      → TombBefore d t
      → Found (or_here t (place n h d))
  stop-Found d _ lt a b p no_tomb = absent d lt (ground arith) p d (omega arith) refl a
  stop-Found d _ lt a b p (tomb i d' l e k) = absent d lt (ground arith) p d' (omega arith) e k

  keep_tomb :
      (d : ℕ) (t : Option ℕ)
      → has_key (at es (place n h d)) ≡ false
      → TombBefore d t
      → TombBefore (suc d) (some (or_here t (place n h d)))
  keep_tomb d _ a no_tomb = tomb (place n h d) d (omega arith) refl a
  keep_tomb d _ a (tomb i d' l e k) = tomb i d' (omega arith) e k

  later_tomb : (d : ℕ) (t : Option ℕ) → TombBefore d t → TombBefore (suc d) t
  later_tomb d _ no_tomb = no_tomb
  later_tomb d _ (tomb i d' l e k) = tomb i d' (omega arith) e k

  abbrev Ends : Option ℕ → Type 0
  Ends r = (i : ℕ) × (r ≡ some i) × Found i

  module _ (mask : (x : ℕ) → bit_and x (n - 1) ≡ x % n) (last : ℕ) (in_table : last < n)
      (free : is_free (at es (place n h last)) ≡ true) where
    next : (d : ℕ) → bit_and (place n h d + 1) (n - 1) ≡ place n h (suc d)
    next d = mask (place n h d + 1) ∙ next_place n h d

    before_last : (d : ℕ) → d ≤ last → is_free (at es (place n h d)) ≡ false → suc d ≤ last
    before_last d le nf = elim (Bool-cases (d == last)) [
      | inl e ↦ cc (nf, free, (==_iff d last).0 e)
      | inr ne ↦ ground arith
    ]

    pub probe-Found :
        (f d : ℕ) (t : Option ℕ)
        → d ≤ last
        → last < d + f
        → Passed d
        → TombBefore d t
        → Ends (probe f es (n - 1) key (place n h d) t)
    probe-Found zero d t le lt p tb = absurd (omega arith)
    probe-Found (suc f) d t le lt p tb =
        let i = place n h d in
        elim (Bool-cases (has_key (at es i))) [
          | inr nk ↦ elim (Bool-cases (is_none (at es i).value)) [
            | inl nil ↦ (
              or_here t i,
              probe_stop f es (n - 1) key i t nk nil,
              stop-Found d t (omega arith) nk nil p tb,
            )
            | inr val ↦
                let nf : is_free (at es i) ≡ false = ground arith in
                let more = before_last d le nf in
                rw (probe_tomb f es (n - 1) key i t nk val, next d)
                  (probe-Found f (suc d) (some (or_here t i)) more (omega arith)
                    (Passed-suc d p nf (ground arith)) (keep_tomb d t nk tb))
          ]
          | inl k ↦ elim (Bool-cases (holds_key key (at es i))) [
            | inl hit ↦
                (i, probe_hit f es (n - 1) key i t k hit, present d (omega arith) refl hit p)
            | inr other ↦
                let nf : is_free (at es i) ≡ false = ground arith in
                rw (probe_other f es (n - 1) key i t k other, next d)
                  (probe-Found f (suc d) t (before_last d le nf) (omega arith)
                    (Passed-suc d p nf other) (later_tomb d t tb))
          ]
        ]
