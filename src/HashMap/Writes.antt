-- ===== src/HashMap/Writes.antt =====
-- Writes of one slot keep the invariant of a table, and change what it means at one key.
use mathlib.Core.Path.{subst}
use jml.Base.{
  length-set, ℕ, ◌<◌, ◌≡◌, ◌≢◌, sym, ◌∙◌, ap, true, false, List, some, length, set, arith, ◌⊎◌, inl,
  inr, eq_or_ne,
}
use jml.HashMap.Table.{Strings, Entry, at, is_free, holds_key}
use jml.HashMap.Places.{at-set}
use jml.HashMap.Lookup.{lookup, lookup_cases, lookup-eq-none, lookup-at}
use jml.HashMap.Placed.{Reached, Placed}

module _ (strings : Strings) {n : ℕ} {es : List Entry} (t : Placed strings n es) (i : ℕ) (e : Entry)
    (lt : i < n) (nonfree : is_free e ≡ false) where
  in_list : i < length es
  in_list = omega (arith, t.width)

  at_other : (j : ℕ) → i ≢ j → at (set es i e) j ≡ at es j
  at_other j ne = at-set es i j e in_list ∙ ground arith

  at_self : at (set es i e) i ≡ e
  at_self = at-set es i i e in_list ∙ ground arith

  -- No slot becomes free.
  still_used : (j : ℕ) → is_free (at es j) ≡ false → is_free (at (set es i e) j) ≡ false
  still_used j h = elim (eq_or_ne i j) [
    | inl same ↦
        subst (λ x. is_free (at (set es i e) x) ≡ false) same (ap is_free at_self ∙ nonfree)
    | inr other ↦ ap is_free (at_other j other) ∙ h
  ]

  still-Reached : (key j : ℕ) → Reached strings es n key j → Reached strings (set es i e) n key j
  still-Reached key j (d, l, p, clear) = (d, l, p, λ d' h. still_used _ (clear d' h))

  -- Where a key stands after the write.
  pub holds_after :
      (key j : ℕ)
      → holds_key key (at (set es i e) j) ≡ true
      → ((i ≡ j) × (holds_key key e ≡ true)) ⊎ ((i ≢ j) × (holds_key key (at es j) ≡ true))
  holds_after key j h = elim (eq_or_ne i j) [
    | inl same ↦ inl (
      same,
      sym (ap (holds_key key) at_self)
          ∙ subst (λ x. holds_key key (at (set es i e) x) ≡ true) (sym same) h,
    )
    | inr other ↦ inr (other, sym (ap (holds_key key) (at_other j other)) ∙ h)
  ]

  -- The key of the new entry, if it has one, can be reached at `i`, and stands nowhere else.
  module _ (at_new : (key : ℕ) → holds_key key e ≡ true → Reached strings es n key i)
      (only_new : (key j : ℕ)
        → holds_key key e ≡ true
        → j < n
        → holds_key key (at es j) ≡ true
        → j ≡ i) where
    set-Reached :
        (j key : ℕ)
        → j < n
        → holds_key key (at (set es i e) j) ≡ true
        → Reached strings (set es i e) n key j
    set-Reached j key l h = elim (holds_after key j h) [
      | inl (same, k) ↦
          subst (Reached strings (set es i e) n key) same (still-Reached key i (at_new key k))
      | inr (_, k) ↦ still-Reached key j (t.reached j key l k)
    ]

    set_unique :
        (j k key : ℕ)
        → j < n
        → k < n
        → holds_key key (at (set es i e) j) ≡ true
        → holds_key key (at (set es i e) k) ≡ true
        → j ≡ k
    set_unique j k key lj lk hj hk = elim (holds_after key j hj) [
      | inl (same, new) ↦ elim (holds_after key k hk) [
        | inl (same', _) ↦ sym same ∙ same'
        | inr (other, old) ↦ absurd (other (sym (only_new key k new lk old)))
      ]
      | inr (other, old) ↦ elim (holds_after key k hk) [
        | inl (_, new) ↦ absurd (other (sym (only_new key j new lj old)))
        | inr (_, old') ↦ t.unique j k key lj lk old old'
      ]
    ]

    pub set-Placed : Placed strings n (set es i e)
    set-Placed = record {
      width = length-set es i e ∙ t.width;
      reached = set-Reached;
      unique = set_unique;
    }

    -- The value of a key that the new entry and the old one at `i` do not hold is unchanged.
    pub lookup-set_other :
        (key : ℕ)
        → holds_key key e ≡ false
        → holds_key key (at es i) ≡ false
        → lookup (set es i e) key ≡ lookup es key
    lookup-set_other key new old = elim (lookup_cases es key) [
      | inl (l, nowhere) ↦
          lookup-eq-none (set es i e) key (λ j lj. elim (eq_or_ne i j) [
            | inl same ↦
                subst (λ x. holds_key key (at (set es i e) x) ≡ false) same
                  (ap (holds_key key) at_self ∙ new)
            | inr other ↦
                ap (holds_key key) (at_other j other) ∙ nowhere j (omega (arith, length-set es i e))
          ])
          ∙ sym l
      | inr (j, lj, h, l) ↦
          let other : i ≢ j = λ same. cc (h, same, old) in
          let h' : holds_key key (at (set es i e) j) ≡ true =
            ap (holds_key key) (at_other j other) ∙ h in
          lookup-at (set es i e) key j (omega (arith, length-set es i e)) h' (λ k lk hk.
            set_unique k j key (omega (arith, length-set es i e, t.width)) (omega (arith, t.width))
              hk h')
          ∙ ap (λ (x : Entry). some x.value) (at_other j other)
          ∙ sym l
    ]

    pub lookup-set_self :
        (key : ℕ) → holds_key key e ≡ true → lookup (set es i e) key ≡ some e.value
    lookup-set_self key h =
        let h' : holds_key key (at (set es i e) i) ≡ true = ap (holds_key key) at_self ∙ h in
        lookup-at (set es i e) key i (omega (arith, length-set es i e, t.width)) h'
          (λ k lk hk. set_unique k i key (omega (arith, length-set es i e, t.width)) lt hk h')
        ∙ ap (λ (x : Entry). some x.value) at_self
