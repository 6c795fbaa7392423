-- ===== src/HashMap/Lookup.antt =====
-- What a table means: the value under a key, read by a scan of all the slots.
use jml.Base.{
  ℕ, zero, suc, ◌<◌, ◌≡◌, refl, ap, Bool, true, false, List, [], ◌∷◌, Option, some, none, length,
  if◌then◌else◌, arith, ◌⊎◌, inl, inr, Bool-cases,
}
use jml.Value.{Value}
use jml.HashMap.Table.{Entry, at, holds_key}

-- The abstract map of a table. It does not look at the hash, at tombstones or at the order of probes.
unfoldable pub lookup : List Entry → ℕ → Option Value
lookup [] key = none
lookup (e ∷ es) key = if holds_key key e then some e.value else lookup es key

abbrev pub Nowhere : List Entry → ℕ → Type 0
Nowhere es key = (i : ℕ) → i < length es → holds_key key (at es i) ≡ false

abbrev pub Somewhere : List Entry → ℕ → Type 0
Somewhere es key =
    (i : ℕ) × (i < length es)
    × (holds_key key (at es i) ≡ true)
    × (lookup es key ≡ some (at es i).value)

pub lookup_cases :
    (es : List Entry) (key : ℕ) → ((lookup es key ≡ none) × Nowhere es key) ⊎ Somewhere es key
unfolding lookup
lookup_cases [] key = inl (refl, λ i h. absurd (omega arith))
lookup_cases (e ∷ es) key = elim (Bool-cases (holds_key key e)) [
  | inl h ↦ inr (0, omega arith, h, rw h)
  | inr h ↦ elim (lookup_cases es key) [
    | inl (l, nowhere) ↦ inl (rw h l, step h nowhere)
    | inr (i, lt, k, l) ↦ inr (suc i, omega arith, k, rw h l)
  ]
]
  where
    step : holds_key key e ≡ false → Nowhere es key → Nowhere (e ∷ es) key
    step h nowhere zero lt = h
    step h nowhere (suc i) lt = nowhere i (omega arith)

pub lookup-eq-none : (es : List Entry) (key : ℕ) → Nowhere es key → lookup es key ≡ none
lookup-eq-none es key nowhere = elim (lookup_cases es key) [
  | inl (l, _) ↦ l
  | inr (i, lt, k, l) ↦ cc (nowhere i lt)
]

pub lookup-at :
    (es : List Entry) (key i : ℕ)
    → i < length es
    → holds_key key (at es i) ≡ true
    → ((j : ℕ) → j < length es → holds_key key (at es j) ≡ true → j ≡ i)
    → lookup es key ≡ some (at es i).value
lookup-at es key i lt k only = elim (lookup_cases es key) [
  | inl (_, nowhere) ↦ cc (nowhere i lt)
  | inr (j, lt', k', l) ↦ rw l (ap (λ x. some (at es x).value) (only j lt' k'))
]

abbrev pub is_absent : Option Value → Bool
is_absent none = true
is_absent (some _) = false
