-- ===== src/Vm/Open.antt =====
-- src/jml_vm.c: the open upvalues of a coroutine, linked from the top of the stack downwards.
use mathlib.Core.Path.{subst}
use jml.Base.{
  ℕ, ◌≤◌, ◌<◌, ◌≡◌, refl, sym, ap, ◌∙◌, ◌≢◌, ◌⊎◌, inl, inr, List, [], ◌∷◌, ==_refl, arith,
}
use jml.Vm.Coroutine.{Upvalue, slot, own, update, rebase, rebase_location, rebase_upvalues}

abbrev pub In : ℕ → List ℕ → Type 0
In a [] = ⊥
In a (x ∷ xs) = (x ≡ a) ⊎ In a xs

-- The upvalues point to cells below `bound`, each to a lower one than that before it, and none to a cell below
-- `low`.
abbrev pub Descends : (ℕ → Upvalue) → ℕ → ℕ → List ℕ → Type 0
Descends objects low bound [] = Unit {0}
Descends objects low bound (id ∷ ids) =
    (p : ℕ) × ((objects id).location ≡ slot p)
    × (p < bound)
    × (low ≤ p)
    × Descends objects low p ids

-- The cell that an open upvalue points to.
abbrev pub Points : (ℕ → Upvalue) → ℕ → ℕ → ℕ → Type 0
Points objects low bound id = (p : ℕ) × ((objects id).location ≡ slot p) × (p < bound) × (low ≤ p)

-- What `jml_obj_coroutine_grow` makes of an open upvalue.
abbrev pub rebased : ℕ → ℕ → Upvalue → Upvalue
rebased old stack u = record u { location = rebase_location old stack u.location }

pub slot-injective : {p q : ℕ} → slot p ≡ slot q → p ≡ q
slot-injective h = cc

pub slot-ne-own : {p : ℕ} → slot p ≡ own → ⊥
slot-ne-own h = cc

pub update_self : (objects : ℕ → Upvalue) (id : ℕ) (u : Upvalue) → update objects id u id ≡ u
update_self objects id u = rw (==_refl id)

pub update_other :
    (objects : ℕ → Upvalue) (id : ℕ) (u : Upvalue) (q : ℕ)
    → id ≢ q
    → update objects id u q ≡ objects q
update_other objects id u q h = ground arith

pub Descends-weaken :
    (objects : ℕ → Upvalue) (low : ℕ) {bound bound' : ℕ} (ids : List ℕ)
    → bound ≤ bound'
    → Descends objects low bound ids
    → Descends objects low bound' ids
Descends-weaken objects low [] h d = tt
Descends-weaken objects low (id ∷ ids) h (p, e, lt, le, rest) = (p, e, omega arith, le, rest)

pub Descends-points :
    (objects : ℕ → Upvalue) (low bound : ℕ) (ids : List ℕ) (id : ℕ)
    → Descends objects low bound ids
    → In id ids
    → Points objects low bound id
Descends-points objects low bound [] id d h = absurd h
Descends-points objects low bound (x ∷ xs) id (p, e, lt, le, rest) (inl h) =
    (p, ap (λ i. (objects i).location) (sym h) ∙ e, lt, le)
Descends-points objects low bound (x ∷ xs) id (p, e, lt, le, rest) (inr h) =
    let below : Points objects low p id = Descends-points objects low p xs id rest h in
    (below.0, below.1, omega (arith, below.2), below.3)

-- An upvalue with a location at or above the bound is not one of them.
pub Descends-fresh :
    (objects : ℕ → Upvalue) (low bound : ℕ) (ids : List ℕ) (id p : ℕ)
    → Descends objects low bound ids
    → (objects id).location ≡ slot p
    → bound ≤ p
    → In id ids
    → ⊥
Descends-fresh objects low bound ids id p d e le h =
    let below : Points objects low bound id = Descends-points objects low bound ids id d h in
    let same : below.0 ≡ p = slot-injective (sym below.1 ∙ e) in
    absurd (omega (arith, below.2, same))

pub Descends-congr :
    (objects others : ℕ → Upvalue) (low bound : ℕ) (ids : List ℕ)
    → ((id : ℕ) → In id ids → others id ≡ objects id)
    → Descends objects low bound ids
    → Descends others low bound ids
Descends-congr objects others low bound [] same d = tt
Descends-congr objects others low bound (id ∷ ids) same (p, e, lt, le, rest) = (
  p,
  ap (λ (u : Upvalue). u.location) (same id (inl refl)) ∙ e,
  lt,
  le,
  Descends-congr objects others low p ids (λ q h. same q (inr h)) rest,
)

-- The loop of `jml_obj_coroutine_grow` writes only to the upvalues of the list.
pub rebase_upvalues-other :
    (old stack : ℕ) (ids : List ℕ) (objects : ℕ → Upvalue) (q : ℕ)
    → (In q ids → ⊥)
    → rebase_upvalues old stack ids objects q ≡ objects q
unfolding rebase_upvalues
rebase_upvalues-other old stack [] objects q away = refl
rebase_upvalues-other old stack (id ∷ ids) objects q away =
    rebase_upvalues-other old stack ids _ q (λ h. away (inr h))
    ∙ update_other objects id _ q (λ h. away (inl h))

-- It moves each of them once, since no two of them are the same object.
pub rebase_upvalues-moves :
    (old stack bound : ℕ) (ids : List ℕ) (objects : ℕ → Upvalue) (q : ℕ)
    → Descends objects old bound ids
    → In q ids
    → rebase_upvalues old stack ids objects q ≡ rebased old stack (objects q)
unfolding rebase_upvalues
rebase_upvalues-moves old stack bound [] objects q d h = absurd h
rebase_upvalues-moves old stack bound (id ∷ ids) objects q (p, e, lt, le, rest) (inl h) =
    subst (λ z. rebase_upvalues old stack (id ∷ ids) objects z ≡ rebased old stack (objects z)) h
      (rebase_upvalues-other old stack ids _ id
          (Descends-fresh objects old p ids id p rest e (omega arith))
        ∙ update_self objects id _)
rebase_upvalues-moves old stack bound (id ∷ ids) objects q (p, e, lt, le, rest) (inr later) =
    let other = λ (z : ℕ) (i : In z ids) (w : id ≡ z).
      Descends-fresh objects old p ids z p rest (ap (λ j. (objects j).location) (sym w) ∙ e)
        (omega arith) i in
    let moved = update objects id (rebased old stack (objects id)) in
    rebase_upvalues-moves old stack p ids moved q
      (Descends-congr objects moved old p ids (λ z i. update_other objects id _ z (other z i)) rest)
      later
    ∙ ap (rebased old stack) (update_other objects id _ q (other q later))

pub Descends-rebase :
    (old stack bound : ℕ) (ids : List ℕ) (objects others : ℕ → Upvalue)
    → ((id : ℕ) → In id ids → others id ≡ rebased old stack (objects id))
    → Descends objects old bound ids
    → Descends others stack (rebase old stack bound) ids
Descends-rebase old stack bound [] objects others moves d = tt
Descends-rebase old stack bound (id ∷ ids) objects others moves (p, e, lt, le, rest) = (
  rebase old stack p,
  ap (λ (u : Upvalue). u.location) (moves id (inl refl)) ∙ ap (rebase_location old stack) e,
  omega arith,
  omega arith,
  Descends-rebase old stack p ids objects others (λ q h. moves q (inr h)) rest,
)
