-- ===== src/Vm/Capture.antt =====
-- src/jml_vm.c: what `jml_vm_upvalue_capture` returns and links.
use mathlib.Core.Path.{subst}
use jml.Base.{
  ℕ, ◌≤◌, ◌<◌, ◌≡◌, refl, sym, ap, ◌∙◌, ◌⊎◌, inl, inr, Bool, false, List, [], ◌∷◌, ◌++◌, ltb,
  if_lem, arith,
}
use jml.Vm.Coroutine.{Upvalue, slot, Vm, update}
use jml.Vm.Open.{
  In, Descends, Descends-congr, Descends-points, slot-injective, update_self, update_other,
}
use jml.Vm.Running.{IsRunning}
use jml.Vm.Upvalues.{
  is_above, is_at, pass_above, upvalue_new, insert_new, capture_at, upvalue_capture,
}

abbrev head_at : (ℕ → Upvalue) → ℕ → List ℕ → Bool
head_at objects pointer [] = false
head_at objects pointer (id ∷ _) = is_at (objects id).location pointer

-- No two upvalues of the list point to one cell.
Descends-unique :
    (objects : ℕ → Upvalue) (low bound : ℕ) (ids : List ℕ) (a b p : ℕ)
    → Descends objects low bound ids
    → In a ids
    → In b ids
    → (objects a).location ≡ slot p
    → (objects b).location ≡ slot p
    → a ≡ b
Descends-unique objects low bound [] a b p d ha hb ea eb = absurd ha
Descends-unique objects low bound (x ∷ ids) a b p d (inl ha) (inl hb) ea eb = sym ha ∙ hb
Descends-unique objects low bound (x ∷ ids) a b p (q, e, lt, le, rest) (inl ha) (inr hb) ea eb =
    let (z, ez, lz, _) = Descends-points objects low q ids b rest hb in
    let first : q ≡ p = slot-injective (sym e ∙ ap (λ k. (objects k).location) ha ∙ ea) in
    let second : z ≡ p = slot-injective (sym ez ∙ eb) in absurd (omega arith)
Descends-unique objects low bound (x ∷ ids) a b p (q, e, lt, le, rest) (inr ha) (inl hb) ea eb =
    let (z, ez, lz, _) = Descends-points objects low q ids a rest ha in
    let first : q ≡ p = slot-injective (sym e ∙ ap (λ k. (objects k).location) hb ∙ eb) in
    let second : z ≡ p = slot-injective (sym ez ∙ ea) in absurd (omega arith)
Descends-unique objects low bound (x ∷ ids) a b p (q, e, lt, le, rest) (inr ha) (inr hb) ea eb =
    Descends-unique objects low q ids a b p rest ha hb ea eb

In-insert : (q x : ℕ) (above rest : List ℕ) → In q (above ++ rest) → In q (above ++ x ∷ rest)
In-insert q x [] rest h = inr h
In-insert q x (a ∷ above) rest (inl h) = inl h
In-insert q x (a ∷ above) rest (inr h) = inr (In-insert q x above rest h)

In-inserted : (x : ℕ) (above rest : List ℕ) → In x (above ++ x ∷ rest)
In-inserted x [] rest = inl refl
In-inserted x (a ∷ above) rest = inr (In-inserted x above rest)

In-insert_inv :
    (q x : ℕ) (above rest : List ℕ) → In q (above ++ x ∷ rest) → (x ≡ q) ⊎ In q (above ++ rest)
In-insert_inv q x [] rest h = h
In-insert_inv q x (a ∷ above) rest (inl h) = inr (inl h)
In-insert_inv q x (a ∷ above) rest (inr h) = elim (In-insert_inv q x above rest h) [
  | inl e ↦ inl e
  | inr i ↦ inr (inr i)
]

module _ (objects others : ℕ → Upvalue) (low pointer x : ℕ) (le : low ≤ pointer)
    (at : (others x).location ≡ slot pointer) where
  -- The place that the loop finds: an upvalue for the cell keeps the list in order there.
  record Passes (bound : ℕ) (ids : List ℕ) (r : List ℕ × List ℕ) : Type 0 where
    splits : ids ≡ r.0 ++ r.1
    inserts : head_at objects pointer r.1 ≡ false → Descends others low bound (r.0 ++ x ∷ r.1)

  pass_above-Passes :
      (bound : ℕ) (ids : List ℕ)
      → pointer < bound
      → ((q : ℕ) → In q ids → others q ≡ objects q)
      → Descends objects low bound ids
      → Passes bound ids (pass_above objects pointer ids)
  unfolding pass_above
  pass_above-Passes bound [] lt same d = record {
    splits = refl;
    inserts = λ h. (pointer, at, lt, le, tt);
  }
  pass_above-Passes bound (id ∷ ids) lt same (p, e, lp, lep, rest) =
      let e' = ap (λ (u : Upvalue). u.location) (same id (inl refl)) ∙ e in
      let rest' = Descends-congr objects others low p ids (λ q h. same q (inr h)) rest in
      let is : is_above (objects id).location pointer ≡ ltb pointer p =
        ap (λ l. is_above l pointer) e in
      let is_slot : is_at (objects id).location pointer ≡ is_at (slot p) pointer =
        ap (λ l. is_at l pointer) e in
      if_lem (Passes bound (id ∷ ids)) (is_above (objects id).location pointer)
        (λ above.
          let ih = pass_above-Passes p ids (ground arith) (λ q h. same q (inr h)) rest in
          record { splits = ap (◌∷◌ id) ih.splits; inserts = λ h. (p, e', lp, lep, ih.inserts h) })
        λ not_above. record {
          splits = refl;
          inserts = λ h. (pointer, at, lt, le, (p, e', ground arith, lep, rest'));
        }

-- What `jml_vm_upvalue_capture` returns for a cell of the stack.
pub record Captures (vm : Vm) (pointer : ℕ) (r : ℕ × Vm) : Type 0 where
  pub running : IsRunning r.1
  pub points : (r.1.upvalues r.0).location ≡ slot pointer
  pub linked : In r.0 r.1.running.open_upvalues
  pub keeps :
      (id : ℕ)
      → In id vm.running.open_upvalues
      → In id r.1.running.open_upvalues × (r.1.upvalues id ≡ vm.upvalues id)
  pub shares :
      (id : ℕ)
      → In id vm.running.open_upvalues
      → (vm.upvalues id).location ≡ slot pointer
      → r.0 ≡ id
  pub stack : r.1.running ≡ record vm.running { open_upvalues = r.1.running.open_upvalues }

module _ {vm : Vm} (pointer : ℕ) (v : IsRunning vm) (le : vm.running.stack ≤ pointer)
    (lt : pointer < vm.running.stack_top) where
  abbrev with_new : ℕ → Upvalue
  with_new = update vm.upvalues vm.fresh (upvalue_new pointer)

  new_at : (with_new vm.fresh).location ≡ slot pointer
  new_at = ap (λ (u : Upvalue). u.location) (update_self vm.upvalues vm.fresh (upvalue_new pointer))

  olds : (q : ℕ) → In q vm.running.open_upvalues → with_new q ≡ vm.upvalues q
  olds q h =
      let below = v.allocated q h in
      update_other vm.upvalues vm.fresh _ q (λ e. absurd (omega (arith, e, below)))

  Found : List ℕ × List ℕ → Type 0
  Found =
      Passes vm.upvalues with_new vm.running.stack pointer vm.fresh le new_at vm.running.stack_top
        vm.running.open_upvalues

  insert_new-Captures :
      (r : List ℕ × List ℕ)
      → Found r
      → head_at vm.upvalues pointer r.1 ≡ false
      → Captures vm pointer (insert_new vm pointer r.0 r.1)
  unfolding Found
  insert_new-Captures (above, rest) found away =
      let split = found.splits in
      let order = found.inserts away in
      let grows = λ (q : ℕ) (h : In q vm.running.open_upvalues).
        In-insert q vm.fresh above rest (subst (In q) split h) in
      record {
        running = record {
          wide = v.wide;
          cells = v.cells;
          above = v.above;
          room = v.room;
          frames = v.frames;
          descends = order;
          allocated = λ q h. elim (In-insert_inv q vm.fresh above rest h) [
            | inl e ↦ omega arith
            | inr i ↦ let below = v.allocated q (subst (In q) (sym split) i) in omega arith
          ];
        };
        points = new_at;
        linked = In-inserted vm.fresh above rest;
        keeps = λ q h. (grows q h, olds q h);
        shares = λ q h e.
            Descends-unique with_new vm.running.stack vm.running.stack_top
              (above ++ vm.fresh ∷ rest) vm.fresh q pointer order (In-inserted vm.fresh above rest)
              (grows q h) new_at (ap (λ (u : Upvalue). u.location) (olds q h) ∙ e);
        stack = refl;
      }

  found-Captures :
      (id : ℕ)
      → In id vm.running.open_upvalues
      → (vm.upvalues id).location ≡ slot pointer
      → Captures vm pointer (id, vm)
  found-Captures id h e = record {
    running = v;
    points = e;
    linked = h;
    keeps = λ q i. (i, refl);
    shares = λ q i e'.
        Descends-unique vm.upvalues vm.running.stack vm.running.stack_top vm.running.open_upvalues
          id q pointer v.descends h i e e';
    stack = refl;
  }

  capture_at-Captures :
      (above rest : List ℕ)
      → Found (above, rest)
      → Captures vm pointer (capture_at vm pointer above rest)
  unfolding Found
  capture_at-Captures above [] found = insert_new-Captures (above, []) found refl
  capture_at-Captures above (id ∷ rest) found =
      let h : In id vm.running.open_upvalues =
        subst (In id) (sym found.splits) (In-inserted id above rest) in
      let (p, e, _, _) = Descends-points vm.upvalues _ _ vm.running.open_upvalues id v.descends h in
      let is : is_at (vm.upvalues id).location pointer ≡ is_at (slot p) pointer =
        ap (λ l. is_at l pointer) e in
      if_lem (Captures vm pointer) (is_at (vm.upvalues id).location pointer)
        (λ here. let same : p ≡ pointer = ground arith in found-Captures id h (e ∙ ap slot same))
        λ away. insert_new-Captures (above, id ∷ rest) found away

  -- On a coroutine in order, capturing a cell of the stack that is in use gives an open upvalue that points to
  -- it: the one that did already, if there is one. The open upvalues before it are as they were, and so are
  -- the stack and the frames; the list stays in order.
  pub upvalue_capture-Captures : Captures vm pointer (upvalue_capture vm pointer)
  unfolding upvalue_capture Found
  upvalue_capture-Captures =
      let r = pass_above vm.upvalues pointer vm.running.open_upvalues in
      capture_at-Captures r.0 r.1 (
        pass_above-Passes vm.upvalues with_new vm.running.stack pointer vm.fresh le new_at
          vm.running.stack_top vm.running.open_upvalues lt olds v.descends)
