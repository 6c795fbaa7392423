-- ===== src/Vm/Close.antt =====
-- src/jml_vm.c: what `jml_vm_upvalue_close` leaves of the upvalues.
use mathlib.Core.Path.{subst}
use jml.Base.{
  ℕ, ◌+◌, ◌≤◌, ◌<◌, ◌≡◌, refl, sym, ap, ◌∙◌, inl, inr, List, [], ◌∷◌, leb, if_lem, Bool-cases,
  arith,
}
use jml.Vm.Coroutine.{
  Upvalue, slot, Coroutine, Vm, update, read_cell, read_through, read_location, read_upvalue,
}
use jml.Vm.Open.{
  In, Descends, Descends-congr, Descends-fresh, Descends-points, update_self, update_other,
  Descends-weaken,
}
use jml.Vm.Running.{IsRunning}
use jml.Vm.Upvalues.{is_from, shut, close_from, upvalue_close}

-- What the loop leaves of the upvalues `ids`: those from `last` on hold the value that they pointed to, and those
-- below it are linked as before.
pub record Closes (c : Coroutine) (last bound : ℕ) (ids : List ℕ) (objects : ℕ → Upvalue)
    (r : List ℕ × (ℕ → Upvalue)) : Type 0 where
  pub below : Descends r.1 c.stack last r.0
  pub within : Descends r.1 c.stack bound r.0
  pub subset : (id : ℕ) → In id r.0 → In id ids
  pub closes :
      (id p : ℕ)
      → In id ids
      → (objects id).location ≡ slot p
      → last ≤ p
      → r.1 id ≡ shut c (objects id)
  pub stays :
      (id p : ℕ)
      → In id ids
      → (objects id).location ≡ slot p
      → p < last
      → (r.1 id ≡ objects id) × In id r.0
  pub others : (id : ℕ) → (In id ids → ⊥) → r.1 id ≡ objects id

-- The cell of an upvalue of the list is below the bound.
Descends-below :
    (objects : ℕ → Upvalue) (low bound : ℕ) (ids : List ℕ) (id q : ℕ)
    → Descends objects low bound ids
    → In id ids
    → (objects id).location ≡ slot q
    → q < bound
Descends-below objects low bound ids id q d h e =
    let (p, e', lt, le) = Descends-points objects low bound ids id d h in
    let same : slot p ≡ slot q = sym e' ∙ e in let eq : p ≡ q = cc in omega arith

abbrev shut_one : Coroutine → (ℕ → Upvalue) → ℕ → ℕ → Upvalue
shut_one c objects id = update objects id (shut c (objects id))

module _ (c : Coroutine) (last : ℕ) where
  -- The first upvalue of the list lies below `last`, so they all do.
  stop-Closes :
      (id : ℕ) (ids : List ℕ) (objects : ℕ → Upvalue) (p bound : ℕ)
      → (objects id).location ≡ slot p
      → p < last
      → Descends objects c.stack bound (id ∷ ids)
      → Closes c last bound (id ∷ ids) objects (id ∷ ids, objects)
  stop-Closes id ids objects p bound e lt (q, e', lt', le, rest) =
      let same : slot q ≡ slot p = sym e' ∙ e in
      let eq : q ≡ p = cc in
      let all : Descends objects c.stack (q + 1) (id ∷ ids) = (q, e', omega arith, le, rest) in
      record {
        below = (q, e', omega arith, le, rest);
        within = (q, e', lt', le, rest);
        subset = λ i h. h;
        closes = λ i z h ez from.
            absurd
              (omega (arith, Descends-below objects c.stack (q + 1) (id ∷ ids) i z all h ez, eq));
        stays = λ i z h ez below. (refl, h);
        others = λ i away. refl;
      }

  module _ (id : ℕ) (ids : List ℕ) (objects : ℕ → Upvalue) (p : ℕ)
      (e : (objects id).location ≡ slot p) (rest : Descends objects c.stack p ids) where
    away : In id ids → ⊥
    away h = Descends-fresh objects c.stack p ids id p rest e (omega arith) h

    kept : (q : ℕ) → In q ids → shut_one c objects id q ≡ objects q
    kept q h = update_other objects id _ q (λ w. away (subst (λ z. In z ids) (sym w) h))

    kept_location :
        (q z : ℕ)
        → In q ids
        → (objects q).location ≡ slot z
        → (shut_one c objects id q).location ≡ slot z
    kept_location q z h ez = ap (λ (u : Upvalue). u.location) (kept q h) ∙ ez

    -- The first upvalue is closed, then those after it.
    next-Closes :
        (bound : ℕ) (r : List ℕ × (ℕ → Upvalue))
        → last ≤ p
        → p < bound
        → Closes c last p ids (shut_one c objects id) r
        → Closes c last bound (id ∷ ids) objects r
    next-Closes bound r from lt more = record {
      below = more.below;
      within = Descends-weaken r.1 c.stack r.0 (omega arith) more.within;
      subset = λ i h. inr (more.subset i h);
      closes = λ i z h ez le. elim h [
        | inl w ↦
            subst (λ k. r.1 k ≡ shut c (objects k)) w
              (more.others id away ∙ update_self objects id _)
        | inr h ↦ more.closes i z h (kept_location i z h ez) le ∙ ap (shut c) (kept i h)
      ];
      stays = λ i z h ez less. elim h [
        | inl w ↦
            let same : slot p ≡ slot z = sym e ∙ ap (λ k. (objects k).location) w ∙ ez in
            let eq : p ≡ z = cc in absurd (omega arith)
        | inr h ↦
            let (same, stay) = more.stays i z h (kept_location i z h ez) less in
            (same ∙ kept i h, stay)
      ];
      others = λ i none.
          more.others i (λ h. none (inr h)) ∙ update_other objects id _ i (λ w. none (inl w));
    }

  pub close_from-Closes :
      (bound : ℕ) (ids : List ℕ) (objects : ℕ → Upvalue)
      → Descends objects c.stack bound ids
      → Closes c last bound ids objects (close_from c last ids objects)
  unfolding close_from
  close_from-Closes bound [] objects d = record {
    below = tt;
    within = tt;
    subset = λ i h. h;
    closes = λ i z h ez from. absurd h;
    stays = λ i z h ez below. absurd h;
    others = λ i away. refl;
  }
  close_from-Closes bound (id ∷ ids) objects (p, e, lt, le, rest) =
      let after =
        Descends-congr objects (shut_one c objects id) c.stack p ids (kept id ids objects p e rest)
          rest in
      let ih = close_from-Closes p ids (shut_one c objects id) after in
      if_lem (Closes c last bound (id ∷ ids) objects) (is_from (objects id).location last)
        (λ from.
          next-Closes id ids objects p e rest bound _ (ground (arith, ap (λ l. is_from l last) e))
            lt ih)
        λ below.
          stop-Closes id ids objects p bound e (ground (arith, ap (λ l. is_from l last) e))
            (p, e, lt, le, rest)

-- The stacks have the same values below the cell that `last` points to.
abbrev pub SameBelow : ℕ → Coroutine → Coroutine → Type 0
SameBelow last c d =
    (d.stack ≡ c.stack) × ((p : ℕ) → c.stack ≤ p → p < last → read_cell d p ≡ read_cell c p)

-- What `jml_vm_upvalue_close` makes of a virtual machine.
pub record ClosesFrom (vm : Vm) (last : ℕ) (closed : Vm) : Type 0 where
  pub running : IsRunning closed
  pub below : Descends closed.upvalues vm.running.stack last closed.running.open_upvalues
  pub keeps :
      (id : ℕ)
      → In id vm.running.open_upvalues
      → (d : Coroutine) → SameBelow last vm.running d
      → read_through d (closed.upvalues id) ≡ read_upvalue vm id
  pub others : (id : ℕ) → (In id vm.running.open_upvalues → ⊥) → closed.upvalues id ≡ vm.upvalues id

pub close_keeps :
    {vm : Vm} (last : ℕ) {r : List ℕ × (ℕ → Upvalue)}
    → IsRunning vm
    → Closes vm.running last vm.running.stack_top vm.running.open_upvalues vm.upvalues r
    → (id : ℕ) → In id vm.running.open_upvalues
    → (d : Coroutine) → SameBelow last vm.running d
    → read_through d (r.1 id) ≡ read_upvalue vm id
close_keeps {vm} last v cl id h d agree =
    let c = vm.running in
    let (p, e, lt, le) =
      Descends-points vm.upvalues c.stack c.stack_top c.open_upvalues id v.descends h in
    elim (Bool-cases (leb last p)) [
      | inl from ↦ ap (read_through d) (cl.closes id p h e (ground arith))
      | inr before ↦
          let (same, _) = cl.stays id p h e (ground arith) in
          ap (read_through d) same
          ∙ ap (read_location d (vm.upvalues id).closed) e
          ∙ agree.1 p le (ground arith)
          ∙ sym (ap (read_location c (vm.upvalues id).closed) e)
    ]

-- On a coroutine in order `jml_vm_upvalue_close` leaves only the upvalues below the given cell in the list,
-- and no other object changes. An upvalue that was open has the value it had, whatever is then written to the
-- stack from that cell on.
pub upvalue_close-ClosesFrom :
    {vm : Vm} (last : ℕ) → IsRunning vm → ClosesFrom vm last (upvalue_close vm last)
unfolding upvalue_close
upvalue_close-ClosesFrom {vm} last v =
    let c = vm.running in
    let r = close_from c last c.open_upvalues vm.upvalues in
    let cl = close_from-Closes c last c.stack_top c.open_upvalues vm.upvalues v.descends in
    record {
      running = record {
        wide = v.wide;
        cells = v.cells;
        above = v.above;
        room = v.room;
        frames = v.frames;
        descends = cl.within;
        allocated = λ id h. v.allocated id (cl.subset id h);
      };
      below = cl.below;
      keeps = λ id h d agree. close_keeps last v cl id h d agree;
      others = cl.others;
    }
