-- ===== src/Vm/Stack.antt =====
-- src/jml_vm.c: `jml_vm_push` and `jml_vm_pop`, as operations of a list of values.
use mathlib.Core.Path.{subst}
use jml.Base.{
  ℕ, zero, suc, ◌+◌, ◌-◌, ◌*◌, ◌≤◌, ◌<◌, ◌≡◌, refl, sym, ap, ◌∙◌, List, [], ◌∷◌, ◌++◌, length,
  get_or, set, take, leb, if_lem, arith, length-set, take-set, inl, inr, Bool-cases,
}
use jml.Value.{Value, none_val}
use jml.HashMap.Table.{grow_capacity}
use jml.Vm.Coroutine.{
  Frame, Vm, Result, ok, null_running, stack_max, grown, coroutine_grow, put_top, push,
  read_location, read_upvalue, pop,
}
use jml.Vm.Open.{In, Descends-weaken, Descends-points}
use jml.Vm.Running.{FramesIn, IsRunning, live, relative, grown-Moves, grow_capacity_wide}

pub FramesIn-weaken :
    (low : ℕ) {top top' : ℕ} (fs : List Frame)
    → top ≤ top'
    → FramesIn low top fs
    → FramesIn low top' fs
FramesIn-weaken low [] h f = tt
FramesIn-weaken low (f ∷ fs) h (a, b, rest) = (a, omega arith, FramesIn-weaken low fs h rest)

pub get-set_other {ℓ} :
    {A : Type ℓ} (xs : List A) (i j : ℕ) (v d : A) → i < j → get_or (set xs j v) i d ≡ get_or xs i d
get-set_other [] i j v d h = refl
get-set_other (x ∷ xs) i zero v d h = absurd (omega arith)
get-set_other (x ∷ xs) zero (suc j) v d h = refl
get-set_other (x ∷ xs) (suc i) (suc j) v d h = get-set_other xs i j v d (omega arith)

-- `new` has `value` on top of what `old` has; its frames and open upvalues are those of `old`, with what they
-- point to.
pub record Pushed (old : Vm) (value : Value) (new : Vm) : Type 0 where
  pub running : IsRunning new
  pub live : live new ≡ live old ++ value ∷ []
  pub frames :
      relative new.running.stack new.running.frames ≡ relative old.running.stack old.running.frames
  pub depth :
      new.running.stack_top - new.running.stack ≡ old.running.stack_top - old.running.stack + 1
  pub frame_capacity : new.running.frame_capacity ≡ old.running.frame_capacity
  pub capacity : new.running.stack_capacity ≤ old.running.stack_capacity * 2
  pub linked : new.running.open_upvalues ≡ old.running.open_upvalues
  pub reads : (id : ℕ) → In id old.running.open_upvalues → read_upvalue new id ≡ read_upvalue old id

pub put_top-Pushed :
    {vm : Vm} (value : Value)
    → IsRunning vm
    → vm.running.stack_top + 1 < vm.running.stack + vm.running.stack_capacity
    → Pushed vm value (put_top vm value)
put_top-Pushed {vm} value v room =
    let c = vm.running in
    let at = c.stack_top - c.stack in
    let one_more : c.stack_top + 1 - c.stack ≡ at + 1 = omega (arith, v.above) in
    record {
      running = record {
        wide = v.wide;
        cells = length-set c.cells at value ∙ v.cells;
        above = omega (arith, v.above);
        room = room;
        frames = FramesIn-weaken c.stack c.frames (omega arith) v.frames;
        descends = Descends-weaken vm.upvalues c.stack c.open_upvalues (omega arith) v.descends;
        allocated = v.allocated;
      };
      live =
          ap (λ k. take k (set c.cells at value)) one_more
          ∙ take-set at c.cells value (omega (arith, v.cells, v.room, v.above));
      frames = refl;
      depth = one_more;
      frame_capacity = refl;
      capacity = omega arith;
      linked = refl;
      reads = λ id h.
          let (p, e, lt, le) = Descends-points vm.upvalues _ _ c.open_upvalues id v.descends h in
          ap (read_location (put_top vm value).running (vm.upvalues id).closed) e
          ∙ get-set_other c.cells (p - c.stack) at value none_val (omega arith)
          ∙ sym (ap (read_location c (vm.upvalues id).closed) e);
    }

-- A stack that cannot be doubled.
abbrev pub IsFull : Vm → Type 0
IsFull vm =
    (stack_max ≤ vm.running.stack_capacity * 2)
    × (vm.running.stack + vm.running.stack_capacity ≤ vm.running.stack_top + 1)

-- What a push does of a coroutine that runs.
pub data Pushes (vm : Vm) (value : Value) : Result Vm → Type 0 where
  pushes : {new : Vm} → ¬ IsFull vm → Pushed vm value new → Pushes vm value (ok new)
  crashes : IsFull vm → Pushes vm value null_running

grown-Pushed :
    (moved : ℕ) {vm : Vm} (value : Value)
    → IsRunning vm
    → Pushed vm value (put_top (grown moved vm) value)
grown-Pushed moved {vm} value v =
    let m = grown-Moves moved v in
    let p =
      put_top-Pushed value m.running
        (omega (arith, m.depth, m.capacity, m.running.above, v.above, v.room, v.wide)) in
    record {
      running = p.running;
      live = p.live ∙ ap (λ l. l ++ value ∷ []) m.live;
      frames = p.frames ∙ m.frames;
      depth = omega (arith, p.depth, m.depth);
      frame_capacity = p.frame_capacity ∙ m.frame_capacity;
      capacity = omega (arith, m.capacity);
      linked = p.linked ∙ m.linked;
      reads = λ id h. p.reads id (subst (In id) (sym m.linked) h) ∙ m.reads id h;
    }

-- On a coroutine in order `jml_vm_push` puts the value on top of the stack and keeps all else, growing the
-- stack when its last free cell is taken; it writes through NULL exactly when the stack would have to grow to
-- `STACK_MAX` cells.
pub push-Pushes :
    (moved : ℕ) {vm : Vm} (value : Value) → IsRunning vm → Pushes vm value (push moved vm value)
unfolding push coroutine_grow
push-Pushes moved {vm} value v =
    let c = vm.running in
    if_lem (Pushes vm value) (leb c.stack_capacity (c.stack_top + 1 - c.stack))
      (λ full. elim (Bool-cases (leb stack_max (grow_capacity c.stack_capacity))) [
        | inl over ↦ rw over (
            crashes
              (ground (arith, grow_capacity_wide c.stack_capacity v.wide), ground (arith, v.above)))
        | inr fits ↦ rw fits (
            pushes (λ over. ground (arith, grow_capacity_wide c.stack_capacity v.wide))
              (grown-Pushed moved value v))
      ])
      λ free.
        pushes (λ over. ground (arith, v.above)) (put_top-Pushed value v (ground (arith, v.above)))

take_last {ℓ} :
    {A : Type ℓ} (n : ℕ) (cells xs : List A) (v d : A)
    → take n cells ≡ xs ++ v ∷ []
    → n ≤ length cells
    → (get_or cells (n - 1) d ≡ v) × (take (n - 1) cells ≡ xs)
take_last zero cells [] v d h le = cc
take_last zero cells (x ∷ xs) v d h le = cc
take_last (suc n) [] xs v d h le = absurd (omega arith)
take_last (suc zero) (c ∷ cells) [] v d h le = (cc, refl)
take_last (suc zero) (c ∷ cells) (x ∷ []) v d h le = cc
take_last (suc zero) (c ∷ cells) (x ∷ y ∷ xs) v d h le = cc
take_last (suc (suc n)) (c ∷ []) xs v d h le = absurd (omega arith)
take_last (suc (suc n)) (c ∷ e ∷ cells) [] v d h le = cc
take_last (suc (suc n)) (c ∷ e ∷ cells) (x ∷ xs) v d h le =
    let tail : take (suc n) (e ∷ cells) ≡ xs ++ v ∷ [] = cc in
    let head : c ≡ x = cc in
    let (last, front) = take_last (suc n) (e ∷ cells) xs v d tail (omega arith) in
    let one : suc (suc n) - 1 ≡ suc (suc n - 1) = omega arith in
    (
      ap (λ k. get_or (c ∷ e ∷ cells) k d) one ∙ last,
      ap (λ k. take k (c ∷ e ∷ cells)) one ∙ ap (◌∷◌ c) front ∙ ap (λ y. y ∷ xs) head,
    )

-- A pop gives the value that was pushed, and leaves the values and the frames that were there before.
pub pop-push :
    {old : Vm} (value : Value) (new : Vm)
    → Pushed old value new
    → ((pop new).0 ≡ value) × (live (pop new).1 ≡ live old)
unfolding pop
pop-push {old} value new p =
    let c = new.running in
    let (last, front) =
      take_last (c.stack_top - c.stack) c.cells (live old) value none_val p.live
        (omega (arith, p.running.cells, p.running.room, p.running.above)) in
    let index : c.stack_top - 1 - c.stack ≡ c.stack_top - c.stack - 1 = omega arith in
    (rw index last, rw index front)
