-- ===== src/Gc/Swept.antt =====
-- src/jml_gc.c: a collection frees the objects that the roots do not reach, and no other.
use mathlib.Core.Path.{subst}
use jml.Base.{
  ℕ, zero, suc, ◌+◌, ◌<◌, ◌≤◌, ◌≡◌, ◌≢◌, refl, sym, ap, ◌∙◌, Bool, true, false, List, [], ◌∷◌, some,
  length, get_or, set, replicate, if_lem, arith, inl, inr, length-replicate, length-set, bind_runs,
  Bool-cases, none, some,
}
use jml.HashMap.Table.{Strings, HashMap}
use jml.HashMap.Lookup.{lookup}
use jml.HashMap.Laws.{IsValid}
use jml.HashMap.White.{remove_white-Whitened}
use jml.Gc.Heap.{Object, Roots}
use jml.Gc.Mark.{Marking, gc_mark_roots, gc_trace_refs}
use jml.Gc.Collect.{under_marks, Swept, gc_sweep, gc_collect}
use jml.Gc.Refs.{root_refs, mark_all, gc_mark_roots-refs}
use jml.Gc.Marked.{Among, IsMarked, unmarked, mark-set, mark_all-Marks}
use jml.Gc.Reached.{Reached, IsHeap, Tracing, gc_trace_refs-Tracing, Reached-IsMarked}

-- No object stands twice in the list, and all are in the heap.
abbrev pub IsObjects : ℕ → List ℕ → Type 0
IsObjects n [] = 0 ≤ 0
IsObjects n (a ∷ rest) = (a < n) × ((b : ℕ) → Among b rest → b ≢ a) × IsObjects n rest

-- The sweep of `objects` under `marks`.
record Sweeps (objects : List ℕ) (marks : List Bool) (s : Swept) : Type 0 where
  pub kept : (a : ℕ) → Among a s.kept → Among a objects × IsMarked marks a
  pub keeps : (a : ℕ) → Among a objects → IsMarked marks a → Among a s.kept
  pub freed : (a : ℕ) → Among a s.freed → Among a objects × (get_or marks a false ≡ false)
  pub frees : (a : ℕ) → Among a objects → get_or marks a false ≡ false → Among a s.freed
  pub cleared : (a : ℕ) → Among a objects → get_or s.marks a false ≡ false
  pub fewer : (a : ℕ) → get_or marks a false ≡ false → get_or s.marks a false ≡ false

gc_sweep-Sweeps :
    (objects : List ℕ) (marks : List Bool)
    → IsObjects (length marks) objects
    → Sweeps objects marks (gc_sweep objects marks)
unfolding gc_sweep
gc_sweep-Sweeps [] marks h = record {
  kept = λ a among. absurd (omega arith);
  keeps = λ a among m. absurd (omega arith);
  freed = λ a among. absurd (omega arith);
  frees = λ a among m. absurd (omega arith);
  cleared = λ a among. absurd (omega arith);
  fewer = λ a m. m;
}
gc_sweep-Sweeps (x ∷ objects) marks h =
    if_lem (λ s. Sweeps (x ∷ objects) marks s) (get_or marks x false)
      (λ live.
        let s =
          gc_sweep-Sweeps objects (set marks x false)
            (subst (λ n. IsObjects n objects) (sym (length-set marks x false)) h.2) in
        let at = λ (b : ℕ). mark-set marks x b false h.0 in
        record {
          kept = λ a among. elim among [
            | inl e ↦ (inl e, ap (λ b. get_or marks b false) e ∙ live)
            | inr there ↦ let (o, m) = s.kept a there in (inr o, ground (arith, at a))
          ];
          keeps = λ a among m. elim among [
            | inl e ↦ inl e
            | inr there ↦ inr (s.keeps a there (ground (arith, at a, h.1 a there)))
          ];
          freed = λ a among. let (o, m) = s.freed a among in (inr o, ground (arith, at a, h.1 a o));
          frees = λ a among m. elim among [
            | inl e ↦ absurd (ground (arith, ap (λ b. get_or marks b false) e))
            | inr there ↦ s.frees a there (ground (arith, at a))
          ];
          cleared = λ a among. elim among [
            | inl e ↦ s.fewer a (ground (arith, at a))
            | inr there ↦ s.cleared a there
          ];
          fewer = λ a m. s.fewer a (ground (arith, at a));
        })
      λ dead.
        let s = gc_sweep-Sweeps objects marks h.2 in
        record {
          kept = λ a among. let (o, m) = s.kept a among in (inr o, m);
          keeps = λ a among m. elim among [
            | inl e ↦ absurd (ground (arith, ap (λ b. get_or marks b false) e))
            | inr there ↦ s.keeps a there m
          ];
          freed = λ a among. elim among [
            | inl e ↦ (inl e, ap (λ b. get_or marks b false) e ∙ dead)
            | inr there ↦ let (o, m) = s.freed a there in (inr o, m)
          ];
          frees = λ a among m. elim among [ inl e ↦ inl e | inr there ↦ inr (s.frees a there m) ];
          cleared = λ a among. elim among [
            | inl e ↦ s.fewer a (ap (λ b. get_or marks b false) e ∙ dead)
            | inr there ↦ s.cleared a there
          ];
          fewer = s.fewer;
        }

-- What a collection makes of the list of objects.
pub record Collects (heap : List Object) (roots objects : List ℕ) (s : Swept) : Type 0 where
  pub kept : (a : ℕ) → Among a s.kept → Among a objects × Reached heap roots a
  pub keeps : (a : ℕ) → Among a objects → Reached heap roots a → Among a s.kept
  pub freed : (a : ℕ) → Among a s.freed → Among a objects × (¬ Reached heap roots a)
  pub frees : (a : ℕ) → Among a objects → ¬ Reached heap roots a → Among a s.freed
  pub cleared : (a : ℕ) → Among a objects → get_or s.marks a false ≡ false

unmarked-replicate : (n : ℕ) → unmarked (replicate n false) ≡ n
unfolding unmarked
unmarked-replicate zero = refl
unmarked-replicate (suc n) = omega (arith, unmarked-replicate n)

none_marked : (n a : ℕ) → get_or (replicate n false) a false ≡ false
none_marked zero a = refl
none_marked (suc n) zero = refl
none_marked (suc n) (suc a) = none_marked n a

not_true : {b : Bool} → ¬ (b ≡ true) → b ≡ false
not_true {b} h = elim (Bool-cases b) [ inl marked ↦ absurd (h marked) | inr white ↦ white ]

Sweeps-Collects :
    {heap : List Object} {roots : List ℕ} (is : IsHeap heap roots) (objects : List ℕ) (m : Marking)
    {s : Swept}
    → Tracing is m
    → ((a : ℕ) → Reached heap roots a → IsMarked m.marks a)
    → Sweeps objects m.marks s
    → Collects heap roots objects s
Sweeps-Collects is objects m t live s = record {
  kept = λ a among. let (o, marked) = s.kept a among in (o, t.sound a marked);
  keeps = λ a among r. s.keeps a among (live a r);
  freed = λ a among.
      let (o, white) = s.freed a among in (o, λ r. true_not_false (sym (live a r) ∙ white));
  frees = λ a among never. s.frees a among (not_true (λ marked. never (t.sound a marked)));
  cleared = s.cleared;
}
  where
    true_not_false : ¬ (true ≡ false)
    true_not_false h = ground arith

module _ (heap : List Object) (roots : Roots) (is : IsHeap heap (root_refs roots)) where
  -- The marking of a heap without a mark.
  abbrev unmarked_heap : Marking
  unmarked_heap = record { marks = replicate (length heap) false; gray = [] }

  roots-Tracing : Tracing is (mark_all (root_refs roots) unmarked_heap)
  roots-Tracing =
      let width = length-replicate (length heap) false in
      let s =
        mark_all-Marks (root_refs roots) unmarked_heap
          (λ b among. omega (arith, is.roots_inside b among, width)) in
      record {
        width = s.width ∙ width;
        sound = λ b h. elim (s.new b h) [
          | inl old ↦ absurd (ground (arith, none_marked (length heap) b))
          | inr new ↦ Reached.root b new.0
        ];
        gray_marked =
            λ b h. elim (s.gray_new b h) [ inl old ↦ absurd (omega arith) | inr marked ↦ marked ];
        closed = λ b h. elim (s.new b h) [
          | inl old ↦ absurd (ground (arith, none_marked (length heap) b))
          | inr new ↦ inl new.1
        ];
      }

  -- What a collection makes of the table of strings.
  pub record KeepsStrings (strings : Strings) (table table' : HashMap) : Type 0 where
    pub order : (marks : List Bool) × IsValid (under_marks strings marks) table'
    pub live :
        (q : ℕ)
        → Reached heap (root_refs roots) q
        → lookup table'.entries q ≡ lookup table.entries q
    pub dead : (q : ℕ) → ¬ Reached heap (root_refs roots) q → lookup table'.entries q ≡ none

  -- On a heap without a mark, whose references are all addresses of objects, `jml_gc_collect` ends. Of the list of
  -- objects it keeps those that the roots reach, frees those that they do not reach, and leaves no mark. The table of
  -- strings, which is in order whatever the marks are, loses the strings that the roots do not reach and no other.
  pub gc_collect-Collects :
      (strings : Strings) (objects : List ℕ) (table : HashMap)
      → IsObjects (length heap) objects
      → ((marks : List Bool) → IsValid (under_marks strings marks) table)
      → (r : Swept × HashMap) × (gc_collect strings heap roots objects table ≡ some r)
        × Collects heap (root_refs roots) objects r.0
        × KeepsStrings strings table r.1
  unfolding gc_collect
  gc_collect-Collects strings objects table h valid =
      let start = mark_all (root_refs roots) unmarked_heap in
      let width = length-replicate (length heap) false in
      let marking =
        mark_all-Marks (root_refs roots) unmarked_heap
          (λ b among. omega (arith, is.roots_inside b among, width)) in
      let (m, run, t, empty, more) =
        gc_trace_refs-Tracing is (length heap + 1) start.marks start.gray roots-Tracing
          (omega (arith, marking.work, unmarked-replicate (length heap))) in
      let s = gc_sweep-Sweeps objects m.marks (subst (λ n. IsObjects n objects) (sym t.width) h) in
      let traced : gc_trace_refs (length heap + 1) heap (gc_mark_roots roots unmarked_heap)
          ≡ some m =
        ap (gc_trace_refs (length heap + 1) heap) (gc_mark_roots-refs roots unmarked_heap) ∙ run in
      let live = λ (a : ℕ) (r : Reached heap (root_refs roots) a).
        Reached-IsMarked is m t empty (λ b among. more b (marking.done b among)) a r in
      let (table', removed, w) =
        remove_white-Whitened (under_marks strings m.marks) (valid m.marks) in
      (
        (gc_sweep objects m.marks, table'),
        bind_runs _ traced (bind_runs _ removed refl),
        Sweeps-Collects is objects m t live s,
        record {
          order = (m.marks, w.valid);
          live = λ q r. w.reads q ∙ rw (live q r);
          dead = λ q never. w.reads q ∙ rw (not_true (λ marked. never (t.sound q marked)));
        },
      )
