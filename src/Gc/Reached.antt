-- ===== src/Gc/Reached.antt =====
-- src/jml_gc.c: after the gray stack has run empty, the marked objects are those that the roots reach.
use mathlib.Core.Path.{subst}
use jml.Base.{
  ℕ, zero, suc, ◌+◌, ◌<◌, ◌≤◌, ◌≡◌, refl, ap, ◌∙◌, Bool, List, [], ◌∷◌, some, length, arith, ◌⊎◌,
  inl, inr,
}
use jml.Gc.Heap.{Object}
use jml.Gc.Mark.{Marking, object_at, gc_trace_refs}
use jml.Gc.Refs.{object_refs, mark_all, gc_blacken_obj-refs}
use jml.Gc.Marked.{Among, IsMarked, unmarked, Marks, mark_all-Marks}

-- The objects that the addresses `roots` reach.
pub data Reached (heap : List Object) (roots : List ℕ) : ℕ → Type 0 where
  root : (a : ℕ) → Among a roots → Reached heap roots a
  step :
      (a b : ℕ)
      → Reached heap roots a
      → Among b (object_refs (object_at heap a))
      → Reached heap roots b

-- Every reference is the address of an object.
pub record IsHeap (heap : List Object) (roots : List ℕ) : Type 0 where
  pub refs_inside : (a b : ℕ) → Among b (object_refs (object_at heap a)) → b < length heap
  pub roots_inside : (b : ℕ) → Among b roots → b < length heap

module _ {heap : List Object} {roots : List ℕ} (is : IsHeap heap roots) where
  -- Marked objects are reached; those off the gray stack have only marked references.
  pub record Tracing (m : Marking) : Type 0 where
    pub width : length m.marks ≡ length heap
    pub sound : (b : ℕ) → IsMarked m.marks b → Reached heap roots b
    pub gray_marked : (b : ℕ) → Among b m.gray → IsMarked m.marks b
    pub closed :
        (b : ℕ)
        → IsMarked m.marks b
        → Among b m.gray ⊎ ((c : ℕ) → Among c (object_refs (object_at heap b)) → IsMarked m.marks c)

  blacken-Tracing :
      (marks : List Bool) (x : ℕ) (rest : List ℕ) (m' : Marking)
      → Tracing (record { marks = marks; gray = x ∷ rest })
      → Marks (record { marks = marks; gray = rest }) (object_refs (object_at heap x)) m'
      → Tracing m'
  blacken-Tracing marks x rest m' t s = record {
    width = s.width ∙ t.width;
    sound = λ b h. elim (s.new b h) [
      | inl old ↦ t.sound b old
      | inr new ↦ step x b (t.sound x (t.gray_marked x (inl refl))) new.0
    ];
    gray_marked = λ b h. elim (s.gray_new b h) [
      | inl old ↦ s.kept b (t.gray_marked b (inr old))
      | inr marked ↦ marked
    ];
    closed = λ b h. elim (s.new b h) [
      | inr new ↦ inl new.1
      | inl old ↦ elim (t.closed b old) [
        | inr refs ↦ inr (λ c among. s.kept c (refs c among))
        | inl there ↦ popped b there
      ]
    ];
  }
    where
      popped :
          (b : ℕ)
          → Among b (x ∷ rest)
          → Among b m'.gray
            ⊎ ((c : ℕ) → Among c (object_refs (object_at heap b)) → IsMarked m'.marks c)
      popped b (inl e) =
          inr (λ c among. s.done c (subst (λ y. Among c (object_refs (object_at heap y))) e among))
      popped b (inr there) = inl (s.gray b there)

  pub gc_trace_refs-Tracing :
      (fuel : ℕ) (marks : List Bool) (gray : List ℕ)
      → Tracing (record { marks = marks; gray = gray })
      → unmarked marks + length gray < fuel
      → (m : Marking) × (gc_trace_refs fuel heap (record { marks = marks; gray = gray }) ≡ some m)
        × Tracing m
        × (m.gray ≡ [])
        × ((b : ℕ) → IsMarked marks b → IsMarked m.marks b)
  unfolding gc_trace_refs
  gc_trace_refs-Tracing zero marks gray t lt = absurd (omega arith)
  gc_trace_refs-Tracing (suc fuel) marks [] t lt =
      (record { marks = marks; gray = [] }, refl, t, refl, λ b h. h)
  gc_trace_refs-Tracing (suc fuel) marks (x ∷ rest) t lt =
      let popped : Marking = record { marks = marks; gray = rest } in
      let refs = object_refs (object_at heap x) in
      let s =
        mark_all-Marks refs popped (λ b among. omega (arith, is.refs_inside x b among, t.width)) in
      let m' = mark_all refs popped in
      let (m, run, tracing, empty, more) =
        gc_trace_refs-Tracing fuel m'.marks m'.gray (blacken-Tracing marks x rest m' t s)
          (omega (arith, s.work)) in
      (
        m,
        ap (gc_trace_refs fuel heap) (gc_blacken_obj-refs (object_at heap x) popped) ∙ run,
        tracing,
        empty,
        λ b h. more b (s.kept b h),
      )

  pub Reached-IsMarked :
      (m : Marking)
      → Tracing m
      → m.gray ≡ []
      → ((b : ℕ) → Among b roots → IsMarked m.marks b)
      → (a : ℕ) → Reached heap roots a
      → IsMarked m.marks a
  Reached-IsMarked m t e from a (root _ among) = from a among
  Reached-IsMarked m t e from b (step a _ r among) =
      elim (t.closed a (Reached-IsMarked m t e from a r)) [
        | inl gray ↦ absurd (omega (arith, none_gray gray))
        | inr refs ↦ refs b among
      ]
    where
      none_gray : Among a m.gray → 1 ≤ 0
      none_gray h = subst (λ l. Among a l) e h
