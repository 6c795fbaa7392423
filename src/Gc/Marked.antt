-- ===== src/Gc/Marked.antt =====
-- src/jml_gc.c: what marking one reference after the other does to the marks and to the gray stack.
use jml.Base.{
  ℕ, zero, suc, ◌+◌, ◌<◌, ◌≤◌, ◌≡◌, refl, sym, ◌∙◌, Bool, true, false, List, [], ◌∷◌, some, length,
  get_or, set, if◌then◌else◌, if_lem, ◌==◌, arith, ◌⊎◌, inl, inr, Bool-cases, length-set,
}
use jml.Gc.Mark.{Marking, gc_mark_obj}
use jml.Gc.Refs.{mark_all}

abbrev pub Among : ℕ → List ℕ → Type 0
Among a [] = 1 ≤ 0
Among a (x ∷ xs) = (a ≡ x) ⊎ Among a xs

abbrev pub IsMarked : List Bool → ℕ → Type 0
IsMarked marks a = get_or marks a false ≡ true

unfoldable pub unmarked : List Bool → ℕ
unmarked [] = 0
unmarked (m ∷ ms) = (if m then 0 else 1) + unmarked ms

pub mark-set :
    (ms : List Bool) (a b : ℕ) (v : Bool)
    → a < length ms
    → get_or (set ms a v) b false ≡ (if a == b then v else get_or ms b false)
mark-set [] a b v h = absurd (omega arith)
mark-set (m ∷ ms) zero zero v h = refl
mark-set (m ∷ ms) zero (suc b) v h = ground arith
mark-set (m ∷ ms) (suc a) zero v h = ground arith
mark-set (m ∷ ms) (suc a) (suc b) v h = ground (arith, mark-set ms a b v (omega arith))

unmarked-set :
    (ms : List Bool) (a : ℕ)
    → a < length ms
    → get_or ms a true ≡ false
    → unmarked (set ms a true) + 1 ≡ unmarked ms
unfolding unmarked
unmarked-set [] a h e = absurd (omega arith)
unmarked-set (m ∷ ms) zero h e = ground arith
unmarked-set (m ∷ ms) (suc a) h e = omega (arith, unmarked-set ms a (omega arith) e)

default_free : (ms : List Bool) (a : ℕ) → a < length ms → get_or ms a true ≡ get_or ms a false
default_free [] a h = absurd (omega arith)
default_free (m ∷ ms) zero h = refl
default_free (m ∷ ms) (suc a) h = default_free ms a (omega arith)

-- The marking `m` has become `m'` by marking the addresses `xs`.
pub record Marks (m : Marking) (xs : List ℕ) (m' : Marking) : Type 0 where
  pub width : length m'.marks ≡ length m.marks
  pub kept : (b : ℕ) → IsMarked m.marks b → IsMarked m'.marks b
  pub new : (b : ℕ) → IsMarked m'.marks b → IsMarked m.marks b ⊎ (Among b xs × Among b m'.gray)
  pub gray : (b : ℕ) → Among b m.gray → Among b m'.gray
  pub gray_new : (b : ℕ) → Among b m'.gray → Among b m.gray ⊎ IsMarked m'.marks b
  pub done : (b : ℕ) → Among b xs → IsMarked m'.marks b
  pub work : unmarked m'.marks + length m'.gray ≡ unmarked m.marks + length m.gray

Marks-nil : (m : Marking) → Marks m [] m
Marks-nil m = record {
  width = refl;
  kept = λ b h. h;
  new = λ b h. inl h;
  gray = λ b h. h;
  gray_new = λ b h. inl h;
  done = λ b h. absurd (omega arith);
  work = refl;
}

gc_mark_obj-Marks :
    (m : Marking) (a : ℕ) → a < length m.marks → Marks m (a ∷ []) (gc_mark_obj (some a) m)
unfolding gc_mark_obj
gc_mark_obj-Marks m a lt =
    if_lem (λ r. Marks m (a ∷ []) r) (get_or m.marks a true)
      (λ already. record {
        width = refl;
        kept = λ b h. h;
        new = λ b h. inl h;
        gray = λ b h. h;
        gray_new = λ b h. inl h;
        done = λ b h. elim h [
          | inl e ↦ rw e (sym (default_free m.marks a lt) ∙ already)
          | inr never ↦ absurd (omega arith)
        ];
        work = refl;
      })
      λ white. record {
        width = length-set m.marks a true;
        kept = λ b h. ground (arith, mark-set m.marks a b true lt);
        new = λ b h. elim (Bool-cases (a == b)) [
          | inl e ↦ inr (inl (ground arith), inl (ground arith))
          | inr ne ↦ inl (ground (arith, mark-set m.marks a b true lt))
        ];
        gray = λ b h. inr h;
        gray_new = λ b h. elim h [
          | inl e ↦ inr (ground (arith, mark-set m.marks a b true lt))
          | inr there ↦ inl there
        ];
        done = λ b h. elim h [
          | inl e ↦ ground (arith, mark-set m.marks a b true lt)
          | inr never ↦ absurd (omega arith)
        ];
        work = omega (arith, unmarked-set m.marks a lt white);
      }

Marks-cons :
    {m m' m'' : Marking} {a : ℕ} {xs : List ℕ}
    → Marks m (a ∷ []) m'
    → Marks m' xs m''
    → Marks m (a ∷ xs) m''
Marks-cons {m} {m'} {m''} {a} {xs} f g = record {
  width = g.width ∙ f.width;
  kept = λ b h. g.kept b (f.kept b h);
  new = λ b h. elim (g.new b h) [
    | inl h' ↦ elim (f.new b h') [
      | inl old ↦ inl old
      | inr there ↦ inr (among_one b there.0, g.gray b there.1)
    ]
    | inr there ↦ inr (inr there.0, there.1)
  ];
  gray = λ b h. g.gray b (f.gray b h);
  gray_new = λ b h. elim (g.gray_new b h) [
    | inl h' ↦ elim (f.gray_new b h') [ inl old ↦ inl old | inr marked ↦ inr (g.kept b marked) ]
    | inr marked ↦ inr marked
  ];
  done = λ b h. elim h [ inl e ↦ g.kept b (f.done b (inl e)) | inr there ↦ g.done b there ];
  work = g.work ∙ f.work;
}
  where
    among_one : (b : ℕ) → Among b (a ∷ []) → Among b (a ∷ xs)
    among_one b (inl e) = inl e
    among_one b (inr never) = absurd (omega arith)

pub mark_all-Marks :
    (xs : List ℕ) (m : Marking)
    → ((b : ℕ) → Among b xs → b < length m.marks)
    → Marks m xs (mark_all xs m)
mark_all-Marks [] m h = Marks-nil m
mark_all-Marks (a ∷ xs) m h =
    let one = gc_mark_obj-Marks m a (h a (inl refl)) in
    Marks-cons one (
      mark_all-Marks xs (gc_mark_obj (some a) m)
        (λ b there. omega (arith, h b (inr there), one.width)))
