-- ===== src/Compiler/Captures.antt =====
-- src/jml_compiler.c: the upvalues of a function lead to the variable of the name.
use mathlib.Core.Path.{subst, ap₂}
use jml.Base.{
  ℕ, suc, ◌+◌, ◌%◌, ◌^◌, ◌≤◌, ◌<◌, ◌≡◌, refl, sym, ap, ◌∙◌, Bool, true, false, List, [], ◌∷◌, ◌++◌,
  Option, some, none, length, length-append, get_elem?, get-append-end, ◌==◌, if_lem, arith,
}
use jml.Compiler.Emit.{Parser, parser_error}
use jml.Compiler.Scope.{Local, Compiler, local_max}
use jml.Compiler.Locals.{NotNamed, resolves, unknown, local_resolve-Resolves}
use jml.Compiler.Upvalue.{
  capture, find_capture, add_capture, upvalue_add, mark_captured, Resolved, add_local, add_upvalue,
  upvalue_resolve,
}
use jml.Compiler.Capturing.{upvalue_add-Adds, found, added, too_many}

-- The upvalue `u` of the function of `c` leads to the variable that the name has in the nearest function of
-- `enclosing` that has one: to a local of the next one, which is marked as captured, or to an upvalue of it.
pub data Means (name : List ℕ) : Compiler → List Compiler → ℕ → Type 0 where
  direct :
      (c enc : Compiler) (outer : List Compiler) (u : ℕ) (later before : List Local) (l : Local)
      → get_elem? c.upvalues u ≡ some (capture (length before) true)
      → enc.locals ≡ later ++ l ∷ before
      → l.name ≡ name
      → l.captured ≡ true
      → NotNamed name later
      → Means name c (enc ∷ outer) u
  through :
      (c enc : Compiler) (outer : List Compiler) (u v : ℕ)
      → get_elem? c.upvalues u ≡ some (capture v false)
      → NotNamed name enc.locals
      → Means name enc outer v
      → Means name c (enc ∷ outer) u

abbrev pub Nowhere : List ℕ → List Compiler → Type 0
Nowhere name [] = Unit {0}
Nowhere name (enc ∷ outer) = NotNamed name enc.locals × Nowhere name outer

-- The ends of `jml_upvalue_resolve`.
pub data Resolution (c : Compiler) (enclosing : List Compiler) (name : List ℕ)
    : Resolved → Type 0 where
  means :
      {r : Resolved} {u : ℕ}
      → r.upvalue ≡ some u
      → u < length r.compiler.upvalues
      → length r.compiler.upvalues ≤ local_max
      → r.compiler.locals ≡ c.locals
      → Means name r.compiler r.enclosing u
      → Resolution c enclosing name r
  nowhere :
      {r : Resolved}
      → r.upvalue ≡ none
      → r.compiler ≡ c
      → r.enclosing ≡ enclosing
      → Nowhere name enclosing
      → Resolution c enclosing name r
  failed :
      {r : Resolved} {u : ℕ}
      → r.upvalue ≡ some u
      → r.parser.panicked ≡ true
      → Resolution c enclosing name r

-- No function has more than 256 locals or upvalues.
abbrev pub AllFit : List Compiler → Type 0
AllFit [] = Unit {0}
AllFit (c ∷ cs) = (length c.locals ≤ local_max) × (length c.upvalues ≤ local_max) × AllFit cs

parser_error-panicked : (p : Parser) → (parser_error p).panicked ≡ true
unfolding parser_error
parser_error-panicked p = ground arith

mark_captured-marks :
    (later before : List Local) (l : Local)
    → mark_captured (later ++ l ∷ before) (length before)
      ≡ later ++ record l { captured = true } ∷ before
unfolding mark_captured
mark_captured-marks [] before l = ground arith
mark_captured-marks (x ∷ later) before l =
    let more : (length (later ++ l ∷ before) == length before) ≡ false =
      ground (arith, length-append later (l ∷ before)) in
    rw more (ap (◌∷◌ x) (mark_captured-marks later before l))

-- The upvalue that was added or found, unless an error was reported.
data Added (c : Compiler) (index : ℕ) (local : Bool) : Parser × ℕ × Compiler → Type 0 where
  gives :
      {p : Parser} {u : ℕ} {c' : Compiler}
      → get_elem? c'.upvalues u ≡ some (capture index local)
      → u < length c'.upvalues
      → length c'.upvalues ≤ local_max
      → c'.locals ≡ c.locals
      → Added c index local (p, u, c')
  reports :
      {p : Parser} {u : ℕ} {c' : Compiler} → p.panicked ≡ true → Added c index local (p, u, c')

upvalue_add-Added :
    (p : Parser) (c : Compiler) (index : ℕ) (local : Bool)
    → length c.upvalues ≤ local_max
    → Added c index local (upvalue_add p c index local)
upvalue_add-Added p c index local few =
    elim (upvalue_add-Adds p c index local few) as (λ r _. Added c index local r) [
      | found inside at ↦ gives at inside few refl
      | added away free ↦
          let size = length-append c.upvalues (capture index local ∷ []) in
          gives (get-append-end c.upvalues (capture index local)) (omega (arith, size))
            (omega (arith, size)) refl
      | too_many away at_max ↦ reports (parser_error-panicked p)
    ]

-- The result of `add_local`, of what `jml_upvalue_add` gave.
abbrev with_local : Parser × ℕ × Compiler → Compiler → List Compiler → ℕ → Resolved
with_local (p', u, c') enc outer i = record {
  parser = p';
  upvalue = some u;
  compiler = c';
  enclosing = record enc { locals = mark_captured enc.locals i } ∷ outer;
}

with_local-Resolution :
    (c enc : Compiler) (outer : List Compiler) (name : List ℕ) (later before : List Local)
    (l : Local)
    → enc.locals ≡ later ++ l ∷ before
    → l.name ≡ name
    → NotNamed name later
    → {r : Parser × ℕ × Compiler} → Added c (length before) true r
    → Resolution c (enc ∷ outer) name (with_local r enc outer (length before))
with_local-Resolution c enc outer name later before l split same away
      (gives {u} {c'} at inside few locals) =
    let marked =
      ap (λ ls. mark_captured ls (length before)) split ∙ mark_captured-marks later before l in
    means refl inside few locals (
      direct c' (record enc { locals = mark_captured enc.locals (length before) }) outer u later
        before (record l { captured = true }) at marked same refl away)
with_local-Resolution c enc outer name later before l split same away (reports bad) =
    failed refl bad

add_local-Resolution :
    (q : Parser) (c enc : Compiler) (outer : List Compiler) (name : List ℕ)
    (later before : List Local) (l : Local)
    → AllFit (c ∷ enc ∷ outer)
    → enc.locals ≡ later ++ l ∷ before
    → l.name ≡ name
    → NotNamed name later
    → Resolution c (enc ∷ outer) name (add_local q c enc outer (length before))
add_local-Resolution q c enc outer name later before l fit split same away =
    let size : length enc.locals ≡ length later + suc (length before) =
      ap length split ∙ length-append later (l ∷ before) in
    let byte : length before % 2 ^ 8 ≡ length before = omega (arith, size, fit.2.0) in
    rw byte (
      with_local-Resolution c enc outer name later before l split same away
        (upvalue_add-Added q c (length before) true fit.1))

abbrev with_upvalue : Parser × ℕ × Compiler → Resolved → Resolved
with_upvalue (p', v, c') r = record {
  parser = p';
  upvalue = some v;
  compiler = c';
  enclosing = r.compiler ∷ r.enclosing;
}

with_upvalue-Resolution :
    (c enc : Compiler) (outer : List Compiler) (name : List ℕ) (r : Resolved) (u : ℕ)
    → NotNamed name enc.locals
    → r.compiler.locals ≡ enc.locals
    → Means name r.compiler r.enclosing u
    → {t : Parser × ℕ × Compiler} → Added c u false t
    → Resolution c (enc ∷ outer) name (with_upvalue t r)
with_upvalue-Resolution c enc outer name r u away same leads
      (gives {u = v} {c'} at inside few locals) =
    means refl inside few locals
      (through c' r.compiler r.enclosing v u at (subst (NotNamed name) (sym same) away) leads)
with_upvalue-Resolution c enc outer name r u away same leads (reports bad) = failed refl bad

add_panicked :
    (o : Option ℕ) (p : Parser) (c : Compiler) (index : ℕ) (local : Bool)
    → p.panicked ≡ true
    → (add_capture o p c index local).0.panicked ≡ true
add_panicked (some i) p c index local h = h
add_panicked none p c index local h =
    if_lem (λ (t : Parser × ℕ × Compiler). t.0.panicked ≡ true) (length c.upvalues == local_max)
      (λ _. parser_error-panicked p) λ _. h

upvalue_add-panicked :
    (p : Parser) (c : Compiler) (index : ℕ) (local : Bool)
    → p.panicked ≡ true
    → (upvalue_add p c index local).0.panicked ≡ true
unfolding upvalue_add
upvalue_add-panicked p c index local h =
    add_panicked (find_capture c.upvalues 0 index local) p c index local h

add_upvalue-some :
    (c : Compiler) (r : Resolved) (u : ℕ)
    → r.upvalue ≡ some u
    → add_upvalue c r ≡ with_upvalue (upvalue_add r.parser c (u % 2 ^ 8) false) r
add_upvalue-some c r u e = rw (e, add_upvalue) refl

add_upvalue-none :
    (c : Compiler) (r : Resolved)
    → r.upvalue ≡ none
    → add_upvalue c r ≡ record {
      parser = r.parser;
      upvalue = none;
      compiler = c;
      enclosing = r.compiler ∷ r.enclosing;
    }
add_upvalue-none c r e = rw (e, add_upvalue) refl

add_upvalue-Resolution :
    (c enc : Compiler) (outer : List Compiler) (name : List ℕ) (r : Resolved)
    → length c.upvalues ≤ local_max
    → NotNamed name enc.locals
    → Resolution enc outer name r
    → Resolution c (enc ∷ outer) name (add_upvalue c r)
add_upvalue-Resolution c enc outer name r few away (means {u = u} e inside fits locals leads) =
    let byte : u % 2 ^ 8 ≡ u = omega arith in
    subst (Resolution c (enc ∷ outer) name) (sym (add_upvalue-some c r u e)) (
      with_upvalue-Resolution c enc outer name r u away locals leads (
        subst (λ (k : ℕ). Added c u false (upvalue_add r.parser c k false)) (sym byte)
          (upvalue_add-Added r.parser c u false few)))
add_upvalue-Resolution c enc outer name r few away (nowhere e same same' none_there) =
    subst (Resolution c (enc ∷ outer) name) (sym (add_upvalue-none c r e))
      (nowhere refl refl (ap₂ ◌∷◌ same same') (away, none_there))
add_upvalue-Resolution c enc outer name r few away (failed {u = u} e bad) =
    subst (Resolution c (enc ∷ outer) name) (sym (add_upvalue-some c r u e))
      (failed refl (upvalue_add-panicked r.parser c (u % 2 ^ 8) false bad))

-- Where no function has more than 256 locals or upvalues, a name that `jml_upvalue_resolve` finds in an
-- enclosing function is given an upvalue of the function that reads it, through which it leads to the last
-- local of the name in the nearest such function; that local is marked as captured. Where no enclosing
-- function has it, -1 is returned and nothing changes. The only other end is an error that was reported.
pub upvalue_resolve-Resolution :
    (p : Parser) (c : Compiler) (enclosing : List Compiler) (name : List ℕ)
    → AllFit (c ∷ enclosing)
    → Resolution c enclosing name (upvalue_resolve p c enclosing name)
unfolding upvalue_resolve
upvalue_resolve-Resolution p c [] name fit = nowhere refl refl refl tt
upvalue_resolve-Resolution p c (enc ∷ outer) name fit =
    elim (local_resolve-Resolves p enc.locals name)
      as (λ found _. Resolution c (enc ∷ outer) name (elim found.1 [
        | some i ↦ add_local found.0 c enc outer i
        | none ↦ add_upvalue c (upvalue_resolve found.0 enc outer name)
      ])) [
        | resolves later before l split same away ↦
            add_local-Resolution _ c enc outer name later before l fit split same away
        | unknown away ↦
            add_upvalue-Resolution c enc outer name _ fit.1 away
              (upvalue_resolve-Resolution p enc outer name fit.2)
      ]
