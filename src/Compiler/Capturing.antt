-- ===== src/Compiler/Capturing.antt =====
-- src/jml_compiler.c: `jml_upvalue_add`.

use jml.Base.{
  ℕ, suc, ◌+◌, ◌≤◌, ◌<◌, ◌≡◌, ap, ◌∙◌, Bool, true, false, List, [], ◌∷◌, ◌++◌, Option, some, none,
  length, get_elem?, ◌==◌, if_lem, arith,
}
use jml.Compiler.Emit.{Parser, parser_error}
use jml.Compiler.Scope.{Capture, Compiler, local_max}
use jml.Compiler.Upvalue.{capture, is_capture, find_capture, add_capture, upvalue_add}

abbrev pub Missing : List Capture → ℕ → Bool → Type 0
Missing [] index local = Unit {0}
Missing (u ∷ us) index local = (is_capture u index local ≡ false) × Missing us index local

-- What `jml_upvalue_add` gives: the upvalue that there is, a new one, or an error when there are 256 others.
pub data Adds (p : Parser) (c : Compiler) (index : ℕ) (local : Bool)
    : Parser × ℕ × Compiler → Type 0 where
  found :
      {u : ℕ}
      → u < length c.upvalues
      → get_elem? c.upvalues u ≡ some (capture index local)
      → Adds p c index local (p, u, c)
  added :
      Missing c.upvalues index local
      → length c.upvalues < local_max
      → Adds p c index local
          (p, length c.upvalues, record c { upvalues = c.upvalues ++ capture index local ∷ [] })
  too_many :
      Missing c.upvalues index local
      → length c.upvalues ≡ local_max
      → Adds p c index local (parser_error p, 0, c)

is_capture-eq :
    (u : Capture) (index : ℕ) (local : Bool)
    → is_capture u index local ≡ true
    → u ≡ capture index local
is_capture-eq u index local h = ground arith

-- What the loop finds in the upvalues from `i` on.
pub data Finds (us : List Capture) (i index : ℕ) (local : Bool) : Option ℕ → Type 0 where
  hit :
      (k r : ℕ)
      → r ≡ i + k
      → k < length us
      → get_elem? us k ≡ some (capture index local)
      → Finds us i index local (some r)
  miss : Missing us index local → Finds us i index local none

Finds-next :
    (u : Capture) (us : List Capture) (i index : ℕ) (local : Bool) {o : Option ℕ}
    → is_capture u index local ≡ false
    → Finds us (i + 1) index local o
    → Finds (u ∷ us) i index local o
Finds-next u us i index local other (hit k r e inside at) =
    hit (suc k) r (omega arith) (omega arith) at
Finds-next u us i index local other (miss away) = miss (other, away)

find_capture-Finds :
    (us : List Capture) (i index : ℕ) (local : Bool)
    → Finds us i index local (find_capture us i index local)
unfolding find_capture
find_capture-Finds [] i index local = miss tt
find_capture-Finds (u ∷ us) i index local =
    if_lem (Finds (u ∷ us) i index local) (is_capture u index local)
      (λ same. hit 0 i (omega arith) (omega arith) (ap some (is_capture-eq u index local same)))
      λ other. Finds-next u us i index local other (find_capture-Finds us (i + 1) index local)

pub upvalue_add-Adds :
    (p : Parser) (c : Compiler) (index : ℕ) (local : Bool)
    → length c.upvalues ≤ local_max
    → Adds p c index local (upvalue_add p c index local)
unfolding upvalue_add
upvalue_add-Adds p c index local few =
    elim (find_capture-Finds c.upvalues 0 index local)
      as (λ o _. Adds p c index local (add_capture o p c index local)) [
        | hit k r e inside at ↦
            let same : r ≡ k = omega arith in
            found (omega arith) (ap (get_elem? c.upvalues) same ∙ at)
        | miss away ↦
            if_lem (Adds p c index local) (length c.upvalues == local_max)
              (λ at_max. too_many away (ground arith)) λ free. added away (ground arith)
      ]
