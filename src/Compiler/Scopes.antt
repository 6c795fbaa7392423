-- ===== src/Compiler/Scopes.antt =====
-- src/jml_compiler.c: what the end of a scope drops.
use jml.Base.{
  ℕ, ◌+◌, ◌-◌, ◌^◌, ◌≤◌, ◌<◌, ◌≡◌, refl, sym, ap, true, List, [], ◌∷◌, ◌++◌, append-nil, some,
  length, ltb, if_lem, arith,
}
use mathlib.Core.List.{map}
use jml.Bytecode.Array.{Chunk}
use jml.Compiler.Emit.{Parser, emit_byte}
use jml.Compiler.Code.{IsCode, Emits, emit_byte-Emits, Emits-append}
use jml.Compiler.Scope.{Local, Compiler, deeper, drop_byte, drop_locals, scope_end}

-- Each local is marked with a depth that is at most that of the one after it, and the last with `depth` at most.
abbrev pub IsScoped : ℕ → List Local → Type 0
IsScoped depth [] = Unit {0}
IsScoped depth (l ∷ ls) = (k : ℕ) × (l.depth ≡ some k) × (k ≤ depth) × IsScoped k ls

abbrev pub AllDeeper : ℕ → List Local → Type 0
AllDeeper depth [] = Unit {0}
AllDeeper depth (l ∷ ls) = (deeper l.depth depth ≡ true) × AllDeeper depth ls

-- The locals deeper than `depth` are gone, and for each there is an instruction, for the last local first.
pub record Drops (depth : ℕ) (locals : List Local) (b : Chunk) (r : List Local × Chunk)
    : Type 0 where
  pub dropped : List Local
  pub splits : locals ≡ dropped ++ r.0
  pub deeper : AllDeeper depth dropped
  pub scoped : IsScoped depth r.0
  pub emits : Emits b (map drop_byte dropped) r.1

drop_byte_fits : (l : Local) → drop_byte l < 2 ^ 8
drop_byte_fits l = ground arith

Emits-none : (b : Chunk) → IsCode b → Emits b [] b
Emits-none b is = record {
  code = is;
  opcodes = sym (append-nil _);
  count = omega arith;
  constants = refl;
}

deeper_some :
    (l : Local) {k : ℕ} (depth : ℕ) → l.depth ≡ some k → deeper l.depth depth ≡ ltb depth k
deeper_some l depth e = rw e

drop_locals-Drops :
    (p : Parser) (depth bound : ℕ) (locals : List Local) (b : Chunk)
    → IsCode b
    → b.count + length locals < 2 ^ 28
    → p.line < 2 ^ 16
    → IsScoped bound locals
    → Drops depth locals b (drop_locals p depth locals b)
unfolding drop_locals
drop_locals-Drops p depth bound [] b is room line scoped = record {
  dropped = [];
  splits = refl;
  deeper = tt;
  scoped = tt;
  emits = Emits-none b is;
}
drop_locals-Drops p depth bound (l ∷ ls) b is room line (k, e, le, rest) =
    let first = emit_byte-Emits p b (drop_byte l) is (omega arith) line (drop_byte_fits l) in
    let b' = emit_byte p b (drop_byte l) in
    let ih = drop_locals-Drops p depth k ls b' first.code (omega (arith, first.count)) line rest in
    if_lem (Drops depth (l ∷ ls) b) (deeper l.depth depth)
      (λ deep. record {
        dropped = l ∷ ih.dropped;
        splits = ap (◌∷◌ l) ih.splits;
        deeper = (deep, ih.deeper);
        scoped = ih.scoped;
        emits = Emits-append b b' _ (drop_byte l ∷ []) (map drop_byte ih.dropped) first ih.emits;
      })
      λ shallow. record {
        dropped = [];
        splits = refl;
        deeper = tt;
        scoped = (k, e, ground (arith, deeper_some l depth e), rest);
        emits = Emits-none b is;
      }

-- Where the locals are marked with depths in order, `jml_scope_end` drops the locals of the scope and no
-- others, and emits one instruction for each, the last declared first: to close the upvalue of a captured one,
-- and to pop any other. The code is shorter than 2^28 bytes and the line is below 2^16.
pub scope_end-Drops :
    (p : Parser) (c : Compiler)
    → IsCode c.chunk
    → c.chunk.count + length c.locals < 2 ^ 28
    → p.line < 2 ^ 16
    → IsScoped c.scope_depth c.locals
    → Drops (c.scope_depth - 1) c.locals c.chunk ((scope_end p c).locals, (scope_end p c).chunk)
      × ((scope_end p c).scope_depth ≡ c.scope_depth - 1)
unfolding scope_end
scope_end-Drops p c is room line scoped = (
  drop_locals-Drops p (c.scope_depth - 1) c.scope_depth c.locals c.chunk is room line scoped,
  refl,
)
