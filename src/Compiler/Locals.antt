-- ===== src/Compiler/Locals.antt =====
-- src/jml_compiler.c: names that are compared, and the local variables that they mean.
use mathlib.Core.Path.{subst}
use jml.Base.{
  ℕ, ◌≤◌, ◌<◌, ◌≡◌, ◌≢◌, ◌↔◌, ◌⊎◌, refl, sym, ap, inl, inr, true, false, List, [], ◌∷◌, ◌++◌,
  Option, some, none, length, ◌==◌, if_lem, Bool-cases, arith,
}
use jml.Lexer.Compare.{mem_eq-length, mem_eq_refl}
use jml.Compiler.Emit.{Parser, parser_error, error_if}
use jml.Compiler.Scope.{
  Local, Compiler, identifier_equal, is_unmarked, shallower, local_max, new_local, local_add,
  local_resolve, check_declared, variable_declaration,
}

-- `jml_identifier_equal` tells whether the names are the same bytes.
pub identifier_equal_iff : (a b : List ℕ) → (identifier_equal a b ≡ true) ↔ (a ≡ b)
unfolding identifier_equal
identifier_equal_iff a b = (
  λ h. elim (Bool-cases (length a == length b)) [
    | inl same ↦ mem_eq-length a b (ground arith) (ground arith)
    | inr other ↦ ground arith
  ],
  λ h. rw h (ground (arith, mem_eq_refl b)),
)

abbrev pub NotNamed : List ℕ → List Local → Type 0
NotNamed name [] = Unit {0}
NotNamed name (l ∷ ls) = (name ≢ l.name) × NotNamed name ls

-- What `jml_local_resolve` answers for the locals: the last one of the name, or that there is none.
pub data Resolves (p : Parser) (locals : List Local) (name : List ℕ)
    : Parser × Option ℕ → Type 0 where
  resolves :
      (later before : List Local) (l : Local)
      → locals ≡ later ++ l ∷ before
      → l.name ≡ name
      → NotNamed name later
      → Resolves p locals name (error_if (is_unmarked l.depth) p, some (length before))
  unknown : NotNamed name locals → Resolves p locals name (p, none)

Resolves-cons :
    (p : Parser) (l : Local) (ls : List Local) (name : List ℕ) {r : Parser × Option ℕ}
    → name ≢ l.name
    → Resolves p ls name r
    → Resolves p (l ∷ ls) name r
Resolves-cons p l ls name ne (resolves later before m split same away) =
    resolves (l ∷ later) before m (ap (◌∷◌ l) split) same (ne, away)
Resolves-cons p l ls name ne (unknown away) = unknown (ne, away)

-- `jml_local_resolve` gives the index of the last local of the name, which hides those before it, and -1 when
-- there is none; it reports an error exactly when that local is still without a value.
pub local_resolve-Resolves :
    (p : Parser) (locals : List Local) (name : List ℕ)
    → Resolves p locals name (local_resolve p locals name)
unfolding local_resolve
local_resolve-Resolves p [] name = unknown tt
local_resolve-Resolves p (l ∷ ls) name =
    if_lem (Resolves p (l ∷ ls) name) (identifier_equal name l.name)
      (λ same. resolves [] ls l refl (sym ((identifier_equal_iff name l.name).0 same)) tt)
      λ other.
        Resolves-cons p l ls name (λ e. cc ((identifier_equal_iff name l.name).1 e))
          (local_resolve-Resolves p ls name)

-- A local of the scope of `depth`, or one without a value, has the name.
abbrev pub InScope : ℕ → List Local → List ℕ → Type 0
InScope depth [] name = ⊥
InScope depth (l ∷ ls) name =
    (shallower l.depth depth ≡ false) × ((name ≡ l.name) ⊎ InScope depth ls name)

parser_error_twice : (p : Parser) → parser_error (parser_error p) ≡ parser_error p
unfolding parser_error
parser_error_twice p = ground arith

-- Whether the name was declared before in the scope, and what is then reported.
pub data Checks (p : Parser) (depth : ℕ) (locals : List Local) (name : List ℕ)
    : Parser → Type 0 where
  again : InScope depth locals name → Checks p depth locals name (parser_error p)
  fresh : ¬ InScope depth locals name → Checks p depth locals name p

Checks-next :
    (p : Parser) (depth : ℕ) (l : Local) (ls : List Local) (name : List ℕ) {r : Parser}
    → shallower l.depth depth ≡ false
    → name ≢ l.name
    → Checks p depth ls name r
    → Checks p depth (l ∷ ls) name r
Checks-next p depth l ls name near ne (again h) = again (near, inr h)
Checks-next p depth l ls name near ne (fresh h) =
    fresh (λ (_, i). elim i [ inl e ↦ ne e | inr j ↦ h j ])

Checks-here :
    (p : Parser) (depth : ℕ) (l : Local) (ls : List Local) (name : List ℕ) {r : Parser}
    → shallower l.depth depth ≡ false
    → name ≡ l.name
    → Checks (parser_error p) depth ls name r
    → Checks p depth (l ∷ ls) name r
Checks-here p depth l ls name near e (again h) =
    subst (Checks p depth (l ∷ ls) name) (sym (parser_error_twice p)) (again (near, inl e))
Checks-here p depth l ls name near e (fresh h) = again (near, inl e)

check_declared-Checks :
    (p : Parser) (depth : ℕ) (locals : List Local) (name : List ℕ)
    → Checks p depth locals name (check_declared p depth locals name)
unfolding check_declared
check_declared-Checks p depth [] name = fresh (λ h. h)
check_declared-Checks p depth (l ∷ ls) name =
    if_lem (Checks p depth (l ∷ ls) name) (shallower l.depth depth) (λ far. fresh (λ (near, _). cc))
      λ near. elim (Bool-cases (identifier_equal name l.name)) [
        | inl same ↦ rw same (
            Checks-here p depth l ls name near ((identifier_equal_iff name l.name).0 same)
              (check_declared-Checks (parser_error p) depth ls name))
        | inr other ↦ rw other (
            Checks-next p depth l ls name near (λ e. cc ((identifier_equal_iff name l.name).1 e))
              (check_declared-Checks p depth ls name))
      ]

-- The ends of `jml_variable_declaration`.
pub data Declares (p : Parser) (c : Compiler) (name : List ℕ) : Parser × Compiler → Type 0 where
  global : c.scope_depth ≡ 0 → Declares p c name (p, c)
  declares :
      {p' : Parser}
      → 0 < c.scope_depth
      → length c.locals < local_max
      → Checks p c.scope_depth c.locals name p'
      → Declares p c name (p', record c { locals = new_local name ∷ c.locals })
  full : 0 < c.scope_depth → length c.locals ≡ local_max → Declares p c name (parser_error p, c)

Checks-error :
    (p : Parser) (depth : ℕ) (locals : List Local) (name : List ℕ) {p' : Parser}
    → Checks p depth locals name p'
    → parser_error p' ≡ parser_error p
Checks-error p depth locals name (again h) = parser_error_twice p
Checks-error p depth locals name (fresh h) = refl

-- A declaration outside of all scopes makes no local. In a scope of a function with up to 256 locals it makes
-- one, without a value, and reports an error exactly when the scope has the name already; but for the 257th
-- local, where it makes none and reports that.
pub variable_declaration-Declares :
    (p : Parser) (c : Compiler) (name : List ℕ)
    → length c.locals ≤ local_max
    → Declares p c name (variable_declaration p c name)
unfolding variable_declaration local_add
variable_declaration-Declares p c name few =
    let checked = check_declared-Checks p c.scope_depth c.locals name in
    if_lem (Declares p c name) (c.scope_depth == 0) (λ outside. global (ground arith))
      λ inside.
        if_lem (Declares p c name) (length c.locals == local_max)
          (λ at_max.
            subst (λ (q : Parser). Declares p c name (q, c))
              (sym (Checks-error p c.scope_depth c.locals name checked))
              (full (ground arith) (ground arith)))
          λ free. declares (ground arith) (ground arith) checked
