-- ===== src/Lexer/Passes.antt =====
-- What a part of the lexer has consumed: the bytes between two pointers, and the line count.
use jml.Base.{
  ℕ, ◌+◌, ◌≤◌, ◌≡◌, ◌≢◌, refl, ap, List, [], ◌∷◌, ◌++◌, ◌==◌, if◌then◌else◌, u32, arith, length,
  length-append, append_assoc,
}

-- the number of newlines
abbrev pub newlines : List ℕ → ℕ
newlines [] = 0
newlines (c ∷ cs) = (if c == b'\n' then 1 else 0) + newlines cs

-- no NUL among the bytes
abbrev pub Clean : List ℕ → Type 0
Clean [] = Unit
Clean (c ∷ cs) = (c ≢ 0) × Clean cs

pub newlines-append : (a b : List ℕ) → newlines (a ++ b) ≡ newlines a + newlines b
newlines-append [] b = omega arith
newlines-append (c ∷ a) b = omega (arith, newlines-append a b)

pub Clean-append : (a b : List ℕ) → Clean a → Clean b → Clean (a ++ b)
Clean-append [] b h k = k
Clean-append (c ∷ a) b h k = (h.0, Clean-append a b h.1 k)

-- From pointer `p` on line `m` to pointer `q` on line `n`: the bytes between hold no NUL, and the
-- line number has gone up by their newlines.
pub record Passes (p : List ℕ) (m : ℕ) (q : List ℕ) (n : ℕ) : Type 0 where
  pub eaten : List ℕ
  pub splits : p ≡ eaten ++ q
  pub clean : Clean eaten
  pub lines : u32 n ≡ u32 (m + newlines eaten)

pub Passes-none : (p : List ℕ) (m : ℕ) → Passes p m p m
Passes-none p m = record { eaten = []; splits = refl; clean = tt; lines = omega arith }

pub Passes-one :
    (c : ℕ) {cs q : List ℕ} {m n : ℕ} → c ≢ 0 → c ≢ b'\n' → Passes cs m q n → Passes (c ∷ cs) m q n
Passes-one c z l h = record {
  eaten = c ∷ h.eaten;
  splits = ap (◌∷◌ c) h.splits;
  clean = (z, h.clean);
  lines = ground (arith, h.lines);
}

pub Passes-newline :
    (c : ℕ) {cs q : List ℕ} {m n : ℕ}
    → c ≡ b'\n'
    → Passes cs (u32 (m + 1)) q n
    → Passes (c ∷ cs) m q n
Passes-newline c e h = record {
  eaten = c ∷ h.eaten;
  splits = ap (◌∷◌ c) h.splits;
  clean = (omega arith, h.clean);
  lines = ground (arith, h.lines);
}

pub Passes-trans : {p q r : List ℕ} {k m n : ℕ} → Passes p k q m → Passes q m r n → Passes p k r n
Passes-trans {r = r} g h = record {
  eaten = g.eaten ++ h.eaten;
  splits = rw (append_assoc g.eaten h.eaten r, ← h.splits) g.splits;
  clean = Clean-append g.eaten h.eaten g.clean h.clean;
  lines = omega (arith, newlines-append g.eaten h.eaten, g.lines, h.lines);
}

pub Passes-length : {p q : List ℕ} {m n : ℕ} → Passes p m q n → length q ≤ length p
Passes-length {p} {q} h = omega (arith, ap length h.splits, length-append h.eaten q)
