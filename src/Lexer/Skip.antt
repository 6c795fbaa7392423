-- ===== src/Lexer/Skip.antt =====
-- `jml_lexer_skip_char` and `skip_while` pass over the bytes that they skip.
use jml.Base.{
  ℕ, ◌≡◌, ◌≢◌, refl, Bool, true, false, not, ◌&&◌, List, [], ◌∷◌, deref, ◌==◌, if_lem, u32, ◌+◌,
  arith,
}
use jml.Lexer.State.{Cursor, skip_loop}
use jml.Lexer.Literal.{skip_while}
use jml.Lexer.Passes.{Passes, Passes-none, Passes-one, Passes-newline}

-- The cursor stands at no newline; or at one that its line number already counts.
pub data Skips (p : List ℕ) (m : ℕ) (q : List ℕ) (n : ℕ) : Type 0 where
  skips : Passes p m q n → deref q ≢ b'\n' → Skips p m q n
  at_newline : (k : ℕ) → Passes p m q k → n ≡ u32 (k + 1) → deref q ≡ b'\n' → Skips p m q n

abbrev Stops : List ℕ → ℕ → Cursor → Type 0
Stops p m c = Skips p m c.current c.line

Skips-one :
    (c : ℕ) {cs q : List ℕ} {m n : ℕ} → c ≢ 0 → c ≢ b'\n' → Skips cs m q n → Skips (c ∷ cs) m q n
Skips-one c z l (skips h e) = skips (Passes-one c z l h) e
Skips-one c z l (at_newline k h e f) = at_newline k (Passes-one c z l h) e f

Skips-newline :
    (c : ℕ) {cs q : List ℕ} {m n : ℕ}
    → c ≡ b'\n'
    → Skips cs (u32 (m + 1)) q n
    → Skips (c ∷ cs) m q n
Skips-newline c l (skips h e) = skips (Passes-newline c l h) e
Skips-newline c l (at_newline k h e f) = at_newline k (Passes-newline c l h) e f

pub skip_loop-Skips :
    (bang : Bool) (p : List ℕ) (m : ℕ) (comment : Bool) → Stops p m (skip_loop bang p m comment)
unfolding skip_loop
skip_loop-Skips bang [] m comment = skips (Passes-none [] m) (omega arith)
skip_loop-Skips bang (c ∷ cs) m comment =
    let P : Cursor → Type 0 = Stops (c ∷ cs) m in
    let here = λ (l : c ≢ b'\n'). skips (Passes-none (c ∷ cs) m) l in
    let past =
      λ (b t : Bool) (z : c ≢ 0) (l : c ≢ b'\n'). Skips-one c z l (skip_loop-Skips b cs m t) in
    let past_line =
      λ (l : c ≡ b'\n'). Skips-newline c l (skip_loop-Skips false cs (u32 (m + 1)) comment) in
    if_lem P bang
      (λ _.
        if_lem P (c == 0) (λ z. here (ground arith))
          λ z.
            if_lem P (c == b'\n') (λ l. past_line (ground arith))
              λ l. past bang comment (ground arith) (ground arith))
      λ _.
        if_lem P (comment && not (c == b'?') && not (c == b'\n'))
          (λ t.
            if_lem P (c == 0) (λ z. here (ground arith))
              λ z. past bang comment (ground arith) (ground arith))
          λ _.
            if_lem P (c == b' ') (λ e. past bang comment (ground arith) (ground arith))
              λ _.
                if_lem P (c == b'\t') (λ e. past bang comment (ground arith) (ground arith))
                  λ _.
                    if_lem P (c == b'\r') (λ e. past bang comment (ground arith) (ground arith))
                      λ _.
                        if_lem P (c == b'\n')
                          (λ e.
                            if_lem P comment (λ _. past_line (ground arith))
                              λ _. at_newline m (Passes-none (c ∷ cs) m) refl (ground arith))
                          λ l.
                            if_lem P (c == b'!')
                              (λ e.
                                if_lem P (deref cs == b'=') (λ _. here (ground arith))
                                  λ _. past true comment (ground arith) (ground arith))
                              λ _.
                                if_lem P (c == b'?')
                                  (λ e. past false (not comment) (ground arith) (ground arith))
                                  λ _. here (ground arith)

-- `while (test(peek)) advance;` for a test that no NUL and no newline passes
pub skip_while-Passes :
    (test : ℕ → Bool)
    → ((c : ℕ) → test c ≡ true → (c ≢ 0) × (c ≢ b'\n'))
    → (p : List ℕ) (m : ℕ) → Passes p m (skip_while test p) m
unfolding skip_while
skip_while-Passes test plain [] m = Passes-none [] m
skip_while-Passes test plain (c ∷ cs) m =
    if_lem (λ q. Passes (c ∷ cs) m q m) (test c)
      (λ t. Passes-one c (plain c t).0 (plain c t).1 (skip_while-Passes test plain cs m))
      λ _. Passes-none (c ∷ cs) m
