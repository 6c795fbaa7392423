-- ===== src/Lexer/Source.antt =====
-- The lexer over a whole source: it stays inside the text, counts its lines, and ends.
use jml.Base.{
  ℕ, zero, suc, ◌<◌, ◌≡◌, ◌≢◌, refl, sym, ◌∙◌, true, List, [], ◌∷◌, ◌++◌, append-nil, length,
  length-append, c_string, inl, inr, ◌+◌, arith, u32,
}
use mathlib.Core.Path.{subst}
use jml.Lexer.Token.{token_eof}
use jml.Lexer.State.{Lexer, init, emit}
use jml.Lexer.Scan.{tokenize}
use jml.Lexer.Passes.{Passes-trans, Clean, newlines}
use jml.Lexer.Moves.{Moves-refl}
use jml.Lexer.Steps.{Advances, Moves-Advances, tokenize-Progress}

-- A client's calls, one after the other.
pub run : ℕ → Lexer → Lexer
run zero l = l
run (suc k) l = run k (tokenize l).1

pub run-Advances : (k : ℕ) (l : Lexer) → Advances l (run k l)
unfolding run
run-Advances zero l = Moves-Advances (Moves-refl l)
run-Advances (suc k) l =
    let one = (tokenize-Progress l).advances in
    let rest = run-Advances k (tokenize l).1 in
    record {
      passes = Passes-trans one.passes rest.passes;
      same_source = rest.same_source ∙ one.same_source;
    }

tokenize_ended : (l : Lexer) → l.eof ≡ true → tokenize l ≡ (emit token_eof l, l)
unfolding tokenize
tokenize_ended l e = rw e

run_ended : (k : ℕ) (l : Lexer) → l.eof ≡ true → run k l ≡ l
unfolding run
run_ended zero l e = refl
run_ended (suc k) l e = rw (tokenize_ended l e) (run_ended k l e)

run-eof : (k : ℕ) (l : Lexer) → length l.current < k → (run k l).eof ≡ true
unfolding run
run-eof zero l h = absurd (omega arith)
run-eof (suc k) l h = elim (tokenize-Progress l).ends [
  | inl e ↦ rw (run_ended k (tokenize l).1 e) e
  | inr s ↦ run-eof k (tokenize l).1 (omega arith)
]

-- A NUL-free part of the text ends before the NUL.
Clean-inside : (text eaten : List ℕ) → Clean eaten → c_string text ≢ eaten
Clean-inside [] [] c e = cc
Clean-inside [] (x ∷ eaten) c e = c.0 (ground arith)
Clean-inside (t ∷ text) [] c e = cc
Clean-inside (t ∷ text) (x ∷ eaten) c e = Clean-inside text eaten c.1 (cc)

-- The lexer stands inside its text or at the NUL behind it, and its line number is one more than
-- the newlines before that place.
pub record InText (text : List ℕ) (l : Lexer) : Type 0 where
  pub eaten : List ℕ
  pub splits : c_string text ≡ eaten ++ l.current
  pub inside : l.current ≢ []
  pub clean : Clean eaten
  pub lines : u32 l.line ≡ u32 (1 + newlines eaten)

-- However often `jml_lexer_tokenize` is called on the source `text`, the pointer `current` never
-- passes the NUL behind the text, no byte before it is NUL, and the line number is one more than
-- the newlines before it, modulo 2 ^ 32.
pub run-InText : (k : ℕ) (text : List ℕ) → InText text (run k (init (c_string text)))
unfolding init
run-InText k text =
    let h = (run-Advances k (init (c_string text))).passes in
    record {
      eaten = h.eaten;
      splits = h.splits;
      inside = λ e.
          Clean-inside text h.eaten h.clean
            (h.splits ∙ subst (λ q. h.eaten ++ q ≡ h.eaten) (sym e) (append-nil h.eaten));
      clean = h.clean;
      lines = h.lines;
    }

-- After one call more than the source has bytes, the NUL included, every further call gives the EOF
-- token and changes nothing.
pub tokenize_ends :
    (k : ℕ) (text : List ℕ)
    → length text + 1 < k
    → let l = run k (init (c_string text)) in tokenize l ≡ (emit token_eof l, l)
unfolding init
tokenize_ends k text h =
    tokenize_ended _ (run-eof k (init (c_string text)) (omega (arith, length-append text (0 ∷ []))))
