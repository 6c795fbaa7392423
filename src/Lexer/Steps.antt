-- ===== src/Lexer/Steps.antt =====
-- `jml_lexer_tokenize` as a whole: what one call consumes, and that it makes progress.
use jml.Base.{
  ℕ, ◌<◌, ◌≤◌, ◌≡◌, ◌≢◌, refl, ◌∙◌, Bool, true, false, List, [], ◌∷◌, length, deref, plus_ptr, ◌==◌,
  if_lem, if◌then◌else◌, ◌⊎◌, inl, inr, arith,
}
use mathlib.Core.Path.{subst}
use jml.Util.{is_ident, is_digit}
use jml.Lexer.Token.{Token, token_line}
use jml.Lexer.State.{Lexer, peek, at_eof, advance, emit, emit_error, skip_char}
use jml.Lexer.Scan.{Action, emitting, operator, scan_token, tokenize}
use jml.Lexer.Passes.{Passes, Passes-none, Passes-trans, Passes-newline, Passes-length}
use jml.Lexer.Skip.{Skips, skips, at_newline, skip_loop-Skips}
use jml.Lexer.Moves.{
  Moves, Moves-refl, Moves-trans, Forward, emitting-Forward, matched-Forward, advance-Moves,
  identifier_literal-Forward, number_literal-Forward,
}
use jml.Lexer.Strings.{string_literal-Forward}

if_Forward : (b : Bool) {f g : Action} → Forward f → Forward g → Forward (if b then f else g)
if_Forward true h k = h
if_Forward false h k = k

error-Forward : (message : List ℕ) → Forward (λ l. (emit_error message l, l))
error-Forward message = record { moves = λ l. Moves-refl l }

pub operator-Forward : (c : ℕ) → Forward (operator c)
unfolding operator
operator-Forward c = if_Forward (c == b')') (emitting-Forward _) (
    if_Forward (c == b'(') (emitting-Forward _) (
      if_Forward (c == b']') (emitting-Forward _) (
        if_Forward (c == b'[') (emitting-Forward _) (
          if_Forward (c == b'}') (emitting-Forward _) (
            if_Forward (c == b'{') (emitting-Forward _) (
              if_Forward (c == b';') (emitting-Forward _) (
                if_Forward (c == b',') (emitting-Forward _) (
                  if_Forward (c == b'.') (emitting-Forward _) (
                    if_Forward (c == b'_') (emitting-Forward _) (
                      if_Forward (c == b'^') (emitting-Forward _) (
                        if_Forward (c == b'&') (emitting-Forward _) (
                          if_Forward (c == b'~') (emitting-Forward _) (
                            if_Forward (c == b'?') (emitting-Forward _) (
                              if_Forward (c == b'#') (emitting-Forward _) (
                                if_Forward (c == b'@') (emitting-Forward _) (
                                  if_Forward (c == b'|')
                                    (matched-Forward b'>' (omega arith) (emitting-Forward _)
                                      (emitting-Forward _))
                                    (if_Forward (c == b':')
                                      (matched-Forward b':' (omega arith)
                                        (matched-Forward b'=' (omega arith) (emitting-Forward _)
                                          (emitting-Forward _))
                                        (emitting-Forward _))
                                      (if_Forward (c == b'+')
                                        (matched-Forward b'=' (omega arith) (emitting-Forward _)
                                          (emitting-Forward _))
                                        (if_Forward (c == b'-')
                                          (matched-Forward b'>' (omega arith) (emitting-Forward _) (
                                            matched-Forward b'=' (omega arith) (emitting-Forward _)
                                              (emitting-Forward _)))
                                          (if_Forward (c == b'*')
                                            (matched-Forward b'*' (omega arith)
                                              (matched-Forward b'=' (omega arith)
                                                (emitting-Forward _) (emitting-Forward _))
                                              (matched-Forward b'=' (omega arith)
                                                (emitting-Forward _) (emitting-Forward _)))
                                            (if_Forward (c == b'/')
                                              (matched-Forward b'=' (omega arith)
                                                (emitting-Forward _) (emitting-Forward _))
                                              (if_Forward (c == b'%')
                                                (matched-Forward b'=' (omega arith)
                                                  (emitting-Forward _) (emitting-Forward _))
                                                (if_Forward (c == b'=')
                                                  (matched-Forward b'=' (omega arith)
                                                    (emitting-Forward _) (emitting-Forward _))
                                                  (if_Forward (c == b'<')
                                                    (matched-Forward b'-' (omega arith)
                                                      (emitting-Forward _)
                                                      (matched-Forward b'=' (omega arith)
                                                        (emitting-Forward _) (emitting-Forward _)))
                                                    (if_Forward (c == b'>')
                                                      (matched-Forward b'=' (omega arith)
                                                        (emitting-Forward _) (emitting-Forward _))
                                                      (if_Forward (c == b'!')
                                                        (matched-Forward b'=' (omega arith)
                                                          (emitting-Forward _) (emitting-Forward _))
                                                        (if_Forward (c == b'\'')
                                                          (string_literal-Forward b'\''
                                                            (omega arith) (omega arith))
                                                          (if_Forward (c == b'"')
                                                            (string_literal-Forward b'"'
                                                            (omega arith) (omega arith))
                                                            (if_Forward (c == b'\n')
                                                            (emitting-Forward _)
                                                            (error-Forward
                                                            _))))))))))))))))))))))))))))))

-- What one call of `jml_lexer_tokenize` consumes, and what it leaves alone.
pub record Advances (l l' : Lexer) : Type 0 where
  pub passes : Passes l.current l.line l'.current l'.line
  pub same_source : l'.source ≡ l.source

pub Moves-Advances : {l l' : Lexer} → Moves l l' → Advances l l'
Moves-Advances h = record { passes = h.passes; same_source = h.same_source }

-- One byte, then an action.
advance-Forward :
    (l : Lexer) {f : Action}
    → peek l ≢ 0
    → peek l ≢ b'\n'
    → Forward f
    → Moves l (f (advance l)).1 × (length (f (advance l)).1.current < length l.current)
advance-Forward l {f} z n h = (
  Moves-trans (advance-Moves l z n) (h.moves (advance l)),
  shorter l.current z (Passes-length (h.moves (advance l)).passes),
)
  where
    shorter :
        (p : List ℕ)
        → deref p ≢ 0
        → length (f (advance l)).1.current ≤ length (plus_ptr p 1)
        → length (f (advance l)).1.current < length p
    shorter [] z h = absurd (z refl)
    shorter (c ∷ cs) z h = omega arith

abbrev Shrinks : Lexer → Token × Lexer → Type 0
Shrinks l r = Moves l r.1 × (length r.1.current < length l.current)

scan_token-Shrinks : (l : Lexer) → peek l ≢ 0 → peek l ≢ b'\n' → Shrinks l (scan_token l)
unfolding scan_token
scan_token-Shrinks l z n =
    if_lem (Shrinks l) (is_ident (peek l)) (λ _. advance-Forward l z n identifier_literal-Forward)
      λ _.
        if_lem (Shrinks l) (is_digit (peek l)) (λ _. advance-Forward l z n number_literal-Forward)
          λ _. advance-Forward l z n (operator-Forward (peek l))

scan_token_newline :
    (l : Lexer) → peek l ≡ b'\n' → scan_token l ≡ (emit token_line (advance l), advance l)
unfolding scan_token operator emitting is_ident is_digit
scan_token_newline l e = rw e

-- What one call of `jml_lexer_tokenize` leaves: the end of the source, or fewer bytes.
pub record Progress (l l' : Lexer) : Type 0 where
  pub advances : Advances l l'
  pub ends : (l'.eof ≡ true) ⊎ (length l'.current < length l.current)

after_skip :
    (l here : Lexer)
    → here.source ≡ l.source
    → Skips l.current l.line here.current here.line
    → peek here ≢ 0
    → Progress l (scan_token here).1
after_skip l here same (skips h n) z =
    let shrinks = scan_token-Shrinks here z n in
    record {
      advances = record {
        passes = Passes-trans h shrinks.0.passes;
        same_source = shrinks.0.same_source ∙ same;
      };
      ends = inr (omega (arith, shrinks.1, Passes-length h));
    }
after_skip l here same (at_newline k h e f) z = rw (scan_token_newline here f) (go here.current f h)
  where
    go :
        (q : List ℕ)
        → deref q ≡ b'\n'
        → Passes l.current l.line q k
        → Progress l (record here { current = plus_ptr q 1 })
    go [] f h = absurd (omega arith)
    go (c ∷ cs) f h = record {
      advances = record {
        passes = Passes-trans h (
            Passes-newline c f
              (subst (λ n. Passes cs n cs here.line) e (Passes-none cs here.line)));
        same_source = same;
      };
      ends = inr (omega (arith, Passes-length h));
    }

at_end :
    (l : Lexer) {q : List ℕ} {n : ℕ}
    → Skips l.current l.line q n
    → deref q ≡ 0
    → Passes l.current l.line q n
at_end l (skips h _) z = h
at_end l (at_newline k h e f) z = absurd (omega arith)

pub tokenize-Progress : (l : Lexer) → Progress l (tokenize l).1
unfolding tokenize skip_char
tokenize-Progress l =
    let P : Token × Lexer → Type 0 = λ r. Progress l r.1 in
    let skip = skip_loop-Skips false l.current l.line l.comment in
    let here = record (skip_char l) { start = (skip_char l).current } in
    if_lem P l.eof (λ e. record { advances = Moves-Advances (Moves-refl l); ends = inl e })
      λ _.
        if_lem P (at_eof here)
          (λ z. record {
            advances = record { passes = at_end l skip (ground arith); same_source = refl };
            ends = inl refl;
          })
          λ z. after_skip l here refl skip (ground arith)
