-- ===== src/Lexer/Moves.antt =====
-- Every call of `jml_lexer_tokenize` moves the lexer forward over NUL-free bytes, counting lines.
use jml.Base.{
  ℕ, ◌≡◌, ◌≢◌, refl, ◌∙◌, Bool, true, not, ◌&&◌, ◌||◌, List, [], ◌∷◌, deref, plus_ptr, ◌==◌, if_lem,
  Bool-cases, inl, inr, arith,
}
use jml.Util.{is_ident, is_digit, is_hex, is_oct, is_bin}
use jml.Lexer.Token.{Token, TokenType}
use jml.Lexer.State.{Lexer, peek, peek_next, peek_previous, advance, match_char}
use jml.Lexer.Literal.{
  is_identnum, skipping, identifier_literal, radix_literal, decimal_literal, number_literal,
}
use jml.Lexer.Scan.{Action, emitting, matched}
use jml.Lexer.Passes.{Passes, Passes-none, Passes-one, Passes-trans}
use jml.Lexer.Skip.{skip_while-Passes}

-- The lexer has passed from one state to another, in one source and within one token.
pub record Moves (l l' : Lexer) : Type 0 where
  pub passes : Passes l.current l.line l'.current l'.line
  pub same_source : l'.source ≡ l.source
  pub same_eof : l'.eof ≡ l.eof

pub Moves-refl : (l : Lexer) → Moves l l
Moves-refl l = record { passes = Passes-none l.current l.line; same_source = refl; same_eof = refl }

pub Moves-trans : {a b c : Lexer} → Moves a b → Moves b c → Moves a c
Moves-trans g h = record {
  passes = Passes-trans g.passes h.passes;
  same_source = h.same_source ∙ g.same_source;
  same_eof = h.same_eof ∙ g.same_eof;
}

-- one byte, neither NUL nor newline
pub advance-Moves : (l : Lexer) → peek l ≢ 0 → peek l ≢ b'\n' → Moves l (advance l)
advance-Moves l z n = record { passes = go l.current z n; same_source = refl; same_eof = refl }
  where
    go : (p : List ℕ) → deref p ≢ 0 → deref p ≢ b'\n' → Passes p l.line (plus_ptr p 1) l.line
    go [] z n = absurd (z refl)
    go (c ∷ cs) z n = Passes-one c z n (Passes-none cs l.line)

skipping-Moves :
    (test : ℕ → Bool)
    → ((c : ℕ) → test c ≡ true → (c ≢ 0) × (c ≢ b'\n'))
    → (l : Lexer) → Moves l (skipping test l)
skipping-Moves test plain l = record {
  passes = skip_while-Passes test plain l.current l.line;
  same_source = refl;
  same_eof = refl;
}

-- An action that moves the lexer forward, whatever state it starts in.
pub record Forward (f : Action) : Type 0 where
  pub moves : (l : Lexer) → Moves l (f l).1

pub emitting-Forward : (t : TokenType) → Forward (emitting t)
unfolding emitting
emitting-Forward t = record { moves = λ l. Moves-refl l }

pub matched-Forward :
    (c : ℕ) {f g : Action} → c ≢ b'\n' → Forward f → Forward g → Forward (matched c f g)
unfolding matched match_char
matched-Forward c {f} {g} n h k = record { moves = go }
  where
    go : (l : Lexer) → Moves l (matched c f g l).1
    go l = elim (Bool-cases (peek l == 0)) [
      | inl e ↦ rw e (k.moves l)
      | inr e ↦ elim (Bool-cases (peek l == c)) [
        | inl e' ↦
            rw (e, e')
              (Moves-trans (advance-Moves l (ground arith) (ground arith)) (h.moves (advance l)))
        | inr e' ↦ rw (e, e') (k.moves l)
      ]
    ]

is_identnum_plain : (c : ℕ) → is_identnum c ≡ true → (c ≢ 0) × (c ≢ b'\n')
unfolding is_ident is_digit
is_identnum_plain c h = ground arith

is_digit_plain : (c : ℕ) → is_digit c ≡ true → (c ≢ 0) × (c ≢ b'\n')
unfolding is_digit
is_digit_plain c h = ground arith

is_hex_plain : (c : ℕ) → is_hex c ≡ true → (c ≢ 0) × (c ≢ b'\n')
unfolding is_hex
is_hex_plain c h = ground arith

is_oct_plain : (c : ℕ) → is_oct c ≡ true → (c ≢ 0) × (c ≢ b'\n')
unfolding is_oct
is_oct_plain c h = ground arith

is_bin_plain : (c : ℕ) → is_bin c ≡ true → (c ≢ 0) × (c ≢ b'\n')
unfolding is_bin
is_bin_plain c h = ground arith

pub identifier_literal-Forward : Forward identifier_literal
unfolding identifier_literal
identifier_literal-Forward = record { moves = λ l. skipping-Moves is_identnum is_identnum_plain l }

radix_literal-Moves :
    (test : ℕ → Bool)
    → ((c : ℕ) → test c ≡ true → (c ≢ 0) × (c ≢ b'\n'))
    → (bad dot : List ℕ) (l : Lexer) → peek l ≢ 0
    → peek l ≢ b'\n'
    → Moves l (radix_literal test bad dot l).1
unfolding radix_literal
radix_literal-Moves test plain bad dot l z n =
    let P : Token × Lexer → Type 0 = λ r. Moves l r.1 in
    let first = advance-Moves l z n in
    let digits = Moves-trans first (skipping-Moves test plain (advance l)) in
    if_lem P (not (test (peek (advance l)))) (λ _. first)
      λ _. if_lem P (peek (skipping test (advance l)) == b'.') (λ _. digits) λ _. digits

decimal_literal-Moves : (l : Lexer) → Moves l (decimal_literal l).1
unfolding decimal_literal
decimal_literal-Moves l =
    let whole = skipping-Moves is_digit is_digit_plain l in
    let w = skipping is_digit l in
    if_lem (λ l'. Moves l l') (peek w == b'.' && is_digit (peek_next w))
      (λ e. Moves-trans whole (
        Moves-trans (advance-Moves w (ground arith) (ground arith))
          (skipping-Moves is_digit is_digit_plain (advance w))))
      λ _. whole

pub number_literal-Forward : Forward number_literal
unfolding number_literal
number_literal-Forward = record { moves = go }
  where
    go : (l : Lexer) → Moves l (number_literal l).1
    go l =
        let c = peek l in
        let P : Token × Lexer → Type 0 = λ r. Moves l r.1 in
        if_lem P (not (peek_previous l == b'0')) (λ _. decimal_literal-Moves l)
          λ _.
            if_lem P (c == b'x' || c == b'X')
              (λ e. radix_literal-Moves is_hex is_hex_plain _ _ l (ground arith) (ground arith))
              λ _.
                if_lem P (c == b'o' || c == b'O')
                  (λ e. radix_literal-Moves is_oct is_oct_plain _ _ l (ground arith) (ground arith))
                  λ _.
                    if_lem P (c == b'b' || c == b'B')
                      (λ e.
                        radix_literal-Moves is_bin is_bin_plain _ _ l (ground arith) (ground arith))
                      λ _. if_lem P (c == b'0') (λ _. Moves-refl l) λ _. decimal_literal-Moves l
