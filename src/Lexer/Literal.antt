-- ===== src/Lexer/Literal.antt =====
-- src/jml_lexer.c: keywords and names, string literals and number literals.
use jml.Base.{
  ℕ, ◌+◌, ◌-◌, Bool, true, false, not, ◌&&◌, ◌||◌, List, [], ◌∷◌, deref, plus_ptr, ◌==◌,
  if◌then◌else◌, u32, codes,
}
use jml.Util.{is_ident, is_digit, is_hex, is_oct, is_bin}
use jml.Lexer.Identifier.{identifier_check}
use jml.Lexer.Token.{Token, token_number, token_string}
use jml.Lexer.State.{Lexer, minus_ptr, peek, peek_next, peek_previous, advance, emit, emit_error}

-- `while (test(peek)) advance;`
unfoldable pub skip_while : (ℕ → Bool) → List ℕ → List ℕ
skip_while test [] = []
skip_while test (c ∷ cs) = if test c then skip_while test cs else c ∷ cs

abbrev pub skipping : (ℕ → Bool) → Lexer → Lexer
skipping test l = record l { current = skip_while test l.current }

abbrev pub is_identnum : ℕ → Bool
is_identnum c = is_ident c || is_digit c

unfoldable pub identifier_literal : Lexer → Token × Lexer
identifier_literal l =
    let l' = skipping is_identnum l in
    (emit (identifier_check l'.start (minus_ptr l'.current l'.start)) l', l')

-- Where the loop of `jml_string_literal` stops; `closed` is false at the end of the source.
pub record StringEnd : Type 0 where
  pub closed : Bool
  pub current : List ℕ
  pub line : ℕ

-- The flag says that the byte at `current` is a delimiter behind a backslash.
unfoldable pub string_loop : ℕ → Bool → Bool → List ℕ → ℕ → StringEnd
string_loop delimiter wide escaped [] line = record { closed = false; current = []; line = line }
string_loop delimiter wide escaped (c ∷ cs) line =
    let go_on : StringEnd = string_loop delimiter wide false cs line in
    let past_line : StringEnd = string_loop delimiter wide false cs (u32 (line + 1)) in
    let past_escape : StringEnd = string_loop delimiter wide true cs line in
    let break : StringEnd = record { closed = true; current = c ∷ cs; line = line } in
    if escaped
    then go_on
    else if c == 0
    then record { closed = false; current = c ∷ cs; line = line }
    else if c == delimiter
    then (if not wide
        then break
        else if deref cs == delimiter && deref (plus_ptr cs 1) == delimiter
        then break
        else go_on)
    else if c == b'\n'
    then past_line
    else if c == b'\\' && deref cs == delimiter
    then past_escape
    else go_on

-- The part of `jml_string_literal` behind the opening delimiters.
unfoldable pub string_rest : ℕ → Bool → Lexer → Token × Lexer
string_rest delimiter wide l =
    let r = string_loop delimiter wide false l.current l.line in
    let stopped = record l { current = r.current; line = r.line } in
    let l' = record stopped { current = plus_ptr stopped.current 3 } in
    if not r.closed
    then (emit_error (codes "Unterminated string.") stopped, stopped)
    else if wide
    then (
      record {
        type = token_string;
        start = plus_ptr l'.start 2;
        length = u32 (minus_ptr l'.current l'.start - 4);
        line = l'.line;
        offset = u32 (minus_ptr l'.start l'.source);
      },
      l',
    )
    else (emit token_string (advance stopped), advance stopped)

unfoldable pub string_literal : ℕ → Lexer → Token × Lexer
string_literal delimiter l =
    if peek l == delimiter && peek_next l == delimiter
    then string_rest delimiter true (record l { current = plus_ptr l.current 2 })
    else string_rest delimiter false l

-- One of the three cases of a number with a radix prefix, which differ in the digits and messages.
unfoldable pub radix_literal : (ℕ → Bool) → List ℕ → List ℕ → Lexer → Token × Lexer
radix_literal is_radix_digit unterminated invalid_dot l =
    let prefixed = advance l in
    let l' = skipping is_radix_digit prefixed in
    if not (is_radix_digit (peek prefixed))
    then (emit_error unterminated prefixed, prefixed)
    else if peek l' == b'.'
    then (emit_error invalid_dot l', l')
    else (emit token_number l', l')

-- The part of `jml_number_literal` behind its `switch`.
unfoldable pub decimal_literal : Lexer → Token × Lexer
decimal_literal l =
    let whole = skipping is_digit l in
    let l' =
      if peek whole == b'.' && is_digit (peek_next whole)
      then skipping is_digit (advance whole)
      else whole in
    (emit token_number l', l')

unfoldable pub number_literal : Lexer → Token × Lexer
unfolding radix_literal decimal_literal
number_literal l =
    let c = peek l in
    if not (peek_previous l == b'0')
    then decimal_literal l
    else if c == b'x' || c == b'X'
    then radix_literal is_hex (codes "Unterminated hexadecimal literal.")
        (codes "Invalid dot after hexadecimal literal.") l
    else if c == b'o' || c == b'O'
    then radix_literal is_oct (codes "Unterminated octal literal.")
        (codes "Invalid dot after octal literal.") l
    else if c == b'b' || c == b'B'
    then radix_literal is_bin (codes "Unterminated binary literal.")
        (codes "Invalid dot after binary literal.") l
    else if c == b'0'
    then (emit_error (codes "Invalid leading zeroes.") l, l)
    else decimal_literal l
