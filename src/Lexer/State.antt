-- ===== src/Lexer/State.antt =====
-- src/jml_lexer.c: the lexer's state, its pointer moves, and the skipping of blanks and comments.
use jml.Base.{
  ℕ, ◌+◌, ◌-◌, Bool, true, false, not, ◌&&◌, List, [], ◌∷◌, length, deref, plus_ptr, ◌==◌,
  if◌then◌else◌, u32, get_or, c_string,
}
use jml.Lexer.Token.{Token, TokenType, token_error}

-- The three pointers are suffixes of the NUL-terminated source.
pub record Lexer : Type 0 where
  pub source : List ℕ
  pub start : List ℕ
  pub current : List ℕ
  pub line : ℕ
  pub eof : Bool
  pub comment : Bool

unfoldable pub init : List ℕ → Lexer
init source = record {
  source = source;
  start = source;
  current = source;
  line = 1;
  eof = false;
  comment = false;
}

-- `q - p`, for two pointers into one string
abbrev pub minus_ptr : List ℕ → List ℕ → ℕ
minus_ptr q p = length p - length q

abbrev pub at_eof : Lexer → Bool
at_eof l = deref l.current == 0

abbrev pub peek : Lexer → ℕ
peek l = deref l.current

abbrev pub peek_next : Lexer → ℕ
peek_next l = if at_eof l then 0 else deref (plus_ptr l.current 1)

abbrev pub peek_previous : Lexer → ℕ
peek_previous l = get_or l.source (minus_ptr l.current l.source - 1) 0

-- `++lexer->current`; the byte that the C function returns is `peek` before the call
abbrev pub advance : Lexer → Lexer
advance l = record l { current = plus_ptr l.current 1 }

abbrev pub newline : Lexer → Lexer
newline l = record l { line = u32 (l.line + 1) }

-- `jml_lexer_match`
unfoldable pub match_char : ℕ → Lexer → Bool × Lexer
match_char expected l =
    if at_eof l
    then (false, l)
    else if not (peek l == expected)
    then (false, l)
    else (true, advance l)

unfoldable pub emit : TokenType → Lexer → Token
emit t l = record {
  type = t;
  start = l.start;
  length = u32 (minus_ptr l.current l.start);
  line = l.line;
  offset = u32 (minus_ptr l.start l.source);
}

unfoldable pub emit_error : List ℕ → Lexer → Token
emit_error message l = record {
  type = token_error;
  start = c_string message;
  length = u32 (length message);
  line = l.line;
  offset = u32 (minus_ptr l.start l.source);
}

-- Where a loop of the lexer stops: the pointer, the line and the comment flag.
pub record Cursor : Type 0 where
  pub current : List ℕ
  pub line : ℕ
  pub comment : Bool

-- The loop of `jml_lexer_skip_char`, with `current`, `line` and `comment` as its variables; `bang`
-- is set inside its inner loop, which runs to the end of a `!` comment.
unfoldable pub skip_loop : Bool → List ℕ → ℕ → Bool → Cursor
skip_loop bang [] line comment = record { current = []; line = line; comment = comment }
skip_loop bang (c ∷ cs) line comment =
    let here : Cursor = record { current = c ∷ cs; line = line; comment = comment } in
    let stay : Cursor = skip_loop bang cs line comment in
    let past_line : Cursor = skip_loop false cs (u32 (line + 1)) comment in
    let toggled : Cursor = skip_loop false cs line (not comment) in
    let banged : Cursor = skip_loop true cs line comment in
    if bang
    then (if c == 0 then here else if c == b'\n' then past_line else stay)
    else if comment && not (c == b'?') && not (c == b'\n')
    then (if c == 0 then here else stay)
    else if c == b' '
    then stay
    else if c == b'\t'
    then stay
    else if c == b'\r'
    then stay
    else if c == b'\n'
    then (if comment then past_line else record here { line = u32 (line + 1) })
    else if c == b'!'
    then (if deref cs == b'=' then here else banged)
    else if c == b'?'
    then toggled
    else here

unfoldable pub skip_char : Lexer → Lexer
unfolding skip_loop
skip_char l =
    let c = skip_loop false l.current l.line l.comment in
    record l { current = c.current; line = c.line; comment = c.comment }
