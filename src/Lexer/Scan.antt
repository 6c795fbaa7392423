-- ===== src/Lexer/Scan.antt =====
-- src/jml_lexer.c: `jml_lexer_tokenize`.
use jml.Base.{ℕ, true, ◌==◌, if◌then◌else◌, codes}
use jml.Util.{is_ident, is_digit}
use jml.Lexer.State.{Lexer, peek, at_eof, advance, match_char, emit, emit_error, skip_char}
use jml.Lexer.Literal.{identifier_literal, string_literal, number_literal}
use jml.Lexer.Token.{
  Token, TokenType, token_rparen, token_lparen, token_rsqare, token_lsqare, token_rbrace,
  token_lbrace, token_semi, token_comma, token_dot, token_uscore, token_caret, token_amp,
  token_tilde, token_quest, token_bang, token_hash, token_at, token_rarrow, token_larrow,
  token_vbar, token_pipe, token_colon, token_colcolon, token_colcoloneq, token_plus, token_pluseq,
  token_minus, token_minuseq, token_star, token_stareq, token_starstar, token_starstareq,
  token_slash, token_slasheq, token_percent, token_percenteq, token_equal, token_eqequal,
  token_greater, token_greatereq, token_less, token_lesseq, token_noteq, token_line, token_eof,
}

-- What a case of the `switch` does with the lexer.
abbrev pub Action : Type 0
Action = Lexer → Token × Lexer

unfoldable pub emitting : TokenType → Action
emitting t l = (emit t l, l)

-- `jml_lexer_match(expected, lexer) ? hit : miss`
unfoldable pub matched : ℕ → Action → Action → Action
matched expected hit miss l = let r = match_char expected l in if r.0 then hit r.1 else miss r.1

-- The `switch` of `jml_lexer_tokenize`, by the byte just consumed.
unfoldable pub operator : ℕ → Action
operator c =
    if c == b')'
    then emitting token_rparen
    else if c == b'('
    then emitting token_lparen
    else if c == b']'
    then emitting token_rsqare
    else if c == b'['
    then emitting token_lsqare
    else if c == b'}'
    then emitting token_rbrace
    else if c == b'{'
    then emitting token_lbrace
    else if c == b';'
    then emitting token_semi
    else if c == b','
    then emitting token_comma
    else if c == b'.'
    then emitting token_dot
    else if c == b'_'
    then emitting token_uscore
    else if c == b'^'
    then emitting token_caret
    else if c == b'&'
    then emitting token_amp
    else if c == b'~'
    then emitting token_tilde
    else if c == b'?'
    then emitting token_quest
    else if c == b'#'
    then emitting token_hash
    else if c == b'@'
    then emitting token_at
    else if c == b'|'
    then matched b'>' (emitting token_pipe) (emitting token_vbar)
    else if c == b':'
    then matched b':' (matched b'=' (emitting token_colcoloneq) (emitting token_colcolon))
        (emitting token_colon)
    else if c == b'+'
    then matched b'=' (emitting token_pluseq) (emitting token_plus)
    else if c == b'-'
    then matched b'>' (emitting token_rarrow)
        (matched b'=' (emitting token_minuseq) (emitting token_minus))
    else if c == b'*'
    then matched b'*' (matched b'=' (emitting token_starstareq) (emitting token_starstar))
        (matched b'=' (emitting token_stareq) (emitting token_star))
    else if c == b'/'
    then matched b'=' (emitting token_slasheq) (emitting token_slash)
    else if c == b'%'
    then matched b'=' (emitting token_percenteq) (emitting token_percent)
    else if c == b'='
    then matched b'=' (emitting token_eqequal) (emitting token_equal)
    else if c == b'<'
    then matched b'-' (emitting token_larrow)
        (matched b'=' (emitting token_lesseq) (emitting token_less))
    else if c == b'>'
    then matched b'=' (emitting token_greatereq) (emitting token_greater)
    else if c == b'!'
    then matched b'=' (emitting token_noteq) (emitting token_bang)
    else if c == b'\''
    then string_literal b'\''
    else if c == b'"'
    then string_literal b'"'
    else if c == b'\n'
    then emitting token_line
    else λ l. (emit_error (codes "Unexpected character.") l, l)

-- What `jml_lexer_tokenize` does behind its test for the end of the source.
unfoldable pub scan_token : Lexer → Token × Lexer
scan_token l =
    let c = peek l in
    if is_ident c
    then identifier_literal (advance l)
    else if is_digit c
    then number_literal (advance l)
    else operator c (advance l)

unfoldable pub tokenize : Lexer → Token × Lexer
tokenize l =
    let skipped = skip_char l in
    let here = record skipped { start = skipped.current } in
    let ended = record here { eof = true } in
    if l.eof
    then (emit token_eof l, l)
    else if at_eof here
    then (
      (if ended.comment
          then emit_error (codes "Unterminated comment.") ended
          else emit token_line ended),
      ended,
    )
    else scan_token here
