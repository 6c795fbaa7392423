-- ===== src/Lexer/Token.antt =====
-- include/jml/jml_lexer.h: the kinds of token, and a token.
use jml.Base.{ℕ, List}

pub data TokenType : Type 0 where
  token_rparen token_lparen token_rsqare token_lsqare token_rbrace token_lbrace : TokenType
  token_semi token_comma token_dot : TokenType
  token_uscore token_caret token_amp token_tilde token_quest token_bang token_hash : TokenType
  token_at token_rarrow token_larrow token_vbar token_pipe token_colon : TokenType
  token_colcolon token_colcoloneq token_plus token_pluseq token_minus token_minuseq : TokenType
  token_star token_stareq token_starstar token_starstareq token_slash token_slasheq : TokenType
  token_percent token_percenteq token_equal : TokenType
  token_eqequal token_greater token_greatereq token_less token_lesseq token_noteq : TokenType
  token_for token_while token_break token_skip token_in token_match token_with token_if : TokenType
  token_else token_class token_self token_super token_let token_fn token_return : TokenType
  token_import token_from token_async token_await token_try token_spread token_and : TokenType
  token_not token_or : TokenType
  token_true token_false token_none token_name token_number token_string : TokenType
  token_line token_error token_eof : TokenType

-- `start` points into the source, or at the message of an error.
pub record Token : Type 0 where
  pub type : TokenType
  pub start : List ℕ
  pub length : ℕ
  pub line : ℕ
  pub offset : ℕ
