-- ===== src/Lexer/Tests.antt =====
-- src/jml_lexer.c: the lexer over short sources.
use jml.Base.{ℕ, ◌≡◌, List, c_string, codes, arith}
use jml.Lexer.Token.{token_eof}
use jml.Lexer.State.{init, emit}
use jml.Lexer.Identifier.{identifier_check}
use jml.Lexer.Scan.{tokenize}
use jml.Lexer.Source.{run, InText, run-InText, tokenize_ends}
use jml.Lexer.Words.{Recognised}
use jml.Lexer.Keywords.{identifier_check-Recognised}

abbrev small_source : List ℕ
small_source = codes "let a = \"b\\n\" // c\n1"

run-InText_example : InText small_source (run 4 (init (c_string small_source)))
run-InText_example = run-InText 4 small_source

tokenize_ends_example : tokenize (run 30 (init (c_string small_source))) ≡ (
  emit token_eof (run 30 (init (c_string small_source))),
  run 30 (init (c_string small_source)),
)
tokenize_ends_example = tokenize_ends 30 small_source (omega arith)

identifier_check-Recognised_example :
    Recognised (codes "form") 4 (identifier_check (codes "form") 4)
identifier_check-Recognised_example = identifier_check-Recognised (codes "form") 4
