-- ===== src/Lexer/Identifier.antt =====
-- src/jml_lexer.c: `jml_keyword_match` and `jml_identifier_check`. `lexeme` is `lexer->start`, `n`
-- is `lexer->current - lexer->start`.
use jml.Base.{
  ℕ, zero, suc, ◌+◌, Bool, true, false, ◌&&◌, List, [], ◌∷◌, deref, plus_ptr, ◌==◌, ltb,
  if◌then◌else◌, codes,
}
use jml.Lexer.Token.{
  TokenType, token_and, token_async, token_await, token_break, token_class, token_else, token_false,
  token_fn, token_for, token_from, token_if, token_in, token_import, token_none, token_not,
  token_match, token_or, token_let, token_return, token_self, token_skip, token_super, token_spread,
  token_true, token_try, token_with, token_while, token_uscore, token_name,
}

-- `memcmp(a, b, n) == 0`
unfoldable pub mem_eq : ℕ → List ℕ → List ℕ → Bool
mem_eq zero a b = true
mem_eq (suc n) [] b = false
mem_eq (suc n) a [] = false
mem_eq (suc n) (x ∷ a) (y ∷ b) = x == y && mem_eq n a b

unfoldable pub keyword_match : ℕ → ℕ → List ℕ → TokenType → List ℕ → ℕ → TokenType
unfolding mem_eq
keyword_match start len rest type lexeme n =
    if n == len + start && mem_eq len (plus_ptr lexeme start) rest then type else token_name

-- The cases of the outer `switch` that look at a second or third byte.
unfoldable pub check_a : List ℕ → ℕ → TokenType
unfolding keyword_match
check_a lexeme n =
    if ltb 1 n
    then (if deref (plus_ptr lexeme 1) == b's'
        then keyword_match 2 3 (codes "ync") token_async lexeme n
        else if deref (plus_ptr lexeme 1) == b'n'
        then keyword_match 2 1 (codes "d") token_and lexeme n
        else if deref (plus_ptr lexeme 1) == b'w'
        then keyword_match 2 3 (codes "ait") token_await lexeme n
        else token_name)
    else token_name

unfoldable pub check_f : List ℕ → ℕ → TokenType
unfolding keyword_match
check_f lexeme n =
    if ltb 1 n
    then (if deref (plus_ptr lexeme 1) == b'a'
        then keyword_match 2 3 (codes "lse") token_false lexeme n
        else if deref (plus_ptr lexeme 1) == b'n'
        then keyword_match 2 0 (codes "") token_fn lexeme n
        else if deref (plus_ptr lexeme 1) == b'o'
        then keyword_match 2 1 (codes "r") token_for lexeme n
        else if deref (plus_ptr lexeme 1) == b'r'
        then keyword_match 2 2 (codes "om") token_from lexeme n
        else token_name)
    else token_name

unfoldable pub check_i : List ℕ → ℕ → TokenType
unfolding keyword_match
check_i lexeme n =
    if ltb 1 n
    then (if deref (plus_ptr lexeme 1) == b'f'
        then keyword_match 2 0 (codes "") token_if lexeme n
        else if deref (plus_ptr lexeme 1) == b'n'
        then keyword_match 2 0 (codes "") token_in lexeme n
        else if deref (plus_ptr lexeme 1) == b'm'
        then keyword_match 2 4 (codes "port") token_import lexeme n
        else token_name)
    else token_name

unfoldable pub check_n : List ℕ → ℕ → TokenType
unfolding keyword_match
check_n lexeme n =
    if ltb 1 n && deref (plus_ptr lexeme 1) == b'o'
    then (if deref (plus_ptr lexeme 2) == b'n'
        then keyword_match 3 1 (codes "e") token_none lexeme n
        else if deref (plus_ptr lexeme 2) == b't'
        then keyword_match 3 0 (codes "") token_not lexeme n
        else token_name)
    else token_name

unfoldable pub check_s : List ℕ → ℕ → TokenType
unfolding keyword_match
check_s lexeme n =
    if ltb 1 n
    then (if deref (plus_ptr lexeme 1) == b'e'
        then keyword_match 2 2 (codes "lf") token_self lexeme n
        else if deref (plus_ptr lexeme 1) == b'k'
        then keyword_match 2 2 (codes "ip") token_skip lexeme n
        else if deref (plus_ptr lexeme 1) == b'u'
        then keyword_match 2 3 (codes "per") token_super lexeme n
        else if deref (plus_ptr lexeme 1) == b'p'
        then keyword_match 2 4 (codes "read") token_spread lexeme n
        else token_name)
    else token_name

unfoldable pub check_t : List ℕ → ℕ → TokenType
unfolding keyword_match
check_t lexeme n =
    if ltb 2 n && deref (plus_ptr lexeme 1) == b'r'
    then (if deref (plus_ptr lexeme 2) == b'u'
        then keyword_match 3 1 (codes "e") token_true lexeme n
        else if deref (plus_ptr lexeme 2) == b'y'
        then keyword_match 3 0 (codes "") token_try lexeme n
        else token_name)
    else token_name

unfoldable pub check_w : List ℕ → ℕ → TokenType
unfolding keyword_match
check_w lexeme n =
    if ltb 1 n
    then (if deref (plus_ptr lexeme 1) == b'i'
        then keyword_match 2 2 (codes "th") token_with lexeme n
        else if deref (plus_ptr lexeme 1) == b'h'
        then keyword_match 2 3 (codes "ile") token_while lexeme n
        else token_name)
    else token_name

unfoldable pub identifier_check : List ℕ → ℕ → TokenType
unfolding keyword_match check_a check_f check_i check_n check_s check_t check_w
identifier_check lexeme n =
    if deref lexeme == b'a'
    then check_a lexeme n
    else if deref lexeme == b'b'
    then keyword_match 1 4 (codes "reak") token_break lexeme n
    else if deref lexeme == b'c'
    then keyword_match 1 4 (codes "lass") token_class lexeme n
    else if deref lexeme == b'e'
    then keyword_match 1 3 (codes "lse") token_else lexeme n
    else if deref lexeme == b'f'
    then check_f lexeme n
    else if deref lexeme == b'i'
    then check_i lexeme n
    else if deref lexeme == b'n'
    then check_n lexeme n
    else if deref lexeme == b'm'
    then keyword_match 1 4 (codes "atch") token_match lexeme n
    else if deref lexeme == b'o'
    then keyword_match 1 1 (codes "r") token_or lexeme n
    else if deref lexeme == b'l'
    then keyword_match 1 2 (codes "et") token_let lexeme n
    else if deref lexeme == b'r'
    then keyword_match 1 5 (codes "eturn") token_return lexeme n
    else if deref lexeme == b's'
    then check_s lexeme n
    else if deref lexeme == b't'
    then check_t lexeme n
    else if deref lexeme == b'w'
    then check_w lexeme n
    else if deref lexeme == b'_'
    then keyword_match 1 0 (codes "") token_uscore lexeme n
    else token_name
