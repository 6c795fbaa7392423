-- ===== src/Lexer/Keywords.antt =====
-- src/jml_lexer.c: `jml_identifier_check` recognises exactly the keywords of the language.
use jml.Base.{ℕ, ◌≡◌, refl, List, ◌++◌, length, deref, ◌==◌, if_lem, some, codes, arith}
use mathlib.Core.Option.{some-injective}
use mathlib.Core.Path.{subst}
use jml.Lexer.Token.{
  TokenType, token_and, token_async, token_await, token_break, token_class, token_else, token_false,
  token_fn, token_for, token_from, token_if, token_in, token_import, token_none, token_not,
  token_match, token_or, token_let, token_return, token_self, token_skip, token_super, token_spread,
  token_true, token_try, token_with, token_while, token_uscore,
}
use jml.Lexer.Identifier.{identifier_check}
use jml.Lexer.Words.{spelling, Recognised, name, matched_word, prefix_one}
use jml.Lexer.Letters.{
  check_a-Recognised, check_f-Recognised, check_i-Recognised, check_n-Recognised,
  check_s-Recognised, check_t-Recognised, check_w-Recognised,
}

-- Whatever the `n` bytes at `lexeme` are, a kind other than that of a name is given only to the word
-- of that kind.
pub identifier_check-Recognised : (l : List ℕ) (n : ℕ) → Recognised l n (identifier_check l n)
unfolding identifier_check
identifier_check-Recognised l n =
    if_lem (Recognised l n) (deref l == b'a') (check_a-Recognised l n) λ _.
      if_lem (Recognised l n) (deref l == b'b')
        (λ e.
          (matched_word l n 1 4 (codes "reak") _ (codes "break") refl refl
            (prefix_one l b'b' 4 (codes "reak") (omega arith) e)))
        λ _.
          if_lem (Recognised l n) (deref l == b'c')
            (λ e.
              (matched_word l n 1 4 (codes "lass") _ (codes "class") refl refl
                (prefix_one l b'c' 4 (codes "lass") (omega arith) e)))
            λ _.
              if_lem (Recognised l n) (deref l == b'e')
                (λ e.
                  (matched_word l n 1 3 (codes "lse") _ (codes "else") refl refl
                    (prefix_one l b'e' 3 (codes "lse") (omega arith) e)))
                λ _. if_lem (Recognised l n) (deref l == b'f') (check_f-Recognised l n) λ _.
                  if_lem (Recognised l n) (deref l == b'i') (check_i-Recognised l n) λ _.
                    if_lem (Recognised l n) (deref l == b'n') (check_n-Recognised l n) λ _.
                      if_lem (Recognised l n) (deref l == b'm')
                        (λ e.
                          (matched_word l n 1 4 (codes "atch") _ (codes "match") refl refl
                            (prefix_one l b'm' 4 (codes "atch") (omega arith) e)))
                        λ _.
                          if_lem (Recognised l n) (deref l == b'o')
                            (λ e.
                              (matched_word l n 1 1 (codes "r") _ (codes "or") refl refl
                                (prefix_one l b'o' 1 (codes "r") (omega arith) e)))
                            λ _.
                              if_lem (Recognised l n) (deref l == b'l')
                                (λ e.
                                  (matched_word l n 1 2 (codes "et") _ (codes "let") refl refl
                                    (prefix_one l b'l' 2 (codes "et") (omega arith) e)))
                                λ _.
                                  if_lem (Recognised l n) (deref l == b'r')
                                    (λ e.
                                      (matched_word l n 1 5 (codes "eturn") _ (codes "return") refl
                                        refl (prefix_one l b'r' 5 (codes "eturn") (omega arith) e)))
                                    λ _.
                                      if_lem (Recognised l n) (deref l == b's')
                                        (check_s-Recognised l n)
                                        λ _.
                                          if_lem (Recognised l n) (deref l == b't')
                                            (check_t-Recognised l n)
                                            λ _.
                                              if_lem (Recognised l n) (deref l == b'w')
                                                (check_w-Recognised l n)
                                                λ _.
                                                  if_lem (Recognised l n) (deref l == b'_')
                                                    (λ e.
                                                      (matched_word l n 1 0 (codes "") _ (codes "_")
                                                        refl refl
                                                        (prefix_one l b'_' 0 (codes "")
                                                          (omega arith) e)))
                                                    λ _. name

spelled :
    (t : TokenType) (w : List ℕ) {word : List ℕ} (rest : List ℕ)
    → some w ≡ some word
    → identifier_check (w ++ rest) (length w) ≡ t
    → identifier_check (word ++ rest) (length word) ≡ t
spelled t w rest h e =
    subst (λ v. identifier_check (v ++ rest) (length v) ≡ t) (some-injective _ _ h) e

-- Every keyword is recognised, whatever follows it.
pub identifier_check-keyword :
    (t : TokenType) (word rest : List ℕ)
    → spelling t ≡ some word
    → identifier_check (word ++ rest) (length word) ≡ t
unfolding identifier_check
identifier_check-keyword token_and word rest h = spelled token_and _ rest h refl
identifier_check-keyword token_async word rest h = spelled token_async _ rest h refl
identifier_check-keyword token_await word rest h = spelled token_await _ rest h refl
identifier_check-keyword token_break word rest h = spelled token_break _ rest h refl
identifier_check-keyword token_class word rest h = spelled token_class _ rest h refl
identifier_check-keyword token_else word rest h = spelled token_else _ rest h refl
identifier_check-keyword token_false word rest h = spelled token_false _ rest h refl
identifier_check-keyword token_fn word rest h = spelled token_fn _ rest h refl
identifier_check-keyword token_for word rest h = spelled token_for _ rest h refl
identifier_check-keyword token_from word rest h = spelled token_from _ rest h refl
identifier_check-keyword token_if word rest h = spelled token_if _ rest h refl
identifier_check-keyword token_in word rest h = spelled token_in _ rest h refl
identifier_check-keyword token_import word rest h = spelled token_import _ rest h refl
identifier_check-keyword token_none word rest h = spelled token_none _ rest h refl
identifier_check-keyword token_not word rest h = spelled token_not _ rest h refl
identifier_check-keyword token_match word rest h = spelled token_match _ rest h refl
identifier_check-keyword token_or word rest h = spelled token_or _ rest h refl
identifier_check-keyword token_let word rest h = spelled token_let _ rest h refl
identifier_check-keyword token_return word rest h = spelled token_return _ rest h refl
identifier_check-keyword token_self word rest h = spelled token_self _ rest h refl
identifier_check-keyword token_skip word rest h = spelled token_skip _ rest h refl
identifier_check-keyword token_super word rest h = spelled token_super _ rest h refl
identifier_check-keyword token_spread word rest h = spelled token_spread _ rest h refl
identifier_check-keyword token_true word rest h = spelled token_true _ rest h refl
identifier_check-keyword token_try word rest h = spelled token_try _ rest h refl
identifier_check-keyword token_with word rest h = spelled token_with _ rest h refl
identifier_check-keyword token_while word rest h = spelled token_while _ rest h refl
identifier_check-keyword token_uscore word rest h = spelled token_uscore _ rest h refl
identifier_check-keyword _ word rest h = cc
