-- ===== src/Lexer/Words.antt =====
-- The words of the language, and how a comparison in `jml_identifier_check` reads one of them.
use jml.Base.{
  ℕ, suc, ◌+◌, ◌≡◌, ◌≢◌, Bool, true, ◌&&◌, List, [], ◌∷◌, length, deref, plus_ptr, ◌==◌, if_lem,
  Option, some, none, codes, arith,
}
use jml.Lexer.Token.{
  TokenType, token_and, token_async, token_await, token_break, token_class, token_else, token_false,
  token_fn, token_for, token_from, token_if, token_in, token_import, token_none, token_not,
  token_match, token_or, token_let, token_return, token_self, token_skip, token_super, token_spread,
  token_true, token_try, token_with, token_while, token_uscore, token_name,
}
use jml.Lexer.Identifier.{mem_eq, keyword_match}

-- The words of the language, by the kind of their token.
abbrev pub spelling : TokenType → Option (List ℕ)
spelling token_and = some (codes "and")
spelling token_async = some (codes "async")
spelling token_await = some (codes "await")
spelling token_break = some (codes "break")
spelling token_class = some (codes "class")
spelling token_else = some (codes "else")
spelling token_false = some (codes "false")
spelling token_fn = some (codes "fn")
spelling token_for = some (codes "for")
spelling token_from = some (codes "from")
spelling token_if = some (codes "if")
spelling token_in = some (codes "in")
spelling token_import = some (codes "import")
spelling token_none = some (codes "none")
spelling token_not = some (codes "not")
spelling token_match = some (codes "match")
spelling token_or = some (codes "or")
spelling token_let = some (codes "let")
spelling token_return = some (codes "return")
spelling token_self = some (codes "self")
spelling token_skip = some (codes "skip")
spelling token_super = some (codes "super")
spelling token_spread = some (codes "spread")
spelling token_true = some (codes "true")
spelling token_try = some (codes "try")
spelling token_with = some (codes "with")
spelling token_while = some (codes "while")
spelling token_uscore = some (codes "_")
spelling _ = none

-- The `n` bytes at `lexeme` are the word of a keyword of kind `t`; or `t` is the kind of a name.
pub data Recognised (lexeme : List ℕ) (n : ℕ) : TokenType → Type 0 where
  name : Recognised lexeme n token_name
  keyword :
      (word : List ℕ) (t : TokenType)
      → spelling t ≡ some word
      → n ≡ length word
      → mem_eq (length word) lexeme word ≡ true
      → Recognised lexeme n t

module _ (l : List ℕ) (n : ℕ) where
  pub matched_word :
      (start len : ℕ) (rest : List ℕ) (t : TokenType) (word : List ℕ)
      → spelling t ≡ some word
      → len + start ≡ length word
      → (mem_eq len (plus_ptr l start) rest ≡ true → mem_eq (length word) l word ≡ true)
      → Recognised l n (keyword_match start len rest t l n)
  unfolding keyword_match
  matched_word start len rest t word s m h =
      if_lem (Recognised l n) (n == len + start && mem_eq len (plus_ptr l start) rest)
        (λ e. keyword word t s (ground arith) (h (ground arith))) λ _. name

pub prefix_one :
    (l : List ℕ) (c k : ℕ) (rest : List ℕ)
    → c ≢ 0
    → (deref l == c) ≡ true
    → mem_eq k (plus_ptr l 1) rest ≡ true
    → mem_eq (suc k) l (c ∷ rest) ≡ true
unfolding mem_eq
prefix_one [] c k rest z e h = ground arith
prefix_one (x ∷ l) c k rest z e h = ground arith

pub prefix_two :
    (l : List ℕ) (c d k : ℕ) (rest : List ℕ)
    → c ≢ 0
    → d ≢ 0
    → (deref l == c) ≡ true
    → (deref (plus_ptr l 1) == d) ≡ true
    → mem_eq k (plus_ptr l 2) rest ≡ true
    → mem_eq (suc (suc k)) l (c ∷ d ∷ rest) ≡ true
unfolding mem_eq
prefix_two [] c d k rest z y e f h = ground arith
prefix_two (x ∷ l) c d k rest z y e f h = ground (arith, prefix_one l d k rest y f h)

pub prefix_three :
    (l : List ℕ) (b c d k : ℕ) (rest : List ℕ)
    → b ≢ 0
    → c ≢ 0
    → d ≢ 0
    → (deref l == b) ≡ true
    → (deref (plus_ptr l 1) == c) ≡ true
    → (deref (plus_ptr l 2) == d) ≡ true
    → mem_eq k (plus_ptr l 3) rest ≡ true
    → mem_eq (suc (suc (suc k))) l (b ∷ c ∷ d ∷ rest) ≡ true
unfolding mem_eq
prefix_three [] b c d k rest x z y e f g h = ground arith
prefix_three (w ∷ l) b c d k rest x z y e f g h = ground (arith, prefix_two l c d k rest z y f g h)

pub and_left : (a b : Bool) → (a && b) ≡ true → a ≡ true
and_left a b h = ground arith

pub and_right : (a b : Bool) → (a && b) ≡ true → b ≡ true
and_right a b h = ground arith
