-- ===== src/Lexer/Letters.antt =====
-- src/jml_lexer.c: each helper of `jml_identifier_check` recognises only words of the language.
use jml.Base.{ℕ, ◌≡◌, refl, true, ◌&&◌, List, deref, plus_ptr, ◌==◌, ltb, if_lem, codes, arith}
use jml.Lexer.Identifier.{check_a, check_f, check_i, check_n, check_s, check_t, check_w}
use jml.Lexer.Words.{Recognised, name, matched_word, prefix_two, prefix_three, and_right}

pub check_a-Recognised :
    (l : List ℕ) (n : ℕ) → (deref l == b'a') ≡ true → Recognised l n (check_a l n)
unfolding check_a
check_a-Recognised l n e =
    if_lem (Recognised l n) (ltb 1 n)
      (λ h.
        if_lem (Recognised l n) (deref (plus_ptr l 1) == b's')
          (λ f.
            (matched_word l n 2 3 (codes "ync") _ (codes "async") refl refl
              (prefix_two l b'a' b's' 3 (codes "ync") (omega arith) (omega arith) e f)))
          λ _.
            if_lem (Recognised l n) (deref (plus_ptr l 1) == b'n')
              (λ f.
                (matched_word l n 2 1 (codes "d") _ (codes "and") refl refl
                  (prefix_two l b'a' b'n' 1 (codes "d") (omega arith) (omega arith) e f)))
              λ _.
                if_lem (Recognised l n) (deref (plus_ptr l 1) == b'w')
                  (λ f.
                    (matched_word l n 2 3 (codes "ait") _ (codes "await") refl refl
                      (prefix_two l b'a' b'w' 3 (codes "ait") (omega arith) (omega arith) e f)))
                  λ _. name)
      λ _. name

pub check_f-Recognised :
    (l : List ℕ) (n : ℕ) → (deref l == b'f') ≡ true → Recognised l n (check_f l n)
unfolding check_f
check_f-Recognised l n e =
    if_lem (Recognised l n) (ltb 1 n)
      (λ h.
        if_lem (Recognised l n) (deref (plus_ptr l 1) == b'a')
          (λ f.
            (matched_word l n 2 3 (codes "lse") _ (codes "false") refl refl
              (prefix_two l b'f' b'a' 3 (codes "lse") (omega arith) (omega arith) e f)))
          λ _.
            if_lem (Recognised l n) (deref (plus_ptr l 1) == b'n')
              (λ f.
                (matched_word l n 2 0 (codes "") _ (codes "fn") refl refl
                  (prefix_two l b'f' b'n' 0 (codes "") (omega arith) (omega arith) e f)))
              λ _.
                if_lem (Recognised l n) (deref (plus_ptr l 1) == b'o')
                  (λ f.
                    (matched_word l n 2 1 (codes "r") _ (codes "for") refl refl
                      (prefix_two l b'f' b'o' 1 (codes "r") (omega arith) (omega arith) e f)))
                  λ _.
                    if_lem (Recognised l n) (deref (plus_ptr l 1) == b'r')
                      (λ f.
                        (matched_word l n 2 2 (codes "om") _ (codes "from") refl refl
                          (prefix_two l b'f' b'r' 2 (codes "om") (omega arith) (omega arith) e f)))
                      λ _. name)
      λ _. name

pub check_i-Recognised :
    (l : List ℕ) (n : ℕ) → (deref l == b'i') ≡ true → Recognised l n (check_i l n)
unfolding check_i
check_i-Recognised l n e =
    if_lem (Recognised l n) (ltb 1 n)
      (λ h.
        if_lem (Recognised l n) (deref (plus_ptr l 1) == b'f')
          (λ f.
            (matched_word l n 2 0 (codes "") _ (codes "if") refl refl
              (prefix_two l b'i' b'f' 0 (codes "") (omega arith) (omega arith) e f)))
          λ _.
            if_lem (Recognised l n) (deref (plus_ptr l 1) == b'n')
              (λ f.
                (matched_word l n 2 0 (codes "") _ (codes "in") refl refl
                  (prefix_two l b'i' b'n' 0 (codes "") (omega arith) (omega arith) e f)))
              λ _.
                if_lem (Recognised l n) (deref (plus_ptr l 1) == b'm')
                  (λ f.
                    (matched_word l n 2 4 (codes "port") _ (codes "import") refl refl
                      (prefix_two l b'i' b'm' 4 (codes "port") (omega arith) (omega arith) e f)))
                  λ _. name)
      λ _. name

pub check_n-Recognised :
    (l : List ℕ) (n : ℕ) → (deref l == b'n') ≡ true → Recognised l n (check_n l n)
unfolding check_n
check_n-Recognised l n e =
    if_lem (Recognised l n) (ltb 1 n && deref (plus_ptr l 1) == b'o')
      (λ h.
        if_lem (Recognised l n) (deref (plus_ptr l 2) == b'n')
          (λ f.
            (matched_word l n 3 1 (codes "e") _ (codes "none") refl refl (
              prefix_three l b'n' b'o' b'n' 1 (codes "e") (omega arith) (omega arith) (omega arith)
                e (and_right (ltb 1 n) (deref (plus_ptr l 1) == b'o') h) f)))
          λ _.
            if_lem (Recognised l n) (deref (plus_ptr l 2) == b't')
              (λ f.
                (matched_word l n 3 0 (codes "") _ (codes "not") refl refl (
                  prefix_three l b'n' b'o' b't' 0 (codes "") (omega arith) (omega arith)
                    (omega arith) e (and_right (ltb 1 n) (deref (plus_ptr l 1) == b'o') h) f)))
              λ _. name)
      λ _. name

pub check_s-Recognised :
    (l : List ℕ) (n : ℕ) → (deref l == b's') ≡ true → Recognised l n (check_s l n)
unfolding check_s
check_s-Recognised l n e =
    if_lem (Recognised l n) (ltb 1 n)
      (λ h.
        if_lem (Recognised l n) (deref (plus_ptr l 1) == b'e')
          (λ f.
            (matched_word l n 2 2 (codes "lf") _ (codes "self") refl refl
              (prefix_two l b's' b'e' 2 (codes "lf") (omega arith) (omega arith) e f)))
          λ _.
            if_lem (Recognised l n) (deref (plus_ptr l 1) == b'k')
              (λ f.
                (matched_word l n 2 2 (codes "ip") _ (codes "skip") refl refl
                  (prefix_two l b's' b'k' 2 (codes "ip") (omega arith) (omega arith) e f)))
              λ _.
                if_lem (Recognised l n) (deref (plus_ptr l 1) == b'u')
                  (λ f.
                    (matched_word l n 2 3 (codes "per") _ (codes "super") refl refl
                      (prefix_two l b's' b'u' 3 (codes "per") (omega arith) (omega arith) e f)))
                  λ _.
                    if_lem (Recognised l n) (deref (plus_ptr l 1) == b'p')
                      (λ f.
                        (matched_word l n 2 4 (codes "read") _ (codes "spread") refl refl (
                          prefix_two l b's' b'p' 4 (codes "read") (omega arith) (omega arith) e f)))
                      λ _. name)
      λ _. name

pub check_t-Recognised :
    (l : List ℕ) (n : ℕ) → (deref l == b't') ≡ true → Recognised l n (check_t l n)
unfolding check_t
check_t-Recognised l n e =
    if_lem (Recognised l n) (ltb 2 n && deref (plus_ptr l 1) == b'r')
      (λ h.
        if_lem (Recognised l n) (deref (plus_ptr l 2) == b'u')
          (λ f.
            (matched_word l n 3 1 (codes "e") _ (codes "true") refl refl (
              prefix_three l b't' b'r' b'u' 1 (codes "e") (omega arith) (omega arith) (omega arith)
                e (and_right (ltb 2 n) (deref (plus_ptr l 1) == b'r') h) f)))
          λ _.
            if_lem (Recognised l n) (deref (plus_ptr l 2) == b'y')
              (λ f.
                (matched_word l n 3 0 (codes "") _ (codes "try") refl refl (
                  prefix_three l b't' b'r' b'y' 0 (codes "") (omega arith) (omega arith)
                    (omega arith) e (and_right (ltb 2 n) (deref (plus_ptr l 1) == b'r') h) f)))
              λ _. name)
      λ _. name

pub check_w-Recognised :
    (l : List ℕ) (n : ℕ) → (deref l == b'w') ≡ true → Recognised l n (check_w l n)
unfolding check_w
check_w-Recognised l n e =
    if_lem (Recognised l n) (ltb 1 n)
      (λ h.
        if_lem (Recognised l n) (deref (plus_ptr l 1) == b'i')
          (λ f.
            (matched_word l n 2 2 (codes "th") _ (codes "with") refl refl
              (prefix_two l b'w' b'i' 2 (codes "th") (omega arith) (omega arith) e f)))
          λ _.
            if_lem (Recognised l n) (deref (plus_ptr l 1) == b'h')
              (λ f.
                (matched_word l n 2 3 (codes "ile") _ (codes "while") refl refl
                  (prefix_two l b'w' b'h' 3 (codes "ile") (omega arith) (omega arith) e f)))
              λ _. name)
      λ _. name
