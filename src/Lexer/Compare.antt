-- ===== src/Lexer/Compare.antt =====
-- `memcmp(a, b, n) == 0` of two byte strings of the length `n`.
use jml.Base.{ℕ, ◌≡◌, refl, ap, inl, inr, true, List, [], ◌∷◌, length, Bool-cases, arith}
use jml.Lexer.Identifier.{mem_eq}

pub mem_eq-length : (a b : List ℕ) → length a ≡ length b → mem_eq (length a) a b ≡ true → a ≡ b
unfolding mem_eq
mem_eq-length [] [] h e = refl
mem_eq-length [] (y ∷ b) h e = absurd (omega arith)
mem_eq-length (x ∷ a) [] h e = absurd (omega arith)
mem_eq-length (x ∷ a) (y ∷ b) h e = elim (Bool-cases (mem_eq (length a) a b)) [
  | inl rest ↦
      let tail = mem_eq-length a b (omega arith) rest in
      let head : x ≡ y = ground arith in rw head (ap (◌∷◌ y) tail)
  | inr rest ↦ ground arith
]

pub mem_eq_refl : (a : List ℕ) → mem_eq (length a) a a ≡ true
unfolding mem_eq
mem_eq_refl [] = refl
mem_eq_refl (x ∷ a) = ground (arith, mem_eq_refl a)
