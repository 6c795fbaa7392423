-- ===== src/Serialization/Holds.antt =====
-- The bytes that a buffer holds at a position, as a reader finds them.
use mathlib.Core.Path.{subst}
use mathlib.Core.Option.{some-injective}
use jml.Base.{
  ℕ, zero, suc, ◌+◌, ◌≤◌, ◌≡◌, refl, sym, ◌∙◌, ap, List, [], ◌∷◌, ◌++◌, length, take, get_elem?,
  some, arith, length-append, append_assoc, length-take,
}
use jml.Serialization.Memory.{Memory}
use jml.Serialization.Decode.{byte_at, copied}
use jml.Serialization.Written.{Wrote}

-- The buffer `serial` holds `bs` from `pos` on.
abbrev pub Holds : List ℕ → ℕ → List ℕ → Type 0
Holds serial pos [] = pos ≤ length serial
Holds serial pos (x ∷ xs) = (byte_at serial pos ≡ x) × Holds serial (pos + 1) xs

module _ (serial : List ℕ) where
  pub Holds-inside : (pos : ℕ) (bs : List ℕ) → Holds serial pos bs → pos + length bs ≤ length serial
  Holds-inside pos [] h = omega arith
  Holds-inside pos (x ∷ xs) h = omega (arith, Holds-inside (pos + 1) xs h.1)

  pub Holds-front : (pos : ℕ) (bs cs : List ℕ) → Holds serial pos (bs ++ cs) → Holds serial pos bs
  Holds-front pos [] cs h = omega (arith, Holds-inside pos cs h)
  Holds-front pos (x ∷ xs) cs h = (h.0, Holds-front (pos + 1) xs cs h.1)

  pub Holds-back :
      (pos : ℕ) (bs cs : List ℕ) → Holds serial pos (bs ++ cs) → Holds serial (pos + length bs) cs
  Holds-back pos [] cs h = subst (λ p. Holds serial p cs) (omega arith) h
  Holds-back pos (x ∷ xs) cs h =
      subst (λ p. Holds serial p cs) (omega arith) (Holds-back (pos + 1) xs cs h.1)

  pub copied-Holds :
      (pos : ℕ) (bs : List ℕ) → Holds serial pos bs → copied serial pos (length bs) ≡ bs
  unfolding copied
  copied-Holds pos [] h = refl
  copied-Holds pos (x ∷ xs) h = rw h.0 (ap (◌∷◌ x) (copied-Holds (pos + 1) xs h.1))

  pub Holds-byte :
      (pos : ℕ) (bs : List ℕ) (i : ℕ) {b : ℕ}
      → Holds serial pos bs
      → get_elem? bs i ≡ some b
      → byte_at serial (pos + i) ≡ b
  Holds-byte pos [] i h e = cc
  Holds-byte pos (x ∷ xs) zero {b} h e =
      ap (λ k. byte_at serial k) (omega arith) ∙ h.0 ∙ some-injective _ _ e
  Holds-byte pos (x ∷ xs) (suc i) h e =
      ap (λ k. byte_at serial k) (omega arith) ∙ Holds-byte (pos + 1) xs i h.1 e

byte_behind :
    (n : ℕ) (xs pre : List ℕ) (b : ℕ) (bs : List ℕ)
    → take n xs ≡ pre ++ b ∷ bs
    → byte_at xs (length pre) ≡ b
byte_behind zero xs [] b bs e = cc
byte_behind zero xs (p ∷ pre) b bs e = cc
byte_behind (suc n) [] [] b bs e = cc
byte_behind (suc n) [] (p ∷ pre) b bs e = cc
byte_behind (suc n) (x ∷ xs) [] b bs e = cc
byte_behind (suc n) (x ∷ xs) (p ∷ pre) b bs e = byte_behind n xs pre b bs cc

pub take-Holds :
    (n : ℕ) (xs pre bs : List ℕ)
    → take n xs ≡ pre ++ bs
    → length pre + length bs ≤ length xs
    → Holds xs (length pre) bs
take-Holds n xs pre [] e le = omega arith
take-Holds n xs pre (b ∷ bs) e le =
    let l = length-append pre (b ∷ []) in
    (
      byte_behind n xs pre b bs e,
      subst (λ k. Holds xs k bs) (l ∙ omega arith)
          (take-Holds n xs (pre ++ b ∷ []) bs (e ∙ sym (append_assoc pre (b ∷ []) bs))
            (omega arith)),
    )

pub Wrote-Holds :
    {m m' : Memory} {pos : ℕ} {bs : List ℕ}
    → pos ≤ length m.bytes
    → Wrote m pos bs m'
    → Holds m'.bytes pos bs
Wrote-Holds {m} {m'} {pos} {bs} le w =
    let long : length (take pos m.bytes) ≡ pos = length-take pos m.bytes ∙ omega arith in
    subst (λ k. Holds m'.bytes k bs) long
      (take-Holds (pos + length bs) m'.bytes (take pos m.bytes) bs w.prefix
        (omega (arith, w.inside)))
