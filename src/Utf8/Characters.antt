-- ===== src/Utf8/Characters.antt =====
-- src/jml_string.c: `jml_string_charbytes` and `jml_string_len` on encoded text.
use jml.Base.{
  ℕ, zero, suc, ◌+◌, ◌^◌, ◌≤◌, ◌<◌, ◌≡◌, refl, sym, ◌∙◌, ap, true, false, List, [], ◌∷◌, ◌++◌, some,
  length, u32, ltb, ◌==◌, if◌then◌else◌, if_lem, arith, ◌⊎◌, append_assoc, length-append, c_string,
  drop,
}
use jml.Utf8.Codec.{string_encode, string_charbytes, len_loop, strlen, string_len}
use jml.Utf8.Decoding.{encoded, string_encode-encoded}

-- A code point that a C string can hold.
abbrev pub IsCharacter : ℕ → Type 0
IsCharacter v = (0 < v) × (v ≤ 0x10ffff)

encoded-charbytes :
    (v : ℕ) (rest : List ℕ)
    → IsCharacter v
    → (string_charbytes ((encoded v).1 ++ rest) 0 ≡ (encoded v).0)
      × (length (encoded v).1 ≡ (encoded v).0)
      × (0 < (encoded v).0)
unfolding string_charbytes
encoded-charbytes v rest h =
    let P = λ (e : ℕ × List ℕ).
      (string_charbytes (e.1 ++ rest) 0 ≡ e.0) × (length e.1 ≡ e.0) × (0 < e.0) in
    if_lem P (ltb v 0x80) (λ e. (ground arith, refl, omega arith))
      λ a.
        if_lem P (ltb v 0x800) (λ e. (ground arith, refl, omega arith))
          λ b.
            if_lem P (ltb v 0x10000) (λ e. (ground arith, refl, omega arith))
              λ c. (ground arith, refl, omega arith)

-- `jml_string_charbytes` at an encoded character gives the count that `jml_string_encode` returned, which is the
-- number of bytes that it stored.
pub string_charbytes-string_encode :
    (v : ℕ) (rest : List ℕ)
    → IsCharacter v
    → (string_charbytes ((string_encode v).1 ++ rest) 0 ≡ (string_encode v).0)
      × (length (string_encode v).1 ≡ (string_encode v).0)
      × (0 < (string_encode v).0)
string_charbytes-string_encode v rest h =
    rw (string_encode-encoded v h.1) (encoded-charbytes v rest h)

-- The encoding of a text, character by character.
abbrev pub encode_all : List ℕ → List ℕ
encode_all [] = []
encode_all (v ∷ vs) = (string_encode v).1 ++ encode_all vs

abbrev pub AreCharacters : List ℕ → Type 0
AreCharacters [] = 0 ≤ 0
AreCharacters (v ∷ vs) = IsCharacter v × AreCharacters vs

drop-append : (xs ys : List ℕ) → drop (length xs) (xs ++ ys) ≡ ys
drop-append [] ys = refl
drop-append (x ∷ xs) ys = drop-append xs ys

charbytes_behind :
    (before s : List ℕ) → string_charbytes (before ++ s) (length before) ≡ string_charbytes s 0
unfolding string_charbytes
charbytes_behind before s = rw (drop-append before s) refl

-- The loop behind `before`, with the characters `vs` left.
len_loop-encode_all :
    (vs before rest : List ℕ) (fuel size len : ℕ)
    → AreCharacters vs
    → size ≡ length before + length (encode_all vs)
    → size < 2 ^ 32
    → length (encode_all vs) < fuel
    → len_loop fuel (before ++ (encode_all vs ++ rest)) size (length before) len
      ≡ some (len + length vs)
unfolding len_loop
len_loop-encode_all vs before rest zero size len h e small lt = absurd (omega arith)
len_loop-encode_all [] before rest (suc fuel) size len h e small lt =
    let done : ltb (length before) size ≡ false = ground arith in rw done (ap some (omega arith))
len_loop-encode_all (v ∷ vs) before rest (suc fuel) size len h e small lt =
    let one = (string_encode v).1 in
    let l = length-append one (encode_all vs) in
    let l' = length-append before one in
    let (width, stored, some_bytes) =
      string_charbytes-string_encode v (encode_all vs ++ rest) h.0 in
    let more : ltb (length before) size ≡ true = ground arith in
    let text : before ++ ((one ++ encode_all vs) ++ rest)
        ≡ before ++ (one ++ (encode_all vs ++ rest)) =
      ap (λ t. before ++ t) (append_assoc one (encode_all vs) rest) in
    let place : u32 (length before) ≡ length before = omega arith in
    let n = charbytes_behind before (one ++ (encode_all vs ++ rest)) ∙ width in
    let not_zero : ((string_encode v).0 == 0) ≡ false = ground arith in
    let next : length before + (string_encode v).0 ≡ length (before ++ one) = omega arith in
    let rest_run =
      len_loop-encode_all vs (before ++ one) rest fuel size (len + 1) h.1 (omega arith) small
        (omega arith) in
    rw (more, text, place, n, not_zero, next, sym (append_assoc before one (encode_all vs ++ rest)))
      (rest_run ∙ ap some (omega arith))

-- no NUL among the bytes
HasNoNul : List ℕ → Type 0
HasNoNul [] = 0 ≤ 0
HasNoNul (c ∷ cs) = (0 < c) × HasNoNul cs

HasNoNul-append : (xs ys : List ℕ) → HasNoNul xs → HasNoNul ys → HasNoNul (xs ++ ys)
unfolding HasNoNul
HasNoNul-append [] ys h k = k
HasNoNul-append (x ∷ xs) ys h k = (h.0, HasNoNul-append xs ys h.1 k)

encoded-HasNoNul : (v : ℕ) → IsCharacter v → HasNoNul (encoded v).1
unfolding HasNoNul
encoded-HasNoNul v h =
    let P = λ (e : ℕ × List ℕ). HasNoNul e.1 in
    if_lem P (ltb v 0x80) (λ e. (h.0, omega arith))
      λ a.
        if_lem P (ltb v 0x800) (λ e. (omega arith, (omega arith, omega arith)))
          λ b.
            if_lem P (ltb v 0x10000) (λ e. (omega arith, (omega arith, (omega arith, omega arith))))
              λ c. (omega arith, (omega arith, (omega arith, (omega arith, omega arith))))

encode_all-HasNoNul : (vs : List ℕ) → AreCharacters vs → HasNoNul (encode_all vs)
unfolding HasNoNul
encode_all-HasNoNul [] h = omega arith
encode_all-HasNoNul (v ∷ vs) h =
    HasNoNul-append (string_encode v).1 (encode_all vs)
      (rw (string_encode-encoded v h.0.1) (encoded-HasNoNul v h.0)) (encode_all-HasNoNul vs h.1)

strlen-c_string : (text : List ℕ) → HasNoNul text → strlen (c_string text) ≡ length text
unfolding strlen HasNoNul
strlen-c_string [] h = refl
strlen-c_string (c ∷ cs) h =
    let not_nul : (c == 0) ≡ false = ground (arith, h.0) in
    rw not_nul (ap suc (strlen-c_string cs h.1))

-- `jml_string_len` counts the characters of an encoded text without NUL of less than 2^32 bytes, given its
-- number of bytes or 0.
pub string_len-encode_all :
    (vs : List ℕ) (size : ℕ)
    → AreCharacters vs
    → length (encode_all vs) < 2 ^ 32
    → (size ≡ 0) ⊎ (size ≡ length (encode_all vs))
    → string_len (c_string (encode_all vs)) size ≡ some (length vs)
unfolding string_len
string_len-encode_all vs size h small given =
    let n = length (encode_all vs) in
    let counted : strlen (c_string (encode_all vs)) ≡ n =
      strlen-c_string (encode_all vs) (encode_all-HasNoNul vs h) in
    let right : (if size == 0 then n else size) ≡ n = ground (arith, given) in
    rw (counted, right)
      (len_loop-encode_all vs [] (0 ∷ []) (n + 1) n 0 h (omega arith) small (omega arith)
        ∙ ap some (omega arith))
