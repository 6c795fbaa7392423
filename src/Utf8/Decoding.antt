-- ===== src/Utf8/Decoding.antt =====
-- src/jml_string.c: `jml_string_decode` reads what `jml_string_encode` wrote.
use native.Mathlib.Nat.{mul-div_cancel}
use jml.Base.{
  power_positive, ℕ, zero, suc, ◌+◌, ◌-◌, ◌*◌, ◌/◌, ◌%◌, ◌^◌, ◌≤◌, ◌<◌, ◌≡◌, refl, ◌∙◌, ap, true,
  false, not, List, [], ◌∷◌, ◌++◌, Option, some, none, get_or, deref, plus_ptr, u32, ltb, ◌==◌,
  if◌then◌else◌, if_lem, bit_and, bit_or, bind_runs, bit_and-mask, bit_and-moved, bit_or-disjoint,
  bit_or-disjoint_above, arith,
}
use jml.Utf8.Codec.{string_encode, Shifted, decode_loop, limits, finish, string_decode}

-- The bytes of a character by arithmetic: the leading byte, then six bits a byte.
abbrev pub encoded : ℕ → ℕ × List ℕ
encoded v =
    if ltb v 0x80
    then (1, v ∷ [])
    else if ltb v 0x800
    then (2, (0xc0 + v / 2 ^ 6) ∷ (0x80 + v % 2 ^ 6) ∷ [])
    else if ltb v 0x10000
    then (3, (0xe0 + v / 2 ^ 12) ∷ (0x80 + v / 2 ^ 6 % 2 ^ 6) ∷ (0x80 + v % 2 ^ 6) ∷ [])
    else (
      4,
      (0xf0 + v / 2 ^ 18)
          ∷ (0x80 + v / 2 ^ 12 % 2 ^ 6)
          ∷ (0x80 + v / 2 ^ 6 % 2 ^ 6)
          ∷ (0x80 + v % 2 ^ 6)
          ∷ [],
    )

-- the bits that a mask of `p` ones, moved by `k`, takes out of a value
bits_of : (k p v : ℕ) → bit_and v ((2 ^ p - 1) * 2 ^ k) / 2 ^ k ≡ v / 2 ^ k % 2 ^ p
bits_of k p v =
    rw (bit_and-moved k v (2 ^ p - 1), bit_and-mask p (v / 2 ^ k))
      (mul-div_cancel (v / 2 ^ k % 2 ^ p) (power_positive k))

-- the marks of a leading byte and of the bytes behind it, over bits that they do not have
marked :
    (x : ℕ)
    → (x < 2 ^ 6 → bit_or 0x80 x ≡ 0x80 + x)
      × (x < 2 ^ 5 → bit_or 0xc0 x ≡ 0xc0 + x)
      × (x < 2 ^ 4 → bit_or 0xe0 x ≡ 0xe0 + x)
      × (x < 2 ^ 3 → bit_or 0xf0 x ≡ 0xf0 + x)
marked x = (
  bit_or-disjoint_above 6 x 2,
  bit_or-disjoint_above 5 x 6,
  bit_or-disjoint_above 4 x 14,
  bit_or-disjoint_above 3 x 30,
)

pub string_encode-encoded : (v : ℕ) → v ≤ 0x10ffff → string_encode v ≡ encoded v
unfolding string_encode
string_encode-encoded v h =
    let low : bit_and v 0x3f ≡ v % 2 ^ 6 = bit_and-mask 6 v in
    let mid : bit_and v 0xfc0 / 2 ^ 6 ≡ v / 2 ^ 6 % 2 ^ 6 = bits_of 6 6 v in
    let high : bit_and v 0x3f000 / 2 ^ 12 ≡ v / 2 ^ 12 % 2 ^ 6 = bits_of 12 6 v in
    let lead2 : bit_and v 0x7c0 / 2 ^ 6 ≡ v / 2 ^ 6 % 2 ^ 5 = bits_of 6 5 v in
    let lead3 : bit_and v 0xf000 / 2 ^ 12 ≡ v / 2 ^ 12 % 2 ^ 4 = bits_of 12 4 v in
    let lead4 : bit_and v 0x1c0000 / 2 ^ 18 ≡ v / 2 ^ 18 % 2 ^ 3 = bits_of 18 3 v in
    rw
      (
        bit_and-mask 7 v,
        low,
        mid,
        high,
        lead2,
        lead3,
        lead4,
        (marked (v % 2 ^ 6)).0 (omega arith),
        (marked (v / 2 ^ 6 % 2 ^ 6)).0 (omega arith),
        (marked (v / 2 ^ 12 % 2 ^ 6)).0 (omega arith),
        (marked (v / 2 ^ 6 % 2 ^ 5)).1 (omega arith),
        (marked (v / 2 ^ 12 % 2 ^ 4)).2 (omega arith),
        (marked (v / 2 ^ 18 % 2 ^ 3)).3 (omega arith),
      )
      (ground arith)

bit_six : (c : ℕ) → bit_and c 0x40 ≡ c / 2 ^ 6 % 2 * 2 ^ 6
bit_six c = bit_and-moved 6 c 1 ∙ ap (λ k. k * 2 ^ 6) (bit_and-mask 1 (c / 2 ^ 6))

top_two : (c : ℕ) → bit_and c 0xc0 ≡ c / 2 ^ 6 % 2 ^ 2 * 2 ^ 6
top_two c = bit_and-moved 6 c 3 ∙ ap (λ k. k * 2 ^ 6) (bit_and-mask 2 (c / 2 ^ 6))

decode_stop :
    (fuel : ℕ) (str : List ℕ) (c count res : ℕ)
    → c / 2 ^ 6 % 2 ≡ 0
    → decode_loop (suc fuel) str c count res
      ≡ some (some (record { c = c; count = count; res = res }))
unfolding decode_loop
decode_stop fuel str c count res h =
    let clear : (bit_and c 0x40 == 0) ≡ true = ground (arith, bit_six c) in rw clear refl

decode_step :
    (fuel : ℕ) (str : List ℕ) (c count res x : ℕ)
    → c / 2 ^ 6 % 2 ≡ 1
    → res < 2 ^ 20
    → x < 2 ^ 6
    → deref (plus_ptr str (count + 1)) ≡ 0x80 + x
    → decode_loop (suc fuel) str c count res
      ≡ decode_loop fuel str (u32 (c * 2)) (count + 1) (res * 2 ^ 6 + x)
unfolding decode_loop
decode_step fuel str c count res x h small lt e =
    let set : (bit_and c 0x40 == 0) ≡ false = ground (arith, bit_six c) in
    let follows : (bit_and (0x80 + x) 0xc0 == 0x80) ≡ true = ground (arith, top_two (0x80 + x)) in
    let payload : bit_and (0x80 + x) 0x3f ≡ x = bit_and-mask 6 (0x80 + x) ∙ omega arith in
    let moved : u32 (res * 2 ^ 6) ≡ res * 2 ^ 6 = omega arith in
    rw (set, e, follows, payload, moved, bit_or-disjoint_above 6 x res lt) refl

-- The end of a decoding: the payload of the leading byte, `y`, stands above the `k` bits that the loop has read.
finish-value :
    (str : List ℕ) (c count k res y : ℕ)
    → res < 2 ^ k
    → u32 (c % 2 ^ 7 * 2 ^ (count * 5)) ≡ y * 2 ^ k
    → count ≤ 5
    → res + y * 2 ^ k ≤ 0x7fffffff
    → get_or limits count 0 ≤ res + y * 2 ^ k
    → finish str (record { c = c; count = count; res = res })
      ≡ some (res + y * 2 ^ k, plus_ptr str (count + 1))
unfolding finish
finish-value str c count k res y low lead few big least =
    let few' : ltb 5 count ≡ false = ground arith in
    let big' : ltb 0x7fffffff (res + y * 2 ^ k) ≡ false = ground arith in
    let least' : ltb (res + y * 2 ^ k) (get_or limits count 0) ≡ false = ground arith in
    rw (bit_and-mask 7 c, lead, bit_or-disjoint k res y low, few', big', least') refl

module _ (v : ℕ) (rest : List ℕ) where
  decode_two :
      0x80 ≤ v
      → v < 0x800
      → string_decode ((0xc0 + v / 2 ^ 6) ∷ (0x80 + v % 2 ^ 6) ∷ rest) ≡ some (some (v, rest))
  unfolding string_decode
  decode_two least less =
      let str = (0xc0 + v / 2 ^ 6) ∷ (0x80 + v % 2 ^ 6) ∷ rest in
      let long : ltb (0xc0 + v / 2 ^ 6) 0x80 ≡ false = ground arith in
      let loop =
        decode_step 7 str (0xc0 + v / 2 ^ 6) 0 0 (v % 2 ^ 6) (omega arith) (omega arith)
          (omega arith) refl
        ∙ decode_stop 6 str _ _ _ (omega arith) in
      let whole : 0 * 2 ^ 6 + v % 2 ^ 6 + v / 2 ^ 6 * 2 ^ 6 ≡ v = omega arith in
      rw long (
        bind_runs _ loop (
          ap some (
            finish-value str _ 1 6 _ (v / 2 ^ 6) (omega arith) (omega arith) (omega arith)
              (omega arith) (omega arith)
            ∙ ap (λ k. some (k, rest)) whole)))

  decode_three :
      0x800 ≤ v
      → v < 0x10000
      → string_decode ((0xe0 + v / 2 ^ 12) ∷ (0x80 + v / 2 ^ 6 % 2 ^ 6) ∷ (0x80 + v % 2 ^ 6) ∷ rest)
        ≡ some (some (v, rest))
  unfolding string_decode
  decode_three least less =
      let c = 0xe0 + v / 2 ^ 12 in
      let str = c ∷ (0x80 + v / 2 ^ 6 % 2 ^ 6) ∷ (0x80 + v % 2 ^ 6) ∷ rest in
      let long : ltb c 0x80 ≡ false = ground arith in
      let loop =
        decode_step 7 str c 0 0 (v / 2 ^ 6 % 2 ^ 6) (omega arith) (omega arith) (omega arith) refl
        ∙ decode_step 6 str (u32 (c * 2)) 1 (0 * 2 ^ 6 + v / 2 ^ 6 % 2 ^ 6) (v % 2 ^ 6)
            (omega arith) (omega arith) (omega arith) refl
        ∙ decode_stop 5 str _ _ _ (omega arith) in
      let whole : (0 * 2 ^ 6 + v / 2 ^ 6 % 2 ^ 6) * 2 ^ 6 + v % 2 ^ 6 + v / 2 ^ 12 * 2 ^ 12 ≡ v =
        omega arith in
      rw long (
        bind_runs _ loop (
          ap some (
            finish-value str _ 2 12 _ (v / 2 ^ 12) (omega arith) (omega arith) (omega arith)
              (omega arith) (omega arith)
            ∙ ap (λ k. some (k, rest)) whole)))

  decode_four :
      0x10000 ≤ v
      → v ≤ 0x10ffff
      → string_decode (
          (0xf0 + v / 2 ^ 18)
          ∷ (0x80 + v / 2 ^ 12 % 2 ^ 6)
          ∷ (0x80 + v / 2 ^ 6 % 2 ^ 6)
          ∷ (0x80 + v % 2 ^ 6)
          ∷ rest)
        ≡ some (some (v, rest))
  unfolding string_decode
  decode_four least less =
      let c = 0xf0 + v / 2 ^ 18 in
      let str =
        c ∷ (0x80 + v / 2 ^ 12 % 2 ^ 6) ∷ (0x80 + v / 2 ^ 6 % 2 ^ 6) ∷ (0x80 + v % 2 ^ 6) ∷ rest in
      let long : ltb c 0x80 ≡ false = ground arith in
      let one = 0 * 2 ^ 6 + v / 2 ^ 12 % 2 ^ 6 in
      let two = one * 2 ^ 6 + v / 2 ^ 6 % 2 ^ 6 in
      let loop =
        decode_step 7 str c 0 0 (v / 2 ^ 12 % 2 ^ 6) (omega arith) (omega arith) (omega arith) refl
        ∙ decode_step 6 str (u32 (c * 2)) 1 one (v / 2 ^ 6 % 2 ^ 6) (omega arith) (omega arith)
            (omega arith) refl
        ∙ decode_step 5 str (u32 (u32 (c * 2) * 2)) 2 two (v % 2 ^ 6) (omega arith) (omega arith)
            (omega arith) refl
        ∙ decode_stop 4 str _ _ _ (omega arith) in
      let whole : two * 2 ^ 6 + v % 2 ^ 6 + v / 2 ^ 18 * 2 ^ 18 ≡ v = omega arith in
      rw long (
        bind_runs _ loop (
          ap some (
            finish-value str _ 3 18 _ (v / 2 ^ 18) (omega arith) (omega arith) (omega arith)
              (omega arith) (omega arith)
            ∙ ap (λ k. some (k, rest)) whole)))

  decode_encoded : v ≤ 0x10ffff → string_decode ((encoded v).1 ++ rest) ≡ some (some (v, rest))
  unfolding string_decode
  decode_encoded h =
      let P = λ (e : ℕ × List ℕ). string_decode (e.1 ++ rest) ≡ some (some (v, rest)) in
      if_lem P (ltb v 0x80) (λ e. rw e refl)
        λ a.
          if_lem P (ltb v 0x800) (λ e. decode_two (ground arith) (ground arith))
            λ b.
              if_lem P (ltb v 0x10000) (λ e. decode_three (ground arith) (ground arith))
                λ c. decode_four (ground arith) h

-- What `jml_string_encode` stores for a code point, `jml_string_decode` reads back, whatever follows it, and it
-- gives the pointer behind it.
pub string_decode-string_encode :
    (v : ℕ) (rest : List ℕ)
    → v ≤ 0x10ffff
    → string_decode ((string_encode v).1 ++ rest) ≡ some (some (v, rest))
string_decode-string_encode v rest h =
    ap (λ e. string_decode (e.1 ++ rest)) (string_encode-encoded v h) ∙ decode_encoded v rest h

-- After `n` more shifts bit 6 is clear.
Clears : ℕ → ℕ → Type 0
Clears zero c = c / 2 ^ 6 % 2 ≡ 0
Clears (suc n) c = Clears n (u32 (c * 2))

decode_loop_ends :
    (n : ℕ) (str : List ℕ) (c count res : ℕ)
    → Clears n c
    → (r : Option Shifted) × (decode_loop (suc n) str c count res ≡ some r)
unfolding decode_loop Clears
decode_loop_ends zero str c count res h = (some _, decode_stop zero str c count res h)
decode_loop_ends (suc n) str c count res h =
    let Ends = λ (o : Option (Option Shifted)). (r : Option Shifted) × (o ≡ some r) in
    let cc = deref (plus_ptr str (count + 1)) in
    if_lem Ends (bit_and c 0x40 == 0) (λ e. (_, refl))
      λ _.
        if_lem Ends (not (bit_and cc 0xc0 == 0x80)) (λ e. (_, refl))
          λ _.
            decode_loop_ends n str (u32 (c * 2)) (count + 1)
              (bit_or (u32 (res * 2 ^ 6)) (bit_and cc 0x3f)) h

-- For any text `jml_string_decode` ends, with a value or with NULL.
pub string_decode_ends : (str : List ℕ) → (r : Option (ℕ × List ℕ)) × (string_decode str ≡ some r)
unfolding string_decode Clears
string_decode_ends str =
    if_lem (λ o. (r : Option (ℕ × List ℕ)) × (o ≡ some r)) (ltb (deref str) 0x80) (λ e. (_, refl))
      λ _.
        let (r, run) = decode_loop_ends 7 str (deref str) 0 0 (omega arith) in
        let (s, e) = ended r in (s, bind_runs _ run e)
  where
    ended :
        (r : Option Shifted)
        → (s : Option (ℕ × List ℕ)) × (elim r [ none ↦ some none | some s ↦ some (finish str s) ]
            ≡ some s)
    ended none = (none, refl)
    ended (some s) = (finish str s, refl)
