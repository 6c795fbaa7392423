-- ===== src/Utf8/Codec.antt =====
-- src/jml_string.c: encoding and decoding of a character, its number of bytes, and the length of a string.
use jml.Base.{
  ℕ, zero, suc, ◌+◌, ◌*◌, ◌/◌, ◌^◌, not, ◌&&◌, ◌||◌, List, [], ◌∷◌, Option, some, none, get_or,
  deref, plus_ptr, u32, ltb, leb, ◌==◌, if◌then◌else◌, bit_and, bit_or, ◌>>=◌,
}

-- The count that `jml_string_encode` returns, and the bytes that it stores.
unfoldable pub string_encode : ℕ → ℕ × List ℕ
string_encode value =
    if leb value 0x7f
    then (1, bit_and value 0x7f ∷ [])
    else if leb value 0x7ff
    then (2, bit_or 0xc0 (bit_and value 0x7c0 / 2 ^ 6) ∷ bit_or 0x80 (bit_and value 0x3f) ∷ [])
    else if leb value 0xffff
    then (
      3,
      bit_or 0xe0 (bit_and value 0xf000 / 2 ^ 12)
          ∷ bit_or 0x80 (bit_and value 0xfc0 / 2 ^ 6)
          ∷ bit_or 0x80 (bit_and value 0x3f)
          ∷ [],
    )
    else if leb value 0x10ffff
    then (
      4,
      bit_or 0xf0 (bit_and value 0x1c0000 / 2 ^ 18)
          ∷ bit_or 0x80 (bit_and value 0x3f000 / 2 ^ 12)
          ∷ bit_or 0x80 (bit_and value 0xfc0 / 2 ^ 6)
          ∷ bit_or 0x80 (bit_and value 0x3f)
          ∷ [],
    )
    else (0, [])

-- The variables of the loop in `jml_string_decode`, where it stops.
pub record Shifted : Type 0 where
  pub c : ℕ
  pub count : ℕ
  pub res : ℕ

-- The loop: `none` if the fuel runs out, `some none` for the return of NULL.
unfoldable pub decode_loop : ℕ → List ℕ → ℕ → ℕ → ℕ → Option (Option Shifted)
decode_loop zero str c count res = none
decode_loop (suc fuel) str c count res =
    let cc = deref (plus_ptr str (count + 1)) in
    let go_on : Option (Option Shifted) =
      decode_loop fuel str (u32 (c * 2)) (count + 1)
        (bit_or (u32 (res * 2 ^ 6)) (bit_and cc 0x3f)) in
    if bit_and c 0x40 == 0
    then some (some (record { c = c; count = count; res = res }))
    else if not (bit_and cc 0xc0 == 0x80)
    then some none
    else go_on

-- The least value that needs as many bytes, by the number of bytes behind the first.
abbrev pub limits : List ℕ
limits = 0xffffffff ∷ 0x80 ∷ 0x800 ∷ 0x10000 ∷ 0x200000 ∷ 0x4000000 ∷ []

-- The part of `jml_string_decode` behind its loop.
unfoldable pub finish : List ℕ → Shifted → Option (ℕ × List ℕ)
finish str s =
    let res = bit_or s.res (u32 (bit_and s.c 0x7f * 2 ^ (s.count * 5))) in
    if ltb 5 s.count || ltb 0x7fffffff res || ltb res (get_or limits s.count 0)
    then none
    else some (res, plus_ptr str (s.count + 1))

-- The value and the pointer behind the character; `some none` for NULL. A byte has eight bits, so that the loop
-- shifts at most seven times.
unfoldable pub string_decode : List ℕ → Option (Option (ℕ × List ℕ))
string_decode str =
    let c = deref str in
    if ltb c 0x80
    then some (some (c, plus_ptr str 1))
    else decode_loop 8 str c 0 0 >>= λ r. elim r [ none ↦ some none | some s ↦ some (finish str s) ]

unfoldable pub string_charbytes : List ℕ → ℕ → ℕ
string_charbytes str i =
    let c = deref (plus_ptr str i) in
    if ltb 0 c && leb c 0x7f
    then 1
    else if leb 0xc2 c && leb c 0xdf
    then 2
    else if leb 0xe0 c && leb c 0xef
    then 3
    else if leb 0xf0 c && leb c 0xf4
    then 4
    else 0

-- The loop of `jml_string_len`; `none` if the fuel runs out.
unfoldable pub len_loop : ℕ → List ℕ → ℕ → ℕ → ℕ → Option ℕ
len_loop zero str size pos len = none
len_loop (suc fuel) str size pos len =
    let n = string_charbytes str (u32 pos) in
    let go_on : Option ℕ = len_loop fuel str size (pos + n) (len + 1) in
    if ltb pos size then (if n == 0 then some 0 else go_on) else some len

-- `strlen`
unfoldable pub strlen : List ℕ → ℕ
strlen [] = 0
strlen (c ∷ str) = let rest = strlen str in if c == 0 then 0 else suc rest

unfoldable pub string_len : List ℕ → ℕ → Option ℕ
string_len str size =
    let size' = if size == 0 then strlen str else size in len_loop (size' + 1) str size' 0 0
