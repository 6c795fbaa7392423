-- ===== src/Serialization/RoundTrip.antt =====
-- The deserialisers read back what the serialisers wrote.

use jml.Base.{
  ℕ, ◌+◌, ◌*◌, ◌%◌, ◌^◌, ◌≤◌, ◌<◌, ◌≡◌, refl, ap, true, false, List, some, length, u32, arith, ltb,
  leb, bind_runs,
}
use jml.Serialization.Encode.{
  Constant, none_val, bool_val, num_val, string_obj, other_obj, byte_of, long_bytes, longlong_bytes,
}
use jml.Serialization.Decode.{
  deserialize_long, deserialize_longlong, deserialize_double, deserialize_string, deserialize_obj,
  deserialize_value,
}
use jml.Serialization.Holds.{Holds, Holds-inside, Holds-front, Holds-back, Holds-byte, copied-Holds}
use jml.Serialization.Writers.{string_encoding, encoding}

-- What the format can hold: a string whose length is a `uint32_t`, a number of 64 bits, no other object.
abbrev pub IsStorable : Constant → Type 0
IsStorable none_val = 0 ≤ 0
IsStorable (bool_val b) = 0 ≤ 0
IsStorable (num_val bits) = bits < 2 ^ 64
IsStorable (string_obj chars) = length chars < 2 ^ 32
IsStorable other_obj = 1 ≤ 0

long_of_bytes :
    (n : ℕ)
    → n < 2 ^ 32
    → u32 (byte_of n 24 * 2 ^ 24 + byte_of n 16 * 2 ^ 16 + byte_of n 8 * 2 ^ 8 + byte_of n 0) ≡ n
long_of_bytes n h = omega arith

longlong_of_bytes :
    (n : ℕ)
    → n < 2 ^ 64
    → (byte_of n 56 * 2 ^ 56
          + byte_of n 48 * 2 ^ 48
          + byte_of n 40 * 2 ^ 40
          + byte_of n 32 * 2 ^ 32
          + byte_of n 24 * 2 ^ 24
          + byte_of n 16 * 2 ^ 16
          + byte_of n 8 * 2 ^ 8
          + byte_of n 0)
        % 2 ^ 64
      ≡ n
longlong_of_bytes n h = omega arith

module _ (serial : List ℕ) where
  pub inside_test : (pos n : ℕ) → pos + n ≤ length serial → ltb (length serial) (pos + n) ≡ false
  inside_test pos n h = ground arith

  before_end : (pos : ℕ) → pos + 1 ≤ length serial → leb (length serial) pos ≡ false
  before_end pos h = ground arith

  pub deserialize_long-Holds :
      (pos n : ℕ)
      → n < 2 ^ 32
      → Holds serial pos (long_bytes n)
      → deserialize_long serial pos ≡ some (n, pos + 4)
  unfolding deserialize_long
  deserialize_long-Holds pos n small h =
      let bs = long_bytes n in
      rw
        (
          inside_test pos 4 (Holds-inside serial pos bs h),
          h.0,
          Holds-byte serial pos bs 1 h refl,
          Holds-byte serial pos bs 2 h refl,
          Holds-byte serial pos bs 3 h refl,
        )
        (ap (λ k. some (k, pos + 4)) (long_of_bytes n small))

  deserialize_double-Holds :
      (pos n : ℕ)
      → n < 2 ^ 64
      → Holds serial pos (longlong_bytes n)
      → deserialize_double serial pos ≡ some (n, pos + 8)
  unfolding deserialize_double deserialize_longlong
  deserialize_double-Holds pos n small h =
      let bs = longlong_bytes n in
      rw
        (
          inside_test pos 8 (Holds-inside serial pos bs h),
          h.0,
          Holds-byte serial pos bs 1 h refl,
          Holds-byte serial pos bs 2 h refl,
          Holds-byte serial pos bs 3 h refl,
          Holds-byte serial pos bs 4 h refl,
          Holds-byte serial pos bs 5 h refl,
          Holds-byte serial pos bs 6 h refl,
          Holds-byte serial pos bs 7 h refl,
        )
        (ap (λ k. some (k, pos + 8)) (longlong_of_bytes n small))

  deserialize_string-Holds :
      (pos : ℕ) (chars : List ℕ)
      → length chars < 2 ^ 32
      → Holds serial pos (string_encoding chars)
      → deserialize_string serial pos ≡ some (chars, pos + length (string_encoding chars))
  unfolding deserialize_string
  deserialize_string-Holds pos chars small h =
      let front = Holds-front serial pos (long_bytes (length chars)) chars h in
      let back = Holds-back serial pos (long_bytes (length chars)) chars h in
      bind_runs _ (deserialize_long-Holds pos (length chars) small front) (
        rw
          (
            inside_test (pos + 4) (length chars) (Holds-inside serial (pos + 4) chars back),
            copied-Holds serial (pos + 4) chars back,
          )
          (ap (λ k. some (chars, k)) (omega arith)))

  pub deserialize_value-Holds :
      (v : Constant) (pos : ℕ)
      → IsStorable v
      → Holds serial pos (encoding v)
      → deserialize_value serial pos ≡ some (v, pos + length (encoding v))
  unfolding deserialize_value deserialize_obj
  deserialize_value-Holds none_val pos ok h =
      rw (before_end pos (Holds-inside serial pos (encoding none_val) h), h.0) refl
  deserialize_value-Holds (bool_val true) pos ok h =
      rw (before_end pos (Holds-inside serial pos (encoding (bool_val true)) h), h.0) refl
  deserialize_value-Holds (bool_val false) pos ok h =
      rw (before_end pos (Holds-inside serial pos (encoding (bool_val false)) h), h.0) refl
  deserialize_value-Holds (num_val bits) pos ok h =
      let inside = Holds-inside serial pos (encoding (num_val bits)) h in
      rw (before_end pos (omega arith), h.0)
        (bind_runs _ (deserialize_double-Holds (pos + 1) bits ok h.1)
          (ap (λ k. some (num_val bits, k)) (omega arith)))
  deserialize_value-Holds (string_obj chars) pos ok h =
      let inside = Holds-inside serial pos (encoding (string_obj chars)) h in
      rw (before_end pos (omega arith), h.0, before_end (pos + 1) (omega arith), h.1.0)
        (bind_runs _ (deserialize_string-Holds (pos + 1 + 1) chars ok h.1.1)
          (ap (λ k. some (string_obj chars, k)) (omega arith)))
  deserialize_value-Holds other_obj pos ok h = absurd (omega arith)
