-- ===== src/Utf8/Tests.antt =====
-- src/jml_string.c: characters of one to four bytes.
use jml.Base.{ℕ, ◌≡◌, inl, refl, List, [], ◌∷◌, ◌++◌, some, none, length, c_string, arith}
use jml.Utf8.Codec.{string_encode, string_decode, string_len, decode_loop, finish}
use jml.Utf8.Decoding.{string_decode-string_encode}
use jml.Utf8.Characters.{encode_all, string_len-encode_all}

euro_bytes : string_encode 0x20ac ≡ (3, 0xe2 ∷ 0x82 ∷ 0xac ∷ [])
unfolding string_encode
euro_bytes = refl

-- An overlong zero is refused.
overlong : string_decode (0xc0 ∷ 0x80 ∷ []) ≡ some none
unfolding string_decode decode_loop finish
overlong = refl

string_decode-string_encode_example :
    string_decode ((string_encode 0x20ac).1 ++ 0x41 ∷ []) ≡ some (some (0x20ac, 0x41 ∷ []))
string_decode-string_encode_example = string_decode-string_encode 0x20ac (0x41 ∷ []) (omega arith)

abbrev short_word : List ℕ
short_word = 0x41 ∷ 0x20ac ∷ []

string_len-encode_all_example :
    string_len (c_string (encode_all short_word)) 0 ≡ some (length short_word)
unfolding string_encode
string_len-encode_all_example =
    string_len-encode_all short_word 0
      ((omega arith, omega arith), ((omega arith, omega arith), omega arith)) (omega arith)
      (inl refl)
