-- ===== src/Serialization/Restore.antt =====
-- A whole bytecode through `jml_serialize_bytecode` and `jml_deserialize_bytecode`.
use mathlib.Core.Path.{ap₂, subst}
use jml.Base.{
  ℕ, ◌+◌, ◌*◌, ◌/◌, ◌^◌, ◌≤◌, ◌<◌, ◌≡◌, refl, sym, ◌∙◌, ap, false, List, [], ◌∷◌, ◌++◌, Option,
  some, none, length, arith, length-append, append_assoc, append-nil, ltb, if◌then◌else◌, ◌>>=◌,
  bind_runs,
}
use jml.Serialization.Memory.{Memory}
use jml.Serialization.Encode.{Constant, Bytecode, long_bytes, line_bytes}
use jml.Serialization.Decode.{byte_at, written, read_opcodes, read_values, deserialize_bytecode}
use jml.Serialization.Holds.{Holds, Holds-inside, Holds-front, Holds-back}
use jml.Serialization.Writers.{encoding, encodings}
use jml.Serialization.Layout.{bytecode_encoding, length-line_bytes}
use jml.Serialization.RoundTrip.{IsStorable, deserialize_long-Holds, deserialize_value-Holds}

abbrev pub AreStorable : List Constant → Type 0
AreStorable [] = 0 ≤ 0
AreStorable (v ∷ vs) = IsStorable v × AreStorable vs

-- Every line is a `uint16_t`.
abbrev pub AreShort : List ℕ → Type 0
AreShort [] = 0 ≤ 0
AreShort (l ∷ ls) = (l < 2 ^ 16) × AreShort ls

-- A bytecode that the format can hold.
pub record Fits (b : Bytecode) : Type 0 where
  pub paired : length b.lines ≡ length b.code
  pub small : length b.code * 3 < 2 ^ 32
  pub few : length b.constants < 2 ^ 32
  pub short : AreShort b.lines
  pub storable : AreStorable b.constants

module _ (serial : List ℕ) where
  -- The loop over `cs` and `ls`, the opcodes and lines from the `i`th on.
  read_opcodes-Holds :
      (pos count i : ℕ) (cs ls : List ℕ) (code lines : List ℕ) (vs : List Constant)
      → length ls ≡ length cs
      → AreShort ls
      → Holds serial (pos + i) cs
      → Holds serial (pos + count + i * 2) (line_bytes ls)
      → read_opcodes serial pos count
          (length cs)
          i
          (record { code = code; lines = lines; constants = vs })
        ≡ record { code = code ++ cs; lines = lines ++ ls; constants = vs }
  unfolding read_opcodes line_bytes
  read_opcodes-Holds pos count i [] [] code lines vs e s h k = rw (append-nil, append-nil) refl
  read_opcodes-Holds pos count i [] (l ∷ ls) code lines vs e s h k = absurd (omega arith)
  read_opcodes-Holds pos count i (c ∷ cs) [] code lines vs e s h k = absurd (omega arith)
  read_opcodes-Holds pos count i (c ∷ cs) (l ∷ ls) code lines vs e s h k =
      let at_line = pos + count + i * 2 in
      let line : byte_at serial at_line + byte_at serial (at_line + 1) * 2 ^ 8 ≡ l =
        omega (arith, s.0, k.0, k.1.0) in
      let next : pos + i + 1 ≡ pos + (i + 1) = omega arith in
      let next_line : at_line + 1 + 1 ≡ pos + count + (i + 1) * 2 = omega arith in
      let rest =
        read_opcodes-Holds pos count (i + 1) cs ls (code ++ c ∷ []) (lines ++ l ∷ []) vs
          (omega arith) s.1 (subst (λ p. Holds serial p cs) next h.1)
          (subst (λ p. Holds serial p (line_bytes ls)) next_line k.1.1) in
      let b : Bytecode = record { code = code; lines = lines; constants = vs } in
      ap₂ (λ byte at. read_opcodes serial pos count (length cs) (i + 1) (written b byte at)) h.0
        line
      ∙ rest
      ∙ ap₂ (λ (cs' ls' : List ℕ). record { code = cs'; lines = ls'; constants = vs })
          (append_assoc code (c ∷ []) cs) (append_assoc lines (l ∷ []) ls)

  read_values-Holds :
      (vs before : List Constant) (pos : ℕ)
      → AreStorable vs
      → Holds serial pos (encodings vs)
      → read_values serial (length vs) pos before ≡ some (before ++ vs, pos + length (encodings vs))
  unfolding read_values
  read_values-Holds [] before pos ok h = rw append-nil (ap (λ k. some (before, k)) (omega arith))
  read_values-Holds (v ∷ vs) before pos ok h =
      let l = length-append (encoding v) (encodings vs) in
      bind_runs _
        (deserialize_value-Holds serial v pos ok.0
          (Holds-front serial pos (encoding v) (encodings vs) h))
        (read_values-Holds vs (before ++ v ∷ []) (pos + length (encoding v)) ok.1
            (Holds-back serial pos (encoding v) (encodings vs) h)
          ∙ rw (append_assoc before (v ∷ []) vs)
              (ap (λ k. some (before ++ v ∷ vs, k)) (omega arith)))

  -- The part of `jml_deserialize_bytecode` behind the two counts.
  abbrev read_rest : ℕ → ℕ → ℕ → ℕ → Option (Bytecode × ℕ)
  read_rest constants offset at count =
      if ltb (length serial) (offset + at)
      then none
      else (let empty : Bytecode = record { code = []; lines = []; constants = [] } in
          let b = read_opcodes serial at count count 0 empty in
          read_values serial constants (at + offset) [] >>= λ r.
          some (record b { constants = r.0 }, r.1))

  read_rest-Holds :
      (b : Bytecode) (at : ℕ)
      → Fits b
      → Holds serial at (b.code ++ (line_bytes b.lines ++ encodings b.constants))
      → read_rest (length b.constants) (length b.code * 3) at (length b.code)
        ≡ some (b, at + (length b.code * 3 + length (encodings b.constants)))
  read_rest-Holds b at fits h =
      let count = length b.code in
      let vs = encodings b.constants in
      let ls = line_bytes b.lines in
      let ll = length-line_bytes b.lines in
      let codes_there = Holds-front serial at b.code (ls ++ vs) h in
      let behind = Holds-back serial at b.code (ls ++ vs) h in
      let lines_there = Holds-front serial (at + count) ls vs behind in
      let values_there = Holds-back serial (at + count) ls vs behind in
      let inside = Holds-inside serial (at + count + length ls) vs values_there in
      let room : ltb (length serial) (count * 3 + at) ≡ false = ground (arith, fits.paired) in
      let opcodes =
        read_opcodes-Holds at count 0 b.code b.lines [] [] [] fits.paired fits.short
          (subst (λ p. Holds serial p b.code) (omega arith) codes_there)
          (subst (λ p. Holds serial p ls) (omega arith) lines_there) in
      let at_values : at + count + length ls ≡ at + count * 3 = omega (arith, fits.paired) in
      let values =
        read_values-Holds b.constants [] (at + count * 3) fits.storable
          (subst (λ p. Holds serial p vs) at_values values_there) in
      rw room (
        bind_runs _ values (
          ap₂ (λ (k : Bytecode) (p : ℕ). some (record k { constants = b.constants }, p)) opcodes
            (omega arith)))

  -- At the encoding of a bytecode that the format can hold, `jml_deserialize_bytecode` gives the bytecode and
  -- the position behind it.
  pub deserialize_bytecode-Holds :
      (b : Bytecode) (pos : ℕ)
      → Fits b
      → Holds serial pos (bytecode_encoding b)
      → deserialize_bytecode serial pos ≡ some (b, pos + length (bytecode_encoding b))
  unfolding deserialize_bytecode
  deserialize_bytecode-Holds b pos fits h =
      let count = length b.code in
      let body = b.code ++ (line_bytes b.lines ++ encodings b.constants) in
      let l2 = length-append b.code (line_bytes b.lines ++ encodings b.constants) in
      let l3 = length-append (line_bytes b.lines) (encodings b.constants) in
      let ll = length-line_bytes b.lines in
      let behind =
        Holds-back serial pos (long_bytes (length b.constants)) (long_bytes (count * 3) ++ body)
          h in
      let third : count * 3 / 3 ≡ count = omega arith in
      let end : pos + 4 + 4 + (count * 3 + length (encodings b.constants))
          ≡ pos + length (bytecode_encoding b) =
        omega (arith, fits.paired) in
      let result : Option (Bytecode × ℕ) = some (b, pos + length (bytecode_encoding b)) in
      let rest : read_rest (length b.constants) (count * 3) (pos + 4 + 4) count ≡ result =
        read_rest-Holds b (pos + 4 + 4) fits
          (Holds-back serial (pos + 4) (long_bytes (count * 3)) body behind)
        ∙ ap (λ p. some (b, p)) end in
      bind_runs _
        (deserialize_long-Holds serial pos (length b.constants) fits.few (
          Holds-front serial pos (long_bytes (length b.constants)) (long_bytes (count * 3) ++ body)
            h))
        (bind_runs _
          (deserialize_long-Holds serial (pos + 4) (count * 3) fits.small
            (Holds-front serial (pos + 4) (long_bytes (count * 3)) body behind))
          (subst (λ n. read_rest (length b.constants) (count * 3) (pos + 4 + 4) n ≡ result)
            (sym third) rest))
