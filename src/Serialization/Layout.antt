-- ===== src/Serialization/Layout.antt =====
-- The serialised form of a whole bytecode.
use mathlib.Core.Path.{subst}
use jml.Base.{
  ℕ, ◌+◌, ◌*◌, ◌^◌, ◌<◌, ◌≡◌, refl, sym, ◌∙◌, ap, Bool, List, [], ◌∷◌, ◌++◌, Option, some, length,
  take, u32, arith, length-append, ◌>>=◌, bind_runs,
}
use jml.Serialization.Memory.{Memory}
use jml.Serialization.Encode.{
  Constant, Bytecode, long_bytes, line_bytes, emit, serialize_values, serialize_bytecode,
}
use jml.Serialization.Written.{Wrote, Wrote-trans, take_all}
use jml.Serialization.Writers.{
  encoding, encodings, Puts, Ready, later, less-Ready, emit-exact, Wrote-nil, serialize_long-Puts,
  serialize_value-Puts, long_bytes-u32,
}

-- The two counts, the opcodes, the lines and the constants.
abbrev pub bytecode_encoding : Bytecode → List ℕ
bytecode_encoding b =
    long_bytes (length b.constants)
    ++ (long_bytes (length b.code * 3) ++ (b.code ++ (line_bytes b.lines ++ encodings b.constants)))

pub length-line_bytes : (ls : List ℕ) → length (line_bytes ls) ≡ length ls * 2
unfolding line_bytes
length-line_bytes [] = refl
length-line_bytes (l ∷ ls) = omega (arith, length-line_bytes ls)

module _ (moving : Bool) where
  serialize_values-Puts :
      (vs : List Constant) (m : Memory) (p pos : ℕ)
      → p ≡ m.moves
      → Ready moving m pos (length (encodings vs) + 1)
      → Puts m pos (encodings vs) (serialize_values moving vs p m pos)
  unfolding serialize_values
  serialize_values-Puts [] m p pos e r = record {
    after = m;
    runs = refl;
    wrote = Wrote-nil m pos r.used;
  }
  serialize_values-Puts (v ∷ vs) m p pos e r =
      let l = length-append (encoding v) (encodings vs) in
      let one =
        serialize_value-Puts moving v m p pos e
          (less-Ready moving m pos _ (length (encoding v) + 1) r (omega arith)) in
      let rest =
        serialize_values-Puts vs one.after p (pos + length (encoding v))
          (e ∙ sym one.wrote.same_place)
          (later moving (length (encodings vs) + 1)
            (less-Ready moving m pos _ (length (encoding v) + (length (encodings vs) + 1)) r
              (omega arith))
            one.wrote) in
      record {
        after = rest.after;
        runs =
            bind_runs _ one.runs (bind_runs _ rest.runs (ap (λ k. some (k, rest.after)) (sym l)));
        wrote = Wrote-trans one.wrote rest.wrote;
      }

  -- The part of `jml_serialize_bytecode` that writes the lines and the constants, with `base` bytes before.
  abbrev lines_and_values : ℕ → Bytecode → ℕ → Memory → ℕ → ℕ → Option (ℕ × Memory)
  lines_and_values base b p m pos span =
      emit moving p m pos span (take span (line_bytes b.lines)) >>= λ l.
      serialize_values moving b.constants l.0 l.1 (pos + span) >>= λ v.
      some (base + (span + v.0), v.1)

  lines_and_values-Puts :
      (b : Bytecode) (m : Memory) (p pos base span : ℕ)
      → p ≡ m.moves
      → span ≡ length (line_bytes b.lines)
      → Ready moving m pos (length (line_bytes b.lines) + (length (encodings b.constants) + 1))
      → (after : Memory) × (lines_and_values base b p m pos span
          ≡ some (base + length (line_bytes b.lines ++ encodings b.constants), after))
        × Wrote m pos (line_bytes b.lines ++ encodings b.constants) after
  lines_and_values-Puts b m p pos base span e long r =
      let ls = line_bytes b.lines in
      let vs = encodings b.constants in
      let (l, run, wrote) =
        emit-exact moving m p pos ls (length ls) e
          (less-Ready moving m pos _ (length ls) r (omega arith)) (omega arith) in
      let v =
        serialize_values-Puts b.constants l p (pos + length ls) (e ∙ sym wrote.same_place)
          (later moving _ r wrote) in
      let result = some (base + length (ls ++ vs), v.after) in
      let exact : emit moving p m pos (length ls) (take (length ls) ls) ≡ some (p, l) =
        subst (λ k. emit moving p m pos (length ls) k ≡ some (p, l)) (sym (take_all ls)) run in
      let total : base + (length ls + length vs) ≡ base + length (ls ++ vs) =
        omega (arith, length-append ls vs) in
      let runs : lines_and_values base b p m pos (length ls) ≡ result =
        bind_runs _ exact (bind_runs _ v.runs (ap (λ k. some (k, v.after)) total)) in
      (
        v.after,
        subst (λ n. lines_and_values base b p m pos n ≡ result) (sym long) runs,
        Wrote-trans wrote v.wrote,
      )

  exact_counts :
      (b : Bytecode)
      → long_bytes (u32 (length b.constants))
          ++ (long_bytes (u32 (length b.code * 3))
              ++ (b.code ++ (line_bytes b.lines ++ encodings b.constants)))
        ≡ bytecode_encoding b
  exact_counts b =
      let rest = b.code ++ (line_bytes b.lines ++ encodings b.constants) in
      ap (λ l. l ++ (long_bytes (u32 (length b.code * 3)) ++ rest))
        (long_bytes-u32 moving (length b.constants))
      ∙ ap (λ l. long_bytes (length b.constants) ++ (l ++ rest))
          (long_bytes-u32 moving (length b.code * 3))

  -- Where the allocator does not move the buffer, or the buffer has room for the whole and one byte more,
  -- `jml_serialize_bytecode` writes the encoding behind the bytes before pos, and returns its length. The
  -- bytecode has a line for each byte, and three times its bytes are less than 2^32.
  pub serialize_bytecode-Puts :
      (b : Bytecode) (m : Memory) (pos : ℕ)
      → length b.lines ≡ length b.code
      → length b.code * 3 < 2 ^ 32
      → Ready moving m pos (length (bytecode_encoding b) + 1)
      → Puts m pos (bytecode_encoding b) (serialize_bytecode moving b m.moves m pos)
  unfolding serialize_bytecode
  serialize_bytecode-Puts b m pos lines small r =
      let count = length b.code in
      let vs = encodings b.constants in
      let ls = line_bytes b.lines in
      let l3 = length-append ls vs in
      let l2 = length-append b.code (ls ++ vs) in
      let ll = length-line_bytes b.lines in
      let span : u32 (count * 2) ≡ length ls = omega arith in
      let r' =
        less-Ready moving m pos _ (4 + (4 + (count + (length ls + (length vs + 1))))) r
          (omega arith) in
      let h =
        serialize_long-Puts moving (u32 (length b.constants)) m m.moves pos refl
          (less-Ready moving m pos _ 4 r' (omega arith)) in
      let rh = later moving _ r' h.wrote in
      let e1 = sym h.wrote.same_place in
      let k =
        serialize_long-Puts moving (u32 (count * 3)) h.after m.moves (pos + 4) e1
          (less-Ready moving h.after (pos + 4) _ 4 rh (omega arith)) in
      let rk = later moving _ rh k.wrote in
      let e2 = e1 ∙ sym k.wrote.same_place in
      let (c, c_run, c_wrote) =
        emit-exact moving k.after m.moves (pos + 4 + 4) b.code count e2
          (less-Ready moving k.after (pos + 4 + 4) _ count rk (omega arith)) (omega arith) in
      let (after, t_run, t_wrote) =
        lines_and_values-Puts b c m.moves (pos + 4 + 4 + count) (4 + (4 + count)) (u32 (count * 2))
          (e2 ∙ sym c_wrote.same_place) span (later moving _ rk c_wrote) in
      let whole = Wrote-trans h.wrote (Wrote-trans k.wrote (Wrote-trans c_wrote t_wrote)) in
      record {
        after = after;
        runs = bind_runs _ h.runs (
            bind_runs _ k.runs
              (bind_runs _ c_run (t_run ∙ ap (λ n. some (n, after)) (omega arith))));
        wrote = subst (λ (w : List ℕ). Wrote m pos w after) (exact_counts b) whole;
      }
