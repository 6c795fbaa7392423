-- ===== src/Serialization/Writers.antt =====
-- Every serialiser writes the bytes of its encoding behind those that are there.
use mathlib.Core.Path.{subst}
use jml.Base.{
  ℕ, ◌+◌, ◌≤◌, ◌≡◌, refl, sym, ◌∙◌, ap, Bool, List, [], ◌∷◌, ◌++◌, Option, some, length, take, u32,
  if◌then◌else◌, arith, inl, inr, length-append, append-nil, take-append, bind_runs,
}
use jml.Serialization.Memory.{Memory}
use jml.Serialization.Encode.{
  Constant, none_val, bool_val, num_val, string_obj, other_obj, long_bytes, longlong_bytes, emit,
  serialize_long, serialize_longlong, serialize_double, serialize_string, serialize_obj,
  serialize_value,
}
use jml.Serialization.Written.{Wrote, Wrote-trans, Stays, emit-Wrote, take_all}

-- The encoding of a string: its length, then its characters.
abbrev pub string_encoding : List ℕ → List ℕ
string_encoding chars = long_bytes (length chars) ++ chars

-- The encoding of a constant; nothing for an object that is no string.
abbrev pub encoding : Constant → List ℕ
encoding none_val = b'|' ∷ []
encoding (bool_val b) = (if b then b'<' else b'>') ∷ []
encoding (num_val bits) = b'N' ∷ longlong_bytes bits
encoding (string_obj chars) = b'O' ∷ b'S' ∷ string_encoding chars
encoding other_obj = []

abbrev pub encodings : List Constant → List ℕ
encodings [] = []
encodings (v ∷ vs) = encoding v ++ encodings vs

-- A serialiser that has written `bs`: its count and its buffer.
pub record Puts (m : Memory) (pos : ℕ) (bs : List ℕ) (run : Option (ℕ × Memory)) : Type 0 where
  pub after : Memory
  pub runs : run ≡ some (length bs, after)
  pub wrote : Wrote m pos bs after

pub Wrote-nil : (m : Memory) (pos : ℕ) → pos ≤ length m.bytes → Wrote m pos [] m
Wrote-nil m pos h = record {
  inside = omega arith;
  prefix = rw append-nil (ap (λ k. take k m.bytes) (omega arith));
  same_place = refl;
  no_smaller = omega arith;
}

module _ (moving : Bool) where
  -- The caller's side of a serialiser: a buffer with `pos` bytes in use, and room for `size` more or an
  -- allocator that does not move it.
  pub record Ready (m : Memory) (pos size : ℕ) : Type 0 where
    pub two : 2 ≤ length m.bytes
    pub used : pos ≤ length m.bytes
    pub stays : Stays moving m (pos + size)

  pub later :
      {m m' : Memory} {pos : ℕ} {bs : List ℕ} (size : ℕ)
      → Ready m pos (length bs + size)
      → Wrote m pos bs m'
      → Ready m' (pos + length bs) size
  later {m} {m'} {pos} {bs} size r w = record {
    two = omega (arith, r.two, w.no_smaller);
    used = omega (arith, w.inside);
    stays = go r.stays;
  }
    where
      go : Stays moving m (pos + (length bs + size)) → Stays moving m' (pos + length bs + size)
      go (inl e) = inl e
      go (inr lt) = inr (omega (arith, w.no_smaller))

  -- A single store of the whole of `bs`, or of `bs` and a NUL.
  emit-Puts :
      (m : Memory) (p pos : ℕ) (bs tail : List ℕ) (room : ℕ)
      → p ≡ m.moves
      → Ready m pos room
      → length bs ≤ room
      → length bs + length tail ≤ room + 1
      → (m' : Memory) × (emit moving p m pos room (bs ++ tail) ≡ some (p, m')) × Wrote m pos bs m'
  emit-Puts m p pos bs tail room e r fit fit' =
      let l = length-append bs tail in
      let (m', run, w) =
        emit-Wrote moving m pos room (bs ++ tail) (length bs) r.two r.used r.stays (omega arith)
          (omega arith) fit in
      (
        m',
        rw e run,
        subst (λ l. Wrote m pos l m') (take-append (length bs) bs tail (omega arith) ∙ take_all bs)
            w,
      )

  pub emit-exact :
      (m : Memory) (p pos : ℕ) (bs : List ℕ) (room : ℕ)
      → p ≡ m.moves
      → Ready m pos room
      → length bs ≤ room
      → (m' : Memory) × (emit moving p m pos room bs ≡ some (p, m')) × Wrote m pos bs m'
  emit-exact m p pos bs room e r fit =
      let (m', run, w) = emit-Puts m p pos bs [] room e r fit (omega arith) in
      (m', subst (λ l. emit moving p m pos room l ≡ some (p, m')) (append-nil bs) run, w)

  pub long_bytes-u32 : (n : ℕ) → long_bytes (u32 n) ≡ long_bytes n
  long_bytes-u32 n = ground arith

  pub less-Ready : (m : Memory) (pos a b : ℕ) → Ready m pos a → b ≤ a → Ready m pos b
  less-Ready m pos a b r h = record { two = r.two; used = r.used; stays = go r.stays }
    where
      go : Stays moving m (pos + a) → Stays moving m (pos + b)
      go (inl e) = inl e
      go (inr lt) = inr (omega arith)

  pub serialize_long-Puts :
      (num : ℕ) (m : Memory) (p pos : ℕ)
      → p ≡ m.moves
      → Ready m pos 4
      → Puts m pos (long_bytes num) (serialize_long moving num p m pos)
  unfolding serialize_long
  serialize_long-Puts num m p pos e r =
      let (m', run, w) = emit-exact m p pos (long_bytes num) 4 e r (omega arith) in
      record { after = m'; runs = bind_runs _ run refl; wrote = w }

  serialize_double-Puts :
      (bits : ℕ) (m : Memory) (p pos : ℕ)
      → p ≡ m.moves
      → Ready m pos 8
      → Puts m pos (longlong_bytes bits) (serialize_double moving bits p m pos)
  unfolding serialize_double serialize_longlong
  serialize_double-Puts bits m p pos e r =
      let (m', run, w) = emit-exact m p pos (longlong_bytes bits) 8 e r (omega arith) in
      record { after = m'; runs = bind_runs _ run refl; wrote = w }

  serialize_string-Puts :
      (chars : List ℕ) (m : Memory) (p pos : ℕ)
      → p ≡ m.moves
      → Ready m pos (4 + (length chars + 1))
      → Puts m pos (string_encoding chars) (serialize_string moving chars p m pos)
  unfolding serialize_string
  serialize_string-Puts chars m p pos e r =
      let h =
        serialize_long-Puts (u32 (length chars)) m p pos e (less-Ready m pos _ 4 r (omega arith)) in
      let (m', run, w) =
        emit-exact h.after p (pos + 4) chars (length chars + 1) (e ∙ sym h.wrote.same_place)
          (later (length chars + 1) r h.wrote) (omega arith) in
      record {
        after = m';
        runs = bind_runs _ h.runs (bind_runs _ run (ap (λ k. some (k, m')) (omega arith)));
        wrote =
            subst (λ l. Wrote m pos (l ++ chars) m') (long_bytes-u32 (length chars))
              (Wrote-trans h.wrote w);
      }

  -- what the constants of a bytecode need beside their own bytes: a byte behind the last
  pub serialize_value-Puts :
      (v : Constant) (m : Memory) (p pos : ℕ)
      → p ≡ m.moves
      → Ready m pos (length (encoding v) + 1)
      → Puts m pos (encoding v) (serialize_value moving v p m pos)
  unfolding serialize_value serialize_obj
  serialize_value-Puts none_val m p pos e r =
      let (m', run, w) =
        emit-Puts m p pos (b'|' ∷ []) (0 ∷ []) 1 e (less-Ready m pos _ 1 r (omega arith))
          (omega arith) (omega arith) in
      record { after = m'; runs = bind_runs _ run refl; wrote = w }
  serialize_value-Puts (bool_val b) m p pos e r =
      let (m', run, w) =
        emit-Puts m p pos ((if b then b'<' else b'>') ∷ []) (0 ∷ []) 1 e
          (less-Ready m pos _ 1 r (omega arith)) (omega arith) (omega arith) in
      record { after = m'; runs = bind_runs _ run refl; wrote = w }
  serialize_value-Puts (num_val bits) m p pos e r =
      let (m', run, w) =
        emit-Puts m p pos (b'N' ∷ []) (0 ∷ []) 1 e (less-Ready m pos _ 1 r (omega arith))
          (omega arith) (omega arith) in
      let d =
        serialize_double-Puts bits m' p (pos + 1) (e ∙ sym w.same_place)
          (later 8 (less-Ready m pos _ 9 r (omega arith)) w) in
      record {
        after = d.after;
        runs = bind_runs _ run (bind_runs _ d.runs refl);
        wrote = Wrote-trans w d.wrote;
      }
  serialize_value-Puts (string_obj chars) m p pos e r =
      let (m', run, w) =
        emit-Puts m p pos (b'O' ∷ b'S' ∷ []) (0 ∷ []) 2 e (less-Ready m pos _ 2 r (omega arith))
          (omega arith) (omega arith) in
      let d = serialize_string-Puts chars m' p (pos + 2) (e ∙ sym w.same_place) (
        later (4 + (length chars + 1))
          (less-Ready m pos _ (2 + (4 + (length chars + 1))) r
            (omega (arith, length-append (long_bytes (length chars)) chars)))
          w) in
      record {
        after = d.after;
        runs = bind_runs _ run (bind_runs _ d.runs (ap (λ k. some (k, d.after)) (omega arith)));
        wrote = Wrote-trans w d.wrote;
      }
  serialize_value-Puts other_obj m p pos e r = record {
    after = m;
    runs = refl;
    wrote = Wrote-nil m pos r.used;
  }
