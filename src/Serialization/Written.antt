-- ===== src/Serialization/Written.antt =====
-- What a store into the buffer leaves: the bytes before it, and then its own.
use jml.Base.{
  ℕ, zero, suc, ◌+◌, ◌-◌, ◌*◌, ◌/◌, ◌≤◌, ◌<◌, ◌≡◌, refl, ◌∙◌, ap, Bool, true, false, List, [], ◌∷◌,
  ◌++◌, some, length, take, leb, ◌==◌, arith, ◌⊎◌, inl, inr, Bool-cases, length-append,
  length-replicate, append_assoc, ==_refl, length-take, take-append,
}
use jml.Serialization.Memory.{Memory, grow_size, resize, realloc, overwrite, write}
use jml.Serialization.Encode.{emit}

pub take_all : (xs : List ℕ) → take (length xs) xs ≡ xs
take_all [] = refl
take_all (x ∷ xs) = ap (◌∷◌ x) (take_all xs)

length-overwrite :
    (old : List ℕ) (pos : ℕ) (bs : List ℕ)
    → pos + length bs ≤ length old
    → length (overwrite old pos bs) ≡ length old
unfolding overwrite
length-overwrite old zero [] h = refl
length-overwrite [] zero (b ∷ bs) h = absurd (omega arith)
length-overwrite (x ∷ old) zero (b ∷ bs) h = ap suc (length-overwrite old zero bs (omega arith))
length-overwrite [] (suc pos) bs h = absurd (omega arith)
length-overwrite (x ∷ old) (suc pos) bs h = ap suc (length-overwrite old pos bs (omega arith))

take-overwrite_zero :
    (old bs : List ℕ) (n : ℕ)
    → length bs ≤ length old
    → n ≤ length bs
    → take n (overwrite old 0 bs) ≡ take n bs
unfolding overwrite
take-overwrite_zero old bs zero h k = refl
take-overwrite_zero old [] (suc n) h k = absurd (omega arith)
take-overwrite_zero [] (b ∷ bs) (suc n) h k = absurd (omega arith)
take-overwrite_zero (x ∷ old) (b ∷ bs) (suc n) h k =
    ap (◌∷◌ b) (take-overwrite_zero old bs n (omega arith) (omega arith))

-- `n` of the bytes stored at `pos`, behind the bytes that were there
take-overwrite :
    (old : List ℕ) (pos : ℕ) (bs : List ℕ) (n : ℕ)
    → pos + length bs ≤ length old
    → n ≤ length bs
    → take (pos + n) (overwrite old pos bs) ≡ take pos old ++ take n bs
unfolding overwrite
take-overwrite old zero bs n h k =
    let e : 0 + n ≡ n = omega arith in rw e (take-overwrite_zero old bs n (omega arith) k)
take-overwrite [] (suc pos) bs n h k = absurd (omega arith)
take-overwrite (x ∷ old) (suc pos) bs n h k =
    let e : suc pos + n ≡ suc (pos + n) = omega arith in
    rw e (ap (◌∷◌ x) (take-overwrite old pos bs n (omega arith) k))

-- The buffer `m` has become `m'`: the `pos` bytes before are kept, and `bs` stands behind them. The
-- allocation has not moved.
pub record Wrote (m : Memory) (pos : ℕ) (bs : List ℕ) (m' : Memory) : Type 0 where
  pub inside : pos + length bs ≤ length m'.bytes
  pub prefix : take (pos + length bs) m'.bytes ≡ take pos m.bytes ++ bs
  pub same_place : m'.moves ≡ m.moves
  pub no_smaller : length m.bytes ≤ length m'.bytes

pub Wrote-trans :
    {m : Memory} {pos : ℕ} {cs bs : List ℕ} {m' m'' : Memory}
    → Wrote m pos cs m'
    → Wrote m' (pos + length cs) bs m''
    → Wrote m pos (cs ++ bs) m''
Wrote-trans {m} {pos} {cs} {bs} g h = record {
  inside = omega (arith, length-append cs bs, h.inside);
  prefix =
      let e : pos + length (cs ++ bs) ≡ pos + length cs + length bs =
        omega (arith, length-append cs bs) in
      rw e (h.prefix ∙ ap (λ l. l ++ bs) g.prefix ∙ append_assoc (take pos m.bytes) cs bs);
  same_place = h.same_place ∙ g.same_place;
  no_smaller = omega (arith, g.no_smaller, h.no_smaller);
}

-- Either the allocator never moves the block, or there is room up to `need`: then no pointer dangles.
abbrev pub Stays : Bool → Memory → ℕ → Type 0
Stays moving m need = (moving ≡ false) ⊎ (need < length m.bytes)

pub grow_size_total :
    (fuel need size : ℕ)
    → 2 ≤ size
    → size ≤ need
    → need < size + fuel
    → (r : ℕ) × (grow_size fuel need size ≡ some r) × (need < r) × (size ≤ r)
unfolding grow_size
grow_size_total zero need size two le h = absurd (omega arith)
grow_size_total (suc fuel) need size two small_now h = elim (Bool-cases (leb (size * 3 / 2) need)) [
  | inl small ↦
      let (r, run, lt, le) =
        grow_size_total fuel need (size * 3 / 2) (omega arith) (ground arith) (omega arith) in
      (r, rw small run, lt, omega arith)
  | inr big ↦ (size * 3 / 2, rw big, ground arith, omega arith)
]

-- The room that `REALLOC` makes.
record Room (moving : Bool) (m : Memory) (need : ℕ) : Type 0 where
  grown : Memory
  runs : realloc moving m.moves m need ≡ some (m.moves, grown)
  same_place : grown.moves ≡ m.moves
  inside : need < length grown.bytes
  keeps : (k : ℕ) → k ≤ length m.bytes → take k grown.bytes ≡ take k m.bytes
  no_smaller : length m.bytes ≤ length grown.bytes

module _ {moving : Bool} {m : Memory} where
  makes-Room : (need : ℕ) → 2 ≤ length m.bytes → Stays moving m need → Room moving m need
  unfolding realloc resize
  makes-Room need two stays = elim (Bool-cases (leb (length m.bytes) need)) [
    | inr fits ↦ record {
      grown = m;
      runs = rw fits;
      same_place = refl;
      inside = ground arith;
      keeps = λ k h. refl;
      no_smaller = omega arith;
    }
    | inl small ↦
        let (size, run, lt, le) =
          grow_size_total (need + 1) need (length m.bytes) two (ground arith) (omega arith) in
        let same : (moving ≡ false) = ground arith in
        let place : (resize moving m size).moves ≡ m.moves = ground arith in
        let long : length (resize moving m size).bytes ≡ length m.bytes + (size - length m.bytes) =
          length-append m.bytes _ ∙ rw length-replicate in
        record {
          grown = resize moving m size;
          runs =
              rw small (rw (==_refl m.moves, run) (ap (λ k. some (k, resize moving m size)) place));
          same_place = place;
          inside = omega arith;
          keeps = λ k h. take-append k m.bytes _ h;
          no_smaller = omega arith;
        }
  ]

pub emit-Wrote :
    (moving : Bool) (m : Memory) (pos room : ℕ) (bs : List ℕ) (n : ℕ)
    → 2 ≤ length m.bytes
    → pos ≤ length m.bytes
    → Stays moving m (pos + room)
    → length bs ≤ room + 1
    → n ≤ length bs
    → n ≤ room
    → (m' : Memory) × (emit moving m.moves m pos room bs ≡ some (m.moves, m'))
      × Wrote m pos (take n bs) m'
unfolding emit write
emit-Wrote moving m pos room bs n two at stays fit le few =
    let r = makes-Room {moving = moving} {m = m} (pos + room) two stays in
    let g = r.grown in
    let same : (m.moves == g.moves) ≡ true = ground (arith, r.same_place) in
    let inside : leb (pos + length bs) (length g.bytes) ≡ true = ground (arith, r.inside) in
    let m' = record g { bytes = overwrite g.bytes pos bs } in
    let long = length-overwrite g.bytes pos bs (omega (arith, r.inside)) in
    let short : length (take n bs) ≡ n = length-take n bs ∙ omega arith in
    (
      m',
      rw r.runs (rw (same, inside)),
      record {
        inside = omega (arith, r.inside);
        prefix = rw short (
            take-overwrite g.bytes pos bs n (omega (arith, r.inside)) le
            ∙ ap (λ l. l ++ take n bs) (r.keeps pos at));
        same_place = r.same_place;
        no_smaller = omega (arith, r.no_smaller);
      },
    )
