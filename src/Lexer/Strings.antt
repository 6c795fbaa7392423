-- ===== src/Lexer/Strings.antt =====
-- `jml_string_literal` passes over its text, and stops behind the closing delimiter.
use jml.Base.{
  ℕ, zero, suc, ◌≡◌, ◌≢◌, refl, Bool, true, false, not, ◌&&◌, List, [], ◌∷◌, deref, plus_ptr, ◌==◌,
  if_lem, u32, ◌+◌, arith,
}
use mathlib.Core.Path.{subst}
use jml.Lexer.Token.{Token}
use jml.Lexer.State.{Lexer, peek, peek_next}
use jml.Lexer.Literal.{StringEnd, string_loop, string_rest, string_literal}
use jml.Lexer.Passes.{Passes, Passes-none, Passes-one, Passes-newline, Passes-trans}
use jml.Lexer.Moves.{Moves, Moves-trans, Forward}

-- the closing delimiter stands at `q`
pub record Closes (d : ℕ) (wide : Bool) (q : List ℕ) : Type 0 where
  pub first : deref q ≡ d
  pub second : wide ≡ true → deref (plus_ptr q 1) ≡ d
  pub third : wide ≡ true → deref (plus_ptr q 2) ≡ d

plus_ptr-one : (p : List ℕ) (n : ℕ) → plus_ptr (plus_ptr p 1) n ≡ plus_ptr p (suc n)
plus_ptr-one [] zero = refl
plus_ptr-one [] (suc n) = refl
plus_ptr-one (c ∷ cs) n = refl

plus_ptr_add : (p : List ℕ) (n : ℕ) → plus_ptr (plus_ptr p n) 1 ≡ plus_ptr p (suc n)
plus_ptr_add [] zero = refl
plus_ptr_add [] (suc n) = refl
plus_ptr_add (c ∷ cs) zero = refl
plus_ptr_add (c ∷ cs) (suc n) = plus_ptr_add cs n

Moves-to :
    (l : Lexer) {line : ℕ} (q : List ℕ)
    → Passes l.current l.line q line
    → Moves l (record l { current = q; line = line })
Moves-to l q h = record { passes = h; same_source = refl; same_eof = refl }

module _ (d : ℕ) (nul : d ≢ 0) (line : d ≢ b'\n') where
  record Ends (wide : Bool) (p : List ℕ) (m : ℕ) (r : StringEnd) : Type 0 where
    passes : Passes p m r.current r.line
    closes : r.closed ≡ true → Closes d wide r.current

  Ends-one :
      (wide : Bool) (c : ℕ) {cs : List ℕ} {m : ℕ} {r : StringEnd}
      → c ≢ 0
      → c ≢ b'\n'
      → Ends wide cs m r
      → Ends wide (c ∷ cs) m r
  Ends-one wide c z l h = record { passes = Passes-one c z l h.passes; closes = h.closes }

  Ends-newline :
      (wide : Bool) (c : ℕ) {cs : List ℕ} {m : ℕ} {r : StringEnd}
      → c ≡ b'\n'
      → Ends wide cs (u32 (m + 1)) r
      → Ends wide (c ∷ cs) m r
  Ends-newline wide c l h = record { passes = Passes-newline c l h.passes; closes = h.closes }

  Ends-break :
      (wide : Bool) {p : List ℕ} (m : ℕ)
      → Closes d wide p
      → Ends wide p m (record { closed = true; current = p; line = m })
  Ends-break wide {p} m k = record { passes = Passes-none p m; closes = λ _. k }

  string_loop-Ends :
      (wide escaped : Bool) (p : List ℕ) (m : ℕ)
      → (escaped ≡ true → deref p ≡ d)
      → Ends wide p m (string_loop d wide escaped p m)
  unfolding string_loop
  string_loop-Ends wide escaped [] m at = record { passes = Passes-none [] m; closes = λ e. cc }
  string_loop-Ends wide escaped (c ∷ cs) m at =
      let P : StringEnd → Type 0 = Ends wide (c ∷ cs) m in
      let go_on = λ (z : c ≢ 0) (l : c ≢ b'\n').
        Ends-one wide c z l (string_loop-Ends wide false cs m (λ e. cc)) in
      if_lem P escaped (λ e. go_on (omega (arith, at e)) (omega (arith, at e)))
        λ _.
          if_lem P (c == 0) (λ _. record { passes = Passes-none (c ∷ cs) m; closes = λ e. cc })
            λ z.
              if_lem P (c == d)
                (λ e.
                  if_lem P (not wide)
                    (λ w. Ends-break wide m (record {
                      first = ground arith;
                      second = ground arith;
                      third = ground arith;
                    }))
                    λ w.
                      if_lem P (deref cs == d && deref (plus_ptr cs 1) == d)
                        (λ t. Ends-break wide m (record {
                          first = ground arith;
                          second = ground arith;
                          third = ground (arith, plus_ptr-one (c ∷ cs) 1);
                        }))
                        λ _. go_on (ground arith) (ground arith))
                λ n.
                  if_lem P (c == b'\n')
                    (λ l.
                      Ends-newline wide c (ground arith)
                        (string_loop-Ends wide false cs (u32 (m + 1)) (λ e. cc)))
                    λ l.
                      if_lem P (c == b'\\' && deref cs == d)
                        (λ e.
                          Ends-one wide c (ground arith) (ground arith)
                            (string_loop-Ends wide true cs m (λ _. ground arith)))
                        λ _. go_on (ground arith) (ground arith)

  Passes-delimiter :
      {p q : List ℕ} {m n : ℕ} → Passes p m q n → deref q ≡ d → Passes p m (plus_ptr q 1) n
  Passes-delimiter {q = q} {n = n} h e = Passes-trans h (go q e)
    where
      go : (q : List ℕ) → deref q ≡ d → Passes q n (plus_ptr q 1) n
      go [] e = absurd (nul (omega arith))
      go (c ∷ cs) e = Passes-one c (omega arith) (omega arith) (Passes-none cs n)

  -- `lexer->current += 2` and `+= 3` over delimiters
  Passes-two :
      (q : List ℕ) {n : ℕ} → deref q ≡ d → deref (plus_ptr q 1) ≡ d → Passes q n (plus_ptr q 2) n
  Passes-two q {n} e f =
      rw (plus_ptr-one q 1) at (Passes-delimiter (Passes-delimiter (Passes-none q n) e) f)

  Passes-three : (q : List ℕ) {n : ℕ} → Closes d true q → Passes q n (plus_ptr q 3) n
  Passes-three q {n} k =
      rw (plus_ptr_add q 2) at
        (Passes-delimiter {m = n} (Passes-two q k.first (k.second refl)) (k.third refl))

  string_rest-Moves : (wide : Bool) (l : Lexer) → Moves l (string_rest d wide l).1
  unfolding string_rest
  string_rest-Moves wide l =
      let P : Token × Lexer → Type 0 = λ t. Moves l t.1 in
      let r = string_loop d wide false l.current l.line in
      let stop = string_loop-Ends wide false l.current l.line (λ e. cc) in
      let stopped = record l { current = r.current; line = r.line } in
      let to_stop = λ (q : List ℕ) (h : Passes r.current r.line q r.line).
        Moves-to l q (Passes-trans stop.passes h) in
      if_lem P (not r.closed) (λ _. to_stop r.current (Passes-none r.current r.line))
        λ c.
          if_lem P wide
            (λ w. to_stop _ (
              Passes-three r.current
                (subst (λ b. Closes d b r.current) w (stop.closes (ground arith)))))
            λ _.
              to_stop _
                (Passes-delimiter (Passes-none r.current r.line) (stop.closes (ground arith)).first)

  pub string_literal-Forward : Forward (string_literal d)
  unfolding string_literal
  string_literal-Forward = record {
    moves = λ l.
        let P : Token × Lexer → Type 0 = λ t. Moves l t.1 in
        if_lem P (peek l == d && peek_next l == d)
          (λ e.
            Moves-trans
              (Moves-to l (plus_ptr l.current 2)
                (Passes-two l.current (ground arith) (ground arith)))
              (string_rest-Moves true (record l { current = plus_ptr l.current 2 })))
          λ _. string_rest-Moves false l;
  }
