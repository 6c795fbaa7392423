-- ===== src/Base/Bits.antt =====
-- The operators `&` and `|` of C on unsigned numbers: masks, shifted masks, and disjoint parts.
use Prim.Native.Nat.{
  ℕ, zero, suc, ◌+◌, ◌-◌, ◌*◌, ◌/◌, ◌%◌, ◌^◌, ◌≤◌, ◌<◌, digits, min, max, bit_and, bit_or,
  bit_and-bitwise, bit_or-bitwise,
}
use mathlib.Core.Path.{◌≡◌, refl, sym, ap, ◌∙◌}
use mathlib.Core.Logic.{inl, inr}
use native.Mathlib.Nat.{pow-suc, div-div-eq-div-mul}
use native.Mathlib.Omega.{arith}
use jml.Base.Checks.{eq_or_ne}

module _ (z : ℕ → ℕ) (f : ℕ → ℕ → ℕ) where
  one_more_round : (n x y : ℕ) → x ≤ n → digits z f (suc n) x y ≡ digits z f n x y
  one_more_round zero zero y h = refl
  one_more_round zero (suc x) y h = absurd (omega arith)
  one_more_round (suc n) zero y h = refl
  one_more_round (suc n) (suc x) y h =
      ap (λ k. k * 2 + f (suc x % 2) (y % 2)) (one_more_round n (suc x / 2) (y / 2) (omega arith))

  enough_rounds : (n x y : ℕ) → x ≤ n → digits z f n x y ≡ digits z f x x y
  enough_rounds zero zero y h = refl
  enough_rounds zero (suc x) y h = absurd (omega arith)
  enough_rounds (suc n) x y h = elim (eq_or_ne x (suc n)) [
    | inl e ↦ ap (λ k. digits z f k x y) (sym e)
    | inr less ↦ let le : x ≤ n = omega arith in one_more_round n x y le ∙ enough_rounds n x y le
  ]

  -- the lowest digit apart from the others
  halved :
      (x y : ℕ)
      → digits z f (suc x) (suc x) y
        ≡ digits z f (suc x / 2) (suc x / 2) (y / 2) * 2 + f (suc x % 2) (y % 2)
  halved x y =
      ap (λ k. k * 2 + f (suc x % 2) (y % 2)) (enough_rounds x (suc x / 2) (y / 2) (omega arith))

and_halved : (x y : ℕ) → bit_and x y ≡ bit_and (x / 2) (y / 2) * 2 + min (x % 2) (y % 2)
and_halved zero y =
    let none_left : bit_and 0 (y / 2) ≡ 0 = bit_and-bitwise 0 (y / 2) in
    bit_and-bitwise 0 y ∙ omega (arith, none_left)
and_halved (suc x) y =
    bit_and-bitwise (suc x) y
    ∙ halved (λ b. zero) min x y
    ∙ ap (λ k. k * 2 + min (suc x % 2) (y % 2)) (sym (bit_and-bitwise (suc x / 2) (y / 2)))

or_halved : (x y : ℕ) → bit_or x y ≡ bit_or (x / 2) (y / 2) * 2 + max (x % 2) (y % 2)
or_halved zero y =
    let all_left : bit_or 0 (y / 2) ≡ y / 2 = bit_or-bitwise 0 (y / 2) in
    bit_or-bitwise 0 y ∙ omega (arith, all_left)
or_halved (suc x) y =
    bit_or-bitwise (suc x) y
    ∙ halved (λ b. b) max x y
    ∙ ap (λ k. k * 2 + max (suc x % 2) (y % 2)) (sym (bit_or-bitwise (suc x / 2) (y / 2)))

and_nothing : (bound x : ℕ) → x ≤ bound → bit_and x 0 ≡ 0
and_nothing bound zero h = refl
and_nothing zero (suc x) h = absurd (omega arith)
and_nothing (suc bound) (suc x) h =
    omega (arith, and_halved (suc x) 0, and_nothing bound (suc x / 2) (omega arith))

or_nothing : (bound x : ℕ) → x ≤ bound → bit_or x 0 ≡ x
or_nothing bound zero h = bit_or-bitwise 0 0
or_nothing zero (suc x) h = absurd (omega arith)
or_nothing (suc bound) (suc x) h =
    omega (arith, or_halved (suc x) 0, or_nothing bound (suc x / 2) (omega arith))

pub power_positive : (p : ℕ) → 0 < 2 ^ p
power_positive zero = omega arith
power_positive (suc p) = omega (arith, pow-suc 2 p, power_positive p)

double_remainder : (x q : ℕ) → 0 < q → x % (q * 2) ≡ x / 2 % q * 2 + x % 2
double_remainder x q h = grind arith

mul_twice : (a b : ℕ) → a * 2 * b ≡ a * (b * 2)
mul_twice a b = grind arith

-- A mask of `p` ones keeps the remainder.
pub bit_and-mask : (p x : ℕ) → bit_and x (2 ^ p - 1) ≡ x % 2 ^ p
bit_and-mask zero x = omega (arith, and_nothing x x (omega arith))
bit_and-mask (suc p) x =
    let some_ones = power_positive p in
    let others : (2 ^ p * 2 - 1) / 2 ≡ 2 ^ p - 1 = omega arith in
    let lowest = rw others at (and_halved x (2 ^ p * 2 - 1)) in
    rw (pow-suc 2 p)
      (omega (arith, lowest, bit_and-mask p (x / 2), double_remainder x (2 ^ p) some_ones))

-- A mask moved by `k` digits keeps those digits of what is moved.
pub bit_and-moved : (k x mask : ℕ) → bit_and x (mask * 2 ^ k) ≡ bit_and (x / 2 ^ k) mask * 2 ^ k
bit_and-moved zero x mask =
    let unmoved : mask * 1 ≡ mask = omega arith in
    let whole : x / 1 ≡ x = omega arith in rw (unmoved, whole) (omega arith)
bit_and-moved (suc k) x mask =
    let wider : mask * (2 ^ k * 2) ≡ mask * 2 * 2 ^ k = grind arith in
    let back : mask * 2 / 2 ≡ mask = omega arith in
    let lowest = rw back at (and_halved (x / 2 ^ k) (mask * 2)) in
    let rest : bit_and (x / 2 ^ k) (mask * 2) ≡ bit_and (x / 2 ^ k / 2) mask * 2 =
      omega (arith, lowest) in
    rw
      (pow-suc 2 k, wider, sym (div-div-eq-div-mul x (2 ^ k) 2), bit_and-moved k x (mask * 2), rest)
      (mul_twice (bit_and (x / 2 ^ k / 2) mask) (2 ^ k))

-- Parts without a common digit add up.
pub bit_or-disjoint : (k x y : ℕ) → x < 2 ^ k → bit_or x (y * 2 ^ k) ≡ x + y * 2 ^ k
bit_or-disjoint zero x y h =
    let nothing : x ≡ 0 = omega arith in rw nothing (bit_or-bitwise 0 (y * 1) ∙ omega arith)
bit_or-disjoint (suc k) x y h =
    let above : y * (2 ^ k * 2) ≡ y * 2 ^ k * 2 = grind arith in
    let back : y * 2 ^ k * 2 / 2 ≡ y * 2 ^ k = omega arith in
    let lowest = rw back at (or_halved x (y * 2 ^ k * 2)) in
    let rest = bit_or-disjoint k (x / 2) y (omega (arith, pow-suc 2 k)) in
    rw (pow-suc 2 k, above) (omega (arith, lowest, rest))

pub bit_or-disjoint_above : (k x y : ℕ) → x < 2 ^ k → bit_or (y * 2 ^ k) x ≡ y * 2 ^ k + x
bit_or-disjoint_above zero x y h =
    let nothing : x ≡ 0 = omega arith in
    let unmoved : y * 1 ≡ y = omega arith in
    rw (nothing, unmoved) (or_nothing y y (omega arith) ∙ omega arith)
bit_or-disjoint_above (suc k) x y h =
    let above : y * (2 ^ k * 2) ≡ y * 2 ^ k * 2 = grind arith in
    let back : y * 2 ^ k * 2 / 2 ≡ y * 2 ^ k = omega arith in
    let lowest = rw back at (or_halved (y * 2 ^ k * 2) x) in
    let rest = bit_or-disjoint_above k (x / 2) y (omega (arith, pow-suc 2 k)) in
    rw (pow-suc 2 k, above) (omega (arith, lowest, rest))
