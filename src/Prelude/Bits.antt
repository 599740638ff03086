-- ===== src/Prelude/Bits.antt =====
-- `|` and `&` of Go's unsigned words on fields that do not overlap, as sums and remainders.
use Prim.Native.Nat.{
  ℕ, zero, suc, ◌+◌, ◌-◌, ◌*◌, ◌/◌, ◌%◌, ◌^◌, ◌≤◌, ◌<◌, min, max, bit_and, bit_or, digits,
  bit_and-bitwise, bit_or-bitwise,
}
use mathlib.Core.Path.{◌≡◌, refl, ap}
use mathlib.Core.WellFounded
use native.Mathlib.Nat.{pow-suc, one-le-pow, mul-one}
use native.Mathlib.Omega.{arith}
use arana.Prelude.Order.{lt_wf}

-- The native operations run on fuel; any two amounts that suffice agree.
digits_any :
    (z : ℕ → ℕ) (f : ℕ → ℕ → ℕ) (n m a b : ℕ) → a ≤ n → a ≤ m → digits z f n a b ≡ digits z f m a b
digits_any z f zero zero a b p q = refl
digits_any z f zero (suc m) zero b p q = refl
digits_any z f zero (suc m) (suc a) b p q = absurd (omega arith)
digits_any z f (suc n) zero zero b p q = refl
digits_any z f (suc n) zero (suc a) b p q = absurd (omega arith)
digits_any z f (suc n) (suc m) zero b p q = refl
digits_any z f (suc n) (suc m) (suc a) b p q =
    ap (λ (t : ℕ). t * 2 + f (suc a % 2) (b % 2))
      (digits_any z f n m (suc a / 2) (b / 2) (omega arith) (omega arith))

or_digit : (a b : ℕ) → bit_or a b ≡ bit_or (a / 2) (b / 2) * 2 + max (a % 2) (b % 2)
or_digit zero b = simp bit_or-bitwise (omega arith)
or_digit (suc a) b = simp bit_or-bitwise (
    omega (
      arith,
      digits_any (λ y. y) max a (suc a / 2) (suc a / 2) (b / 2) (omega arith) (omega arith),
    ))

and_digit : (a b : ℕ) → bit_and a b ≡ bit_and (a / 2) (b / 2) * 2 + min (a % 2) (b % 2)
and_digit zero b = simp bit_and-bitwise (omega arith)
and_digit (suc a) b = simp bit_and-bitwise (
    omega (
      arith,
      digits_any (λ y. 0) min a (suc a / 2) (suc a / 2) (b / 2) (omega arith) (omega arith),
    ))

zero-bit_or : (b : ℕ) → bit_or 0 b ≡ b
zero-bit_or b = simp bit_or-bitwise

bit_or-zero : (a : ℕ) → bit_or a 0 ≡ a
bit_or-zero a = WellFounded.induction lt_wf {C = λ n. bit_or n 0 ≡ n} a λ n ih. go n ih
  where
    go : (n : ℕ) → ((m : ℕ) → m < n → bit_or m 0 ≡ m) → bit_or n 0 ≡ n
    go zero ih = zero-bit_or 0
    go (suc n) ih = omega (arith, or_digit (suc n) 0, ih (suc n / 2) (omega arith))

bit_and-zero : (a : ℕ) → bit_and a 0 ≡ 0
bit_and-zero a = WellFounded.induction lt_wf {C = λ n. bit_and n 0 ≡ 0} a λ n ih. go n ih
  where
    go : (n : ℕ) → ((m : ℕ) → m < n → bit_and m 0 ≡ 0) → bit_and n 0 ≡ 0
    go zero ih = simp bit_and-bitwise
    go (suc n) ih = omega (arith, and_digit (suc n) 0, ih (suc n / 2) (omega arith))

double : (q k : ℕ) → q * 2 ^ suc k ≡ 2 * (q * 2 ^ k)
double q k = omega (arith, ap (λ (t : ℕ). q * t) (pow-suc 2 k))

-- (q << k) | r, where r has at most k bits.
pub bit_or-high_low : (k q r : ℕ) → r < 2 ^ k → bit_or (q * 2 ^ k) r ≡ q * 2 ^ k + r
bit_or-high_low zero q r h = ground (arith, bit_or-zero q)
bit_or-high_low (suc k) q r h = ground (
  arith,
  or_digit (q * 2 ^ suc k) r,
  double q k,
  pow-suc 2 k,
  bit_or-high_low k q (r / 2) (omega (arith, pow-suc 2 k)),
)

-- r | (q << k), where r has at most k bits.
pub bit_or-low_high : (k r q : ℕ) → r < 2 ^ k → bit_or r (q * 2 ^ k) ≡ r + q * 2 ^ k
bit_or-low_high zero r q h = ground (arith, zero-bit_or q)
bit_or-low_high (suc k) r q h = ground (
  arith,
  or_digit r (q * 2 ^ suc k),
  double q k,
  pow-suc 2 k,
  bit_or-low_high k (r / 2) q (omega (arith, pow-suc 2 k)),
)

and_mask : (k q r : ℕ) → r < 2 ^ k → bit_and (q * 2 ^ k + r) (2 ^ k - 1) ≡ r
and_mask zero q r h = ground (arith, bit_and-zero (q * 1 + r))
and_mask (suc k) q r h = ground (
  arith,
  and_digit (q * 2 ^ suc k + r) (2 ^ suc k - 1),
  double q k,
  pow-suc 2 k,
  one-le-pow k 2,
  and_mask k q (r / 2) (omega (arith, pow-suc 2 k)),
)

-- a & (1 << k - 1)
pub bit_and-mask : (k a : ℕ) → bit_and a (2 ^ k - 1) ≡ a % 2 ^ k
bit_and-mask k a = ground (arith, one-le-pow k 2, and_mask k (a / 2 ^ k) (a % 2 ^ k))

-- Both operands shifted.
pub bit_or-scale : (k a b : ℕ) → bit_or (a * 2 ^ k) (b * 2 ^ k) ≡ bit_or a b * 2 ^ k
bit_or-scale zero a b = rw (mul-one a, mul-one b, mul-one (bit_or a b))
bit_or-scale (suc k) a b = ground (
  arith,
  or_digit (a * 2 ^ suc k) (b * 2 ^ suc k),
  double a k,
  double b k,
  double (bit_or a b) k,
  bit_or-scale k a b,
)

-- The lowest bit set
pub bit_or-one : (a : ℕ) → bit_or a 1 ≡ a / 2 * 2 + 1
bit_or-one a = omega (arith, or_digit a 1, bit_or-zero (a / 2))
