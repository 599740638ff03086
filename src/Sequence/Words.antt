-- ===== src/Sequence/Words.antt =====
-- The int64 of pkg/sequence/group/group.go as its 64-bit pattern, with Go's arithmetic on it.
use arana.Prelude.{ℕ, ◌+◌, ◌-◌, ◌*◌, ◌/◌, ◌%◌, ◌^◌, ◌≤◌, ◌<◌, ◌≡◌, arith, Bool, leb, if◌then◌else◌}

unfoldable pub add64 : ℕ → ℕ → ℕ
add64 a b = (a + b) % 2 ^ 64

unfoldable pub sub64 : ℕ → ℕ → ℕ
sub64 a b = (a + 2 ^ 64 - b) % 2 ^ 64

unfoldable pub mul64 : ℕ → ℕ → ℕ
mul64 a b = a * b % 2 ^ 64

unfoldable pub is_negative : ℕ → Bool
is_negative a = leb (2 ^ 63) a

unfoldable pub magnitude : ℕ → ℕ
unfolding is_negative
magnitude a = if is_negative a then 2 ^ 64 - a else a

-- a / b, which truncates toward zero
unfoldable pub div64 : ℕ → ℕ → ℕ
unfolding is_negative magnitude sub64
div64 a b =
    let q = magnitude a / magnitude b in
    if is_negative a
    then (if is_negative b then q else sub64 0 q)
    else (if is_negative b then sub64 0 q else q)

-- a <= b: the order of the patterns, with the half of the negative ones put first
unfoldable pub le64 : ℕ → ℕ → Bool
le64 a b = leb (add64 a (2 ^ 63)) (add64 b (2 ^ 63))

-- Where the numbers are not negative and the result fits, it is that of the naturals.
pub add64-small : (a b : ℕ) → a + b < 2 ^ 63 → add64 a b ≡ a + b
unfolding add64
add64-small a b h = omega arith

pub sub64-small : (a b : ℕ) → b ≤ a → a < 2 ^ 63 → sub64 a b ≡ a - b
unfolding sub64
sub64-small a b h small = omega arith

pub mul64-small : (a b : ℕ) → a * b < 2 ^ 63 → mul64 a b ≡ a * b
unfolding mul64
mul64-small a b h = omega arith

pub div64-small : (a b : ℕ) → a < 2 ^ 63 → b < 2 ^ 63 → div64 a b ≡ a / b
unfolding div64 is_negative magnitude
div64-small a b h g = ground arith

pub le64-small : (a b : ℕ) → a < 2 ^ 63 → b < 2 ^ 63 → le64 a b ≡ leb a b
unfolding le64 add64
le64-small a b h g = ground arith
