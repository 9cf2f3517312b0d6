-- ===== src/Base/Words.antt =====
-- Casts to the fixed widths of C, shifts, and `|` of disjoint fields as a sum.
use Prim.Native.Nat.{ℕ, zero, suc, ◌+◌, ◌-◌, ◌*◌, ◌/◌, ◌%◌, ◌^◌, ◌≤◌, ◌<◌, max, bit_or}
use Prim.Native.Nat.{digits, bit_or-bitwise}
use mathlib.Core.Path.{◌≡◌, ◌∙◌, refl, ap}
use native.Mathlib.Nat.{pow-suc, le_refl}
use native.Mathlib.Omega.{arith}

abbrev pub u8 : ℕ → ℕ
u8 n = n % 2 ^ 8

abbrev pub u16 : ℕ → ℕ
u16 n = n % 2 ^ 16

abbrev pub u32 : ℕ → ℕ
u32 n = n % 2 ^ 32

abbrev pub u64 : ℕ → ℕ
u64 n = n % 2 ^ 64

infixl 75 ◌<<◌ ◌>>◌
abbrev pub ◌<<◌ : ℕ → ℕ → ℕ
x << k = x * 2 ^ k

abbrev pub ◌>>◌ : ℕ → ℕ → ℕ
x >> k = x / 2 ^ k

-- `x & (2^k - 1)`
abbrev pub low_bits : ℕ → ℕ → ℕ
low_bits x k = x % 2 ^ k

-- The native `|` means a recursion on binary digits with fuel, which one unit more leaves as it is.
or_one_more : (n a b : ℕ) → a ≤ n → digits (λ y. y) max (suc n) a b ≡ digits (λ y. y) max n a b
or_one_more zero zero b le = refl
or_one_more zero (suc a) b le = absurd (omega arith)
or_one_more (suc n) zero b le = refl
or_one_more (suc n) (suc a) b le = rw (or_one_more n (suc a / 2) (b / 2) (omega arith))

or_enough : (k n a b : ℕ) → n ≡ a + k → digits (λ y. y) max n a b ≡ digits (λ y. y) max a a b
or_enough zero n a b e = ap (λ (m : ℕ). digits (λ y. y) max m a b) (omega arith)
or_enough (suc k) zero a b e = absurd (omega arith)
or_enough (suc k) (suc n) a b e = or_one_more n a b (omega arith) ∙ or_enough k n a b (omega arith)

-- The lowest digit, and the rest.
pub bit_or_lowest : (a b : ℕ) → bit_or a b ≡ max (a % 2) (b % 2) + 2 * bit_or (a / 2) (b / 2)
bit_or_lowest zero b = rw (bit_or-bitwise 0 b) (rw (bit_or-bitwise 0 (b / 2)) (omega arith))
bit_or_lowest (suc a) b =
    let half : ℕ = suc a / 2 in
    let enough = or_enough (a - half) a half (b / 2) (omega arith) in
    rw (bit_or-bitwise (suc a) b) (rw (bit_or-bitwise half (b / 2)) (omega (arith, enough)))

zero-bit_or : (b : ℕ) → bit_or 0 b ≡ b
zero-bit_or b = bit_or-bitwise 0 b

bit_or-zero_bounded : (n a : ℕ) → a ≤ n → bit_or a 0 ≡ a
bit_or-zero_bounded n zero h = zero-bit_or 0
bit_or-zero_bounded zero (suc a) h = absurd (omega arith)
bit_or-zero_bounded (suc n) (suc a) h =
    omega (arith, bit_or_lowest (suc a) 0, bit_or-zero_bounded n (suc a / 2) (omega arith))

pub bit_or-zero : (a : ℕ) → bit_or a 0 ≡ a
bit_or-zero a = bit_or-zero_bounded a a (le_refl a)

-- `lo | (hi << k)` is a sum when `lo` fits `k` bits.
pub bit_or_fields : (k lo hi : ℕ) → lo < 2 ^ k → bit_or lo (hi << k) ≡ lo + hi * 2 ^ k
bit_or_fields zero zero hi h = omega (arith, zero-bit_or (hi * 2 ^ 0))
bit_or_fields zero (suc lo) hi h = absurd (omega arith)
bit_or_fields (suc k) lo hi h =
    let e : hi * 2 ^ suc k ≡ 2 * (hi * 2 ^ k) =
      omega (arith, ap (λ (t : ℕ). hi * t) (pow-suc 2 k)) in
    ground (arith, bit_or_lowest lo (hi * 2 ^ suc k), e, pow-suc 2 k, bit_or_fields k (lo / 2) hi)

-- The same with the field on the left.
pub bit_or_above : (k lo hi : ℕ) → lo < 2 ^ k → bit_or (hi << k) lo ≡ hi * 2 ^ k + lo
bit_or_above zero zero hi h = omega (arith, bit_or-zero (hi * 2 ^ 0))
bit_or_above zero (suc lo) hi h = absurd (omega arith)
bit_or_above (suc k) lo hi h =
    let e : hi * 2 ^ suc k ≡ 2 * (hi * 2 ^ k) =
      omega (arith, ap (λ (t : ℕ). hi * t) (pow-suc 2 k)) in
    ground (arith, bit_or_lowest (hi * 2 ^ suc k) lo, e, pow-suc 2 k, bit_or_above k (lo / 2) hi)
