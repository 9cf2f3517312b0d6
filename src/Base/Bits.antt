-- ===== src/Base/Bits.antt =====
-- One bit of a byte: `1u << k`, `byte & m`, `byte |= m`, `byte &= ~m` and `(byte >> k) & 1`, and
-- their laws, by a table over all bytes.
use Prim.Native.Nat.{ℕ, zero, suc, ◌-◌, ◌%◌, ◌<◌, bit_and, bit_or, bit_and-bitwise}
use mathlib.Core.Path.{◌≡◌, refl, ap}
use mathlib.Core.Bool.{Bool, true, false, not, ◌&&◌}
use native.Mathlib.Decide.{ℕ_discrete}
use native.Mathlib.Omega.{arith}
use filsys.Base.Tests.{◌==◌, ltb, if◌then◌else◌}
use filsys.Base.Words.{◌<<◌, ◌>>◌}

-- `(uint8_t)(1u << k)` at `k < 8`
abbrev pub mask_of : ℕ → ℕ
mask_of k = 1 << k

-- `(byte & m) != 0`
unfoldable pub has_bit : ℕ → ℕ → Bool
has_bit x k = not (bit_and x (mask_of k) == 0)

-- `byte |= m`
unfoldable pub with_bit : ℕ → ℕ → ℕ
with_bit x k = bit_or x (mask_of k)

-- `byte &= (uint8_t)~m`
unfoldable pub without_bit : ℕ → ℕ → ℕ
without_bit x k = bit_and x (255 - mask_of k)

every : (ℕ → Bool) → ℕ → Bool
every p zero = true
every p (suc k) = if p k then every p k else false

every-at : (p : ℕ → Bool) (n : ℕ) → every p n ≡ true → (x : ℕ) → x < n → p x ≡ true
unfolding every
every-at p zero e x below = absurd (omega arith)
every-at p (suc k) e x below = elim (ℕ_discrete x k) [
  | yes same ↦ ground (arith, ap p same)
  | no other ↦ every-at p k (ground arith) x (omega arith)
]

pub has_bit_zero : (k : ℕ) → has_bit 0 k ≡ false
unfolding has_bit
has_bit_zero k = ground (arith, bit_and-bitwise 0 (mask_of k))

abbrev bool_eq : Bool → Bool → Bool
bool_eq true b = b
bool_eq false b = not b

abbrev bits_hold : ℕ → ℕ → ℕ → Bool
bits_hold x k j =
    (bool_eq (has_bit (with_bit x k) j) (if j == k then true else has_bit x j)
      && bool_eq (has_bit (without_bit x k) j) (if j == k then false else has_bit x j))
    && (ltb (with_bit x k) 256 && ltb (without_bit x k) 256)
    && bool_eq (has_bit x k) (x >> k % 2 == 1)

bits_table : every (λ x. every (λ k. every (λ j. bits_hold x k j) 8) 8) 256 ≡ true
unfolding every has_bit with_bit without_bit
bits_table = refl

bits_hold_at : (x k j : ℕ) → x < 256 → k < 8 → j < 8 → bits_hold x k j ≡ true
bits_hold_at x k j hx hk hj = every-at _ 8 (every-at _ 8 (every-at _ 256 bits_table x hx) k hk) j hj

module _ (x k j : ℕ) (hx : x < 256) (hk : k < 8) (hj : j < 8) where
  pub has_bit-with_bit : has_bit (with_bit x k) j ≡ (if j == k then true else has_bit x j)
  has_bit-with_bit = ground (arith, bits_hold_at x k j hx hk hj)

  pub has_bit-without_bit : has_bit (without_bit x k) j ≡ (if j == k then false else has_bit x j)
  has_bit-without_bit = ground (arith, bits_hold_at x k j hx hk hj)

module _ (x k : ℕ) (hx : x < 256) (hk : k < 8) where
  pub with_bit-lt : with_bit x k < 256
  with_bit-lt = ground (arith, bits_hold_at x k k hx hk hk)

  pub without_bit-lt : without_bit x k < 256
  without_bit-lt = ground (arith, bits_hold_at x k k hx hk hk)
