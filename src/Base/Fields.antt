-- ===== src/Base/Fields.antt =====
-- Bytes joined by `|` are the digits of a sum.
use Prim.Native.Nat.{ℕ, ◌+◌, ◌*◌, ◌^◌, ◌<◌, bit_or}
use mathlib.Core.Path.{◌≡◌}
use native.Mathlib.Omega.{arith}
use filsys.Base.Words.{◌<<◌, bit_or_fields, bit_or_above}

module _ (a b : ℕ) (ha : a < 256) (hb : b < 256) where
  pub or_low : bit_or a (b << 8) ≡ a + b * 256
  or_low = bit_or_fields 8 a b (omega arith)

  pub or_high : bit_or (a << 8) b ≡ a * 256 + b
  or_high = bit_or_above 8 b a (omega arith)

module _ (a b c : ℕ) (ha : a < 256) (hb : b < 256) where
  pub or_low_three : bit_or (bit_or a (b << 8)) (c << 16) ≡ a + b * 256 + c * 65536
  or_low_three = rw (or_low a b ha hb) (bit_or_fields 16 (a + b * 256) c (omega arith))

  pub or_low_four :
      (d : ℕ)
      → c < 256
      → bit_or (bit_or (bit_or a (b << 8)) (c << 16)) (d << 24)
        ≡ a + b * 256 + c * 65536 + d * 16777216
  or_low_four d hc = rw or_low_three (bit_or_fields 24 (a + b * 256 + c * 65536) d (omega arith))

-- With the high byte first, each sum so far is shifted as a whole.
module _ (a b c : ℕ) (hb : b < 256) (hc : c < 256) where
  pub or_high_three : bit_or (bit_or (a << 16) (b << 8)) c ≡ a * 65536 + b * 256 + c
  or_high_three =
      let e : bit_or (a << 16) (b << 8) ≡ (a * 256 + b) * 2 ^ 8 =
        omega (arith, bit_or_above 16 (b << 8) a) in
      rw e (omega (arith, bit_or_above 8 c (a * 256 + b)))

  pub or_high_four :
      (d : ℕ)
      → d < 256
      → bit_or (bit_or (bit_or (a << 24) (b << 16)) (c << 8)) d
        ≡ a * 16777216 + b * 65536 + c * 256 + d
  or_high_four d hd =
      let e : bit_or (a << 24) (b << 16) ≡ (a * 256 + b) * 2 ^ 16 =
        omega (arith, bit_or_above 24 (b << 16) a) in
      let f : bit_or ((a * 256 + b) * 2 ^ 16) (c << 8) ≡ (a * 65536 + b * 256 + c) * 2 ^ 8 =
        omega (arith, bit_or_above 16 (c << 8) (a * 256 + b)) in
      rw e (rw f (omega (arith, bit_or_above 8 d (a * 65536 + b * 256 + c))))
