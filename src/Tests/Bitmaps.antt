-- ===== src/Tests/Bitmaps.antt =====
-- The bitmap allocator at a small volume: blocks 6, 7 and 9 of 20 are free.
use filsys.Base.{ℕ, zero, suc, true, false, ◌≡◌, ◌<◌, refl, arith, poke, zeros, err, enospc}
use filsys.Base.{has_bit, has_bit_zero, ◌-◌, ◌%◌, arith}
use filsys.Volume.{Edition, bitmap}
use filsys.Bitmap.{balloc, bfree, makefree_bitmap}
use filsys.Bitmap.Alloc.{
  IsMapped, is_free, Taken, balloc-Taken, balloc_full, Released, bfree-Released, bfree-balloc,
}
use filsys.Bitmap.Rebuild.{is_free-makefree_bitmap}
use filsys.Tests.Sample.{small, v7_desc}

abbrev mapped : Edition
mapped = record small {
  desc = record v7_desc { v8_super = true; freemap = bitmap };
  v8_bits = poke zeros 0 44;
  v8_nbits = 16;
  v8_base = 4;
}

mapped-IsMapped : IsMapped mapped
mapped-IsMapped = record {
  healthy = record {
    reads = λ off n. refl;
    writes = λ off n. refl;
    writable = refl;
    fits = omega arith;
  };
  bytes = λ i. ground arith;
  inside = omega arith;
  numbers_fit = omega arith;
}

below_six : (x : ℕ) → x < 6 → is_free mapped x ≡ false
unfolding has_bit
below_six zero l = refl
below_six (suc zero) l = refl
below_six (suc (suc zero)) l = refl
below_six (suc (suc (suc zero))) l = refl
below_six (suc (suc (suc (suc zero)))) l = refl
below_six (suc (suc (suc (suc (suc zero))))) l = refl
below_six (suc (suc (suc (suc (suc (suc x)))))) l = absurd (omega arith)

balloc-Taken_example : Taken mapped 6 (balloc mapped)
unfolding has_bit
balloc-Taken_example = balloc-Taken mapped 6 mapped-IsMapped refl below_six

-- Each of its 16 blocks is in use.
abbrev full : Edition
full = record mapped { v8_bits = zeros }

balloc_full_example : balloc full ≡ (err enospc, full)
balloc_full_example = balloc_full full (λ x. ground (arith, has_bit_zero ((x - 4) % 8)))

bfree-Released_example : Released mapped 8 (bfree mapped 8)
bfree-Released_example = bfree-Released mapped 8 mapped-IsMapped

bfree-balloc_example : is_free (bfree (balloc mapped).1 6) 9 ≡ true
unfolding has_bit
bfree-balloc_example = bfree-balloc mapped 6 mapped-IsMapped refl below_six 9

is_free-makefree_bitmap_example : is_free (makefree_bitmap mapped (poke zeros 0 3) 16).1 5 ≡ false
unfolding has_bit
is_free-makefree_bitmap_example =
    is_free-makefree_bitmap mapped (poke zeros 0 3) 16 5 (omega arith) (omega arith)
