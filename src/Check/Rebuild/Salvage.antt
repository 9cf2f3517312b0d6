-- ===== src/Check/Rebuild/Salvage.antt =====
-- The rebuild as a whole, with the flush of the superblock.
use filsys.Base.{ℕ, ◌-◌, ◌%◌, ◌^◌, ◌≡◌}
use filsys.Base.{Bool, false, not, ◌&&◌, List, length, ltb, leb, if◌then◌else◌}
use filsys.Volume.{Edition}
use filsys.FreeList.Cache.{IsCache}
use filsys.Bitmap.{bit_at}
use filsys.Check.{Context}
use filsys.Check.Mark.Claims.{count}

-- The data block `x` is not marked.
abbrev pub is_unmarked : Edition → Context → ℕ → Bool
is_unmarked fs cx x = leb fs.isize x && ltb x fs.fsize && not (bit_at cx.bmap (x - fs.isize))

-- A free list of the unmarked data blocks, each of them once.
pub record Salvaged (fs : Edition) (cx : Context) (r : ℕ × Edition) : Type 0 where
  pub free : List ℕ
  pub cache : IsCache r.1 free
  pub lists : (x : ℕ) → count x free ≡ (if is_unmarked fs cx x then 1 else 0)
  pub number : r.0 ≡ length free % 2 ^ 32
  pub flushed : r.1.fl_dirty ≡ false
