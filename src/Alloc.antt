-- ===== src/Alloc.antt =====
-- The allocator that a descriptor selects (`desc.alloc`, set by filsys_format.c): the free list, or
-- the bitmap of the V8 family. The code above it calls the two functions of the table.
use filsys.Base.{ℕ}
use filsys.Volume.{Desc, Edition, list, Step}
use filsys.FreeList
use filsys.Bitmap

-- The block half of `alloc_ops_t`.
pub record Allocator : Type 0 where
  pub balloc : Edition → Step ℕ
  pub bfree : Edition → ℕ → Edition

abbrev pub freelist_alloc : Allocator
freelist_alloc = record { balloc = FreeList.balloc; bfree = FreeList.bfree }

abbrev pub bitmap_alloc : Allocator
bitmap_alloc = record { balloc = Bitmap.balloc; bfree = Bitmap.bfree }

-- `(fm == V8_FREEMAP_LIST) ? &freelist_alloc_ops : &v8_bitmap_alloc_ops`
abbrev pub alloc : Desc → Allocator
alloc d = elim d.freemap [ list ↦ freelist_alloc | _ ↦ bitmap_alloc ]
