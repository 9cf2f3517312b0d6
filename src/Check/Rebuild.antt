-- ===== src/Check/Rebuild.antt =====
-- v7fs_makefree of alloc_freelist.c: the free list is rebuilt from the blocks that the check marked,
-- interleaved on Coherent. The message on bad factors is not modelled.
pub mod Interleave
pub mod Listed
pub mod Salvage
use filsys.Base.{ℕ, zero, suc, ◌+◌, ◌-◌, ◌*◌, ◌/◌, ◌%◌, Bool, true, false, not, ◌&&◌, ◌||◌}
use filsys.Base.{Bytes, u32, ◌==◌, ltb, leb, if◌then◌else◌}
use filsys.Volume.{Edition, list, maxinode}
use filsys.Super.{super_write}
use filsys.FreeList.{bfree, with_fl}
use filsys.FreeList.Count.{count_used}
use filsys.Bitmap.{bit_at, sub32, makefree_bitmap}
use filsys.Check.{Context, inc}

-- The interleave factors m and n; bad ones are replaced by 1.
unfoldable pub factors : Edition → ℕ × ℕ
factors fs =
    if not fs.desc.interleave
    then (1, 1)
    else if ltb fs.n 1 || ltb 255 fs.n || ltb fs.m 1 || ltb fs.n fs.m || not (fs.n % fs.m == 0)
    then (1, 1)
    else (fs.m, fs.n)

-- `maptab[i]`, with `ratio = n / m`
abbrev pub map_entry : ℕ → ℕ → ℕ → ℕ
map_entry m n i = i / (n / m) + i % (n / m) * m

-- The physical block of a logical one; only the band of whole groups of `n` blocks is interleaved.
unfoldable pub place : ℕ → ℕ → ℕ → ℕ → ℕ → ℕ
place m n isize fsize bn =
    if leb ((isize + n - 1) / n * n) bn && ltb bn (fsize / n * n)
    then bn / n * n + map_entry m n (bn % n)
    else bn

-- One turn: the physical block `blk` is released if the check did not mark it.
unfoldable pub release_unmarked : Context → ℕ → ℕ × Edition → ℕ × Edition
release_unmarked cx blk (nfree, fs) =
    let off = sub32 blk fs.isize in
    if leb cx.nblk off || bit_at cx.bmap off then (nfree, fs) else (inc nfree, bfree fs blk)

-- The first `k` logical blocks behind the i-list, in order.
unfoldable pub release_blocks : Context → (ℕ → ℕ) → ℕ → Edition → ℕ × Edition
release_blocks cx physical zero fs = (0, fs)
release_blocks cx physical (suc k) fs =
    release_unmarked cx (physical (fs.isize + k)) (release_blocks cx physical k fs)

abbrev pub emptied : Edition → Edition
emptied fs = with_fl fs (record fs.fl { nfree = 0; ninode = 0; tfree = 0; tinode = 0 })

-- The total of free inodes is counted anew.
abbrev pub recounted : Edition → Edition
recounted fs = with_fl fs (record fs.fl { tinode = maxinode fs - count_used fs (maxinode fs) })

unfoldable pub makefree_list : Edition → Context → ℕ × Edition
makefree_list fs cx =
    let (m, n) = factors fs in
    let r = release_blocks cx (place m n fs.isize fs.fsize) (fs.fsize - fs.isize) (emptied fs) in
    (r.0, (super_write (recounted r.1)).1)

unfoldable pub makefree : Edition → Context → ℕ × Edition
makefree fs cx = elim fs.desc.freemap [
  | list ↦ makefree_list fs cx
  | _ ↦ makefree_bitmap fs cx.bmap cx.nblk
]
