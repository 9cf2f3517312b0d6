-- ===== src/FreeList/Count.antt =====
-- v7_count_free and v6_count_free of alloc_freelist.c: the totals that a superblock does not keep.
use filsys.Base.{ℕ, zero, suc, ◌+◌, ◌-◌, not, Bytes, ok, err}
use filsys.Base.{Option, none, some, ltb, ◌==◌, if◌then◌else◌}
use filsys.ByteOrder.{get16}
use filsys.ByteOrder.Entries.{codec16, get_all}
use filsys.Volume.{Edition, read_block, maxinode}
use filsys.Inode.{read_inode}
use filsys.FreeList.{daddr, df_nfree, chain_free_off, inode_live}

-- A segment of the chain from its block; `none` when its count is refused.
abbrev pub Segment : Type 0
Segment = Edition → Bytes → (ℕ → ℕ) → Option (ℕ × (ℕ → ℕ))

unfoldable pub v7_segment : Segment
v7_segment fs blk cur =
    let n = (df_nfree fs.desc).get blk 0 in
    if ltb fs.desc.nicfree n
    then none
    else some (n, get_all (daddr fs.desc) blk (chain_free_off fs.desc) fs.desc.nicfree cur)

unfoldable pub v6_segment : Segment
v6_segment fs blk cur =
    some (get16 fs.desc.bo blk 0, get_all (codec16 fs.desc.bo) blk 2 fs.desc.nicfree cur)

-- The loop over the free list, with `left` rounds before its guard.
unfoldable pub count_blocks : Segment → Edition → ℕ → ℕ → (ℕ → ℕ) → ℕ → ℕ
count_blocks seg fs zero n cur blocks = blocks
count_blocks seg fs (suc left) zero cur blocks = blocks
count_blocks seg fs (suc left) (suc n) cur blocks =
    let rest = count_blocks seg fs left n cur (blocks + 1) in
    if cur n == 0 then blocks else if not (n == 0) then rest else elim (read_block fs (cur n)) [
      | err e ↦ blocks + 1
      | ok blk ↦ elim (seg fs blk cur) [
        | none ↦ blocks + 1
        | some s ↦ count_blocks seg fs left s.0 s.1 (blocks + 1)
      ]
    ]

-- How many of the inodes 1 to `n` are in use; one that cannot be read is not counted.
unfoldable pub count_used : Edition → ℕ → ℕ
count_used fs zero = 0
count_used fs (suc n) =
    let rest = count_used fs n in
    elim (read_inode fs (suc n)) [
      | err e ↦ rest
      | ok ip ↦ if inode_live fs.desc ip.mode then rest + 1 else rest
    ]

-- Both totals, in the state.
unfoldable pub count_free : Segment → Edition → Edition
unfolding count_blocks count_used
count_free seg fs = record fs {
  fl = record fs.fl {
    tfree = count_blocks seg fs (fs.fsize + fs.desc.nicfree + 1) fs.fl.nfree fs.fl.free 0;
    tinode = maxinode fs - count_used fs (maxinode fs);
  };
}
