-- ===== src/Format/Layout.antt =====
-- What every descriptor of filsys_format.c fits: the layouts of the blocks that the engine reads.
use filsys.Base.{ℕ, ◌+◌, ◌*◌, ◌%◌, ◌^◌, ◌≤◌, ◌<◌, ◌≡◌, refl, subst, arith, Bool, true, ◌&&◌, ◌==◌}
use filsys.Base.{leb, ltb, if◌then◌else◌, Option, none, some}
use filsys.Volume.{Desc, Edition, list, bitmap, bigmap, data_first}
use filsys.Volume.Blocks.{IsHealthy}
use filsys.Super.{tfree_off, time_off}
use filsys.FreeList.{daddr, df_nfree, chain_free_off}
use filsys.FreeList.Chain.{IsMounted}
use filsys.Format.{
  Selector, pdp7, v1, v6, v7, v8, v9, v10, vax32, coherent, xenix, bsd29, bsd211, sysiii, sysvr2,
  sysvr4, unix, getformat,
}

-- The end of what the superblock keeps of the allocator, and of the fields of Coherent.
abbrev pub super_end : Desc → ℕ
super_end d =
    if d.v8_super
    then (elim d.freemap [ list ↦ 252 + 4 * d.nicfree | bitmap ↦ 4096 | bigmap ↦ 256 ])
    else if d.isize_count
    then 416
    else if d.interleave
    then time_off d.pack4 d.nicfree + 30
    else tfree_off d.pack4 d.nicfree d.has_dinfo + 6

-- The superblock, a chain block, an indirect block and a block of the i-list hold what is laid in
-- them.
pub record HasLayout (d : Desc) : Type 0 where
  pub chain_fits : chain_free_off d + (daddr d).width * d.nicfree ≤ d.bsize
  pub count_fits : (df_nfree d).width ≤ chain_free_off d
  pub deep : 0 < d.nicfree
  pub depth_fits : d.nicfree + 1 < 2 ^ 16
  pub large : 512 ≤ d.bsize
  pub super_fits : super_end d ≤ (if d.dyn_bsize then 512 else d.bsize)
  pub indirect : d.nindir * d.daddr_wid ≡ d.bsize
  pub inodes : d.bsize % d.inode_size ≡ 0
  pub slots : d.niaddr ≤ 13

unfoldable pub has_layout : Desc → Bool
has_layout d =
    leb (chain_free_off d + (daddr d).width * d.nicfree) d.bsize
    && leb (df_nfree d).width (chain_free_off d)
    && ltb 0 d.nicfree
    && ltb (d.nicfree + 1) (2 ^ 16)
    && leb 512 d.bsize
    && leb (super_end d) (if d.dyn_bsize then 512 else d.bsize)
    && d.nindir * d.daddr_wid == d.bsize
    && d.bsize % d.inode_size == 0
    && leb d.niaddr 13

pub has_layout-HasLayout : (d : Desc) → has_layout d ≡ true → HasLayout d
unfolding has_layout
has_layout-HasLayout d h = record {
  chain_fits = ground (arith, h);
  count_fits = ground (arith, h);
  deep = ground (arith, h);
  depth_fits = ground (arith, h);
  large = ground (arith, h);
  super_fits = ground (arith, h);
  indirect = ground (arith, h);
  inodes = ground (arith, h);
  slots = ground (arith, h);
}

abbrev passes : Option Desc → Bool
passes none = true
passes (some d) = has_layout d

getformat-passes : (ed : Selector) → passes (getformat ed) ≡ true
unfolding getformat has_layout
getformat-passes pdp7 = refl
getformat-passes v1 = refl
getformat-passes v6 = refl
getformat-passes v7 = refl
getformat-passes v8 = refl
getformat-passes v9 = refl
getformat-passes v10 = refl
getformat-passes vax32 = refl
getformat-passes coherent = refl
getformat-passes xenix = refl
getformat-passes bsd29 = refl
getformat-passes bsd211 = refl
getformat-passes sysiii = refl
getformat-passes sysvr2 = refl
getformat-passes sysvr4 = refl
getformat-passes unix = refl

pub getformat-HasLayout : (ed : Selector) (d : Desc) → getformat ed ≡ some d → HasLayout d
getformat-HasLayout ed d e =
    has_layout-HasLayout d (subst (λ o. passes o ≡ true) e (getformat-passes ed))

-- Take a descriptor of one of the editions, and a volume with it whose host transfers every byte,
-- that is open for writing, and whose blocks lie in the file. When the data begin behind the
-- superblock and every block number fits an entry of the free list, then the volume is mounted in
-- the sense of the free list: its superblock and its chain blocks fit their blocks.
pub getformat-IsMounted :
    (ed : Selector) (fs : Edition)
    → getformat ed ≡ some fs.desc
    → IsHealthy fs
    → 2 ≤ data_first fs
    → fs.fsize ≤ 2 ^ (8 * (daddr fs.desc).width)
    → IsMounted fs
getformat-IsMounted ed fs e v behind small =
    let h = getformat-HasLayout ed fs.desc e in
    record {
      healthy = v;
      data_behind = behind;
      super_fits = ground (arith, h.large);
      chain_fits = h.chain_fits;
      count_fits = h.count_fits;
      deep = h.deep;
      depth_fits = h.depth_fits;
      numbers_fit = small;
    }
