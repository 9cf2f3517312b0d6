-- ===== src/Tests/Trees.antt =====
-- The block tree at a small file: two direct blocks, and block 7 as its indirect block.
use filsys.Base.{ℕ, ◌≡◌, ok, refl, [], ◌∷◌, arith, false, poke, zeros}
use filsys.Volume.{Edition}
use filsys.Inode.{Inode, blank}
use filsys.Tree.{
  drain, itrunc, allocated_blocks, slot_level, is_data_inode, collect_subtree, count_indirect,
}
use filsys.Tree.Collect.{GrowsBy, collect_subtree-count_indirect}
use filsys.Tree.Slots.{TakesAll, itrunc-allocated_blocks}
use filsys.Tree.Map.{bmap}
use filsys.Tree.Reference.{capacity, file_block, Looks, bmap-Looks}
use filsys.FreeList.Cache.{IsCache}
use filsys.Tree.Tail.{itrunc_from}
use filsys.Tree.Tail.Effect.{itrunc_from-kept, itrunc_from-volume}
use filsys.Tree.Drain.{drain-IsCache}
use filsys.Engine.{inode_destroy}
use filsys.Backend.{v7fs_ops}
use filsys.Backend.Destroy.{Destroys, inode_destroy-Destroys}
use filsys.Tests.FreeLists.{small-IsCache}
use filsys.Tests.Sample.{small, array}

-- The first entry of block 7 is block 8.
abbrev planted : Edition
planted = record small { img = poke zeros 3586 8 }

abbrev file : Inode
file = record (blank 3) {
  mode = 32768;
  addr = array (5 ∷ 6 ∷ 0 ∷ 0 ∷ 0 ∷ 0 ∷ 0 ∷ 0 ∷ 0 ∷ 0 ∷ 7 ∷ []);
}

itrunc-allocated_blocks_example : TakesAll (itrunc planted file []) (allocated_blocks planted file)
itrunc-allocated_blocks_example = itrunc-allocated_blocks planted file

collect_subtree-count_indirect_example :
    GrowsBy (9 ∷ []) (collect_subtree planted 0 7 (9 ∷ [])) (count_indirect planted 0 7)
collect_subtree-count_indirect_example = collect_subtree-count_indirect planted 0 7 (9 ∷ [])

bmap-Looks_example :
    Looks planted file (file_block planted file 13 0 10) (bmap planted file 10 false)
unfolding capacity slot_level
bmap-Looks_example = bmap-Looks planted file 10 (omega arith) (omega arith)

drain-IsCache_example : IsCache (drain small (12 ∷ 9 ∷ [])) (12 ∷ 9 ∷ 6 ∷ 5 ∷ [])
drain-IsCache_example =
    drain-IsCache small (12 ∷ 9 ∷ []) (6 ∷ 5 ∷ []) refl small-IsCache (omega arith) (omega arith)

abbrev behind : ℕ
behind = 2113674

itrunc_from-kept_example : itrunc_from planted file behind (9 ∷ []) ≡ (ok tt, file, planted, 9 ∷ [])
unfolding capacity slot_level
itrunc_from-kept_example =
    itrunc_from-kept planted file behind (9 ∷ []) (omega arith) (omega arith) (omega arith)

itrunc_from-volume_example : (itrunc_from planted file 0 []).2 ≡ planted
itrunc_from-volume_example = itrunc_from-volume planted file []

-- A file of two direct blocks, none of them free.
abbrev pub pair : Inode
pair = record (blank 3) { mode = 32768; addr = array (9 ∷ 12 ∷ []) }

inode_destroy-Destroys_example :
    Destroys (9 ∷ 12 ∷ []) (6 ∷ 5 ∷ []) (inode_destroy v7fs_ops small 3 pair)
unfolding itrunc slot_level is_data_inode
inode_destroy-Destroys_example =
    inode_destroy-Destroys small 3 pair (6 ∷ 5 ∷ []) refl small-IsCache (omega arith) (omega arith)
      (omega arith)
