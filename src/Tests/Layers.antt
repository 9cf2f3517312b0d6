-- ===== src/Tests/Layers.antt =====
-- The block layer, the superblock write and the byte orders at a small volume.
use filsys.Base.{ℕ, ◌≡◌, inr, refl, arith, ok, true, Bytes, Agrees}
use filsys.Inode.{blank, write_inode}
use filsys.Inode.Order.{write_inode-outside}
use filsys.Volume.{Edition, read_block, write_block}
use filsys.Volume.Blocks.{read_block-write_block}
use filsys.Tree.{itrunc, slot_level, is_data_inode}
use filsys.Engine.{inode_destroy}
use filsys.Backend.{v7fs_ops}
use filsys.Backend.Destroy.{inode_destroy_failed}
use filsys.Tests.Sample.{small}
use filsys.Tests.Trees.{pair}

abbrev sevens : ℕ → ℕ
sevens i = 7

read_block-write_block_example :
    (c : Bytes) × (read_block (write_block small 5 sevens).1 5 ≡ ok c) × Agrees c sevens 0 512
unfolding write_block
read_block-write_block_example = read_block-write_block small 5 sevens refl refl

write_inode-outside_example : Agrees (write_inode small 3 (blank 3)).1.img small.img 2560 512
write_inode-outside_example =
    write_inode-outside small 3 (blank 3) 2560 512 (omega arith) (omega arith)

abbrev stale : Edition
stale = record small { fl_dirty = true }

-- Every write of this host transfers nothing.
abbrev failing : Edition
failing = record small { host = record small.host { pwrite_count = λ off n. 0 } }

inode_destroy_failed_example :
    ((inode_destroy v7fs_ops failing 3 pair).1.fl ≡ failing.fl)
    × Agrees (inode_destroy v7fs_ops failing 3 pair).1.img failing.img 2560 512
unfolding inode_destroy itrunc slot_level is_data_inode write_inode read_block write_block
inode_destroy_failed_example =
    inode_destroy_failed failing 3 pair 2560 512 refl (inr (omega arith)) (inr (omega arith))
