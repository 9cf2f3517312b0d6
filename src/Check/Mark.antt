-- ===== src/Check/Mark.antt =====
-- blocktree.c: the marking of every block that an inode refers to.
pub mod Claims
pub mod Subtree
pub mod Slots
pub mod Gain
pub mod Truncate
use filsys.Base.{ℕ, zero, suc, ◌+◌, ◌-◌, Bool, true, false, not, ◌&&◌, ◌||◌}
use filsys.Base.{Bytes, ◌==◌, ltb, leb, if◌then◌else◌, ◌∷◌, none, some, ok, err}
use filsys.Volume.{Edition, read_block, data_first}
use filsys.Inode.{Inode}
use filsys.FreeList.{update}
use filsys.Bitmap.{bit_at, set_bit}
use filsys.Tree.{ind_get, slot_level}
use filsys.Check.{Context, bad_block, dup_block, no_indirect, inc, complain, data_end}

-- A block of the i-list that the bad-block inode records.
unfoldable pub is_bad_record : Edition → Context → ℕ → Bool
is_bad_record fs cx bno =
    not (fs.desc.badino == 0) && (cx.ino == fs.desc.badino) && leb 2 bno && ltb bno (data_first fs)

-- The first claim of the data block `start + d`.
abbrev pub claim_block : Context → ℕ → Context
claim_block cx d = record cx {
  bmap = set_bit cx.bmap d;
  owner = update cx.owner d cx.ino;
  used_blocks = inc cx.used_blocks;
}

-- 0: a first claim, or nothing to claim; 1: out of range; 2: claimed before.
unfoldable pub mark_block : Edition → Context → ℕ → ℕ × Context
mark_block fs cx bno =
    let d = bno - data_first fs in
    if bno == 0
    then (0, cx)
    else if ltb bno (data_first fs) || leb (data_end fs) bno
    then (if is_bad_record fs cx bno
        then (0, cx)
        else (1, complain (bad_block bno cx.ino) (record cx { bad_blocks = inc cx.bad_blocks })))
    else if bit_at cx.bmap d
    then (
      2,
      complain (dup_block bno cx.ino (cx.owner d)) (record cx { dup_blocks = inc cx.dup_blocks }),
    )
    else (0, claim_block cx d)

-- The entries below `n`, in order; 0 is a hole.
unfoldable pub each_marked : (ℕ → Context → Context) → (ℕ → ℕ) → ℕ → Context → Context
each_marked child entry zero cx = cx
each_marked child entry (suc i) cx =
    let before = each_marked child entry i cx in
    if entry i == 0 then before else child (entry i) before

-- An indirect block that is bad or claimed before is not followed.
unfoldable pub mark_indirect : Edition → (ℕ → Context → Context) → ℕ → Context → Context
mark_indirect fs child blk cx =
    let r = mark_block fs cx blk in
    if blk == 0 then cx else if not (r.0 == 0) then r.1 else elim (read_block fs blk) [
      | err e ↦ complain (no_indirect blk) r.1
      | ok buf ↦ each_marked child (ind_get fs.desc buf) fs.desc.nindir r.1
    ]

unfoldable pub mark_tree : Edition → ℕ → ℕ → Context → Context
mark_tree fs zero blk cx = mark_indirect fs (λ nb c. (mark_block fs c nb).1) blk cx
mark_tree fs (suc level) blk cx = mark_indirect fs (mark_tree fs level) blk cx

unfoldable pub mark_slot : Edition → Inode → ℕ → Context → Context
mark_slot fs ip i cx =
    let a = ip.addr i in
    if a == 0 then cx else elim (slot_level fs.desc ip.mode i) [
      | none ↦ (mark_block fs cx a).1
      | some level ↦ mark_tree fs level a cx
    ]

-- The slots below `n`, in order.
unfoldable pub mark_slots : Edition → Inode → ℕ → Context → Context
mark_slots fs ip zero cx = cx
mark_slots fs ip (suc i) cx = mark_slot fs ip i (mark_slots fs ip i cx)

unfoldable pub mark_blocks : Edition → Inode → Context → Context
mark_blocks fs ip cx = mark_slots fs ip fs.desc.niaddr cx
