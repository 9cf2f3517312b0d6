-- ===== src/Check.antt =====
-- The integrity check (check.c, check.h): icheck and dcheck in one pass over a volume.
-- What the check prints about a problem is kept as a list of messages, the latest first; the lines
-- that only summarise are not modelled. The owner table serves the messages alone.
pub mod Mark
pub mod Free
pub mod Rebuild
pub mod Driver
pub mod Repair
pub mod Resolve
pub mod Common
pub mod Editions
use filsys.Base.{ℕ, zero, suc, ◌+◌, ◌-◌, Bool, true, false, ◌&&◌, ◌||◌}
use filsys.Base.{Bytes, u32, bit_and, ◌==◌, ltb, leb, if◌then◌else◌, List, [], ◌∷◌, Name}
use filsys.Volume.{Edition}
use filsys.Bitmap.{sub32}

-- A line on a problem: the block or the inode that it names, and what else it prints.
pub data Message : Type 0 where
  bad_superblock : ℕ → ℕ → Message
  bad_block : ℕ → ℕ → Message
  dup_block : ℕ → ℕ → ℕ → Message
  no_indirect : ℕ → Message
  no_inode : ℕ → Message
  unknown_type : ℕ → ℕ → Message
  free_out_of_range : ℕ → Message
  free_twice : ℕ → Message
  free_used : ℕ → Message
  free_endless : Message
  no_free_block : ℕ → Message
  bad_count : ℕ → ℕ → Message
  wrong_tfree : ℕ → ℕ → Message
  wrong_tinode : ℕ → ℕ → Message
  bad_entry : ℕ → ℕ → Name → Message
  entry_of_free : ℕ → ℕ → Message
  unreferenced : ℕ → ℕ → Message
  wrong_links : ℕ → ℕ → ℕ → Message

-- `filsys_chkctx_t`, with the messages so far.
pub record Context : Type 0 where
  pub bmap : Bytes
  pub owner : ℕ → ℕ
  pub nblk : ℕ
  pub used_blocks : ℕ
  pub dup_blocks : ℕ
  pub bad_blocks : ℕ
  pub errors : ℕ
  pub ino : ℕ
  pub log : List Message

-- `filsys_check_t`
pub record Report : Type 0 where
  pub free_blocks : ℕ
  pub used_blocks : ℕ
  pub missing_blocks : ℕ
  pub dup_blocks : ℕ
  pub inodes : ℕ
  pub used_inodes : ℕ
  pub orphaned : ℕ
  pub errors : ℕ

-- `n++` on `uint32_t`
abbrev pub inc : ℕ → ℕ
inc n = u32 (n + 1)

-- A problem is printed and counted.
abbrev pub complain : Message → Context → Context
complain msg cx = record cx { errors = inc cx.errors; log = msg ∷ cx.log }

-- One past the last data block: the blocks of the out-of-superblock bitmap lie behind it.
unfoldable pub data_end : Edition → ℕ
data_end fs = sub32 fs.fsize fs.v8_nblks

-- `filsys_fail_class_t`
pub data FailClass : Type 0 where
  class_a class_c class_b class_d : FailClass

unfoldable pub classify : Report → FailClass
classify rep =
    if ltb 0 rep.dup_blocks
    then class_d
    else if ltb 0 rep.missing_blocks || ltb 0 rep.orphaned
    then class_b
    else if ltb 0 rep.errors
    then class_c
    else class_a

-- The types of an inode in the eyes of the check (`FILSYS_IN_*`, the low three bits).
pub data Kind : Type 0 where
  unalloc unknown idir ireg ichr iblk ipipe : Kind

-- `filsys_in_allocated`
unfoldable pub in_allocated : Kind → Bool
in_allocated unalloc = false
in_allocated other = true

-- `FILSYS_MAXBADOK`
abbrev pub max_bad : ℕ
max_bad = 10
