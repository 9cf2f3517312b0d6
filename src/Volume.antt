-- ===== src/Volume.antt =====
-- filsys_common.h and the block layer of v7fs.c: the format descriptor, the state of an open
-- filesystem, and the positional reads and writes that every access goes through.
-- The backing file is part of the state. `pread`, `pwrite` and `time` are the host's: the model
-- takes what they return as a parameter.
pub mod Blocks
use filsys.Base.{ℕ, ◌+◌, ◌-◌, ◌*◌, ◌/◌, ◌%◌, min, Bool, ◌&&◌, ◌||◌, true, false}
use filsys.Base.{Bytes, blit, from, ltb, leb, ◌==◌, if◌then◌else◌}
use filsys.Base.{Errno, eio, einval, erofs, Outcome, ok, err}
use filsys.ByteOrder.{Order}

-- How an edition of the V8 family keeps its free space (`V8_FREEMAP_*`).
pub data Freemap : Type 0 where
  list bitmap bigmap : Freemap

-- `filsys_desc_t`, without its vtables: the functions of the V7 engine are called directly.
-- `v8_super` says that `sb_decode` and `sb_encode` are set, `inode_32` that `ops->inode` is V6's,
-- and `iconc` that `to_posix_mode` is the one of V9 and V10.
pub record Desc : Type 0 where
  pub bo : Order
  pub bsize : ℕ
  pub nicfree : ℕ
  pub nicinod : ℕ
  pub pack4 : Bool
  pub interleave : Bool
  pub magic : ℕ
  pub dyn_bsize : Bool
  pub has_dinfo : Bool
  pub has_state : Bool
  pub fmod_back : ℕ
  pub inode_size : ℕ
  pub ndaddr : ℕ
  pub niaddr : ℕ
  pub addr_width : ℕ
  pub daddr_wid : ℕ
  pub df_nfree_wid : ℕ
  pub isize_count : Bool
  pub nindir : ℕ
  pub ilarg_mask : ℕ
  pub iallocated : ℕ
  pub large_single : ℕ
  pub large_double : ℕ
  pub badino : ℕ
  pub max_namlen : ℕ
  pub dirent_size : ℕ
  pub ifmt : ℕ
  pub ifdir : ℕ
  pub ifreg : ℕ
  pub iflnk : ℕ
  pub ifchr : ℕ
  pub ifblk : ℕ
  pub ifmpc : ℕ
  pub ifmpb : ℕ
  pub ifsock : ℕ
  pub rootino : ℕ
  pub size_bits : ℕ
  pub magic_off : ℕ
  pub ignore_magic : Bool
  pub freemap : Freemap
  pub v8_super : Bool
  pub inode_32 : Bool
  pub iconc : Bool

-- `freelist_state`; an array is the function from its indices.
pub record Freelist : Type 0 where
  pub nfree : ℕ
  pub ninode : ℕ
  pub free : ℕ → ℕ
  pub inode : ℕ → ℕ
  pub tfree : ℕ
  pub tinode : ℕ

-- The host: how many of `n` bytes a `pread` or `pwrite` at an offset transfers, and the time.
pub record Host : Type 0 where
  pub pread_count : ℕ → ℕ → ℕ
  pub pwrite_count : ℕ → ℕ → ℕ
  pub now : ℕ

-- `filsys_edition_t`, with the backing file behind its descriptor `fd`.
pub record Edition : Type 0 where
  pub desc : Desc
  pub host : Host
  pub img : Bytes
  pub readonly : Bool
  pub base : ℕ
  pub imgsize : ℕ
  pub isize : ℕ
  pub fsize : ℕ
  pub fl : Freelist
  pub time : ℕ
  pub m : ℕ
  pub n : ℕ
  pub unique : ℕ
  pub fmod : ℕ
  pub fl_dirty : Bool
  pub v8_bits : Bytes
  pub v8_nbits : ℕ
  pub v8_base : ℕ
  pub v8_nblks : ℕ
  pub v8_blk_start : ℕ

-- A call that may fail and changes the state on the way, also when it fails.
abbrev pub Step : Type 0 → Type 0
Step A = Outcome A × Edition

-- ---- the default transport

unfoldable pub io_file_read : Edition → ℕ → ℕ → Outcome Bytes
io_file_read fs n off = if fs.host.pread_count off n == n then ok (from fs.img off) else err eio

-- A short write has put its first bytes into the file.
unfoldable pub io_file_write : Edition → Bytes → ℕ → ℕ → Step (Unit {0})
io_file_write fs buf n off =
    let r = fs.host.pwrite_count off n in
    let fs' = record fs { img = blit fs.img off (min r n) buf } in
    if r == n then (ok tt, fs') else (err eio, fs')

-- ---- blocks

-- `true` for 0, `false` for -EINVAL
unfoldable pub check_range : Edition → ℕ → ℕ → Bool
check_range fs off n =
    if fs.imgsize == 0
    then true
    else if ltb fs.imgsize off || ltb (fs.imgsize - off) n
    then false
    else true

unfoldable pub read_block : Edition → ℕ → Outcome Bytes
unfolding check_range io_file_read
read_block fs bno =
    let off = fs.base + bno * fs.desc.bsize in
    if check_range fs off fs.desc.bsize then io_file_read fs fs.desc.bsize off else err einval

unfoldable pub write_block : Edition → ℕ → Bytes → Step (Unit {0})
unfolding check_range io_file_write
write_block fs bno buf =
    let off = fs.base + bno * fs.desc.bsize in
    if fs.readonly
    then (err erofs, fs)
    else if check_range fs off fs.desc.bsize
    then io_file_write fs buf fs.desc.bsize off
    else (err einval, fs)

-- ---- geometry

abbrev pub inopb : Edition → ℕ
inopb fs = fs.desc.bsize / fs.desc.inode_size

abbrev pub itod : Edition → ℕ → ℕ
itod fs ino = 2 + (ino - 1) / inopb fs

abbrev pub itoo : Edition → ℕ → ℕ
itoo fs ino = (ino - 1) % inopb fs

abbrev pub data_first : Edition → ℕ
data_first fs = fs.isize + (if fs.desc.isize_count then 2 else 0)

-- The subtraction is at `isize` of at least 2, which the open checks.
abbrev pub maxinode : Edition → ℕ
maxinode fs = (fs.isize - (if fs.desc.isize_count then 0 else 2)) * inopb fs
