-- ===== src/Format.antt =====
-- filsys_format.c: the descriptors of the editions, and the geometry that the options select. The
-- editions of the V7 engine alone: V1 and the PDP-7 have engines of their own.
pub mod Layout
pub mod Geometry
pub mod Names
pub mod Bytesex
use filsys.Base.{
  ℕ, ◌/◌, Bool, true, false, not, ◌&&◌, ◌||◌, ◌==◌, if◌then◌else◌, Option, none, some,
}
use filsys.Base.{Outcome, ok, err, einval, Name, same_name, codes}
use filsys.ByteOrder.{Order, le, be, me}
use filsys.Volume.{Desc, Freemap, list, bitmap, bigmap}

-- The selectors `FILSYS_*`
pub data Selector : Type 0 where
  pdp7 v1 v6 v7 v8 v9 v10 vax32 coherent xenix bsd29 bsd211 sysiii sysvr2 sysvr4 unix : Selector

abbrev pub v7_format : Desc
v7_format = record {
  bo = me;
  bsize = 512;
  nicfree = 50;
  nicinod = 100;
  pack4 = false;
  interleave = false;
  magic = 0;
  dyn_bsize = false;
  has_dinfo = false;
  has_state = false;
  fmod_back = 2;
  inode_size = 64;
  ndaddr = 10;
  niaddr = 13;
  addr_width = 3;
  daddr_wid = 4;
  df_nfree_wid = 2;
  isize_count = false;
  nindir = 128;
  ilarg_mask = 0;
  iallocated = 0;
  large_single = 0;
  large_double = 0;
  badino = 1;
  max_namlen = 14;
  dirent_size = 16;
  ifmt = 0xf000;
  ifdir = 0x4000;
  ifreg = 0x8000;
  iflnk = 0;
  ifchr = 0x2000;
  ifblk = 0x6000;
  ifmpc = 0x3000;
  ifmpb = 0x7000;
  ifsock = 0;
  rootino = 2;
  size_bits = 0;
  magic_off = 0;
  ignore_magic = false;
  freemap = list;
  v8_super = false;
  inode_32 = false;
  iconc = false;
}

-- Its addresses have two bytes, in the inode of its own too.
abbrev pub v6_format : Desc
v6_format = record v7_format {
  nicfree = 100;
  inode_size = 32;
  ndaddr = 8;
  niaddr = 8;
  addr_width = 0;
  daddr_wid = 2;
  isize_count = true;
  nindir = 256;
  fmod_back = 0;
  ilarg_mask = 0x1000;
  iallocated = 0x8000;
  large_single = 7;
  large_double = 1;
  badino = 0;
  ifmt = 0x6000;
  ifreg = 0;
  ifmpc = 0;
  ifmpb = 0;
  rootino = 1;
  size_bits = 24;
  inode_32 = true;
}

abbrev pub bsd211_format : Desc
bsd211_format = record v7_format {
  bsize = 1024;
  ndaddr = 4;
  niaddr = 7;
  addr_width = 4;
  nindir = 256;
  fmod_back = 3;
  max_namlen = 63;
  dirent_size = 0;
  ifmpc = 0;
  ifmpb = 0;
  iflnk = 0xa000;
  ifsock = 0xc000;
}

abbrev pub v8_format : Desc
v8_format = record v7_format {
  bo = le;
  bsize = 1024;
  nicfree = 178;
  df_nfree_wid = 4;
  nindir = 256;
  fmod_back = 0;
  badino = 0;
  ifmpc = 0;
  ifmpb = 0;
  iflnk = 0xa000;
  v8_super = true;
}

-- `filsys_getformat`; `none` for V1 and the PDP-7, and for what is no edition.
unfoldable pub getformat : Selector → Option Desc
getformat v6 = some v6_format
getformat bsd211 = some bsd211_format
getformat v7 = some v7_format
getformat v8 = some v8_format
getformat v9 =
    some (record v8_format { bsize = 8192; bo = be; nicfree = 946; nindir = 2048; iconc = true })
getformat v10 = some (record v8_format { iconc = true })
getformat vax32 = some (record v7_format { bo = le; pack4 = true })
getformat coherent = some (record v7_format { nicfree = 64; interleave = true })
getformat xenix = some (record v7_format {
  bsize = 1024;
  bo = le;
  nicfree = 100;
  nindir = 256;
  magic = 0x2b5544;
  magic_off = 0x3f8;
})
getformat bsd29 = some (record v7_format { bsize = 1024; ndaddr = 4; niaddr = 7; nindir = 256 })
getformat sysiii = some (record v7_format { bo = le; pack4 = true; has_dinfo = true })
getformat sysvr2 = some (record v7_format {
  bo = le;
  pack4 = true;
  magic = 0xfd187e20;
  magic_off = 504;
  dyn_bsize = true;
  has_dinfo = true;
})
getformat sysvr4 = some (record v7_format {
  bo = le;
  pack4 = true;
  magic = 0xfd187e20;
  magic_off = 504;
  dyn_bsize = true;
  has_state = true;
  has_dinfo = true;
})
getformat other = none

-- ---- the geometry of the V8 family

-- `filsys_geom_t`: `none` is the default of the edition.
pub record Geom : Type 0 where
  pub blocksize : ℕ
  pub freemap : Option Freemap
  pub byteorder : Option Name

abbrev pub is_list : Freemap → Bool
is_list list = true
is_list other = false

abbrev pub is_bigmap : Freemap → Bool
is_bigmap bigmap = true
is_bigmap other = false

abbrev pub is_v9 : Selector → Bool
is_v9 v9 = true
is_v9 other = false

abbrev pub is_v10 : Selector → Bool
is_v10 v10 = true
is_v10 other = false

-- The form of the free space: the one that was asked for, or the one of the block size.
abbrev pub form : ℕ → Option Freemap → Freemap
form bs (some fm) = fm
form bs none = if bs == 4096 then bitmap else list

-- Whether the edition has the block size and the form together.
unfoldable pub is_geometry : Selector → ℕ → Freemap → Bool
is_geometry ed bs fm =
    (not (is_bigmap fm) || is_v10 ed)
    && (if is_v9 ed
        then bs == 8192
        else not (bs == 1024 && not (is_list fm))
          && not (bs == 4096 && is_list fm)
          && (bs == 1024 || bs == 4096))

-- The byte order that is named, or the one of the descriptor.
unfoldable pub named_order : Order → Option Name → Option Order
named_order bo none = some bo
named_order bo (some name) =
    if same_name name (codes "le")
    then some le
    else if same_name name (codes "be")
    then some be
    else none

-- `filsys_apply_geom`; an error leaves the descriptor as it is.
unfoldable pub apply_geom : Desc → Selector → Geom → Outcome Desc
apply_geom d ed g =
    let bs = if g.blocksize == 0 then d.bsize else g.blocksize in
    let fm = form bs g.freemap in
    if not (is_geometry ed bs fm) then err einval else elim (named_order d.bo g.byteorder) [
      | none ↦ err einval
      | some bo ↦ ok (record d { bo = bo; bsize = bs; nindir = bs / 4; freemap = fm })
    ]
