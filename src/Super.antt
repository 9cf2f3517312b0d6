-- ===== src/Super.antt =====
-- The superblock of the V7 family: the field offsets of v7fs.h, the decoding in v7fs_open, and
-- v7fs_super_write with its three layouts (V6, V7 and the V8 family of alloc_v8bitmap.c).
pub mod Effect
use filsys.Base.{ℕ, zero, suc, ◌+◌, ◌-◌, ◌*◌, ◌/◌, ◌%◌, Bool, true, false, not, ◌&&◌, ◌||◌}
use filsys.Base.{Bytes, poke, u8, u16, u32, ◌<<◌, ◌==◌, leb, ltb, if◌then◌else◌, has_bit, bit_or}
use filsys.Base.{Errno, eio, einval, Outcome, ok, err}
use filsys.ByteOrder.{Order, get16, put16, get32, put32}
use filsys.ByteOrder.Entries.{codec16, codec32, put_all, get_all}
use filsys.Volume.{Desc, Edition, Freelist, Freemap, list, bitmap, bigmap, Step}
use filsys.Volume.{io_file_read, io_file_write, read_block, write_block}

abbrev pub nicinod_disk : ℕ
nicinod_disk = 100

-- ---- field offsets (v7fs.h)

abbrev pub fsize_off : Bool → ℕ
fsize_off pack4 = if pack4 then 4 else 2

abbrev pub nfree_off : Bool → ℕ
nfree_off pack4 = if pack4 then 8 else 6

abbrev pub free_off : Bool → ℕ
free_off pack4 = if pack4 then 12 else 8

abbrev pub ninode_off : Bool → ℕ → ℕ
ninode_off pack4 nicfree = free_off pack4 + 4 * nicfree

abbrev pub inode_off : Bool → ℕ → ℕ
inode_off pack4 nicfree = ninode_off pack4 nicfree + 2

abbrev pub time_off : Bool → ℕ → ℕ
time_off pack4 nicfree = inode_off pack4 nicfree + 2 * nicinod_disk + 4 + (if pack4 then 2 else 0)

abbrev pub tfree_off : Bool → ℕ → Bool → ℕ
tfree_off pack4 nicfree has_dinfo = time_off pack4 nicfree + 4 + (if has_dinfo then 8 else 0)

abbrev pub fb_free_off : Bool → ℕ
fb_free_off pack4 = if pack4 then 4 else 2

-- ---- V6: 16-bit block numbers, no totals

unfoldable pub encode_v6 : Edition → Bytes → Bytes
encode_v6 fs sb =
    let o = fs.desc.bo in
    let fl = fs.fl in
    let b1 = put16 o sb 0 fs.isize in
    let b2 = put16 o b1 2 (u16 fs.fsize) in
    let b3 = put16 o b2 4 fl.nfree in
    let b4 = put_all (codec16 o) b3 6 fs.desc.nicfree (λ i. u16 (fl.free i)) in
    let b5 = put16 o b4 206 fl.ninode in
    let b6 = put_all (codec16 o) b5 208 fs.desc.nicinod fl.inode in
    let b7 = put32 o b6 412 (u32 fs.host.now) in poke b7 410 (if fs.fmod == 0 then 0 else 1)

unfoldable pub decode_v6 : Edition → Bytes → Edition
decode_v6 fs sb =
    let o = fs.desc.bo in
    record fs {
      isize = get16 o sb 0;
      fsize = get16 o sb 2;
      fl = record fs.fl {
        nfree = get16 o sb 4;
        free = get_all (codec16 o) sb 6 fs.desc.nicfree fs.fl.free;
        ninode = get16 o sb 206;
        inode = get_all (codec16 o) sb 208 fs.desc.nicinod fs.fl.inode;
      };
      time = get32 o sb 412;
      fmod = sb 410;
    }

-- ---- V7, 32V, Coherent, Xenix, 2.9BSD, 2.11BSD, System III and System V

abbrev pub state_off : ℕ
state_off = 500

abbrev pub state_clean : ℕ
state_clean = 0x7c269d38

abbrev pub state_active : ℕ
state_active = 0x5e72d81a

-- `s_tfree` and `s_tinode` are kept unless the layout is 4-byte packed and has no magic.
abbrev pub keeps_totals : Desc → Bool
keeps_totals d = not d.pack4 || not (d.magic == 0)

-- The optional fields behind `s_time`, in the order in which they are written.
unfoldable pub encode_tail : Edition → Bytes → Bytes
encode_tail fs b8 =
    let d = fs.desc in
    let o = d.bo in
    let t = time_off d.pack4 d.nicfree in
    let toff = tfree_off d.pack4 d.nicfree d.has_dinfo in
    let b9 =
      if d.has_state
      then put32 o b8 state_off (if fs.fmod == 0 then state_clean else state_active)
      else b8 in
    let b10 =
      if keeps_totals d
      then put16 o (put32 o b9 toff fs.fl.tfree) (toff + 4) (u16 fs.fl.tinode)
      else b9 in
    if d.interleave
    then put32 o (put16 o (put16 o b10 (t + 10) fs.m) (t + 12) fs.n) (t + 26) fs.unique
    else b10

unfoldable pub encode_v7 : Edition → Bytes → Bytes
unfolding encode_tail
encode_v7 fs sb =
    let d = fs.desc in
    let o = d.bo in
    let fl = fs.fl in
    let t = time_off d.pack4 d.nicfree in
    let b1 = put16 o sb 0 fs.isize in
    let b2 = put32 o b1 (fsize_off d.pack4) fs.fsize in
    let b3 = put16 o b2 (nfree_off d.pack4) fl.nfree in
    let b4 = put_all (codec32 o) b3 (free_off d.pack4) d.nicfree fl.free in
    let b5 = put16 o b4 (ninode_off d.pack4 d.nicfree) fl.ninode in
    let b6 = put_all (codec16 o) b5 (inode_off d.pack4 d.nicfree) nicinod_disk fl.inode in
    let b7 = put32 o b6 t (u32 fs.host.now) in
    let b8 = poke b7 (t - d.fmod_back) (if fs.fmod == 0 then 0 else 1) in encode_tail fs b8

unfoldable pub decode_v7 : Edition → Bytes → Edition
decode_v7 fs sb =
    let d = fs.desc in
    let o = d.bo in
    let t = time_off d.pack4 d.nicfree in
    record fs {
      isize = get16 o sb 0;
      fsize = get32 o sb (fsize_off d.pack4);
      fl = record fs.fl {
        nfree = get16 o sb (nfree_off d.pack4);
        free = get_all (codec32 o) sb (free_off d.pack4) d.nicfree fs.fl.free;
        ninode = get16 o sb (ninode_off d.pack4 d.nicfree);
        inode = get_all (codec16 o) sb (inode_off d.pack4 d.nicfree) nicinod_disk fs.fl.inode;
      };
      time = get32 o sb t;
      fmod = sb (t - d.fmod_back);
    }

-- ---- the V8 family (alloc_v8bitmap.c)

-- Bit `b` of word `w` of the in-superblock bitmap, for the bits that exist.
v8_word : Edition → ℕ → ℕ → ℕ
v8_word fs w zero = 0
v8_word fs w (suc b) =
    let i = w * 32 + b in
    let word = v8_word fs w b in
    if leb fs.v8_nbits i
    then word
    else if has_bit (fs.v8_bits (i / 8)) (i % 8)
    then bit_or word (1 << b)
    else word

v8_words : Edition → Bytes → ℕ → Bytes
unfolding v8_word
v8_words fs sb zero = sb
v8_words fs sb (suc w) = put32 fs.desc.bo (v8_words fs sb w) (252 + 4 * w) (v8_word fs w 32)

unfoldable pub encode_v8_map : Edition → Freemap → Bytes → Bytes
unfolding v8_words
encode_v8_map fs list sb =
    put_all (codec32 fs.desc.bo) (put16 fs.desc.bo sb 248 fs.fl.nfree) 252 fs.desc.nicfree
      fs.fl.free
encode_v8_map fs bitmap sb = v8_words fs (poke sb 248 1) 961
encode_v8_map fs bigmap sb =
    put32 fs.desc.bo (poke (poke sb 248 1) 249 1) 252 (u32 (fs.desc.bsize * 8))

unfoldable pub encode_v8 : Edition → Bytes → Bytes
unfolding encode_v8_map
encode_v8 fs sb =
    let o = fs.desc.bo in
    let fl = fs.fl in
    let b1 = put16 o sb 0 fs.isize in
    let b2 = put32 o b1 4 fs.fsize in
    let b3 = put16 o b2 8 fl.ninode in
    let b4 = put_all (codec16 o) b3 10 nicinod_disk fl.inode in
    let b5 = put32 o b4 216 (u32 fs.host.now) in
    let b6 = poke b5 212 (if fs.fmod == 0 then 0 else 1) in
    let b7 = put32 o b6 220 fl.tfree in
    let b8 = put16 o b7 224 (u16 fl.tinode) in encode_v8_map fs fs.desc.freemap b8

-- ---- writing it back

unfoldable pub encode : Edition → Bytes → Bytes
unfolding encode_v6 encode_v7 encode_v8
encode fs sb =
    if fs.desc.v8_super
    then encode_v8 fs sb
    else if fs.desc.isize_count
    then encode_v6 fs sb
    else encode_v7 fs sb

-- System V keeps the superblock at byte 512, the others in block 1.
unfoldable pub read_super : Edition → Outcome Bytes
read_super fs = if fs.desc.dyn_bsize then io_file_read fs 512 (512 + fs.base) else read_block fs 1

unfoldable pub write_super : Edition → Bytes → Step (Unit {0})
write_super fs sb =
    if fs.desc.dyn_bsize then io_file_write fs sb 512 (512 + fs.base) else write_block fs 1 sb

-- The end of the write: a failure is -EIO, and success clears `fl_dirty`.
settle : Step (Unit {0}) → Step (Unit {0})
settle (ok u, fs) = (ok tt, record fs { fl_dirty = false })
settle (err e, fs) = (err eio, fs)

unfoldable pub super_write : Edition → Step (Unit {0})
unfolding settle
super_write fs = if fs.readonly then (ok tt, fs) else elim (read_super fs) [
  | ok sb ↦ settle (write_super fs (encode fs sb))
  | err e ↦ (err eio, fs)
]
