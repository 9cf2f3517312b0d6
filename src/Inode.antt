-- ===== src/Inode.antt =====
-- The inode codecs of v7fs.c: the 64-byte inode of the V7 family (with 3- or 4-byte addresses) and
-- the 32-byte inode of V6, and the reads and writes of an inode slot.
pub mod Order
pub mod Effect
use filsys.Base.{ℕ, ◌+◌, ◌*◌}
use filsys.Base.{Bytes, poke, u8, u16, low_bits, ◌<<◌, ◌>>◌, bit_or}
use filsys.Base.{◌==◌, leb, if◌then◌else◌}
use filsys.Base.{eio, einval, Outcome, ok, err}
use filsys.ByteOrder.{get16, put16, get32, put32}
use filsys.ByteOrder.Entries.{Codec, codec16, codec24, codec32, put_all, get_all}
use filsys.Volume.{Desc, Edition, Step, read_block, write_block, itod, itoo}
use filsys.Super.{super_write}

-- `filsys_inode_t`. The signed 16-bit fields are kept as their bit patterns.
pub record Inode : Type 0 where
  pub ino : ℕ
  pub mode : ℕ
  pub nlink : ℕ
  pub uid : ℕ
  pub gid : ℕ
  pub size : ℕ
  pub addr : ℕ → ℕ
  pub atime : ℕ
  pub mtime : ℕ
  pub ctime : ℕ

-- `memset(&ip, 0, sizeof ip); ip.ino = ino`
abbrev pub blank : ℕ → Inode
blank ino = record {
  ino = ino;
  mode = 0;
  nlink = 0;
  uid = 0;
  gid = 0;
  size = 0;
  addr = λ _. 0;
  atime = 0;
  mtime = 0;
  ctime = 0;
}

-- The address entries of a 64-byte inode.
abbrev pub addr_codec : Desc → Codec
addr_codec d = if d.addr_width == 4 then codec32 d.bo else codec24 d.bo

-- ---- the 64-byte inode, at offset `d` of its block

unfoldable pub decode_64 : Desc → ℕ → Bytes → ℕ → Inode
decode_64 desc ino raw d =
    let o = desc.bo in
    record {
      ino = ino;
      mode = get16 o raw d;
      nlink = get16 o raw (d + 2);
      uid = get16 o raw (d + 4);
      gid = get16 o raw (d + 6);
      size = get32 o raw (d + 8);
      addr = get_all (addr_codec desc) raw (d + 12) desc.niaddr (λ _. 0);
      atime = get32 o raw (d + 52);
      mtime = get32 o raw (d + 56);
      ctime = get32 o raw (d + 60);
    }

unfoldable pub encode_64 : Desc → Inode → Bytes → ℕ → Bytes
encode_64 desc ip raw d =
    let o = desc.bo in
    let b1 = put16 o raw d (u16 ip.mode) in
    let b2 = put16 o b1 (d + 2) (u16 ip.nlink) in
    let b3 = put16 o b2 (d + 4) (u16 ip.uid) in
    let b4 = put16 o b3 (d + 6) (u16 ip.gid) in
    let b5 = put32 o b4 (d + 8) ip.size in
    let b6 = put_all (addr_codec desc) b5 (d + 12) desc.niaddr ip.addr in
    let b7 = put32 o b6 (d + 52) ip.atime in
    let b8 = put32 o b7 (d + 56) ip.mtime in put32 o b8 (d + 60) ip.ctime

-- ---- the 32-byte inode of V6: one-byte counts and ids, a 24-bit size, no change time

unfoldable pub decode_32 : Desc → ℕ → Bytes → ℕ → Inode
decode_32 desc ino raw d =
    let o = desc.bo in
    record {
      ino = ino;
      mode = get16 o raw d;
      nlink = raw (d + 2);
      uid = raw (d + 3);
      gid = raw (d + 4);
      size = bit_or (raw (d + 5) << 16) (get16 o raw (d + 6));
      addr = get_all (codec16 o) raw (d + 8) desc.niaddr (λ _. 0);
      atime = get32 o raw (d + 24);
      mtime = get32 o raw (d + 28);
      ctime = get32 o raw (d + 28);
    }

unfoldable pub encode_32 : Desc → Inode → Bytes → ℕ → Bytes
encode_32 desc ip raw d =
    let o = desc.bo in
    let b1 = put16 o raw d (u16 ip.mode) in
    let b2 = poke b1 (d + 2) (u8 ip.nlink) in
    let b3 = poke b2 (d + 3) (u8 ip.uid) in
    let b4 = poke b3 (d + 4) (u8 ip.gid) in
    let b5 = poke b4 (d + 5) (u8 (low_bits (ip.size >> 16) 8)) in
    let b6 = put16 o b5 (d + 6) (u16 (low_bits ip.size 16)) in
    let b7 = put_all (codec16 o) b6 (d + 8) desc.niaddr (λ i. u16 (ip.addr i)) in
    let b8 = put32 o b7 (d + 24) ip.atime in put32 o b8 (d + 28) ip.mtime

-- ---- reading and writing a slot: `desc.ops->inode->read_inode` and `write_inode`

-- One past the last block of the i-list.
abbrev pub ilist_end : Edition → ℕ
ilist_end fs = if fs.desc.inode_32 then fs.isize + 2 else fs.isize

abbrev pub slot_off : Edition → ℕ → ℕ
slot_off fs ino = itoo fs ino * fs.desc.inode_size

decode_slot : Edition → ℕ → Bytes → Inode
unfolding decode_64 decode_32
decode_slot fs ino raw =
    if fs.desc.inode_32
    then decode_32 fs.desc ino raw (slot_off fs ino)
    else decode_64 fs.desc ino raw (slot_off fs ino)

encode_slot : Edition → ℕ → Inode → Bytes → Bytes
unfolding encode_64 encode_32
encode_slot fs ino ip raw =
    if fs.desc.inode_32
    then encode_32 fs.desc ip raw (slot_off fs ino)
    else encode_64 fs.desc ip raw (slot_off fs ino)

unfoldable pub read_inode : Edition → ℕ → Outcome Inode
unfolding decode_slot
read_inode fs ino =
    if ino == 0
    then err einval
    else if leb (ilist_end fs) (itod fs ino)
    then err einval
    else elim (read_block fs (itod fs ino)) [
      | ok raw ↦ ok (decode_slot fs ino raw)
      | err e ↦ err eio
    ]

-- The part of the write behind the flush of the allocator state.
store_inode : Edition → ℕ → Inode → Step (Unit {0})
unfolding encode_slot
store_inode fs ino ip =
    if leb (ilist_end fs) (itod fs ino)
    then (err einval, fs)
    else elim (read_block fs (itod fs ino)) [
      | ok raw ↦ write_block fs (itod fs ino) (encode_slot fs ino ip raw)
      | err e ↦ (err eio, fs)
    ]

after_flush : Step (Unit {0}) → ℕ → Inode → Step (Unit {0})
unfolding store_inode
after_flush (ok u, fs) ino ip = store_inode fs ino ip
after_flush (err e, fs) ino ip = (err e, fs)

-- The allocator state goes to disk before the inode that may refer to a new block.
unfoldable pub write_inode : Edition → ℕ → Inode → Step (Unit {0})
unfolding after_flush
write_inode fs ino ip =
    if ino == 0
    then (err einval, fs)
    else after_flush (if fs.fl_dirty then super_write fs else (ok tt, fs)) ino ip
