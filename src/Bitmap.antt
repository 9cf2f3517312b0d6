-- ===== src/Bitmap.antt =====
-- alloc_v8bitmap.c: the bitmap allocator of the V8 family. Bit `i` of `v8_bits` is set iff block
-- `v8_base + i` is free. The bitmap lies in the superblock, or in blocks at the end of the volume.
pub mod Laws
pub mod Alloc
pub mod Sync
pub mod Rebuild
use filsys.Base.{ℕ, zero, suc, ◌+◌, ◌-◌, ◌*◌, ◌/◌, ◌%◌, ◌^◌, Bool, true, false, ◌&&◌, ◌||◌}
use filsys.Base.{Bytes, poke, zeros, blit, from, u8, u32, ltb, leb, ◌==◌, if◌then◌else◌}
use filsys.Base.{has_bit, with_bit, without_bit, Option, none, some}
use filsys.Base.{Errno, eio, enospc, einval, e2big, Outcome, ok, err}
use filsys.ByteOrder.{get16, get32}
use filsys.ByteOrder.Entries.{codec16, codec32, get_all}
use filsys.Volume.{Desc, Edition, Freelist, Freemap, list, bitmap, bigmap, Step}
use filsys.Volume.{read_block, write_block}
use filsys.Super.{nicinod_disk, super_write}
use filsys.FreeList.{as_eio}

-- `bits[i >> 3] & (uint8_t)(1u << (i & 7))`
abbrev pub bit_at : Bytes → ℕ → Bool
bit_at bits i = has_bit (bits (i / 8)) (i % 8)

-- `bits[i >> 3] |= (uint8_t)(1u << (i & 7))`
abbrev pub set_bit : Bytes → ℕ → Bytes
set_bit bits i = poke bits (i / 8) (with_bit (bits (i / 8)) (i % 8))

-- `bits[i >> 3] &= (uint8_t)~(1u << (i & 7))`
abbrev pub clear_bit : Bytes → ℕ → Bytes
clear_bit bits i = poke bits (i / 8) (without_bit (bits (i / 8)) (i % 8))

-- `a - b` on `uint32_t`
abbrev pub sub32 : ℕ → ℕ → ℕ
sub32 a b = u32 (a + (2 ^ 32 - b))

-- ---- the superblock of the family

unfoldable pub sb_decode : Edition → Bytes → Step (Unit {0})
sb_decode fs sb =
    let o = fs.desc.bo in
    let listed : Bool = elim fs.desc.freemap [ list ↦ true | _ ↦ false ] in
    let nfree = if listed then get16 o sb 248 else 0 in
    let ninode = get16 o sb 8 in
    let fs' = record fs {
      isize = get16 o sb 0;
      fsize = get32 o sb 4;
      fl = record fs.fl {
        nfree = nfree;
        ninode = ninode;
        free = if listed then get_all (codec32 o) sb 252 fs.desc.nicfree fs.fl.free else fs.fl.free;
        inode = get_all (codec16 o) sb 10 nicinod_disk fs.fl.inode;
        tfree = get32 o sb 220;
        tinode = get16 o sb 224;
      };
      time = get32 o sb 216;
      fmod = sb 212;
    } in
    if ltb fs.desc.nicfree nfree || ltb fs.desc.nicinod ninode
    then (err einval, fs')
    else (ok tt, fs')

-- ---- loading

-- The first `b` bits of word `w` of the in-superblock bitmap.
load_word : ℕ → ℕ → ℕ → ℕ → Bytes → Bytes
load_word nbits w word zero bits = bits
load_word nbits w word (suc b) bits =
    let rest = load_word nbits w word b bits in
    let i = w * 32 + b in if ltb i nbits && has_bit word b then set_bit rest i else rest

load_words : Edition → Bytes → ℕ → Bytes
unfolding load_word
load_words fs sb zero = zeros
load_words fs sb (suc w) =
    load_word fs.v8_nbits w (get32 fs.desc.bo sb (252 + 4 * w)) 32 (load_words fs sb w)

-- The bytes of the bitmap that block `k` of it holds.
unfoldable pub map_bytes : Edition → ℕ → ℕ
map_bytes fs k =
    if k == sub32 fs.v8_nblks 1
    then u32 (sub32 fs.v8_nbits (u32 (k * fs.desc.bsize * 8)) + 7) / 8
    else fs.desc.bsize

load_blocks : Edition → ℕ → Outcome Bytes
load_blocks fs zero = ok zeros
load_blocks fs (suc k) = elim (load_blocks fs k) [
  | err e ↦ err e
  | ok bits ↦ elim (read_block fs (u32 (fs.v8_blk_start + k))) [
    | err e ↦ err eio
    | ok blk ↦ ok (blit bits (k * fs.desc.bsize) (map_bytes fs k) blk)
  ]
]

-- Where the bitmap lies. An edition whose free space is a list has no bitmap.
unfoldable pub map_extent : Edition → Edition
map_extent fs =
    let per = u32 (fs.desc.bsize * 8) in
    let nblks = sub32 (u32 (fs.fsize + per)) 1 / per in
    elim fs.desc.freemap [
      | bigmap ↦ record fs {
        v8_base = 0;
        v8_nbits = fs.fsize;
        v8_nblks = nblks;
        v8_blk_start = sub32 fs.fsize nblks;
      }
      | _ ↦ record fs { v8_base = fs.isize; v8_nbits = sub32 fs.fsize fs.isize; v8_nblks = 0 }
    ]

loaded : Edition → Outcome Bytes → Step (Unit {0})
loaded fs (ok bits) = (ok tt, record fs { v8_bits = bits })
loaded fs (err e) = (err e, fs)

unfoldable pub bitmap_load : Edition → Bytes → Step (Unit {0})
unfolding load_words load_blocks map_extent loaded
bitmap_load fs sb =
    let g = map_extent fs in
    elim fs.desc.freemap [
      | bigmap ↦ loaded g (load_blocks g g.v8_nblks)
      | bitmap ↦
          if ltb 30752 g.v8_nbits
          then (err e2big, g)
          else loaded g (ok (load_words g sb (u32 (g.v8_nbits + 31) / 32)))
      | list ↦ if ltb 30752 g.v8_nbits then (err e2big, g) else loaded g (load_blocks g g.v8_nblks)
    ]

-- ---- allocation and release

-- The first set bit of the `left` bits from `i` on.
unfoldable pub first_free : Bytes → ℕ → ℕ → Option ℕ
first_free bits zero i = none
first_free bits (suc left) i = elim (bit_at bits i) [
  | true ↦ some i
  | false ↦ first_free bits left (i + 1)
]

-- The block is zeroed; a failed write leaves its bit clear.
unfoldable pub hand_out : Step (Unit {0}) → ℕ → Step ℕ
hand_out (ok u, fs) blk = (
  ok blk,
  record fs {
    fl = record fs.fl { tfree = if fs.fl.tfree == 0 then fs.fl.tfree else fs.fl.tfree - 1 };
    fl_dirty = true;
  },
)
hand_out (err e, fs) blk = (err eio, fs)

unfoldable pub take_bit : Edition → ℕ → Step ℕ
take_bit fs i =
    let blk = u32 (fs.v8_base + i) in
    hand_out (write_block (record fs { v8_bits = clear_bit fs.v8_bits i }) blk zeros) blk

unfoldable pub balloc : Edition → Step ℕ
balloc fs = elim (first_free fs.v8_bits fs.v8_nbits 0) [
  | some i ↦ take_bit fs i
  | none ↦ (err enospc, fs)
]

unfoldable pub bfree : Edition → ℕ → Edition
bfree fs bno =
    if ltb bno fs.v8_base || leb (u32 (fs.v8_base + fs.v8_nbits)) bno then fs else record fs {
      v8_bits = set_bit fs.v8_bits (bno - fs.v8_base);
      fl = record fs.fl { tfree = u32 (fs.fl.tfree + 1) };
      fl_dirty = true;
    }

-- ---- writing it back

-- Block `k` of the out-of-superblock bitmap.
unfoldable pub map_block : Edition → ℕ → Bytes
map_block fs k = blit zeros 0 (map_bytes fs k) (from fs.v8_bits (k * fs.desc.bsize))

then_block : Step (Unit {0}) → ℕ → Step (Unit {0})
unfolding map_block
then_block (err e, fs) k = (err e, fs)
then_block (ok u, fs) k = as_eio (write_block fs (u32 (fs.v8_blk_start + k)) (map_block fs k))

-- The first `n` blocks of the bitmap, in order, up to the first failure.
sync_blocks : Edition → ℕ → Step (Unit {0})
sync_blocks fs zero = (ok tt, fs)
sync_blocks fs (suc k) = then_block (sync_blocks fs k) k

then_super : Step (Unit {0}) → Step (Unit {0})
then_super (ok u, fs) = super_write fs
then_super (err e, fs) = (err e, fs)

unfoldable pub bitmap_sync : Edition → Step (Unit {0})
unfolding sync_blocks then_block then_super
bitmap_sync fs = if fs.readonly then (ok tt, fs) else elim fs.desc.freemap [
  | bigmap ↦ then_super (sync_blocks fs fs.v8_nblks)
  | _ ↦ super_write fs
]

-- ---- rebuild

-- The blocks from `blk` on that the map of used blocks leaves free, with their count.
unfoldable pub free_unused : Edition → Bytes → ℕ → ℕ → ℕ → Bytes × ℕ
free_unused fs used nblk zero blk = (zeros, 0)
free_unused fs used nblk (suc left) blk =
    let rest = free_unused fs used nblk left (blk + 1) in
    let off = blk - fs.isize in
    if leb nblk off || bit_at used off
    then rest
    else (set_bit rest.0 (sub32 blk fs.v8_base), rest.1 + 1)

-- `used` and `nblk` are the `bmap` and `nblk` of the check context.
unfoldable pub makefree_bitmap : Edition → Bytes → ℕ → ℕ × Edition
unfolding map_extent free_unused bitmap_sync
makefree_bitmap fs used nblk =
    let g = map_extent fs in
    let found = free_unused g used nblk (g.fsize - g.isize) g.isize in
    let g' = record g {
      v8_bits = found.0;
      fl = record g.fl { nfree = 0; ninode = 0; tfree = found.1; tinode = 0 };
    } in
    (found.1, (bitmap_sync g').1)
