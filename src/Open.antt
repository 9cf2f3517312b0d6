-- ===== src/Open.antt =====
-- v7fs_open of v7fs.c, from the open file on: the geometry of System V, the decoding of the
-- superblock, and the checks that a volume passes. On a failure the file is closed, so only the error
-- is left. `filsys_dev_size` is the host's: its result, the size of the image, is a parameter.
pub mod Checks
pub mod Mount
use filsys.Base.{ℕ, ◌+◌, ◌*◌, ◌/◌, Bool, true, false, not, ◌&&◌, ◌||◌, Bytes}
use filsys.Base.{u64, Option, none, some, leb, ltb, ◌==◌, if◌then◌else◌}
use filsys.Base.{Errno, eio, einval, Outcome, ok, err, ◌>>=◌}
use filsys.ByteOrder.{get16, get32}
use filsys.Volume.{Desc, Edition, list, read_block, io_file_read, data_first}
use filsys.Super.{decode_v6, decode_v7, time_off, tfree_off}
use filsys.Bitmap.{sb_decode, bitmap_load}
use filsys.FreeList.Count.{count_free, v6_segment, v7_segment}

-- Any error of a step becomes `e`.
abbrev pub failing_with {ℓ} : {A : Type ℓ} → Errno → Outcome A → Outcome A
failing_with e (ok a) = ok a
failing_with e (err x) = err e

-- The block size that `s_type` names; 0 is unknown.
unfoldable pub sysv_bsize : ℕ → ℕ
sysv_bsize t = if t == 1 then 512 else if t == 2 then 1024 else if t == 3 then 2048 else 0

unfoldable pub sysv_geometry : Edition → Outcome Edition
unfolding sysv_bsize
sysv_geometry fs =
    if not fs.desc.dyn_bsize
    then ok fs
    else failing_with eio (io_file_read fs 512 (512 + fs.base)) >>= λ probe.
        let bsize = sysv_bsize (get32 fs.desc.bo probe 508) in
        if not fs.desc.ignore_magic && not (get32 fs.desc.bo probe 504 == 0xfd187e20)
        then err einval
        else if bsize == 0
        then err einval
        else ok (record fs {
          desc = record fs.desc { bsize = bsize; nindir = bsize / fs.desc.daddr_wid };
        })

unfoldable pub open_read_super : Edition → Outcome Bytes
open_read_super fs =
    failing_with eio
      (if fs.desc.dyn_bsize then io_file_read fs 512 (512 + fs.base) else read_block fs 1)

-- The layout that the descriptor selects.
unfoldable pub decode_super : Edition → Bytes → Outcome Edition
decode_super fs sb =
    if fs.desc.v8_super
    then (let d = sb_decode fs sb in failing_with einval (d.0 >>= λ u. ok d.1))
    else if fs.desc.isize_count
    then ok (decode_v6 fs sb)
    else ok (decode_v7 fs sb)

unfoldable pub load_map : Edition → Bytes → Outcome Edition
load_map fs sb =
    if fs.desc.v8_super && (elim fs.desc.freemap [ list ↦ false | _ ↦ true ])
    then (let d = bitmap_load fs sb in failing_with eio (d.0 >>= λ u. ok d.1))
    else ok fs

-- The counts of the caches are within their depths.
unfoldable pub check_counts : Edition → Outcome Edition
check_counts fs =
    if ltb fs.desc.nicfree fs.fl.nfree || ltb fs.desc.nicinod fs.fl.ninode
    then err einval
    else ok fs

-- The totals, from the superblock or counted.
unfoldable pub with_totals : Edition → Bytes → Edition
with_totals fs sb =
    let t = tfree_off fs.desc.pack4 fs.desc.nicfree fs.desc.has_dinfo in
    if fs.desc.v8_super
    then fs
    else if fs.desc.isize_count
    then count_free v6_segment fs
    else if not fs.desc.pack4 || not (fs.desc.magic == 0)
    then record fs {
      fl = record fs.fl { tfree = get32 fs.desc.bo sb t; tinode = get16 fs.desc.bo sb (t + 4) };
    }
    else count_free v7_segment fs

unfoldable pub with_interleave : Edition → Bytes → Edition
with_interleave fs sb =
    let t = time_off fs.desc.pack4 fs.desc.nicfree in
    if fs.desc.interleave
    then record fs {
      m = get16 fs.desc.bo sb (t + 10);
      n = get16 fs.desc.bo sb (t + 12);
      unique = get32 fs.desc.bo sb (t + 26);
    }
    else fs

unfoldable pub check_magic : Edition → Bytes → Outcome Edition
check_magic fs sb =
    if not fs.desc.ignore_magic
      && not (fs.desc.magic == 0)
      && not (get32 fs.desc.bo sb fs.desc.magic_off == fs.desc.magic)
    then err einval
    else ok fs

-- `none` is a failure of filsys_dev_size.
unfoldable pub check_geometry : Option ℕ → Edition → Outcome Edition
check_geometry none fs = err einval
check_geometry (some imgsize) fs =
    if ltb fs.isize (if fs.desc.isize_count then 1 else 2)
      || ltb imgsize (u64 (fs.base + fs.fsize * fs.desc.bsize))
      || leb fs.fsize (data_first fs)
    then err einval
    else ok (record fs { imgsize = imgsize })

-- The last steps, from the counts on.
unfoldable pub finish_open : Option ℕ → Bytes → Edition → Outcome Edition
unfolding check_counts check_magic check_geometry
finish_open size sb fs = check_counts fs >>= λ f.
    check_magic (with_interleave (with_totals f sb) sb) sb >>= check_geometry size

unfoldable pub open_volume : Option ℕ → Edition → Outcome Edition
unfolding finish_open
open_volume size fs = sysv_geometry fs >>= λ f.
    open_read_super f >>= λ sb. decode_super f sb >>= λ g. load_map g sb >>= finish_open size sb
