-- ===== src/Check/Editions.antt =====
-- The check half of the tables of the V7 engine (v7fs.c): the kinds of inodes of each edition, and
-- the rebuild of V6 with its fixed interleaving of 3 in 100.
use filsys.Base.{ℕ, zero, suc, ◌+◌, ◌-◌, ◌*◌, ◌/◌, ◌%◌, Bool, true, ◌||◌}
use filsys.Base.{bit_and, ◌==◌, ltb, leb, if◌then◌else◌}
use filsys.Volume.{Edition}
use filsys.Super.{super_write}
use filsys.FreeList.{bfree, update, with_fl}
use filsys.Bitmap.{bit_at}
use filsys.Backend.{v7fs_ops}
use filsys.Check.{Context, Kind, unalloc, unknown, idir, ireg, ichr, iblk, ipipe, inc}
use filsys.Check.Rebuild.{makefree}
use filsys.Check.Driver.{CheckOps}
use filsys.Check.Common.{clean_flag}

unfoldable pub v7_inode_state : ℕ → Kind
v7_inode_state mode =
    let t = bit_and mode 61440 in
    if mode == 0
    then unalloc
    else if t == 16384
    then idir
    else if t == 32768 || t == 40960
    then ireg
    else if t == 8192 || t == 12288
    then ichr
    else if t == 24576 || t == 28672
    then iblk
    else if t == 4096
    then ipipe
    else unknown

unfoldable pub bsd211_inode_state : ℕ → Kind
bsd211_inode_state mode =
    let t = bit_and mode 61440 in
    if mode == 0
    then unalloc
    else if t == 16384
    then idir
    else if t == 32768 || t == 40960
    then ireg
    else if t == 8192 || t == 49152
    then ichr
    else if t == 24576
    then iblk
    else unknown

unfoldable pub v6_inode_state : ℕ → Kind
v6_inode_state mode =
    let t = bit_and mode 24576 in
    if mode == 0
    then unalloc
    else if t == 16384
    then idir
    else if t == 8192
    then ichr
    else if t == 24576
    then iblk
    else ireg

-- ---- the order of the rebuild of V6

-- `while (flg[i]) i = (i + 1) % n`, with the rounds that can be left
unfoldable pub next_unused : ℕ → (ℕ → ℕ) → ℕ → ℕ
next_unused zero flg i = i
next_unused (suc left) flg i =
    let more = next_unused left flg ((i + 1) % 100) in if flg i == 0 then i else more

-- The table `adr` with its flags and the place reached, behind `j` turns.
unfoldable pub spread : ℕ → (ℕ → ℕ) × (ℕ → ℕ) × ℕ
spread zero = (λ _. 0, λ _. 0, 0)
spread (suc j) =
    let (adr, flg, at) = spread j in
    let i = next_unused 100 flg at in (update adr j (i + 1), update flg i 1, (i + 3) % 100)

-- The block `d - adr[i]` is released if it is a data block that the check did not mark.
unfoldable pub release_at : Context → ℕ → ℕ × Edition → ℕ × Edition
release_at cx b (nfree, fs) =
    if ltb b (fs.isize + 2) || leb fs.fsize b
    then (nfree, fs)
    else if bit_at cx.bmap (b - (fs.isize + 2))
    then (nfree, fs)
    else (inc nfree, bfree fs b)

-- The first `k` entries of the table, in order.
unfoldable pub release_group : Context → (ℕ → ℕ) → ℕ → ℕ → ℕ × Edition → ℕ × Edition
release_group cx adr d zero r = r
release_group cx adr d (suc i) r = release_at cx (d - adr i) (release_group cx adr d i r)

-- The groups of 100 blocks, the highest first.
unfoldable pub release_groups : Context → (ℕ → ℕ) → ℕ → ℕ × Edition → ℕ × Edition
release_groups cx adr zero r = r
release_groups cx adr (suc g) r =
    release_groups cx adr g (release_group cx adr ((g + 1) * 100) 100 r)

-- The subtraction is at an `fsize` that is not 0.
unfoldable pub v6_makefree : Edition → Context → ℕ × Edition
v6_makefree fs cx =
    let start = with_fl fs (record fs.fl { nfree = 0; ninode = 0 }) in
    let r = release_groups cx (spread 100).0 ((fs.fsize - 1 + 99) / 100) (0, start) in
    (r.0, (super_write r.1).1)

-- ---- the tables

-- `has_fmod` says whether the superblock of the edition has the flag.
abbrev pub v7_check_ops : Bool → CheckOps
v7_check_ops has_fmod = record {
  engine = v7fs_ops;
  inode_state = v7_inode_state;
  is_clean = clean_flag has_fmod;
  makefree = makefree;
}

abbrev pub v6_check_ops : CheckOps
v6_check_ops = record {
  engine = v7fs_ops;
  inode_state = v6_inode_state;
  is_clean = clean_flag true;
  makefree = v6_makefree;
}
