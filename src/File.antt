-- ===== src/File.antt =====
-- filsys_file_read and filsys_file_write of v7fs.c: the bytes of a file, block by block. The offset
-- is not negative here, which both functions check first.
pub mod Read
use filsys.Base.{ℕ, zero, suc, ◌+◌, ◌-◌, ◌*◌, ◌/◌, ◌%◌, min, Bool, true, false}
use filsys.Base.{Bytes, zeros, blit, from, u32, ltb, leb, ◌==◌, if◌then◌else◌}
use filsys.Base.{Errno, eio, enospc, Outcome, ok, err, and_then}
use filsys.Volume.{Edition, Step, read_block, write_block}
use filsys.Inode.{Inode, write_inode}
use filsys.Tree.Map.{bmap}

-- The bytes of block `lbn` of the file; a hole reads as zeros. Without `create` filsys_bmap changes
-- neither the inode nor the volume.
unfoldable pub block_bytes : Edition → Inode → ℕ → Outcome Bytes
block_bytes fs ip lbn = elim (bmap fs ip lbn false).0 [
  | err e ↦ err eio
  | ok pbn ↦
      if pbn == 0 then ok zeros else elim (read_block fs pbn) [ err e ↦ err eio | ok blk ↦ ok blk ]
]

-- How many bytes a round moves.
abbrev pub round_size : Edition → ℕ → ℕ → ℕ → ℕ
round_size fs size off done = min (fs.desc.bsize - u32 ((off + done) % fs.desc.bsize)) (size - done)

-- `while (done < size)`. A round moves a byte at least, so `size` rounds are enough.
unfoldable pub read_loop : Edition → Inode → ℕ → ℕ → ℕ → ℕ → Bytes → Outcome (ℕ × Bytes)
unfolding block_bytes
read_loop fs ip size off zero done buf = ok (done, buf)
read_loop fs ip size off (suc left) done buf =
    let at = off + done in
    elim (ltb done size) [
      | false ↦ ok (done, buf)
      | true ↦ elim (block_bytes fs ip (u32 (at / fs.desc.bsize))) [
        | err e ↦ err eio
        | ok blk ↦
            let n = round_size fs size off done in
            read_loop fs ip size off left (done + n)
              (blit buf done n (from blk (u32 (at % fs.desc.bsize))))
      ]
    ]

-- The count and the bytes.
unfoldable pub file_read : Edition → Inode → ℕ → ℕ → Outcome (ℕ × Bytes)
unfolding read_loop
file_read fs ip size off =
    let wanted = min size (ip.size - off) in
    if leb ip.size off then ok (0, zeros) else read_loop fs ip wanted off wanted 0 zeros

-- What a write returns, with the inode and the volume.
abbrev pub Written : Type 0 → Type 0
Written A = Outcome A × Inode × Edition

-- One block is read, changed and written; the inode is the one that filsys_bmap left.
unfoldable pub change_block : Edition → ℕ → ℕ → ℕ → Bytes → Outcome (Unit {0}) × Edition
change_block fs pbn boff n src = if pbn == 0 then (err enospc, fs) else elim (read_block fs pbn) [
  | err e ↦ (err eio, fs)
  | ok blk ↦
      let w = write_block fs pbn (blit blk boff n src) in
      elim w.0 [ err e ↦ (err eio, w.1) | ok u ↦ (ok tt, w.1) ]
]

unfoldable pub write_loop : ℕ → ℕ → Bytes → ℕ → ℕ → Inode → Edition → Written ℕ
unfolding change_block
write_loop size off buf zero done ip fs = (ok done, ip, fs)
write_loop size off buf (suc left) done ip fs =
    let at = off + done in
    elim (ltb done size) [
      | false ↦ (ok done, ip, fs)
      | true ↦
          let (rc, ip', fs') = bmap fs ip (u32 (at / fs.desc.bsize)) true in
          elim rc [
            | err e ↦ (err e, ip', fs')
            | ok pbn ↦
                let n = round_size fs size off done in
                let w = change_block fs' pbn (u32 (at % fs.desc.bsize)) n (from buf done) in
                elim w.0 [
                  | err e ↦ (err e, ip', w.1)
                  | ok u ↦ write_loop size off buf left (done + n) ip' w.1
                ]
          ]
    ]

-- The size grows to the end of the write, and then the inode is written.
unfoldable pub write_done : ℕ → ℕ → Written ℕ → Written ℕ
write_done size off (err e, ip, fs) = (err e, ip, fs)
write_done size off (ok n, ip, fs) =
    let ip' = if ltb ip.size (off + size) then record ip { size = u32 (off + size) } else ip in
    let w = write_inode fs ip'.ino ip' in
    elim w.0 [ err e ↦ (err e, ip', w.1) | ok u ↦ (ok n, ip', w.1) ]

unfoldable pub file_write : Edition → Inode → Bytes → ℕ → ℕ → Written ℕ
unfolding write_loop write_done
file_write fs ip buf size off = write_done size off (write_loop size off buf size 0 ip fs)
