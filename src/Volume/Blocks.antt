-- ===== src/Volume/Blocks.antt =====
-- What block input and output promise: a written block reads back, every other block and every
-- byte outside the image stays as it was.
use native.Mathlib.Decide.{dec_lt}
use filsys.Base.{ℕ, ◌+◌, ◌-◌, ◌*◌, ◌≤◌, ◌<◌, ◌≡◌, ◌≢◌, inl, inr, ap, sym, subst, true, false, arith}
use filsys.Base.{Bytes, Agrees, Apart, from, blit, ok, is_ok}
use filsys.Volume.{Edition, read_block, write_block, check_range}

-- Where block `bno` starts in the backing file.
abbrev pub block_at : Edition → ℕ → ℕ
block_at fs bno = fs.base + bno * fs.desc.bsize

-- A failed write may have changed a prefix of its block; nothing outside the block ever changes.
pub write_block-outside :
    (fs : Edition) (bno : ℕ) (buf : Bytes) (q n : ℕ)
    → Apart q n (block_at fs bno) fs.desc.bsize
    → Agrees (write_block fs bno buf).1.img fs.img q n
unfolding write_block
write_block-outside fs bno buf q n a i l = ground arith

-- Two blocks do not meet.
pub blocks-Apart : (s a b : ℕ) → a ≢ b → Apart (a * s) s (b * s) s
blocks-Apart s a b ne = elim (dec_lt a b) [
  | yes h ↦ inl (grind arith)
  | no h ↦ inr (let l : b < a = omega arith in grind arith)
]

-- The volume with a block replaced in the backing file.
abbrev pub put_block : Edition → ℕ → Bytes → Edition
put_block fs bno buf = record fs { img = blit fs.img (block_at fs bno) fs.desc.bsize buf }

abbrev pub block_of : Edition → ℕ → Bytes
block_of fs bno = from fs.img (block_at fs bno)

-- A write that reports success has put the whole block, and nothing else.
pub write_block-ok :
    (fs : Edition) (bno : ℕ) (buf : Bytes)
    → is_ok (write_block fs bno buf).0 ≡ true
    → (write_block fs bno buf).1 ≡ put_block fs bno buf
unfolding write_block
write_block-ok fs bno buf e = ground arith

-- A block that was written with success reads back, on a host that then transfers the whole block.
pub read_block-write_block :
    (fs : Edition) (bno : ℕ) (buf : Bytes)
    → is_ok (write_block fs bno buf).0 ≡ true
    → fs.host.pread_count (block_at fs bno) fs.desc.bsize ≡ fs.desc.bsize
    → (c : Bytes) × (read_block (write_block fs bno buf).1 bno ≡ ok c)
      × Agrees c buf 0 fs.desc.bsize
unfolding read_block write_block
read_block-write_block fs bno buf e whole =
    let g = put_block fs bno buf in
    (
      block_of g bno,
      subst (λ h. read_block h bno ≡ ok (block_of g bno)) (sym (write_block-ok fs bno buf e))
          (ground (arith, e, whole)),
      λ i l.
          let moved : block_at fs bno + i - block_at fs bno ≡ i = omega arith in
          ground (arith, ap buf moved),
    )

-- A volume whose host transfers every byte, open for writing, inside its image.
pub record IsHealthy (fs : Edition) : Type 0 where
  pub reads : (off n : ℕ) → fs.host.pread_count off n ≡ n
  pub writes : (off n : ℕ) → fs.host.pwrite_count off n ≡ n
  pub writable : fs.readonly ≡ false
  pub fits : fs.base + fs.fsize * fs.desc.bsize ≤ fs.imgsize

pub check_range-block :
    (fs : Edition) (bno : ℕ)
    → fs.base + fs.fsize * fs.desc.bsize ≤ fs.imgsize
    → bno < fs.fsize
    → check_range fs (block_at fs bno) fs.desc.bsize ≡ true
unfolding check_range
check_range-block fs bno fit l =
    let m : bno * fs.desc.bsize + fs.desc.bsize ≤ fs.fsize * fs.desc.bsize = grind arith in
    ground arith

module _ (fs : Edition) (v : IsHealthy fs) (bno : ℕ) (l : bno < fs.fsize) where
  pub read_block-healthy : read_block fs bno ≡ ok (block_of fs bno)
  unfolding read_block
  read_block-healthy =
      ground (arith, check_range-block fs bno v.fits l, v.reads (block_at fs bno) fs.desc.bsize)

  pub write_block-healthy : (buf : Bytes) → write_block fs bno buf ≡ (ok tt, put_block fs bno buf)
  unfolding write_block
  write_block-healthy buf = ground (
    arith,
    check_range-block fs bno v.fits l,
    v.writes (block_at fs bno) fs.desc.bsize,
    v.writable,
  )
