-- ===== src/Engine/Contents.antt =====
-- The operations of filsys.c on the bytes of a file: read, write, truncate, readlink and the map of
-- an extent.
use filsys.Base.{ℕ, zero, suc, ◌+◌, ◌-◌, ◌*◌, ◌/◌, ◌%◌, min, Bool, false, not, []}
use filsys.Base.{Bytes, zeros, u32, ltb, ◌==◌, if◌then◌else◌, bit_and}
use filsys.Base.{einval, efbig, enosys, Outcome, ok, err, ◌>>=◌, and_then, look}
use filsys.Volume.{Edition, Step}
use filsys.Inode.{Inode}
use filsys.Tree.{drain}
use filsys.Tree.Map.{bmap}
use filsys.Tree.Tail.{itrunc_from}
use filsys.File.{Written, file_read, file_write}
use filsys.Engine.{Ops}

-- `off_t`
pub data Offset : Type 0 where
  negative : Offset
  at : ℕ → Offset

-- How many blocks a file of `size` bytes has: `size ? (size - 1) / bsize + 1 : 0`.
unfoldable pub blocks_of : ℕ → ℕ → ℕ
blocks_of size bsize = if size == 0 then 0 else (size - 1) / bsize + 1

-- The blocks from `first` on leave the inode, the inode is written, and only then they are freed.
abbrev pub resize : Ops → Edition → ℕ → Inode → ℕ → (Inode → Inode) → Step (Unit {0})
resize ops fs ino ip first f =
    let (rc, ip', fs', b) = itrunc_from fs ip first [] in
    and_then (rc, fs') (λ u g. and_then (ops.write_inode g ino (f ip')) (λ u h. (ok tt, drain h b)))

-- The last block that stays has its bytes from `size` to `tail` zeroed, unless it is a hole.
unfoldable pub zero_tail : Edition → Inode → ℕ → ℕ → ℕ → Written (Unit {0})
zero_tail fs ip last size tail =
    if ltb size tail
    then elim (bmap fs ip last false).0 [
      | err e ↦ (ok tt, ip, fs)
      | ok bno ↦
          if bno == 0
          then (ok tt, ip, fs)
          else let (rc, ip', fs') = file_write fs ip zeros (tail - size) size in
            elim rc [ err e ↦ (err e, ip', fs') | ok n ↦ (ok tt, ip', fs') ]
    ]
    else (ok tt, ip, fs)

module _ (ops : Ops) where
  unfoldable pub read_ino : Edition → ℕ → ℕ → Offset → Outcome (ℕ × Bytes)
  read_ino fs ino size off = ops.read_inode fs ino >>= λ ip. elim off [
    | negative ↦ err einval
    | at o ↦ file_read fs ip size o
  ]

  -- A write that fails half-way gives back the blocks behind the old size. When that fails too, its
  -- error is the one returned.
  unfoldable pub write_at : Edition → ℕ → Inode → Bytes → ℕ → ℕ → Step ℕ
  write_at fs ino ip buf size off =
      if ltb (ops.max_file fs.desc) (off + size)
      then (err efbig, fs)
      else let (rc, ip', fs') = file_write fs ip buf size off in
        elim rc [
          | ok n ↦ (ok n, fs')
          | err e ↦
              and_then (resize ops fs' ino ip' (blocks_of ip.size fs.desc.bsize) (λ i. i))
                (λ u g. (err e, g))
        ]

  unfoldable pub write_ino : Edition → ℕ → Bytes → ℕ → Offset → Step ℕ
  unfolding write_at
  write_ino fs ino buf size off =
      look (ops.read_inode fs ino) fs
        (λ ip. elim off [ negative ↦ (err einval, fs) | at o ↦ write_at fs ino ip buf size o ])

  unfoldable pub shrink : Edition → ℕ → Inode → ℕ → Step (Unit {0})
  shrink fs ino ip size =
      let bsize = fs.desc.bsize in
      let last = if size == 0 then 0 else (size - 1) / bsize in
      let blk_end = if size == 0 then 0 else u32 ((last + 1) * bsize) in
      let (rc, ip', fs') = zero_tail fs ip last size (min ip.size blk_end) in
      and_then (rc, fs')
        (λ u g.
          resize ops g ino ip' (if size == 0 then 0 else last + 1) (λ i. record i { size = size }))

  unfoldable pub truncate_inode : Edition → ℕ → Inode → Offset → Step (Unit {0})
  unfolding shrink
  truncate_inode fs ino ip negative = (err efbig, fs)
  truncate_inode fs ino ip (at size) =
      if ltb (ops.max_file fs.desc) size
      then (err efbig, fs)
      else if u32 size == ip.size
      then (ok tt, fs)
      else if ltb (u32 size) ip.size
      then shrink fs ino ip (u32 size)
      else ops.write_inode fs ino (record ip { size = u32 size })

  unfoldable pub truncate_ino : Edition → ℕ → Offset → Step (Unit {0})
  unfolding truncate_inode
  truncate_ino fs ino size = look (ops.read_inode fs ino) fs (λ ip. truncate_inode fs ino ip size)

  unfoldable pub readlink_ino : Edition → ℕ → ℕ → Outcome (ℕ × Bytes)
  readlink_ino fs ino size =
      if fs.desc.iflnk == 0
      then err enosys
      else ops.read_inode fs ino >>= λ ip.
          let n = min ip.size size in
          if not (bit_and ip.mode fs.desc.ifmt == fs.desc.iflnk)
          then err einval
          else if n == 0
          then ok (0, zeros)
          else file_read fs ip n 0

  -- The run of bmap: every round of its loop adds a byte at least, so `len` rounds are enough.
  unfoldable pub run : Edition → Inode → ℕ → ℕ → ℕ → ℕ → ℕ → ℕ
  run fs ip len zero cur expect plen = plen
  run fs ip len (suc left) cur expect plen =
      if ltb plen len
      then elim (bmap fs ip cur false).0 [
        | err e ↦ plen
        | ok nb ↦
            let next = if nb == 0 then 0 else u32 (nb + 1) in
            let rest =
              run fs ip len left (u32 (cur + 1)) next (plen + min fs.desc.bsize (len - plen)) in
            if nb == expect then rest else plen
      ]
      else plen

  -- The physical address, the length, and whether it is mapped.
  unfoldable pub bmap_ino : Edition → ℕ → ℕ → ℕ → Outcome (ℕ × ℕ × Bool)
  unfolding run
  bmap_ino fs ino off len = ops.read_inode fs ino >>= λ ip.
      let bsize = fs.desc.bsize in
      let lbn = u32 (off / bsize) in
      let boff = off % bsize in
      (bmap fs ip lbn false).0 >>= λ bno. ok (
        bno * bsize + boff,
        run fs ip len len (u32 (lbn + 1)) (if bno == 0 then 0 else u32 (bno + 1))
            (min (bsize - boff) len),
        not (bno == 0),
      )
