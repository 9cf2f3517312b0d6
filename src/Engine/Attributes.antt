-- ===== src/Engine/Attributes.antt =====
-- The operations of filsys.c on the attributes of an inode and of the volume.
use filsys.Base.{ℕ, ◌+◌, ◌-◌, ◌*◌, ◌^◌, min, Bool, false, ◌||◌, Option, none, some}
use filsys.Base.{u16, u32, ltb, ◌==◌, if◌then◌else◌}
use filsys.Base.{einval, Outcome, ok, err, ◌>>=◌, look}
use filsys.Volume.{Desc, Edition, Step, inopb}
use filsys.Inode.{Inode}
use filsys.Tree.{allocated_blocks}
use filsys.Engine.{Ops, mode_is_device, mode_chmod}
use filsys.Engine.Modes.{Posix, mode_to_posix}

-- `filsys_stat_t`
pub record Stat : Type 0 where
  pub ino : ℕ
  pub mode : ℕ
  pub nlink : ℕ
  pub uid : ℕ
  pub gid : ℕ
  pub size : ℕ
  pub rdev : ℕ
  pub atime : ℕ
  pub mtime : ℕ
  pub ctime : ℕ
  pub blksize : ℕ
  pub bytes : ℕ

-- A time that utimens is given.
pub data Utime : Type 0 where
  now omit : Utime
  seconds : ℕ → Utime

-- `filsys_statfs_t`
pub record Statfs : Type 0 where
  pub bsize : ℕ
  pub blocks : ℕ
  pub bfree : ℕ
  pub bavail : ℕ
  pub files : ℕ
  pub ffree : ℕ
  pub namemax : ℕ

-- The 64-bit subtraction of the source is at `isize` of at least 2, which the open checks.
unfoldable pub statfs : Edition → Statfs
statfs fs = record {
  bsize = fs.desc.bsize;
  blocks = fs.fsize;
  bfree = fs.fl.tfree;
  bavail = fs.fl.tfree;
  files = (fs.isize - 2) * inopb fs;
  ffree = fs.fl.tinode;
  namemax = fs.desc.max_namlen;
}

-- `filsys_max_file_op`: the blocks that the tree can map, cut by the size field.
unfoldable pub max_file_op : Desc → ℕ
max_file_op d =
    let n = d.nindir in
    let cap = min ((d.ndaddr + n + n * n + n * n * n) * d.bsize) (2 ^ 32 - 1) in
    if d.size_bits == 0 then cap else min cap (2 ^ d.size_bits - 1)

-- The int16_t count becomes unsigned with its sign.
abbrev pub widen : ℕ → ℕ
widen n = if ltb n 32768 then n else n + (2 ^ 32 - 2 ^ 16)

-- `uid` and `gid` are those of the mount.
unfoldable pub stat_inode : Posix → Edition → ℕ → ℕ → Inode → Outcome Stat
stat_inode p fs uid gid ip = allocated_blocks fs ip >>= λ blocks. ok (record {
  ino = ip.ino;
  mode = mode_to_posix p fs.desc ip;
  nlink = widen ip.nlink;
  uid = uid;
  gid = gid;
  size = ip.size;
  rdev = if mode_is_device fs.desc ip then ip.addr 0 else 0;
  atime = ip.atime;
  mtime = ip.mtime;
  ctime = ip.ctime;
  blksize = fs.desc.bsize;
  bytes = blocks * fs.desc.bsize;
})

-- The time that a field gets.
abbrev pub utime : ℕ → Utime → ℕ → ℕ
utime clock now old = clock
utime clock omit old = old
utime clock (seconds t) old = u32 t

-- `none` is the id -1, which stays; the new one is above INT16_MAX.
abbrev pub too_big : Option ℕ → Bool
too_big none = false
too_big (some n) = ltb 32767 n

abbrev pub set_id : Option ℕ → ℕ → ℕ
set_id none old = old
set_id (some n) old = u16 n

module _ (ops : Ops) where
  unfoldable pub stat_ino : Posix → Edition → ℕ → ℕ → ℕ → Outcome Stat
  unfolding stat_inode
  stat_ino p fs uid gid ino = ops.read_inode fs ino >>= stat_inode p fs uid gid

  unfoldable pub chmod_ino : Edition → ℕ → ℕ → Step (Unit {0})
  chmod_ino fs ino mode = look (ops.read_inode fs ino) fs (λ ip.
      ops.write_inode fs ino
        (record ip { mode = mode_chmod ip.mode mode; ctime = u32 fs.host.now }))

  unfoldable pub chown_ino : Edition → ℕ → Option ℕ → Option ℕ → Step (Unit {0})
  chown_ino fs ino uid gid =
      if too_big uid || too_big gid
      then (err einval, fs)
      else look (ops.read_inode fs ino) fs (λ ip.
        ops.write_inode fs ino
          (record ip { uid = set_id uid ip.uid; gid = set_id gid ip.gid; ctime = u32 fs.host.now }))

  -- A NULL `tv` is a pair of `now`.
  unfoldable pub utimens_ino : Edition → ℕ → Utime → Utime → Step (Unit {0})
  utimens_ino fs ino atime mtime = look (ops.read_inode fs ino) fs (λ ip.
      let clock = u32 fs.host.now in
      ops.write_inode fs ino (record ip {
        atime = utime clock atime ip.atime;
        mtime = utime clock mtime ip.mtime;
        ctime = clock;
      }))
