-- ===== src/Engine/Modes.antt =====
-- The file types of the host, and the conversion of a mode of the volume to one of the host.
use filsys.Base.{ℕ, not, ◌&&◌, ◌||◌, ◌==◌, if◌then◌else◌, bit_and, bit_or}
use filsys.Volume.{Desc}
use filsys.Inode.{Inode}

-- `S_IFMT` and the types of <sys/stat.h>.
pub record Posix : Type 0 where
  pub s_ifmt : ℕ
  pub s_ifdir : ℕ
  pub s_ifchr : ℕ
  pub s_ifblk : ℕ
  pub s_iflnk : ℕ
  pub s_ifsock : ℕ
  pub s_ifreg : ℕ
  pub s_isuid : ℕ
  pub s_isgid : ℕ

-- The permissions of V9 and V10, whose bit 01000 says that 07000 is the concurrency type.
unfoldable pub v910_permissions : Posix → ℕ → ℕ
v910_permissions p mode =
    let m = bit_and mode 511 in
    let m1 = if bit_and mode 2048 == 0 then m else bit_or m p.s_isuid in
    let m2 = if bit_and mode 1024 == 0 then m1 else bit_or m1 p.s_isgid in
    if bit_and mode 512 == 0 then m2 else m

-- `v910_to_posix_mode`, which has no sockets
unfoldable pub v910_to_posix_mode : Posix → Desc → Inode → ℕ
v910_to_posix_mode p d ip =
    let m = v910_permissions p ip.mode in
    let t = bit_and ip.mode d.ifmt in
    if t == d.ifdir
    then bit_or m p.s_ifdir
    else if t == d.ifchr || (not (d.ifmpc == 0) && t == d.ifmpc)
    then bit_or m p.s_ifchr
    else if t == d.ifblk || (not (d.ifmpb == 0) && t == d.ifmpb)
    then bit_or m p.s_ifblk
    else if not (d.iflnk == 0) && t == d.iflnk
    then bit_or m p.s_iflnk
    else bit_or m p.s_ifreg

unfoldable pub mode_to_posix : Posix → Desc → Inode → ℕ
mode_to_posix p d ip =
    let m = bit_and ip.mode 4095 in
    let t = bit_and ip.mode d.ifmt in
    if d.iconc
    then v910_to_posix_mode p d ip
    else if t == d.ifdir
    then bit_or m p.s_ifdir
    else if t == d.ifchr || (not (d.ifmpc == 0) && t == d.ifmpc)
    then bit_or m p.s_ifchr
    else if t == d.ifblk || (not (d.ifmpb == 0) && t == d.ifmpb)
    then bit_or m p.s_ifblk
    else if not (d.iflnk == 0) && t == d.iflnk
    then bit_or m p.s_iflnk
    else if not (d.ifsock == 0) && t == d.ifsock
    then bit_or m p.s_ifsock
    else bit_or m p.s_ifreg
