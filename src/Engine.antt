-- ===== src/Engine.antt =====
-- filsys.c, the layer above the editions: the operations on nodes, over the tables of an edition.
-- The functions of the V7 engine have no override of the mode conversions in their descriptors.
pub mod Modes
pub mod Create
pub mod Remove
pub mod Rename
pub mod Contents
pub mod Attributes
pub mod Checks
pub mod Moves
use filsys.Base.{ℕ, ◌+◌, ◌-◌, Bool, true, false, not, ◌&&◌, ◌||◌, List, [], ◌∷◌}
use filsys.Base.{u16, u32, ltb, leb, ◌==◌, if◌then◌else◌, bit_and, bit_or, Bytes, Name, same_name}
use filsys.Base.{Errno, eio, einval, eexist, enoent, enotdir, enametoolong, efbig, Outcome, ok, err}
use filsys.Base.{zero, suc, ◌>>=◌, and_then, look, length}
use filsys.Volume.{Desc, Edition, Step}
use filsys.Inode.{Inode, blank}
use filsys.FreeList.{update}
use filsys.Tree.{itrunc, drain}
use filsys.File.{Written}

-- An entry that the scan of a directory yields: the inode's number and the name.
abbrev pub Entry : Type 0
Entry = ℕ × Name

-- What the calls of `dir_iter` over a whole directory yield, up to the call that does not return 1,
-- and what that call returns: 0, or an error.
abbrev pub Scan : Type 0
Scan = List Entry × Outcome (Unit {0})

-- `filsys_ops`, `filsys_dir_ops` and `filsys_inode_ops`, as far as the engine calls them.
pub record Ops : Type 0 where
  pub read_inode : Edition → ℕ → Outcome Inode
  pub write_inode : Edition → ℕ → Inode → Step (Unit {0})
  pub ialloc : Edition → Step ℕ
  pub ifree : Edition → ℕ → Edition
  pub dir_lookup : Edition → Inode → Name → Outcome ℕ
  pub dir_add : Edition → Inode → ℕ → Name → Written (Unit {0})
  pub dir_remove : Edition → Inode → Name → Written (Unit {0})
  pub dir_iter : Edition → Inode → Scan
  pub max_file : Desc → ℕ

-- `FILSYS_FT_*`
pub data FileType : Type 0 where
  ft_reg ft_dir ft_chr ft_blk ft_lnk : FileType

-- ---- mode conversion

unfoldable pub mode_is_dir : Desc → Inode → Bool
mode_is_dir d ip = bit_and ip.mode d.ifmt == d.ifdir

unfoldable pub mode_is_device : Desc → Inode → Bool
mode_is_device d ip =
    let t = bit_and ip.mode d.ifmt in
    t == d.ifchr
    || t == d.ifblk
    || (not (d.ifmpc == 0) && t == d.ifmpc)
    || (not (d.ifmpb == 0) && t == d.ifmpb)

unfoldable pub mode_to_disk : Desc → ℕ → FileType → ℕ
mode_to_disk d m type =
    let base = bit_or (bit_and m 4095) d.iallocated in
    elim type [
      | ft_dir ↦ bit_or base d.ifdir
      | ft_chr ↦ bit_or base d.ifchr
      | ft_blk ↦ bit_or base d.ifblk
      | ft_lnk ↦ bit_or base d.iflnk
      | ft_reg ↦ if d.ifreg == 0 then base else bit_or base d.ifreg
    ]

-- `(old & ~07777) | (m & 07777)`: the lowest twelve bits of `old` are cleared by the subtraction.
unfoldable pub mode_chmod : ℕ → ℕ → ℕ
mode_chmod old m = bit_or (old - bit_and old 4095) (bit_and m 4095)

-- `uid > INT16_MAX || gid > INT16_MAX`
unfoldable pub uidgid_fit : ℕ → ℕ → Outcome (Unit {0})
uidgid_fit uid gid = if ltb 32767 uid || ltb 32767 gid then err einval else ok tt

-- `rc == -ENOENT`
unfoldable pub is_enoent : Errno → Bool
is_enoent enoent = true
is_enoent e = false

-- `.` and `..`
abbrev pub dot : Name
dot = 46 ∷ []

abbrev pub dotdot : Name
dotdot = 46 ∷ 46 ∷ []

-- `nlink++` and `nlink--` on `int16_t`
abbrev pub nlink_inc : Inode → Inode
nlink_inc ip = record ip { nlink = u16 (ip.nlink + 1) }

abbrev pub nlink_dec : Inode → Inode
nlink_dec ip = record ip { nlink = u16 (ip.nlink + 65535) }

-- `nlink <= 0` on `int16_t`
unfoldable pub no_links : Inode → Bool
no_links ip = ip.nlink == 0 || leb 32768 ip.nlink

-- The result of a call of which only the volume counts from then on.
abbrev pub volume : {A : Type 0} → Written A → Step A
volume (r, ip, fs) = (r, fs)

-- `if (f(...)) return -EIO`
abbrev pub or_eio : {A : Type 0} → Outcome A → Outcome A
or_eio (ok a) = ok a
or_eio (err e) = err eio

-- `nlink > 1` on `int16_t`
unfoldable pub many_links : Inode → Bool
many_links ip = ltb 1 ip.nlink && ltb ip.nlink 32768

module _ (ops : Ops) where
  -- The cleared inode reaches the disk before its blocks and its number are released.
  unfoldable pub inode_destroy : Edition → ℕ → Inode → Step (Unit {0})
  inode_destroy fs ino ip =
      let (r, ip', b) = itrunc fs ip [] in
      look r fs (λ u.
        and_then (ops.write_inode fs ino (record ip' { mode = 0 }))
          (λ u fs'. (ok tt, ops.ifree (drain fs' b) ino)))

  unfoldable pub free_ino : Edition → ℕ → Step (Unit {0})
  unfolding inode_destroy
  free_ino fs ino = elim (ops.read_inode fs ino) [
    | err e ↦ (err eio, fs)
    | ok ip ↦ inode_destroy fs ino ip
  ]

  unfoldable pub walk : Edition → ℕ → Name → Outcome ℕ
  walk fs ino name =
      if ltb fs.desc.max_namlen (length name)
      then err enametoolong
      else ops.read_inode fs ino >>= λ dip.
          if mode_is_dir fs.desc dip then ops.dir_lookup fs dip name else err enotdir

  -- The inode that the scan starts on.
  unfoldable pub dir_seek : Edition → ℕ → Outcome Inode
  dir_seek fs ino = ops.read_inode fs ino >>= λ ip.
      if not (mode_is_dir fs.desc ip)
      then err enotdir
      else if ltb (ops.max_file fs.desc) ip.size
      then err efbig
      else ok ip

  unfoldable pub only_dots : List Entry → Outcome (Unit {0}) → Outcome Bool
  only_dots [] end = end >>= λ u. ok true
  only_dots ((ino, name) ∷ more) end =
      let rest = only_dots more end in
      if same_name name dot || same_name name dotdot then rest else ok false

  unfoldable pub dir_is_empty : Edition → ℕ → Outcome Bool
  unfolding only_dots
  dir_is_empty fs ino = dir_seek fs ino >>= λ ip. let s = ops.dir_iter fs ip in only_dots s.0 s.1

  unfoldable pub preflight_create : Edition → Inode → Name → Outcome (Unit {0})
  preflight_create fs ddir name =
      if not (mode_is_dir fs.desc ddir)
      then err enotdir
      else if same_name name dot || same_name name dotdot
      then err eexist
      else elim (ops.dir_lookup fs ddir name) [
        | ok present ↦ err eexist
        | err e ↦ if is_enoent e then ok tt else err e
      ]

  unfoldable pub withdraw_name : Edition → ℕ → Name → ℕ → Step (Unit {0})
  withdraw_name fs dino name nino = look (ops.read_inode fs dino) fs (λ fresh.
      elim (ops.dir_lookup fs fresh name) [
        | err e ↦ if is_enoent e then (ok tt, fs) else (err e, fs)
        | ok found ↦ if found == nino then volume (ops.dir_remove fs fresh name) else (ok tt, fs)
      ])

  -- The inode in core behind the memset.
  abbrev pub new_inode : Edition → ℕ → ℕ → ℕ → FileType → ℕ → ℕ → Inode
  new_inode fs mode uid gid type rdev ino =
      let now = u32 fs.host.now in
      let ip : Inode = record {
        ino = ino;
        mode = mode_to_disk fs.desc mode type;
        nlink = elim type [ ft_dir ↦ 2 | _ ↦ 1 ];
        uid = u16 uid;
        gid = u16 gid;
        size = 0;
        addr = λ _. 0;
        atime = now;
        mtime = now;
        ctime = now;
      } in
      if rdev == 0 then ip else record ip { addr = update ip.addr 0 rdev }

  -- The number and the written inode.
  unfoldable pub inode_create : Edition → ℕ → ℕ → ℕ → FileType → ℕ → Step (ℕ × Inode)
  inode_create fs mode uid gid type rdev = and_then (ops.ialloc fs) (λ ino fs'.
      let ip = new_inode fs' mode uid gid type rdev ino in
      let w = ops.write_inode fs' ino ip in
      elim w.0 [ ok u ↦ (ok (ino, ip), w.1) | err e ↦ (err e, ops.ifree w.1 ino) ])

  -- `rm_desc_t`, with the inode whose link count went down, and the state.
  unfoldable pub remove_name : Edition → Inode → Name → Inode → Bool → Step (Inode × Bool × Bool)
  remove_name fs ddir name ip defer = and_then (volume (ops.dir_remove fs ddir name)) (λ u fs'.
      let ip' = nlink_dec ip in
      let orphaned = no_links ip' in (ok (ip', orphaned, orphaned && defer), fs'))
