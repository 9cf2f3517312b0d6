-- ===== src/Path.antt =====
-- filsys_path.c: the shell over the engine that takes paths. A path is its bytes without the NUL;
-- `path_max` is PATH_MAX.
pub mod Components
pub mod Walk
use filsys.Base.{ℕ, zero, suc, ◌+◌, Bool, true, false, List, [], ◌∷◌, Option, none, some, bit_and}
use filsys.Base.{Bytes, Name, same_name, length, leb, ◌==◌, if◌then◌else◌}
use filsys.Base.{Errno, einval, eisdir, enametoolong, Outcome, ok, err, ◌>>=◌, look}
use filsys.Volume.{Edition, Step}
use filsys.Inode.{Inode}
use filsys.Engine.{Ops, mode_is_dir, walk}
use filsys.Engine.Modes.{Posix}
use filsys.Engine.Create.{create_in, mkdir_in, mknod_in, symlink_in}
use filsys.Engine.Remove.{unlink_in, rmdir_in, link_in}
use filsys.Engine.Rename.{rename_in}
use filsys.Engine.Contents.{Offset, read_ino, write_ino, truncate_ino, readlink_ino}
use filsys.Engine.Attributes.{Utime, chmod_ino, chown_ino, utimens_ino}

-- `strchr(p, '/')`: the bytes before the first slash, and those behind it if there is one.
unfoldable pub first_slash : Name → Name × Option Name
first_slash [] = ([], none)
first_slash (c ∷ p) =
    let rest = first_slash p in if c == 47 then ([], some p) else (c ∷ rest.0, rest.1)

-- `strrchr(path, '/')`: the bytes before the last slash and those behind it.
unfoldable pub last_slash : Name → Option (Name × Name)
last_slash [] = none
last_slash (c ∷ p) = elim (last_slash p) [
  | some (d, n) ↦ some (c ∷ d, n)
  | none ↦ if c == 47 then some ([], p) else none
]

-- `dlen == 0` takes the slash itself.
abbrev pub dir_part : Name → Name
dir_part [] = 47 ∷ []
dir_part (c ∷ d) = c ∷ d

-- The result beside the two buffers, which hold `d0` and `n0` before the call.
unfoldable pub split_path : Name → ℕ → Name → ℕ → Name → Outcome (Unit {0}) × Name × Name
unfolding last_slash
split_path path dirsz d0 namesz n0 = elim (last_slash path) [
  | none ↦ (err einval, d0, n0)
  | some (d, n) ↦
      if leb dirsz (length (dir_part d))
      then (err enametoolong, d0, n0)
      else if length n == 0
      then (err einval, dir_part d, n0)
      else if leb namesz (length n)
      then (err enametoolong, dir_part d, n0)
      else (ok tt, dir_part d, n)
]

-- `slash ? slash + 1 : p + len`
abbrev pub behind : Option Name → Name
behind none = []
behind (some r) = r

module _ (ops : Ops) (path_max : ℕ) where
  -- The loop of path_lookup. Every round takes a byte at least, so the length bounds them.
  unfoldable pub walk_path : Edition → ℕ → ℕ → Name → Outcome ℕ
  unfolding first_slash
  walk_path fs zero cur p = ok cur
  walk_path fs (suc left) cur [] = ok cur
  walk_path fs (suc left) cur (c ∷ p) =
      let (name, rest) = first_slash (c ∷ p) in
      let skipped = walk_path fs left cur p in
      if length name == 0
      then skipped
      else if leb 64 (length name)
      then err enametoolong
      else walk ops fs cur name >>= λ next. walk_path fs left next (behind rest)

  unfoldable pub path_lookup : Edition → Name → Outcome ℕ
  unfolding walk_path
  path_lookup fs [] = err einval
  path_lookup fs (c ∷ p) = if c == 47 then walk_path fs (length p) fs.desc.rootino p else err einval

  -- With an `ip` that is not NULL.
  unfoldable pub path_inode : Edition → Name → Outcome (ℕ × Inode)
  path_inode fs path = path_lookup fs path >>= λ ino. ops.read_inode fs ino >>= λ ip. ok (ino, ip)

  -- The parent's number and the final name.
  unfoldable pub resolve_parent : Edition → Name → Outcome (ℕ × Name)
  resolve_parent fs path =
      let (rc, dir, name) = split_path path path_max [] (fs.desc.max_namlen + 1) [] in
      rc >>= λ u. path_inode fs dir >>= λ d. ok (d.0, name)

  pub read : Edition → Name → ℕ → Offset → Outcome (ℕ × Bytes)
  unfolding path_lookup
  read fs path size off = path_lookup fs path >>= λ ino. read_ino ops fs ino size off

  unfoldable pub write : Edition → Name → Bytes → ℕ → Offset → Step ℕ
  write fs path buf size off =
      look (path_lookup fs path) fs (λ ino. write_ino ops fs ino buf size off)

  unfoldable pub create : Edition → Name → ℕ → ℕ → ℕ → Step ℕ
  create fs path mode uid gid =
      look (resolve_parent fs path) fs (λ d. create_in ops fs d.0 d.1 mode uid gid)

  unfoldable pub mkdir : Edition → Name → ℕ → ℕ → ℕ → Step (Unit {0})
  mkdir fs path mode uid gid =
      look (resolve_parent fs path) fs (λ d. mkdir_in ops fs d.0 d.1 mode uid gid)

  unfoldable pub mknod : Posix → Bool → Edition → Name → ℕ → ℕ → ℕ → ℕ → Step (Unit {0})
  mknod p is_v1 fs path mode rdev uid gid =
      if bit_and mode p.s_ifmt == p.s_ifreg
      then (let c = create fs path (bit_and mode 4095) uid gid in (c.0 >>= λ ino. ok tt, c.1))
      else look (resolve_parent fs path) fs (λ d. mknod_in ops p is_v1 fs d.0 d.1 mode rdev uid gid)

  -- The path is resolved in full first, to refuse a directory.
  unfoldable pub unlink : Edition → Name → Bool → Step (Unit {0})
  unlink fs path defer =
      let (rc, dir, name) = split_path path path_max [] (fs.desc.max_namlen + 1) [] in
      look rc fs (λ u. look (path_inode fs path) fs (λ f.
        if mode_is_dir fs.desc f.1
        then (err eisdir, fs)
        else look (path_inode fs dir) fs (λ d. unlink_in ops fs d.0 name defer)))

  unfoldable pub rmdir : Edition → Name → Step (Unit {0})
  rmdir fs path = look (resolve_parent fs path) fs (λ d. rmdir_in ops fs d.0 d.1)

  unfoldable pub link : Edition → Name → Name → Step (Unit {0})
  link fs from to =
      look (path_lookup fs from) fs
        (λ ino. look (resolve_parent fs to) fs (λ d. link_in ops fs ino d.0 d.1))

  -- The result of the split of `from` is not looked at; `d0` and `n0` are what the buffers `fdir`
  -- and `fname` happen to hold.
  unfoldable pub rename : Name → Name → Edition → Name → Name → ℕ → Bool → Step (Unit {0})
  rename d0 n0 fs from to flags defer =
      let (rc', fdir, fname) = split_path from path_max d0 (fs.desc.max_namlen + 1) n0 in
      let (rc, tdir, tname) = split_path to path_max [] (fs.desc.max_namlen + 1) [] in
      if same_name from to
      then (ok tt, fs)
      else look rc fs (λ u.
        look (path_inode fs fdir) fs (λ s.
          look (path_inode fs tdir) fs (λ t. rename_in ops fs s.0 fname t.0 tname flags defer)))

  -- `uid` and `gid` are those of the mount.
  unfoldable pub symlink : Edition → Name → Name → ℕ → ℕ → Step (Unit {0})
  symlink fs target linkpath uid gid =
      look (resolve_parent fs linkpath) fs (λ d. symlink_in ops fs target d.0 d.1 uid gid)

  unfoldable pub truncate : Edition → Name → Offset → Step (Unit {0})
  truncate fs path size = look (path_lookup fs path) fs (λ ino. truncate_ino ops fs ino size)

  unfoldable pub chmod : Edition → Name → ℕ → Step (Unit {0})
  chmod fs path mode = look (path_lookup fs path) fs (λ ino. chmod_ino ops fs ino mode)

  unfoldable pub chown : Edition → Name → Option ℕ → Option ℕ → Step (Unit {0})
  chown fs path uid gid = look (path_lookup fs path) fs (λ ino. chown_ino ops fs ino uid gid)

  unfoldable pub utimens : Edition → Name → Utime → Utime → Step (Unit {0})
  utimens fs path atime mtime =
      look (path_lookup fs path) fs (λ ino. utimens_ino ops fs ino atime mtime)

  unfoldable pub readlink : Edition → Name → ℕ → Outcome (ℕ × Bytes)
  readlink fs path size = path_lookup fs path >>= λ ino. readlink_ino ops fs ino size
