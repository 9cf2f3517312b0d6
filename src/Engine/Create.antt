-- ===== src/Engine/Create.antt =====
-- The operations of filsys.c that make a name: create, mkdir, mknod and symlink.
use filsys.Base.{ℕ, Bool, not, ◌&&◌, bit_and, [], ◌==◌, if◌then◌else◌}
use filsys.Base.{Name, eio, eperm, enosys, ok, err, and_then, look}
use filsys.Base.{length, text}
use filsys.Volume.{Edition, Step}
use filsys.Inode.{Inode}
use filsys.Tree.{itrunc, drain}
use filsys.File.{Written, file_write}
use filsys.Engine.{Ops, ft_reg, ft_dir, ft_chr, ft_blk, ft_lnk, uidgid_fit, preflight_create}
use filsys.Engine.{inode_create, inode_destroy, withdraw_name, nlink_inc, nlink_dec, dot, dotdot}
use filsys.Engine.Modes.{Posix}

module _ (ops : Ops) where
  -- The rollback of a name that did not land: the inode goes only when its name is gone for sure.
  unfoldable pub undo_create : Edition → ℕ → Name → ℕ → Inode → Edition
  undo_create fs dir name nino nip =
      let w = withdraw_name ops fs dir name nino in
      elim w.0 [ ok u ↦ (inode_destroy ops w.1 nino nip).1 | err e' ↦ w.1 ]

  -- `dir_add` of the new inode, with its rollback.
  unfoldable pub enter : Edition → ℕ → Inode → Name → ℕ → Inode → Step (Unit {0})
  unfolding undo_create
  enter fs dir ddir name nino nip =
      let a = ops.dir_add fs ddir nino name in
      elim a.0 [ ok u ↦ (ok tt, a.2) | err e ↦ (err e, undo_create a.2 dir name nino nip) ]

  -- The number of the new file.
  unfoldable pub create_in : Edition → ℕ → Name → ℕ → ℕ → ℕ → Step ℕ
  unfolding enter
  create_in fs dir name mode uid gid = look (uidgid_fit uid gid) fs (λ u.
      look (ops.read_inode fs dir) fs (λ ddir. look (preflight_create ops fs ddir name) fs (λ u.
        and_then (inode_create ops fs mode uid gid ft_reg 0)
          (λ new fs'. and_then (enter fs' dir ddir name new.0 new.1) (λ u g. (ok new.0, g))))))

  -- `fail:` of mkdir. A failed itrunc is not looked at, and what it had collected is drained.
  unfoldable pub undo_mkdir : Edition → ℕ → Inode → Edition
  undo_mkdir fs nino nip =
      let (r, ip, b) = itrunc fs nip [] in
      let w = ops.write_inode fs nino (record ip { mode = 0 }) in
      elim w.0 [ ok u ↦ ops.ifree (drain w.1 b) nino | err e ↦ w.1 ]

  -- A step of mkdir behind the creation of the inode; `rc` stays what the step returned.
  unfoldable pub or_undo :
      Written (Unit {0}) → ℕ → Inode → (Inode → Edition → Step (Unit {0})) → Step (Unit {0})
  unfolding undo_mkdir
  or_undo (ok u, ip, fs) nino nip next = next ip fs
  or_undo (err e, ip, fs) nino nip next = (err e, undo_mkdir fs nino ip)

  -- The parent counts the new directory's `..`. When its inode is not written, dir_remove returns
  -- into `rc`, which `fail:` returns.
  unfoldable pub link_parent : Edition → ℕ → Inode → Name → ℕ → Inode → Step (Unit {0})
  unfolding undo_mkdir
  link_parent fs dir ddir name nino nip =
      let w = ops.write_inode fs dir (nlink_inc ddir) in
      elim w.0 [
        | ok u ↦ (ok tt, w.1)
        | err e ↦
            let (rc, ip, fs') = ops.dir_remove w.1 (nlink_dec (nlink_inc ddir)) name in
            elim rc [ ok u ↦ (ok tt, undo_mkdir fs' nino nip) | err e' ↦ (err e', fs') ]
      ]

  unfoldable pub enter_dir : Edition → ℕ → Inode → Name → ℕ → Inode → Step (Unit {0})
  unfolding link_parent undo_mkdir
  enter_dir fs dir ddir name nino nip =
      let (rc, ddir', fs') = ops.dir_add fs ddir nino name in
      elim rc [
        | ok u ↦ link_parent fs' dir ddir' name nino nip
        | err e ↦
            let w = withdraw_name ops fs' dir name nino in
            elim w.0 [ ok u ↦ (err e, undo_mkdir w.1 nino nip) | err e' ↦ (err e, w.1) ]
      ]

  unfoldable pub mkdir_in : Edition → ℕ → Name → ℕ → ℕ → ℕ → Step (Unit {0})
  unfolding or_undo enter_dir
  mkdir_in fs dir name mode uid gid = look (uidgid_fit uid gid) fs (λ u.
      look (ops.read_inode fs dir) fs (λ ddir. look (preflight_create ops fs ddir name) fs (λ u.
        and_then (inode_create ops fs mode uid gid ft_dir 0) (λ new fs'.
          or_undo (ops.dir_add fs' new.1 new.0 dot) new.0 new.1 (λ nip f.
            or_undo (ops.dir_add f nip dir dotdot) new.0 nip
              (λ nip' g. enter_dir g dir ddir name new.0 nip'))))))

  -- The part of mknod that makes a device.
  unfoldable pub mkdev_in : Edition → ℕ → Name → ℕ → Bool → ℕ → ℕ → ℕ → Step (Unit {0})
  unfolding enter
  mkdev_in fs dir name mode isblk rdev uid gid = look (ops.read_inode fs dir) fs (λ ddir.
      look (preflight_create ops fs ddir name) fs (λ u.
        and_then (inode_create ops fs mode uid gid (if isblk then ft_blk else ft_chr) rdev)
          (λ new fs'. enter fs' dir ddir name new.0 new.1)))

  -- `is_v1` is `fs->ver == FILSYS_V1`.
  unfoldable pub mknod_in : Posix → Bool → Edition → ℕ → Name → ℕ → ℕ → ℕ → ℕ → Step (Unit {0})
  unfolding mkdev_in
  mknod_in p is_v1 fs dir name mode rdev uid gid =
      let t = bit_and mode p.s_ifmt in
      look (uidgid_fit uid gid) fs (λ u.
        if is_v1
        then (err eperm, fs)
        else if not (t == p.s_ifchr) && not (t == p.s_ifblk) && not (t == p.s_ifreg)
        then (err eperm, fs)
        else if t == p.s_ifreg
        then and_then (create_in fs dir name (bit_and mode 4095) uid gid) (λ ino fs'. (ok tt, fs'))
        else mkdev_in fs dir name mode (t == p.s_ifblk) rdev uid gid)

  -- `uid` and `gid` are those of the mount. The target is the file's data.
  unfoldable pub symlink_in : Edition → Name → ℕ → Name → ℕ → ℕ → Step (Unit {0})
  unfolding enter
  symlink_in fs target dir name uid gid =
      if fs.desc.iflnk == 0
      then (err enosys, fs)
      else look (uidgid_fit uid gid) fs (λ u. look (ops.read_inode fs dir) fs (λ ddir.
        look (preflight_create ops fs ddir name) fs (λ u.
          and_then (inode_create ops fs 511 uid gid ft_lnk 0) (λ new fs'.
            let (rc, nip, g) = file_write fs' new.1 (text target) (length target) 0 in
            elim rc [
              | err e ↦ (err e, (inode_destroy ops g new.0 nip).1)
              | ok n ↦
                  if n == length target
                  then enter g dir ddir name new.0 nip
                  else (err eio, (inode_destroy ops g new.0 nip).1)
            ]))))
