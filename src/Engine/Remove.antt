-- ===== src/Engine/Remove.antt =====
-- The operations of filsys.c that take a name away or add one to an inode: unlink, rmdir and link.
pub mod Ancestor
use filsys.Base.{ℕ, zero, suc, Bool, true, false, not, ◌&&◌, ◌||◌, ◌==◌, if◌then◌else◌}
use filsys.Base.{
  Name, Errno, einval, enotdir, enotempty, eloop, Outcome, ok, err, ◌>>=◌, and_then, look,
}
use filsys.Volume.{Edition, Step}
use filsys.Inode.{Inode}
use filsys.Engine.{Ops, mode_is_dir, volume, or_eio, many_links, nlink_inc, nlink_dec, remove_name}
use filsys.Engine.{inode_destroy, dir_is_empty, dotdot}

module _ (ops : Ops) where
  -- The last name of a file that is not held open takes the file with it.
  unfoldable pub unlink_in : Edition → ℕ → Name → Bool → Step (Unit {0})
  unlink_in fs dir name defer = look (ops.read_inode fs dir) fs (λ ddir.
      look (ops.dir_lookup fs ddir name) fs (λ ino. look (or_eio (ops.read_inode fs ino)) fs (λ ip.
        and_then (remove_name ops fs ddir name ip defer) (λ d fs'.
          if d.1 && not d.2 then inode_destroy ops fs' ino d.0 else ops.write_inode fs' ino d.0))))

  -- rmdir behind its checks.
  unfoldable pub drop_dir : Edition → Inode → Name → ℕ → Inode → Step (Unit {0})
  drop_dir fs ddir name ino tip =
      if many_links (nlink_dec tip)
      then and_then (volume (ops.dir_remove fs ddir name))
          (λ u fs'. ops.write_inode fs' ino (nlink_dec tip))
      else and_then (volume (ops.dir_remove fs (nlink_dec ddir) name))
          (λ u fs'. inode_destroy ops fs' ino (nlink_dec tip))

  unfoldable pub rmdir_in : Edition → ℕ → Name → Step (Unit {0})
  unfolding drop_dir
  rmdir_in fs dir name = look (ops.read_inode fs dir) fs (λ ddir.
      look (ops.dir_lookup fs ddir name) fs (λ ino. look (or_eio (ops.read_inode fs ino)) fs (λ tip.
        if not (mode_is_dir fs.desc tip)
        then (err enotdir, fs)
        else look (dir_is_empty ops fs ino) fs
            (λ e. if e then drop_dir fs ddir name ino tip else (err enotempty, fs)))))

  -- The loop of dir_ancestor with `left` rounds before its guard, 65536 at first.
  unfoldable pub climb : Edition → ℕ → ℕ → ℕ → Outcome Bool
  climb fs anc zero cur = err eloop
  climb fs anc (suc left) cur =
      if cur == fs.desc.rootino || cur == 0
      then ok false
      else if cur == anc
      then ok true
      else ops.read_inode fs cur >>= λ ip. ops.dir_lookup fs ip dotdot >>= climb fs anc left

  unfoldable pub dir_ancestor : Edition → ℕ → ℕ → Outcome Bool
  unfolding climb
  dir_ancestor fs anc_ino dir_ino = climb fs anc_ino 65536 dir_ino

  -- The check of link and rename that a directory does not go below itself.
  unfoldable pub no_cycle : Edition → Inode → ℕ → ℕ → Outcome (Unit {0})
  no_cycle fs ip ino dir =
      if mode_is_dir fs.desc ip
      then (dir_ancestor fs ino dir >>= λ a. if a then err einval else ok tt)
      else ok tt

  unfoldable pub link_in : Edition → ℕ → ℕ → Name → Step (Unit {0})
  unfolding no_cycle
  link_in fs src_ino dir name = look (ops.read_inode fs dir) fs (λ ddir.
      look (or_eio (ops.read_inode fs src_ino)) fs (λ ip. look (no_cycle fs ip src_ino dir) fs (λ u.
        let (rc, ddir', fs') = ops.dir_add fs ddir src_ino name in
        and_then (rc, fs')
          (λ u f.
            let w = ops.write_inode f src_ino (nlink_inc ip) in
            elim w.0 [
              | ok u ↦ (ok tt, w.1)
              | err e ↦ and_then (volume (ops.dir_remove w.1 ddir' name)) (λ u g. (err e, g))
            ]))))
