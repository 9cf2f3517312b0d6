-- ===== src/Engine/Rename.antt =====
-- filsys_rename_in of filsys.c.
use filsys.Base.{ℕ, ◌%◌, ◌/◌, Bool, true, false, not, ◌&&◌, ◌==◌, if◌then◌else◌}
use filsys.Base.{Option, none, some, Name, same_name, einval, eexist, enotdir, eisdir, enotempty}
use filsys.Base.{Outcome, ok, err, ◌>>=◌, and_then, look}
use filsys.Volume.{Edition, Step}
use filsys.Inode.{Inode}
use filsys.Engine.{
  Ops, mode_is_dir, volume, or_eio, many_links, nlink_inc, nlink_dec, inode_destroy,
}
use filsys.Engine.{dir_is_empty, dotdot}
use filsys.Engine.Remove.{no_cycle, link_in, unlink_in}

-- A target that was removed: `tino`, `tip_saved`, `tisdir`, `free_target`, and `tdirip` as
-- dir_remove left it.
pub record Target : Type 0 where
  pub tino : ℕ
  pub saved : Inode
  pub isdir : Bool
  pub free : Bool
  pub parent : Inode

module _ (ops : Ops) where
  -- The checks on an existing target.
  unfoldable pub check_target : Edition → Bool → ℕ → Inode → Outcome (Unit {0})
  check_target fs isdir tino tip =
      let tisdir = mode_is_dir fs.desc tip in
      if isdir && not tisdir
      then err enotdir
      else if not isdir && tisdir
      then err eisdir
      else if tisdir
      then (dir_is_empty ops fs tino >>= λ e. if e then ok tt else err enotempty)
      else ok tt

  -- The target's name goes, and a file's link count; its blocks stay.
  unfoldable pub remove_target : Edition → Inode → Name → ℕ → Inode → Step Target
  remove_target fs tdirip tname tino tip =
      let tisdir = mode_is_dir fs.desc tip in
      let (rc, tdirip', fs') = ops.dir_remove fs tdirip tname in
      and_then (rc, fs')
        (λ u f.
          if tisdir
          then (
            ok (record { tino = tino; saved = tip; isdir = true; free = true; parent = tdirip' }),
            f,
          )
          else let w = ops.write_inode f tino (nlink_dec tip) in
            elim w.0 [
              | err e ↦ (err e, (ops.dir_add w.1 tdirip' tino tname).2)
              | ok u ↦ (
                ok (record {
                  tino = tino;
                  saved = tip;
                  isdir = false;
                  free = (nlink_dec tip).nlink == 0;
                  parent = tdirip';
                }),
                w.1,
              )
            ])

  -- The rollback of the removed target, if there was one.
  unfoldable pub restore : Edition → Option Target → Name → Edition
  restore fs none tname = fs
  restore fs (some t) tname =
      (ops.write_inode (ops.dir_add fs t.parent t.tino tname).2 t.tino t.saved).1

  -- An inode that can be read gets another link count.
  unfoldable pub relink : Edition → ℕ → (Inode → Inode) → Step (Unit {0})
  relink fs ino f = elim (ops.read_inode fs ino) [
    | err e ↦ (ok tt, fs)
    | ok ip ↦ ops.write_inode fs ino (f ip)
  ]

  abbrev pub one_less : Inode → Inode
  one_less ip = if many_links ip then nlink_dec ip else ip

  -- The counts of the parents and the `..` of a directory that moved.
  unfoldable pub fix_parents : Edition → ℕ → ℕ → ℕ → Bool → Step (Unit {0})
  unfolding relink
  fix_parents fs sdir tdir sino tisdir =
      and_then
        (if sdir == tdir
          then (ok tt, fs)
          else and_then (relink fs sdir one_less) (λ u f. relink f tdir nlink_inc))
        (λ u f. and_then (if tisdir then relink f tdir one_less else (ok tt, f)) (λ u g.
          elim (ops.read_inode g sino) [
            | err e ↦ (ok tt, g)
            | ok cip ↦
                let (rc, cip', g') = ops.dir_remove g cip dotdot in
                and_then (rc, g') (λ u k. volume (ops.dir_add k cip' tdir dotdot))
          ]))

  -- The replaced target goes last, unless it is held open.
  unfoldable pub free_target : Edition → Option Target → Bool → Edition
  free_target fs none defer = fs
  free_target fs (some t) defer =
      if t.free && not defer then (inode_destroy ops fs t.tino t.saved).1 else fs

  unfoldable pub replaced_dir : Option Target → Bool
  replaced_dir none = false
  replaced_dir (some t) = t.isdir

  -- The part behind the removal of the target.
  unfoldable pub move :
      Edition → ℕ → Name → ℕ → Name → ℕ → Bool → Option Target → Bool → Step (Unit {0})
  unfolding restore fix_parents free_target replaced_dir
  move fs sdir sname tdir tname sino isdir target defer =
      let l = link_in ops fs sino tdir tname in
      elim l.0 [
        | err e ↦ (err e, restore l.1 target tname)
        | ok u ↦
            let r = unlink_in ops l.1 sdir sname false in
            elim r.0 [
              | err e ↦ (err e, restore (unlink_in ops r.1 tdir tname false).1 target tname)
              | ok u ↦
                  and_then
                    (if isdir
                      then fix_parents r.1 sdir tdir sino (replaced_dir target)
                      else (ok tt, r.1))
                    (λ u g. (ok tt, free_target g target defer))
            ]
      ]

  -- The target's entry is there, and names `tino`.
  unfoldable pub replace :
      Edition → ℕ → Name → ℕ → Inode → Name → ℕ → Bool → ℕ → Bool → Bool → Step (Unit {0})
  unfolding check_target remove_target move
  replace fs sdir sname tdir tdirip tname sino isdir tino noreplace defer =
      if noreplace
      then (err eexist, fs)
      else if tino == sino
      then (ok tt, fs)
      else look (or_eio (ops.read_inode fs tino)) fs (λ tip.
        look (check_target fs isdir tino tip) fs (λ u.
          and_then (remove_target fs tdirip tname tino tip)
            (λ t g. move g sdir sname tdir tname sino isdir (some t) defer)))

  -- Bit 0 of `flags` is FS_RENAME_NOREPLACE; any other is refused.
  unfoldable pub rename_in : Edition → ℕ → Name → ℕ → Name → ℕ → Bool → Step (Unit {0})
  unfolding replace move
  rename_in fs sdir sname tdir tname flags defer =
      if not (flags / 2 == 0)
      then (err einval, fs)
      else if sdir == tdir && same_name sname tname
      then (ok tt, fs)
      else look (ops.read_inode fs sdir) fs (λ sdirip.
        look (ops.dir_lookup fs sdirip sname) fs (λ sino.
          look (or_eio (ops.read_inode fs sino)) fs (λ sip.
            look (or_eio (ops.read_inode fs tdir)) fs (λ tdirip.
              let isdir = mode_is_dir fs.desc sip in
              look (no_cycle ops fs sip sino tdir) fs (λ u. elim (ops.dir_lookup fs tdirip tname) [
                | ok tino ↦
                    replace fs sdir sname tdir tdirip tname sino isdir tino (not (flags % 2 == 0))
                      defer
                | err e ↦ move fs sdir sname tdir tname sino isdir none defer
              ])))))
