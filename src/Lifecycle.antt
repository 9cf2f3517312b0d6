-- ===== src/Lifecycle.antt =====
-- v7fs.c and filsys.c: flush_fs, v7fs_sync, v7fs_mark_dirty, v7fs_mark_clean and the two closes.
use filsys.Base.{◌≡◌, ap, arith, true, false, ok, err, Outcome, and_then, is_ok, if◌then◌else◌}
use filsys.Volume.{Edition, Step, Freemap, list, bitmap, bigmap}
use filsys.Super.{super_write}
use filsys.Super.Effect.{Only, Only-super_write, fl_dirty-super_write}
use filsys.Bitmap.{bitmap_sync}
use filsys.Bitmap.Sync.{Only-bitmap_sync, fl_dirty-bitmap_sync}

unfoldable pub flush_fs : Edition → Step (Unit {0})
flush_fs fs = elim fs.desc.freemap [ list ↦ super_write fs | _ ↦ bitmap_sync fs ]

unfoldable pub sync : Edition → Step (Unit {0})
sync fs = if fs.readonly then (ok tt, fs) else flush_fs fs

unfoldable pub mark_dirty : Edition → Step (Unit {0})
mark_dirty fs = if fs.readonly then (ok tt, fs) else flush_fs (record fs { fmod = 1 })

unfoldable pub mark_clean : Edition → Step (Unit {0})
mark_clean fs = if fs.readonly then (ok tt, fs) else flush_fs (record fs { fmod = 0 })

-- `v7fs_close`, apart from the descriptor and the heap
unfoldable pub close : Edition → Step (Unit {0})
close fs = if fs.readonly then (ok tt, fs) else flush_fs fs

-- `filsys_close`: the error of the flush wins over that of the clean mark.
unfoldable pub close_mount : Edition → Step (Unit {0})
unfolding close
close_mount fs =
    let m = if fs.readonly then (ok tt, fs) else mark_clean fs in
    let c = close m.1 in elim c.0 [ err e ↦ c | ok u ↦ (m.0, c.1) ]

-- `filsys_sync`; `fsync_rc` is what fsync returns, as the error number or none.
unfoldable pub sync_mount : Outcome (Unit {0}) → Edition → Step (Unit {0})
sync_mount fsync_rc fs =
    and_then (sync fs) (λ u fs'. if fs'.readonly then (ok tt, fs') else (fsync_rc, fs'))

pub Only-flush_fs : (fs : Edition) → Only fs (flush_fs fs).1
unfolding flush_fs
Only-flush_fs fs = by_map fs.desc.freemap
  where
    by_map :
        (m : Freemap)
        → Only fs
            (elim m as (λ x. Step (Unit {0})) [ list ↦ super_write fs | _ ↦ bitmap_sync fs ]).1
    by_map list = Only-super_write fs
    by_map bitmap = Only-bitmap_sync fs
    by_map bigmap = Only-bitmap_sync fs

fl_dirty-flush_fs :
    (fs : Edition)
    → fs.readonly ≡ false
    → is_ok (flush_fs fs).0 ≡ true
    → (flush_fs fs).1.fl_dirty ≡ false
unfolding flush_fs
fl_dirty-flush_fs fs w = by_map fs.desc.freemap
  where
    by_map :
        (m : Freemap)
        → is_ok (elim m as (λ x. Step (Unit {0})) [ list ↦ super_write fs | _ ↦ bitmap_sync fs ]).0
          ≡ true
        → (elim m as (λ x. Step (Unit {0})) [
          | list ↦ super_write fs
          | _ ↦ bitmap_sync fs
        ]).1.fl_dirty
          ≡ false
    by_map list = fl_dirty-super_write fs w
    by_map bitmap = fl_dirty-bitmap_sync fs w
    by_map bigmap = fl_dirty-bitmap_sync fs w

-- On a writable volume a sync that succeeds leaves no allocator state unflushed, for the free list
-- and both forms of the bitmap.
pub fl_dirty-sync :
    (fs : Edition) → fs.readonly ≡ false → is_ok (sync fs).0 ≡ true → (sync fs).1.fl_dirty ≡ false
unfolding sync
fl_dirty-sync fs w e = ground (arith, w, fl_dirty-flush_fs fs w)

-- On a writable volume, marking it dirty sets `fmod` in core and marking it clean clears it,
-- whatever the host does.
pub fmod-mark_dirty :
    (fs : Edition)
    → fs.readonly ≡ false
    → ((mark_dirty fs).1.fmod ≡ 1) × ((mark_clean fs).1.fmod ≡ 0)
unfolding mark_dirty mark_clean
fmod-mark_dirty fs w =
    let dirty : Edition = record fs { fmod = 1 } in
    let clean : Edition = record fs { fmod = 0 } in
    (
      ground (arith, w, ap (λ h. h.fmod) (Only-flush_fs dirty)),
      ground (arith, w, ap (λ h. h.fmod) (Only-flush_fs clean)),
    )
