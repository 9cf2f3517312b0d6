-- ===== src/Bitmap/Sync.antt =====
-- v8_bitmap_sync: what it leaves alone, and that it flushes.
use filsys.Base.{ℕ, zero, suc, ◌+◌, ◌≡◌, ◌∙◌, refl, ap}
use filsys.Base.{is_ok}
use filsys.Base.{Bool, true, false, if◌then◌else◌}
use filsys.Base.{u32, ok, err}
use filsys.Volume.{Edition, Step, Freemap, list, bitmap, bigmap, write_block}
use filsys.Super.{super_write}
use filsys.Super.Effect.{Only, Only-write_block, Only-super_write, Only-trans, fl_dirty-super_write}
use filsys.FreeList.{as_eio}
use filsys.Bitmap.{bitmap_sync, sync_blocks, then_block, then_super, map_block}

Only-as_eio : (fs : Edition) (r : Step (Unit {0})) → Only fs r.1 → Only fs (as_eio r).1
unfolding as_eio
Only-as_eio fs (ok u, g) o = o
Only-as_eio fs (err e, g) o = o

Only-then_block :
    (fs : Edition) (r : Step (Unit {0})) (k : ℕ) → Only fs r.1 → Only fs (then_block r k).1
unfolding then_block
Only-then_block fs (ok u, g) k o =
    let at = u32 (g.v8_blk_start + k) in
    let w = write_block g at (map_block g k) in
    Only-as_eio fs w (Only-trans fs g w.1 o (Only-write_block g at (map_block g k)))
Only-then_block fs (err e, g) k o = o

Only-sync_blocks : (fs : Edition) (n : ℕ) → Only fs (sync_blocks fs n).1
unfolding sync_blocks
Only-sync_blocks fs zero = refl
Only-sync_blocks fs (suc k) = Only-then_block fs (sync_blocks fs k) k (Only-sync_blocks fs k)

Only-then_super : (fs : Edition) (r : Step (Unit {0})) → Only fs r.1 → Only fs (then_super r).1
unfolding then_super
Only-then_super fs (ok u, g) o = Only-trans fs g (super_write g).1 o (Only-super_write g)
Only-then_super fs (err e, g) o = o

pub Only-bitmap_sync : (fs : Edition) → Only fs (bitmap_sync fs).1
unfolding bitmap_sync
Only-bitmap_sync fs = by_map fs.readonly fs.desc.freemap
  where
    by_map :
        (ro : Bool) (m : Freemap)
        → Only fs
            (if ro then (ok tt, fs) else elim m as (λ x. Step (Unit {0})) [
              | bigmap ↦ then_super (sync_blocks fs fs.v8_nblks)
              | _ ↦ super_write fs
            ]).1
    by_map true m = refl
    by_map false list = Only-super_write fs
    by_map false bitmap = Only-super_write fs
    by_map false bigmap =
        Only-then_super fs (sync_blocks fs fs.v8_nblks) (Only-sync_blocks fs fs.v8_nblks)

fl_dirty-then_super :
    (fs : Edition) (r : Step (Unit {0}))
    → fs.readonly ≡ false
    → Only fs r.1
    → is_ok (then_super r).0 ≡ true
    → (then_super r).1.fl_dirty ≡ false
unfolding then_super
fl_dirty-then_super fs (ok u, g) w o e = fl_dirty-super_write g (ap (λ h. h.readonly) o ∙ w) e
fl_dirty-then_super fs (err x, g) w o e = cc

abbrev sync_by : Edition → Bool → Freemap → Step (Unit {0})
sync_by fs ro m = if ro then (ok tt, fs) else elim m as (λ x. Step (Unit {0})) [
  | bigmap ↦ then_super (sync_blocks fs fs.v8_nblks)
  | _ ↦ super_write fs
]

-- On a writable volume a sync of the map that succeeds leaves no allocator state unflushed.
pub fl_dirty-bitmap_sync :
    (fs : Edition)
    → fs.readonly ≡ false
    → is_ok (bitmap_sync fs).0 ≡ true
    → (bitmap_sync fs).1.fl_dirty ≡ false
unfolding bitmap_sync
fl_dirty-bitmap_sync fs w = by_map fs.readonly w fs.desc.freemap
  where
    by_map :
        (ro : Bool)
        → ro ≡ false
        → (m : Freemap) → is_ok (sync_by fs ro m).0 ≡ true
        → (sync_by fs ro m).1.fl_dirty ≡ false
    by_map true h m e = cc
    by_map false h list e = fl_dirty-super_write fs w e
    by_map false h bitmap e = fl_dirty-super_write fs w e
    by_map false h bigmap e =
        fl_dirty-then_super fs (sync_blocks fs fs.v8_nblks) w (Only-sync_blocks fs fs.v8_nblks) e
