-- ===== src/Inode/Effect.antt =====
-- What writing an inode changes in the state: the backing file and the dirty flag, and nothing else.
use filsys.Base.{ℕ, ◌∙◌, refl, ap, arith, inl, inr, ok, err, Outcome-cases, Bool-cases}
use filsys.Volume.{Edition, Step, read_block, itod}
use filsys.Super.{super_write}
use filsys.Super.Effect.{Only, Only-write_block, Only-super_write}
use filsys.Inode.{Inode, write_inode, after_flush, store_inode, encode_slot}

Only-store_inode : (fs : Edition) (ino : ℕ) (ip : Inode) → Only fs (store_inode fs ino ip).1
unfolding store_inode
Only-store_inode fs ino ip = elim (Outcome-cases (read_block fs (itod fs ino))) [
  | inl (raw, e) ↦ ground (arith, e, Only-write_block fs (itod fs ino) (encode_slot fs ino ip raw))
  | inr (x, e) ↦ ground (arith, e)
]

Only-after_flush :
    (fs : Edition) (r : Step (Unit {0})) (ino : ℕ) (ip : Inode)
    → Only fs r.1
    → Only fs (after_flush r ino ip).1
unfolding after_flush
Only-after_flush fs (ok u, g) ino ip o =
    let h = (store_inode g ino ip).1 in
    Only-store_inode g ino ip
    ∙ ap {A = Edition} (λ k. record k { img = h.img; fl_dirty = h.fl_dirty }) o
Only-after_flush fs (err e, g) ino ip o = o

pub Only-write_inode : (fs : Edition) (ino : ℕ) (ip : Inode) → Only fs (write_inode fs ino ip).1
unfolding write_inode
Only-write_inode fs ino ip = elim (Bool-cases fs.fl_dirty) [
  | inl dirty ↦
      ground (arith, dirty, Only-after_flush fs (super_write fs) ino ip (Only-super_write fs))
  | inr clean ↦ ground (arith, clean, Only-after_flush fs (ok tt, fs) ino ip refl)
]
