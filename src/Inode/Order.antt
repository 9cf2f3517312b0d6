-- ===== src/Inode/Order.antt =====
-- v7fs_write_inode: the allocator state reaches the disk before the inode, and what else is written.
use filsys.Base.{ℕ, ◌<◌, ◌≡◌, ◌∙◌, refl, sym, subst, arith, inl, inr, Bool-cases}
use filsys.Base.{Bytes, from, ◌+◌, Agrees, Apart, ok, err, Outcome-cases}
use filsys.Volume.{Edition, Step, read_block, itod}
use filsys.Volume.Blocks.{block_at, write_block-outside}
use filsys.Super.{super_write, encode}
use filsys.Super.Effect.{super_at, super_len, super_write-outside, Only}
use filsys.Super.Effect.{Only-super_write}
use filsys.Inode.{Inode, write_inode, after_flush, store_inode, encode_slot}

store_inode-outside :
    (fs : Edition) (ino : ℕ) (ip : Inode) (q n : ℕ)
    → Apart q n (block_at fs (itod fs ino)) fs.desc.bsize
    → Agrees (store_inode fs ino ip).1.img fs.img q n
unfolding store_inode
store_inode-outside fs ino ip q n a i l = elim (Outcome-cases (read_block fs (itod fs ino))) [
  | inl (raw, e) ↦
      ground (arith, e, write_block-outside fs (itod fs ino) (encode_slot fs ino ip raw) q n a i l)
  | inr (x, e) ↦ ground (arith, e)
]

after_flush-outside :
    (fs : Edition) (r : Step (Unit {0})) (ino : ℕ) (ip : Inode) (q n : ℕ)
    → Only fs r.1
    → Agrees r.1.img fs.img q n
    → Apart q n (block_at fs (itod fs ino)) fs.desc.bsize
    → Agrees (after_flush r ino ip).1.img fs.img q n
unfolding after_flush
after_flush-outside fs (ok u, g) ino ip q n o same a i l =
    store_inode-outside g ino ip q n
      (subst (λ h. Apart q n (block_at h (itod h ino)) h.desc.bsize) (sym o) a) i l
    ∙ same i l
after_flush-outside fs (err e, g) ino ip q n o same a i l = same i l

-- Whatever the host does, writing an inode changes no byte outside the superblock and the block of
-- the inode.
pub write_inode-outside :
    (fs : Edition) (ino : ℕ) (ip : Inode) (q n : ℕ)
    → Apart q n (super_at fs) (super_len fs)
    → Apart q n (block_at fs (itod fs ino)) fs.desc.bsize
    → Agrees (write_inode fs ino ip).1.img fs.img q n
unfolding write_inode
write_inode-outside fs ino ip q n s a i l = elim (Bool-cases fs.fl_dirty) [
  | inl dirty ↦ ground (
    arith,
    dirty,
    after_flush-outside fs (super_write fs) ino ip q n (Only-super_write fs)
        (super_write-outside fs q n s) a i l,
  )
  | inr clean ↦
      ground (arith, clean, after_flush-outside fs (ok tt, fs) ino ip q n refl (λ j k. refl) a i l)
]

-- ---- the superblock first

-- The superblock in the backing file `img` has the allocator state of the volume.
abbrev pub HasState : Edition → Bytes → Type 0
HasState fs img =
    (i : ℕ) → i < super_len fs → img (super_at fs + i) ≡ encode fs (from fs.img (super_at fs)) i
