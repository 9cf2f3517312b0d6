-- ===== src/Super/Effect.antt =====
-- What writing the superblock changes in the volume.
use filsys.Base.{
  ℕ, ◌+◌, ◌*◌, ◌<◌, ◌≡◌, ◌∙◌, true, false, Bool, arith, inl, inr, Bool-cases, Outcome-cases, refl,
  err, ap,
}
use filsys.Base.{Bytes, Agrees, Apart, blit, from, ok, is_ok, if◌then◌else◌}
use filsys.Volume.{Edition, Step, read_block, write_block, io_file_read, io_file_write}
use filsys.Volume.Blocks.{IsHealthy, read_block-healthy, write_block-healthy, write_block-outside}
use filsys.Super.{encode, read_super, write_super, settle, super_write}

-- Where the superblock stands in the backing file, and its length.
abbrev pub super_at : Edition → ℕ
super_at fs = if fs.desc.dyn_bsize then 512 + fs.base else fs.base + 1 * fs.desc.bsize

abbrev pub super_len : Edition → ℕ
super_len fs = if fs.desc.dyn_bsize then 512 else fs.desc.bsize

-- The volume after a superblock write that no host failure disturbs.
abbrev pub after_super : Edition → Edition
after_super fs = record fs {
  img = blit fs.img (super_at fs) (super_len fs) (encode fs (from fs.img (super_at fs)));
  fl_dirty = false;
}

pub super_write-healthy :
    (fs : Edition) → IsHealthy fs → 1 < fs.fsize → super_write fs ≡ (ok tt, after_super fs)
unfolding super_write read_super write_super io_file_read io_file_write
super_write-healthy fs v l = elim (Bool-cases fs.desc.dyn_bsize) [
  | inl dyn ↦
      rw dyn (ground (arith, v.writable, v.reads (512 + fs.base) 512, v.writes (512 + fs.base) 512))
  | inr fixed ↦ rw fixed (
      ground (
        arith,
        v.writable,
        read_block-healthy fs v 1 l,
        write_block-healthy fs v 1 l (encode fs (from fs.img (fs.base + 1 * fs.desc.bsize))),
      ))
]

-- A write of the superblock that reports success has put it there, and cleared the flag.
pub super_write-ok :
    (fs : Edition)
    → fs.readonly ≡ false
    → is_ok (super_write fs).0 ≡ true
    → (super_write fs).1 ≡ after_super fs
unfolding super_write read_super write_super io_file_read io_file_write read_block write_block
    settle
super_write-ok fs w e = elim (Bool-cases fs.desc.dyn_bsize) [
  | inl dyn ↦ ground (arith, dyn, w, e)
  | inr fixed ↦ ground (arith, fixed, w, e)
]

img-settle : (r : Step (Unit {0})) (p : ℕ) → (settle r).1.img p ≡ r.1.img p
unfolding settle
img-settle (ok u, fs) p = refl
img-settle (err e, fs) p = refl

fl_dirty-settle : (r : Step (Unit {0})) → is_ok (settle r).0 ≡ true → (settle r).1.fl_dirty ≡ false
unfolding settle
fl_dirty-settle (ok u, fs) h = refl
fl_dirty-settle (err e, fs) h = cc

write_super-outside :
    (fs : Edition) (sb : Bytes) (q n : ℕ)
    → Apart q n (super_at fs) (super_len fs)
    → Agrees (write_super fs sb).1.img fs.img q n
unfolding write_super io_file_write
write_super-outside fs sb q n a i l = by_layout fs.desc.dyn_bsize refl a
  where
    by_layout :
        (d : Bool)
        → fs.desc.dyn_bsize ≡ d
        → Apart q n
            (if d then 512 + fs.base else fs.base + 1 * fs.desc.bsize)
            (if d then 512 else fs.desc.bsize)
        → (write_super fs sb).1.img (q + i) ≡ fs.img (q + i)
    by_layout true e h = ground arith
    by_layout false e h = ground (arith, write_block-outside fs 1 sb q n h i l)

-- Whatever the host does, the write stays inside the superblock.
pub super_write-outside :
    (fs : Edition) (q n : ℕ)
    → Apart q n (super_at fs) (super_len fs)
    → Agrees (super_write fs).1.img fs.img q n
unfolding super_write
super_write-outside fs q n a i l = elim (Outcome-cases (read_super fs)) [
  | inl (sb, e) ↦ ground (
    arith,
    e,
    img-settle (write_super fs (encode fs sb)) (q + i),
    write_super-outside fs (encode fs sb) q n a i l,
  )
  | inr (x, e) ↦ ground (arith, e)
]

-- On a writable volume a superblock write that succeeds leaves the allocator state clean.
pub fl_dirty-super_write :
    (fs : Edition)
    → fs.readonly ≡ false
    → is_ok (super_write fs).0 ≡ true
    → (super_write fs).1.fl_dirty ≡ false
unfolding super_write
fl_dirty-super_write fs w e = elim (Outcome-cases (read_super fs)) [
  | inl (sb, r) ↦ ground (arith, r, fl_dirty-settle (write_super fs (encode fs sb)))
  | inr (x, r) ↦ ground (arith, r)
]

-- Only the backing file and the dirty flag can change.
abbrev pub Only : Edition → Edition → Type 0
Only fs g = g ≡ record fs { img = g.img; fl_dirty = g.fl_dirty }

pub Only-write_block : (fs : Edition) (b : ℕ) (buf : Bytes) → Only fs (write_block fs b buf).1
unfolding write_block
Only-write_block fs b buf = ground arith

Only-settle : (fs : Edition) (r : Step (Unit {0})) → Only fs r.1 → Only fs (settle r).1
unfolding settle
Only-settle fs (ok u, g) o = ap {A = Edition} (λ h. record h { fl_dirty = false }) o
Only-settle fs (err e, g) o = o

Only-write_super : (fs : Edition) (sb : Bytes) → Only fs (write_super fs sb).1
unfolding write_super io_file_write
Only-write_super fs sb = ground (arith, Only-write_block fs 1 sb)

pub Only-super_write : (fs : Edition) → Only fs (super_write fs).1
unfolding super_write
Only-super_write fs = elim (Outcome-cases (read_super fs)) [
  | inl (sb, e) ↦ ground (
    arith,
    e,
    Only-settle fs (write_super fs (encode fs sb)) (Only-write_super fs (encode fs sb)),
  )
  | inr (x, e) ↦ ground (arith, e)
]

pub Only-trans : (fs g h : Edition) → Only fs g → Only g h → Only fs h
Only-trans fs g h o p =
    p ∙ ap {A = Edition} (λ k. record k { img = h.img; fl_dirty = h.fl_dirty }) o
