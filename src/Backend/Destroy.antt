-- ===== src/Backend/Destroy.antt =====
-- inode_destroy over the V7 engine: what the free list gains, and what it keeps when a step fails.
use filsys.Base.{ℕ, ◌+◌, ◌*◌, ◌<◌, ◌≤◌, ◌≡◌, ◌∙◌, ap, sym, subst, arith, List, [], ◌++◌}
use filsys.Base.{
  refl, Agrees, is_ok, false, Apart, inl, inr, ok, err, Outcome, Bool-cases, and_then, look, leb,
  u16, u32,
}
use filsys.Volume.{Edition, Freelist, Step, list, itod, data_first}
use filsys.Volume.Blocks.{block_at, blocks-Apart}
use filsys.Super.Effect.{Only, super_at, super_len}
use filsys.Inode.{Inode, write_inode}
use filsys.Inode.Effect.{Only-write_inode}
use filsys.Inode.Order.{write_inode-outside}
use filsys.FreeList.{ifree, with_fl, update}
use filsys.FreeList.Chain.{IsData, IsMounted, All, Distinct, SameBlock, Chain-frame, Chain-IsData}
use filsys.FreeList.Frame.{All-both}
use filsys.FreeList.Cache.{IsCache, same_image}
use filsys.FreeList.Pop.{with_state-IsMounted}
use filsys.Tree.{itrunc, drain}
use filsys.Tree.Drain.{drain-IsCache}
use filsys.Engine.{inode_destroy}
use filsys.Backend.{v7fs_ops}

-- A data block is apart from the superblock and from the blocks of the i-list.
data_same :
    (fs : Edition) (ino : ℕ) (ip : Inode) (x : ℕ)
    → IsMounted fs
    → itod fs ino < data_first fs
    → IsData fs x
    → SameBlock fs (write_inode fs ino ip).1.img x
data_same fs ino ip x v low d =
    let behind : 2 * fs.desc.bsize ≤ x * fs.desc.bsize = grind (arith, v.data_behind, d.0) in
    write_inode-outside fs ino ip (block_at fs x) fs.desc.bsize
      (inr (omega (arith, v.super_fits, behind)))
      (shifted (blocks-Apart fs.desc.bsize x (itod fs ino) (omega (arith, low, d.0))))
  where
    shifted :
        Apart (x * fs.desc.bsize) fs.desc.bsize (itod fs ino * fs.desc.bsize) fs.desc.bsize
        → Apart (block_at fs x) fs.desc.bsize (block_at fs (itod fs ino)) fs.desc.bsize
    shifted (inl h) = inl (omega arith)
    shifted (inr h) = inr (omega arith)

-- The free list stays what it is when an inode is written.
write_inode-IsCache :
    (fs : Edition) (ino : ℕ) (ip : Inode) (xs : List ℕ)
    → IsCache fs xs
    → itod fs ino < data_first fs
    → IsCache (write_inode fs ino ip).1 xs
write_inode-IsCache fs ino ip xs k low =
    let g = (write_inode fs ino ip).1 in
    let free = Chain-IsData fs k.chain in
    let same =
      All-both (IsData fs) (IsData fs) (SameBlock fs g.img) xs
        (λ x p q. data_same fs ino ip x k.mounted low p) free free in
    subst (λ h. IsCache h xs) (sym (Only-write_inode fs ino ip))
      (record {
        mounted = with_state-IsMounted fs g.img fs.fl g.fl_dirty k.mounted;
        chain = Chain-frame fs fs.fl g.fl_dirty k.mounted same k.chain;
        shallow = k.shallow;
        numbers = k.numbers;
      })

ifree-IsCache : (fs : Edition) (ino : ℕ) (xs : List ℕ) → IsCache fs xs → IsCache (ifree fs ino) xs
unfolding ifree
ifree-IsCache fs ino xs k = elim (Bool-cases (leb fs.desc.nicinod fs.fl.ninode)) [
  | inl full ↦ subst (λ h. IsCache h xs) {x = fs} (ground (arith, full)) k
  | inr room ↦
      subst (λ h. IsCache h xs) {x = with_fl fs cached} (ground (arith, room))
        (record {
          mounted = with_state-IsMounted fs fs.img cached fs.fl_dirty k.mounted;
          chain = Chain-frame fs cached fs.fl_dirty k.mounted (same_image fs k.chain) k.chain;
          shallow = k.shallow;
          numbers = k.numbers;
        })
]
  where
    cached : Freelist
    cached = record fs.fl {
      ninode = u16 (fs.fl.ninode + 1);
      inode = update fs.fl.inode fs.fl.ninode (u16 ino);
      tinode = u32 (fs.fl.tinode + 1);
    }

-- What the teardown of an inode that held the blocks `b` leaves on the free list.
abbrev pub Destroys : List ℕ → List ℕ → Step (Unit {0}) → Type 0
Destroys b xs (ok u, g) = IsCache g (b ++ xs)
Destroys b xs (err e, g) = IsCache g xs

-- What follows the write of the cleared inode.
released : Edition → ℕ → List ℕ → Step (Unit {0}) → Step (Unit {0})
released fs ino b w = and_then w (λ u g. (ok tt, ifree (drain g b) ino))

written :
    (fs : Edition) (ino : ℕ) (b xs : List ℕ) (w : Step (Unit {0}))
    → fs.desc.freemap ≡ list
    → All (IsData fs) b
    → Distinct (b ++ xs)
    → Only fs w.1
    → IsCache w.1 xs
    → Destroys b xs (released fs ino b w)
unfolding released
written fs ino b xs (err e, g) l d distinct o k = k
written fs ino b xs (ok u, g) l d distinct o k = ifree-IsCache (drain g b) ino (b ++ xs) (
    drain-IsCache g b xs (ap (λ h. h.desc.freemap) o ∙ l) k
      (subst (λ h. All (IsData h) b) (sym o) d) distinct)

collected :
    (fs : Edition) (ino : ℕ) (b xs : List ℕ) (r : Outcome (Unit {0})) (w : Step (Unit {0}))
    → IsCache fs xs
    → Destroys b xs (released fs ino b w)
    → Destroys b xs (look r fs (λ u. released fs ino b w))
collected fs ino b xs (ok u) w k h = h
collected fs ino b xs (err e) w k h = k

-- Take a mounted volume (so on a host that transfers every byte) with a free list that stands for `xs`,
-- the slot of the inode in front of the data, and an inode from which itrunc collects data blocks only,
-- none of them free and none of them twice. When inode_destroy succeeds, the free list stands for the
-- collected blocks on top of `xs`; when it fails, the free list still stands for `xs`.
pub inode_destroy-Destroys :
    (fs : Edition) (ino : ℕ) (ip : Inode) (xs : List ℕ)
    → fs.desc.freemap ≡ list
    → IsCache fs xs
    → itod fs ino < data_first fs
    → All (IsData fs) (itrunc fs ip []).2
    → Distinct ((itrunc fs ip []).2 ++ xs)
    → Destroys (itrunc fs ip []).2 xs (inode_destroy v7fs_ops fs ino ip)
unfolding inode_destroy released
inode_destroy-Destroys fs ino ip xs l k low d distinct =
    let t = itrunc fs ip [] in
    let w = write_inode fs ino (record t.1 { mode = 0 }) in
    collected fs ino t.2 xs t.0 w k (
      written fs ino t.2 xs w l d distinct (Only-write_inode fs ino (record t.1 { mode = 0 }))
        (write_inode-IsCache fs ino (record t.1 { mode = 0 }) xs k low))

-- Whatever the host does and whatever the inode holds: when inode_destroy fails, in the walk over the
-- blocks or in the write of the inode, it has released nothing: the cache of the free list and of the
-- inodes and the totals are as before, and no byte outside the superblock and the block of the inode
-- is changed.
pub inode_destroy_failed :
    (fs : Edition) (ino : ℕ) (ip : Inode) (q n : ℕ)
    → is_ok (inode_destroy v7fs_ops fs ino ip).0 ≡ false
    → Apart q n (super_at fs) (super_len fs)
    → Apart q n (block_at fs (itod fs ino)) fs.desc.bsize
    → ((inode_destroy v7fs_ops fs ino ip).1.fl ≡ fs.fl)
      × Agrees (inode_destroy v7fs_ops fs ino ip).1.img fs.img q n
unfolding inode_destroy released
inode_destroy_failed fs ino ip q n failed s a =
    let t = itrunc fs ip [] in
    let cleared = record t.1 { mode = 0 } in
    stopped t.0 (write_inode fs ino cleared) t.2 (ap (λ h. h.fl) (Only-write_inode fs ino cleared))
      (write_inode-outside fs ino cleared q n s a) failed
  where
    stopped :
        (r : Outcome (Unit {0})) (w : Step (Unit {0})) (b : List ℕ)
        → w.1.fl ≡ fs.fl
        → Agrees w.1.img fs.img q n
        → is_ok (look r fs (λ u. released fs ino b w)).0 ≡ false
        → ((look r fs (λ u. released fs ino b w)).1.fl ≡ fs.fl)
          × Agrees (look r fs (λ u. released fs ino b w)).1.img fs.img q n
    stopped (err e) w b l o f = (refl, λ i k. refl)
    stopped (ok u) (err e, g) b l o f = (l, o)
    stopped (ok u) (ok v, g) b l o f = absurd (ground (arith, f))
