-- ===== src/FreeList/Push.antt =====
-- v7fs_bfree puts a block in front of the chain; with v7fs_balloc the free list is a stack.
use native.Mathlib.Decide.{ℕ_discrete, dec_lt}
use filsys.Base.{ℕ, ◌+◌, ◌≤◌, ◌<◌, ◌≡◌, ◌≢◌, ◌∙◌, inl, inr, ap}
use filsys.Base.{sym, subst, true, arith, List, [], ◌∷◌}
use filsys.Base.{ok, err, leb, if◌then◌else◌}
use filsys.Volume.{Edition, write_block}
use filsys.Volume.Blocks.{block_at, put_block, write_block-healthy}
use filsys.FreeList.{primed, push_cache, push_block, after_dump, chain_block, bfree}
use filsys.FreeList.Chain.{IsData, IsMounted, Chain, All}
use filsys.Base.{enospc}
use filsys.FreeList.{balloc}
use filsys.FreeList.Chain.{Distinct, Chain-nil}
use filsys.Base.{inl, inr}
use filsys.FreeList.Pop.{Popped, balloc-Popped}
use filsys.FreeList.Dump.{dumped-Pushed}
use filsys.FreeList.Cache.{IsCache, Pushed, prime, prime-IsCache, primed-empty, primed-some}
use filsys.FreeList.Cache.{push_cache-Pushed}

push_block-full :
    (fs : Edition) (b : ℕ)
    → IsMounted fs
    → IsData fs b
    → fs.desc.nicfree ≤ fs.fl.nfree
    → push_block fs b ≡ after_dump (ok tt, put_block fs b (chain_block fs)) b
unfolding push_block
push_block-full fs b v d full =
    let test : leb fs.desc.nicfree fs.fl.nfree ≡ true = ground arith in
    ap (λ t. if t then after_dump (write_block fs b (chain_block fs)) b else push_cache fs b) test
    ∙ ap (λ r. after_dump r b) (write_block-healthy fs v.healthy b d.1 (chain_block fs))

push_block-room :
    (fs : Edition) (b : ℕ) → fs.fl.nfree < fs.desc.nicfree → push_block fs b ≡ push_cache fs b
unfolding push_block
push_block-room fs b room = ground arith

module _ (fs : Edition) (b : ℕ) (xs : List ℕ) (d : IsData fs b) (fresh : All (λ y. y ≢ b) xs) where
  push_block-Pushed : IsCache fs xs → 0 < fs.fl.nfree → Pushed fs b xs (push_block fs b)
  push_block-Pushed k pos = elim (dec_lt fs.fl.nfree fs.desc.nicfree) [
    | yes room ↦
        subst (Pushed fs b xs) (sym (push_block-room fs b room))
          (push_cache-Pushed fs b xs k d pos room)
    | no full ↦
        subst (Pushed fs b xs) (sym (push_block-full fs b k.mounted d (omega arith)))
          (dumped-Pushed fs b xs k d fresh (omega (arith, k.shallow)))
  ]

bfree-inside : (fs : Edition) (b : ℕ) → IsData fs b → bfree fs b ≡ push_block (primed fs) b
unfolding bfree
bfree-inside fs b d = ground arith

-- On a mounted volume whose free list stands for `xs`, releasing a data block `b` that is not
-- free leaves the list `b ∷ xs`, with the count within the depth of the cache, and touches no
-- other block. That holds also where the full cache is dumped into `b`.
pub bfree-Pushed :
    (fs : Edition) (b : ℕ) (xs : List ℕ)
    → IsCache fs xs
    → IsData fs b
    → All (λ y. y ≢ b) xs
    → Pushed fs b xs (bfree fs b)
bfree-Pushed fs b xs k d fresh = elim (ℕ_discrete fs.fl.nfree 0) [
  | yes e ↦
      let p = push_block-Pushed (prime fs) b xs d fresh (prime-IsCache fs xs k e) (omega arith) in
      subst (Pushed fs b xs)
        (sym (bfree-inside fs b d ∙ ap (λ g. push_block g b) (primed-empty fs e)))
        (record { cache = p.cache; others = p.others })
  | no ne ↦
      subst (Pushed fs b xs)
        (sym (bfree-inside fs b d ∙ ap (λ g. push_block g b) (primed-some fs ne)))
        (push_block-Pushed fs b xs d fresh k (omega arith))
]

-- Only the backing file, the free list and the dirty flag differ.
abbrev pub Kept : Edition → Edition → Type 0
Kept fs g = g ≡ record fs { img = g.img; fl = g.fl; fl_dirty = g.fl_dirty }

Kept-push_block : (fs : Edition) (b : ℕ) → Kept fs (push_block fs b)
unfolding push_block after_dump push_cache write_block
Kept-push_block fs b = ground arith

pub Kept-bfree : (fs : Edition) (b : ℕ) → Kept fs (bfree fs b)
unfolding bfree primed
Kept-bfree fs b = ground (arith, Kept-push_block (primed fs) b)

pub Kept-trans : (fs g h : Edition) → Kept fs g → Kept g h → Kept fs h
Kept-trans fs g h o p =
    p ∙ ap {A = Edition} (λ k. record k { img = h.img; fl = h.fl; fl_dirty = h.fl_dirty }) o

-- On a mounted volume whose free list stands for `xs`, a data block `b` that is released, not free
-- before and no block twice in `xs`, is the next one to be allocated. Both calls together leave a free
-- list that stands for `xs`, clear the block, and leave every other block from the third on as it was
-- before the release, also where the release dumps a full cache into `b` and the allocation reloads it.
pub balloc-bfree :
    (fs : Edition) (b : ℕ) (xs : List ℕ)
    → IsCache fs xs
    → IsData fs b
    → Distinct (b ∷ xs)
    → Popped fs b xs (balloc (bfree fs b))
balloc-bfree fs b xs k d distinct =
    let q = bfree-Pushed fs b xs k d distinct.0 in
    let p = balloc-Popped (bfree fs b) b xs q.cache.mounted distinct q.cache.chain in
    let same : (bfree fs b).desc ≡ fs.desc = ap (λ h. h.desc) (Kept-bfree fs b) in
    let size : (bfree fs b).desc.bsize ≡ fs.desc.bsize = ap (λ e. e.bsize) same in
    record {
      returned = p.returned;
      rest = p.rest;
      mounted = p.mounted;
      cleared = λ i l. p.cleared i (omega (arith, size, l));
      flush_due = p.flush_due;
      others = λ x two ne i l.
          let at : block_at (bfree fs b) x ≡ block_at fs x =
            ap (λ h. block_at h x) (Kept-bfree fs b) in
          let h = p.others x two ne i (omega (arith, size, l)) in
          subst (λ (a : ℕ). (balloc (bfree fs b)).1.img (a + i) ≡ (bfree fs b).img (a + i)) at h
          ∙ q.others x ne i l;
    }

-- With no block on the free list an allocation fails with -ENOSPC and writes nothing.
pub balloc_exhausted :
    (fs : Edition)
    → Chain fs fs.fl.nfree fs.fl.free []
    → ((balloc fs).0 ≡ err enospc) × ((p : ℕ) → (balloc fs).1.img p ≡ fs.img p)
unfolding balloc
balloc_exhausted fs c = elim (Chain-nil fs c) [
  | inl e ↦ (ground arith, λ p. ground arith)
  | inr (pos, e) ↦ (ground (arith, e), λ p. ground (arith, e))
]
