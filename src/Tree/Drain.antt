-- ===== src/Tree/Drain.antt =====
-- What filsys_blklist_drain leaves on the free list.
use filsys.Base.{ℕ, ◌≡◌, ◌∙◌, refl, ap, sym, subst, arith, List, [], ◌∷◌, ◌++◌}
use filsys.Volume.{Edition, list}
use filsys.FreeList.{bfree}
use filsys.FreeList.Chain.{IsData, All, Distinct}
use filsys.FreeList.Cache.{IsCache}
use filsys.FreeList.Push.{Kept, Kept-bfree, Kept-trans, bfree-Pushed}
use filsys.Alloc.{alloc}
use filsys.Tree.{drain}

bfree-list :
    (fs : Edition) (b : ℕ) → fs.desc.freemap ≡ list → (alloc fs.desc).bfree fs b ≡ bfree fs b
bfree-list fs b e = ground (arith, e)

-- What draining `b` onto the free list `xs` leaves.
record Drained (fs : Edition) (xs : List ℕ) (g : Edition) : Type 0 where
  kept : Kept fs g
  cache : IsCache g xs

drain-Drained :
    (fs : Edition) (b xs : List ℕ)
    → fs.desc.freemap ≡ list
    → IsCache fs xs
    → All (IsData fs) b
    → Distinct (b ++ xs)
    → Drained fs (b ++ xs) (drain fs b)
unfolding drain
drain-Drained fs [] xs l k d distinct = record { kept = refl; cache = k }
drain-Drained fs (x ∷ b) xs l k d distinct =
    let rest = drain-Drained fs b xs l k d.1 distinct.1 in
    let g = drain fs b in
    let same : g.desc.freemap ≡ list = ap (λ h. h.desc.freemap) rest.kept ∙ l in
    let inside : IsData g x = subst (λ h. IsData h x) (sym rest.kept) d.0 in
    subst (Drained fs (x ∷ b ++ xs)) (sym (bfree-list g x same)) (record {
      kept = Kept-trans fs g (bfree g x) rest.kept (Kept-bfree g x);
      cache = (bfree-Pushed g x (b ++ xs) rest.cache inside distinct.0).cache;
    })

-- On a mounted volume whose free list stands for `xs`, draining a list of collected data blocks,
-- none of them free and none of them twice in it, leaves a free list that stands for those blocks
-- on top of `xs`, the block that was collected last foremost.
pub drain-IsCache :
    (fs : Edition) (b xs : List ℕ)
    → fs.desc.freemap ≡ list
    → IsCache fs xs
    → All (IsData fs) b
    → Distinct (b ++ xs)
    → IsCache (drain fs b) (b ++ xs)
drain-IsCache fs b xs l k d distinct = (drain-Drained fs b xs l k d distinct).cache
