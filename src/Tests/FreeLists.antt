-- ===== src/Tests/FreeLists.antt =====
-- The free list at a small volume.
use filsys.Base.{
  ℕ, zero, suc, false, ◌^◌, ◌<◌, ◌≡◌, refl, arith, [], ◌∷◌, zeros, ok, err, enospc, poke,
}
use filsys.ByteOrder.{get16}
use filsys.Base.{some}
use filsys.Volume.{Edition, Step}
use filsys.FreeList.{balloc, bfree, ialloc}
use filsys.FreeList.Search.{ialloc_ends}
use filsys.FreeList.Chain.{IsData, IsMounted, Chain, mark, entry}
use filsys.FreeList.Cache.{IsCache, Pushed}
use filsys.FreeList.Pop.{with_state-IsMounted, Popped, balloc-Popped}
use filsys.FreeList.Push.{bfree-Pushed, balloc-bfree, balloc_exhausted}
use filsys.FreeList.Bounds.{balloc-IsData, balloc_takes_bad_count}
use filsys.Tests.Sample.{small, array}

pub small-IsMounted : IsMounted small
small-IsMounted = record {
  healthy = record {
    reads = λ off n. refl;
    writes = λ off n. refl;
    writable = refl;
    fits = omega arith;
  };
  data_behind = omega arith;
  super_fits = omega arith;
  chain_fits = omega arith;
  count_fits = omega arith;
  deep = omega arith;
  depth_fits = omega arith;
  numbers_fit = omega arith;
}

small-Chain : Chain small 3 small.fl.free (6 ∷ 5 ∷ [])
small-Chain = entry refl (omega arith) (entry refl (omega arith) (mark refl))

small_numbers : (i : ℕ) → i < 3 → small.fl.free i < 2 ^ 32
small_numbers zero h = omega arith
small_numbers (suc zero) h = omega arith
small_numbers (suc (suc zero)) h = omega arith
small_numbers (suc (suc (suc i))) h = omega arith

pub small-IsCache : IsCache small (6 ∷ 5 ∷ [])
small-IsCache = record {
  mounted = small-IsMounted;
  chain = small-Chain;
  shallow = omega arith;
  numbers = small_numbers;
}

balloc-Popped_example : Popped small 6 (5 ∷ []) (balloc small)
balloc-Popped_example = balloc-Popped small 6 (5 ∷ []) small-IsMounted (omega arith) small-Chain

bfree-Pushed_example : Pushed small 9 (6 ∷ 5 ∷ []) (bfree small 9)
bfree-Pushed_example = bfree-Pushed small 9 (6 ∷ 5 ∷ []) small-IsCache (omega arith) (omega arith)

balloc-bfree_example : Popped small 9 (6 ∷ 5 ∷ []) (balloc (bfree small 9))
balloc-bfree_example = balloc-bfree small 9 (6 ∷ 5 ∷ []) small-IsCache (omega arith) (omega arith)

abbrev spent : Edition
spent = record small { fl = record small.fl { nfree = 1 } }

balloc_exhausted_example : ((balloc spent).0 ≡ err enospc) × ((p : ℕ) → (balloc spent).1.img p ≡ 0)
balloc_exhausted_example = balloc_exhausted spent (mark refl)

balloc-IsData_example : IsData small 6
balloc-IsData_example = balloc-IsData small 6 balloc-Popped_example.returned

-- Block 7 is the bottom of the cache and claims 60 entries of a cache of 50.
abbrev crooked : Edition
crooked = record small {
  img = poke zeros (3584) 60;
  fl = record small.fl { nfree = 1; free = array (7 ∷ []) };
}

crooked-IsMounted : IsMounted crooked
crooked-IsMounted = with_state-IsMounted small crooked.img crooked.fl false small-IsMounted

balloc_takes_bad_count_example : ((balloc crooked).0 ≡ ok 7) × ((balloc crooked).1.fl.nfree ≡ 60)
unfolding get16
balloc_takes_bad_count_example =
    balloc_takes_bad_count crooked 7 60 crooked-IsMounted (omega arith) refl refl refl (omega arith)
      (omega arith)

ialloc_ends_example : (r : Step ℕ) × (ialloc 3 small ≡ some r)
ialloc_ends_example = ialloc_ends small (omega arith) (omega arith)
