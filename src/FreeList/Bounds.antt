-- ===== src/FreeList/Bounds.antt =====
-- What holds on every image and every host, sound or not: block numbers stay in the data area and
-- the release never overruns the cache; and the count that an allocation takes unchecked.
use filsys.Base.{ℕ, ◌-◌, ◌^◌, ◌≤◌, ◌<◌, ◌≡◌, ◌∙◌, ap, sym, subst, arith}
use filsys.Base.{zeros, ok, err}
use filsys.Volume.{Edition, Step, write_block}
use filsys.Volume.Blocks.{block_of}
use filsys.FreeList.{balloc, take_block, hand_out, reload, df_nfree, load_chain}
use filsys.FreeList.{bfree, push_block, push_cache, after_dump, chain_block}
use filsys.FreeList.Chain.{IsData, IsMounted}
use filsys.FreeList.Cache.{prime, primed-empty, primed-some}
use native.Mathlib.Decide.{ℕ_discrete}
use filsys.Base.{Bytes, ◌==◌, if◌then◌else◌}
use filsys.FreeList.Pop.{popped, balloc-link}

-- The block that an allocation returns is the one that it was asked to clear.
take_block-eq_ok : (r : Step (Unit {0})) (blk : ℕ) {b : ℕ} → (take_block r blk).0 ≡ ok b → b ≡ blk
unfolding take_block hand_out
take_block-eq_ok (ok u, fs) blk h = cleared (write_block fs blk zeros) h
  where
    cleared : (w : Step (Unit {0})) {b : ℕ} → (hand_out w blk).0 ≡ ok b → b ≡ blk
    cleared (ok u, g) e = cc
    cleared (err x, g) e = cc
take_block-eq_ok (err e, fs) blk h = cc

-- An allocation that succeeds returns a block of the data area, whatever the image holds.
pub balloc-IsData : (fs : Edition) (b : ℕ) → (balloc fs).0 ≡ ok b → IsData fs b
unfolding balloc
balloc-IsData fs b h =
    let blk : ℕ = fs.fl.free (fs.fl.nfree - 1) in
    ground (
      arith,
      take_block-eq_ok (if fs.fl.nfree - 1 == 0 then reload (popped fs) blk else (ok tt, popped fs))
          blk {b = b},
    )

after_dump-le :
    (r : Step (Unit {0})) (b n : ℕ) → 0 < n → r.1.fl.nfree ≤ n → (after_dump r b).fl.nfree ≤ n
unfolding after_dump push_cache
after_dump-le (ok u, fs) b n pos h = ground arith
after_dump-le (err e, fs) b n pos h = h

fl-write_block : (fs : Edition) (b : ℕ) (buf : Bytes) → (write_block fs b buf).1.fl ≡ fs.fl
unfolding write_block
fl-write_block fs b buf = ground arith

push_block-le :
    (fs : Edition) (b : ℕ)
    → 0 < fs.desc.nicfree
    → fs.fl.nfree ≤ fs.desc.nicfree
    → (push_block fs b).fl.nfree ≤ fs.desc.nicfree
unfolding push_block push_cache
push_block-le fs b pos h =
    let w = write_block fs b (chain_block fs) in
    ground (
      arith,
      after_dump-le w b fs.desc.nicfree pos
          (subst (λ fl. fl.nfree ≤ fs.desc.nicfree) (sym (fl-write_block fs b (chain_block fs))) h),
    )

-- The release never counts past the depth of the cache, also when the dump of a full cache fails.
pub nfree-bfree-le :
    (fs : Edition) (b : ℕ)
    → 0 < fs.desc.nicfree
    → fs.fl.nfree ≤ fs.desc.nicfree
    → (bfree fs b).fl.nfree ≤ fs.desc.nicfree
unfolding bfree
nfree-bfree-le fs b pos h = elim (ℕ_discrete fs.fl.nfree 0) [
  | yes e ↦ rw (primed-empty fs e, bfree) (ground (arith, push_block-le (prime fs) b pos pos))
  | no ne ↦ rw (primed-some fs ne, bfree) (ground (arith, push_block-le fs b pos h))
]

-- The count of a chain block goes into the cache unchecked: on a mounted volume whose cache has one
-- entry, which names a data block with a 16-bit count above the depth of the cache, the allocation
-- returns that block and leaves that count.
pub balloc_takes_bad_count :
    (fs : Edition) (b c : ℕ)
    → IsMounted fs
    → IsData fs b
    → fs.fl.nfree ≡ 1
    → fs.fl.free 0 ≡ b
    → (df_nfree fs.desc).get (block_of fs b) 0 ≡ c
    → fs.desc.nicfree < c
    → c < 2 ^ 16
    → ((balloc fs).0 ≡ ok b) × ((balloc fs).1.fl.nfree ≡ c)
unfolding hand_out load_chain
balloc_takes_bad_count fs b c v d e f g big small =
    let top : fs.fl.free (fs.fl.nfree - 1) ≡ b =
      let z : fs.fl.nfree - 1 ≡ 0 = omega arith in ap fs.fl.free z ∙ f in
    let run = balloc-link fs b v d top e in
    (ap (λ r. r.0) run, ap (λ r. r.1.fl.nfree) run ∙ omega (arith, g))
