-- ===== src/FreeList/Pop.antt =====
-- v7fs_balloc takes the first block of the chain.
use filsys.Base.{List, ◌∷◌, blit, blit-from, refl, subst, sym, u16, from}
use filsys.Base.{◌≤◌, ◌≢◌, suc}
use filsys.Base.{ℕ, ◌-◌, ◌<◌, ◌≡◌, ap, ◌∙◌, true, false, arith}
use filsys.Base.{Bytes, zeros, Bool, ◌==◌, if◌then◌else◌, ok}
use filsys.Volume.{Edition, Step, Freelist}
use filsys.Volume.Blocks.{block_at, block_of, put_block}
use filsys.Volume.Blocks.{read_block-healthy, write_block-healthy}
use filsys.Super.{encode}
use filsys.Super.Effect.{super_at, after_super, super_write-healthy}
use filsys.FreeList.{with_fl, balloc, load_chain, df_nfree, reload, take_block, hand_out, as_eio}
use filsys.FreeList.Chain.{IsData, IsMounted, Chain, Top, above, bottom, Holds, with_state, All}
use filsys.FreeList.Chain.{SameBlock, Chain-frame, Chain-congr, Chain-IsData, Chain-Top, Distinct}
use filsys.FreeList.Frame.{other_block_same, super_same, All-both}

-- Nothing that the allocator changes matters to a mounted volume.
pub with_state-IsMounted :
    (fs : Edition) (img : Bytes) (fl : Freelist) (dirty : Bool)
    → IsMounted fs
    → IsMounted (with_state fs img fl dirty)
with_state-IsMounted fs img fl dirty v = record {
  healthy = record {
    reads = v.healthy.reads;
    writes = v.healthy.writes;
    writable = v.healthy.writable;
    fits = v.healthy.fits;
  };
  data_behind = v.data_behind;
  super_fits = v.super_fits;
  chain_fits = v.chain_fits;
  count_fits = v.count_fits;
  deep = v.deep;
  depth_fits = v.depth_fits;
  numbers_fit = v.numbers_fit;
}

abbrev pub popped : Edition → Edition
popped fs = with_fl fs (record fs.fl { nfree = fs.fl.nfree - 1 })

-- A good block at the top of the cache is taken, behind a reload if it is the bottom entry.
balloc-top :
    (fs : Edition) (b : ℕ)
    → IsMounted fs
    → 0 < fs.fl.nfree
    → fs.fl.free (fs.fl.nfree - 1) ≡ b
    → IsData fs b
    → balloc fs
      ≡ take_block (if fs.fl.nfree - 1 == 0 then reload (popped fs) b else (ok tt, popped fs)) b
unfolding balloc
balloc-top fs b v pos f d = ground (arith, f)

abbrev pub loaded : Edition → ℕ → Edition
loaded fs b = load_chain (popped fs) (block_of fs b)

loaded-IsMounted : (fs : Edition) (b : ℕ) → IsMounted fs → IsMounted (loaded fs b)
unfolding load_chain
loaded-IsMounted fs b v = with_state-IsMounted fs fs.img (loaded fs b).fl fs.fl_dirty v

after_super-IsMounted : (fs : Edition) → IsMounted fs → IsMounted (after_super fs)
after_super-IsMounted fs v = with_state-IsMounted fs (after_super fs).img fs.fl false v

reload-healthy :
    (fs : Edition) (b : ℕ)
    → IsMounted fs
    → IsData fs b
    → reload (popped fs) b ≡ (ok tt, after_super (loaded fs b))
unfolding reload as_eio
reload-healthy fs b v d =
    let mounted = with_state-IsMounted fs fs.img (popped fs).fl fs.fl_dirty v in
    let wide : 1 < fs.fsize = omega arith in
    rw (read_block-healthy (popped fs) mounted.healthy b d.1, reload)
      (ap as_eio (
        super_write-healthy (loaded fs b) (loaded-IsMounted fs b v).healthy
          (unfold load_chain in wide)))

module _ (fs : Edition) (b : ℕ) (v : IsMounted fs) (d : IsData fs b)
    (f : fs.fl.free (fs.fl.nfree - 1) ≡ b) where
  -- The cache has another entry below the one that is taken.
  balloc-entry : 1 < fs.fl.nfree → balloc fs ≡ hand_out (ok tt, put_block (popped fs) b zeros) b
  unfolding take_block
  balloc-entry more =
      let deeper : (fs.fl.nfree - 1 == 0) ≡ false = ground arith in
      let mounted = with_state-IsMounted fs fs.img (popped fs).fl fs.fl_dirty v in
      balloc-top fs b v (omega arith) f d
      ∙ ap (λ c. take_block (if c then reload (popped fs) b else (ok tt, popped fs)) b) deeper
      ∙ ap (λ r. hand_out r b) (write_block-healthy (popped fs) mounted.healthy b d.1 zeros)

  -- The entry that is taken is the bottom of the cache, and the next segment is loaded from it.
  pub balloc-link :
      fs.fl.nfree ≡ 1
      → balloc fs ≡ hand_out (ok tt, put_block (after_super (loaded fs b)) b zeros) b
  unfolding take_block load_chain
  balloc-link last =
      let bottom : (fs.fl.nfree - 1 == 0) ≡ true = ground arith in
      balloc-top fs b v (omega arith) f d
      ∙ ap (λ c. take_block (if c then reload (popped fs) b else (ok tt, popped fs)) b) bottom
      ∙ ap (λ r. take_block r b) (reload-healthy fs b v d)
      ∙ ap (λ r. hand_out r b)
          (write_block-healthy (after_super (loaded fs b))
            (after_super-IsMounted (loaded fs b) (loaded-IsMounted fs b v)).healthy b d.1 zeros)

loaded_super_same :
    (fs : Edition) (b x : ℕ) → IsMounted fs → 2 ≤ x → SameBlock fs (after_super (loaded fs b)).img x
unfolding load_chain
loaded_super_same fs b x v two =
    super_same fs (encode (loaded fs b) (from fs.img (super_at fs))) x v two

-- What taking the block `b` off the chain `b ∷ xs` has done.
pub record Popped (fs : Edition) (b : ℕ) (xs : List ℕ) (out : Step ℕ) : Type 0 where
  pub returned : out.0 ≡ ok b
  pub rest : Chain out.1 out.1.fl.nfree out.1.fl.free xs
  pub mounted : IsMounted out.1
  pub cleared : (i : ℕ) → i < fs.desc.bsize → block_of out.1 b i ≡ 0
  pub flush_due : out.1.fl_dirty ≡ true
  pub others : (x : ℕ) → 2 ≤ x → x ≢ b → SameBlock fs out.1.img x

hand_out-Popped :
    (fs : Edition) (b : ℕ) (xs : List ℕ) (img : Bytes) (fl : Freelist) (dirty : Bool)
    → IsMounted fs
    → All (λ y. y ≢ b) xs
    → ((x : ℕ) → 2 ≤ x → SameBlock fs img x)
    → Chain fs fl.nfree fl.free xs
    → Popped fs b xs (hand_out (ok tt, put_block (with_state fs img fl dirty) b zeros) b)
unfolding hand_out
hand_out-Popped fs b xs img fl dirty v fresh same c = record {
  returned = refl;
  rest =
      Chain-frame fs _ true v
        (All-both (IsData fs) (λ y. y ≢ b)
          (SameBlock fs (blit img (block_at fs b) fs.desc.bsize zeros)) xs
          (λ x d ne. others x (omega (arith, v.data_behind)) ne) (Chain-IsData fs c) fresh)
        c;
  mounted = with_state-IsMounted fs _ _ true v;
  cleared = λ i l. blit-from img (block_at fs b) fs.desc.bsize zeros i l;
  flush_due = refl;
  others = others;
}
  where
    others : (x : ℕ) → 2 ≤ x → x ≢ b → SameBlock fs (blit img (block_at fs b) fs.desc.bsize zeros) x
    others x two ne = other_block_same fs img b x zeros ne (same x two)

-- The segment that a chain block holds is what the reload puts into the cache.
loaded-Chain :
    (fs : Edition) (b k : ℕ) (next : ℕ → ℕ) (xs : List ℕ)
    → IsMounted fs
    → Holds fs b k next
    → Chain fs k next xs
    → Chain fs (loaded fs b).fl.nfree (loaded fs b).fl.free xs
unfolding load_chain
loaded-Chain fs b k next xs v s c =
    let count : u16 ((df_nfree fs.desc).get (block_of fs b) 0) ≡ k = omega (arith, s.count) in
    subst (λ n. Chain fs n (loaded fs b).fl.free xs) (sym count)
      (Chain-congr fs _
        (λ i l.
          let kept : i < fs.desc.nicfree = omega (arith, s.bounded) in
          ground (arith, s.entries i l))
        c)

-- On a mounted volume whose free list stands for `b` and then `xs`, no block twice among them, an
-- allocation returns `b` and leaves the list `xs`: the block is cleared, no other block from the
-- third on is touched, and the superblock is due to be flushed before the next inode. That holds
-- also where `b` is the chain block that the next segment of the list is read from.
pub balloc-Popped :
    (fs : Edition) (b : ℕ) (xs : List ℕ)
    → IsMounted fs
    → Distinct (b ∷ xs)
    → Chain fs fs.fl.nfree fs.fl.free (b ∷ xs)
    → Popped fs b xs (balloc fs)
unfolding load_chain
balloc-Popped fs b xs v distinct c = at_top (Chain-Top fs c)
  where
    d : IsData fs b
    d = (Chain-IsData fs c).0

    at_top : Top fs fs.fl.nfree fs.fl.free b xs → Popped fs b xs (balloc fs)
    at_top (above m e f rest) =
        let below : fs.fl.nfree - 1 ≡ suc m = omega arith in
        subst (Popped fs b xs) (sym (balloc-entry fs b v d (ap fs.fl.free below ∙ f) (omega arith)))
          (hand_out-Popped fs b xs fs.img (popped fs).fl fs.fl_dirty v distinct.0
            (λ x two i l. refl) (subst (λ n. Chain fs n fs.fl.free xs) (sym below) rest))
    at_top (bottom k next e f s rest) =
        let below : fs.fl.nfree - 1 ≡ 0 = omega arith in
        subst (Popped fs b xs) (sym (balloc-link fs b v d (ap fs.fl.free below ∙ f) e)) (
          hand_out-Popped fs b xs (after_super (loaded fs b)).img (loaded fs b).fl false v
            distinct.0 (λ x two. loaded_super_same fs b x v two)
            (loaded-Chain fs b k next xs v s rest))
