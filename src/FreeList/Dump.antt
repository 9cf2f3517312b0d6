-- ===== src/FreeList/Dump.antt =====
-- A full cache is dumped into the block that is released.
use native.Mathlib.Nat.{mod-eq_of_lt}
use filsys.Base.{ℕ, ◌+◌, ◌*◌, ◌^◌, ◌<◌, ◌≡◌, ◌≢◌, ◌∙◌, inl, refl}
use filsys.Base.{subst, true, false, arith, List, Bytes, blit, zeros, Bool}
use filsys.Base.{ok, ◌==◌, if◌then◌else◌, blit-from}
use filsys.ByteOrder.Entries.{Codec, put_all-Agrees, get-put_all, codec16, codec32}
use filsys.Volume.{Desc, Edition, Freelist}
use filsys.Volume.Blocks.{block_at, put_block}
use filsys.FreeList.{daddr, df_nfree, chain_free_off}
use filsys.FreeList.{push_cache, after_dump, chain_block}
use filsys.FreeList.Chain.{IsData, Chain, link, Holds, with_state, All}
use filsys.FreeList.Chain.{SameBlock, Chain-frame, Chain-IsData, entry_fits}
use filsys.FreeList.Frame.{other_block_same, All-both}
use filsys.FreeList.Pop.{with_state-IsMounted}
use filsys.FreeList.Cache.{IsCache, Pushed}

df_nfree_wide : (d : Desc) (n : ℕ) → n < 2 ^ 16 → n < 2 ^ (8 * (df_nfree d).width)
df_nfree_wide d n h = by_width (d.df_nfree_wid == 4)
  where
    by_width : (c : Bool) → n < 2 ^ (8 * (if c then codec32 d.bo else codec16 d.bo).width)
    by_width true = omega arith
    by_width false = h

-- The cache as it is dumped into block `b` reads back as the segment that it was.
dump-Holds :
    (fs : Edition) (b : ℕ) (xs : List ℕ) (fl : Freelist)
    → IsCache fs xs
    → fs.fl.nfree ≡ fs.desc.nicfree
    → Holds
        (with_state fs (put_block fs b (chain_block fs)).img fl fs.fl_dirty)
        b
        fs.desc.nicfree
        fs.fl.free
unfolding chain_block
dump-Holds fs b xs fl k e = record {
  count =
      c.get-Agrees _ (chain_block fs) 0 (λ i l. back (0 + i) (omega arith))
      ∙ c.get-Agrees _ _ 0 (
          put_all-Agrees a head (chain_free_off fs.desc) fs.fl.free fs.desc.nicfree 0 c.width
            (inl (omega (arith, k.mounted.count_fits))))
      ∙ c.get-put zeros 0 fs.fl.nfree
      ∙ mod-eq_of_lt (df_nfree_wide fs.desc fs.fl.nfree (omega (arith, k.mounted.depth_fits)))
      ∙ e;
  bounded = omega arith;
  entries = λ i l.
      a.get-Agrees _ (chain_block fs) _ (λ j m.
        back (chain_free_off fs.desc + a.width * i + j)
          (omega (arith, k.mounted.chain_fits, entry_fits a.width i fs.desc.nicfree l)))
      ∙ get-put_all a head (chain_free_off fs.desc) fs.fl.free fs.desc.nicfree i l
      ∙ mod-eq_of_lt (k.numbers i (omega arith));
}
  where
    a : Codec
    a = daddr fs.desc

    c : Codec
    c = df_nfree fs.desc

    head : Bytes
    head = c.put zeros 0 fs.fl.nfree

    back :
        (i : ℕ)
        → i < fs.desc.bsize
        → blit fs.img (block_at fs b) fs.desc.bsize (chain_block fs) (block_at fs b + i)
          ≡ chain_block fs i
    back i l = blit-from fs.img (block_at fs b) fs.desc.bsize (chain_block fs) i l

pub dumped-Pushed :
    (fs : Edition) (b : ℕ) (xs : List ℕ)
    → IsCache fs xs
    → IsData fs b
    → All (λ y. y ≢ b) xs
    → fs.fl.nfree ≡ fs.desc.nicfree
    → Pushed fs b xs (after_dump (ok tt, put_block fs b (chain_block fs)) b)
unfolding after_dump push_cache
dumped-Pushed fs b xs k d fresh e = record {
  cache = record {
    mounted = with_state-IsMounted fs _ _ fs.fl_dirty k.mounted;
    chain = link (ground arith) d (dump-Holds fs b xs _ k e) (
        Chain-frame fs _ fs.fl_dirty k.mounted
          (All-both (IsData fs) (λ y. y ≢ b) (SameBlock fs (put_block fs b (chain_block fs)).img) xs
            (λ x _ ne. others x ne) (Chain-IsData fs k.chain) fresh)
          (subst (λ n. Chain fs n fs.fl.free xs) e k.chain));
    shallow = k.mounted.deep;
    numbers = λ i l. ground (arith, k.mounted.numbers_fit, d.1);
  };
  others = others;
}
  where
    others : (x : ℕ) → x ≢ b → SameBlock fs (put_block fs b (chain_block fs)).img x
    others x ne = other_block_same fs fs.img b x (chain_block fs) ne (λ i l. refl)
