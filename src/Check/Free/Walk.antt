-- ===== src/Check/Free/Walk.antt =====
-- The walk of the checker finds the blocks that allocation would hand out.
use filsys.Base.{ℕ, zero, suc, ◌+◌, ◌-◌, ◌^◌, ◌<◌, ◌≡◌, ◌≢◌, refl, ap, sym, subst, arith}
use filsys.Base.{Bool, true, false, List, [], ◌∷◌, length, ◌==◌, ltb}
use filsys.Base.{some, IsBytes, u16, u32}
use filsys.ByteOrder.Entries.{get_all}
use filsys.Volume.{Edition, list, data_first}
use filsys.Volume.Blocks.{block_of, read_block-healthy}
use filsys.FreeList.{daddr, df_nfree, chain_free_off, outside_data}
use filsys.FreeList.Chain.{IsData, IsMounted, Chain, bare, mark, entry, link, Holds, All, Distinct}
use filsys.FreeList.Chain.{Chain-congr, Chain-IsData}
use filsys.FreeList.Cache.{IsCache}
use filsys.Bitmap.{bit_at}
use filsys.Check.Mark.Claims.{count}
use filsys.Check.Free.{Tally, mark_free, walk_segment, see, walk_list, walk_free}
use filsys.Check.Free.Listed.{length-Distinct}
use filsys.Check.Free.Found.{Found, Found-none, Found-cons, Found-mark_free}

-- A chain block yields the next segment.
segment-Chain :
    (fs : Edition) (b k : ℕ) (next cur : ℕ → ℕ) (xs : List ℕ)
    → IsMounted fs
    → Holds fs b k next
    → Chain fs k next xs
    → (cur' : ℕ → ℕ) × (walk_segment fs (block_of fs b) cur ≡ some (k, cur')) × Chain fs k cur' xs
unfolding walk_segment
segment-Chain fs b k next cur xs v s c =
    let cur' =
      get_all (daddr fs.desc) (block_of fs b) (chain_free_off fs.desc) fs.desc.nicfree cur in
    let n : u16 ((df_nfree fs.desc).get (block_of fs b) 0) ≡ k =
      omega (arith, s.count, s.bounded, v.depth_fits) in
    let small : ltb fs.desc.nicfree k ≡ false = ground (arith, s.bounded) in
    (
      cur',
      rw (n, walk_segment) (rw small refl),
      Chain-congr fs cur'
          (λ i l.
            let kept : i < fs.desc.nicfree = omega (arith, s.bounded) in
            ground (arith, s.entries i l))
          c,
    )

-- The blocks of a list are neither seen nor marked.
abbrev Fresh : Edition → (ℕ → Bool) → Tally → ℕ → Type 0
Fresh fs seen t x = (seen x ≡ false) × (bit_at t.0.bmap (x - data_first fs) ≡ false)

module _ (fs : Edition) (seen : ℕ → Bool) (t u : Tally) (b : ℕ) (p : Found fs t (b ∷ []) u) where
  Fresh-next : (x : ℕ) → IsData fs x → x ≢ b → Fresh fs seen t x → Fresh fs (see seen b) u x
  Fresh-next x i ne f =
      let back : data_first fs + (x - data_first fs) ≡ x = omega (arith, i.0) in
      let m = p.marks (x - data_first fs) in
      (ground (arith, f.0), ground (arith, f.1, m, ap (λ y. count y (b ∷ [])) back))

  Fresh-rest :
      (xs : List ℕ)
      → All (IsData fs) xs
      → All (λ x. x ≢ b) xs
      → All (Fresh fs seen t) xs
      → All (Fresh fs (see seen b) u) xs
  Fresh-rest [] i ne f = tt
  Fresh-rest (x ∷ xs) i ne f = (Fresh-next x i.0 ne.0 f.0, Fresh-rest xs i.1 ne.1 f.1)

-- One round at a good block, in front of `more` rounds.
module _ (fs : Edition) (left n : ℕ) (cur : ℕ → ℕ) (seen : ℕ → Bool) (t : Tally) (b : ℕ)
    (v : IsMounted fs) (i : IsData fs b) (e : cur n ≡ b) (new : seen b ≡ false)
    (room : 0 < left) where
  walk_list-entry :
      n ≢ 0
      → walk_list fs (suc left) (suc n) cur seen t
        ≡ walk_list fs left n cur (see seen b) (mark_free fs b t)
  unfolding walk_list
  walk_list-entry deep =
      let nonzero : (b == 0) ≡ false = ground (arith, v.data_behind, i.0) in
      let inside : outside_data fs b ≡ false = ground (arith, i.0, i.1) in
      let more : (left == 0) ≡ false = ground arith in
      let above : (n == 0) ≡ false = ground arith in
      rw (e, walk_list) (rw nonzero (rw inside (rw new (rw more (rw above refl)))))

  walk_list-link :
      (k : ℕ) (next : ℕ → ℕ)
      → n ≡ 0
      → walk_segment fs (block_of fs b) cur ≡ some (k, next)
      → walk_list fs (suc left) (suc n) cur seen t
        ≡ walk_list fs left k next (see seen b) (mark_free fs b t)
  unfolding walk_list
  walk_list-link k next bottom s =
      let nonzero : (b == 0) ≡ false = ground (arith, v.data_behind, i.0) in
      let inside : outside_data fs b ≡ false = ground (arith, i.0, i.1) in
      let more : (left == 0) ≡ false = ground arith in
      let last : (n == 0) ≡ true = ground arith in
      rw (e, walk_list)
        (rw nonzero (
          rw inside (
            rw new (
              rw more (
                rw last (
                  rw (read_block-healthy fs v.healthy b i.1) (
                    rw s
                      (ap (λ y. walk_list fs left k next (see seen y) (mark_free fs y t)) e))))))))

walk_list-Found :
    (fs : Edition) (left n : ℕ) (cur : ℕ → ℕ) (seen : ℕ → Bool) (t : Tally) (xs : List ℕ)
    → IsMounted fs
    → IsBytes t.0.bmap
    → Distinct xs
    → All (Fresh fs seen t) xs
    → length xs < left
    → Chain fs n cur xs
    → Found fs t xs (walk_list fs left n cur seen t)
unfolding walk_list
walk_list-Found fs zero n cur seen t xs v bytes d f l c = absurd (omega arith)
walk_list-Found fs (suc left) _ cur seen t _ v bytes d f l bare = Found-none fs t bytes
walk_list-Found fs (suc left) _ cur seen t _ v bytes d f l (mark e) =
    rw (e, walk_list) (Found-none fs t bytes)
walk_list-Found fs (suc left) _ cur seen t _ v bytes d f l (entry {n} {b} {xs = xs} e i c) =
    let one = Found-mark_free fs b t bytes i f.0.1 in
    let u = mark_free fs b t in
    let rest =
      walk_list-Found fs left (suc n) cur (see seen b) u xs v one.bytes d.1
        (Fresh-rest fs seen t u b one xs (Chain-IsData fs c) d.0 f.1) (omega arith) c in
    subst (Found fs t (b ∷ xs))
      (sym (walk_list-entry fs left (suc n) cur seen t b v i e f.0.0 (omega arith) (omega arith)))
      (Found-cons fs t u _ b xs one rest)
walk_list-Found fs (suc left) _ cur seen t _ v bytes d f l
      (link {b} {k} {next = next} {xs} e i s c) =
    let one = Found-mark_free fs b t bytes i f.0.1 in
    let u = mark_free fs b t in
    let (next', read, c') = segment-Chain fs b k next cur xs v s c in
    let rest =
      walk_list-Found fs left k next' (see seen b) u xs v one.bytes d.1
        (Fresh-rest fs seen t u b one xs (Chain-IsData fs c') d.0 f.1) (omega arith) c' in
    subst (Found fs t (b ∷ xs))
      (sym (walk_list-link fs left 0 cur seen t b v i e f.0.0 (omega arith) k next' refl read))
      (Found-cons fs t u _ b xs one rest)

All-map : (P Q : ℕ → Type 0) (xs : List ℕ) → ((x : ℕ) → P x → Q x) → All P xs → All Q xs
All-map P Q [] h a = tt
All-map P Q (x ∷ xs) h a = (h x a.0, All-map P Q xs h a.1)

pub walk_free-list :
    (fs : Edition) (t : Tally)
    → fs.desc.freemap ≡ list
    → walk_free fs t
      ≡ walk_list fs (u32 (fs.fsize + fs.desc.nicfree) + 1) fs.fl.nfree fs.fl.free (λ _. false) t
unfolding walk_free
walk_free-list fs t l = ground (arith, l)

-- On a mounted volume with a free list that stands for `xs`, none of them twice in it, where the
-- size and the depth of the cache together are below 2^32, the walk of the checker, over a map of
-- bytes, complains of nothing if none of these blocks is marked: it counts them as free, sets their
-- bits and no others, and leaves all else of the context and of the report as it is. The guard
-- against endless lists does not stop it.
pub walk_free-Found :
    (fs : Edition) (t : Tally) (xs : List ℕ)
    → fs.desc.freemap ≡ list
    → fs.fsize + fs.desc.nicfree < 2 ^ 32
    → IsCache fs xs
    → Distinct xs
    → IsBytes t.0.bmap
    → All (λ x. bit_at t.0.bmap (x - data_first fs) ≡ false) xs
    → Found fs t xs (walk_free fs t)
walk_free-Found fs t xs l bound k d bytes clear =
    let below = All-map (IsData fs) (λ x. x < fs.fsize) xs (λ x i. i.1) (Chain-IsData fs k.chain) in
    let short = length-Distinct fs.fsize xs below d in
    subst (Found fs t xs) (sym (walk_free-list fs t l)) (
      walk_list-Found fs (u32 (fs.fsize + fs.desc.nicfree) + 1) fs.fl.nfree fs.fl.free (λ _. false)
        t xs k.mounted bytes d
        (All-map (λ x. bit_at t.0.bmap (x - data_first fs) ≡ false) (Fresh fs (λ _. false) t) xs
          (λ x c. (refl, c)) clear)
        (omega arith) k.chain)
