-- ===== src/FreeList/Cache.antt =====
-- A cache that stands for a list of free blocks, its end mark, and a push into a cache with room.
use native.Mathlib.Nat.{one-le-pow}
use filsys.Base.{ℕ, zero, suc, ◌+◌, ◌*◌, ◌^◌, ◌≤◌, ◌<◌, ◌≡◌, ◌≢◌, refl}
use filsys.Base.{subst, arith, List, ◌∷◌, u16}
use filsys.Volume.{Edition}
use filsys.FreeList.{daddr, update, with_fl}
use filsys.FreeList.{primed, push_cache}
use filsys.FreeList.Chain.{IsData, IsMounted, Chain, bare, mark, entry, link, All}
use filsys.FreeList.Chain.{SameBlock, Chain-frame, Chain-congr, Chain-IsData}
use filsys.FreeList.Frame.{All-both}
use filsys.FreeList.Pop.{with_state-IsMounted}

-- Every cache entry in use is a block number of the format's width.
abbrev pub Fits : Edition → ℕ → (ℕ → ℕ) → Type 0
Fits fs n cur = (i : ℕ) → i < n → cur i < 2 ^ (8 * (daddr fs.desc).width)

-- A cache that stands for `xs`, within its depth.
pub record IsCache (fs : Edition) (xs : List ℕ) : Type 0 where
  pub mounted : IsMounted fs
  pub chain : Chain fs fs.fl.nfree fs.fl.free xs
  pub shallow : fs.fl.nfree ≤ fs.desc.nicfree
  pub numbers : Fits fs fs.fl.nfree fs.fl.free

-- ---- the end mark of an empty cache

prime-Chain :
    (fs : Edition) {n : ℕ} {cur : ℕ → ℕ} {xs : List ℕ}
    → Chain fs n cur xs
    → n ≡ 0
    → Chain fs 1 (update cur 0 0) xs
prime-Chain fs bare e = mark refl
prime-Chain fs (mark c) e = absurd (omega arith)
prime-Chain fs (entry c d r) e = absurd (omega arith)
prime-Chain fs (link c d s r) e = absurd (omega arith)

abbrev pub prime : Edition → Edition
prime fs = with_fl fs (record fs.fl { nfree = 1; free = update fs.fl.free 0 0 })

pub primed-empty : (fs : Edition) → fs.fl.nfree ≡ 0 → primed fs ≡ prime fs
unfolding primed
primed-empty fs e = ground arith

pub primed-some : (fs : Edition) → fs.fl.nfree ≢ 0 → primed fs ≡ fs
unfolding primed
primed-some fs e = ground arith

pub same_image :
    (fs : Edition) {n : ℕ} {cur : ℕ → ℕ} {xs : List ℕ}
    → Chain fs n cur xs
    → All (SameBlock fs fs.img) xs
same_image fs {xs = xs} c =
    All-both (IsData fs) (IsData fs) (SameBlock fs fs.img) xs (λ x p q i l. refl)
      (Chain-IsData fs c) (Chain-IsData fs c)

pub prime-IsCache :
    (fs : Edition) (xs : List ℕ) → IsCache fs xs → fs.fl.nfree ≡ 0 → IsCache (prime fs) xs
prime-IsCache fs xs k e = record {
  mounted = with_state-IsMounted fs fs.img _ fs.fl_dirty k.mounted;
  chain = Chain-frame fs _ fs.fl_dirty k.mounted (same_image fs k.chain) (prime-Chain fs k.chain e);
  shallow = k.mounted.deep;
  numbers = λ i l.
      let pos : 1 ≤ 2 ^ (8 * (daddr fs.desc).width) = one-le-pow _ 2 (omega arith) in ground arith;
}

-- ---- a cache with room

-- What putting `b` in front of the chain `xs` has done.
pub record Pushed (fs : Edition) (b : ℕ) (xs : List ℕ) (out : Edition) : Type 0 where
  pub cache : IsCache out (b ∷ xs)
  pub others : (x : ℕ) → x ≢ b → SameBlock fs out.img x

push-Chain :
    (fs : Edition) {n : ℕ} {cur : ℕ → ℕ} {xs : List ℕ} (b : ℕ)
    → 0 < n
    → IsData fs b
    → Chain fs n cur xs
    → Chain fs (n + 1) (update cur n b) (b ∷ xs)
push-Chain fs {n = zero} b pos d c = absurd (omega arith)
push-Chain fs {n = suc m} {cur} {xs} b pos d c =
    let up : suc (suc m) ≡ suc m + 1 = omega arith in
    subst (λ k. Chain fs k (update cur (suc m) b) (b ∷ xs)) up
      (entry (ground arith) d (Chain-congr fs _ (λ i l. ground arith) c))

pub push_cache-Pushed :
    (fs : Edition) (b : ℕ) (xs : List ℕ)
    → IsCache fs xs
    → IsData fs b
    → 0 < fs.fl.nfree
    → fs.fl.nfree < fs.desc.nicfree
    → Pushed fs b xs (push_cache fs b)
unfolding push_cache
push_cache-Pushed fs b xs k d pos room = record {
  cache = record {
    mounted = with_state-IsMounted fs fs.img _ fs.fl_dirty k.mounted;
    chain =
        let kept : fs.fl.nfree + 1 ≡ u16 (fs.fl.nfree + 1) = omega (arith, k.mounted.depth_fits) in
        subst (λ n. Chain (push_cache fs b) n (update fs.fl.free fs.fl.nfree b) (b ∷ xs)) kept
          (push-Chain (push_cache fs b) b pos d
            (Chain-frame fs _ fs.fl_dirty k.mounted (same_image fs k.chain) k.chain));
    shallow = omega arith;
    numbers = λ i l. ground (arith, k.numbers i, k.mounted.numbers_fit, d.1);
  };
  others = λ x ne i l. refl;
}
