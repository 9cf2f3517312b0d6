-- ===== src/FreeList/Chain.antt =====
-- The abstract free list: the sequence of blocks that repeated allocation would hand out, read
-- from the cache and, through its bottom entry, from the chain blocks of the volume.
use filsys.Base.{
  ℕ, zero, suc, ◌+◌, ◌*◌, ◌^◌, ◌≤◌, ◌<◌, ◌≡◌, ◌≢◌, refl, ap, inl, inr, ◌⊎◌, ◌-◌, arith,
}
use filsys.Base.{List, [], ◌∷◌, Bytes, Agrees, from, ◌∙◌, Bool}
use filsys.ByteOrder.Entries.{Codec}
use filsys.Volume.{Edition, Freelist, data_first}
use filsys.Volume.Blocks.{IsHealthy, block_at, block_of}
use filsys.Super.Effect.{super_at, super_len}
use filsys.FreeList.{daddr, chain_free_off, df_nfree}

abbrev pub IsData : Edition → ℕ → Type 0
IsData fs b = (data_first fs ≤ b) × (b < fs.fsize)

-- The block `b` holds the count `k` and the entries `cur 0 … cur (k - 1)` of a segment.
pub record Holds (fs : Edition) (b k : ℕ) (cur : ℕ → ℕ) : Type 0 where
  pub count : (df_nfree fs.desc).get (block_of fs b) 0 ≡ k
  pub bounded : k ≤ fs.desc.nicfree
  pub entries :
      (i : ℕ)
      → i < k
      → (daddr fs.desc).get (block_of fs b) (chain_free_off fs.desc + (daddr fs.desc).width * i)
        ≡ cur i

-- The cache `cur` of depth `n` stands for the blocks of the list, the next one first.
pub data Chain (fs : Edition) : ℕ → (ℕ → ℕ) → List ℕ → Type 0 where
  bare : {cur : ℕ → ℕ} → Chain fs zero cur []
  mark : {n : ℕ} {cur : ℕ → ℕ} → cur n ≡ 0 → Chain fs (suc n) cur []
  entry :
      {n b : ℕ} {cur : ℕ → ℕ} {xs : List ℕ}
      → cur (suc n) ≡ b
      → IsData fs b
      → Chain fs (suc n) cur xs
      → Chain fs (suc (suc n)) cur (b ∷ xs)
  link :
      {b k : ℕ} {cur next : ℕ → ℕ} {xs : List ℕ}
      → cur 0 ≡ b
      → IsData fs b
      → Holds fs b k next
      → Chain fs k next xs
      → Chain fs (suc zero) cur (b ∷ xs)

-- The volume is open for writing on a sound host, its superblock and chain blocks fit their
-- blocks, and block numbers fit an entry.
pub record IsMounted (fs : Edition) : Type 0 where
  pub healthy : IsHealthy fs
  pub data_behind : 2 ≤ data_first fs
  pub super_fits : super_at fs + super_len fs ≤ fs.base + 2 * fs.desc.bsize
  pub chain_fits : chain_free_off fs.desc + (daddr fs.desc).width * fs.desc.nicfree ≤ fs.desc.bsize
  pub count_fits : (df_nfree fs.desc).width ≤ chain_free_off fs.desc
  pub deep : 0 < fs.desc.nicfree
  pub depth_fits : fs.desc.nicfree + 1 < 2 ^ 16
  pub numbers_fit : fs.fsize ≤ 2 ^ (8 * (daddr fs.desc).width)

-- The part of the state that the allocator changes.
abbrev pub with_state : Edition → Bytes → Freelist → Bool → Edition
with_state fs img fl dirty = record fs { img = img; fl = fl; fl_dirty = dirty }

abbrev pub All {ℓ κ} : {A : Type ℓ} → (A → Type κ) → List A → Type κ
All P [] = Unit
All P (x ∷ xs) = P x × All P xs

-- The list has no block twice.
abbrev pub Distinct : List ℕ → Type 0
Distinct [] = Unit
Distinct (x ∷ xs) = All (λ y. y ≢ x) xs × Distinct xs

-- The whole of block `b` is the same in both volumes.
abbrev pub SameBlock : Edition → Bytes → ℕ → Type 0
SameBlock fs img b = Agrees img fs.img (block_at fs b) fs.desc.bsize

-- A chain depends only on the part of the cache below its depth.
pub Chain-congr :
    (fs : Edition) {n : ℕ} {cur : ℕ → ℕ} {xs : List ℕ} (new : ℕ → ℕ)
    → ((i : ℕ) → i < n → new i ≡ cur i)
    → Chain fs n cur xs
    → Chain fs n new xs
Chain-congr fs new h bare = bare
Chain-congr fs new h (mark {n} e) = mark (h n (omega arith) ∙ e)
Chain-congr fs new h (entry {n} e d c) =
    entry (h (suc n) (omega arith) ∙ e) d (Chain-congr fs new (λ i l. h i (omega arith)) c)
Chain-congr fs new h (link e d s c) = link (h 0 (omega arith) ∙ e) d s c

-- A part of an unchanged block is unchanged.
part_same :
    (fs : Edition) (img : Bytes) (b p m : ℕ)
    → SameBlock fs img b
    → p + m ≤ fs.desc.bsize
    → Agrees (from img (block_at fs b)) (block_of fs b) p m
part_same fs img b p m same fit i l = same (p + i) (omega arith)

pub entry_fits : (w i n : ℕ) → i < n → w * i + w ≤ w * n
entry_fits w i n l = grind arith

-- A segment is read from its block alone.
Holds-frame :
    (fs : Edition) (fl : Freelist) (dirty : Bool) {img : Bytes} {b k : ℕ} {cur : ℕ → ℕ}
    → IsMounted fs
    → SameBlock fs img b
    → Holds fs b k cur
    → Holds (with_state fs img fl dirty) b k cur
Holds-frame fs fl dirty {img} {b} {k} v same s = record {
  count = c.get-Agrees _ _ 0 (part_same fs img b 0 c.width same (omega arith)) ∙ s.count;
  bounded = s.bounded;
  entries = λ i l.
      e.get-Agrees _ _ _ (
        part_same fs img b (chain_free_off fs.desc + e.width * i) e.width same
          (omega (arith, v.chain_fits, entry_fits e.width i fs.desc.nicfree (omega arith))))
      ∙ s.entries i l;
}
  where
    c : Codec
    c = df_nfree fs.desc

    e : Codec
    e = daddr fs.desc

-- A chain stays when none of its blocks changes.
pub Chain-frame :
    (fs : Edition) (fl : Freelist) (dirty : Bool) {img : Bytes} {n : ℕ} {cur : ℕ → ℕ} {xs : List ℕ}
    → IsMounted fs
    → All (SameBlock fs img) xs
    → Chain fs n cur xs
    → Chain (with_state fs img fl dirty) n cur xs
Chain-frame fs fl dirty v h bare = bare
Chain-frame fs fl dirty v h (mark e) = mark e
Chain-frame fs fl dirty v h (entry e d c) = entry e d (Chain-frame fs fl dirty v h.1 c)
Chain-frame fs fl dirty v h (link e d s c) =
    link e d (Holds-frame fs fl dirty v h.0 s) (Chain-frame fs fl dirty v h.1 c)

pub Chain-IsData :
    (fs : Edition) {n : ℕ} {cur : ℕ → ℕ} {xs : List ℕ} → Chain fs n cur xs → All (IsData fs) xs
Chain-IsData fs bare = tt
Chain-IsData fs (mark e) = tt
Chain-IsData fs (entry e d c) = (d, Chain-IsData fs c)
Chain-IsData fs (link e d s c) = (d, Chain-IsData fs c)

-- How the first block of a chain stands in the cache.
pub data Top (fs : Edition) (n : ℕ) (cur : ℕ → ℕ) (b : ℕ) (xs : List ℕ) : Type 0 where
  above : (m : ℕ) → n ≡ suc (suc m) → cur (suc m) ≡ b → Chain fs (suc m) cur xs → Top fs n cur b xs
  bottom :
      (k : ℕ) (next : ℕ → ℕ)
      → n ≡ 1
      → cur 0 ≡ b
      → Holds fs b k next
      → Chain fs k next xs
      → Top fs n cur b xs

pub Chain-Top :
    (fs : Edition) {n : ℕ} {cur : ℕ → ℕ} {b : ℕ} {xs : List ℕ}
    → Chain fs n cur (b ∷ xs)
    → Top fs n cur b xs
Chain-Top fs (entry {n} e d c) = above n refl e c
Chain-Top fs (link {k = k} {next = next} e d s c) = bottom k next refl e s c

-- An empty chain is an empty cache or one whose top entry is the end mark.
pub Chain-nil :
    (fs : Edition) {n : ℕ} {cur : ℕ → ℕ}
    → Chain fs n cur []
    → (n ≡ 0) ⊎ ((0 < n) × (cur (n - 1) ≡ 0))
Chain-nil fs bare = inl refl
Chain-nil fs (mark {n} {cur} e) =
    let top : suc n - 1 ≡ n = omega arith in inr (omega arith, ap cur top ∙ e)
