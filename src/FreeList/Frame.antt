-- ===== src/FreeList/Frame.antt =====
-- Which blocks a write leaves alone, and properties of every block of a list.
use filsys.Base.{ℕ, ◌*◌, ◌≤◌, ◌≢◌, ◌∙◌, inl, inr, arith, List, [], ◌∷◌}
use filsys.Base.{Bytes, Apart, blit, blit-Agrees}
use filsys.Volume.{Edition}
use filsys.Volume.Blocks.{block_at, blocks-Apart}
use filsys.Super.Effect.{super_at, super_len}
use filsys.FreeList.Chain.{IsMounted, All, SameBlock}

-- A write to one block leaves every other block alone.
pub other_block_same :
    (fs : Edition) (img : Bytes) (b x : ℕ) (buf : Bytes)
    → x ≢ b
    → SameBlock fs img x
    → SameBlock fs (blit img (block_at fs b) fs.desc.bsize buf) x
other_block_same fs img b x buf ne same i l =
    blit-Agrees img (block_at fs b) fs.desc.bsize buf (block_at fs x) fs.desc.bsize
      (shifted (blocks-Apart fs.desc.bsize x b ne)) i l
    ∙ same i l
  where
    shifted :
        Apart (x * fs.desc.bsize) fs.desc.bsize (b * fs.desc.bsize) fs.desc.bsize
        → Apart (block_at fs x) fs.desc.bsize (block_at fs b) fs.desc.bsize
    shifted (inl h) = inl (omega arith)
    shifted (inr h) = inr (omega arith)

-- The superblock lies in front of the data.
pub super_same :
    (fs : Edition) (sb : Bytes) (x : ℕ)
    → IsMounted fs
    → 2 ≤ x
    → SameBlock fs (blit fs.img (super_at fs) (super_len fs) sb) x
super_same fs sb x v two =
    let behind : 2 * fs.desc.bsize ≤ x * fs.desc.bsize = grind arith in
    blit-Agrees fs.img (super_at fs) (super_len fs) sb (block_at fs x) fs.desc.bsize
      (inr (omega (arith, v.super_fits)))

pub All-both {ℓ κ μ ν} :
    {A : Type ℓ} (P : A → Type κ) (Q : A → Type μ) (R : A → Type ν) (xs : List A)
    → ((x : A) → P x → Q x → R x)
    → All P xs
    → All Q xs
    → All R xs
All-both P Q R [] f p q = tt
All-both P Q R (x ∷ xs) f p q = (f x p.0 q.0, All-both P Q R xs f p.1 q.1)
