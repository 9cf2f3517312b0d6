-- ===== src/Bitmap/Alloc.antt =====
-- v8_bitmap_balloc and v8_bitmap_bfree as operations on the set of free blocks.
use filsys.Base.{ℕ, ◌+◌, ◌-◌, ◌^◌, ◌≤◌, ◌<◌, ◌≡◌, ◌≢◌, ◌∙◌, ap, sym, subst, refl, arith}
use filsys.Base.{Bool, true, false, ◌&&◌, zeros, ltb, leb, ◌==◌, if◌then◌else◌, IsBytes, u32}
use filsys.Base.{ok, err, enospc, some, none, blit-from}
use filsys.Volume.{Edition, Step}
use filsys.Volume.Blocks.{IsHealthy, block_at, block_of, put_block, write_block-healthy}
use filsys.FreeList.Chain.{SameBlock}
use filsys.FreeList.Frame.{other_block_same}
use filsys.Bitmap.{bit_at, clear_bit, balloc, bfree, take_bit, hand_out, first_free}
use filsys.Bitmap.Laws.{bit_at-set_bit, bit_at-clear_bit, clear_bit-IsBytes}
use filsys.Bitmap.Laws.{first_free-some, first_free-none}

-- A healthy volume whose map lies inside it.
pub record IsMapped (fs : Edition) : Type 0 where
  pub healthy : IsHealthy fs
  pub bytes : IsBytes fs.v8_bits
  pub inside : fs.v8_base + fs.v8_nbits ≤ fs.fsize
  pub numbers_fit : fs.fsize < 2 ^ 32

-- The set of free blocks that the map stands for.
abbrev pub is_free : Edition → ℕ → Bool
is_free fs b =
    leb fs.v8_base b && ltb b (fs.v8_base + fs.v8_nbits) && bit_at fs.v8_bits (b - fs.v8_base)

-- What an allocation of block `b` leaves.
pub record Taken (fs : Edition) (b : ℕ) (r : Step ℕ) : Type 0 where
  pub returned : r.0 ≡ ok b
  pub free_set : (x : ℕ) → is_free r.1 x ≡ (if x == b then false else is_free fs x)
  pub cleared : (i : ℕ) → i < fs.desc.bsize → block_of r.1 b i ≡ 0
  pub others : (x : ℕ) → x ≢ b → SameBlock fs r.1.img x
  pub extent : (r.1.v8_base ≡ fs.v8_base) × (r.1.v8_nbits ≡ fs.v8_nbits)
  pub dirty : r.1.fl_dirty ≡ true
  pub mapped : IsMapped r.1

-- The volume after bit `k` was handed out.
abbrev taken : Edition → ℕ → Edition
taken fs k =
    let b = fs.v8_base + k in
    let g = put_block fs b zeros in
    record g {
      v8_bits = clear_bit fs.v8_bits k;
      fl = record fs.fl { tfree = if fs.fl.tfree == 0 then fs.fl.tfree else fs.fl.tfree - 1 };
      fl_dirty = true;
    }

module _ (fs : Edition) (v : IsMapped fs) (k : ℕ) (l : k < fs.v8_nbits) where
  marked-IsHealthy : IsHealthy (record fs { v8_bits = clear_bit fs.v8_bits k })
  marked-IsHealthy = record {
    reads = v.healthy.reads;
    writes = v.healthy.writes;
    writable = v.healthy.writable;
    fits = v.healthy.fits;
  }

  take_bit-healthy : take_bit fs k ≡ (ok (fs.v8_base + k), taken fs k)
  unfolding take_bit hand_out
  take_bit-healthy =
      let e : u32 (fs.v8_base + k) ≡ fs.v8_base + k = omega (arith, v.inside, v.numbers_fit) in
      rw e (
        rw
          (write_block-healthy (record fs { v8_bits = clear_bit fs.v8_bits k }) marked-IsHealthy
            (fs.v8_base + k) (omega (arith, v.inside)) zeros)
          refl)

  taken-Taken : Taken fs (fs.v8_base + k) (ok (fs.v8_base + k), taken fs k)
  taken-Taken = record {
    returned = refl;
    free_set = λ x. ground (arith, bit_at-clear_bit fs.v8_bits v.bytes k (x - fs.v8_base));
    cleared = λ i h. blit-from fs.img (block_at fs (fs.v8_base + k)) fs.desc.bsize zeros i h;
    others = λ x ne. other_block_same fs fs.img (fs.v8_base + k) x zeros ne (λ i h. refl);
    extent = (refl, refl);
    dirty = refl;
    mapped = record {
      healthy = record {
        reads = v.healthy.reads;
        writes = v.healthy.writes;
        writable = v.healthy.writable;
        fits = v.healthy.fits;
      };
      bytes = clear_bit-IsBytes fs.v8_bits v.bytes k;
      inside = v.inside;
      numbers_fit = v.numbers_fit;
    };
  }

is_free-bit :
    (fs : Edition) (b : ℕ)
    → is_free fs b ≡ true
    → (fs.v8_base ≤ b)
      × (b - fs.v8_base < fs.v8_nbits)
      × (bit_at fs.v8_bits (b - fs.v8_base) ≡ true)
is_free-bit fs b h = ground arith

used-bit :
    (fs : Edition) (j : ℕ)
    → j < fs.v8_nbits
    → is_free fs (fs.v8_base + j) ≡ false
    → bit_at fs.v8_bits j ≡ false
used-bit fs j l h =
    let e : fs.v8_base + j - fs.v8_base ≡ j = omega arith in
    ground (arith, h, ap (bit_at fs.v8_bits) e)

balloc-found :
    (fs : Edition) (k : ℕ)
    → first_free fs.v8_bits fs.v8_nbits 0 ≡ some k
    → balloc fs ≡ take_bit fs k
unfolding balloc
balloc-found fs k e = ground (arith, e)

balloc-none :
    (fs : Edition) → first_free fs.v8_bits fs.v8_nbits 0 ≡ none → balloc fs ≡ (err enospc, fs)
unfolding balloc
balloc-none fs e = ground (arith, e)

-- On a healthy volume with a free block, an allocation takes the lowest one: it returns it, takes
-- it alone out of the set of free blocks, fills it with zeros and changes no other block.
pub balloc-Taken :
    (fs : Edition) (b : ℕ)
    → IsMapped fs
    → is_free fs b ≡ true
    → ((x : ℕ) → x < b → is_free fs x ≡ false)
    → Taken fs b (balloc fs)
balloc-Taken fs b v free lowest =
    let k : ℕ = b - fs.v8_base in
    let (behind, below, here) = is_free-bit fs b free in
    let found : first_free fs.v8_bits fs.v8_nbits 0 ≡ some k =
      first_free-some fs.v8_bits fs.v8_nbits 0 k (omega arith) (omega arith)
        (λ j z h. used-bit fs j (omega arith) (lowest (fs.v8_base + j) (omega arith))) here in
    let back : fs.v8_base + k ≡ b = omega arith in
    subst (λ c. Taken fs c (balloc fs)) back
      (subst (Taken fs (fs.v8_base + k))
        (sym (balloc-found fs k found ∙ take_bit-healthy fs v k below)) (taken-Taken fs v k below))

-- With every block in use an allocation fails with -ENOSPC and leaves the volume as it is.
pub balloc_full : (fs : Edition) → ((x : ℕ) → is_free fs x ≡ false) → balloc fs ≡ (err enospc, fs)
balloc_full fs used = balloc-none fs (
    first_free-none fs.v8_bits fs.v8_nbits 0
      (λ j z h. used-bit fs j (omega arith) (used (fs.v8_base + j))))

-- Whether the map has a bit for the block.
abbrev pub describes : Edition → ℕ → Bool
describes fs b = leb fs.v8_base b && ltb b (fs.v8_base + fs.v8_nbits)

-- What the release of block `b` leaves: of a block that the map describes, the set of free blocks with
-- `b`, and nothing changed but the map, the total and the dirty flag; of any other, the volume.
pub record Released (fs : Edition) (b : ℕ) (g : Edition) : Type 0 where
  pub free_set : (x : ℕ) → is_free g x ≡ (if describes fs b && (x == b) then true else is_free fs x)
  pub state : g ≡ (
      if describes fs b
      then record fs {
        v8_bits = g.v8_bits;
        fl = record fs.fl { tfree = u32 (fs.fl.tfree + 1) };
        fl_dirty = true;
      }
      else fs)

free_set-bfree :
    (fs : Edition) (b x : ℕ)
    → IsMapped fs
    → is_free (bfree fs b) x ≡ (if describes fs b && (x == b) then true else is_free fs x)
unfolding bfree
free_set-bfree fs b x v =
    let e : u32 (fs.v8_base + fs.v8_nbits) ≡ fs.v8_base + fs.v8_nbits =
      omega (arith, v.inside, v.numbers_fit) in
    rw e (ground (arith, bit_at-set_bit fs.v8_bits v.bytes (b - fs.v8_base) (x - fs.v8_base)))

state-bfree :
    (fs : Edition) (b : ℕ)
    → IsMapped fs
    → bfree fs b ≡ (
        if describes fs b
        then record fs {
          v8_bits = (bfree fs b).v8_bits;
          fl = record fs.fl { tfree = u32 (fs.fl.tfree + 1) };
          fl_dirty = true;
        }
        else fs)
unfolding bfree
state-bfree fs b v =
    let e : u32 (fs.v8_base + fs.v8_nbits) ≡ fs.v8_base + fs.v8_nbits =
      omega (arith, v.inside, v.numbers_fit) in
    rw e (ground arith)

-- On a healthy volume whose map lies inside it: releasing a block that the map describes makes it
-- free, whatever it was, and no other block; it counts the total of free blocks up, marks the
-- allocator dirty, and changes nothing else but the map. Releasing any other number leaves the volume
-- as it is.
pub bfree-Released : (fs : Edition) (b : ℕ) → IsMapped fs → Released fs b (bfree fs b)
bfree-Released fs b v = record {
  free_set = λ x. free_set-bfree fs b x v;
  state = state-bfree fs b v;
}

-- Releasing the block that was just allocated restores the set of free blocks.
pub bfree-balloc :
    (fs : Edition) (b : ℕ)
    → IsMapped fs
    → is_free fs b ≡ true
    → ((x : ℕ) → x < b → is_free fs x ≡ false)
    → (x : ℕ) → is_free (bfree (balloc fs).1 b) x ≡ is_free fs x
bfree-balloc fs b v free lowest x =
    let t = balloc-Taken fs b v free lowest in
    free_set-bfree (balloc fs).1 b x t.mapped
    ∙ ground (arith, t.free_set x, t.extent, is_free-bit fs b free)
