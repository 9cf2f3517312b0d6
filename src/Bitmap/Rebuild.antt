-- ===== src/Bitmap/Rebuild.antt =====
-- v8_makefree_bitmap rebuilds the map from the blocks that the check found in use.
use native.Mathlib.Decide.{ℕ_discrete, dec_lt}
use native.Mathlib.Nat.{le_refl}
use filsys.Base.{ℕ, zero, suc, ◌+◌, ◌-◌, ◌%◌, ◌^◌, ◌≤◌, ◌<◌, ◌≡◌, ◌≢◌, ◌∙◌, refl, ap, arith}
use filsys.Base.{Bool, true, false, not, ◌&&◌, ◌||◌, Bytes, IsBytes, ltb, leb, if◌then◌else◌}
use filsys.Base.{has_bit_zero}
use filsys.Volume.{Edition, Freemap, list, bitmap, bigmap}
use filsys.Bitmap.{bit_at, set_bit, sub32, map_extent, free_unused, makefree_bitmap}
use filsys.Bitmap.Sync.{Only-bitmap_sync}
use filsys.Bitmap.Laws.{bit_at-set_bit, set_bit-IsBytes}
use filsys.Bitmap.Alloc.{is_free}

-- A block is unused if the check covered it and did not mark it.
abbrev pub is_unused : Edition → Bytes → ℕ → ℕ → Bool
is_unused fs used nblk x =
    leb fs.isize x && ltb (x - fs.isize) nblk && not (bit_at used (x - fs.isize))

free_unused-IsBytes :
    (fs : Edition) (used : Bytes) (nblk left blk : ℕ)
    → IsBytes (free_unused fs used nblk left blk).0
unfolding free_unused
free_unused-IsBytes fs used nblk zero blk i = omega arith
free_unused-IsBytes fs used nblk (suc left) blk i =
    let rest = free_unused-IsBytes fs used nblk left (blk + 1) in
    ground (
      arith,
      rest i,
      set_bit-IsBytes (free_unused fs used nblk left (blk + 1)).0 rest (sub32 blk fs.v8_base) i,
    )

bit_at-choose :
    (t : Bool) (p q : Bytes × ℕ) (i : ℕ)
    → bit_at (if t then p else q).0 i ≡ (if t then bit_at p.0 i else bit_at q.0 i)
bit_at-choose true p q i = refl
bit_at-choose false p q i = refl

bit_at-free_unused :
    (fs : Edition) (used : Bytes) (nblk left blk i : ℕ)
    → fs.v8_base ≤ blk
    → fs.isize ≤ blk
    → blk + left < 2 ^ 32
    → bit_at (free_unused fs used nblk left blk).0 i ≡ (
        leb blk (fs.v8_base + i)
        && ltb (fs.v8_base + i) (blk + left)
        && is_unused fs used nblk (fs.v8_base + i))
unfolding free_unused
bit_at-free_unused fs used nblk zero blk i h1 h2 h3 = ground (arith, has_bit_zero (i % 8))
bit_at-free_unused fs used nblk (suc left) blk i h1 h2 h3 =
    let prev = free_unused fs used nblk left (blk + 1) in
    let rest =
      bit_at-free_unused fs used nblk left (blk + 1) i (omega arith) (omega arith) (omega arith) in
    let bytes = free_unused-IsBytes fs used nblk left (blk + 1) in
    let set = bit_at-set_bit prev.0 bytes (sub32 blk fs.v8_base) i in
    let chosen =
      bit_at-choose (leb nblk (blk - fs.isize) || bit_at used (blk - fs.isize)) prev
        (set_bit prev.0 (sub32 blk fs.v8_base), prev.1 + 1) i in
    let place : fs.v8_base + sub32 blk fs.v8_base ≡ blk = omega arith in
    elim (ℕ_discrete (fs.v8_base + i) blk) [
      | yes e ↦
          let same : i ≡ sub32 blk fs.v8_base = omega arith in
          let mark = ap (λ x. bit_at used (x - fs.isize)) e in
          chosen ∙ ground (arith, set, rest, mark)
      | no ne ↦
          let other : i ≢ sub32 blk fs.v8_base = omega arith in chosen ∙ ground (arith, set, rest)
    ]

-- The extent of a map, and that it ends with the volume.
record Extent (fs g : Edition) : Type 0 where
  isize : g.isize ≡ fs.isize
  fsize : g.fsize ≡ fs.fsize
  starts : g.v8_base ≤ fs.isize
  ends : g.v8_base + g.v8_nbits ≡ fs.fsize

map_extent-Extent :
    (fs : Edition) → fs.isize ≤ fs.fsize → fs.fsize < 2 ^ 32 → Extent fs (map_extent fs)
unfolding map_extent
map_extent-Extent fs h1 h2 = by_map fs.desc.freemap refl
  where
    by_map : (m : Freemap) → fs.desc.freemap ≡ m → Extent fs (map_extent fs)
    by_map list e = record {
      isize = ground (arith, e);
      fsize = ground (arith, e);
      starts = ground (arith, e);
      ends = ground (arith, e);
    }
    by_map bitmap e = record {
      isize = ground (arith, e);
      fsize = ground (arith, e);
      starts = ground (arith, e);
      ends = ground (arith, e);
    }
    by_map bigmap e = record {
      isize = ground (arith, e);
      fsize = ground (arith, e);
      starts = ground (arith, e);
      ends = ground (arith, e);
    }

is_free-refilled :
    (fs g h : Edition) (used : Bytes) (nblk x : ℕ)
    → fs.isize ≤ fs.fsize
    → fs.fsize < 2 ^ 32
    → Extent fs g
    → h.v8_base ≡ g.v8_base
    → h.v8_nbits ≡ g.v8_nbits
    → h.v8_bits ≡ (free_unused g used nblk (g.fsize - g.isize) g.isize).0
    → is_free h x ≡ (is_unused fs used nblk x && ltb x fs.fsize)
is_free-refilled fs g h used nblk x h1 h2 v e1 e2 e3 = elim (dec_lt x g.v8_base) [
  | yes l ↦ ground (arith, e1, v.starts)
  | no nl ↦
      let place : g.v8_base + (x - g.v8_base) ≡ x = omega arith in
      let found =
        bit_at-free_unused g used nblk (g.fsize - g.isize) g.isize (x - g.v8_base)
          (omega (arith, v.starts, v.isize)) (le_refl _) (omega (arith, v.isize, v.fsize)) in
      let here = ap (λ y. is_unused g used nblk y) place in
      let start = ap (λ n. bit_at used (x - n)) v.isize in
      let bits = ap (λ b. bit_at b (x - h.v8_base)) e3 in
      let base =
        ap (λ n. bit_at (free_unused g used nblk (g.fsize - g.isize) g.isize).0 (x - n)) e1 in
      ground (arith, e1, e2, bits, base, found, here, start, v.isize, v.fsize, v.starts, v.ends)
]

-- After the rebuild the free blocks are those of the data area that the check covered and found
-- unused, for both places of the map.
pub is_free-makefree_bitmap :
    (fs : Edition) (used : Bytes) (nblk x : ℕ)
    → fs.isize ≤ fs.fsize
    → fs.fsize < 2 ^ 32
    → is_free (makefree_bitmap fs used nblk).1 x ≡ (is_unused fs used nblk x && ltb x fs.fsize)
unfolding makefree_bitmap
is_free-makefree_bitmap fs used nblk x h1 h2 =
    let g = map_extent fs in
    let found = free_unused g used nblk (g.fsize - g.isize) g.isize in
    let g' : Edition = record g {
      v8_bits = found.0;
      fl = record g.fl { nfree = 0; ninode = 0; tfree = found.1; tinode = 0 };
    } in
    ap (λ h. is_free h x) (Only-bitmap_sync g')
    ∙ is_free-refilled fs g g' used nblk x h1 h2 (map_extent-Extent fs h1 h2) refl refl refl
