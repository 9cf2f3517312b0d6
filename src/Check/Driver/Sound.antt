-- ===== src/Check/Driver/Sound.antt =====
-- What a check of the blocks establishes when it finds nothing wrong.
use filsys.Base.{ℕ, zero, suc, ◌+◌, ◌-◌, ◌%◌, ◌^◌, ◌≤◌, ◌<◌, ◌≡◌, ◌∙◌, ap, sym, subst, arith}
use filsys.Base.{has_bit_zero, false, List, [], length, if◌then◌else◌, u32}
use filsys.Volume.{Edition, list, data_first, maxinode}
use filsys.FreeList.Chain.{IsData, IsMounted, Chain}
use native.Mathlib.Decide.{ℕ_discrete}
use filsys.Bitmap.{bit_at}
use filsys.Check.{Context, Report, data_end, unalloc}
use filsys.Check.Mark.Claims.{count, is_marked}
use filsys.Check.Free.{Tally, walk_free}
use filsys.Check.Free.Walk.{walk_free-list}
use filsys.Check.Free.Silent.{HasShortCounts, Tells, walk_list-Tells}
use filsys.Check.Driver.{
  CheckOps, fresh, first_pass, check_blocks, count_missing, check_totals, check_tfree, check_tinode,
}
use filsys.Check.Driver.Scan.{HasNoBadBlocks, Scans, Scans-inodes, all_blocks}

-- ---- the missing blocks

-- How many of the first `n` bits are not set.
abbrev absent : Context → ℕ → ℕ
absent cx zero = 0
absent cx (suc n) = absent cx n + (if bit_at cx.bmap n then 0 else 1)

absent-le : (cx : Context) (n : ℕ) → absent cx n ≤ n
absent-le cx zero = omega arith
absent-le cx (suc n) = ground (arith, absent-le cx n)

absent-zero : (cx : Context) (n : ℕ) → absent cx n ≡ 0 → (d : ℕ) → d < n → is_marked cx d ≡ 1
absent-zero cx zero h d l = absurd (omega arith)
absent-zero cx (suc n) h d l = elim (ℕ_discrete d n) [
  | yes e ↦ ground (arith, ap (λ x. bit_at cx.bmap x) e)
  | no ne ↦ absent-zero cx n (omega arith) d (omega arith)
]

missing-count :
    (cx : Context) (n : ℕ) (rep : Report)
    → rep.missing_blocks ≡ 0
    → n < 2 ^ 32
    → (count_missing cx n rep).missing_blocks ≡ absent cx n
unfolding count_missing
missing-count cx zero rep e l = e
missing-count cx (suc n) rep e l = ground (arith, missing-count cx n rep e, absent-le cx n)

-- ---- the totals print at most

longer-totals : (fs : Edition) (t : Tally) → length t.0.log ≤ length (check_totals fs t).0.log
unfolding check_totals check_tfree check_tinode
longer-totals fs t = ground arith

missing-totals :
    (fs : Edition) (t : Tally) → (check_totals fs t).1.missing_blocks ≡ t.1.missing_blocks
unfolding check_totals check_tfree check_tinode
missing-totals fs t = ground arith

-- ---- together

-- Every data block is in one place: `free` is the free list of the volume.
pub record Partitions (o : CheckOps) (fs : Edition) : Type 0 where
  pub free : List ℕ
  pub chain : Chain fs fs.fl.nfree fs.fl.free free
  pub once : (x : ℕ) → IsData fs x → count x (all_blocks o fs (maxinode fs)) + count x free ≡ 1
  pub inside : (x : ℕ) → 0 < count x (all_blocks o fs (maxinode fs)) → IsData fs x

blank-marks : (fs : Edition) (d : ℕ) → is_marked (fresh fs).0 d ≡ 0
blank-marks fs d = ground (arith, has_bit_zero (d % 8))

module _ (o : CheckOps) (fs : Edition) (listed : fs.desc.freemap ≡ list) (v : IsMounted fs)
    (short : HasShortCounts fs) (plain : HasNoBadBlocks o fs) (no_map : fs.v8_nblks ≡ 0)
    (small : fs.fsize < 2 ^ 32) where
  data_end-eq : data_end fs ≡ fs.fsize
  unfolding data_end
  data_end-eq = ground (arith, no_map)

  first_pass-Scans : Scans fs (fresh fs) [] (first_pass o fs).tally (all_blocks o fs (maxinode fs))
  unfolding first_pass
  first_pass-Scans =
      let s =
        Scans-inodes o fs (maxinode fs) (record { tally = fresh fs; kinds = λ _. unalloc }) plain in
      record {
        longer = s.longer;
        size = s.size;
        missing = s.missing;
        bytes = s.bytes;
        silent = s.silent;
      }

  -- The walk, and the count behind it, on what pass 1 left.
  Partitions-walk :
      (t u : Tally)
      → Scans fs (fresh fs) [] t (all_blocks o fs (maxinode fs))
      → Tells fs fs.fl.nfree fs.fl.free t u
      → length u.0.log ≡ 0
      → (count_missing u.0 u.0.nblk u.1).missing_blocks ≡ 0
      → Partitions o fs
  Partitions-walk t u s w quiet full =
      let claims = s.silent (λ i. omega arith) (omega (arith, w.longer)) in
      let (free, chain, found) = w.silent (s.bytes (λ i. omega arith)) (omega arith) in
      let size : u.0.nblk ≡ fs.fsize - data_first fs =
        found.size ∙ s.size ∙ ap (λ (e : ℕ). e - data_first fs) data_end-eq in
      let none = missing-count u.0 u.0.nblk u.1 (found.missing ∙ s.missing) (omega arith) in
      record {
        free = free;
        chain = chain;
        once = λ x i.
            let d = x - data_first fs in
            let at : data_first fs + d ≡ x = omega (arith, i.0) in
            let one = absent-zero u.0 u.0.nblk (sym none ∙ full) d (omega (arith, i.0, i.1)) in
            omega (
              arith,
              claims.marks d,
              found.marks d,
              blank-marks fs d,
              ap (λ y. count y (all_blocks o fs (maxinode fs))) at,
              ap (λ y. count y free) at,
            );
        inside =
            λ x l. (ground (arith, claims.below x), ground (arith, claims.above x, data_end-eq));
      }

  walk_free-Tells : (t : Tally) → Tells fs fs.fl.nfree fs.fl.free t (walk_free fs t)
  walk_free-Tells t = subst (Tells fs fs.fl.nfree fs.fl.free t) (sym (walk_free-list fs t listed)) (
      walk_list-Tells fs v short (u32 (fs.fsize + fs.desc.nicfree) + 1) fs.fl.nfree fs.fl.free
        (λ _. false) t (omega arith))

-- On a mounted volume with a free list whose chain blocks have 16-bit counts, and whose bad-block
-- inode is free or has no address set: when pass 1, the walk over the free list and the totals
-- print nothing and no block is missing, the cache stands for a list of free blocks, and every data
-- block occurs once in that list and the blocks of all the inodes together, which are data blocks.
pub check_blocks-Partitions :
    (o : CheckOps) (fs : Edition)
    → fs.desc.freemap ≡ list
    → IsMounted fs
    → HasShortCounts fs
    → HasNoBadBlocks o fs
    → fs.v8_nblks ≡ 0
    → fs.fsize < 2 ^ 32
    → (check_blocks fs (first_pass o fs).tally).0.log ≡ []
    → (check_blocks fs (first_pass o fs).tally).1.missing_blocks ≡ 0
    → Partitions o fs
unfolding check_blocks
check_blocks-Partitions o fs listed v short plain no_map small quiet full =
    let t = (first_pass o fs).tally in
    let u = walk_free fs t in
    let rep = count_missing u.0 u.0.nblk u.1 in
    let w : Tally =
      (u.0, record rep { used_blocks = u.0.used_blocks; dup_blocks = u.0.dup_blocks }) in
    Partitions-walk o fs listed v short plain no_map small t u
      (first_pass-Scans o fs listed v short plain no_map small)
      (walk_free-Tells o fs listed v short plain no_map small t)
      (omega (arith, longer-totals fs w, ap length quiet)) (sym (missing-totals fs w) ∙ full)
