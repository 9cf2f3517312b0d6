-- ===== src/Check/Rebuild/Listed.antt =====
-- What the rebuild leaves: a free list of the data blocks that the check did not mark.
use native.Mathlib.Decide.{ℕ_discrete}
use filsys.Base.{ℕ, zero, suc, ◌+◌, ◌%◌, ◌^◌, ◌≤◌, ◌≡◌, ◌≢◌, ◌∙◌, refl, ap, sym, subst, arith}
use filsys.Base.{
  Bool, true, false, not, ◌&&◌, ◌||◌, List, [], ◌∷◌, length, ◌==◌, ltb, leb, if◌then◌else◌,
}
use filsys.Base.{inl, inr, Bool-cases}
use filsys.Volume.{Edition}
use filsys.FreeList.{bfree}
use filsys.FreeList.Chain.{IsData, All}
use filsys.FreeList.Cache.{IsCache}
use filsys.FreeList.Push.{bfree-Pushed}
use filsys.FreeList.Push.{Kept, Kept-bfree, Kept-trans}
use filsys.Bitmap.{bit_at, sub32}
use filsys.Check.{Context}
use filsys.Check.Mark.Claims.{count}
use filsys.Check.Rebuild.{release_unmarked, release_blocks}
use filsys.Check.Rebuild.Interleave.{IsPermutation}

-- The check left the data block `x` unmarked.
abbrev pub is_spare : Edition → Context → ℕ → Bool
is_spare fs cx x = not (leb cx.nblk (sub32 x fs.isize) || bit_at cx.bmap (sub32 x fs.isize))

-- A list in which nothing occurs twice, and `x` only if `p x` says so.
abbrev pub Lists : (ℕ → Bool) → List ℕ → Type 0
Lists p xs = (x : ℕ) → count x xs ≡ (if p x then 1 else 0)

-- After some turns: the free list, and how many blocks were released.
pub record Rebuilt (fs : Edition) (p : ℕ → Bool) (xs : List ℕ) (r : ℕ × Edition) : Type 0 where
  pub kept : Kept fs r.1
  pub cache : IsCache r.1 xs
  pub number : r.0 ≡ length xs % 2 ^ 32
  pub lists : Lists p xs

count-All : (x : ℕ) (xs : List ℕ) → count x xs ≡ 0 → All (λ y. y ≢ x) xs
count-All x [] h = tt
count-All x (y ∷ xs) h = (ground arith, count-All x xs (ground arith))

-- One turn, at a block that is not on the list yet.
release_unmarked-Rebuilt :
    (fs : Edition) (cx : Context) (p q : ℕ → Bool) (blk : ℕ) (xs : List ℕ) (r : ℕ × Edition)
    → IsData fs blk
    → ((x : ℕ) → q x ≡ (if x == blk then is_spare fs cx blk else p x))
    → p blk ≡ false
    → Rebuilt fs p xs r
    → (ys : List ℕ) × Rebuilt fs q ys (release_unmarked cx blk r)
unfolding release_unmarked
release_unmarked-Rebuilt fs cx p q blk xs (k, g) d e absent s =
    let same : g.isize ≡ fs.isize = ap (λ h. h.isize) s.kept in
    let status = ap (λ z. leb cx.nblk (sub32 blk z) || bit_at cx.bmap (sub32 blk z)) same in
    let here = λ (x : ℕ) (y : x ≡ blk). ap p y ∙ absent in
    elim (Bool-cases (leb cx.nblk (sub32 blk g.isize) || bit_at cx.bmap (sub32 blk g.isize))) [
      | inl used ↦
          let not_spare : is_spare fs cx blk ≡ false = ap not (sym status ∙ used) in
          (
            xs,
            rw (used, release_unmarked)
                (record {
                  kept = s.kept;
                  cache = s.cache;
                  number = s.number;
                  lists = λ x. elim (ℕ_discrete x blk) [
                    | yes y ↦ ground (arith, e x, s.lists x, not_spare, here x y)
                    | no n ↦ ground (arith, e x, s.lists x)
                  ];
                }),
          )
      | inr free ↦
          let spare : is_spare fs cx blk ≡ true = ap not (sym status ∙ free) in
          let fresh : count blk xs ≡ 0 = ground (arith, s.lists blk) in
          (
            blk ∷ xs,
            rw (free, release_unmarked)
                (record {
                  kept = Kept-trans fs g (bfree g blk) s.kept (Kept-bfree g blk);
                  cache =
                      (bfree-Pushed g blk xs s.cache (subst (λ h. IsData h blk) (sym s.kept) d)
                        (count-All blk xs fresh)).cache;
                  number = omega (arith, s.number);
                  lists = λ x. elim (ℕ_discrete x blk) [
                    | yes y ↦ ground (arith, e x, s.lists x, spare, here x y)
                    | no n ↦ ground (arith, e x, s.lists x)
                  ];
                }),
          )
    ]

-- The blocks that the first `n` turns release.
abbrev pub released : Edition → Context → (ℕ → ℕ) → ℕ → ℕ → Bool
released fs cx back n x =
    (leb fs.isize x && ltb x fs.fsize && leb fs.isize (back x) && ltb (back x) (fs.isize + n))
    && is_spare fs cx x

module _ (fs : Edition) (cx : Context) (physical back : ℕ → ℕ) (k : IsCache fs [])
    (whole : fs.desc.isize_count ≡ false)
    (perm : IsPermutation fs.isize fs.fsize physical back) where
  pub Rebuilt-blocks :
      (n : ℕ)
      → fs.isize + n ≤ fs.fsize
      → (xs : List ℕ) × Rebuilt fs (released fs cx back n) xs (release_blocks cx physical n fs)
  unfolding release_blocks
  Rebuilt-blocks zero l =
      ([], record { kept = refl; cache = k; number = omega arith; lists = λ x. ground arith })
  Rebuilt-blocks (suc n) l =
      let (xs, s) = Rebuilt-blocks n (omega arith) in
      let bn = fs.isize + n in
      let inside = perm.inside bn (omega arith) (omega arith) in
      release_unmarked-Rebuilt fs cx (released fs cx back n) (released fs cx back (suc n))
        (physical bn) xs (release_blocks cx physical n fs) (ground (arith, whole, inside))
        (λ x. elim (ℕ_discrete x (physical bn)) [
          | yes y ↦
              let at = ap back y ∙ perm.undo bn in
              let spare = ap (is_spare fs cx) y in ground (arith, inside, at, spare)
          | no ne ↦
              let away : back x ≢ bn = λ h. ne (sym (perm.redo x) ∙ ap physical h) in ground arith
        ])
        (ground (arith, perm.undo bn)) s
