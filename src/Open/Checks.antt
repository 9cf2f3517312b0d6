-- ===== src/Open/Checks.antt =====
-- What an open that succeeds has established.
use filsys.Base.{
  ℕ, ◌+◌, ◌*◌, ◌≤◌, ◌<◌, Bool, true, false, not, ◌&&◌, ◌||◌, ◌≡◌, refl, sym, subst, arith, ◌^◌, u64,
}
use filsys.Base.{Bytes, Option, none, some, leb, ltb, ◌==◌, if◌then◌else◌, Bool-cases, inl, inr}
use filsys.Base.{Outcome, ok, err, ◌>>=◌}
use filsys.ByteOrder.{get32}
use filsys.Volume.{Edition, check_range, data_first}
use filsys.Volume.Blocks.{check_range-block}
use filsys.FreeList.Count.{count_free}
use filsys.Open.{
  check_counts, with_totals, with_interleave, check_magic, check_geometry, finish_open,
}
use filsys.Open.{sysv_geometry, open_read_super, decode_super, load_map, open_volume}

-- The counts of the caches are within their depths.
abbrev pub IsBounded : Edition → Type 0
IsBounded fs = (fs.fl.nfree ≤ fs.desc.nicfree) × (fs.fl.ninode ≤ fs.desc.nicinod)

-- The volume fits the image, it has a data area behind its i-list, and its caches are bounded.
pub record IsSound (fs : Edition) : Type 0 where
  pub fits : fs.base + fs.fsize * fs.desc.bsize ≤ fs.imgsize
  pub ilist : (if fs.desc.isize_count then 1 else 2) ≤ fs.isize
  pub has_data : data_first fs < fs.fsize
  pub bounded : IsBounded fs
  pub in_range :
      (b : ℕ) → b < fs.fsize → check_range fs (fs.base + b * fs.desc.bsize) fs.desc.bsize ≡ true

pub bind_inv :
    {A B : Type 0} (o : Outcome A) (f : A → Outcome B) (b : B)
    → (o >>= f) ≡ ok b
    → (a : A) × (o ≡ ok a) × (f a ≡ ok b)
bind_inv (ok a) f b e = (a, refl, e)
bind_inv (err x) f b e = absurd (ground (arith, e))

check_counts-IsBounded : (fs g : Edition) → check_counts fs ≡ ok g → IsBounded g
unfolding check_counts
check_counts-IsBounded fs g e =
    elim (Bool-cases (ltb fs.desc.nicfree fs.fl.nfree || ltb fs.desc.nicinod fs.fl.ninode)) [
      | inl b ↦ absurd (ground (arith, b, e))
      | inr b ↦
          let same : fs ≡ g = ground (arith, b, e) in
          subst IsBounded same (ground (arith, b), ground (arith, b))
    ]

-- Whichever branch is taken.
either_way : (P : Edition → Type 0) (b : Bool) (x y : Edition) → P x → P y → P (if b then x else y)
either_way P true x y p q = p
either_way P false x y p q = q

with_totals-IsBounded : (fs : Edition) (sb : Bytes) → IsBounded fs → IsBounded (with_totals fs sb)
unfolding with_totals count_free
with_totals-IsBounded fs sb b = either_way IsBounded fs.desc.v8_super _ _ b (
    either_way IsBounded fs.desc.isize_count _ _ b
      (either_way IsBounded (not fs.desc.pack4 || not (fs.desc.magic == 0)) _ _ b b))

with_interleave-IsBounded :
    (fs : Edition) (sb : Bytes) → IsBounded fs → IsBounded (with_interleave fs sb)
unfolding with_interleave
with_interleave-IsBounded fs sb b = elim (Bool-cases fs.desc.interleave) [
  | inl i ↦ ground (arith, i, b)
  | inr i ↦ ground (arith, i, b)
]

check_magic_same : (fs g : Edition) (sb : Bytes) → check_magic fs sb ≡ ok g → fs ≡ g
unfolding check_magic
check_magic_same fs g sb e =
    elim (Bool-cases (
      not fs.desc.ignore_magic
      && not (fs.desc.magic == 0)
      && not (get32 fs.desc.bo sb fs.desc.magic_off == fs.desc.magic))) [
        | inl b ↦ absurd (ground (arith, b, e))
        | inr b ↦ ground (arith, b, e)
      ]

-- The end of the volume is a 64-bit number.
abbrev pub IsNumbered : Edition → Type 0
IsNumbered fs = fs.base + fs.fsize * fs.desc.bsize < 2 ^ 64

check_geometry-IsSound :
    (size : Option ℕ) (fs g : Edition)
    → IsBounded fs
    → check_geometry size fs ≡ ok g
    → IsNumbered g
    → IsSound g
unfolding check_geometry
check_geometry-IsSound none fs g b e w = absurd (ground (arith, e))
check_geometry-IsSound (some imgsize) fs g b e w =
    elim (Bool-cases (
      ltb fs.isize (if fs.desc.isize_count then 1 else 2)
      || ltb imgsize (u64 (fs.base + fs.fsize * fs.desc.bsize))
      || leb fs.fsize (data_first fs))) [
        | inl bad ↦ absurd (ground (arith, bad, e))
        | inr good ↦
            let same : record fs { imgsize = imgsize } ≡ g = ground (arith, good, e) in
            subst IsSound same (sound good (subst IsNumbered (sym same) w))
      ]
  where
    sound :
        (ltb fs.isize (if fs.desc.isize_count then 1 else 2)
            || ltb imgsize (u64 (fs.base + fs.fsize * fs.desc.bsize))
            || leb fs.fsize (data_first fs))
          ≡ false
        → fs.base + fs.fsize * fs.desc.bsize < 2 ^ 64
        → IsSound (record fs { imgsize = imgsize })
    sound good small =
        let fit : fs.base + fs.fsize * fs.desc.bsize ≤ imgsize = ground (arith, good, small) in
        record {
          fits = fit;
          ilist = ground (arith, good);
          has_data = ground (arith, good);
          bounded = b;
          in_range = λ k l. check_range-block (record fs { imgsize = imgsize }) k fit l;
        }

finish_open-IsSound :
    (size : Option ℕ) (sb : Bytes) (fs g : Edition)
    → finish_open size sb fs ≡ ok g
    → IsNumbered g
    → IsSound g
unfolding finish_open
finish_open-IsSound size sb fs g e w =
    let (f, c, rest) = bind_inv (check_counts fs) _ g e in
    let h = with_interleave (with_totals f sb) sb in
    let (k, m, last) = bind_inv (check_magic h sb) (check_geometry size) g rest in
    let bounded : IsBounded h =
      with_interleave-IsBounded (with_totals f sb) sb
        (with_totals-IsBounded f sb (check_counts-IsBounded fs f c)) in
    check_geometry-IsSound size k g (subst IsBounded (check_magic_same h k sb m) bounded) last w

-- A volume that the open returns, whose end does not pass 2^64, lies inside the image, so that
-- every block of it is in range; its i-list is not too small to subtract 2 from, it has a data area
-- behind the i-list, and the counts of its caches are within their depths, whatever the image
-- holds.
pub open_volume-IsSound :
    (size : Option ℕ) (fs g : Edition) → open_volume size fs ≡ ok g → IsNumbered g → IsSound g
unfolding open_volume
open_volume-IsSound size fs g e w =
    let (f, a, e1) = bind_inv (sysv_geometry fs) _ g e in
    let (sb, b, e2) = bind_inv (open_read_super f) _ g e1 in
    let (h, c, e3) = bind_inv (decode_super f sb) _ g e2 in
    let (k, d, e4) = bind_inv (load_map h sb) (finish_open size sb) g e3 in
    finish_open-IsSound size sb k g e4 w
