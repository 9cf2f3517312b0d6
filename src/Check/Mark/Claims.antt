-- ===== src/Check/Mark/Claims.antt =====
-- What a marking without a message claims: the blocks that a truncation would collect.
use native.Mathlib.Decide.{ℕ_discrete}
use native.Mathlib.Nat.{le_refl, le_trans}
use filsys.Base.{ℕ, ◌+◌, ◌-◌, ◌%◌, ◌^◌, ◌≤◌, ◌<◌, ◌≡◌, ◌≢◌, ◌∙◌, refl, ap, sym, subst, arith}
use filsys.Base.{false, inl, inr, List, [], ◌∷◌, length, Bool-cases}
use filsys.Base.{IsBytes, ◌||◌, ◌==◌, ltb, leb, if◌then◌else◌, Errno, ok, err}
use filsys.Volume.{Edition, data_first}
use filsys.Bitmap.{bit_at}
use filsys.Bitmap.Laws.{bit_at-set_bit, set_bit-IsBytes}
use filsys.Tree.{Walk, push}
use filsys.Check.{Context, data_end}
use filsys.Check.Mark.{claim_block, mark_block}
use filsys.Check.Mark.{is_bad_record}

-- How often `x` is in the list.
abbrev pub count : ℕ → List ℕ → ℕ
count x [] = 0
count x (y ∷ ys) = (if x == y then 1 else 0) + count x ys

abbrev pub is_marked : Context → ℕ → ℕ
is_marked cx d = if bit_at cx.bmap d then 1 else 0

abbrev pub Inside : Edition → ℕ → Type 0
Inside fs x = (data_first fs ≤ x) × (x < data_end fs)

-- From `cx` to `cx'` the blocks that `b'` has more than `b` were claimed, each of them a data block
-- that was not marked before.
pub record Claims (fs : Edition) (cx : Context) (b : List ℕ) (cx' : Context) (b' : List ℕ)
    : Type 0 where
  pub marks :
      (d : ℕ)
      → is_marked cx' d + count (data_first fs + d) b
        ≡ is_marked cx d + count (data_first fs + d) b'
  pub below : (x : ℕ) → x < data_first fs → count x b' ≡ count x b
  pub above : (x : ℕ) → data_end fs ≤ x → count x b' ≡ count x b
  pub used : (cx'.used_blocks + length b) % 2 ^ 32 ≡ (cx.used_blocks + length b') % 2 ^ 32

-- What holds of every marking.
pub record Grows (cx cx' : Context) : Type 0 where
  pub longer : length cx.log ≤ length cx'.log
  pub same : cx'.ino ≡ cx.ino
  pub size : cx'.nblk ≡ cx.nblk
  pub bytes : IsBytes cx.bmap → IsBytes cx'.bmap

-- A marking beside a collection: where it prints nothing the collection succeeds.
pub record Marks (fs : Edition) (cx : Context) (b : List ℕ) (cx' : Context) (w : Walk (List ℕ))
    : Type 0 where
  pub grows : Grows cx cx'
  pub silent :
      IsBytes cx.bmap → length cx'.log ≤ length cx.log → (w.0 ≡ ok tt) × Claims fs cx b cx' w.1

pub Grows-refl : (cx : Context) → Grows cx cx
Grows-refl cx = record { longer = le_refl _; same = refl; size = refl; bytes = λ h. h }

pub Grows-trans : {cx cy cz : Context} → Grows cx cy → Grows cy cz → Grows cx cz
Grows-trans g h = record {
  longer = le_trans g.longer h.longer;
  same = h.same ∙ g.same;
  size = h.size ∙ g.size;
  bytes = λ i. h.bytes (g.bytes i);
}

pub Claims-refl : (fs : Edition) (cx : Context) (b : List ℕ) → Claims fs cx b cx b
Claims-refl fs cx b = record {
  marks = λ d. refl;
  below = λ x h. refl;
  above = λ x h. refl;
  used = refl;
}

pub Claims-trans :
    (fs : Edition) {cx cy cz : Context} {b c e : List ℕ}
    → Claims fs cx b cy c
    → Claims fs cy c cz e
    → Claims fs cx b cz e
Claims-trans fs p q = record {
  marks = λ d. omega (arith, p.marks d, q.marks d);
  below = λ x h. q.below x h ∙ p.below x h;
  above = λ x h. q.above x h ∙ p.above x h;
  used = omega (arith, p.used, q.used);
}

-- The one block that a silent mark_block of a block other than 0 claims.
module _ (fs : Edition) (cx : Context) (b : List ℕ) where
  pub Claims-claim_block :
      (x : ℕ)
      → IsBytes cx.bmap
      → Inside fs x
      → bit_at cx.bmap (x - data_first fs) ≡ false
      → Claims fs cx b (claim_block cx (x - data_first fs)) (x ∷ b)
  Claims-claim_block x bytes i free = record {
    marks = λ d.
        let e = bit_at-set_bit cx.bmap bytes (x - data_first fs) d in
        elim (ℕ_discrete d (x - data_first fs)) [
          | yes same ↦ ground (arith, e, ap (bit_at cx.bmap) same)
          | no other ↦ ground (arith, e)
        ];
    below = λ y h. ground arith;
    above = λ y h. ground arith;
    used = omega arith;
  }

-- What mark_block does with a block other than 0, on behalf of an inode that is not the bad-block inode.
pub data Marked (fs : Edition) (cx : Context) (x : ℕ) : ℕ × Context → Type 0 where
  claimed :
      Inside fs x
      → bit_at cx.bmap (x - data_first fs) ≡ false
      → Marked fs cx x (0, claim_block cx (x - data_first fs))
  refused :
      (k : ℕ) (cx' : Context)
      → k ≢ 0
      → cx'.bmap ≡ cx.bmap
      → cx'.ino ≡ cx.ino
      → cx'.nblk ≡ cx.nblk
      → length cx'.log ≡ length cx.log + 1
      → Marked fs cx x (k, cx')

module _ (fs : Edition) (cx : Context) (x : ℕ) (ordinary : cx.ino ≢ fs.desc.badino) where
  no-is_bad_record : is_bad_record fs cx x ≡ false
  unfolding is_bad_record
  no-is_bad_record = ground arith

  pub mark_block-Marked : x ≢ 0 → Marked fs cx x (mark_block fs cx x)
  unfolding mark_block
  mark_block-Marked ne =
      let z : (x == 0) ≡ false = ground arith in
      elim (Bool-cases (ltb x (data_first fs) || leb (data_end fs) x)) [
        | inl out ↦
            rw z (rw out (rw no-is_bad_record (refused 1 _ (omega arith) refl refl refl refl)))
        | inr inside ↦ elim (Bool-cases (bit_at cx.bmap (x - data_first fs))) [
          | inl set ↦ rw z (rw inside (rw set (refused 2 _ (omega arith) refl refl refl refl)))
          | inr clear ↦ rw z (rw inside (rw clear (claimed (ground arith) clear)))
        ]
      ]

-- A change that leaves the map alone and prints.
pub Grows-print :
    (cx cx' : Context)
    → cx'.bmap ≡ cx.bmap
    → cx'.ino ≡ cx.ino
    → cx'.nblk ≡ cx.nblk
    → length cx'.log ≡ length cx.log + 1
    → Grows cx cx'
Grows-print cx cx' m i z l = record {
  longer = omega arith;
  same = i;
  size = z;
  bytes = λ h. subst IsBytes (sym m) h;
}

Grows-Marked :
    (fs : Edition) (cx : Context) (x : ℕ) (r : ℕ × Context) → Marked fs cx x r → Grows cx r.1
Grows-Marked fs cx x _ (claimed i clear) = record {
  longer = le_refl _;
  same = refl;
  size = refl;
  bytes = λ h. set_bit-IsBytes cx.bmap h (x - data_first fs);
}
Grows-Marked fs cx x _ (refused k cx' ne m i z l) = Grows-print cx cx' m i z l

pub Marks-Marked :
    (fs : Edition) (cx : Context) (b : List ℕ) (x : ℕ) (r : ℕ × Context)
    → Marked fs cx x r
    → Marks fs cx b r.1 (push x b)
Marks-Marked fs cx b x _ (claimed i clear) = record {
  grows = Grows-Marked fs cx x _ (claimed i clear);
  silent = λ h l. (refl, Claims-claim_block fs cx b x h i clear);
}
Marks-Marked fs cx b x _ (refused k cx' ne m i z l) = record {
  grows = Grows-print cx cx' m i z l;
  silent = λ h q. absurd (omega (arith, l));
}

pub Marks-trans :
    (fs : Edition) (cx cy cz : Context) (b : List ℕ) (c : List ℕ) (w : Walk (List ℕ))
    → Marks fs cx b cy (ok tt, c)
    → Marks fs cy c cz w
    → Marks fs cx b cz w
Marks-trans fs cx cy cz b c w p q = record {
  grows = Grows-trans p.grows q.grows;
  silent = λ h l.
      let s = p.silent h (omega (arith, q.grows.longer)) in
      let t = q.silent (p.grows.bytes h) (omega (arith, p.grows.longer)) in
      (t.0, Claims-trans fs s.1 t.1);
}

-- Behind a failed collection nothing is silent.
pub Marks-failed :
    (fs : Edition) (cx cy cz : Context) (b c : List ℕ) (e : Errno) (w : Walk (List ℕ))
    → Marks fs cx b cy (err e, c)
    → Grows cy cz
    → Marks fs cx b cz w
Marks-failed fs cx cy cz b c e w p g = record {
  grows = Grows-trans p.grows g;
  silent = λ h l. let s = p.silent h (omega (arith, g.longer)) in absurd (cc s.0);
}
