-- ===== src/Check/Mark/Truncate.antt =====
-- An inode that is marked without a message, beside its truncation to nothing.
use filsys.Base.{
  ℕ, zero, suc, ◌+◌, ◌-◌, ◌%◌, ◌^◌, ◌≤◌, ◌<◌, ◌≡◌, ◌≢◌, ◌∙◌, refl, ap, sym, subst, arith,
}
use filsys.Base.{true, false, inl, inr, List, [], ◌∷◌, length, Bool-cases, ◌==◌}
use filsys.Base.{Outcome, ok, err, IsBytes}
use mathlib.Core.Path.{fun_ext}
use filsys.Volume.{Edition, data_first}
use filsys.Inode.{Inode}
use filsys.FreeList.Chain.{All, Distinct}
use filsys.Bitmap.{bit_at}
use filsys.Tree.{Walk}
use filsys.Tree.{trunc_slot, trunc_slots, shrunk, itrunc, is_data_inode}
use filsys.Check.{Context}
use filsys.Check.Mark.{mark_blocks, mark_slots}
use filsys.Check.Mark.Claims.{Claims, count, Inside, is_marked}
use filsys.Check.Mark.Slots.{slot_walk, then_walk, inode_walk, Marks-mark_slots}
use filsys.Check.Mark.Gain.{SameGain, Adds, Adds-slot_walk}

-- ---- the slots in either order

inode_walk-congr :
    (fs : Edition) (ip jp : Inode) (n : ℕ) (b : List ℕ)
    → jp.mode ≡ ip.mode
    → ((i : ℕ) → i < n → jp.addr i ≡ ip.addr i)
    → inode_walk fs jp n b ≡ inode_walk fs ip n b
inode_walk-congr fs ip jp zero b m h = refl
inode_walk-congr fs ip jp (suc i) b m h =
    rw (inode_walk-congr fs ip jp i b m (λ j l. h j (omega arith)))
      (ap (then_walk (inode_walk fs ip i b)) (fun_ext (λ c. slot_walk-congr c)))
  where
    slot_walk-congr : (c : List ℕ) → slot_walk fs jp i c ≡ slot_walk fs ip i c
    slot_walk-congr c = ground (arith, h i, m)

-- What clearing slot `i` does.
record Slot (fs : Edition) (ip : Inode) (i : ℕ) (b : List ℕ)
    (r : Outcome (Unit {0}) × Inode × List ℕ) : Type 0 where
  result : r.0 ≡ (slot_walk fs ip i b).0
  blocks : r.2 ≡ (slot_walk fs ip i b).1
  mode : r.1.mode ≡ ip.mode
  others : (j : ℕ) → j < i → r.1.addr j ≡ ip.addr j

trunc_slot-Slot :
    (fs : Edition) (ip : Inode) (i : ℕ) (b : List ℕ) → Slot fs ip i b (trunc_slot fs i ip b)
unfolding trunc_slot
trunc_slot-Slot fs ip i b = elim (Bool-cases (ip.addr i == 0)) [
  | inl hole ↦ record {
    result = ground arith;
    blocks = ground arith;
    mode = ground arith;
    others = λ j l. ground arith;
  }
  | inr block ↦ record {
    result = ground arith;
    blocks = ground arith;
    mode = ground arith;
    others = λ j l. ground arith;
  }
]

-- The truncation of the slots below `n` collects on top of `b` what their walk collects.
record Collects (b : List ℕ) (c : List ℕ) (r : Outcome (Unit {0}) × Inode × List ℕ) : Type 0 where
  result : r.0 ≡ ok tt
  same : SameGain b r.2 [] c

then_walk-ok :
    (w : Walk (List ℕ)) (k : List ℕ → Walk (List ℕ)) (c : List ℕ)
    → then_walk w k ≡ (ok tt, c)
    → (d : List ℕ) × (w ≡ (ok tt, d)) × (k d ≡ (ok tt, c))
then_walk-ok (ok u, d) k c e = (d, refl, e)
then_walk-ok (err x, d) k c e = cc

-- A collection that succeeds on top of `c` succeeds on top of `b`, and adds the same.
Adds-ok :
    (b c d : List ℕ) (v w : Walk (List ℕ))
    → Adds b v c w
    → w ≡ (ok tt, d)
    → (e : List ℕ) × (v ≡ (ok tt, e)) × SameGain b e c d
Adds-ok b c d (ok u, e) (ok t, f) p q =
    let same : f ≡ d = cc in (e, refl, subst (SameGain b e c) same p)
Adds-ok b c d (ok u, e) (err t, f) p q = absurd p
Adds-ok b c d (err u, e) (ok t, f) p q = absurd p
Adds-ok b c d (err u, e) (err t, f) p q = cc

trunc_slots-Collects :
    (fs : Edition) (n : ℕ) (ip : Inode) (b c : List ℕ)
    → inode_walk fs ip n [] ≡ (ok tt, c)
    → Collects b c (trunc_slots fs n ip b)
unfolding trunc_slots
trunc_slots-Collects fs zero ip b c e =
    let none : [] ≡ c = cc in
    record {
      result = refl;
      same =
          subst (SameGain b b []) none (record { counts = λ x. omega arith; sizes = omega arith });
    }
trunc_slots-Collects fs (suc i) ip b c e =
    let (d, before, last) = then_walk-ok (inode_walk fs ip i []) (slot_walk fs ip i) c e in
    let (b', walked, adds) =
      Adds-ok b d c (slot_walk fs ip i b) (slot_walk fs ip i d) (Adds-slot_walk fs ip i b d) last in
    let s = trunc_slot-Slot fs ip i b in
    let t = trunc_slot fs i ip b in
    let good : t.0 ≡ ok tt = s.result ∙ ap {A = Walk (List ℕ)} (λ w. w.0) walked in
    let list : t.2 ≡ b' = s.blocks ∙ ap {A = Walk (List ℕ)} (λ w. w.1) walked in
    let rest =
      trunc_slots-Collects fs i t.1 t.2 d
        (inode_walk-congr fs ip t.1 i [] s.mode s.others ∙ before) in
    rw (good, trunc_slots)
      (record {
        result = rest.result;
        same = record {
          counts = λ x. omega (arith, rest.same.counts x, ap (count x) list, adds.counts x);
          sizes = omega (arith, rest.same.sizes, ap length list, adds.sizes);
        };
      })

-- ---- what the counts of a list say of it

count-ne : (x : ℕ) (b : List ℕ) → count x b ≡ 0 → All (λ y. y ≢ x) b
count-ne x [] h = tt
count-ne x (y ∷ b) h = (ground arith, count-ne x b (ground arith))

count-Distinct : (b : List ℕ) → ((x : ℕ) → count x b ≤ 1) → Distinct b
count-Distinct [] h = tt
count-Distinct (x ∷ b) h =
    (count-ne x b (ground (arith, h x)), count-Distinct b (λ y. ground (arith, h y)))

count-All {ℓ} : (P : ℕ → Type ℓ) (b : List ℕ) → ((x : ℕ) → 0 < count x b → P x) → All P b
count-All P [] h = tt
count-All P (x ∷ b) h = (h x (ground arith), count-All P b (λ y l. h y (omega arith)))

-- ---- the inode as a whole

-- What the marking of an inode from `cx` to `cx'` says of the blocks `b` that its truncation
-- collects.
pub record Accounted (fs : Edition) (cx cx' : Context) (b : List ℕ) : Type 0 where
  pub inside : All (Inside fs) b
  pub distinct : Distinct b
  pub unmarked : All (λ x. bit_at cx.bmap (x - data_first fs) ≡ false) b
  pub marks : (d : ℕ) → is_marked cx' d ≡ is_marked cx d + count (data_first fs + d) b
  pub used : cx'.used_blocks % 2 ^ 32 ≡ (cx.used_blocks + length b) % 2 ^ 32

module _ (fs : Edition) (cx cx' : Context) (b : List ℕ) (p : Claims fs cx [] cx' b) where
  Claims-Inside : (x : ℕ) → 0 < count x b → Inside fs x
  Claims-Inside x l = (ground (arith, p.below x), ground (arith, p.above x))

  -- A claimed block is claimed once, and was not marked before.
  Claims-once : (x : ℕ) → 0 < count x b → is_marked cx (x - data_first fs) + count x b ≤ 1
  Claims-once x l =
      let i = Claims-Inside x l in
      let back : data_first fs + (x - data_first fs) ≡ x = omega arith in
      let m = p.marks (x - data_first fs) in ground (arith, m, ap (λ y. count y b) back)

  Claims-Accounted : Accounted fs cx cx' b
  Claims-Accounted = record {
    inside = count-All (Inside fs) b Claims-Inside;
    distinct = count-Distinct b (λ x. ground (arith, Claims-once x));
    unmarked = count-All _ b (λ x l. ground (arith, Claims-once x l));
    marks = λ d. omega (arith, p.marks d);
    used = omega (arith, p.used);
  }

Claims-gain :
    (fs : Edition) {cx cx' : Context} {b c : List ℕ}
    → SameGain [] b [] c
    → Claims fs cx [] cx' c
    → Claims fs cx [] cx' b
Claims-gain fs g p = record {
  marks = λ d. omega (arith, p.marks d, g.counts (data_first fs + d));
  below = λ x h. omega (arith, p.below x h, g.counts x);
  above = λ x h. omega (arith, p.above x h, g.counts x);
  used = omega (arith, p.used, g.sizes);
}

shrunk-ok :
    (r : Outcome (Unit {0}) × Inode × List ℕ)
    → r.0 ≡ ok tt
    → ((shrunk r).0 ≡ ok tt) × ((shrunk r).2 ≡ r.2)
unfolding shrunk
shrunk-ok (ok u, ip, b) e = (refl, refl)
shrunk-ok (err x, ip, b) e = cc

-- Where the marking of an inode that carries data (a file, a directory or a link), other than the
-- bad-block inode, prints nothing over a map of bytes, truncating it to nothing succeeds, and the
-- blocks that it collects are data blocks, none of them twice in the list and none marked before;
-- the marking set the bits of these blocks and of no others, and counted them.
pub mark_blocks-itrunc :
    (fs : Edition) (ip : Inode) (cx : Context)
    → is_data_inode fs.desc ip ≡ true
    → cx.ino ≢ fs.desc.badino
    → IsBytes cx.bmap
    → (mark_blocks fs ip cx).log ≡ cx.log
    → ((itrunc fs ip []).0 ≡ ok tt) × Accounted fs cx (mark_blocks fs ip cx) (itrunc fs ip []).2
unfolding mark_blocks itrunc
mark_blocks-itrunc fs ip cx carries o bytes quiet =
    let n = fs.desc.niaddr in
    let w = inode_walk fs ip n [] in
    let s = (Marks-mark_slots fs ip n cx [] o).silent bytes (omega (arith, ap length quiet)) in
    let t = trunc_slots-Collects fs n ip [] w.1 (ap {A = Outcome (Unit {0})} (λ r. (r, w.1)) s.0) in
    let done = shrunk-ok (trunc_slots fs n ip []) t.result in
    let c = Claims-Accounted fs cx _ _ (Claims-gain fs t.same s.1) in
    rw carries (done.0, subst (Accounted fs cx (mark_slots fs ip n cx)) (sym done.1) c)
