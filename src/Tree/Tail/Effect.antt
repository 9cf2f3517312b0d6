-- ===== src/Tree/Tail/Effect.antt =====
-- What filsys_itrunc_from leaves alone.
use native.Mathlib.Nat.{mod-eq_of_lt}
use filsys.Base.{ℕ, zero, suc, ◌+◌, ◌-◌, ◌^◌, ◌≤◌, ◌<◌, ◌≡◌, ◌∙◌, refl, ap, arith}
use filsys.Base.{Bool, true, false, ◌||◌, u32, leb, ◌==◌, if◌then◌else◌}
use filsys.Base.{Option, none, some, List, ◌∷◌, ok, err}
use filsys.Volume.{Edition}
use filsys.Inode.{Inode}
use filsys.Tree.{span, slot_level, Walk, collect_subtree}
use filsys.Tree.Reference.{width, capacity, span-width}
use filsys.Tree.Tail.{Shortened, cleared, whole_gone, part_gone, shorten_slot, shorten_slots}
use filsys.Tree.Tail.{itrunc_from, collect_subtree_from}

shorten_slot-kept :
    (first lbn i : ℕ) (fs : Edition) (ip : Inode) (b : List ℕ)
    → u32 (lbn + span fs.desc (slot_level fs.desc ip.mode i)) ≤ first
    → shorten_slot first lbn i fs ip b ≡ (ok tt, ip, fs, b)
unfolding shorten_slot
shorten_slot-kept first lbn i fs ip b le = ground (arith, le)

shorten_slots-kept :
    (fs : Edition) (ip : Inode) (b : List ℕ) (first left lbn i : ℕ)
    → 0 < fs.desc.nindir
    → lbn + capacity fs.desc ip.mode left i < 2 ^ 32
    → lbn + capacity fs.desc ip.mode left i ≤ first
    → shorten_slots first left lbn i fs ip b ≡ (ok tt, ip, fs, b)
unfolding shorten_slots capacity
shorten_slots-kept fs ip b first zero lbn i pos h le = refl
shorten_slots-kept fs ip b first (suc left) lbn i pos h le =
    let level = slot_level fs.desc ip.mode i in
    let next : u32 (lbn + span fs.desc level) ≡ lbn + width fs.desc level =
      ap (λ (x : ℕ). u32 (lbn + x)) (span-width fs.desc level pos (omega arith))
      ∙ mod-eq_of_lt (omega arith) in
    let rest =
      shorten_slots-kept fs ip b first left (lbn + width fs.desc level) (i + 1) pos (omega arith)
        (omega arith) in
    let here = shorten_slot-kept first lbn i fs ip b (omega (arith, next)) in
    let follow : Shortened → Shortened = λ r. elim r.0 as (λ x. Shortened) [
      | ok u ↦ shorten_slots first left (u32 (lbn + span fs.desc level)) (i + 1) r.2 r.1 r.3
      | err e ↦ (err e, r.1, r.2, r.3)
    ] in
    ap follow here ∙ ap (λ x. shorten_slots first left x (i + 1) fs ip b) next ∙ rest

-- Where the slots together cover fewer than 2^32 blocks, a truncation behind the last block that
-- they cover collects nothing and changes neither the inode nor the volume.
pub itrunc_from-kept :
    (fs : Edition) (ip : Inode) (first : ℕ) (b : List ℕ)
    → 0 < fs.desc.nindir
    → capacity fs.desc ip.mode fs.desc.niaddr 0 < 2 ^ 32
    → capacity fs.desc ip.mode fs.desc.niaddr 0 ≤ first
    → itrunc_from fs ip first b ≡ (ok tt, ip, fs, b)
unfolding itrunc_from
itrunc_from-kept fs ip first b pos h le =
    shorten_slots-kept fs ip b first fs.desc.niaddr 0 0 pos (omega arith) (omega arith)

-- ---- from the first block on, nothing is written

whole_gone-volume :
    (r : Walk (List ℕ)) (fs : Edition) (ip : Inode) (i : ℕ) → (whole_gone r fs ip i).2 ≡ fs
unfolding whole_gone
whole_gone-volume (ok u, b) fs ip i = refl
whole_gone-volume (err e, b) fs ip i = refl

shorten_slot-volume :
    (lbn i : ℕ) (fs : Edition) (ip : Inode) (b : List ℕ) → (shorten_slot 0 lbn i fs ip b).2 ≡ fs
unfolding shorten_slot
shorten_slot-volume lbn i fs ip b =
    by_level (leb (u32 (lbn + span fs.desc (slot_level fs.desc ip.mode i))) 0 || (ip.addr i == 0))
      (slot_level fs.desc ip.mode i)
  where
    by_level :
        (t : Bool) (level : Option ℕ)
        → (if t then (ok tt, ip, fs, b) else elim level as (λ x. Shortened) [
          | none ↦ (ok tt, cleared ip i, fs, ip.addr i ∷ b)
          | some l ↦
              if leb 0 lbn
              then whole_gone (collect_subtree fs l (ip.addr i) b) fs ip i
              else part_gone (collect_subtree_from l (0 - lbn) fs (ip.addr i) b) ip
        ]).2
          ≡ fs
    by_level true level = refl
    by_level false none = refl
    by_level false (some l) =
        ground (arith, whole_gone-volume (collect_subtree fs l (ip.addr i) b) fs ip i)

shorten_slots-volume :
    (left lbn i : ℕ) (fs : Edition) (ip : Inode) (b : List ℕ)
    → (shorten_slots 0 left lbn i fs ip b).2 ≡ fs
unfolding shorten_slots
shorten_slots-volume zero lbn i fs ip b = refl
shorten_slots-volume (suc left) lbn i fs ip b =
    follow (λ x g p c. shorten_slots-volume left x (i + 1) g p c) (shorten_slot 0 lbn i fs ip b)
      (shorten_slot-volume lbn i fs ip b)
  where
    follow :
        ((x : ℕ) (g : Edition) (p : Inode) (c : List ℕ)
          → (shorten_slots 0 left x (i + 1) g p c).2 ≡ g)
        → (r : Shortened) → r.2 ≡ fs
        → (elim r.0 as (λ x. Shortened) [
          | ok u ↦
              shorten_slots 0 left
                (u32 (lbn + span fs.desc (slot_level fs.desc ip.mode i)))
                (i + 1)
                r.2
                r.1
                r.3
          | err e ↦ (err e, r.1, r.2, r.3)
        ]).2
          ≡ fs
    follow rest (ok u, p, g, c) e =
        rest (u32 (lbn + span fs.desc (slot_level fs.desc ip.mode i))) g p c ∙ e
    follow rest (err x, p, g, c) e = e

-- A truncation from block 0 on writes nothing, since no slot stays in part.
pub itrunc_from-volume : (fs : Edition) (ip : Inode) (b : List ℕ) → (itrunc_from fs ip 0 b).2 ≡ fs
unfolding itrunc_from
itrunc_from-volume fs ip b = shorten_slots-volume fs.desc.niaddr 0 0 fs ip b
