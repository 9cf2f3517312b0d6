-- ===== src/Tree/Slots.antt =====
-- The same over all slots of an inode: a truncation to nothing collects the allocated blocks.
use filsys.Base.{
  ℕ, zero, suc, ◌+◌, ◌≤◌, ◌≡◌, ◌∙◌, refl, ap, sym, subst, arith, List, [], ◌∷◌, length,
}
use native.Mathlib.Nat.{le_refl}
use filsys.Base.{Errno, Outcome, ok, err, Option, none, some, inl, inr, ◌⊎◌, Bool, true, false}
use filsys.Base.{◌==◌, if◌then◌else◌}
use filsys.Volume.{Edition}
use filsys.Inode.{Inode}
use filsys.FreeList.{update}
use filsys.Tree.{Walk, slot_level, is_data_inode, collect_subtree, count_indirect, tick, add_count}
use filsys.Tree.{counted, trunc_slot, trunc_slots, shrunk, itrunc, count_slot, count_slots}
use filsys.Tree.{allocated_blocks}
use filsys.Tree.Collect.{GrowsBy, collect_subtree-count_indirect}

-- A truncation of slots, beside the count of the same slots.
abbrev Matches : List ℕ → Outcome (Unit {0}) × Inode × List ℕ → Walk ℕ → Type 0
Matches b (ok u, ip, b') (ok w, n) = length b' ≡ length b + n
Matches b (ok u, ip, b') (err e, n) = ⊥
Matches b (err e, ip, b') (ok u, n) = ⊥
Matches b (err e, ip, b') (err x, n) = Unit

-- The blocks of one slot.
abbrev slot_count : Edition → Inode → ℕ → Outcome ℕ
slot_count fs ip i = if ip.addr i == 0 then ok 0 else elim (slot_level fs.desc ip.mode i) [
  | none ↦ ok 1
  | some level ↦ count_indirect fs level (ip.addr i)
]

abbrev after : Walk ℕ → Outcome ℕ → Walk ℕ
after (ok u, n) s = add_count s n
after (err e, n) s = (err e, n)

abbrev cleared : Inode → ℕ → Inode
cleared ip i = record ip { addr = update ip.addr i 0 }

count_slot-eq :
    (fs : Edition) (ip : Inode) (i : ℕ) (c : Walk ℕ)
    → count_slot fs ip i c ≡ after c (slot_count fs ip i)
unfolding count_slot add_count
count_slot-eq fs ip i (err e, n) = refl
count_slot-eq fs ip i (ok u, n) = at (ip.addr i == 0) (slot_level fs.desc ip.mode i)
  where
    at :
        (t : Bool) (l : Option ℕ)
        → (if t then (ok tt, n) else elim l as (λ x. Walk ℕ) [
          | none ↦ tick (ip.addr i) n
          | some level ↦ add_count (count_indirect fs level (ip.addr i)) n
        ])
          ≡ add_count
              (if t then ok 0 else elim l as (λ x. Outcome ℕ) [
                | none ↦ ok 1
                | some level ↦ count_indirect fs level (ip.addr i)
              ])
              n
    at true l = ap {A = ℕ} (λ k. (ok tt, k)) (omega arith)
    at false none = refl
    at false (some level) = refl

-- Clearing a slot does not change the count of the slots below it.
count_slots-cleared :
    (fs : Edition) (ip : Inode) (i j : ℕ)
    → j ≤ i
    → count_slots fs (cleared ip i) j ≡ count_slots fs ip j
unfolding count_slots
count_slots-cleared fs ip i zero l = refl
count_slots-cleared fs ip i (suc j) l =
    let same : update ip.addr i 0 j ≡ ip.addr j = ground arith in
    count_slot-eq fs (cleared ip i) j (count_slots fs (cleared ip i) j)
    ∙ ap
        (λ (a : ℕ). after (count_slots fs (cleared ip i) j) (
          if a == 0 then ok 0 else elim (slot_level fs.desc ip.mode j) as (λ x. Outcome ℕ) [
            | none ↦ ok 1
            | some level ↦ count_indirect fs level a
          ]))
        same
    ∙ ap (λ c. after c (slot_count fs ip j)) (count_slots-cleared fs ip i j (omega arith))
    ∙ sym (count_slot-eq fs ip j (count_slots fs ip j))

-- What one slot adds to the list, and what becomes of the inode.
record Slot (fs : Edition) (ip : Inode) (i : ℕ) (b : List ℕ)
    (r : Outcome (Unit {0}) × Inode × List ℕ) (c : Outcome ℕ) : Type 0 where
  grows : GrowsBy b (r.0, r.2) c
  inode : (r.1 ≡ ip) ⊎ (r.1 ≡ cleared ip i)

trunc_slot-Slot :
    (fs : Edition) (ip : Inode) (i : ℕ) (b : List ℕ)
    → Slot fs ip i b (trunc_slot fs i ip b) (slot_count fs ip i)
unfolding trunc_slot
trunc_slot-Slot fs ip i b = at (ip.addr i == 0) (slot_level fs.desc ip.mode i)
  where
    at :
        (t : Bool) (l : Option ℕ)
        → Slot fs ip i b
            (if t then (ok tt, ip, b) else elim l as (λ x. Outcome (Unit {0}) × Inode × List ℕ) [
              | none ↦ (ok tt, cleared ip i, ip.addr i ∷ b)
              | some level ↦ (
                (collect_subtree fs level (ip.addr i) b).0,
                cleared ip i,
                (collect_subtree fs level (ip.addr i) b).1,
              )
            ])
            (if t then ok 0 else elim l as (λ x. Outcome ℕ) [
              | none ↦ ok 1
              | some level ↦ count_indirect fs level (ip.addr i)
            ])
    at true l = record { grows = omega arith; inode = inl refl }
    at false none = record { grows = refl; inode = inr refl }
    at false (some level) = record {
      grows = collect_subtree-count_indirect fs level (ip.addr i) b;
      inode = inr refl;
    }

Matches-after :
    (b b' : List ℕ) (m : ℕ) (r : Outcome (Unit {0}) × Inode × List ℕ) (c : Walk ℕ)
    → length b' ≡ length b + m
    → Matches b' r c
    → Matches b r (after c (ok m))
unfolding add_count
Matches-after b b' m (ok u, ip, x) (ok w, n) e v = omega arith
Matches-after b b' m (ok u, ip, x) (err k, n) e v = absurd v
Matches-after b b' m (err k, ip, x) (ok w, n) e v = absurd v
Matches-after b b' m (err k, ip, x) (err y, n) e v = tt

trunc_slots-count_slots :
    (fs : Edition) (n : ℕ) (ip : Inode) (b : List ℕ)
    → Matches b (trunc_slots fs n ip b) (count_slots fs ip n)
unfolding trunc_slots count_slots add_count
trunc_slots-count_slots fs zero ip b = omega arith
trunc_slots-count_slots fs (suc i) ip b =
    subst (Matches b (trunc_slots fs (suc i) ip b))
      (sym (count_slot-eq fs ip i (count_slots fs ip i)))
      (go (λ p x. trunc_slots-count_slots fs i p x) (trunc_slot fs i ip b) (slot_count fs ip i)
        (trunc_slot-Slot fs ip i b))
  where
    same :
        (ip' : Inode)
        → (ip' ≡ ip) ⊎ (ip' ≡ cleared ip i)
        → count_slots fs ip' i ≡ count_slots fs ip i
    same ip' (inl e) = ap (λ p. count_slots fs p i) e
    same ip' (inr e) = ap (λ p. count_slots fs p i) e ∙ count_slots-cleared fs ip i i (le_refl i)

    failed :
        (e x : Errno) (p : Inode) (b' : List ℕ) (c : Walk ℕ)
        → Matches b (err e, p, b') (after c (err x))
    failed e x p b' (ok u, n) = tt
    failed e x p b' (err y, n) = tt

    go :
        ((p : Inode) (x : List ℕ) → Matches x (trunc_slots fs i p x) (count_slots fs p i))
        → (r : Outcome (Unit {0}) × Inode × List ℕ) (c : Outcome ℕ) → Slot fs ip i b r c
        → Matches b
            (elim r.0 as (λ x. Outcome (Unit {0}) × Inode × List ℕ) [
              | ok u ↦ trunc_slots fs i r.1 r.2
              | err e ↦ (err e, r.1, r.2)
            ])
            (after (count_slots fs ip i) c)
    go rest (ok u, ip', b') (ok m) v =
        Matches-after b b' m (trunc_slots fs i ip' b') (count_slots fs ip i) v.grows
          (subst (Matches b' (trunc_slots fs i ip' b')) (same ip' v.inode) (rest ip' b'))
    go rest (ok u, ip', b') (err x) v = absurd v.grows
    go rest (err e, ip', b') (ok m) v = absurd v.grows
    go rest (err e, ip', b') (err x) v = failed e x ip' b' (count_slots fs ip i)

-- The outcome of a truncation to nothing, beside the count of allocated blocks.
abbrev pub TakesAll : Outcome (Unit {0}) × Inode × List ℕ → Outcome ℕ → Type 0
TakesAll (ok u, ip, b) (ok n) = length b ≡ n
TakesAll (ok u, ip, b) (err e) = ⊥
TakesAll (err e, ip, b) (ok n) = ⊥
TakesAll (err e, ip, b) (err x) = Unit

-- On every volume and every inode, a truncation to nothing fails exactly if the count of allocated
-- blocks fails, and else collects as many blocks as filsys_allocated_blocks counts.
pub itrunc-allocated_blocks :
    (fs : Edition) (ip : Inode) → TakesAll (itrunc fs ip []) (allocated_blocks fs ip)
unfolding itrunc allocated_blocks shrunk counted
itrunc-allocated_blocks fs ip = at (is_data_inode fs.desc ip)
  where
    settled :
        (r : Outcome (Unit {0}) × Inode × List ℕ) (c : Walk ℕ)
        → Matches [] r c
        → TakesAll (shrunk r) (counted c)
    settled (ok u, p, b) (ok w, n) v = omega arith
    settled (ok u, p, b) (err e, n) v = absurd v
    settled (err e, p, b) (ok w, n) v = absurd v
    settled (err e, p, b) (err x, n) v = tt

    at :
        (t : Bool)
        → TakesAll
            (if t then shrunk (trunc_slots fs fs.desc.niaddr ip []) else (ok tt, ip, []))
            (if t then counted (count_slots fs ip fs.desc.niaddr) else ok 0)
    at true =
        settled (trunc_slots fs fs.desc.niaddr ip []) (count_slots fs ip fs.desc.niaddr)
          (trunc_slots-count_slots fs fs.desc.niaddr ip [])
    at false = refl
