-- ===== src/Tree/Tail.antt =====
-- filsys_itrunc_from: the blocks behind a block of the file are collected, and the entries that
-- named them are cleared on the disk.
pub mod Effect
use filsys.Base.{ℕ, zero, suc, ◌+◌, ◌-◌, ◌/◌, ◌%◌, ◌^◌, ◌≤◌, ◌<◌, ◌≡◌, ◌∙◌, refl, ap, arith}
use filsys.Base.{Bool, true, false, ◌&&◌, ◌||◌, Bytes, u32, leb, ltb, ◌==◌, if◌then◌else◌}
use filsys.Base.{Option, none, some, List, ◌∷◌, eio, Outcome, ok, err}
use filsys.Volume.{Edition, read_block, write_block}
use filsys.Inode.{Inode}
use filsys.FreeList.{update}
use filsys.Tree.{ind_get, ind_put, power, span, slot_level, Walk, push, collect_subtree}
use filsys.Tree.Reference.{width, capacity, span-width}

-- What a partial collection leaves: its result, the volume and the list.
abbrev pub Cut : Type 0
Cut = Outcome (Unit {0}) × Edition × List ℕ

-- The same inside the loop over the entries of a block, with its buffer.
abbrev pub CutBlock : Type 0
CutBlock = Outcome (Unit {0}) × Edition × Bytes × List ℕ

parted : Cut → Bytes → CutBlock
parted (ok u, fs, b) buf = (ok tt, fs, buf, b)
parted (err e, fs, b) buf = (err eio, fs, buf, b)

dropped : Walk (List ℕ) → Edition → Bytes → ℕ → CutBlock
dropped (ok u, b) fs buf i = (ok tt, fs, ind_put fs.desc buf i 0, b)
dropped (err e, b) fs buf i = (err eio, fs, buf, b)

-- Entry `i`: the entries below `se` stay, entry `se` stays for its first `sp` blocks, the others go.
unfoldable pub cut_entry :
    (Edition → ℕ → List ℕ → Cut)
    → (Edition → ℕ → List ℕ → Walk (List ℕ))
    → ℕ
    → ℕ
    → ℕ
    → CutBlock
    → CutBlock
unfolding parted dropped
cut_entry part whole se sp i (err e, fs, buf, b) = (err e, fs, buf, b)
cut_entry part whole se sp i (ok u, fs, buf, b) =
    let nb = ind_get fs.desc buf i in
    if nb == 0 || ltb i se
    then (ok tt, fs, buf, b)
    else if i == se && ltb 0 sp
    then parted (part fs nb b) buf
    else dropped (whole fs nb b) fs buf i

unfoldable pub cut_entries :
    (Edition → ℕ → List ℕ → Cut)
    → (Edition → ℕ → List ℕ → Walk (List ℕ))
    → ℕ
    → ℕ
    → ℕ
    → CutBlock
    → CutBlock
unfolding cut_entry
cut_entries part whole se sp zero c = c
cut_entries part whole se sp (suc i) c =
    cut_entry part whole se sp i (cut_entries part whole se sp i c)

-- The entries that were dropped reach the disk.
persisted : CutBlock → ℕ → Cut
persisted (err e, fs, buf, b) blk = (err e, fs, b)
persisted (ok u, fs, buf, b) blk = let w = write_block fs blk buf in (w.0, w.1, b)

-- A block of level 0 has no entry that stays in part, since there `sp` is 0.
unfoldable pub collect_subtree_from : ℕ → ℕ → Edition → ℕ → List ℕ → Cut
unfolding cut_entries persisted
collect_subtree_from zero skip fs blk b = elim (read_block fs blk) [
  | err e ↦ (err eio, fs, b)
  | ok buf ↦
      persisted
        (cut_entries (λ g nb c. (err eio, g, c)) (λ g. push) skip 0 fs.desc.nindir
          (ok tt, fs, buf, b))
        blk
]
collect_subtree_from (suc level) skip fs blk b =
    let sub = power fs.desc (suc level) in
    elim (read_block fs blk) [
      | err e ↦ (err eio, fs, b)
      | ok buf ↦
          persisted
            (cut_entries (λ g nb c. collect_subtree_from level (skip % sub) g nb c)
              (λ g. collect_subtree g level) (skip / sub) (skip % sub) fs.desc.nindir
              (ok tt, fs, buf, b))
            blk
    ]

-- What a truncation leaves: its result, the inode, the volume and the list.
abbrev pub Shortened : Type 0
Shortened = Outcome (Unit {0}) × Inode × Edition × List ℕ

abbrev cleared : Inode → ℕ → Inode
cleared ip i = record ip { addr = update ip.addr i 0 }

whole_gone : Walk (List ℕ) → Edition → Inode → ℕ → Shortened
whole_gone (ok u, b) fs ip i = (ok tt, cleared ip i, fs, b)
whole_gone (err e, b) fs ip i = (err eio, ip, fs, b)

part_gone : Cut → Inode → Shortened
part_gone (ok u, fs, b) ip = (ok tt, ip, fs, b)
part_gone (err e, fs, b) ip = (err eio, ip, fs, b)

-- Slot `i`, which starts at block `lbn` of the file.
unfoldable pub shorten_slot : ℕ → ℕ → ℕ → Edition → Inode → List ℕ → Shortened
unfolding whole_gone part_gone
shorten_slot first lbn i fs ip b =
    let a = ip.addr i in
    let level = slot_level fs.desc ip.mode i in
    if leb (u32 (lbn + span fs.desc level)) first || a == 0
    then (ok tt, ip, fs, b)
    else elim level [
      | none ↦ (ok tt, cleared ip i, fs, a ∷ b)
      | some l ↦
          if leb first lbn
          then whole_gone (collect_subtree fs l a b) fs ip i
          else part_gone (collect_subtree_from l (first - lbn) fs a b) ip
    ]

-- The `left` slots from `i` on.
unfoldable pub shorten_slots : ℕ → ℕ → ℕ → ℕ → Edition → Inode → List ℕ → Shortened
unfolding shorten_slot
shorten_slots first zero lbn i fs ip b = (ok tt, ip, fs, b)
shorten_slots first (suc left) lbn i fs ip b =
    let next = u32 (lbn + span fs.desc (slot_level fs.desc ip.mode i)) in
    let (r, ip', fs', b') = shorten_slot first lbn i fs ip b in
    elim r [
      | ok u ↦ shorten_slots first left next (i + 1) fs' ip' b'
      | err e ↦ (err e, ip', fs', b')
    ]

unfoldable pub itrunc_from : Edition → Inode → ℕ → List ℕ → Shortened
unfolding shorten_slots
itrunc_from fs ip first b = shorten_slots first fs.desc.niaddr 0 0 fs ip b
