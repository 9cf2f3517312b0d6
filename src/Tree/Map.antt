-- ===== src/Tree/Map.antt =====
-- filsys_bmap: the block of the volume behind a block of a file, allocated on the way if asked to.
use filsys.Base.{ℕ, zero, suc, ◌+◌, ◌-◌, ◌/◌, ◌%◌, Bool, not, ◌&&◌}
use filsys.Base.{Bytes, zeros, u32, bit_or, ◌==◌, leb, ltb, if◌then◌else◌}
use filsys.Base.{Option, none, some, eio, efbig, Outcome, ok, err}
use filsys.Volume.{Desc, Edition, Step, read_block, write_block}
use filsys.Inode.{Inode}
use filsys.FreeList.{update}
use filsys.Alloc.{alloc}
use filsys.Tree.{ind_get, ind_put, is_large, slot_level, power, span}

-- ---- one step down

-- Entry `i` of block `blk`, which `buf` holds, gets a fresh block.
put_entry : Step ℕ → ℕ → Bytes → ℕ → Step ℕ
put_entry (err e, fs) blk buf i = (err e, fs)
put_entry (ok next, fs) blk buf i = written (write_block fs blk (ind_put fs.desc buf i next)) next
  where
    written : Step (Unit {0}) → ℕ → Step ℕ
    written (ok u, fs') next = (ok next, fs')
    written (err e, fs') next = (err eio, fs')

unfoldable pub entry_at : Edition → Bool → ℕ → ℕ → Step ℕ
unfolding put_entry
entry_at fs create blk i = elim (read_block fs blk) [
  | err e ↦ (err eio, fs)
  | ok buf ↦
      let next = ind_get fs.desc buf i in
      if next == 0 && create then put_entry ((alloc fs.desc).balloc fs) blk buf i else (ok next, fs)
]

-- What a walk returns, what the slot of the inode holds then, and the volume.
abbrev pub Found : Type 0
Found = Outcome ℕ × ℕ × Edition

-- An empty slot gets a fresh block.
unfoldable pub top_block : Edition → Bool → ℕ → Step ℕ
top_block fs create blk = if blk == 0 && create then (alloc fs.desc).balloc fs else (ok blk, fs)

-- One level: `next` takes the entry, and what the slot holds by then.
unfoldable pub step_down : Bool → ℕ → Edition → ℕ → ℕ → (Step ℕ → ℕ → Found) → Found
unfolding top_block entry_at
step_down create i fs slot blk next =
    let top = top_block fs create blk in
    if blk == 0 && not create then (ok 0, slot, fs) else elim top.0 [
      | err e ↦ (err e, slot, top.1)
      | ok b ↦ next (entry_at top.1 create b i) (if blk == 0 then b else slot)
    ]

unfoldable pub stop : Step ℕ → ℕ → Found
stop (out, fs) slot = (out, slot, fs)

unfoldable pub go_on : (Edition → ℕ → ℕ → Found) → Step ℕ → ℕ → Found
go_on rest (err e, fs) slot = (err e, slot, fs)
go_on rest (ok next, fs) slot = rest fs slot next

-- `bmap_ind_follow` with `left` levels to go, from level `L` on.
unfoldable pub descend : (ℕ → ℕ) → Bool → ℕ → ℕ → Edition → ℕ → ℕ → Found
unfolding step_down stop go_on
descend idx create zero L fs slot blk = (err eio, slot, fs)
descend idx create (suc zero) L fs slot blk = step_down create (idx L) fs slot blk stop
descend idx create (suc (suc k)) L fs slot blk =
    step_down create (idx L) fs slot blk (go_on (λ g s b. descend idx create (suc k) (L + 1) g s b))

-- The index at level `L` of block `r` of a subtree: `(r / div) % nindir`.
unfoldable pub index_at : Desc → ℕ → ℕ → ℕ → ℕ
index_at d level r L = r / power d (level - L) % d.nindir

-- ---- from a small file to a large one

-- The first `n` direct addresses become the entries of an indirect block.
unfoldable pub moved : Desc → (ℕ → ℕ) → ℕ → Bytes
moved d addr zero = zeros
moved d addr (suc i) = ind_put d (moved d addr i) i (addr i)

enlarged : Step (Unit {0}) → Inode → ℕ → Outcome (Unit {0}) × Inode × Edition
enlarged (err e, fs) ip iblk = (err eio, ip, fs)
enlarged (ok u, fs) ip iblk = (
  ok tt,
  record ip {
    addr = λ i. if i == 0 then iblk else if ltb i fs.desc.ndaddr then 0 else ip.addr i;
    mode = bit_or ip.mode fs.desc.ilarg_mask;
  },
  fs,
)

unfoldable pub promote : Edition → Inode → Outcome (Unit {0}) × Inode × Edition
unfolding moved enlarged
promote fs ip =
    let fresh = (alloc fs.desc).balloc fs in
    elim fresh.0 [
      | err e ↦ (err e, ip, fresh.1)
      | ok iblk ↦ enlarged (write_block fresh.1 iblk (moved fs.desc ip.addr fs.desc.ndaddr)) ip iblk
    ]

-- ---- the slot of a block

-- The slot that `lbn` falls in, of the `left` slots from `slot` on, with its place there.
unfoldable pub find_slot : Desc → ℕ → ℕ → ℕ → ℕ → ℕ → Option (ℕ × ℕ)
find_slot d mode lbn zero slot base = none
find_slot d mode lbn (suc left) slot base =
    let next = u32 (base + span d (slot_level d mode slot)) in
    let rest = find_slot d mode lbn left (slot + 1) next in
    if ltb lbn next then some (slot, lbn - base) else rest

-- What a call returns, with the inode and the volume.
abbrev pub Mapped : Type 0
Mapped = Outcome ℕ × Inode × Edition

abbrev with_addr : Inode → ℕ → ℕ → Inode
with_addr ip slot v = record ip { addr = update ip.addr slot v }

unfoldable pub direct_block : Edition → Inode → Bool → ℕ → Mapped
direct_block fs ip create slot =
    let nb = ip.addr slot in
    let fresh = (alloc fs.desc).balloc fs in
    if nb == 0 && create
    then (elim fresh.0 [
      | err e ↦ (err e, ip, fresh.1)
      | ok b ↦ (ok b, with_addr ip slot b, fresh.1)
    ])
    else (ok nb, ip, fs)

unfoldable pub slot_block : Edition → Inode → Bool → ℕ → ℕ → Mapped
unfolding descend index_at direct_block
slot_block fs ip create slot r = elim (slot_level fs.desc ip.mode slot) [
  | none ↦ direct_block fs ip create slot
  | some level ↦
      let (out, top, fs') =
        descend (index_at fs.desc level r) create (suc level) 0 fs (ip.addr slot) (ip.addr slot) in
      (out, with_addr ip slot top, fs')
]

unfoldable pub map_block : Edition → Inode → ℕ → Bool → Mapped
unfolding find_slot slot_block
map_block fs ip lbn create = elim (find_slot fs.desc ip.mode lbn fs.desc.niaddr 0 0) [
  | none ↦ ((if create then err efbig else ok 0), ip, fs)
  | some place ↦ slot_block fs ip create place.0 place.1
]

unfoldable pub bmap : Edition → Inode → ℕ → Bool → Mapped
unfolding promote map_block
bmap fs ip lbn create =
    let d = fs.desc in
    let large = promote fs ip in
    if not (d.ilarg_mask == 0) && not (is_large d ip.mode) && create && leb d.ndaddr lbn
    then (elim large.0 [
      | err e ↦ (err e, large.1, large.2)
      | ok u ↦ map_block large.2 large.1 lbn create
    ])
    else map_block fs ip lbn create
