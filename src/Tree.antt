-- ===== src/Tree.antt =====
-- blocktree.c: the slots of an inode, the walk from a block of a file to a block of the volume, and
-- the collection and the count of the blocks below an inode.
-- The ownership instrumentation and the failure of the heap are not modelled.
pub mod Collect
pub mod Map
pub mod Lookup
pub mod Drain
pub mod Reference
pub mod Tail
pub mod Slots
use filsys.Base.{ℕ, zero, suc, ◌+◌, ◌-◌, ◌*◌, ◌/◌, ◌%◌, Bool, true, false, not, ◌&&◌, ◌||◌}
use filsys.Base.{Bytes, zeros, u16, u32, bit_and, bit_or, ◌==◌, ltb, if◌then◌else◌}
use filsys.Base.{Option, none, some, List, [], ◌∷◌, eio, efbig, Outcome, ok, err, Errno}
use filsys.ByteOrder.{le, get16, put16, get32, put32}
use filsys.Volume.{Desc, Edition, Step, read_block, write_block}
use filsys.Inode.{Inode}
use filsys.FreeList.{update}
use filsys.Alloc.{Allocator, alloc}

-- ---- the entries of an indirect block, and the slots of an inode

-- `v7_ind_get`; the descriptors of the V7 engine do not override it.
unfoldable pub ind_get : Desc → Bytes → ℕ → ℕ
ind_get d buf i = if d.daddr_wid == 2 then get16 le buf (2 * i) else get32 d.bo buf (4 * i)

unfoldable pub ind_put : Desc → Bytes → ℕ → ℕ → Bytes
ind_put d buf i v =
    if d.daddr_wid == 2 then put16 le buf (2 * i) (u16 v) else put32 d.bo buf (4 * i) v

-- `mode & desc.ilarg_mask`, for an edition that has the bit
abbrev pub is_large : Desc → ℕ → Bool
is_large d mode = not (d.ilarg_mask == 0) && not (bit_and mode d.ilarg_mask == 0)

-- The level of an address slot; `none` is -1, a direct slot.
unfoldable pub slot_level : Desc → ℕ → ℕ → Option ℕ
slot_level d mode slot =
    if is_large d mode
    then (if ltb slot d.large_single
        then some 0
        else if ltb slot (d.large_single + d.large_double)
        then some 1
        else none)
    else if ltb slot d.ndaddr
    then none
    else some (slot - d.ndaddr)

-- `nindir` to the power of `n`, on `uint32_t`
unfoldable pub power : Desc → ℕ → ℕ
power d zero = 1
power d (suc n) = u32 (power d n * d.nindir)

-- `slot_span`, with the span 1 that its callers take for a direct slot
unfoldable pub span : Desc → Option ℕ → ℕ
span d none = 1
span d (some level) = power d (suc level)

-- `is_data_inode`; the V7 engine has no `is_device`.
unfoldable pub is_data_inode : Desc → Inode → Bool
is_data_inode d ip =
    let t = bit_and ip.mode d.ifmt in
    t == d.ifreg || t == d.ifdir || (not (d.iflnk == 0) && t == d.iflnk)

-- ---- the walks over a whole subtree

-- A walk that may fail, with what it gathered so far.
abbrev pub Walk : Type 0 → Type 0
Walk A = Outcome (Unit {0}) × A

-- One entry, after the entries before it: 0 is a hole.
unfoldable pub visit : {A : Type 0} → (ℕ → A → Walk A) → ℕ → Walk A → Walk A
visit child zero (ok u, a) = (ok tt, a)
visit child (suc nb) (ok u, a) = child (suc nb) a
visit child nb (err e, a) = (err e, a)

-- `for (i = 0; i < n; i++)` over the entries, up to the first failure
unfoldable pub each_entry : {A : Type 0} → (ℕ → A → Walk A) → (ℕ → ℕ) → ℕ → A → Walk A
unfolding visit
each_entry child entry zero a = (ok tt, a)
each_entry child entry (suc i) a = visit child (entry i) (each_entry child entry i a)

-- A list of collected blocks, the latest first.
abbrev pub push : ℕ → List ℕ → Walk (List ℕ)
push bno b = (ok tt, bno ∷ b)

unfoldable pub push_last : ℕ → Walk (List ℕ) → Walk (List ℕ)
push_last blk (ok u, b) = push blk b
push_last blk (err e, b) = (err eio, b)

unfoldable pub collect_subtree : Edition → ℕ → ℕ → List ℕ → Walk (List ℕ)
unfolding each_entry push_last
collect_subtree fs level zero b = (ok tt, b)
collect_subtree fs zero (suc blk) b = elim (read_block fs (suc blk)) [
  | err e ↦ (err eio, b)
  | ok buf ↦ push_last (suc blk) (each_entry push (ind_get fs.desc buf) fs.desc.nindir b)
]
collect_subtree fs (suc level) (suc blk) b = elim (read_block fs (suc blk)) [
  | err e ↦ (err eio, b)
  | ok buf ↦
      push_last (suc blk)
        (each_entry (collect_subtree fs level) (ind_get fs.desc buf) fs.desc.nindir b)
]

-- `n++`
abbrev pub tick : ℕ → ℕ → Walk ℕ
tick bno n = (ok tt, n + 1)

-- The count of the subtree is added to `n`; the accumulator of the source starts at 1 in a subtree.
unfoldable pub add_count : Outcome ℕ → ℕ → Walk ℕ
add_count (ok subn) n = (ok tt, n + subn)
add_count (err e) n = (err e, n)

unfoldable pub counted : Walk ℕ → Outcome ℕ
counted (ok u, n) = ok n
counted (err e, n) = err e

unfoldable pub count_indirect : Edition → ℕ → ℕ → Outcome ℕ
unfolding each_entry add_count counted
count_indirect fs levels zero = ok 0
count_indirect fs zero (suc blk) = elim (read_block fs (suc blk)) [
  | err e ↦ err eio
  | ok buf ↦ counted (each_entry tick (ind_get fs.desc buf) fs.desc.nindir 1)
]
count_indirect fs (suc levels) (suc blk) = elim (read_block fs (suc blk)) [
  | err e ↦ err eio
  | ok buf ↦ counted (
      each_entry (λ sub n. add_count (count_indirect fs levels sub) n) (ind_get fs.desc buf)
        fs.desc.nindir 1)
]

-- ---- truncation to nothing, and the count of blocks, over the slots of an inode

-- Slot `i` gives up its blocks. On a failure the address is already cleared in core.
unfoldable pub trunc_slot : Edition → ℕ → Inode → List ℕ → Outcome (Unit {0}) × Inode × List ℕ
trunc_slot fs i ip b =
    let bn = ip.addr i in
    let ip' = record ip { addr = update ip.addr i 0 } in
    if bn == 0 then (ok tt, ip, b) else elim (slot_level fs.desc ip.mode i) [
      | none ↦ (ok tt, ip', bn ∷ b)
      | some level ↦ let r = collect_subtree fs level bn b in (r.0, ip', r.1)
    ]

-- The slots below `n`, the highest first.
unfoldable pub trunc_slots : Edition → ℕ → Inode → List ℕ → Outcome (Unit {0}) × Inode × List ℕ
unfolding trunc_slot
trunc_slots fs zero ip b = (ok tt, ip, b)
trunc_slots fs (suc i) ip b =
    let (r, ip', b') = trunc_slot fs i ip b in
    elim r [ ok u ↦ trunc_slots fs i ip' b' | err e ↦ (err e, ip', b') ]

unfoldable pub shrunk : Outcome (Unit {0}) × Inode × List ℕ → Outcome (Unit {0}) × Inode × List ℕ
shrunk (ok u, ip, b) = (ok tt, record ip { size = 0 }, b)
shrunk (err e, ip, b) = (err e, ip, b)

unfoldable pub itrunc : Edition → Inode → List ℕ → Outcome (Unit {0}) × Inode × List ℕ
unfolding trunc_slots shrunk
itrunc fs ip b =
    if is_data_inode fs.desc ip then shrunk (trunc_slots fs fs.desc.niaddr ip b) else (ok tt, ip, b)

unfoldable pub count_slot : Edition → Inode → ℕ → Walk ℕ → Walk ℕ
count_slot fs ip i (err e, n) = (err e, n)
count_slot fs ip i (ok u, n) =
    if ip.addr i == 0 then (ok tt, n) else elim (slot_level fs.desc ip.mode i) [
      | none ↦ tick (ip.addr i) n
      | some level ↦ add_count (count_indirect fs level (ip.addr i)) n
    ]

unfoldable pub count_slots : Edition → Inode → ℕ → Walk ℕ
unfolding count_slot
count_slots fs ip zero = (ok tt, 0)
count_slots fs ip (suc i) = count_slot fs ip i (count_slots fs ip i)

unfoldable pub allocated_blocks : Edition → Inode → Outcome ℕ
unfolding count_slots counted
allocated_blocks fs ip =
    if is_data_inode fs.desc ip then counted (count_slots fs ip fs.desc.niaddr) else ok 0

-- `filsys_blklist_drain`: the blocks are released in the order in which they were collected.
unfoldable pub drain : Edition → List ℕ → Edition
drain fs [] = fs
drain fs (bno ∷ b) = let fs' = drain fs b in (alloc fs'.desc).bfree fs' bno
