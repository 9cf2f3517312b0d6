-- ===== src/Check/Free.antt =====
-- The walk of the checker over the free space (v7_walk_free of alloc_freelist.c and
-- v8_walk_free_bitmap of alloc_v8bitmap.c).
pub mod Found
pub mod Walk
pub mod Silent
pub mod Listed
use filsys.Base.{ℕ, zero, suc, ◌+◌, ◌-◌, Bool, true, false, not}
use filsys.Base.{Bytes, u16, u32, ◌==◌, ltb, leb, if◌then◌else◌, ◌∷◌, Option, none, some, ok, err}
use filsys.ByteOrder.Entries.{get_all}
use filsys.Volume.{Edition, list, read_block, data_first}
use filsys.FreeList.{daddr, df_nfree, chain_free_off, outside_data}
use filsys.Bitmap.{bit_at, set_bit}
use filsys.Check.{Context, Report, Message, inc, free_out_of_range, free_twice, free_used}
use filsys.Check.{free_endless, no_free_block, bad_count}

-- The context and the report, which the walk changes both.
abbrev pub Tally : Type 0
Tally = Context × Report

-- A problem that the report counts.
abbrev pub report : Message → Tally → Tally
report msg (cx, rep) = (record cx { log = msg ∷ cx.log }, record rep { errors = inc rep.errors })

-- A free block that is marked already is in use.
unfoldable pub mark_free : Edition → ℕ → Tally → Tally
mark_free fs bno (cx, rep) =
    let off = bno - data_first fs in
    if bit_at cx.bmap off
    then report (free_used bno) (record cx { dup_blocks = inc cx.dup_blocks }, rep)
    else (
      record cx { bmap = set_bit cx.bmap off },
      record rep { free_blocks = inc rep.free_blocks },
    )

-- The next segment, its count in a `uint16_t`; `none` when the count is refused.
unfoldable pub walk_segment : Edition → Bytes → (ℕ → ℕ) → Option (ℕ × (ℕ → ℕ))
walk_segment fs blk cur =
    let n = u16 ((df_nfree fs.desc).get blk 0) in
    if ltb fs.desc.nicfree n
    then none
    else some (n, get_all (daddr fs.desc) blk (chain_free_off fs.desc) fs.desc.nicfree cur)

-- `seen[bno] = 1`
abbrev pub see : (ℕ → Bool) → ℕ → ℕ → Bool
see seen bno x = if x == bno then true else seen x

-- The loop, with `left` rounds before its guard stops it.
unfoldable pub walk_list : Edition → ℕ → ℕ → (ℕ → ℕ) → (ℕ → Bool) → Tally → Tally
walk_list fs zero n cur seen t = t
walk_list fs (suc left) zero cur seen t = t
walk_list fs (suc left) (suc n) cur seen t =
    let bno = cur n in
    let t' = mark_free fs bno t in
    let more = walk_list fs left n cur (see seen bno) t' in
    if bno == 0
    then t
    else if outside_data fs bno
    then report (free_out_of_range bno) t
    else if seen bno
    then report (free_twice bno) t
    else if left == 0
    then report free_endless t'
    else if not (n == 0)
    then more
    else elim (read_block fs bno) [
      | err e ↦ report (no_free_block bno) t'
      | ok blk ↦ elim (walk_segment fs blk cur) [
        | none ↦ report (bad_count bno (u16 ((df_nfree fs.desc).get blk 0))) t'
        | some s ↦ walk_list fs left s.0 s.1 (see seen bno) t'
      ]
    ]

-- One bit of the map; the blocks in front of the data are never free.
unfoldable pub walk_bit : Edition → ℕ → Tally → Tally
walk_bit fs i t =
    let blk = u32 (fs.v8_base + i) in
    if not (bit_at fs.v8_bits i) then t else if outside_data fs blk then t else mark_free fs blk t

-- The bits below `n`, in order.
unfoldable pub walk_bitmap : Edition → ℕ → Tally → Tally
walk_bitmap fs zero t = t
walk_bitmap fs (suc i) t = walk_bit fs i (walk_bitmap fs i t)

unfoldable pub walk_free : Edition → Tally → Tally
walk_free fs t = elim fs.desc.freemap [
  | list ↦ walk_list fs (u32 (fs.fsize + fs.desc.nicfree) + 1) fs.fl.nfree fs.fl.free (λ _. false) t
  | _ ↦ walk_bitmap fs fs.v8_nbits t
]
