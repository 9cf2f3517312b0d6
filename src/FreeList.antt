-- ===== src/FreeList.antt =====
-- alloc_freelist.c: the free-list allocator. The cache `free[0..nfree)` is a stack whose bottom
-- entry is a block of the volume that holds the next segment; block 0 ends the chain.
-- The messages of the check and the instrumentation calls are not modelled.
pub mod Bounds
pub mod Chain
pub mod Frame
pub mod Pop
pub mod Cache
pub mod Dump
pub mod Push
pub mod Search
pub mod Count
use filsys.Base.{ℕ, zero, suc, ◌+◌, ◌-◌, Bool, true, false, not, ◌||◌}
use filsys.Base.{Bytes, zeros, u16, u32, bit_and, ◌==◌, leb, ltb, if◌then◌else◌}
use filsys.Base.{eio, enospc, ok, err, Option, none, some}
use filsys.ByteOrder.{le}
use filsys.ByteOrder.Entries.{Codec, codec16, codec32, put_all, get_all}
use filsys.Volume.{Desc, Edition, Freelist, Step, read_block, write_block, data_first, maxinode}
use filsys.Super.{fb_free_off, super_write}
use filsys.Inode.{blank, read_inode, write_inode}

-- `a[i] = v`
abbrev pub update : (ℕ → ℕ) → ℕ → ℕ → ℕ → ℕ
update a i v j = if j == i then v else a j

abbrev pub with_fl : Edition → Freelist → Edition
with_fl fs fl = record fs { fl = fl }

-- `v7_get_daddr` and `v7_put_daddr`
abbrev pub daddr : Desc → Codec
daddr d = if d.daddr_wid == 2 then codec16 le else codec32 d.bo

-- `v7_chain_free_off`
abbrev pub chain_free_off : Desc → ℕ
chain_free_off d = if d.df_nfree_wid == 4 then 4 else fb_free_off d.pack4

-- The count of a chain block.
abbrev pub df_nfree : Desc → Codec
df_nfree d = if d.df_nfree_wid == 4 then codec32 d.bo else codec16 d.bo

abbrev pub outside_data : Edition → ℕ → Bool
outside_data fs bno = ltb bno (data_first fs) || leb fs.fsize bno

-- ---- allocation of a block

-- The next segment goes from the chain block into the cache. `nfree` is a `uint16_t`.
unfoldable pub load_chain : Edition → Bytes → Edition
load_chain fs buf =
    let d = fs.desc in
    with_fl fs (record fs.fl {
      nfree = u16 ((df_nfree d).get buf 0);
      free = get_all (daddr d) buf (chain_free_off d) d.nicfree fs.fl.free;
    })

unfoldable pub as_eio : Step (Unit {0}) → Step (Unit {0})
as_eio (ok u, fs) = (ok tt, fs)
as_eio (err e, fs) = (err eio, fs)

unfoldable pub reload : Edition → ℕ → Step (Unit {0})
reload fs blk = elim (read_block fs blk) [
  | ok buf ↦ as_eio (super_write (load_chain fs buf))
  | err e ↦ (err eio, fs)
]

-- The block was zeroed: count it and leave the superblock to be flushed.
unfoldable pub hand_out : Step (Unit {0}) → ℕ → Step ℕ
hand_out (ok u, fs) blk = (
  ok blk,
  record fs {
    fl = record fs.fl { tfree = if fs.fl.tfree == 0 then fs.fl.tfree else fs.fl.tfree - 1 };
    fl_dirty = true;
  },
)
hand_out (err e, fs) blk = (err eio, fs)

unfoldable pub take_block : Step (Unit {0}) → ℕ → Step ℕ
take_block (ok u, fs) blk = hand_out (write_block fs blk zeros) blk
take_block (err e, fs) blk = (err e, fs)

unfoldable pub balloc : Edition → Step ℕ
balloc fs =
    let top = fs.fl.nfree - 1 in
    let blk = fs.fl.free top in
    let popped = with_fl fs (record fs.fl { nfree = top }) in
    if fs.fl.nfree == 0
    then (err enospc, fs)
    else if blk == 0
    then (err enospc, popped)
    else if outside_data fs blk
    then (err eio, popped)
    else take_block (if top == 0 then reload popped blk else (ok tt, popped)) blk

-- ---- release of a block

-- `free[nfree++] = bno; tfree++`
unfoldable pub push_cache : Edition → ℕ → Edition
push_cache fs bno = with_fl fs (record fs.fl {
  nfree = u16 (fs.fl.nfree + 1);
  free = update fs.fl.free fs.fl.nfree bno;
  tfree = u32 (fs.fl.tfree + 1);
})

-- The cache as a chain block.
unfoldable pub chain_block : Edition → Bytes
chain_block fs =
    let d = fs.desc in
    put_all (daddr d) ((df_nfree d).put zeros 0 fs.fl.nfree) (chain_free_off d) d.nicfree fs.fl.free

-- A failed dump leaks the block and keeps the cache.
unfoldable pub after_dump : Step (Unit {0}) → ℕ → Edition
after_dump (ok u, fs) bno = push_cache (with_fl fs (record fs.fl { nfree = 0 })) bno
after_dump (err e, fs) bno = fs

unfoldable pub push_block : Edition → ℕ → Edition
push_block fs bno =
    if leb fs.desc.nicfree fs.fl.nfree
    then after_dump (write_block fs bno (chain_block fs)) bno
    else push_cache fs bno

-- An empty cache gets the end mark first.
unfoldable pub primed : Edition → Edition
primed fs =
    if fs.fl.nfree == 0
    then with_fl fs (record fs.fl { nfree = 1; free = update fs.fl.free 0 0 })
    else fs

unfoldable pub bfree : Edition → ℕ → Edition
bfree fs bno = if outside_data fs bno then fs else push_block (primed fs) bno

-- ---- inodes

-- `inode_live`
abbrev pub inode_live : Desc → ℕ → Bool
inode_live d mode =
    if d.iallocated == 0 then not (mode == 0) else not (bit_and mode d.iallocated == 0)

unfoldable pub ifree : Edition → ℕ → Edition
ifree fs ino =
    if leb fs.desc.nicinod fs.fl.ninode
    then fs
    else with_fl fs (record fs.fl {
      ninode = u16 (fs.fl.ninode + 1);
      inode = update fs.fl.inode fs.fl.ninode (u16 ino);
      tinode = u32 (fs.fl.tinode + 1);
    })

-- The refill scan, with `left` inodes to look at from `ino` on.
unfoldable pub refill : ℕ → ℕ → Edition → Step (Unit {0})
refill zero ino fs = (ok tt, fs)
refill (suc left) ino fs =
    let kept = with_fl fs (record fs.fl {
      ninode = u16 (fs.fl.ninode + 1);
      inode = update fs.fl.inode fs.fl.ninode (u16 ino);
    }) in
    elim (leb fs.desc.nicinod fs.fl.ninode) [
      | true ↦ (ok tt, fs)
      | false ↦ elim (read_inode fs ino) [
        | err e ↦ (err eio, fs)
        | ok ip ↦ refill left (ino + 1) (if inode_live fs.desc ip.mode then fs else kept)
      ]
    ]

-- A candidate was claimed: its slot is cleared, whatever that write returns.
unfoldable pub claim : Edition → ℕ → Edition
claim fs cand =
    let fs' = (write_inode fs cand (blank cand)).1 in
    record fs' {
      fl = record fs'.fl {
        tinode = if fs'.fl.tinode == 0 then fs'.fl.tinode else fs'.fl.tinode - 1;
      };
      fl_dirty = true;
    }

-- What a turn of the loop does: go on, or return.
pub data Turn : Type 0 where
  again : Edition → Turn
  done : Step ℕ → Turn

unfoldable pub try_cached : Edition → Turn
unfolding claim
try_cached fs =
    let top = fs.fl.ninode - 1 in
    let cand = fs.fl.inode top in
    let popped = with_fl fs (record fs.fl { ninode = top }) in
    if ltb cand 2 || ltb (maxinode fs) cand then again popped else elim (read_inode popped cand) [
      | err e ↦ done (err eio, popped)
      | ok ip ↦
          if inode_live fs.desc ip.mode then again popped else done (ok cand, claim popped cand)
    ]

after_refill : Step (Unit {0}) → Turn
after_refill (err e, fs) = done (err e, fs)
after_refill (ok u, fs) = if fs.fl.ninode == 0 then done (err enospc, fs) else again fs

unfoldable pub ialloc_turn : Edition → Turn
unfolding try_cached refill after_refill
ialloc_turn fs =
    if ltb 0 fs.fl.ninode
    then try_cached fs
    else after_refill (refill (maxinode fs - 1) 2 (with_fl fs (record fs.fl { ninode = 0 })))

-- `for (;;)`, on fuel; `none` means that the fuel ran out.
unfoldable pub ialloc : ℕ → Edition → Option (Step ℕ)
unfolding ialloc_turn
ialloc zero fs = none
ialloc (suc fuel) fs = elim (ialloc_turn fs) [ again fs' ↦ ialloc fuel fs' | done r ↦ some r ]
