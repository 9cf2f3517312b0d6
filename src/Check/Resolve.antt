-- ===== src/Check/Resolve.antt =====
-- filsys_resolve_dups of check.c, which gives a block of its own to every direct address that names a
-- claimed block, and filsys_ncheck, which finds the names of an inode.
use filsys.Base.{ℕ, zero, suc, ◌+◌, ◌-◌, Bool, true, false, not, ◌||◌}
use filsys.Base.{◌==◌, ltb, leb, if◌then◌else◌, List, [], ◌∷◌, ◌++◌, Name, length, same_name}
use filsys.Base.{ok, err, none, some, is_ok}
use filsys.Volume.{Edition, read_block, write_block, maxinode, data_first}
use filsys.Inode.{Inode}
use filsys.FreeList.{update}
use filsys.Bitmap.{bit_at, set_bit}
use filsys.Alloc.{alloc}
use filsys.Tree.{slot_level}
use filsys.Engine.{mode_is_dir, mode_is_device, Entry, dot, dotdot}
use filsys.Check.{Context, bad_block, inc, data_end}
use filsys.Check.Mark.{mark_tree}
use filsys.Check.Driver.{CheckOps, fresh}

-- `struct dup`
pub record Dup : Type 0 where
  pub blk : ℕ
  pub owner : ℕ
  pub idx : ℕ

-- ---- the search for duplicates, the latest first

-- A direct address.
unfoldable pub claim_direct : Edition → ℕ → ℕ → ℕ → Context × List Dup → Context × List Dup
claim_direct fs ino i a (cx, dups) =
    let off = a - data_first fs in
    if ltb a (data_first fs) || leb (data_end fs) a
    then (record cx { log = bad_block a ino ∷ cx.log }, dups)
    else if bit_at cx.bmap off
    then (cx, record { blk = a; owner = ino; idx = i } ∷ dups)
    else (record cx { bmap = set_bit cx.bmap off; used_blocks = inc cx.used_blocks }, dups)

unfoldable pub claim_slot : Edition → Inode → ℕ → ℕ → Context × List Dup → Context × List Dup
claim_slot fs ip ino i c =
    let a = ip.addr i in
    if a == 0 then c else elim (slot_level fs.desc ip.mode i) [
      | none ↦ claim_direct fs ino i a c
      | some level ↦ (mark_tree fs level a c.0, c.1)
    ]

-- The slots below `n`, in order.
unfoldable pub claim_slots : Edition → Inode → ℕ → ℕ → Context × List Dup → Context × List Dup
claim_slots fs ip ino zero c = c
claim_slots fs ip ino (suc i) c = claim_slot fs ip ino i (claim_slots fs ip ino i c)

-- A path of at most 1023 bytes, as snprintf writes it.
unfoldable pub cut_path : ℕ → Name → Name
cut_path zero p = []
cut_path (suc left) [] = []
cut_path (suc left) (c ∷ p) = c ∷ cut_path left p

-- `/name` below the root, and `prefix/name`
unfoldable pub join_path : Name → Name → Name
join_path prefix name =
    cut_path 1023 (if length prefix == 1 then 47 ∷ name else prefix ++ (47 ∷ name))

module _ (o : CheckOps) where
  open o use {engine, makefree}

  -- The inodes 1 to `n`, in order.
  unfoldable pub claim_inodes : Edition → ℕ → Context × List Dup → Context × List Dup
  claim_inodes fs zero c = c
  claim_inodes fs (suc n) c =
      let before = claim_inodes fs n c in
      elim (engine.read_inode fs (suc n)) [
        | err e ↦ before
        | ok ip ↦
            if ip.mode == 0 || mode_is_device fs.desc ip
            then before
            else claim_slots fs ip (suc n) fs.desc.niaddr
                (record before.0 { ino = suc n }, before.1)
      ]

  -- The block `nb` was allocated for the duplicate: it gets a copy, and the inode its number. The
  -- result of the write of the inode is dropped.
  unfoldable pub copy_block : Dup → Inode → ℕ → Context → Edition → Bool × Context × Edition
  copy_block d ip nb cx fs = elim (read_block fs d.blk) [
    | err e ↦ (false, cx, fs)
    | ok buf ↦
        let w = write_block fs nb buf in
        let ip' = record ip { addr = update ip.addr d.idx nb } in
        if is_ok w.0
        then (
          true,
          record cx { bmap = set_bit cx.bmap (nb - data_first fs) },
          (engine.write_inode w.1 d.owner ip').1,
        )
        else (false, cx, w.1)
  ]

  unfoldable pub resolve_dup : Dup → Context → Edition → Bool × Context × Edition
  resolve_dup d cx fs = elim (engine.read_inode fs d.owner) [
    | err e ↦ (false, cx, fs)
    | ok ip ↦
        if not (ip.addr d.idx == d.blk)
        then (false, cx, fs)
        else (let a = (alloc fs.desc).balloc fs in
            elim a.0 [ err e ↦ (false, cx, a.1) | ok nb ↦ copy_block d ip nb cx a.1 ])
  ]

  -- The duplicates, the first found first; and how many of them were resolved.
  unfoldable pub resolve_each : List Dup → Context → Edition → ℕ × Context × Edition
  resolve_each [] cx fs = (0, cx, fs)
  resolve_each (d ∷ dups) cx fs =
      let (k, cx', fs') = resolve_each dups cx fs in
      let (did, cx'', fs'') = resolve_dup d cx' fs' in ((if did then k + 1 else k), cx'', fs'')

  -- `true` for the return value 0, and the volume.
  unfoldable pub resolve_dups : Edition → Bool × Edition
  resolve_dups fs =
      let found = claim_inodes fs (maxinode fs) ((fresh fs).0, []) in
      let r = resolve_each found.1 found.0 (makefree fs found.0).1 in
      if length found.1 == 0 then (true, fs) else (r.0 == length found.1, (makefree r.2 r.1).1)

  -- ---- ncheck

  -- The names in `entries` that stand for `target`, and those below the entries.
  unfoldable pub names_among : (ℕ → Name → List Name) → ℕ → Name → List Entry → List Name
  names_among below target prefix [] = []
  names_among below target prefix ((ino, name) ∷ more) =
      let rest = names_among below target prefix more in
      let path = join_path prefix name in
      if ino == 0 || same_name name dot || same_name name dotdot
      then rest
      else (if ino == target then path ∷ [] else []) ++ below ino path ++ rest

  unfoldable pub is_directory : Edition → ℕ → Bool
  is_directory fs ino = elim (engine.read_inode fs ino) [
    | err e ↦ false
    | ok ip ↦ mode_is_dir fs.desc ip
  ]

  -- The paths that are printed, with the levels of directories left.
  unfoldable pub ncheck_dir : Edition → ℕ → ℕ → Name → ℕ → List Name
  ncheck_dir fs target zero prefix dirino = []
  ncheck_dir fs target (suc left) prefix dirino = elim (engine.read_inode fs dirino) [
    | err e ↦ []
    | ok ip ↦
        if not (mode_is_dir fs.desc ip)
        then []
        else names_among
            (λ ino path. if is_directory fs ino then ncheck_dir fs target left path ino else [])
            target prefix (engine.dir_iter fs ip).0
  ]

  -- Directories to the depth of 64 are searched.
  unfoldable pub ncheck : Edition → ℕ → List Name
  ncheck fs ino = ncheck_dir fs ino 65 (47 ∷ []) fs.desc.rootino
