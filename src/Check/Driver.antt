-- ===== src/Check/Driver.antt =====
-- filsys_check_common of check.c: the phases of the check and how they are put together, over the
-- table of an edition. The synthesized dot entries (`synth_dot`) are of the PDP-7 alone.
pub mod Scan
pub mod Sound
pub mod Links
use filsys.Base.{ℕ, zero, suc, ◌+◌, ◌-◌, ◌*◌, Bool, true, false, not, ◌&&◌, ◌||◌}
use filsys.Base.{zeros, u32, ◌==◌, ltb, leb, if◌then◌else◌, List, [], ◌∷◌, Name, Option, none, some}
use filsys.Base.{Outcome, ok, err, Errno}
use filsys.Volume.{Edition, list, maxinode, data_first}
use filsys.Inode.{Inode}
use filsys.FreeList.{update}
use filsys.Bitmap.{bit_at, sub32}
use filsys.Engine.{Ops, mode_is_dir, Entry}
use filsys.Check.{Context, Report, Message, Kind, unalloc, unknown, idir, ireg, ichr, iblk, ipipe}
use filsys.Check.{in_allocated, inc, data_end, no_inode, unknown_type, wrong_tfree, wrong_tinode}
use filsys.Check.{bad_entry, entry_of_free, unreferenced, wrong_links, bad_superblock}
use filsys.Check.Mark.{mark_blocks}
use filsys.Check.Free.{Tally, report, walk_free}

-- What the check calls of the table of an edition, beside what the engine calls.
pub record CheckOps : Type 0 where
  pub engine : Ops
  pub inode_state : ℕ → Kind
  pub is_clean : Edition → Bool
  pub makefree : Edition → Context → ℕ × Edition

-- `FILSYS_CK_*`, the bits of the mode
pub record Mode : Type 0 where
  pub salvage : Bool
  pub preen : Bool
  pub force : Bool
  pub yes_all : Bool
  pub ask : Bool

-- `kinds[i] = k`
abbrev pub set_kind : (ℕ → Kind) → ℕ → Kind → ℕ → Kind
set_kind kinds i k j = if j == i then k else kinds j

-- What pass 1 gathers: `cx`, `*rep`, and `state`.
pub record Pass : Type 0 where
  pub tally : Tally
  pub kinds : ℕ → Kind

-- ---- pass 1: the blocks of every inode

-- Whether the addresses of an inode of that kind are blocks.
abbrev pub has_blocks : Kind → Bool
has_blocks ichr = false
has_blocks iblk = false
has_blocks other = true

-- The inode was read, and its kind is `st`.
unfoldable pub scan_kind : Edition → ℕ → Inode → Kind → Tally → Tally
scan_kind fs ino ip unalloc t = t
scan_kind fs ino ip unknown (cx, rep) =
    report (unknown_type ino ip.mode) (cx, record rep { used_inodes = inc rep.used_inodes })
scan_kind fs ino ip st (cx, rep) =
    let rep' = record rep { used_inodes = inc rep.used_inodes } in
    if has_blocks st then (mark_blocks fs ip (record cx { ino = ino }), rep') else (cx, rep')

module _ (o : CheckOps) where
  unfoldable pub scan_inode : Edition → ℕ → Pass → Pass
  scan_inode fs ino p = elim (o.engine.read_inode fs ino) [
    | err e ↦ record p { tally = report (no_inode ino) p.tally }
    | ok ip ↦
        let st = o.inode_state ip.mode in
        record { tally = scan_kind fs ino ip st p.tally; kinds = set_kind p.kinds ino st }
  ]

  -- The inodes 1 to `n`, in order.
  unfoldable pub scan_inodes : Edition → ℕ → Pass → Pass
  scan_inodes fs zero p = p
  scan_inodes fs (suc n) p = scan_inode fs (suc n) (scan_inodes fs n p)

-- ---- the blocks that are neither used nor free

unfoldable pub count_missing : Context → ℕ → Report → Report
count_missing cx zero rep = rep
count_missing cx (suc off) rep =
    let before = count_missing cx off rep in
    if bit_at cx.bmap off
    then before
    else record before { missing_blocks = inc before.missing_blocks; errors = inc before.errors }

-- ---- the totals of the superblock

-- The editions whose superblock keeps them.
unfoldable pub has_totals : Edition → Bool
has_totals fs =
    (elim fs.desc.freemap [ list ↦ true | _ ↦ false ])
    && not fs.desc.v8_super
    && not fs.desc.isize_count
    && (not fs.desc.pack4 || not (fs.desc.magic == 0))

unfoldable pub check_tfree : Edition → Tally → Tally
check_tfree fs t =
    if t.1.free_blocks == fs.fl.tfree then t else report (wrong_tfree t.1.free_blocks fs.fl.tfree) t

unfoldable pub check_tinode : Edition → Tally → Tally
check_tinode fs t =
    let n = sub32 t.1.inodes t.1.used_inodes in
    if n == fs.fl.tinode then t else report (wrong_tinode n fs.fl.tinode) t

unfoldable pub check_totals : Edition → Tally → Tally
check_totals fs t = if has_totals fs then check_tinode fs (check_tfree fs t) else t

-- ---- dcheck: the entries that name each inode

-- `ecount[dno]++` on `uint8_t`, which stays at 255
abbrev pub bump : (ℕ → ℕ) → ℕ → ℕ → ℕ
bump ecount dno = update ecount dno (if ecount dno == 255 then 255 else ecount dno + 1)

unfoldable pub count_entries : (ℕ → Kind) → ℕ → ℕ → List Entry → (ℕ → ℕ) × Tally → (ℕ → ℕ) × Tally
count_entries kinds maxino dir [] c = c
count_entries kinds maxino dir ((dno, name) ∷ more) (ecount, t) =
    count_entries kinds maxino dir more (
      if dno == 0
      then (ecount, t)
      else if ltb maxino dno
      then (ecount, report (bad_entry dno dir name) t)
      else (
        bump ecount dno,
        if in_allocated (kinds dno) then t else report (entry_of_free dir dno) t,
      ))

unfoldable pub is_idir : Kind → Bool
is_idir idir = true
is_idir other = false

module _ (o : CheckOps) where
  unfoldable pub count_dir : Edition → (ℕ → Kind) → ℕ → ℕ → (ℕ → ℕ) × Tally → (ℕ → ℕ) × Tally
  count_dir fs kinds maxino ino c = elim (o.engine.read_inode fs ino) [
    | err e ↦ c
    | ok ip ↦
        if is_idir (kinds ino)
        then count_entries kinds maxino ino (o.engine.dir_iter fs ip).0 c
        else c
  ]

  -- The directories among the inodes 1 to `n`.
  unfoldable pub count_dirs : Edition → (ℕ → Kind) → ℕ → ℕ → (ℕ → ℕ) × Tally → (ℕ → ℕ) × Tally
  count_dirs fs kinds maxino zero c = c
  count_dirs fs kinds maxino (suc n) c =
      count_dir fs kinds maxino (suc n) (count_dirs fs kinds maxino n c)

unfoldable pub is_orphan : Edition → Kind → Inode → ℕ → ℕ → Bool
is_orphan fs kind ip ino cnt =
    in_allocated kind
    && not (mode_is_dir fs.desc ip)
    && cnt == 0
    && not (ino == fs.desc.rootino)
    && not (ino == fs.desc.badino)

module _ (o : CheckOps) where
  unfoldable pub check_link : Edition → (ℕ → Kind) → (ℕ → ℕ) → ℕ → Tally → Tally
  check_link fs kinds ecount ino t = elim (o.engine.read_inode fs ino) [
    | err e ↦ t
    | ok ip ↦
        let cnt = ecount ino in
        if is_orphan fs (kinds ino) ip ino cnt
        then report (unreferenced ino ip.nlink) (t.0, record t.1 { orphaned = inc t.1.orphaned })
        else if cnt == ip.nlink
        then t
        else if not (in_allocated (kinds ino)) && cnt == 0
        then t
        else report (wrong_links ino cnt ip.nlink) t
  ]

  -- The inodes 1 to `n`, in order.
  unfoldable pub check_links : Edition → (ℕ → Kind) → (ℕ → ℕ) → ℕ → Tally → Tally
  check_links fs kinds ecount zero t = t
  check_links fs kinds ecount (suc n) t =
      check_link fs kinds ecount (suc n) (check_links fs kinds ecount n t)

-- ---- the phases

-- The context and the report at the start.
abbrev pub fresh : Edition → Tally
fresh fs = (
  record {
    bmap = zeros;
    owner = λ _. 0;
    nblk = data_end fs - data_first fs;
    used_blocks = 0;
    dup_blocks = 0;
    bad_blocks = 0;
    errors = 0;
    ino = 0;
    log = [];
  },
  record {
    free_blocks = 0;
    used_blocks = 0;
    missing_blocks = 0;
    dup_blocks = 0;
    inodes = maxinode fs;
    used_inodes = 0;
    orphaned = 0;
    errors = 0;
  },
)

module _ (o : CheckOps) where
  -- Pass 1, and its errors in the report.
  unfoldable pub first_pass : Edition → Pass
  first_pass fs =
      let p = scan_inodes o fs (maxinode fs) (record { tally = fresh fs; kinds = λ _. unalloc }) in
      let (cx, rep) = p.tally in
      record p { tally = (cx, record rep { errors = u32 (rep.errors + cx.errors) }) }

-- The walk over the free space, the missing blocks and the totals.
unfoldable pub check_blocks : Edition → Tally → Tally
check_blocks fs t =
    let (cx, rep) = walk_free fs t in
    let rep' = count_missing cx cx.nblk rep in
    check_totals fs (cx, record rep' { used_blocks = cx.used_blocks; dup_blocks = cx.dup_blocks })

module _ (o : CheckOps) where
  -- The directory phase, with the count of the entries.
  unfoldable pub check_dirs : Edition → (ℕ → Kind) → Tally → (ℕ → ℕ) × Tally
  check_dirs fs kinds t =
      let n = maxinode fs in
      let c = count_dirs o fs kinds n n (λ _. 0, t) in (c.0, check_links o fs kinds c.0 n c.1)
