-- ===== src/Check/Repair.antt =====
-- The repairs of check.c that need no prompt of their own: filsys_preen and filsys_clri, and the
-- prompt of filsys_ops.h. A failed repair is not reported; its result is dropped as in the source.
use filsys.Base.{ℕ, zero, suc, ◌+◌, ◌/◌, ◌%◌, Bool, true, false, not, ◌&&◌, ◌||◌}
use filsys.Base.{
  u16, u32, bit_and, bit_or, ◌==◌, ltb, if◌then◌else◌, List, [], ◌∷◌, ◌++◌, Name, length,
}
use filsys.Base.{ok, err, einval, is_ok}
use filsys.Volume.{Edition, Step, maxinode}
use filsys.Inode.{Inode, blank}
use filsys.Engine.{mode_is_dir, Entry, dot, dotdot, nlink_inc}
use filsys.Check.{Kind, in_allocated}
use filsys.Check.Driver.{CheckOps, Mode, is_idir}

-- ---- the prompt

-- The rest of a line of the input, behind its end.
unfoldable pub next_line : List ℕ → List ℕ
next_line [] = []
next_line (c ∷ input) = let rest = next_line input in if c == 10 then input else rest

-- The loop at the input, whose bytes bound the rounds. Its end declines.
unfoldable pub answer : ℕ → List ℕ → Bool × List ℕ
answer zero input = (false, input)
answer (suc left) [] = (false, [])
answer (suc left) (c ∷ input) =
    let line = next_line input in
    let again = answer left input in
    let other = answer left line in
    if c == 10
    then again
    else if c == 121 || c == 89
    then (true, line)
    else if c == 110 || c == 78
    then (false, line)
    else other

-- `filsys_query`
unfoldable pub query : Mode → List ℕ → Bool × List ℕ
query mode input =
    if mode.yes_all || mode.preen
    then (true, input)
    else if not mode.ask
    then (false, input)
    else answer (length input) input

-- ---- helpers

-- `snprintf(name, sizeof name, "%u", n)`, with a round for each digit that `uint32_t` can have
unfoldable pub decimal : ℕ → ℕ → Name
decimal zero n = []
decimal (suc left) n =
    let high = decimal left (n / 10) in (if ltb n 10 then [] else high) ++ ((48 + n % 10) ∷ [])

-- `(uint32_t)n` of an `int16_t`
abbrev pub signed : ℕ → ℕ
signed n = if ltb n 32768 then n else n + 4294901760

-- `is_regular`
unfoldable pub is_regular : Edition → Inode → Bool
is_regular fs ip =
    let t = bit_and ip.mode fs.desc.ifmt in
    t == fs.desc.ifreg || (not (fs.desc.iflnk == 0) && t == fs.desc.iflnk)

-- `dir_mode`, of an edition without `to_disk_mode`
unfoldable pub dir_mode : Edition → ℕ
dir_mode fs = bit_or 511 fs.desc.ifdir

-- "lostfils" and "lost+found"
unfoldable pub lost_name : Edition → Name
lost_name fs =
    if ltb fs.desc.max_namlen 10
    then 108 ∷ 111 ∷ 115 ∷ 116 ∷ 102 ∷ 105 ∷ 108 ∷ 115 ∷ []
    else 108 ∷ 111 ∷ 115 ∷ 116 ∷ 43 ∷ 102 ∷ 111 ∷ 117 ∷ 110 ∷ 100 ∷ []

-- The volume, and what is left of the input.
abbrev pub Session : Type 0
Session = Edition × List ℕ

-- A repair that is made if the answer is yes.
abbrev pub if_yes : Mode → Session → (Edition → Edition) → Session
if_yes mode (fs, input) repair =
    let q = query mode input in if q.0 then (repair fs, q.1) else (fs, q.1)

-- How many of the entries name `target`.
unfoldable pub entries_for : ℕ → List Entry → ℕ
entries_for target [] = 0
entries_for target ((ino, name) ∷ more) = (if ino == target then 1 else 0) + entries_for target more

module _ (o : CheckOps) where
  open o use {engine}

  unfoldable pub clri : Edition → ℕ → Step (Unit {0})
  clri fs ino =
      if ino == 0 || ltb (maxinode fs) ino
      then (err einval, fs)
      else engine.write_inode fs ino (blank ino)

  -- ---- the directory for lost files

  -- It is made as inode `n`, whatever its entries return.
  unfoldable pub make_lost : Edition → ℕ → Inode → Edition
  make_lost fs n root =
      let lf = record (blank n) { mode = dir_mode fs; nlink = 2 } in
      let fs1 = (engine.write_inode fs n lf).1 in
      let a = engine.dir_add fs1 lf n dot in
      let b = engine.dir_add a.2 a.1 fs.desc.rootino dotdot in
      let c = engine.dir_add b.2 root n (lost_name fs) in
      (engine.write_inode c.2 fs.desc.rootino (nlink_inc c.1)).1

  -- Its number, 0 if there is none.
  unfoldable pub lost_found : Edition → ℕ × Edition
  lost_found fs = elim (engine.read_inode fs fs.desc.rootino) [
    | err e ↦ (0, fs)
    | ok root ↦ elim (engine.dir_lookup fs root (lost_name fs)) [
      | ok n ↦ (n, fs)
      | err e ↦
          let a = engine.ialloc fs in
          elim a.0 [ ok n ↦ (n, make_lost a.1 n root) | err e' ↦ (0, a.1) ]
    ]
  ]

  -- ---- the repair of one inode

  abbrev pub clear_inode : ℕ → Inode → Edition → Edition
  clear_inode ino ip fs = (engine.write_inode fs ino (record ip { mode = 0; nlink = 0 })).1

  -- An orphaned file gets its number as its name.
  unfoldable pub reconnect_file : ℕ → ℕ → Inode → Edition → Edition
  reconnect_file lf_ino ino ip fs = elim (engine.read_inode fs lf_ino) [
    | err e ↦ fs
    | ok lf ↦
        let a = engine.dir_add fs lf ino (decimal 10 ino) in
        let fs1 = (engine.write_inode a.2 ino (record ip { nlink = 1 })).1 in
        if is_ok a.0 then (engine.write_inode fs1 lf_ino a.1).1 else a.2
  ]

  -- An orphaned directory gets a new `..`, too.
  unfoldable pub reconnect_dir : ℕ → ℕ → Inode → Edition → Edition
  reconnect_dir lf_ino ino ip fs = elim (engine.read_inode fs lf_ino) [
    | err e ↦ fs
    | ok lf ↦
        let r = engine.dir_remove fs ip dotdot in
        let a = engine.dir_add r.2 r.1 lf_ino dotdot in
        let b = engine.dir_add a.2 lf ino (decimal 10 ino) in
        let fs1 = (engine.write_inode b.2 ino (record a.1 { nlink = 2 })).1 in
        if not (is_ok r.0)
        then r.2
        else if not (is_ok a.0)
        then a.2
        else if not (is_ok b.0)
        then b.2
        else (engine.write_inode fs1 lf_ino (nlink_inc b.1)).1
  ]

  -- The inode was read: `kind` and `cnt` are what the check found of it.
  unfoldable pub repair_inode : Mode → ℕ → ℕ → Kind → ℕ → Inode → Session → Session
  repair_inode mode lf_ino ino kind cnt ip s =
      let fs = s.0 in
      if not (in_allocated kind)
      then (if cnt == 0 then s else if_yes mode s (clear_inode ino ip))
      else if cnt == ip.nlink && not (cnt == 0)
      then s
      else if ino == fs.desc.rootino || ino == lf_ino || ino == fs.desc.badino
      then s
      else if cnt == 0
      then (if lf_ino == 0
          then s
          else if not (is_regular fs ip)
          then if_yes mode s (clear_inode ino ip)
          else if_yes mode s (reconnect_file lf_ino ino ip))
      else if cnt == 1 && is_idir kind && not (lf_ino == 0)
      then if_yes mode s (reconnect_dir lf_ino ino ip)
      else if_yes mode s (λ g. (engine.write_inode g ino (record ip { nlink = cnt })).1)

  -- The inodes 1 to `n`, in order.
  unfoldable pub repair_inodes : Mode → ℕ → (ℕ → Kind) → (ℕ → ℕ) → ℕ → Session → Session
  repair_inodes mode lf_ino kinds ecount zero s = s
  repair_inodes mode lf_ino kinds ecount (suc n) s =
      let before = repair_inodes mode lf_ino kinds ecount n s in
      elim (engine.read_inode before.0 (suc n)) [
        | err e ↦ before
        | ok ip ↦ repair_inode mode lf_ino (suc n) (kinds (suc n)) (ecount (suc n)) ip before
      ]

  -- ---- the link counts of the root and of lost+found

  -- The entries that name `target`, in the directories among the inodes 1 to `n`.
  unfoldable pub count_links_to : Edition → ℕ → ℕ → ℕ
  count_links_to fs target zero = 0
  count_links_to fs target (suc n) = u32 (
      count_links_to fs target n + (elim (engine.read_inode fs (suc n)) [
        | err e ↦ 0
        | ok ip ↦ if mode_is_dir fs.desc ip then entries_for target (engine.dir_iter fs ip).0 else 0
      ]))

  unfoldable pub recount_links : Edition → ℕ → ℕ → Edition
  recount_links fs target n = if target == 0 then fs else elim (engine.read_inode fs target) [
    | err e ↦ fs
    | ok ip ↦
        let want = count_links_to fs target n in
        if want == signed ip.nlink
        then fs
        else (engine.write_inode fs target (record ip { nlink = u16 want })).1
  ]

  unfoldable pub preen : Mode → (ℕ → ℕ) → (ℕ → Kind) → ℕ → Session → Session
  preen mode ecount kinds maxino (fs, input) =
      let lf = lost_found fs in
      let s = repair_inodes mode lf.0 kinds ecount maxino (lf.1, input) in
      (recount_links (recount_links s.0 s.0.desc.rootino maxino) lf.0 maxino, s.1)
