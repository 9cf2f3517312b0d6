-- ===== src/Check/Common/Reports.antt =====
-- What a check that only reports does to the volume, and what it establishes.
use filsys.Base.{ℕ, ◌^◌, ◌≤◌, ◌<◌, ◌≡◌, ◌∙◌, refl, ap, sym, arith, min}
use filsys.Base.{true, false, List, [], ◌∷◌, length, ok}
use filsys.Volume.{Edition, list, maxinode}
use filsys.Inode.{Inode}
use filsys.FreeList.Chain.{IsMounted}
use filsys.Check.{Message}
use filsys.Check.Free.Silent.{HasShortCounts}
use filsys.Check.Driver.{CheckOps, Mode, first_pass, check_blocks, check_dirs}
use filsys.Check.Driver.Scan.{HasNoBadBlocks}
use filsys.Check.Driver.Sound.{Partitions, check_blocks-Partitions}
use filsys.Check.Driver.Links.{
  IsLinked, names_of, check_dirs-IsLinked, longer-check_dirs, missing-check_dirs,
}
use filsys.Check.Common.{repairs, later_phases, after_pass, check_common, check_op}

-- A check that neither repairs nor salvages leaves the volume as it is, however it ends.
pub volume-check_common :
    (o : CheckOps) (fs : Edition) (mode : Mode) (input : List ℕ)
    → repairs mode ≡ false
    → mode.salvage ≡ false
    → (check_common o fs mode input).volume ≡ fs
unfolding check_common after_pass later_phases
volume-check_common o fs mode input r s = ground (arith, r, s)

-- The blocks and the link counts of the volume agree with its inodes and directories.
pub record Consistent (o : CheckOps) (fs : Edition) : Type 0 where
  pub blocks : Partitions o fs
  pub links :
      (ino : ℕ) (ip : Inode)
      → 0 < ino
      → ino ≤ maxinode fs
      → o.engine.read_inode fs ino ≡ ok ip
      → IsLinked fs
          ((first_pass o fs).kinds ino)
          ino
          (min (names_of o fs (first_pass o fs).kinds ino (maxinode fs)) 255)
          ip

nil-log : (l : List Message) → length l ≤ 0 → l ≡ []
nil-log [] h = refl
nil-log (x ∷ l) h = absurd (omega arith)

-- A check that passes went through all its phases.
passed-phases :
    (o : CheckOps) (fs : Edition)
    → (check_op o fs).passed ≡ true
    → (check_op o fs).tally
      ≡ (check_dirs o fs (first_pass o fs).kinds (check_blocks fs (first_pass o fs).tally)).1
unfolding check_op check_common after_pass later_phases
passed-phases o fs h = ground (arith, h)

-- Take a mounted volume of fewer than 2^32 blocks and at least one inode, with a free list whose
-- chain blocks have 16-bit counts, without bitmap blocks, and whose bad-block inode is free or has
-- no address set. When the report-only check returns 0, prints no problem and counts no missing
-- block, then every data block occurs exactly once in the free list and the blocks of all the
-- inodes together; and for every readable inode the entries that name it, cut at 255, are as many
-- as its link count, or it is free and has none, and it has one if it is in use, no directory, and
-- neither the root nor the bad-block inode.
pub check_op-Consistent :
    (o : CheckOps) (fs : Edition)
    → fs.desc.freemap ≡ list
    → IsMounted fs
    → HasShortCounts fs
    → HasNoBadBlocks o fs
    → fs.v8_nblks ≡ 0
    → fs.fsize < 2 ^ 32
    → 0 < maxinode fs
    → (check_op o fs).passed ≡ true
    → (check_op o fs).tally.0.log ≡ []
    → (check_op o fs).tally.1.missing_blocks ≡ 0
    → Consistent o fs
check_op-Consistent o fs listed v short plain no_map small some_inode passed quiet full =
    let p = first_pass o fs in
    let t = check_blocks fs p.tally in
    let e = passed-phases o fs passed in
    let silent : (check_dirs o fs p.kinds t).1.0.log ≡ [] = ap (λ u. u.0.log) (sym e) ∙ quiet in
    let none =
      sym (missing-check_dirs o fs p.kinds t some_inode)
      ∙ ap (λ u. u.1.missing_blocks) (sym e)
      ∙ full in
    let before =
      nil-log t.0.log
        (omega (arith, longer-check_dirs o fs p.kinds t some_inode, ap length silent)) in
    record {
      blocks = check_blocks-Partitions o fs listed v short plain no_map small before none;
      links = check_dirs-IsLinked o fs p.kinds t (silent ∙ sym before);
    }
