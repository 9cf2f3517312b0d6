-- ===== src/Check/Common.antt =====
-- filsys_check_common of check.c, and its entry points in filsys_format.c and filsys.c.
pub mod Reports
use filsys.Base.{
  ℕ, ◌-◌, Bool, true, false, not, ◌&&◌, ◌||◌, ◌==◌, ltb, leb, if◌then◌else◌, List, [],
}
use filsys.Volume.{Edition, data_first}
use filsys.Check.{data_end, bad_superblock, Kind, max_bad}
use filsys.Check.Free.{Tally, report}
use filsys.Check.Driver.{CheckOps, Mode, Pass, fresh, first_pass, check_blocks, check_dirs}
use filsys.Check.Repair.{preen, Session}

-- `filsys_is_clean`, of an edition that has the flag or not
unfoldable pub clean_flag : Bool → Edition → Bool
clean_flag has_fmod fs = has_fmod && fs.fmod == 0

-- How a check ends: the context and the report, whether it returns 0, and the volume.
pub record Verdict : Type 0 where
  pub tally : Tally
  pub passed : Bool
  pub volume : Edition

-- Whether a mode repairs by itself.
abbrev pub repairs : Mode → Bool
repairs mode = mode.preen || mode.yes_all || mode.ask

-- The end of the check: `return rep->errors ? -1 : 0`
abbrev pub ended : Tally → Edition → Verdict
ended t fs = record { tally = t; passed = t.1.errors == 0; volume = fs }

module _ (o : CheckOps) where
  -- The phases behind pass 1.
  unfoldable pub later_phases : Edition → Mode → List ℕ → Pass → Verdict
  later_phases fs mode input p =
      let d = check_dirs o fs p.kinds (check_blocks fs p.tally) in
      let s = preen o mode d.0 p.kinds d.1.1.inodes (fs, input) in
      ended d.1 (if repairs mode then s.0 else fs)

  -- Pass 1 is behind. Too many bad blocks end the check, and a salvage needs no other phase.
  unfoldable pub after_pass : Edition → Mode → List ℕ → Pass → Verdict
  after_pass fs mode input p =
      if ltb max_bad p.tally.0.bad_blocks
      then record { tally = p.tally; passed = false; volume = fs }
      else if mode.salvage
      then ended p.tally (o.makefree fs p.tally.0).1
      else later_phases fs mode input p

  unfoldable pub check_common : Edition → Mode → List ℕ → Verdict
  check_common fs mode input =
      if o.is_clean fs && repairs mode && not (mode.salvage || mode.force)
      then ended ((fresh fs).0, record (fresh fs).1 { inodes = 0 }) fs
      else if leb (data_end fs) (data_first fs) || data_end fs == 0
      then record {
        tally = report (bad_superblock (data_first fs) (data_end fs)) (fresh fs);
        passed = false;
        volume = fs;
      }
      else after_pass fs mode input (first_pass o fs)

  -- `filsys_check_op`
  unfoldable pub check_op : Edition → Verdict
  check_op fs =
      check_common fs
        (record { salvage = false; preen = false; force = false; yes_all = false; ask = false }) []

  -- `filsys_invariants`
  unfoldable pub invariants : Edition → Verdict
  invariants fs =
      check_common fs
        (record { salvage = false; preen = false; force = true; yes_all = false; ask = false }) []
