-- ===== src/Tests/Checks.antt =====
-- The checker on small volumes.
use filsys.Base.{ℕ, zero, suc, ◌<◌, ◌≡◌, ◌∙◌, refl, sym, ap, arith, Outcome, ok, err, true, [], ◌∷◌}
use filsys.Base.{zeros, poke, has_bit, with_bit}
use filsys.Volume.{read_block, Edition}
use filsys.Inode.{Inode, read_inode}
use filsys.Tree.{itrunc, slot_level, is_data_inode}
use filsys.Engine.{mode_is_dir}
use filsys.Check.{data_end, in_allocated}
use filsys.Check.Mark.{mark_blocks, mark_slots, mark_slot, mark_block}
use filsys.Check.Mark.Truncate.{Accounted, mark_blocks-itrunc}
use filsys.Check.Free.{walk_free, walk_list, mark_free, walk_segment}
use filsys.Check.Free.Found.{Found}
use filsys.Check.Free.Walk.{walk_free-Found}
use filsys.Check.Driver.{fresh, first_pass, check_blocks, scan_inodes, scan_inode, scan_kind}
use filsys.Check.Driver.{count_missing, check_totals, has_totals, check_tfree, check_tinode}
use filsys.Check.Driver.Scan.{HasNoBadBlocks}
use filsys.Check.Driver.{
  check_dirs, check_links, check_link, count_dirs, count_dir, count_entries, is_orphan, is_idir,
}
use filsys.Check.Common.{check_op, check_common, after_pass, later_phases, clean_flag}
use filsys.Check.Common.Reports.{Consistent, check_op-Consistent}
use filsys.Check.Editions.{v7_check_ops, v7_inode_state}
use filsys.FreeList.Chain.{IsMounted}
use filsys.Check.Free.Silent.{two_bytes-HasShortCounts}
use filsys.ByteOrder.{get16, get24, get32}
use filsys.Tests.Sample.{small, array}
use filsys.Tests.Trees.{pair}
use filsys.Tests.FreeLists.{small-IsCache}

-- Two blocks that no other inode has.
mark_blocks-itrunc_example :
    ((itrunc small pair []).0 ≡ ok tt)
    × Accounted small
        (fresh small).0
        (mark_blocks small pair (fresh small).0)
        (itrunc small pair []).2
unfolding mark_blocks mark_slots mark_slot mark_block slot_level is_data_inode data_end has_bit
mark_blocks-itrunc_example =
    mark_blocks-itrunc small pair (fresh small).0 refl (omega arith) (λ i. omega arith) refl

walk_free-Found_example : Found small (fresh small) (6 ∷ 5 ∷ []) (walk_free small (fresh small))
unfolding has_bit
walk_free-Found_example =
    walk_free-Found small (fresh small) (6 ∷ 5 ∷ []) refl (omega arith) small-IsCache (omega arith)
      (λ i. omega arith) (refl, (refl, tt))

-- The blocks 4 to 6: the first belongs to inode 2, the others are free. Inode 1 is an empty file, as
-- mkfs writes it.
abbrev whole : Edition
whole = record small {
  img = poke (poke (poke zeros 1025 128) 1089 128) 1101 4;
  fsize = 7;
  fl = record small.fl { nfree = 3; free = array (0 ∷ 5 ∷ 6 ∷ []); tfree = 2; tinode = 14 };
}

whole-IsMounted : IsMounted whole
whole-IsMounted = record {
  healthy = record {
    reads = λ off n. refl;
    writes = λ off n. refl;
    writable = refl;
    fits = omega arith;
  };
  data_behind = omega arith;
  super_fits = omega arith;
  chain_fits = omega arith;
  count_fits = omega arith;
  deep = omega arith;
  depth_fits = omega arith;
  numbers_fit = omega arith;
}

abbrev address : ℕ → Outcome Inode → ℕ
address i (ok ip) = ip.addr i
address i (err e) = 0

unset : (i : ℕ) → i < 13 → address i (read_inode whole 1) ≡ 0
unfolding read_inode get16 get24 get32 read_block
unset zero l = refl
unset (suc zero) l = refl
unset (suc (suc zero)) l = refl
unset (suc (suc (suc zero))) l = refl
unset (suc (suc (suc (suc zero)))) l = refl
unset (suc (suc (suc (suc (suc zero))))) l = refl
unset (suc (suc (suc (suc (suc (suc zero)))))) l = refl
unset (suc (suc (suc (suc (suc (suc (suc zero))))))) l = refl
unset (suc (suc (suc (suc (suc (suc (suc (suc zero)))))))) l = refl
unset (suc (suc (suc (suc (suc (suc (suc (suc (suc zero))))))))) l = refl
unset (suc (suc (suc (suc (suc (suc (suc (suc (suc (suc zero)))))))))) l = refl
unset (suc (suc (suc (suc (suc (suc (suc (suc (suc (suc (suc zero))))))))))) l = refl
unset (suc (suc (suc (suc (suc (suc (suc (suc (suc (suc (suc (suc zero)))))))))))) l = refl
unset (suc (suc (suc (suc (suc (suc (suc (suc (suc (suc (suc (suc (suc i))))))))))))) l =
    absurd (omega arith)

no_bad_blocks : HasNoBadBlocks (v7_check_ops true) whole
no_bad_blocks ip e w i l = sym (ap (address i) e) ∙ unset i l

check_op-Consistent_example : Consistent (v7_check_ops true) whole
unfolding check_op check_common after_pass later_phases check_blocks first_pass scan_inodes
    scan_inode scan_kind walk_free walk_list mark_free walk_segment check_dirs check_links
    check_link count_dirs count_dir count_entries is_orphan is_idir count_missing check_totals
    has_totals check_tfree check_tinode mark_blocks mark_slots mark_slot mark_block data_end
    slot_level read_inode v7_inode_state has_bit with_bit get16 get32 get24 read_block clean_flag
    in_allocated mode_is_dir
check_op-Consistent_example =
    check_op-Consistent (v7_check_ops true) whole refl whole-IsMounted
      (two_bytes-HasShortCounts whole (omega arith)) no_bad_blocks refl (omega arith) (omega arith)
      refl refl refl
