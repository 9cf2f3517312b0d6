-- ===== src/Backend.antt =====
-- The tables of the V7 engine, as filsys_getformat selects them for an edition with fixed entries.
pub mod Destroy
use filsys.Base.{ℕ, ◌+◌, none, some, err, eio}
use filsys.Volume.{Edition, Step}
use filsys.Inode.{read_inode, write_inode}
use filsys.FreeList.{ialloc, ifree}
use filsys.Directory.{dir_lookup, dir_add, dir_remove}
use filsys.Directory.Iterate.{start, entries}
use filsys.Engine.{Ops}
use filsys.Engine.Attributes.{max_file_op}

-- The fuel is that of FreeList.Search.
unfoldable pub search : Edition → Step ℕ
search fs = elim (ialloc (fs.fl.ninode + 2) fs) [ some r ↦ r | none ↦ (err eio, fs) ]

-- `v7fs_ops` and `dir_fixed`. An entry that the scan yields is a byte long at least.
abbrev pub v7fs_ops : Ops
v7fs_ops = record {
  read_inode = read_inode;
  write_inode = write_inode;
  ialloc = search;
  ifree = ifree;
  dir_lookup = dir_lookup;
  dir_add = dir_add;
  dir_remove = dir_remove;
  dir_iter = λ fs ip. entries fs (ip.size + 1) (start ip 0);
  max_file = max_file_op;
}
