-- ===== src/Tests/Engine.antt =====
-- The engine and the paths over the tables of the V7 engine, on a volume with a root directory.
use filsys.Base.{◌+◌, ℕ, min, Bool, false, ◌≡◌, refl, arith, [], ◌∷◌, ◌⊎◌}
use filsys.Base.{zeros, blit, Name, ◌>>=◌}
use filsys.Volume.{Edition, read_block, write_block}
use filsys.Inode.{Inode, blank, write_inode}
use filsys.File.{file_read}
use filsys.File.Read.{Reads, file_read-Reads}
use filsys.Engine.Modes.{Posix}
use filsys.Engine.Create.{create_in, mkdir_in, mknod_in, symlink_in}
use filsys.Engine.Checks.{Refused, IsVacant, create-IsVacant}
use filsys.Engine.Remove.{dir_ancestor}
use filsys.Engine.Remove.Ancestor.{Decides, dir_ancestor-Decides}
use filsys.Path.{path_lookup, split_path}
use filsys.Path.Components.{components}
use filsys.Path.Walk.{walk_all, walk_one, path_lookup-components, split_path-path_lookup}
use filsys.Backend.{v7fs_ops}
use filsys.Base.{Bytes, same_name, u16, not, ◌&&◌, ◌==◌, ap, none}
use filsys.ByteOrder.{get16, get32}
use filsys.Engine.Rename.{rename_in}
use filsys.Engine.Moves.{Untouched, IsMovable, rename_in-IsMovable}
use filsys.Directory.{entry_bytes, is_named}
use filsys.Directory.Iterate.{read_name}
use filsys.Directory.Names.{is_named-entry_bytes}
use filsys.Directory.Records.{all_records, next_record, last}
use filsys.Directory.Records.Bounds.{Laid, stop, all_records-Laid}
use filsys.Base.{some, Outcome, ok, err}
use filsys.Base.{poke}
use filsys.Super.{decode_v7}
use filsys.Open.{
  open_volume, sysv_geometry, open_read_super, decode_super, load_map, finish_open, check_counts,
  with_totals, with_interleave, check_magic, check_geometry,
}
use filsys.Open.Checks.{IsSound, open_volume-IsSound}
use filsys.Tests.Sample.{small, array, v7_desc}

-- Inode 2 is a directory of two entries in block 4.
abbrev root_inode : Inode
root_inode = record (blank 2) { mode = 16895; nlink = 2; size = 32; addr = array (4 ∷ []) }

abbrev bare : Edition
bare = record small {
  img = blit zeros 2048 32 (
      array
        (2 ∷ 0 ∷ 46 ∷ 0 ∷ 0 ∷ 0 ∷ 0 ∷ 0 ∷ 0 ∷ 0 ∷ 0 ∷ 0 ∷ 0 ∷ 0 ∷ 0 ∷ 0 ∷ 2 ∷ 0 ∷ 46 ∷ 46 ∷ []));
}

abbrev rooted : Edition
rooted = (write_inode bare 2 root_inode).1

-- `/a`, and its parts
abbrev slash_a : Name
slash_a = 47 ∷ 97 ∷ []

abbrev name_a : Name
name_a = 97 ∷ []

abbrev name_b : Name
name_b = 98 ∷ []

file_read-Reads_example : Reads rooted root_inode (min 10 12) 20 (file_read rooted root_inode 10 20)
unfolding write_inode read_block write_block
file_read-Reads_example =
    file_read-Reads rooted root_inode 10 20 (omega arith) (omega arith) (omega arith)

create-IsVacant_example :
    (Refused rooted (create_in v7fs_ops rooted 2 name_a 420 1 1)
      ⊎ IsVacant v7fs_ops rooted 2 name_a)
    × (Refused rooted (mkdir_in v7fs_ops rooted 2 name_a 420 1 1)
        ⊎ IsVacant v7fs_ops rooted 2 name_a)
    × ((p : Posix) (v1 : Bool) (rdev : ℕ)
        → Refused rooted (mknod_in v7fs_ops p v1 rooted 2 name_a 420 rdev 1 1)
          ⊎ IsVacant v7fs_ops rooted 2 name_a)
    × ((target : Name)
        → Refused rooted (symlink_in v7fs_ops rooted target 2 name_a 1 1)
          ⊎ IsVacant v7fs_ops rooted 2 name_a)
create-IsVacant_example = create-IsVacant v7fs_ops rooted 2 name_a 420 1 1

dir_ancestor-Decides_example : Decides v7fs_ops rooted 3 2 (dir_ancestor v7fs_ops rooted 3 2)
dir_ancestor-Decides_example = dir_ancestor-Decides v7fs_ops rooted 3 2

path_lookup-components_example :
    path_lookup v7fs_ops 4096 rooted slash_a ≡ walk_all v7fs_ops 4096 rooted (components slash_a) 2
unfolding write_inode read_block write_block
path_lookup-components_example = path_lookup-components v7fs_ops 4096 rooted 47 name_a

split_path-path_lookup_example :
    path_lookup v7fs_ops 4096 rooted slash_a
    ≡ (path_lookup v7fs_ops 4096 rooted (47 ∷ []) >>= walk_one v7fs_ops 4096 rooted name_a)
unfolding split_path
split_path-path_lookup_example =
    split_path-path_lookup v7fs_ops 4096 rooted name_a (47 ∷ []) name_a [] [] 4096 15 refl

rename_in-IsMovable_example :
    Untouched rooted (rename_in v7fs_ops rooted 2 name_a 2 name_b 0 false)
    ⊎ IsMovable v7fs_ops rooted 2 2 name_a name_b 0
rename_in-IsMovable_example = rename_in-IsMovable v7fs_ops rooted 2 2 name_a name_b 0 false

is_named-entry_bytes_example :
    (get16 small.desc.bo (entry_bytes small 3 name_a) 0 ≡ 3)
    × (read_name (entry_bytes small 3 name_a) 2 14 ≡ name_a)
    × (is_named small name_b (entry_bytes small 3 name_a) 0
        ≡ not (u16 3 == 0) && same_name name_a name_b)
is_named-entry_bytes_example =
    is_named-entry_bytes small (entry_bytes small 3 name_a) 0 3 name_a name_b (omega arith)
      (λ i l. ap (entry_bytes small 3 name_a) {x = 0 + (0 + i)} {y = 0 + i} (omega arith))
      (omega arith) (omega arith) (omega arith) (omega arith)

-- One record of 12 bytes: inode 2, the name `.`
abbrev framed : Bytes
framed = array (2 ∷ 0 ∷ 12 ∷ 0 ∷ 1 ∷ 0 ∷ 46 ∷ [])

all_records-Laid_example :
    Laid v7_desc 12 0 (all_records v7_desc framed 12)
    × (next_record v7_desc framed 12 (stop 0 (all_records v7_desc framed 12)) ≡ none)
    × ((last (all_records v7_desc framed 12)).1 ≡ stop 0 (all_records v7_desc framed 12))
all_records-Laid_example = all_records-Laid v7_desc framed 12

-- A superblock with 4 blocks before the data and 20 blocks in all, before the open.
abbrev image : Edition
image = record small { img = poke (poke zeros 512 4) 516 20; imgsize = 0 }

-- What the open returns.
abbrev volume_of : Outcome Edition → Edition
volume_of (ok g) = g
volume_of (err e) = image

open_volume-IsSound_example : IsSound (volume_of (open_volume (some 10240) image))
unfolding open_volume sysv_geometry open_read_super decode_super load_map finish_open check_counts
    with_totals with_interleave check_magic check_geometry decode_v7 get16 get32 read_block
open_volume-IsSound_example =
    open_volume-IsSound (some 10240) image (volume_of (open_volume (some 10240) image)) refl
      (omega arith)
