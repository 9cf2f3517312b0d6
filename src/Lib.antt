-- ===== src/Lib.antt =====
-- The on-disk engine of filsys, a library that reads and writes the filesystems of historical Unix.
--
-- The engine opens an image of a V6, V7, 32V, Coherent, Xenix, BSD, System III/V or V8-V10 volume. A
-- format descriptor selects the byte order, the layout of the superblock and of the inodes, and the
-- allocator; all editions share the block layer, the free list and the block tree.
--
-- How the parts are modelled:
--
-- * ByteOrder (byteorder.c, byteorder.h): the get and put functions of the three byte orders, and
--   Order, which selects a table of them. ByteOrder.Entries has the loops over arrays of entries.
-- * Volume (filsys_common.h, v7fs.c, v7fs.h): the descriptor, the state of an open volume
--   (filsys_edition_t), the default transport and the block reads and writes.
-- * Super (v7fs.c, v7fs.h, alloc_v8bitmap.c): the superblock layouts and v7fs_super_write.
-- * Inode (v7fs.c): the two inode codecs, read_inode and write_inode.
--   Inode.Order has the order of the superblock write and the inode write.
-- * FreeList (alloc_freelist.c): v7fs_balloc, v7fs_bfree, v7fs_ialloc and v7fs_ifree. FreeList.Chain
--   reads the cache and the chain blocks as one list of free blocks, the specification.
-- * Bitmap (alloc_v8bitmap.c): the bitmap allocator of V8, V9 and V10. Bitmap.Alloc reads the map as
--   a set of free blocks, and Bitmap.Rebuild has the rebuild from the blocks that the check saw.
-- * Alloc (check.h, filsys_format.c): the table of allocation functions, and which one a
--   descriptor has.
-- * Tree (blocktree.c): slots, truncation and the counts; Tree.Map has filsys_bmap. Tree.Reference
--   states what a lookup means on the tree, and Tree.Slots compares truncation with the count.
--   Tree.Tail has filsys_itrunc_from, and Tree.Drain what releasing the collected blocks leaves.
-- * Lifecycle (v7fs.c, filsys.c): v7fs_sync, v7fs_mark_dirty, v7fs_mark_clean and the closes.
-- * Open (v7fs.c): v7fs_open from the open file on, and in Open.Checks what it establishes;
--   Open.Mount (filsys.c) has filsys_open_arch;
--   FreeList.Count has the counts of free blocks and inodes (alloc_freelist.c).
-- * Format (filsys_format.c): the descriptors of the editions and the geometry options. Format.Layout
--   relates the descriptors to the free list, Format.Geometry says what the options can make of them.
--   Format.Names (filsys_names.c) has the tables of the editions and the architectures,
--   Format.Names.Spellings says which names are resolved, and
--   Format.Bytesex (filsys_format.c) the byte order of an edition that has a magic word;
--   Format.Bytesex.Resolution says what its resolution establishes.
-- * Base has the shared names, the widths of C, buffers, bits and results; Tests has a sample
--   volume, and each result at concrete data.
-- * File (v7fs.c): filsys_file_read and filsys_file_write; File.Read states what a read returns.
-- * Directory (dir_fixed.c): the fixed entries, in Directory.Iterate the scan over them, and in
--   Directory.Names what the entry of a name is read as. Directory.Records (dir_bsd211.c) has the
--   records of 2.11BSD, Directory.Records.Scan their scan, and Directory.Records.Bounds where the
--   records lie.
-- * Engine (filsys.c): the operations on nodes, over the tables of an edition (Engine.Ops, from
--   filsys_ops.h). Engine.Create, Engine.Remove, Engine.Rename, Engine.Contents and
--   Engine.Attributes have the operations, Engine.Modes the types of the host; Engine.Checks and
--   Engine.Moves have what is checked before the first write, and Engine.Remove.Ancestor the test for cycles.
-- * Path (filsys_path.c): the operations that take a path. Path.Components cuts a path at its slashes,
--   and Path.Walk compares the lookup with a walk over the components.
-- * Backend (v7fs.c, dir_fixed.c): the tables of the V7 engine, which the engine runs over;
--   Backend.Destroy has what inode_destroy leaves on the free list.
-- * Check (check.c, check.h): the integrity check. Check.Mark (blocktree.c) marks the blocks of an
--   inode, and Check.Mark.Truncate compares that with what truncation releases; Check.Free
--   (alloc_freelist.c, alloc_v8bitmap.c) walks the free space; Check.Rebuild (alloc_freelist.c) makes
--   the free list anew. Check.Driver has the phases, and Check.Common (check.c, filsys_format.c,
--   filsys.c) puts them together, over the tables of Check.Editions (v7fs.c). Check.Repair (check.c,
--   filsys_ops.h) has the repairs, Check.Resolve (check.c) the duplicates and the search for names.
--
-- A byte buffer is the function from an offset to its byte, and an array of the in-core state is the
-- function from an index: an access behind the end of an array is a value of that function, so
-- theorems that rest on the array's bound state it. An unsigned field is a number, cut by the
-- conversions that the source makes; a signed 16-bit field is its bit pattern. A call that may fail
-- returns its result beside the new state, also when it fails. The backing file is part of the state;
-- how many bytes a pread or pwrite transfers, and the time, are parameters (Volume.Host), so every
-- theorem without a hypothesis on the host holds under any failure. The sum in the check of the open
-- wraps at 64 bits; the offsets of blocks are numbers without a bound, as they are in C on a volume
-- whose end does not pass 2^64.
--
-- Loops that the structure of the data does not bound run on fuel. ialloc returns none when it is used
-- up, which FreeList.Search excludes for the fuel that Backend gives; a loop over the bytes of a file, of
-- a directory or of a path has its length as fuel, since each round takes a byte at least.
--
-- Not modelled: the lines of the checker that only summarise, image creation and
-- the probes that detect a format, the ownership instrumentation (instrument.c), heap
-- allocation failure, the FUSE frontends, the command-line tools, the PDP-7 and V1 formats.
pub mod Base
pub mod ByteOrder
pub mod Volume
pub mod Super
pub mod Inode
pub mod FreeList
pub mod Tests
pub mod Bitmap
pub mod Alloc
pub mod Tree
pub mod Lifecycle
pub mod File
pub mod Engine
pub mod Directory
pub mod Backend
pub mod Check
pub mod Format
pub mod Path
pub mod Open
