-- ===== src/Tests/Formats.antt =====
-- The tables of the formats: the descriptors, the geometry options and the byte orders.
use filsys.Base.{refl, arith, zeros, poke, false, true, none, some, ok, codes, same_name}
use filsys.ByteOrder.{le, be, get32}
use filsys.Volume.{Desc, bitmap}
use filsys.FreeList.Chain.{IsMounted}
use filsys.Format.{
  v7, v8, sysvr4, getformat, Geom, v7_format, v8_format, apply_geom, named_order, is_geometry,
}
use filsys.Format.Layout.{HasLayout, getformat-IsMounted}
use filsys.Format.Geometry.{eighth, IsGeometry, apply_geom-HasLayout}
use filsys.Format.Names.{arch_bo, archs, find_arch}
use filsys.Format.Bytesex.{Image, resolve_byteorder, resolve_order, match_magic, magic_byte_offset}
use filsys.Format.Bytesex.Resolution.{Resolved, magic_word, order_of, resolve_byteorder-Resolved}
use filsys.Base.{Outcome, err, Bytes}
use filsys.Volume.{Edition}
use filsys.Open.Mount.{Site, open_arch}
use filsys.Base.{◌↔◌, ◌≡◌}
use filsys.Format.Names.{edition_by_name}
use filsys.Format.Names.Spellings.{Spelled, edition_by_name-Spelled}
use filsys.Tests.Sample.{small}
use filsys.Tests.FreeLists.{small-IsMounted}

getformat-IsMounted_example : IsMounted small
unfolding getformat
getformat-IsMounted_example =
    getformat-IsMounted v7 small refl small-IsMounted.healthy (omega arith) (omega arith)

-- 4096-byte blocks, in the other byte order.
abbrev big_blocks : Geom
big_blocks = record { blocksize = 4096; freemap = none; byteorder = some (codes "be") }

abbrev big_v8 : Desc
big_v8 = record v8_format { bo = be; bsize = 4096; nindir = 1024; freemap = bitmap }

apply_geom-HasLayout_example : HasLayout big_v8 × IsGeometry v8 4096 bitmap
unfolding getformat apply_geom named_order is_geometry same_name
apply_geom-HasLayout_example = apply_geom-HasLayout v8 v8_format big_v8 big_blocks eighth refl refl

-- A volume of System V Release 4 from a 3B2.
abbrev big_endian : Image
big_endian = record {
  opened = ok tt;
  pread_count = λ off n. n;
  bytes = poke (poke (poke (poke zeros 1016 0xfd) 1017 0x18) 1018 0x7e) 1019 0x20;
}

abbrev svr4 : Desc
svr4 = record v7_format {
  bo = le;
  pack4 = true;
  magic = 0xfd187e20;
  magic_off = 504;
  dyn_bsize = true;
  has_state = true;
  has_dinfo = true;
}

resolve_byteorder-Resolved_example :
    Resolved 0xfd187e20
      (magic_word svr4 big_endian 0)
      (order_of (some (codes "3b2")))
      false
      (record svr4 { bo = be })
unfolding resolve_byteorder resolve_order match_magic magic_byte_offset arch_bo archs find_arch
    same_name get32
resolve_byteorder-Resolved_example =
    resolve_byteorder-Resolved svr4 (record svr4 { bo = be }) big_endian 0 (some (codes "3b2"))
      false (λ e. ground (arith, e)) refl

-- A file of 20 blocks with the superblock of a V7 volume, on a host that grants the lock.
abbrev disk : Site
disk = record {
  image = record {
    opened = ok tt;
    pread_count = λ off n. n;
    bytes = poke (poke zeros 512 4) 516 20;
  };
  host = small.host;
  opened = ok tt;
  size = some 10240;
  lock = true;
}

abbrev opened_disk : Outcome Edition × Bytes
opened_disk = open_arch disk v7 false 0 none false none false

-- What the open returns.
abbrev volume_of : Outcome Edition → Edition
volume_of (ok g) = g
volume_of (err e) = small

edition_by_name-Spelled_example :
    (edition_by_name (codes "vsysv4") ≡ some sysvr4) ↔ Spelled (codes "vsysv4") sysvr4
edition_by_name-Spelled_example = edition_by_name-Spelled (codes "vsysv4") sysvr4
