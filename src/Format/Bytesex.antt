-- ===== src/Format/Bytesex.antt =====
-- filsys_resolve_byteorder of filsys_format.c: the byte order of an edition that has a magic word. The
-- messages are not modelled; the image is opened and read by the host.
pub mod Resolution
use filsys.Base.{ℕ, ◌+◌, ◌≡◌, ◌≢◌, refl, ap, subst, arith, Bool, true, false, ◌==◌, if◌then◌else◌}
use filsys.Base.{
  Bytes, from, Option, none, some, Name, Outcome, ok, err, einval, eio, eilseq, ◌⊎◌, inl, inr,
}
use filsys.ByteOrder.{Order, le, be, me, get32}
use filsys.Volume.{Desc}
use filsys.Format.Names.{arch_bo}

-- What the host does with the path: an `open` that may fail, how many of `n` bytes at an offset a
-- `pread` returns, and the bytes.
pub record Image : Type 0 where
  pub opened : Outcome (Unit {0})
  pub pread_count : ℕ → ℕ → ℕ
  pub bytes : Bytes

-- `magic_byte_offset`
unfoldable pub magic_byte_offset : Desc → ℕ
magic_byte_offset d = if d.dyn_bsize then 512 + d.magic_off else d.bsize + d.magic_off

-- `arch_bo == &bo_me`
abbrev pub is_me : Order → Bool
is_me me = true
is_me other = false

-- The PDP-11 packs the fields of the superblock.
abbrev pub packed_for : Desc → Order → Desc
packed_for d bo = if is_me bo then record d { pack4 = false } else d

-- The orders that read the magic word, tried in turn.
unfoldable pub detected : ℕ → Bytes → Option Order
detected magic m =
    if get32 le m 0 == magic
    then some le
    else if get32 be m 0 == magic
    then some be
    else if get32 me m 0 == magic
    then some me
    else none

-- The magic word `m` was read.
unfoldable pub match_magic : Desc → Bytes → Option Order → Bool → Outcome Desc
match_magic d m none force = elim (detected d.magic m) [
  | none ↦ err eilseq
  | some bo ↦ ok (record d { bo = bo })
]
match_magic d m (some bo) force =
    if get32 bo m 0 == d.magic then ok (record d { bo = bo }) else elim (detected d.magic m) [
      | some other ↦ err einval
      | none ↦ if force then ok (record d { bo = bo; ignore_magic = true }) else err eilseq
    ]

-- The order of the architecture is `arch`, if one is named.
unfoldable pub resolve_order : Desc → Image → ℕ → Option Order → Bool → Outcome Desc
resolve_order d image offset none force = if d.magic == 0 then ok d else elim image.opened [
  | err e ↦ err e
  | ok u ↦
      let at = magic_byte_offset d + offset in
      if image.pread_count at 4 == 4
      then match_magic d (from image.bytes at) none force
      else err eio
]
resolve_order d image offset (some bo) force =
    if d.magic == 0 then ok (record d { bo = bo }) else elim image.opened [
      | err e ↦ err e
      | ok u ↦
          let at = magic_byte_offset d + offset in
          if image.pread_count at 4 == 4
          then match_magic d (from image.bytes at) (some bo) force
          else err eio
    ]

-- `filsys_resolve_byteorder`; on an error the caller drops the descriptor.
unfoldable pub resolve_byteorder : Desc → Image → ℕ → Option Name → Bool → Outcome Desc
resolve_byteorder d image offset none force = resolve_order d image offset none force
resolve_byteorder d image offset (some arch) force = elim (arch_bo arch) [
  | none ↦ err einval
  | some bo ↦ resolve_order (packed_for d bo) image offset (some bo) force
]
