-- ===== src/Format/Geometry.antt =====
-- What the geometry options of the V8 family can make of a descriptor (filsys_apply_geom).
use filsys.Base.{ℕ, ◌/◌, ◌≡◌, refl, sym, ap, subst, arith}
use filsys.Base.{Bool, true, false, not, ◌==◌, if◌then◌else◌, Option, none, some, ok, err, einval}
use filsys.ByteOrder.{Order, be}
use filsys.Volume.{Desc, Freemap, list, bitmap, bigmap}
use filsys.Format.{
  Selector, v8, v9, v10, v8_format, getformat, Geom, form, is_geometry, named_order,
}
use filsys.Format.{apply_geom}
use filsys.Format.Layout.{HasLayout, has_layout, has_layout-HasLayout}

-- The editions of the V8 family.
pub data Family : Selector → Type 0 where
  eighth : Family v8
  ninth : Family v9
  tenth : Family v10

-- The block sizes and the forms of the free space that an edition has together.
pub data IsGeometry : Selector → ℕ → Freemap → Type 0 where
  small8 : IsGeometry v8 1024 list
  mapped8 : IsGeometry v8 4096 bitmap
  small10 : IsGeometry v10 1024 list
  mapped10 : IsGeometry v10 4096 bitmap
  behind : IsGeometry v10 4096 bigmap
  huge_list : IsGeometry v9 8192 list
  huge_map : IsGeometry v9 8192 bitmap

at_size :
    {ed : Selector} {bs : ℕ} (n : ℕ) (fm : Freemap)
    → bs ≡ n
    → IsGeometry ed n fm
    → IsGeometry ed bs fm
at_size {ed} n fm e g = subst (λ (b : ℕ). IsGeometry ed b fm) (sym e) g

is_geometry-IsGeometry :
    {ed : Selector}
    → Family ed
    → (bs : ℕ) (fm : Freemap) → is_geometry ed bs fm ≡ true
    → IsGeometry ed bs fm
unfolding is_geometry
is_geometry-IsGeometry eighth bs list h = at_size 1024 list (ground (arith, h)) small8
is_geometry-IsGeometry eighth bs bitmap h = at_size 4096 bitmap (ground (arith, h)) mapped8
is_geometry-IsGeometry eighth bs bigmap h = absurd (ground (arith, h))
is_geometry-IsGeometry ninth bs list h = at_size 8192 list (ground (arith, h)) huge_list
is_geometry-IsGeometry ninth bs bitmap h = at_size 8192 bitmap (ground (arith, h)) huge_map
is_geometry-IsGeometry ninth bs bigmap h = absurd (ground (arith, h))
is_geometry-IsGeometry tenth bs list h = at_size 1024 list (ground (arith, h)) small10
is_geometry-IsGeometry tenth bs bitmap h = at_size 4096 bitmap (ground (arith, h)) mapped10
is_geometry-IsGeometry tenth bs bigmap h = at_size 4096 bigmap (ground (arith, h)) behind

abbrev with_geometry : Desc → Order → ℕ → Freemap → Desc
with_geometry d bo bs fm = record d { bo = bo; bsize = bs; nindir = bs / 4; freemap = fm }

-- The descriptor of the edition.
abbrev base_format : {ed : Selector} → Family ed → Desc
base_format eighth = v8_format
base_format ninth = record v8_format {
  bsize = 8192;
  bo = be;
  nicfree = 946;
  nindir = 2048;
  iconc = true;
}
base_format tenth = record v8_format { iconc = true }

with_geometry-HasLayout :
    {ed : Selector} (f : Family ed) (bo : Order) {bs : ℕ} {fm : Freemap}
    → IsGeometry ed bs fm
    → HasLayout (with_geometry (base_format f) bo bs fm)
unfolding has_layout
with_geometry-HasLayout eighth bo small8 = has_layout-HasLayout _ refl
with_geometry-HasLayout eighth bo mapped8 = has_layout-HasLayout _ refl
with_geometry-HasLayout ninth bo huge_list = has_layout-HasLayout _ refl
with_geometry-HasLayout ninth bo huge_map = has_layout-HasLayout _ refl
with_geometry-HasLayout tenth bo small10 = has_layout-HasLayout _ refl
with_geometry-HasLayout tenth bo mapped10 = has_layout-HasLayout _ refl
with_geometry-HasLayout tenth bo behind = has_layout-HasLayout _ refl

base_format-getformat :
    {ed : Selector} (f : Family ed) (d : Desc) → getformat ed ≡ some d → base_format f ≡ d
unfolding getformat
base_format-getformat eighth d e = ap (λ o. elim o [ none ↦ v8_format | some c ↦ c ]) e
base_format-getformat ninth d e = ap (λ o. elim o [ none ↦ base_format ninth | some c ↦ c ]) e
base_format-getformat tenth d e = ap (λ o. elim o [ none ↦ base_format tenth | some c ↦ c ]) e

-- The block size that the options ask for.
abbrev chosen : Desc → Geom → ℕ
chosen d g = if g.blocksize == 0 then d.bsize else g.blocksize

abbrev Applied : Selector → Desc → Type 0
Applied ed d = HasLayout d × IsGeometry ed d.bsize d.freemap

named :
    {ed : Selector} (f : Family ed) (g : Geom) (bs : ℕ) (fm : Freemap)
    → IsGeometry ed bs fm
    → (r : Option Order) → (d : Desc)
    → (elim r [ none ↦ err einval | some bo ↦ ok (with_geometry (base_format f) bo bs fm) ]) ≡ ok d
    → Applied ed d
named f g bs fm v none d e = absurd (ground (arith, e))
named {ed} f g bs fm v (some bo) d e =
    subst (Applied ed)
      (ap (λ o. elim o [ ok c ↦ c | err x ↦ with_geometry (base_format f) bo bs fm ]) e)
      (with_geometry-HasLayout f bo v, v)

judged :
    {ed : Selector} (f : Family ed) (g : Geom) (bs : ℕ) (fm : Freemap) (t : Bool)
    → is_geometry ed bs fm ≡ t
    → (d : Desc)
    → (if not t then err einval else elim (named_order (base_format f).bo g.byteorder) [
      | none ↦ err einval
      | some bo ↦ ok (with_geometry (base_format f) bo bs fm)
    ])
      ≡ ok d
    → Applied ed d
judged f g bs fm true t d a =
    named f g bs fm (is_geometry-IsGeometry f bs fm t) (named_order (base_format f).bo g.byteorder)
      d a
judged f g bs fm false t d a = absurd (ground (arith, a))

accepted :
    {ed : Selector} (f : Family ed) (g : Geom) (d : Desc)
    → apply_geom (base_format f) ed g ≡ ok d
    → Applied ed d
unfolding apply_geom
accepted {ed} f g d a =
    let bs = chosen (base_format f) g in
    let fm = form bs g.freemap in judged f g bs fm (is_geometry ed bs fm) refl d a

-- An edition of the V8 family with geometry options. When filsys_apply_geom accepts them, then the
-- block size and the form of the free space are a pair that the edition has (1024 bytes with a free
-- list or 4096 with a bitmap in V8 and V10, also behind the superblock in V10, and 8192 with either
-- form in V9), and the superblock, the chain blocks and the indirect blocks of the new descriptor
-- still hold what is laid in them.
pub apply_geom-HasLayout :
    (ed : Selector) (d d' : Desc) (g : Geom)
    → Family ed
    → getformat ed ≡ some d
    → apply_geom d ed g ≡ ok d'
    → HasLayout d' × IsGeometry ed d'.bsize d'.freemap
apply_geom-HasLayout ed d d' g f e a =
    accepted f g d' (subst (λ c. apply_geom c ed g ≡ ok d') (sym (base_format-getformat f d e)) a)
