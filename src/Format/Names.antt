-- ===== src/Format/Names.antt =====
-- filsys_names.c: the spellings of the editions, and the byte order of an architecture. What the
-- command line prints about a wrong name is not modelled.
pub mod Spellings
use filsys.Base.{ℕ, zero, suc, Bool, false, ◌||◌, ◌≡◌, ◌==◌, if◌then◌else◌, List, [], ◌∷◌, ◌++◌}
use filsys.Base.{Option, none, some, Name, same_name, codes}
use filsys.ByteOrder.{Order, le, be, me}
use filsys.FreeList.Chain.{All}
use filsys.Format.{
  Selector, pdp7, v1, v6, v7, v8, v9, v10, vax32, coherent, xenix, bsd29, bsd211, sysiii, sysvr2,
  sysvr4, unix,
}

-- `filsys_format_t`
pub record Row : Type 0 where
  pub edition : Selector
  pub name : Name
  pub aliases : List Name

unfoldable pub formats : List Row
formats =
    record { edition = pdp7; name = codes "pdp7"; aliases = codes "0" ∷ codes "p7" ∷ [] }
    ∷ record { edition = v1; name = codes "v1"; aliases = codes "1" ∷ codes "2" ∷ codes "3" ∷ [] }
    ∷ record {
      edition = v6;
      name = codes "v6";
      aliases = codes "4" ∷ codes "5" ∷ codes "6" ∷ codes "usgpg3" ∷ [];
    }
    ∷ record { edition = v7; name = codes "v7"; aliases = codes "7" ∷ codes "sysvr1" ∷ [] }
    ∷ record { edition = v8; name = codes "v8"; aliases = codes "8" ∷ [] }
    ∷ record { edition = v9; name = codes "v9"; aliases = codes "9" ∷ [] }
    ∷ record { edition = v10; name = codes "v10"; aliases = codes "10" ∷ [] }
    ∷ record { edition = vax32; name = codes "vax32"; aliases = codes "32v" ∷ codes "32" ∷ [] }
    ∷ record {
      edition = coherent;
      name = codes "coherent";
      aliases = codes "coh" ∷ codes "33" ∷ [];
    }
    ∷ record { edition = xenix; name = codes "xenix"; aliases = codes "34" ∷ [] }
    ∷ record { edition = bsd29; name = codes "bsd29"; aliases = codes "35" ∷ [] }
    ∷ record { edition = bsd211; name = codes "bsd211"; aliases = codes "36" ∷ [] }
    ∷ record { edition = sysiii; name = codes "sysiii"; aliases = codes "sys3" ∷ [] }
    ∷ record {
      edition = sysvr2;
      name = codes "sysvr2";
      aliases =
          codes "sys5"
          ∷ codes "s5"
          ∷ codes "sysv2"
          ∷ codes "sysv"
          ∷ codes "sysvax"
          ∷ codes "sysv386"
          ∷ [];
    }
    ∷ record {
      edition = sysvr4;
      name = codes "sysvr4";
      aliases = codes "svr4" ∷ codes "sysv4" ∷ codes "s5r4" ∷ [];
    }
    ∷ []

-- `filsys_format_nth`
unfoldable pub format_nth : List Row → ℕ → Option Row
format_nth [] i = none
format_nth (r ∷ rows) zero = some r
format_nth (r ∷ rows) (suc i) = format_nth rows i

unfoldable pub is_among : Name → List Name → Bool
is_among name [] = false
is_among name (a ∷ more) = same_name name a || is_among name more

-- The first row that has the name.
unfoldable pub find_format : List Row → Name → Option Selector
find_format [] name = none
find_format (r ∷ rows) name =
    if same_name name r.name || is_among name r.aliases
    then some r.edition
    else find_format rows name

-- A leading v or V is left out.
unfoldable pub stripped : Name → Name
stripped [] = []
stripped (c ∷ name) = if c == b'v' || c == b'V' then name else c ∷ name

-- `filsys_edition_by_name`; `none` for -1
unfoldable pub edition_by_name : Name → Option Selector
edition_by_name name =
    if same_name name (codes "vax32") || same_name name (codes "VAX32")
    then some vax32
    else if same_name name (codes "unix")
        || same_name name (codes "auto")
        || same_name name (codes "any")
    then some unix
    else find_format formats (stripped name)

-- `filsys_editions_usage`, whose text is shorter than its buffer
unfoldable pub usage : List Row → Name
usage [] = codes "|unix"
usage (r ∷ rows) = 124 ∷ (r.name ++ usage rows)

-- ---- architectures

unfoldable pub archs : List (Name × Order)
archs =
    (codes "pdp11", me)
    ∷ (codes "vax", le)
    ∷ (codes "x86", le)
    ∷ (codes "386", le)
    ∷ (codes "i386", le)
    ∷ (codes "ns32k", le)
    ∷ (codes "ns32000", le)
    ∷ (codes "i860", le)
    ∷ (codes "clipper", le)
    ∷ (codes "3b2", be)
    ∷ (codes "3b20", be)
    ∷ (codes "we32000", be)
    ∷ (codes "68k", be)
    ∷ (codes "m68k", be)
    ∷ (codes "68000", be)
    ∷ (codes "sparc", be)
    ∷ (codes "mips", be)
    ∷ (codes "parisc", be)
    ∷ (codes "hppa", be)
    ∷ (codes "powerpc", be)
    ∷ (codes "ppc", be)
    ∷ []

unfoldable pub find_arch : List (Name × Order) → Name → Option Order
find_arch [] arch = none
find_arch ((name, bo) ∷ more) arch = if same_name arch name then some bo else find_arch more arch

-- `filsys_arch_bo`
unfoldable pub arch_bo : Name → Option Order
arch_bo arch = find_arch archs arch
