-- ===== src/Open/Mount.antt =====
-- filsys_open_arch of filsys.c, for the editions of the V7 engine: the descriptor, the byte order,
-- the open of the volume, the lock and the dirty mark. The heap does not fail. The host's part is a
-- parameter: how the path opens, the size of the image, and whether the lock is granted.
use filsys.Base.{ℕ, Bool, true, false, not, ◌||◌, if◌then◌else◌, ◌≡◌, zeros}
use filsys.Base.{Bytes, Option, none, some, Name, Outcome, ok, err, einval, ebusy, ◌>>=◌}
use filsys.Volume.{Desc, Edition, Host, Step}
use filsys.Lifecycle.{mark_dirty, close}
use filsys.Format.{Selector, v8, v9, v10, getformat, Geom, apply_geom}
use filsys.Format.Bytesex.{Image, resolve_byteorder}
use filsys.Open.{open_volume}
use filsys.Open.Checks.{IsSound}

-- What the host does with the path.
pub record Site : Type 0 where
  pub image : Image
  pub host : Host
  pub opened : Outcome (Unit {0})
  pub size : Option ℕ
  pub lock : Bool

-- The new state with its descriptor, before the superblock is read.
abbrev pub fresh_volume : Site → Desc → Bool → ℕ → Edition
fresh_volume site d readonly offset = record {
  desc = d;
  host = site.host;
  img = site.image.bytes;
  readonly = readonly;
  base = offset;
  imgsize = 0;
  isize = 0;
  fsize = 0;
  fl = record { nfree = 0; ninode = 0; free = λ _. 0; inode = λ _. 0; tfree = 0; tinode = 0 };
  time = 0;
  m = 0;
  n = 0;
  unique = 0;
  fmod = 0;
  fl_dirty = false;
  v8_bits = zeros;
  v8_nbits = 0;
  v8_base = 0;
  v8_nblks = 0;
  v8_blk_start = 0;
}

abbrev pub is_v8_family : Selector → Bool
is_v8_family v8 = true
is_v8_family v9 = true
is_v8_family v10 = true
is_v8_family other = false

-- The geometry options count in the V8 family.
unfoldable pub with_geom : Desc → Selector → Option Geom → Outcome Desc
with_geom d ed none = ok d
with_geom d ed (some g) = if is_v8_family ed then apply_geom d ed g else ok d

-- A volume that cannot be marked is closed again.
unfoldable pub or_close : Step (Unit {0}) → Outcome Edition × Bytes
or_close (ok u, fs) = (ok fs, fs.img)
or_close (err e, fs) = (err e, (close fs).1.img)

-- The lock, which a mount for reading does not take, and the dirty mark.
unfoldable pub enter_mount : Site → Bool → Edition → Outcome Edition × Bytes
enter_mount site no_lock fs =
    if not (no_lock || fs.readonly || site.lock)
    then (err ebusy, (close fs).1.img)
    else if fs.readonly
    then (ok fs, fs.img)
    else or_close (mark_dirty fs)

-- The volume that the selected descriptor opens.
unfoldable pub open_format :
    Site → Selector → Bool → ℕ → Option Name → Bool → Option Geom → Desc → Outcome Edition
open_format site ed readonly offset arch force geom fmt = with_geom fmt ed geom >>= λ d.
    resolve_byteorder d site.image offset arch force >>= λ d'.
    site.opened >>= λ _. open_volume site.size (fresh_volume site d' readonly offset)

-- The result, and the backing file as the open leaves it.
unfoldable pub open_arch :
    Site → Selector → Bool → ℕ → Option Name → Bool → Option Geom → Bool → Outcome Edition × Bytes
open_arch site ed readonly offset arch force geom no_lock = elim (getformat ed) [
  | none ↦ (err einval, site.image.bytes)
  | some fmt ↦ elim (open_format site ed readonly offset arch force geom fmt) [
    | err e ↦ (err e, site.image.bytes)
    | ok fs ↦ enter_mount site no_lock fs
  ]
]

-- A mounted volume passed the checks of the open, and is marked dirty if it can be written.
pub record IsEntered (g : Edition) : Type 0 where
  pub sound : IsSound g
  pub dirty : g.readonly ≡ false → g.fmod ≡ 1
