-- ===== src/Tests/Sample.antt =====
-- A small V7 volume: 20 blocks of 512 bytes, data from block 4 on, on a host without failures.
use filsys.Base.{ℕ, zero, suc, false, zeros, List, [], ◌∷◌}
use filsys.Volume.{Desc, Host, Edition}
use filsys.Format.{v7_format}

abbrev pub v7_desc : Desc
v7_desc = v7_format

abbrev pub steady : Host
steady = record { pread_count = λ off n. n; pwrite_count = λ off n. n; now = 1000 }

-- The entries of a list as an array, 0 behind its end.
abbrev pub array : List ℕ → ℕ → ℕ
array [] i = 0
array (x ∷ xs) zero = x
array (x ∷ xs) (suc i) = array xs i

-- The cache holds the end mark, block 5 and block 6.
abbrev pub small : Edition
small = record {
  desc = v7_desc;
  host = steady;
  img = zeros;
  readonly = false;
  base = 0;
  imgsize = 10240;
  isize = 4;
  fsize = 20;
  fl = record {
    nfree = 3;
    ninode = 1;
    free = array (0 ∷ 5 ∷ 6 ∷ []);
    inode = array (3 ∷ []);
    tfree = 2;
    tinode = 1;
  };
  time = 0;
  m = 1;
  n = 1;
  unique = 0;
  fmod = 0;
  fl_dirty = false;
  v8_bits = zeros;
  v8_nbits = 0;
  v8_base = 0;
  v8_nblks = 0;
  v8_blk_start = 0;
}
