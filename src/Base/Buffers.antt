-- ===== src/Base/Buffers.antt =====
-- A byte buffer or a byte image, as the function from an offset to the byte there: `buf + off` of
-- the source is an offset argument. A write is pointwise.
use Prim.Native.Nat.{ℕ, ◌+◌, ◌-◌, ◌≤◌, ◌<◌}
use mathlib.Core.Path.{◌≡◌, ap}
use mathlib.Core.Logic.{◌⊎◌}
use mathlib.Core.Bool.{◌&&◌}
use native.Mathlib.Omega.{arith}
use filsys.Base.Tests.{◌==◌, ltb, leb, if◌then◌else◌}

abbrev pub Bytes : Type 0
Bytes = ℕ → ℕ

-- `b[p] = v`
abbrev pub poke : Bytes → ℕ → ℕ → Bytes
poke b p v q = if q == p then v else b q

-- `memset(buf, 0, n)` of a fresh buffer
abbrev pub zeros : Bytes
zeros q = 0

-- `memcpy(dst + off, src, n)`
abbrev pub blit : Bytes → ℕ → ℕ → Bytes → Bytes
blit dst off n src q = if leb off q && ltb q (off + n) then src (q - off) else dst q

-- `b + p` as a buffer of its own
abbrev pub from : Bytes → ℕ → Bytes
from b p q = b (p + q)

-- `b` and `c` hold the same `n` bytes at `p`.
abbrev pub Agrees : Bytes → Bytes → ℕ → ℕ → Type 0
Agrees b c p n = (i : ℕ) → i < n → b (p + i) ≡ c (p + i)

-- The `n` bytes at `p` and the `m` bytes at `q` do not meet.
abbrev pub Apart : ℕ → ℕ → ℕ → ℕ → Type 0
Apart p n q m = (p + n ≤ q) ⊎ (q + m ≤ p)

-- Every cell is a `uint8_t`.
abbrev pub IsBytes : Bytes → Type 0
IsBytes b = (i : ℕ) → b i < 256

pub blit-Agrees :
    (dst : Bytes) (off n : ℕ) (src : Bytes) (p m : ℕ)
    → Apart p m off n
    → Agrees (blit dst off n src) dst p m
blit-Agrees dst off n src p m a i h = ground arith

pub blit-from :
    (dst : Bytes) (off n : ℕ) (src : Bytes) (i : ℕ) → i < n → blit dst off n src (off + i) ≡ src i
blit-from dst off n src i h = let e : off + i - off ≡ i = omega arith in ground (arith, ap src e)
