-- ===== src/ByteOrder.antt =====
-- byteorder.c and byteorder.h: 16-, 24- and 32-bit quantities in the three byte orders of the
-- formats, and the table of operations of an order. A `uint8_t *p` is a buffer and an offset.
pub mod Laws
pub mod Frame
pub mod Entries
use filsys.Base.{ℕ, ◌+◌, Bytes, poke, bit_or, u8, u16, u32, low_bits, ◌<<◌, ◌>>◌}

-- ---- little-endian

pub get16le : Bytes → ℕ → ℕ
get16le b p = u16 (bit_or (b p) (b (p + 1) << 8))

pub put16le : Bytes → ℕ → ℕ → Bytes
put16le b p v = poke (poke b p (u8 (low_bits v 8))) (p + 1) (u8 (v >> 8))

pub get24le : Bytes → ℕ → ℕ
get24le b p = bit_or (bit_or (b p) (b (p + 1) << 8)) (b (p + 2) << 16)

pub put24le : Bytes → ℕ → ℕ → Bytes
put24le b p v =
    poke (poke (poke b p (u8 (low_bits v 8))) (p + 1) (u8 (low_bits (v >> 8) 8))) (p + 2)
      (u8 (low_bits (v >> 16) 8))

pub get32le : Bytes → ℕ → ℕ
get32le b p = bit_or (bit_or (bit_or (b p) (b (p + 1) << 8)) (b (p + 2) << 16)) (b (p + 3) << 24)

pub put32le : Bytes → ℕ → ℕ → Bytes
put32le b p v =
    poke (poke (poke (poke b p (u8 v)) (p + 1) (u8 (v >> 8))) (p + 2) (u8 (v >> 16))) (p + 3)
      (u8 (v >> 24))

-- ---- big-endian

pub get16be : Bytes → ℕ → ℕ
get16be b p = u16 (bit_or (b p << 8) (b (p + 1)))

pub put16be : Bytes → ℕ → ℕ → Bytes
put16be b p v = poke (poke b p (u8 (v >> 8))) (p + 1) (u8 (low_bits v 8))

pub get24be : Bytes → ℕ → ℕ
get24be b p = bit_or (bit_or (b p << 16) (b (p + 1) << 8)) (b (p + 2))

pub put24be : Bytes → ℕ → ℕ → Bytes
put24be b p v =
    poke (poke (poke b p (u8 (low_bits (v >> 16) 8))) (p + 1) (u8 (low_bits (v >> 8) 8))) (p + 2)
      (u8 (low_bits v 8))

pub get32be : Bytes → ℕ → ℕ
get32be b p = bit_or (bit_or (bit_or (b p << 24) (b (p + 1) << 16)) (b (p + 2) << 8)) (b (p + 3))

pub put32be : Bytes → ℕ → ℕ → Bytes
put32be b p v =
    poke (poke (poke (poke b p (u8 (v >> 24))) (p + 1) (u8 (v >> 16))) (p + 2) (u8 (v >> 8)))
      (p + 3) (u8 v)

-- ---- middle-endian (PDP-11)

pub get16me : Bytes → ℕ → ℕ
unfolding get16le
get16me b p = get16le b p

pub put16me : Bytes → ℕ → ℕ → Bytes
unfolding put16le
put16me b p v = put16le b p v

pub get24me : Bytes → ℕ → ℕ
get24me b p = bit_or (bit_or (b (p + 1)) (b (p + 2) << 8)) (b p << 16)

pub put24me : Bytes → ℕ → ℕ → Bytes
put24me b p v =
    poke (poke (poke b p (u8 (low_bits (v >> 16) 8))) (p + 1) (u8 (low_bits v 8))) (p + 2)
      (u8 (low_bits (v >> 8) 8))

pub get32me : Bytes → ℕ → ℕ
unfolding get16le
get32me b p = bit_or (get16le b p << 16) (get16le b (p + 2))

pub put32me : Bytes → ℕ → ℕ → Bytes
unfolding put16le
put32me b p v = put16le (put16le b p (u16 (v >> 16))) (p + 2) (low_bits v 16)

-- ---- one table for each byte order: `byte_order_ops_t` with `bo_le`, `bo_be` and `bo_me`

pub data Order : Type 0 where
  le be me : Order

unfoldable pub get16 : Order → Bytes → ℕ → ℕ
unfolding get16le get16be get16me
get16 le = get16le
get16 be = get16be
get16 me = get16me

unfoldable pub put16 : Order → Bytes → ℕ → ℕ → Bytes
unfolding put16le put16be put16me
put16 le = put16le
put16 be = put16be
put16 me = put16me

unfoldable pub get24 : Order → Bytes → ℕ → ℕ
unfolding get24le get24be get24me
get24 le = get24le
get24 be = get24be
get24 me = get24me

unfoldable pub put24 : Order → Bytes → ℕ → ℕ → Bytes
unfolding put24le put24be put24me
put24 le = put24le
put24 be = put24be
put24 me = put24me

unfoldable pub get32 : Order → Bytes → ℕ → ℕ
unfolding get32le get32be get32me
get32 le = get32le
get32 be = get32be
get32 me = get32me

unfoldable pub put32 : Order → Bytes → ℕ → ℕ → Bytes
unfolding put32le put32be put32me
put32 le = put32le
put32 be = put32be
put32 me = put32me
