-- ===== src/ByteOrder/Frame.antt =====
-- What a read needs and what a write leaves alone.
use filsys.Base.{ℕ, ◌≡◌, arith, Bytes, Agrees, Apart}
use filsys.ByteOrder.{Order, le, be, me, get16, put16, get24, put24, get32, put32}

-- A read of 16 bits depends on its 2 bytes alone.
pub get16-Agrees : (o : Order) (b c : Bytes) (p : ℕ) → Agrees b c p 2 → get16 o b p ≡ get16 o c p
unfolding get16
get16-Agrees le b c p h = ground (arith, h 0, h 1)
get16-Agrees be b c p h = ground (arith, h 0, h 1)
get16-Agrees me b c p h = ground (arith, h 0, h 1)

-- A write of 16 bits leaves every range apart from its 2 bytes alone.
pub put16-Agrees :
    (o : Order) (b : Bytes) (q v p n : ℕ) → Apart p n q 2 → Agrees (put16 o b q v) b p n
unfolding put16
put16-Agrees le b q v p n a i l = ground arith
put16-Agrees be b q v p n a i l = ground arith
put16-Agrees me b q v p n a i l = ground arith

-- A read of 24 bits depends on its 3 bytes alone.
pub get24-Agrees : (o : Order) (b c : Bytes) (p : ℕ) → Agrees b c p 3 → get24 o b p ≡ get24 o c p
unfolding get24
get24-Agrees le b c p h = ground (arith, h 0, h 1, h 2)
get24-Agrees be b c p h = ground (arith, h 0, h 1, h 2)
get24-Agrees me b c p h = ground (arith, h 0, h 1, h 2)

-- A write of 24 bits leaves every range apart from its 3 bytes alone.
pub put24-Agrees :
    (o : Order) (b : Bytes) (q v p n : ℕ) → Apart p n q 3 → Agrees (put24 o b q v) b p n
unfolding put24
put24-Agrees le b q v p n a i l = ground arith
put24-Agrees be b q v p n a i l = ground arith
put24-Agrees me b q v p n a i l = ground arith

-- A read of 32 bits depends on its 4 bytes alone.
pub get32-Agrees : (o : Order) (b c : Bytes) (p : ℕ) → Agrees b c p 4 → get32 o b p ≡ get32 o c p
unfolding get32
get32-Agrees le b c p h = ground (arith, h 0, h 1, h 2, h 3)
get32-Agrees be b c p h = ground (arith, h 0, h 1, h 2, h 3)
get32-Agrees me b c p h = ground (arith, h 0, h 1, h 2, h 3)

-- A write of 32 bits leaves every range apart from its 4 bytes alone.
pub put32-Agrees :
    (o : Order) (b : Bytes) (q v p n : ℕ) → Apart p n q 4 → Agrees (put32 o b q v) b p n
unfolding put32
put32-Agrees le b q v p n a i l = ground arith
put32-Agrees be b q v p n a i l = ground arith
put32-Agrees me b q v p n a i l = ground arith
