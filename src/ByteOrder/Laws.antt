-- ===== src/ByteOrder/Laws.antt =====
-- The number that the bytes of a quantity stand for, and reading back what was written.
use filsys.Base.{
  ℕ, ◌+◌, ◌*◌, ◌%◌, ◌^◌, ◌<◌, ◌≡◌, arith, ◌∙◌, Bytes, u16, bit_or, bit_or_above, ◌<<◌,
}
use filsys.Base.{or_low, or_high, or_low_three, or_high_three, or_low_four, or_high_four}
use filsys.ByteOrder.{Order, le, be, me, get16, put16, get24, put24, get32, put32}

-- The number that the 2 bytes at an offset stand for.
abbrev pub value16 : Order → Bytes → ℕ → ℕ
value16 le b p = b p + b (p + 1) * 256
value16 be b p = b p * 256 + b (p + 1)
value16 me b p = b p + b (p + 1) * 256

pub get16-value :
    (o : Order) (b : Bytes) (p : ℕ) → b p < 256 → b (p + 1) < 256 → get16 o b p ≡ value16 o b p
unfolding get16
get16-value le b p h i = omega (arith, or_low (b p) (b (p + 1)) h i)
get16-value be b p h i = omega (arith, or_high (b p) (b (p + 1)) h i)
get16-value me b p h i = omega (arith, or_low (b p) (b (p + 1)) h i)

-- A quantity written at an offset reads back there, cut to 16 bits.
pub get16-put16 : (o : Order) (b : Bytes) (p v : ℕ) → get16 o (put16 o b p v) p ≡ v % 2 ^ 16
unfolding put16
get16-put16 le b p v =
    get16-value le (put16 le b p v) p (ground arith) (ground arith) ∙ ground arith
get16-put16 be b p v =
    get16-value be (put16 be b p v) p (ground arith) (ground arith) ∙ ground arith
get16-put16 me b p v =
    get16-value me (put16 me b p v) p (ground arith) (ground arith) ∙ ground arith

-- The number that the 3 bytes at an offset stand for.
abbrev pub value24 : Order → Bytes → ℕ → ℕ
value24 le b p = b p + b (p + 1) * 256 + b (p + 2) * 65536
value24 be b p = b p * 65536 + b (p + 1) * 256 + b (p + 2)
value24 me b p = b (p + 1) + b (p + 2) * 256 + b p * 65536

pub get24-value :
    (o : Order) (b : Bytes) (p : ℕ)
    → b p < 256
    → b (p + 1) < 256
    → b (p + 2) < 256
    → get24 o b p ≡ value24 o b p
unfolding get24
get24-value le b p h i j = or_low_three (b p) (b (p + 1)) (b (p + 2)) h i
get24-value be b p h i j = or_high_three (b p) (b (p + 1)) (b (p + 2)) i j
get24-value me b p h i j = or_low_three (b (p + 1)) (b (p + 2)) (b p) i j

-- A quantity written at an offset reads back there, cut to 24 bits.
pub get24-put24 : (o : Order) (b : Bytes) (p v : ℕ) → get24 o (put24 o b p v) p ≡ v % 2 ^ 24
unfolding put24
get24-put24 le b p v =
    get24-value le (put24 le b p v) p (ground arith) (ground arith) (ground arith) ∙ ground arith
get24-put24 be b p v =
    get24-value be (put24 be b p v) p (ground arith) (ground arith) (ground arith) ∙ ground arith
get24-put24 me b p v =
    get24-value me (put24 me b p v) p (ground arith) (ground arith) (ground arith) ∙ ground arith

-- The number that the 4 bytes at an offset stand for.
abbrev pub value32 : Order → Bytes → ℕ → ℕ
value32 le b p = b p + b (p + 1) * 256 + b (p + 2) * 65536 + b (p + 3) * 16777216
value32 be b p = b p * 16777216 + b (p + 1) * 65536 + b (p + 2) * 256 + b (p + 3)
value32 me b p = b p * 65536 + b (p + 1) * 16777216 + b (p + 2) + b (p + 3) * 256

pub get32-value :
    (o : Order) (b : Bytes) (p : ℕ)
    → b p < 256
    → b (p + 1) < 256
    → b (p + 2) < 256
    → b (p + 3) < 256
    → get32 o b p ≡ value32 o b p
unfolding get32
get32-value le b p h i j k = or_low_four (b p) (b (p + 1)) (b (p + 2)) h i (b (p + 3)) j
get32-value be b p h i j k = or_high_four (b p) (b (p + 1)) (b (p + 2)) i j (b (p + 3)) k
get32-value me b p h i j k =
    let next : p + 2 + 1 ≡ p + 3 = omega arith in
    rw next (
      let high : u16 (bit_or (b p) (b (p + 1) << 8)) ≡ b p + b (p + 1) * 256 =
        omega (arith, or_low (b p) (b (p + 1)) h i) in
      let low : u16 (bit_or (b (p + 2)) (b (p + 3) << 8)) ≡ b (p + 2) + b (p + 3) * 256 =
        omega (arith, or_low (b (p + 2)) (b (p + 3)) j k) in
      rw high (
        rw low
          (omega (arith, bit_or_above 16 (b (p + 2) + b (p + 3) * 256) (b p + b (p + 1) * 256)))))

-- A quantity written at an offset reads back there, cut to 32 bits.
pub get32-put32 : (o : Order) (b : Bytes) (p v : ℕ) → get32 o (put32 o b p v) p ≡ v % 2 ^ 32
unfolding put32
get32-put32 le b p v =
    get32-value le (put32 le b p v) p (ground arith) (ground arith) (ground arith) (ground arith)
    ∙ ground arith
get32-put32 be b p v =
    get32-value be (put32 be b p v) p (ground arith) (ground arith) (ground arith) (ground arith)
    ∙ ground arith
get32-put32 me b p v =
    get32-value me (put32 me b p v) p (ground arith) (ground arith) (ground arith) (ground arith)
    ∙ ground arith

pub get16-lt : (o : Order) (b : Bytes) (p : ℕ) → get16 o b p < 2 ^ 16
unfolding get16
get16-lt le b p = omega arith
get16-lt be b p = omega arith
get16-lt me b p = omega arith
