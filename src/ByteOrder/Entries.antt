-- ===== src/ByteOrder/Entries.antt =====
-- An array of equal entries in a buffer: the loops that put or get one entry at a time, over any
-- codec that keeps its own bytes.
use native.Mathlib.Decide.{ℕ_discrete}
use filsys.Base.{ℕ, zero, suc, ◌+◌, ◌*◌, ◌%◌, ◌^◌, ◌≤◌, ◌<◌, ◌≡◌, ◌∙◌, refl, inl, inr, arith}
use filsys.Base.{Bytes, Agrees, Apart, ltb, if◌then◌else◌}
use filsys.ByteOrder.{Order, get16, put16, get24, put24, get32, put32}
use filsys.ByteOrder.Laws.{get16-put16, get24-put24, get32-put32}
use filsys.ByteOrder.Frame.{
  get16-Agrees, put16-Agrees, get24-Agrees, put24-Agrees, get32-Agrees, put32-Agrees,
}

-- One entry of `width` bytes and what it keeps: the interface that the loops are proved over.
pub record Codec : Type 0 where
  pub width : ℕ
  pub get : Bytes → ℕ → ℕ
  pub put : Bytes → ℕ → ℕ → Bytes
  pub get-put : (b : Bytes) (p v : ℕ) → get (put b p v) p ≡ v % 2 ^ (8 * width)
  pub get-Agrees : (b c : Bytes) (p : ℕ) → Agrees b c p width → get b p ≡ get c p
  pub put-Agrees : (b : Bytes) (q v p n : ℕ) → Apart p n q width → Agrees (put b q v) b p n

abbrev pub codec16 : Order → Codec
codec16 o = record {
  width = 2;
  get = get16 o;
  put = put16 o;
  get-put = get16-put16 o;
  get-Agrees = get16-Agrees o;
  put-Agrees = put16-Agrees o;
}

abbrev pub codec24 : Order → Codec
codec24 o = record {
  width = 3;
  get = get24 o;
  put = put24 o;
  get-put = get24-put24 o;
  get-Agrees = get24-Agrees o;
  put-Agrees = put24-Agrees o;
}

abbrev pub codec32 : Order → Codec
codec32 o = record {
  width = 4;
  get = get32 o;
  put = put32 o;
  get-put = get32-put32 o;
  get-Agrees = get32-Agrees o;
  put-Agrees = put32-Agrees o;
}

-- `for (i = 0; i < n; i++) put(b + p + width * i, a[i])`
unfoldable pub put_all : Codec → Bytes → ℕ → ℕ → (ℕ → ℕ) → Bytes
put_all c b p zero a = b
put_all c b p (suc n) a = c.put (put_all c b p n a) (p + c.width * n) (a n)

-- `for (i = 0; i < n; i++) a[i] = get(b + p + width * i)`
abbrev pub get_all : Codec → Bytes → ℕ → ℕ → (ℕ → ℕ) → ℕ → ℕ
get_all c b p n a i = if ltb i n then c.get b (p + c.width * i) else a i

module _ (c : Codec) (b : Bytes) (p : ℕ) (a : ℕ → ℕ) where
  -- The loop leaves every range apart from its entries alone.
  pub put_all-Agrees : (n q m : ℕ) → Apart q m p (c.width * n) → Agrees (put_all c b p n a) b q m
  unfolding put_all
  put_all-Agrees zero q m h i l = refl
  put_all-Agrees (suc n) q m h i l =
      c.put-Agrees (put_all c b p n a) (p + c.width * n) (a n) q m (last h) i l
      ∙ put_all-Agrees n q m (init h) i l
    where
      init : Apart q m p (c.width * suc n) → Apart q m p (c.width * n)
      init (inl k) = inl (omega arith)
      init (inr k) = inr (omega arith)

      last : Apart q m p (c.width * suc n) → Apart q m (p + c.width * n) c.width
      last (inl k) = inl (omega arith)
      last (inr k) = inr (omega arith)

  -- Every entry reads back.
  pub get-put_all :
      (n i : ℕ) → i < n → c.get (put_all c b p n a) (p + c.width * i) ≡ a i % 2 ^ (8 * c.width)
  unfolding put_all
  get-put_all zero i l = absurd (omega arith)
  get-put_all (suc n) i l = elim (ℕ_discrete i n) [
    | yes e ↦ rw e (c.get-put (put_all c b p n a) (p + c.width * n) (a n))
    | no ne ↦
        let below : i < n = omega arith in
        let room : p + c.width * i + c.width ≤ p + c.width * n = grind arith in
        c.get-Agrees _ _ _ (c.put-Agrees (put_all c b p n a) (p + c.width * n) (a n) _ _ (inl room))
        ∙ get-put_all n i below
  ]
