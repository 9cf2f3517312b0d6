-- ===== src/Directory/Names.antt =====
-- The names in fixed entries: what is stored is compared and read back as the name it was.
use filsys.Base.{ℕ, zero, suc, ◌+◌, ◌≤◌, ◌<◌, Bool, ◌&&◌, ◌≡◌, ◌≢◌, refl, ap, ◌∙◌, arith}
use filsys.Base.{[], ◌∷◌, Name, length, text, same_name, Bytes, zeros, u16, ◌==◌}
use filsys.ByteOrder.{Order, le, be, me, get16, put16}
use native.Mathlib.Decide.{dec_lt}
use filsys.Base.{Agrees, blit-from, blit-Agrees, inl, inr, from, not, ap₂}
use filsys.ByteOrder.Frame.{get16-Agrees, put16-Agrees}
use filsys.ByteOrder.Laws.{get16-put16}
use filsys.Volume.{Edition}
use filsys.Directory.{fixed_name_eq, entry_bytes, is_named}
use filsys.Directory.Iterate.{read_name}

-- A C string has no NUL among its bytes.
abbrev pub IsText : Name → Type 0
IsText [] = Unit {0}
IsText (c ∷ n) = (c ≢ 0) × IsText n

-- The `max` bytes at `o` are the name with zeros behind it.
abbrev pub Stores : Bytes → ℕ → ℕ → Name → Type 0
Stores blk o max a = (i : ℕ) → i < max → blk (o + i) ≡ text a i

Stores-first : (blk : Bytes) (o max : ℕ) (a : Name) → Stores blk o (suc max) a → blk o ≡ text a 0
Stores-first blk o max a s = ap blk (omega arith) ∙ s 0 (omega arith)

Stores-rest :
    (blk : Bytes) (o max c : ℕ) (a : Name)
    → Stores blk o (suc max) (c ∷ a)
    → Stores blk (o + 1) max a
Stores-rest blk o max c a s i l = ap blk (omega arith) ∙ s (suc i) (omega (arith, l))

fixed_name_eq-same_name :
    (blk : Bytes) (o max : ℕ) (a b : Name)
    → Stores blk o max a
    → IsText a
    → IsText b
    → length a ≤ max
    → length b ≤ max
    → fixed_name_eq blk o b max ≡ same_name a b
unfolding fixed_name_eq same_name
fixed_name_eq-same_name blk o zero [] [] s ta tb la lb = refl
fixed_name_eq-same_name blk o zero [] (c ∷ b) s ta tb la lb = absurd (omega (arith, lb))
fixed_name_eq-same_name blk o zero (x ∷ a) b s ta tb la lb = absurd (omega (arith, la))
fixed_name_eq-same_name blk o (suc max) [] [] s ta tb la lb =
    ground (arith, Stores-first blk o max [] s)
fixed_name_eq-same_name blk o (suc max) [] (c ∷ b) s ta tb la lb =
    ground (arith, Stores-first blk o max [] s, tb.0)
fixed_name_eq-same_name blk o (suc max) (x ∷ a) [] s ta tb la lb =
    ground (arith, Stores-first blk o max (x ∷ a) s, ta.0)
fixed_name_eq-same_name blk o (suc max) (x ∷ a) (c ∷ b) s ta tb la lb = ground (
  arith,
  Stores-first blk o max (x ∷ a) s,
  fixed_name_eq-same_name blk (o + 1) max a b (Stores-rest blk o max x a s) ta.1 tb.1
      (omega (arith, la)) (omega (arith, lb)),
)

read_name-text :
    (blk : Bytes) (o max : ℕ) (a : Name)
    → Stores blk o max a
    → IsText a
    → length a ≤ max
    → read_name blk o max ≡ a
unfolding read_name
read_name-text blk o zero [] s t l = refl
read_name-text blk o zero (x ∷ a) s t l = absurd (omega (arith, l))
read_name-text blk o (suc max) [] s t l = ground (arith, Stores-first blk o max [] s)
read_name-text blk o (suc max) (x ∷ a) s t l = ground (
  arith,
  Stores-first blk o max (x ∷ a) s,
  t.0,
  read_name-text blk (o + 1) max a (Stores-rest blk o max x a s) t.1 (omega (arith, l)),
)

text_end : (a : Name) (i : ℕ) → length a ≤ i → text a i ≡ 0
text_end [] i l = refl
text_end (x ∷ a) zero l = absurd (omega (arith, l))
text_end (x ∷ a) (suc i) l = text_end a i (omega (arith, l))

entry_bytes-text : (fs : Edition) (ino i : ℕ) (a : Name) → entry_bytes fs ino a (2 + i) ≡ text a i
entry_bytes-text fs ino i a = elim (dec_lt i (length a)) [
  | yes l ↦ blit-from (put16 fs.desc.bo zeros 0 (u16 ino)) 2 (length a) (text a) i l
  | no l ↦ ground (
    arith,
    l,
    put16-Agrees fs.desc.bo zeros 0 (u16 ino) 2 (i + 1) (inr (omega arith)) i (omega arith),
    text_end a i (omega (arith, l)),
  )
]

get16-from : (o : Order) (blk : Bytes) (b : ℕ) → get16 o blk b ≡ get16 o (from blk b) 0
unfolding get16
get16-from le blk b = ground arith
get16-from be blk b = ground arith
get16-from me blk b = ground arith

-- Where the bytes of a new entry stand in a directory, for a name without a NUL of at most
-- `max_namlen` bytes, the reader finds the low 16 bits of the inode's number and the name itself,
-- and a lookup takes the entry for a name of that kind exactly when the number is not 0 and the
-- names are the same. The entry has room for its number and `max_namlen` bytes.
pub is_named-entry_bytes :
    (fs : Edition) (blk : Bytes) (b ino : ℕ) (a name : Name)
    → fs.desc.max_namlen + 2 ≤ fs.desc.dirent_size
    → Agrees (from blk b) (entry_bytes fs ino a) 0 fs.desc.dirent_size
    → IsText a
    → length a ≤ fs.desc.max_namlen
    → IsText name
    → length name ≤ fs.desc.max_namlen
    → (get16 fs.desc.bo blk b ≡ u16 ino)
      × (read_name blk (b + 2) fs.desc.max_namlen ≡ a)
      × (is_named fs name blk b ≡ not (u16 ino == 0) && same_name a name)
is_named-entry_bytes fs blk b ino a name room here ta la tn ln =
    let max = fs.desc.max_namlen in
    let stored : Stores blk (b + 2) max a = λ i l.
      ap blk (omega arith)
      ∙ here (2 + i) (omega (arith, l, room))
      ∙ ap (entry_bytes fs ino a) (omega arith)
      ∙ entry_bytes-text fs ino i a in
    let number : get16 fs.desc.bo blk b ≡ u16 ino =
      get16-from fs.desc.bo blk b
      ∙ get16-Agrees fs.desc.bo (from blk b) (entry_bytes fs ino a) 0
          (λ i l. here i (omega (arith, l, room)))
      ∙ get16-Agrees fs.desc.bo (entry_bytes fs ino a) (put16 fs.desc.bo zeros 0 (u16 ino)) 0 (
          blit-Agrees (put16 fs.desc.bo zeros 0 (u16 ino)) 2 (length a) (text a) 0 2
            (inl (omega arith)))
      ∙ get16-put16 fs.desc.bo zeros 0 (u16 ino)
      ∙ omega arith in
    (
      number,
      read_name-text blk (b + 2) max a stored ta la,
      ap₂ (λ (v : ℕ) (t : Bool). not (v == 0) && t) number
          (fixed_name_eq-same_name blk (b + 2) max a name stored ta tn la ln),
    )
