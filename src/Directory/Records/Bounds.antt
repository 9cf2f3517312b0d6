-- ===== src/Directory/Records/Bounds.antt =====
-- What the walk over the records of a 2.11BSD directory accepts, and where it stops.
use filsys.Base.{ℕ, zero, suc, ◌+◌, ◌-◌, ◌/◌, ◌%◌, ◌≤◌, false, ◌≡◌, refl, sym, ap, ◌∙◌}
use filsys.Base.{arith, Bool-cases, inl, inr, List, [], ◌∷◌, Option, none, some, Bytes, ltb, ◌==◌}
use filsys.Volume.{Desc}
use filsys.File.Read.{div_within}
use filsys.Directory.Records.{
  Rec, end_of, header, is_malformed, next_record, records, all_records, last,
}

-- A record at `off` of a buffer of `n` bytes: aligned, inside the buffer with its header, its name and
-- the NUL behind it, and in one chunk of 512 bytes.
abbrev pub IsPlaced : Desc → ℕ → ℕ → Rec → Type 0
IsPlaced d n off r =
    (r.off ≡ off)
    × (off % 4 ≡ 0)
    × (r.reclen % 4 ≡ 0)
    × (6 + r.namlen + 1 ≤ r.reclen)
    × (r.namlen ≤ d.max_namlen)
    × (end_of r ≤ n)
    × ((end_of r - 1) / 512 ≡ off / 512)

-- The records lie one behind the other from `off` on.
abbrev pub Laid : Desc → ℕ → ℕ → List Rec → Type 0
Laid d n off [] = Unit {0}
Laid d n off (r ∷ rs) = IsPlaced d n off r × Laid d n (end_of r) rs

-- One past the last record.
abbrev pub stop : ℕ → List Rec → ℕ
stop off [] = off
stop off (r ∷ rs) = stop (end_of r) rs

module _ (d : Desc) (buf : Bytes) (n : ℕ) where
  -- What a record passed.
  accepted :
      (off : ℕ) (r : Rec)
      → next_record d buf n off ≡ some r
      → (off % 4 ≡ 0) × (is_malformed d n r ≡ false) × (header d buf off ≡ r)
  unfolding next_record
  accepted off r e = elim (Bool-cases (off % 4 == 0)) [
    | inr a ↦ absurd (ground (arith, a, e))
    | inl a ↦ elim (Bool-cases (ltb n (off + 6))) [
      | inl b ↦ absurd (ground (arith, a, b, e))
      | inr b ↦ elim (Bool-cases (is_malformed d n (header d buf off))) [
        | inl m ↦ absurd (ground (arith, a, b, m, e))
        | inr m ↦
            let same : header d buf off ≡ r = ground (arith, a, b, m, e) in
            (ground (arith, a), ap (is_malformed d n) (sym same) ∙ m, same)
      ]
    ]
  ]

  well_formed :
      (r : Rec)
      → is_malformed d n r ≡ false
      → (8 ≤ r.reclen)
        × (r.reclen % 4 ≡ 0)
        × (6 + r.namlen + 1 ≤ r.reclen)
        × (r.namlen ≤ d.max_namlen)
        × (end_of r ≤ n)
        × (r.off % 512 + r.reclen ≤ 512)
  unfolding is_malformed
  well_formed r m = (
    ground (arith, m),
    ground (arith, m),
    ground (arith, m),
    ground (arith, m),
    ground (arith, m),
    ground (arith, m),
  )

  next_record-IsPlaced :
      (off : ℕ) (r : Rec) → next_record d buf n off ≡ some r → IsPlaced d n off r × (8 ≤ r.reclen)
  unfolding header
  next_record-IsPlaced off r e =
      let (aligned, m, same) = accepted off r e in
      let (min, whole, name, short, inside, chunk) = well_formed r m in
      let here : r.off ≡ off = sym (ap (λ q. q.off) same) in
      let one_chunk : (end_of r - 1) / 512 ≡ off / 512 =
        ap (λ (x : ℕ). x / 512) (omega (arith, here, min))
        ∙ div_within off 512 (r.reclen - 1) (omega arith) (ground (arith, here, chunk, min)) in
      ((here, aligned, whole, name, short, inside, one_chunk), min)

  next_record_end : (off : ℕ) → n ≤ off → next_record d buf n off ≡ none
  unfolding next_record
  next_record_end off l = elim (Bool-cases (off % 4 == 0)) [
    | inl a ↦ ground (arith, a, l)
    | inr a ↦ ground (arith, a)
  ]

  -- What the walk from `off` on yields.
  abbrev Walked : ℕ → List Rec → Type 0
  Walked off rs = Laid d n off rs × (next_record d buf n (stop off rs) ≡ none)

  records-Walked : (left off : ℕ) → n ≤ off + left → Walked off (records d buf n left off)
  unfolding records
  records-Walked zero off l = (tt, next_record_end off (omega (arith, l)))
  records-Walked (suc left) off l =
      at (next_record d buf n off) refl (λ r m. records-Walked left (end_of r) m)
    where
      at :
          (q : Option Rec)
          → next_record d buf n off ≡ q
          → ((r : Rec) → n ≤ end_of r + left → Walked (end_of r) (records d buf n left (end_of r)))
          → Walked off (elim q as (λ x. List Rec) [
            | none ↦ []
            | some r ↦ r ∷ records d buf n left (r.off + r.reclen)
          ])
      at none e ih = (tt, e)
      at (some r) e ih =
          let (p, min) = next_record-IsPlaced off r e in
          let rest = ih r (omega (arith, p.0, min, l)) in ((p, rest.0), rest.1)

  last-stop : (r : Rec) (rs : List Rec) → (last (r ∷ rs)).1 ≡ stop (end_of r) rs
  unfolding last
  last-stop r [] = refl
  last-stop r (s ∷ rs) = last-stop s rs

-- The walk over a buffer of `n` bytes yields records that lie one behind the other from offset 0 on,
-- each of them aligned to 4 bytes, with its name and a NUL inside it, inside the buffer and in one
-- chunk of 512 bytes, and it stops where no valid record follows; the end that `last` computes
-- for bsd211_dir_add is that place.
pub all_records-Laid :
    (d : Desc) (buf : Bytes) (n : ℕ)
    → Laid d n 0 (all_records d buf n)
      × (next_record d buf n (stop 0 (all_records d buf n)) ≡ none)
      × ((last (all_records d buf n)).1 ≡ stop 0 (all_records d buf n))
unfolding last
all_records-Laid d buf n =
    let w = records-Walked d buf n n 0 (omega arith) in (w.0, w.1, at (all_records d buf n))
  where
    at : (rs : List Rec) → (last rs).1 ≡ stop 0 rs
    at [] = refl
    at (r ∷ rs) = last-stop d buf n r rs
