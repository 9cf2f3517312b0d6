-- ===== src/Check/Free/Silent.antt =====
-- The converse: where the walk of the checker prints nothing, the cache stands for a list of free
-- blocks, which is what it found.
use native.Mathlib.Nat.{le_refl}
use filsys.Base.{ℕ, zero, suc, ◌-◌, ◌^◌, ◌≤◌, ◌<◌, ◌≡◌, ◌≢◌, refl, subst, arith}
use filsys.Base.{Bool, false, List, [], ◌∷◌, length, ◌==◌, ltb, if◌then◌else◌}
use filsys.Base.{Option, none, some, ok, err, IsBytes, u16, Bool-cases, inl, inr}
use filsys.ByteOrder.Laws.{get16-lt}
use filsys.Volume.{Edition, read_block, data_first}
use filsys.Volume.Blocks.{block_of, read_block-healthy}
use filsys.ByteOrder.Entries.{get_all}
use filsys.FreeList.{df_nfree, daddr, chain_free_off, outside_data}
use filsys.FreeList.Chain.{IsData, IsMounted, Chain, bare, mark, entry, link, Holds}
use filsys.Bitmap.{bit_at}
use filsys.Check.{Message, no_free_block, bad_count, free_out_of_range, free_twice, free_endless}
use filsys.Check.Free.{Tally, mark_free, walk_segment, see, walk_list, report}
use filsys.Check.Free.Found.{Found, Found-none, Found-cons, Found-mark_free}

-- A walk that only prints more, and where it prints nothing found the blocks of a list.
pub record Tells (fs : Edition) (n : ℕ) (cur : ℕ → ℕ) (t t' : Tally) : Type 0 where
  pub longer : length t.0.log ≤ length t'.0.log
  pub silent :
      IsBytes t.0.bmap
      → length t'.0.log ≤ length t.0.log
      → (xs : List ℕ) × Chain fs n cur xs × Found fs t xs t'

-- A walk that ends with a complaint.
Tells-report :
    (fs : Edition) (n : ℕ) (cur : ℕ → ℕ) (msg : Message) (t u : Tally)
    → length t.0.log ≤ length u.0.log
    → Tells fs n cur t (report msg u)
Tells-report fs n cur msg t u l = record {
  longer = omega arith;
  silent = λ b s. absurd (omega arith);
}

longer-mark_free :
    (fs : Edition) (b : ℕ) (t : Tally) → length t.0.log ≤ length (mark_free fs b t).0.log
unfolding mark_free
longer-mark_free fs b (cx, rep) = ground arith

-- Marking a free block is silent only if it was not marked.
silent-mark_free :
    (fs : Edition) (b : ℕ) (t : Tally)
    → length (mark_free fs b t).0.log ≤ length t.0.log
    → bit_at t.0.bmap (b - data_first fs) ≡ false
unfolding mark_free
silent-mark_free fs b (cx, rep) l = elim (Bool-cases (bit_at cx.bmap (b - data_first fs))) [
  | inl set ↦ absurd (ground (arith, set))
  | inr clear ↦ clear
]

-- A good block, in front of a walk over the rest.
Tells-cons :
    (fs : Edition) (n k : ℕ) (cur next : ℕ → ℕ) (b : ℕ) (t t' : Tally)
    → IsData fs b
    → ((xs : List ℕ) → Chain fs k next xs → Chain fs n cur (b ∷ xs))
    → Tells fs k next (mark_free fs b t) t'
    → Tells fs n cur t t'
Tells-cons fs n k cur next b t t' i c r = record {
  longer = omega (arith, longer-mark_free fs b t, r.longer);
  silent = λ bytes l.
      let clear = silent-mark_free fs b t (omega (arith, r.longer)) in
      let one = Found-mark_free fs b t bytes i clear in
      let (xs, chain, found) = r.silent one.bytes (omega (arith, longer-mark_free fs b t)) in
      (b ∷ xs, c xs chain, Found-cons fs t _ t' b xs one found);
}

-- A segment that is accepted is held by its block.
segment-Holds :
    (fs : Edition) (b : ℕ) (cur : ℕ → ℕ) (s : ℕ × (ℕ → ℕ))
    → (df_nfree fs.desc).get (block_of fs b) 0 < 2 ^ 16
    → walk_segment fs (block_of fs b) cur ≡ some s
    → Holds fs b s.0 s.1
unfolding walk_segment
segment-Holds fs b cur s fits e =
    let n = u16 ((df_nfree fs.desc).get (block_of fs b) 0) in
    let cur' =
      get_all (daddr fs.desc) (block_of fs b) (chain_free_off fs.desc) fs.desc.nicfree cur in
    elim (Bool-cases (ltb fs.desc.nicfree n)) [
      | inl big ↦ absurd (ground (arith, e, big))
      | inr small ↦
          let same : (n, cur') ≡ s = ground (arith, e, small) in
          subst (λ (q : ℕ × (ℕ → ℕ)). Holds fs b q.0 q.1) same
            (record {
              count = omega arith;
              bounded = ground (arith, small);
              entries =
                  λ i l. let kept : i < fs.desc.nicfree = ground (arith, small) in ground arith;
            })
    ]

-- The count of every chain block is below 65536, as it is where a count has 16 bits.
abbrev pub HasShortCounts : Edition → Type 0
HasShortCounts fs = (b : ℕ) → (df_nfree fs.desc).get (block_of fs b) 0 < 2 ^ 16

-- Counts of 16 bits are short.
pub two_bytes-HasShortCounts : (fs : Edition) → fs.desc.df_nfree_wid ≢ 4 → HasShortCounts fs
two_bytes-HasShortCounts fs w b = ground (arith, get16-lt fs.desc.bo (block_of fs b) 0)

module _ (fs : Edition) (v : IsMounted fs) (short : HasShortCounts fs) where
  -- What the loop does at the bottom of the cache.
  abbrev bottom : ℕ → ℕ → (ℕ → ℕ) → (ℕ → Bool) → Tally → Tally
  bottom left bno cur seen t = elim (read_block fs bno) [
    | err e ↦ report (no_free_block bno) t
    | ok blk ↦ elim (walk_segment fs blk cur) [
      | none ↦ report (bad_count bno (u16 ((df_nfree fs.desc).get blk 0))) t
      | some s ↦ walk_list fs left s.0 s.1 (see seen bno) t
    ]
  ]

  Tells-bottom :
      (left b : ℕ) (cur : ℕ → ℕ) (seen : ℕ → Bool) (t : Tally)
      → cur 0 ≡ b
      → IsData fs b
      → ((s : ℕ × (ℕ → ℕ))
          → Tells fs s.0 s.1
              (mark_free fs b t)
              (walk_list fs left s.0 s.1 (see seen b) (mark_free fs b t)))
      → Tells fs 1 cur t (bottom left b cur seen (mark_free fs b t))
  Tells-bottom left b cur seen t e i more =
      rw (read_block-healthy fs v.healthy b i.1, bottom)
        (at (walk_segment fs (block_of fs b) cur) refl)
    where
      at :
          (s : Option (ℕ × (ℕ → ℕ)))
          → walk_segment fs (block_of fs b) cur ≡ s
          → Tells fs 1 cur t (elim s as (λ _. Tally) [
            | none ↦
                report
                  (bad_count b (u16 ((df_nfree fs.desc).get (block_of fs b) 0)))
                  (mark_free fs b t)
            | some q ↦ walk_list fs left q.0 q.1 (see seen b) (mark_free fs b t)
          ])
      at none p = Tells-report fs 1 cur _ t (mark_free fs b t) (longer-mark_free fs b t)
      at (some q) p =
          Tells-cons fs 1 q.0 cur q.1 b t _ i
            (λ xs c. link e i (segment-Holds fs b cur q (short b) p) c) (more q)

  -- A block that is not refused lies in the data area.
  inside : (b : ℕ) → outside_data fs b ≡ false → IsData fs b
  inside b h = (ground arith, ground arith)

  Tells-end : (n : ℕ) (cur : ℕ → ℕ) (t : Tally) → cur n ≡ 0 → Tells fs (suc n) cur t t
  Tells-end n cur t e = record {
    longer = le_refl _;
    silent = λ b l. ([], mark e, Found-none fs t b);
  }

  -- What the loop does at an entry, once it is none of the refused ones.
  abbrev guarded : (ℕ → ℕ) → (ℕ → Bool) → ℕ → ℕ → Tally → Tally → Tally
  guarded cur seen left n t go =
      if cur n == 0
      then t
      else if outside_data fs (cur n)
      then report (free_out_of_range (cur n)) t
      else if seen (cur n)
      then report (free_twice (cur n)) t
      else if left == 0
      then report free_endless (mark_free fs (cur n) t)
      else go

  Tells-guarded :
      (left n : ℕ) (cur : ℕ → ℕ) (seen : ℕ → Bool) (t go : Tally)
      → (IsData fs (cur n) → 0 < left → Tells fs (suc n) cur t go)
      → Tells fs (suc n) cur t (guarded cur seen left n t go)
  Tells-guarded left n cur seen t go h = elim (Bool-cases (cur n == 0)) [
    | inl z ↦ rw z (Tells-end n cur t (ground arith))
    | inr nz ↦ elim (Bool-cases (outside_data fs (cur n))) [
      | inl out ↦ rw nz (rw out (Tells-report fs (suc n) cur _ t t (le_refl _)))
      | inr i ↦ elim (Bool-cases (seen (cur n))) [
        | inl old ↦ rw nz (rw i (rw old (Tells-report fs (suc n) cur _ t t (le_refl _))))
        | inr new ↦ elim (Bool-cases (left == 0)) [
          | inl end ↦ rw nz (
              rw i (
                rw new
                  (rw end (Tells-report fs (suc n) cur _ t _ (longer-mark_free fs (cur n) t)))))
          | inr more ↦ rw nz (rw i (rw new (rw more (h (inside (cur n) i) (ground arith)))))
        ]
      ]
    ]
  ]

  pub walk_list-Tells :
      (left n : ℕ) (cur : ℕ → ℕ) (seen : ℕ → Bool) (t : Tally)
      → 0 < left
      → Tells fs n cur t (walk_list fs left n cur seen t)
  unfolding walk_list
  walk_list-Tells zero n cur seen t pos = absurd (omega arith)
  walk_list-Tells (suc left) zero cur seen t pos = record {
    longer = le_refl _;
    silent = λ b l. ([], bare, Found-none fs t b);
  }
  walk_list-Tells (suc left) (suc zero) cur seen t pos =
      Tells-guarded left 0 cur seen t (bottom left (cur 0) cur seen (mark_free fs (cur 0) t))
        (λ i p.
          Tells-bottom left (cur 0) cur seen t refl i
            (λ s. walk_list-Tells left s.0 s.1 (see seen (cur 0)) (mark_free fs (cur 0) t) p))
  walk_list-Tells (suc left) (suc (suc n)) cur seen t pos =
      let deep : (suc n == 0) ≡ false = ground arith in
      let go =
        walk_list fs left (suc n) cur (see seen (cur (suc n))) (mark_free fs (cur (suc n)) t) in
      rw deep (
        Tells-guarded left (suc n) cur seen t go (λ i p.
          Tells-cons fs (suc (suc n)) (suc n) cur cur (cur (suc n)) t go i (λ xs c. entry refl i c)
            (walk_list-Tells left (suc n) cur (see seen (cur (suc n)))
              (mark_free fs (cur (suc n)) t) p)))
