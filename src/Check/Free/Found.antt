-- ===== src/Check/Free/Found.antt =====
-- What a walk over the free space that complains of nothing has found.
use native.Mathlib.Decide.{ℕ_discrete}
use filsys.Base.{ℕ, ◌+◌, ◌-◌, ◌%◌, ◌^◌, ◌≡◌, ◌∙◌, refl, ap, arith}
use filsys.Base.{false, List, [], ◌∷◌, length}
use filsys.Base.{IsBytes}
use filsys.Volume.{Edition, data_first}
use filsys.FreeList.Chain.{IsData}
use filsys.Bitmap.{bit_at}
use filsys.Bitmap.Laws.{bit_at-set_bit, set_bit-IsBytes}
use filsys.Check.{Context, Report}
use filsys.Check.Mark.Claims.{count, is_marked}
use filsys.Check.Free.{Tally, mark_free}

-- The walk found the free blocks `xs`, and complained of nothing.
pub record Found (fs : Edition) (t : Tally) (xs : List ℕ) (t' : Tally) : Type 0 where
  pub marks : (d : ℕ) → is_marked t'.0 d ≡ is_marked t.0 d + count (data_first fs + d) xs
  pub free : t'.1.free_blocks % 2 ^ 32 ≡ (t.1.free_blocks + length xs) % 2 ^ 32
  pub silent : t'.0.log ≡ t.0.log
  pub errors : t'.1.errors ≡ t.1.errors
  pub used : t'.0.used_blocks ≡ t.0.used_blocks
  pub dups : t'.0.dup_blocks ≡ t.0.dup_blocks
  pub size : t'.0.nblk ≡ t.0.nblk
  pub missing : t'.1.missing_blocks ≡ t.1.missing_blocks
  pub bytes : IsBytes t'.0.bmap
  pub context : t'.0 ≡ record t.0 { bmap = t'.0.bmap }
  pub counts : t'.1 ≡ record t.1 { free_blocks = t'.1.free_blocks }

pub Found-none : (fs : Edition) (t : Tally) → IsBytes t.0.bmap → Found fs t [] t
Found-none fs t bytes = record {
  marks = λ d. omega arith;
  free = omega arith;
  silent = refl;
  errors = refl;
  used = refl;
  dups = refl;
  size = refl;
  missing = refl;
  bytes = bytes;
  context = refl;
  counts = refl;
}

pub Found-cons :
    (fs : Edition) (t u v : Tally) (b : ℕ) (xs : List ℕ)
    → Found fs t (b ∷ []) u
    → Found fs u xs v
    → Found fs t (b ∷ xs) v
Found-cons fs t u v b xs p q = record {
  marks = λ d. omega (arith, p.marks d, q.marks d);
  free = omega (arith, p.free, q.free);
  silent = q.silent ∙ p.silent;
  errors = q.errors ∙ p.errors;
  used = q.used ∙ p.used;
  dups = q.dups ∙ p.dups;
  size = q.size ∙ p.size;
  missing = q.missing ∙ p.missing;
  bytes = q.bytes;
  context = q.context ∙ ap {A = Context} (λ c. record c { bmap = v.0.bmap }) p.context;
  counts = q.counts ∙ ap {A = Report} (λ r. record r { free_blocks = v.1.free_blocks }) p.counts;
}

-- A free block that is not marked is marked and counted.
pub Found-mark_free :
    (fs : Edition) (b : ℕ) (t : Tally)
    → IsBytes t.0.bmap
    → IsData fs b
    → bit_at t.0.bmap (b - data_first fs) ≡ false
    → Found fs t (b ∷ []) (mark_free fs b t)
unfolding mark_free
Found-mark_free fs b (cx, rep) bytes i clear =
    rw (clear, mark_free)
      (record {
        marks = λ d.
            let e = bit_at-set_bit cx.bmap bytes (b - data_first fs) d in
            elim (ℕ_discrete d (b - data_first fs)) [
              | yes same ↦ ground (arith, e, ap (bit_at cx.bmap) same)
              | no other ↦ ground (arith, e)
            ];
        free = omega arith;
        silent = refl;
        errors = refl;
        used = refl;
        dups = refl;
        size = refl;
        missing = refl;
        bytes = set_bit-IsBytes cx.bmap bytes (b - data_first fs);
        context = refl;
        counts = refl;
      })
