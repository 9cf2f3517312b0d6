-- ===== src/Bitmap/Laws.antt =====
-- The bits of a byte map, and the search for the first one that is set.
use native.Mathlib.Decide.{ℕ_discrete}
use filsys.Base.{ℕ, zero, suc, ◌+◌, ◌/◌, ◌%◌, ◌≤◌, ◌<◌, ◌≡◌, refl, ap, arith}
use filsys.Base.{true, false, none, some}
use filsys.Base.{Bytes, IsBytes, ◌==◌, if◌then◌else◌}
use filsys.Base.{has_bit-with_bit, has_bit-without_bit, with_bit-lt, without_bit-lt}
use filsys.Bitmap.{bit_at, set_bit, clear_bit, first_free}

module _ (bits : Bytes) (bytes : IsBytes bits) (i : ℕ) where
  pub bit_at-set_bit :
      (j : ℕ) → bit_at (set_bit bits i) j ≡ (if j == i then true else bit_at bits j)
  bit_at-set_bit j = elim (ℕ_discrete (j / 8) (i / 8)) [
    | yes e ↦
        let e' : i / 8 ≡ j / 8 = omega arith in
        ground (
          arith,
          ap bits e',
          has_bit-with_bit (bits (i / 8)) (i % 8) (j % 8) (bytes (i / 8)) (omega arith)
              (omega arith),
        )
    | no ne ↦ ground arith
  ]

  pub bit_at-clear_bit :
      (j : ℕ) → bit_at (clear_bit bits i) j ≡ (if j == i then false else bit_at bits j)
  bit_at-clear_bit j = elim (ℕ_discrete (j / 8) (i / 8)) [
    | yes e ↦
        let e' : i / 8 ≡ j / 8 = omega arith in
        ground (
          arith,
          ap bits e',
          has_bit-without_bit (bits (i / 8)) (i % 8) (j % 8) (bytes (i / 8)) (omega arith)
              (omega arith),
        )
    | no ne ↦ ground arith
  ]

  pub set_bit-IsBytes : IsBytes (set_bit bits i)
  set_bit-IsBytes p =
      ground (arith, bytes p, with_bit-lt (bits (i / 8)) (i % 8) (bytes (i / 8)) (omega arith))

  pub clear_bit-IsBytes : IsBytes (clear_bit bits i)
  clear_bit-IsBytes p =
      ground (arith, bytes p, without_bit-lt (bits (i / 8)) (i % 8) (bytes (i / 8)) (omega arith))

-- The search finds the first set bit.
pub first_free-some :
    (bits : Bytes) (left i k : ℕ)
    → i ≤ k
    → k < i + left
    → ((j : ℕ) → i ≤ j → j < k → bit_at bits j ≡ false)
    → bit_at bits k ≡ true
    → first_free bits left i ≡ some k
unfolding first_free
first_free-some bits zero i k le l below here = absurd (omega arith)
first_free-some bits (suc left) i k le l below here = elim (ℕ_discrete i k) [
  | yes e ↦ ground (arith, ap (bit_at bits) e)
  | no ne ↦
      let rest =
        first_free-some bits left (i + 1) k (omega arith) (omega arith)
          (λ j h. below j (omega arith)) here in
      ground (arith, rest, below i)
]

-- Without a set bit it finds none.
pub first_free-none :
    (bits : Bytes) (left i : ℕ)
    → ((j : ℕ) → i ≤ j → j < i + left → bit_at bits j ≡ false)
    → first_free bits left i ≡ none
unfolding first_free
first_free-none bits zero i clear = refl
first_free-none bits (suc left) i clear =
    let rest = first_free-none bits left (i + 1) (λ j a b. clear j (omega arith) (omega arith)) in
    ground (arith, rest, clear i)
