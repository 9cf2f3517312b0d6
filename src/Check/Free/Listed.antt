-- ===== src/Check/Free/Listed.antt =====
-- A list of distinct numbers below `n` has at most `n` elements.
use filsys.Base.{ℕ, zero, suc, ◌+◌, ◌≤◌, ◌<◌, ◌≡◌, refl, arith, List, [], ◌∷◌, length}
use native.Mathlib.Decide.{ℕ_discrete}
use filsys.Base.{◌≢◌, ap, ltb, ◌==◌, if◌then◌else◌}
use filsys.FreeList.Chain.{All, Distinct}
use filsys.Check.Mark.Claims.{count}

total : (ℕ → ℕ) → ℕ → ℕ
total f zero = 0
total f (suc n) = total f n + f n

total-add : (f g : ℕ → ℕ) (n : ℕ) → total (λ i. f i + g i) n ≡ total f n + total g n
unfolding total
total-add f g zero = refl
total-add f g (suc n) = omega (arith, total-add f g n)

total-le : (f : ℕ → ℕ) (n : ℕ) → ((i : ℕ) → f i ≤ 1) → total f n ≤ n
unfolding total
total-le f zero h = omega arith
total-le f (suc n) h = omega (arith, total-le f n h, h n)

total-zero : (n : ℕ) → total (λ i. 0) n ≡ 0
unfolding total
total-zero zero = refl
total-zero (suc n) = omega (arith, total-zero n)

total-at : (y n : ℕ) → total (λ i. if i == y then 1 else 0) n ≡ (if ltb y n then 1 else 0)
unfolding total
total-at y zero = ground arith
total-at y (suc n) = ground (arith, total-at y n)

length-total : (n : ℕ) (xs : List ℕ) → All (λ x. x < n) xs → length xs ≡ total (λ i. count i xs) n
length-total n [] h = omega (arith, total-zero n)
length-total n (y ∷ xs) h = ground (
  arith,
  total-add (λ i. if i == y then 1 else 0) (λ i. count i xs) n,
  total-at y n,
  length-total n xs h.1,
)

-- An element that is different from every element of a list does not occur in it.
pub count-absent : (x : ℕ) (xs : List ℕ) → All (λ y. y ≢ x) xs → count x xs ≡ 0
count-absent x [] h = refl
count-absent x (y ∷ xs) h = ground (arith, h.0, count-absent x xs h.1)

pub Distinct-count : (xs : List ℕ) → Distinct xs → (x : ℕ) → count x xs ≤ 1
Distinct-count [] d x = omega arith
Distinct-count (y ∷ xs) d x = elim (ℕ_discrete x y) [
  | yes e ↦ ground (arith, count-absent y xs d.0, ap (λ z. count z xs) e)
  | no ne ↦ ground (arith, Distinct-count xs d.1 x)
]

pub length-Distinct : (n : ℕ) (xs : List ℕ) → All (λ x. x < n) xs → Distinct xs → length xs ≤ n
length-Distinct n xs h d =
    omega (arith, length-total n xs h, total-le (λ i. count i xs) n (Distinct-count xs d))
