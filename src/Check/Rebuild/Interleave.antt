-- ===== src/Check/Rebuild/Interleave.antt =====
-- The interleaving is a permutation of the blocks of the data area.
use native.Mathlib.Nat.{
  mul-add-div_right, div-eq_of_lt, div-add-mod, div-lt_iff_lt-mul, mod-lt, mul-le-mul_right,
  le-div_iff_mul-le, div-mul-le_self,
}
use filsys.Base.{ℕ, ◌+◌, ◌-◌, ◌*◌, ◌/◌, ◌%◌, ◌≤◌, ◌<◌, ◌≡◌, ◌∙◌, ap, sym, arith, ◌&&◌}
use filsys.Base.{
  subst, suc, ◌↔◌, refl, Bool, ltb, leb, ◌==◌, not, ◌||◌, if◌then◌else◌, inl, inr, Bool-cases,
}
use filsys.Volume.{Edition}
use filsys.Check.Rebuild.{factors, place}

-- A number by its quotient and its remainder.
split : (q r b : ℕ) → r < b → ((q * b + r) / b ≡ q) × ((q * b + r) % b ≡ r)
split q r b l =
    let pos : 0 < b = omega arith in
    let d : (q * b + r) / b ≡ q = omega (arith, mul-add-div_right pos q r, div-eq_of_lt l) in
    (d, ground (arith, div-add-mod (q * b + r) b, ap (λ (t : ℕ). b * t) d))

-- Rows and columns of a table of `a * b` places change roles.
abbrev twist : ℕ → ℕ → ℕ → ℕ
twist a b i = i / a + i % a * b

module _ (a b i : ℕ) (pos : 0 < a) (l : i < b * a) where
  row : i / a < b
  row = (div-lt_iff_lt-mul pos).1 l

  twist_parts : ((twist a b i) / b ≡ i % a) × ((twist a b i) % b ≡ i / a)
  twist_parts =
      let e : twist a b i ≡ i % a * b + i / a = omega arith in rw e (split (i % a) (i / a) b row)

  twist-twist : twist b a (twist a b i) ≡ i
  twist-twist = rw twist_parts.0 (rw twist_parts.1 (omega (arith, div-add-mod i a)))

  twist-lt : twist a b i < a * b
  twist-lt =
      let column : i % a < a = mod-lt i pos in
      let rows : suc (i % a) * b ≤ a * b = mul-le-mul_right b column in omega (arith, row)

-- Good factors: the groups of `n` blocks are tables of `m` columns.
pub record IsGood (m n : ℕ) : Type 0 where
  pub wide : 0 < m
  pub tall : 0 < n / m
  pub whole : n ≡ n / m * m

abbrev pub twisted : ℕ → ℕ → ℕ → ℕ → ℕ → ℕ → ℕ
twisted a b n isize fsize bn =
    if leb ((isize + n - 1) / n * n) bn && ltb bn (fsize / n * n)
    then bn / n * n + twist a b (bn % n)
    else bn

-- The logical block of a physical one.
abbrev pub logical : ℕ → ℕ → ℕ → ℕ → ℕ → ℕ
logical m n = twisted m (n / m) n

-- A band of whole groups is told by the quotient.
band-div :
    (q r n x : ℕ) → 0 < n → (leb (q * n) x && ltb x (r * n)) ≡ (leb q (x / n) && ltb (x / n) r)
band-div q r n x pos =
    let low : (q ≤ x / n) ↔ (q * n ≤ x) = le-div_iff_mul-le pos in
    let high : (x / n < r) ↔ (x < r * n) = div-lt_iff_lt-mul pos in
    ground (arith, low.0, low.1, high.0, high.1)

band-eq :
    (q r n x y : ℕ)
    → 0 < n
    → x / n ≡ y / n
    → (leb (q * n) x && ltb x (r * n)) ≡ (leb (q * n) y && ltb y (r * n))
band-eq q r n x y pos e =
    band-div q r n x pos ∙ ap (λ (t : ℕ). leb q t && ltb t r) e ∙ sym (band-div q r n y pos)

module _ (a b n isize fsize bn : ℕ) (pos : 0 < a) (pos' : 0 < b) (e : n ≡ b * a) where
  abbrev group : ℕ
  group = bn / n * n + twist a b (bn % n)

  positive : 0 < n
  positive = grind arith

  twist_small : twist a b (bn % n) < n
  twist_small = omega (arith, e, twist-lt a b (bn % n) pos (omega (arith, e, mod-lt bn positive)))

  group_parts : (group / n ≡ bn / n) × (group % n ≡ twist a b (bn % n))
  group_parts = split (bn / n) (twist a b (bn % n)) n twist_small

  abbrev band : ℕ → Bool
  band x = leb ((isize + n - 1) / n * n) x && ltb x (fsize / n * n)

  band-group : band group ≡ band bn
  band-group = band-eq ((isize + n - 1) / n) (fsize / n) n group bn positive group_parts.0

  pub twisted-twisted : twisted b a n isize fsize (twisted a b n isize fsize bn) ≡ bn
  twisted-twisted = elim (Bool-cases (band bn)) [
    | inl inner ↦ rw inner (
        rw (band-group ∙ inner) (
          rw group_parts.0 (
            rw group_parts.1 (
              omega (
                arith,
                twist-twist a b (bn % n) pos (omega (arith, e, mod-lt bn positive)),
                div-add-mod bn n,
              )))))
    | inr outer ↦ rw outer (rw outer refl)
  ]

  pub twisted-inside :
      isize ≤ bn
      → bn < fsize
      → (isize ≤ twisted a b n isize fsize bn) × (twisted a b n isize fsize bn < fsize)
  twisted-inside low high = elim (Bool-cases (band bn)) [
    | inl inner ↦
        let up : isize ≤ (isize + n - 1) / n * n =
          omega (arith, div-add-mod (isize + n - 1) n, mod-lt (isize + n - 1) positive) in
        let down = div-mul-le_self fsize n in
        let both = band-group ∙ inner in rw inner (ground (arith, both, up, down))
    | inr outer ↦ rw outer (low, high)
  ]

pub factors-IsGood : (fs : Edition) → IsGood (factors fs).0 (factors fs).1
unfolding factors
factors-IsGood fs =
    elim (Bool-cases (
      not fs.desc.interleave
      || (ltb fs.n 1 || ltb 255 fs.n || ltb fs.m 1 || ltb fs.n fs.m || not (fs.n % fs.m == 0)))) [
        | inl bad ↦
            subst (λ (p : ℕ × ℕ). IsGood p.0 p.1) {x = (1, 1)} (ground arith)
              (record { wide = omega arith; tall = omega arith; whole = omega arith })
        | inr good ↦
            let zero : fs.n % fs.m ≡ 0 = ground arith in
            let wide : 0 < fs.m = ground arith in
            let least : fs.m ≤ fs.n = ground arith in
            subst (λ (p : ℕ × ℕ). IsGood p.0 p.1) {x = (fs.m, fs.n)} (ground arith)
              (record {
                wide = wide;
                tall = (le-div_iff_mul-le wide).1 (omega arith);
                whole = omega (arith, div-add-mod fs.n fs.m);
              })
      ]

-- What the rebuild needs of a map of blocks: a permutation of the data area, with its inverse.
pub record IsPermutation (isize fsize : ℕ) (physical back : ℕ → ℕ) : Type 0 where
  pub inside : (x : ℕ) → isize ≤ x → x < fsize → (isize ≤ physical x) × (physical x < fsize)
  pub back_inside : (x : ℕ) → isize ≤ x → x < fsize → (isize ≤ back x) × (back x < fsize)
  pub undo : (x : ℕ) → back (physical x) ≡ x
  pub redo : (x : ℕ) → physical (back x) ≡ x

pub place-IsPermutation :
    (m n isize fsize : ℕ)
    → IsGood m n
    → IsPermutation isize fsize (place m n isize fsize) (logical m n isize fsize)
unfolding place
place-IsPermutation m n isize fsize g = record {
  inside = λ x. twisted-inside (n / m) m n isize fsize x g.tall g.wide (omega (arith, g.whole));
  back_inside = λ x. twisted-inside m (n / m) n isize fsize x g.wide g.tall g.whole;
  undo = λ x. twisted-twisted (n / m) m n isize fsize x g.tall g.wide (omega (arith, g.whole));
  redo = λ x. twisted-twisted m (n / m) n isize fsize x g.wide g.tall g.whole;
}
