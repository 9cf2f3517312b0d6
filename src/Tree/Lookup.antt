-- ===== src/Tree/Lookup.antt =====
-- A lookup goes to the block that the tree of an inode has at the index, and changes nothing.
use native.Mathlib.Nat.{div-add-mod, mul-add-div, mul-add-mod_self_left, mod-eq_of_lt, pow-suc}
use native.Mathlib.Nat.{
  mod-lt, div-one, mul_assoc, mul_comm, pow-zero, one-le-pow, div-lt_iff_lt-mul,
}
use filsys.Base.{
  ℕ, zero, suc, ◌+◌, ◌-◌, ◌*◌, ◌/◌, ◌%◌, ◌^◌, ◌≤◌, ◌<◌, ◌≡◌, ◌∙◌, refl, ap, sym, arith,
}
use filsys.Base.{false, Outcome, ok, err, eio, Bytes, Errno, Outcome-cases, inl, inr}
use filsys.Volume.{Edition, Step, read_block}
use filsys.Tree.{ind_get}
use filsys.Tree.Map.{descend, top_block, entry_at, step_down, stop, go_on, Found}

-- Block `r` of the tree below `blk`. A tree of level `l` has one entry for every `nindir ^ l` of its
-- blocks, and an empty entry is a hole.
unfoldable pub leaf : Edition → ℕ → ℕ → ℕ → Outcome ℕ
leaf fs level zero r = ok 0
leaf fs zero (suc blk) r = elim (read_block fs (suc blk)) [
  | err e ↦ err eio
  | ok buf ↦ ok (ind_get fs.desc buf r)
]
leaf fs (suc level) (suc blk) r = elim (read_block fs (suc blk)) [
  | err e ↦ err eio
  | ok buf ↦
      let m = fs.desc.nindir ^ suc level in leaf fs level (ind_get fs.desc buf (r / m)) (r % m)
]

-- A digit of a remainder is the digit of the number.
digit : (r d n q : ℕ) → 0 < d → r % (d * (n * q)) / d % n ≡ r / d % n
digit r d n q pos =
    let m = d * (n * q) in
    let whole : d * (n * (q * (r / m))) + r % m ≡ r = omega (
      arith,
      mul_assoc d (n * q) (r / m),
      mul_assoc n q (r / m),
      ap (λ (x : ℕ). d * x) (mul_assoc n q (r / m)),
      div-add-mod r m,
    ) in
    sym (
      ap (λ (x : ℕ). x / d % n) (sym whole)
      ∙ ap (λ (x : ℕ). x % n) (mul-add-div pos (n * (q * (r / m))) (r % m))
      ∙ mul-add-mod_self_left n (q * (r / m)) (r % m / d))

power_split : (n a b t : ℕ) → t ≡ a + b → n ^ t ≡ n ^ a * n ^ b
power_split n zero b t e = omega (arith, ap (λ (x : ℕ). n ^ x) same, pow-zero n, one)
  where
    same : t ≡ b
    same = omega arith

    one : n ^ 0 * n ^ b ≡ n ^ b
    one = ap (λ (x : ℕ). x * n ^ b) (pow-zero n) ∙ omega arith
power_split n (suc a) b zero e = absurd (omega arith)
power_split n (suc a) b (suc t) e =
    pow-suc n t
    ∙ ap (λ (x : ℕ). x * n) (power_split n a b t (omega arith))
    ∙ mul_assoc (n ^ a) (n ^ b) n
    ∙ ap (λ (x : ℕ). n ^ a * x) (mul_comm (n ^ b) n)
    ∙ sym (mul_assoc (n ^ a) n (n ^ b))
    ∙ ap (λ (x : ℕ). x * n ^ b) (sym (pow-suc n a))

-- The topmost index is a plain quotient.
index_top : (n r level : ℕ) → 0 < n → r < n ^ suc level → r / n ^ level % n ≡ r / n ^ level
index_top n r level pos h =
    let below : r < n * n ^ level = omega (arith, pow-suc n level, mul_comm (n ^ level) n) in
    mod-eq_of_lt ((div-lt_iff_lt-mul (one-le-pow level n pos)).1 below)

-- The indices further down are those of the remainder.
index_below :
    (n r level j : ℕ)
    → 0 < n
    → j ≤ level
    → r / n ^ (suc level - suc j) % n ≡ r % n ^ suc level / n ^ (level - j) % n
index_below n r level j pos le =
    let d = n ^ (level - j) in
    let same : suc level - suc j ≡ level - j = omega arith in
    let split : n ^ suc level ≡ d * (n * n ^ j) =
      power_split n (level - j) (suc j) (suc level) (omega arith)
      ∙ ap (λ (x : ℕ). d * x) (pow-suc n j ∙ mul_comm (n ^ j) n) in
    ap (λ (x : ℕ). r / n ^ x % n) same
    ∙ sym (digit r d n (n ^ j) (one-le-pow (level - j) n pos))
    ∙ ap (λ (x : ℕ). r % x / d % n) (sym split)

step_down-lookup :
    (i : ℕ) (fs : Edition) (slot blk : ℕ) (next : Step ℕ → ℕ → Found)
    → step_down false i fs slot (suc blk) next ≡ next (entry_at fs false (suc blk) i) slot
unfolding step_down top_block
step_down-lookup i fs slot blk next = ground arith

entry_at-lookup :
    (fs : Edition) (blk i : ℕ) (buf : Bytes)
    → read_block fs blk ≡ ok buf
    → entry_at fs false blk i ≡ (ok (ind_get fs.desc buf i), fs)
unfolding entry_at
entry_at-lookup fs blk i buf e = ground (arith, e)

entry_at-unread :
    (fs : Edition) (blk i : ℕ) (x : Errno)
    → read_block fs blk ≡ err x
    → entry_at fs false blk i ≡ (err eio, fs)
unfolding entry_at
entry_at-unread fs blk i x e = ground (arith, e)

leaf-read :
    (fs : Edition) (level blk r : ℕ) (buf : Bytes)
    → read_block fs (suc blk) ≡ ok buf
    → leaf fs (suc level) (suc blk) r
      ≡ leaf fs level
          (ind_get fs.desc buf (r / fs.desc.nindir ^ suc level))
          (r % fs.desc.nindir ^ suc level)
unfolding leaf
leaf-read fs level blk r buf e = ground (arith, e)

hole :
    (fs : Edition) (i slot : ℕ) (next : Step ℕ → ℕ → Found)
    → step_down false i fs slot 0 next ≡ (ok 0, slot, fs)
unfolding step_down
hole fs i slot next = refl

-- A walk that allocates nothing ends at the block of the tree, with the volume and the slot as they
-- were, where each level goes by one digit of the index.
pub descend-leaf :
    (fs : Edition) (idx : ℕ → ℕ) (level L slot blk r : ℕ)
    → 0 < fs.desc.nindir
    → r < fs.desc.nindir ^ suc level
    → ((j : ℕ) → j ≤ level → idx (L + j) ≡ r / fs.desc.nindir ^ (level - j) % fs.desc.nindir)
    → descend idx false (suc level) L fs slot blk ≡ (leaf fs level blk r, slot, fs)
unfolding descend leaf stop go_on
descend-leaf fs idx zero L slot zero r pos h ix = refl
descend-leaf fs idx (suc level) L slot zero r pos h ix = refl
descend-leaf fs idx zero L slot (suc blk) r pos h ix =
    elim (Outcome-cases (read_block fs (suc blk))) [
      | inl (buf, e) ↦
          let i : idx L ≡ r =
            ap idx (omega arith)
            ∙ ix 0 (omega arith)
            ∙ index_top fs.desc.nindir r 0 pos h
            ∙ ap (λ (x : ℕ). r / x) (pow-zero fs.desc.nindir)
            ∙ div-one r in
          step_down-lookup (idx L) fs slot blk stop
          ∙ ap (λ x. stop x slot) (entry_at-lookup fs (suc blk) (idx L) buf e)
          ∙ ground (arith, e, ap (ind_get fs.desc buf) i)
      | inr (x, e) ↦
          step_down-lookup (idx L) fs slot blk stop
          ∙ ap (λ x. stop x slot) (entry_at-unread fs (suc blk) (idx L) x e)
          ∙ ground (arith, e)
    ]
descend-leaf fs idx (suc level) L slot (suc blk) r pos h ix =
    let next : Edition → ℕ → ℕ → Found = λ g s b. descend idx false (suc level) (L + 1) g s b in
    let m = fs.desc.nindir ^ suc level in
    elim (Outcome-cases (read_block fs (suc blk))) [
      | inl (buf, e) ↦
          let i : idx L ≡ r / m =
            ap idx (omega arith)
            ∙ ix 0 (omega arith)
            ∙ ap (λ (x : ℕ). r / fs.desc.nindir ^ x % fs.desc.nindir) (omega arith)
            ∙ index_top fs.desc.nindir r (suc level) pos h in
          step_down-lookup (idx L) fs slot blk (go_on next)
          ∙ ap (λ x. go_on next x slot) (entry_at-lookup fs (suc blk) (idx L) buf e)
          ∙ descend-leaf fs idx level (L + 1) slot (ind_get fs.desc buf (idx L)) (r % m) pos
              (mod-lt r (one-le-pow (suc level) fs.desc.nindir pos))
              (λ j le.
                ap idx (omega arith)
                ∙ ix (suc j) (omega arith)
                ∙ index_below fs.desc.nindir r level j pos le)
          ∙ ap {A = Outcome ℕ} (λ o. (o, slot, fs))
              (ap (λ k. leaf fs level (ind_get fs.desc buf k) (r % m)) i
                ∙ sym (leaf-read fs level blk r buf e))
      | inr (x, e) ↦
          step_down-lookup (idx L) fs slot blk (go_on next)
          ∙ ap (λ x. go_on next x slot) (entry_at-unread fs (suc blk) (idx L) x e)
          ∙ ground (arith, e)
    ]
