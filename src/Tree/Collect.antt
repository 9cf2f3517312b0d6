-- ===== src/Tree/Collect.antt =====
-- The blocks that a truncation collects are as many as the blocks that the count finds.
use filsys.Base.{ℕ, zero, suc, ◌+◌, ◌≡◌, refl, arith, List, length}
use filsys.Base.{Outcome, ok, err, eio, Bytes}
use filsys.Volume.{Edition, read_block}
use filsys.Tree.{ind_get, Walk, visit, each_entry, push, push_last, collect_subtree}
use filsys.Tree.{tick, add_count, counted, count_indirect}

-- Two walks both fail, or the list of the one has `k` elements less than the other counted, plus
-- the one for the block itself that the count starts with.
abbrev Both : ℕ → Walk (List ℕ) → Walk ℕ → Type 0
Both k (ok u, b) (ok w, n) = length b + 1 ≡ k + n
Both k (ok u, b) (err e, n) = ⊥
Both k (err e, b) (ok u, n) = ⊥
Both k (err e, b) (err x, n) = Unit

Both-visit :
    (k : ℕ) (f : ℕ → List ℕ → Walk (List ℕ)) (g : ℕ → ℕ → Walk ℕ)
    → ((nb : ℕ) (b : List ℕ) (n : ℕ) → length b + 1 ≡ k + n → Both k (f nb b) (g nb n))
    → (nb : ℕ) (r : Walk (List ℕ)) (c : Walk ℕ) → Both k r c
    → Both k (visit f nb r) (visit g nb c)
unfolding visit
Both-visit k f g h zero (ok u, b) (ok w, n) v = v
Both-visit k f g h (suc nb) (ok u, b) (ok w, n) v = h (suc nb) b n v
Both-visit k f g h nb (ok u, b) (err e, n) v = absurd v
Both-visit k f g h nb (err e, b) (ok u, n) v = absurd v
Both-visit k f g h nb (err e, b) (err x, n) v = tt

Both-each_entry :
    (k : ℕ) (f : ℕ → List ℕ → Walk (List ℕ)) (g : ℕ → ℕ → Walk ℕ) (entry : ℕ → ℕ)
    → ((nb : ℕ) (b : List ℕ) (n : ℕ) → length b + 1 ≡ k + n → Both k (f nb b) (g nb n))
    → (i : ℕ) (b : List ℕ) (n : ℕ) → length b + 1 ≡ k + n
    → Both k (each_entry f entry i b) (each_entry g entry i n)
unfolding each_entry
Both-each_entry k f g entry h zero b n v = v
Both-each_entry k f g entry h (suc i) b n v =
    Both-visit k f g h (entry i) (each_entry f entry i b) (each_entry g entry i n)
      (Both-each_entry k f g entry h i b n v)

-- A collection that starts with the list `b`, beside a count: both fail, or the list grew by the
-- count.
abbrev pub GrowsBy : List ℕ → Walk (List ℕ) → Outcome ℕ → Type 0
GrowsBy b (ok u, b') (ok n) = length b' ≡ length b + n
GrowsBy b (ok u, b') (err e) = ⊥
GrowsBy b (err e, b') (ok n) = ⊥
GrowsBy b (err e, b') (err x) = Unit

Both-add_count :
    (k : ℕ) (b : List ℕ) (n : ℕ) (r : Walk (List ℕ)) (c : Outcome ℕ)
    → length b + 1 ≡ k + n
    → GrowsBy b r c
    → Both k r (add_count c n)
unfolding add_count
Both-add_count k b n (ok u, b') (ok m) v w = omega arith
Both-add_count k b n (ok u, b') (err e) v w = absurd w
Both-add_count k b n (err e, b') (ok m) v w = absurd w
Both-add_count k b n (err e, b') (err x) v w = tt

GrowsBy-push_last :
    (blk : ℕ) (b : List ℕ) (r : Walk (List ℕ)) (c : Walk ℕ)
    → Both (length b) r c
    → GrowsBy b (push_last blk r) (counted c)
unfolding push_last counted
GrowsBy-push_last blk b (ok u, b') (ok w, n) v = v
GrowsBy-push_last blk b (ok u, b') (err e, n) v = absurd v
GrowsBy-push_last blk b (err e, b') (ok u, n) v = absurd v
GrowsBy-push_last blk b (err e, b') (err x, n) v = tt

GrowsBy-read :
    (blk : ℕ) (b : List ℕ) (f : Bytes → Walk (List ℕ)) (g : Bytes → Walk ℕ)
    → ((buf : Bytes) → Both (length b) (f buf) (g buf))
    → (o : Outcome Bytes)
    → GrowsBy b
        (elim o as (λ x. Walk (List ℕ)) [ err e ↦ (err eio, b) | ok buf ↦ push_last blk (f buf) ])
        (elim o as (λ x. Outcome ℕ) [ err e ↦ err eio | ok buf ↦ counted (g buf) ])
GrowsBy-read blk b f g h (ok buf) = GrowsBy-push_last blk b (f buf) (g buf) (h buf)
GrowsBy-read blk b f g h (err e) = tt

-- The collection of a subtree fails iff its count fails, and else collects as many blocks as are
-- counted, the indirect blocks among them.
pub collect_subtree-count_indirect :
    (fs : Edition) (level blk : ℕ) (b : List ℕ)
    → GrowsBy b (collect_subtree fs level blk b) (count_indirect fs level blk)
unfolding collect_subtree count_indirect
collect_subtree-count_indirect fs level zero b = omega arith
collect_subtree-count_indirect fs zero (suc blk) b =
    GrowsBy-read (suc blk) b (λ buf. each_entry push (ind_get fs.desc buf) fs.desc.nindir b)
      (λ buf. each_entry tick (ind_get fs.desc buf) fs.desc.nindir 1)
      (λ buf.
        Both-each_entry (length b) push tick (ind_get fs.desc buf) (λ nb c n v. omega arith)
          fs.desc.nindir b 1 refl)
      (read_block fs (suc blk))
collect_subtree-count_indirect fs (suc level) (suc blk) b =
    let count = λ (sub n : ℕ). add_count (count_indirect fs level sub) n in
    GrowsBy-read (suc blk) b
      (λ buf. each_entry (collect_subtree fs level) (ind_get fs.desc buf) fs.desc.nindir b)
      (λ buf. each_entry count (ind_get fs.desc buf) fs.desc.nindir 1)
      (λ buf.
        Both-each_entry (length b) (collect_subtree fs level) count (ind_get fs.desc buf)
          (λ nb c n v.
            Both-add_count (length b) c n (collect_subtree fs level nb c)
              (count_indirect fs level nb) v (collect_subtree-count_indirect fs level nb c))
          fs.desc.nindir b 1 refl)
      (read_block fs (suc blk))
