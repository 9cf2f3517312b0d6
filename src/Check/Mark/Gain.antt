-- ===== src/Check/Mark/Gain.antt =====
-- A collection of blocks adds the same to every list that it starts with.
use filsys.Base.{ℕ, zero, suc, ◌+◌, ◌≡◌, arith}
use filsys.Base.{Bool, true, false, List, length, ◌==◌, if◌then◌else◌}
use filsys.Base.{Outcome, ok, err, eio, none, some, Option, Bytes}
use filsys.Volume.{Edition, read_block}
use filsys.Inode.{Inode}
use filsys.Tree.{ind_get, slot_level, Walk, visit, each_entry, push, push_last, collect_subtree}
use filsys.Check.Mark.Claims.{count}
use filsys.Check.Mark.Slots.{slot_walk}

-- `b'` has more than `b` what `c'` has more than `c`.
pub record SameGain (b b' c c' : List ℕ) : Type 0 where
  pub counts : (x : ℕ) → count x b' + count x c ≡ count x c' + count x b
  pub sizes : length b' + length c ≡ length c' + length b

-- Two collections, from `b` and from `c`: both fail, or both add the same.
abbrev pub Adds : List ℕ → Walk (List ℕ) → List ℕ → Walk (List ℕ) → Type 0
Adds b (ok u, b') c (ok w, c') = SameGain b b' c c'
Adds b (ok u, b') c (err e, c') = ⊥
Adds b (err e, b') c (ok u, c') = ⊥
Adds b (err e, b') c (err x, c') = Unit

Adds-trans :
    (b b' c c' : List ℕ) (v w : Walk (List ℕ)) → SameGain b b' c c' → Adds b' v c' w → Adds b v c w
Adds-trans b b' c c' (ok u, d) (ok t, e) p q = record {
  counts = λ x. omega (arith, p.counts x, q.counts x);
  sizes = omega (arith, p.sizes, q.sizes);
}
Adds-trans b b' c c' (ok u, d) (err t, e) p q = absurd q
Adds-trans b b' c c' (err u, d) (ok t, e) p q = absurd q
Adds-trans b b' c c' (err u, d) (err t, e) p q = tt

Adds-visit :
    (collect : ℕ → List ℕ → Walk (List ℕ)) (b c : List ℕ)
    → ((nb : ℕ) (d e : List ℕ) → Adds d (collect nb d) e (collect nb e))
    → (nb : ℕ) (v w : Walk (List ℕ)) → Adds b v c w
    → Adds b (visit collect nb v) c (visit collect nb w)
unfolding visit
Adds-visit collect b c h zero (ok u, d) (ok t, e) p = p
Adds-visit collect b c h (suc nb) (ok u, d) (ok t, e) p =
    Adds-trans b d c e (collect (suc nb) d) (collect (suc nb) e) p (h (suc nb) d e)
Adds-visit collect b c h nb (ok u, d) (err t, e) p = absurd p
Adds-visit collect b c h nb (err u, d) (ok t, e) p = absurd p
Adds-visit collect b c h zero (err u, d) (err t, e) p = tt
Adds-visit collect b c h (suc nb) (err u, d) (err t, e) p = tt

Adds-each :
    (collect : ℕ → List ℕ → Walk (List ℕ)) (entry : ℕ → ℕ)
    → ((nb : ℕ) (d e : List ℕ) → Adds d (collect nb d) e (collect nb e))
    → (n : ℕ) (b c : List ℕ)
    → Adds b (each_entry collect entry n b) c (each_entry collect entry n c)
unfolding each_entry
Adds-each collect entry h zero b c = record { counts = λ x. omega arith; sizes = omega arith }
Adds-each collect entry h (suc i) b c =
    Adds-visit collect b c h (entry i) (each_entry collect entry i b) (each_entry collect entry i c)
      (Adds-each collect entry h i b c)

Adds-push : (nb : ℕ) (d e : List ℕ) → Adds d (push nb d) e (push nb e)
Adds-push nb d e = record { counts = λ x. omega arith; sizes = omega arith }

Adds-push_last :
    (blk : ℕ) (b c : List ℕ) (v w : Walk (List ℕ))
    → Adds b v c w
    → Adds b (push_last blk v) c (push_last blk w)
unfolding push_last
Adds-push_last blk b c (ok u, d) (ok t, e) p = record {
  counts = λ x. omega (arith, p.counts x);
  sizes = omega (arith, p.sizes);
}
Adds-push_last blk b c (ok u, d) (err t, e) p = absurd p
Adds-push_last blk b c (err u, d) (ok t, e) p = absurd p
Adds-push_last blk b c (err u, d) (err t, e) p = tt

Adds-read :
    (blk : ℕ) (b c : List ℕ) (f g : Bytes → Walk (List ℕ))
    → ((buf : Bytes) → Adds b (f buf) c (g buf))
    → (o : Outcome Bytes)
    → Adds b
        (elim o as (λ _. Walk (List ℕ)) [ err e ↦ (err eio, b) | ok buf ↦ push_last blk (f buf) ])
        c
        (elim o as (λ _. Walk (List ℕ)) [ err e ↦ (err eio, c) | ok buf ↦ push_last blk (g buf) ])
Adds-read blk b c f g h (ok buf) = Adds-push_last blk b c (f buf) (g buf) (h buf)
Adds-read blk b c f g h (err e) = tt

Adds-collect_subtree :
    (fs : Edition) (level blk : ℕ) (b c : List ℕ)
    → Adds b (collect_subtree fs level blk b) c (collect_subtree fs level blk c)
unfolding collect_subtree
Adds-collect_subtree fs level zero b c = record { counts = λ x. omega arith; sizes = omega arith }
Adds-collect_subtree fs zero (suc blk) b c =
    Adds-read (suc blk) b c (λ buf. each_entry push (ind_get fs.desc buf) fs.desc.nindir b)
      (λ buf. each_entry push (ind_get fs.desc buf) fs.desc.nindir c)
      (λ buf. Adds-each push (ind_get fs.desc buf) Adds-push fs.desc.nindir b c)
      (read_block fs (suc blk))
Adds-collect_subtree fs (suc level) (suc blk) b c =
    let collect = collect_subtree fs level in
    Adds-read (suc blk) b c (λ buf. each_entry collect (ind_get fs.desc buf) fs.desc.nindir b)
      (λ buf. each_entry collect (ind_get fs.desc buf) fs.desc.nindir c)
      (λ buf.
        Adds-each collect (ind_get fs.desc buf) (Adds-collect_subtree fs level) fs.desc.nindir b c)
      (read_block fs (suc blk))

pub Adds-slot_walk :
    (fs : Edition) (ip : Inode) (i : ℕ) (b c : List ℕ)
    → Adds b (slot_walk fs ip i b) c (slot_walk fs ip i c)
Adds-slot_walk fs ip i b c = at (ip.addr i == 0) (slot_level fs.desc ip.mode i)
  where
    at :
        (t : Bool) (l : Option ℕ)
        → Adds b
            (if t then (ok tt, b) else elim l as (λ _. Walk (List ℕ)) [
              | none ↦ push (ip.addr i) b
              | some k ↦ collect_subtree fs k (ip.addr i) b
            ])
            c
            (if t then (ok tt, c) else elim l as (λ _. Walk (List ℕ)) [
              | none ↦ push (ip.addr i) c
              | some k ↦ collect_subtree fs k (ip.addr i) c
            ])
    at true l = record { counts = λ x. omega arith; sizes = omega arith }
    at false none = Adds-push (ip.addr i) b c
    at false (some k) = Adds-collect_subtree fs k (ip.addr i) b c
