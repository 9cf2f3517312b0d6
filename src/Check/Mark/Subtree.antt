-- ===== src/Check/Mark/Subtree.antt =====
-- The same for a subtree: marking it claims what a truncation would collect.
use filsys.Base.{ℕ, zero, suc, ◌-◌, ◌≡◌, ◌≢◌, refl, sym, subst, arith}
use filsys.Base.{false, not, List, ◌∷◌}
use filsys.Base.{Bytes, ◌==◌, if◌then◌else◌, Outcome, ok, err, eio}
use filsys.Volume.{Edition, read_block, data_first}
use filsys.Tree.{ind_get, Walk, visit, each_entry, push, push_last, collect_subtree}
use filsys.Check.{Context, no_indirect, complain}
use filsys.Check.Mark.{claim_block, mark_block, each_marked, mark_indirect, mark_tree}
use filsys.Check.Mark.Claims.{
  Claims, Claims-refl, Grows-refl, Grows-print, Marks, Marks-trans, Marks-failed, Marked, claimed,
  refused, Marks-Marked, mark_block-Marked,
}

-- ---- the entries of an indirect block

-- A child that marks beside one that collects.
abbrev pub Pair : Edition → (ℕ → Context → Context) → (ℕ → List ℕ → Walk (List ℕ)) → Type 0
Pair fs child collect =
    (x : ℕ) (cx : Context) (b : List ℕ)
    → cx.ino ≢ fs.desc.badino
    → x ≢ 0
    → Marks fs cx b (child x cx) (collect x b)

Marks-visit :
    (fs : Edition) (child : ℕ → Context → Context) (collect : ℕ → List ℕ → Walk (List ℕ))
    (cx cy : Context) (b : List ℕ) (nb : ℕ) (w : Walk (List ℕ))
    → Pair fs child collect
    → cy.ino ≢ fs.desc.badino
    → Marks fs cx b cy w
    → Marks fs cx b (if nb == 0 then cy else child nb cy) (visit collect nb w)
unfolding visit
Marks-visit fs child collect cx cy b zero (ok u, c) f o p = p
Marks-visit fs child collect cx cy b (suc nb) (ok u, c) f o p =
    let z : (suc nb == 0) ≡ false = ground arith in
    rw z (
      Marks-trans fs cx cy (child (suc nb) cy) b c (collect (suc nb) c) p
        (f (suc nb) cy c o (omega arith)))
Marks-visit fs child collect cx cy b zero (err e, c) f o p = p
Marks-visit fs child collect cx cy b (suc nb) (err e, c) f o p =
    let z : (suc nb == 0) ≡ false = ground arith in
    rw z (
      Marks-failed fs cx cy (child (suc nb) cy) b c e (err e, c) p
        (f (suc nb) cy c o (omega arith)).grows)

Marks-each :
    (fs : Edition) (child : ℕ → Context → Context) (collect : ℕ → List ℕ → Walk (List ℕ))
    (entry : ℕ → ℕ)
    → Pair fs child collect
    → (n : ℕ) (cx : Context) (b : List ℕ) → cx.ino ≢ fs.desc.badino
    → Marks fs cx b (each_marked child entry n cx) (each_entry collect entry n b)
unfolding each_marked each_entry
Marks-each fs child collect entry f zero cx b o = record {
  grows = Grows-refl cx;
  silent = λ h l. (refl, Claims-refl fs cx b);
}
Marks-each fs child collect entry f (suc i) cx b o =
    let before = Marks-each fs child collect entry f i cx b o in
    Marks-visit fs child collect cx (each_marked child entry i cx) b (entry i)
      (each_entry collect entry i b) f (subst (λ k. k ≢ fs.desc.badino) (sym before.grows.same) o)
      before

-- ---- an indirect block, whose children are claimed behind it and collected before it

Claims-behind :
    (fs : Edition) (x : ℕ) {cx cy : Context} {b c : List ℕ}
    → Claims fs cx b cy c
    → Claims fs cx (x ∷ b) cy (x ∷ c)
Claims-behind fs x p = record {
  marks = λ d. omega (arith, p.marks d);
  below = λ y h. omega (arith, p.below y h);
  above = λ y h. omega (arith, p.above y h);
  used = omega (arith, p.used);
}

Marks-push_last :
    (fs : Edition) (x : ℕ) (cx cy : Context) (b : List ℕ) (w : Walk (List ℕ))
    → Marks fs cx b cy w
    → Marks fs cx (x ∷ b) cy (push_last x w)
unfolding push_last
Marks-push_last fs x cx cy b (ok u, c) p = record {
  grows = p.grows;
  silent = λ h l. (refl, Claims-behind fs x (p.silent h l).1);
}
Marks-push_last fs x cx cy b (err e, c) p = record {
  grows = p.grows;
  silent = λ h l. absurd (cc (p.silent h l).0);
}

-- Both read the block `x`, once it is claimed.
Marks-read :
    (fs : Edition) (x : ℕ) (cx : Context) (b : List ℕ) (f : Bytes → Context)
    (g : Bytes → Walk (List ℕ))
    → ((buf : Bytes) → Marks fs cx b (f buf) (g buf))
    → (o : Outcome Bytes)
    → Marks fs cx
        (x ∷ b)
        (elim o as (λ _. Context) [ err e ↦ complain (no_indirect x) cx | ok buf ↦ f buf ])
        (elim o as (λ _. Walk (List ℕ)) [ err e ↦ (err eio, b) | ok buf ↦ push_last x (g buf) ])
Marks-read fs x cx b f g h (ok buf) = Marks-push_last fs x cx (f buf) b (g buf) (h buf)
Marks-read fs x cx b f g h (err e) = record {
  grows = Grows-print cx _ refl refl refl refl;
  silent = λ i l. absurd (omega arith);
}

abbrev followed : Edition → (ℕ → Context → Context) → ℕ → ℕ × Context → Context
followed fs child x r = if not (r.0 == 0) then r.1 else elim (read_block fs x) [
  | err e ↦ complain (no_indirect x) r.1
  | ok buf ↦ each_marked child (ind_get fs.desc buf) fs.desc.nindir r.1
]

abbrev collected : Edition → (ℕ → List ℕ → Walk (List ℕ)) → ℕ → List ℕ → Walk (List ℕ)
collected fs collect x b = elim (read_block fs x) [
  | err e ↦ (err eio, b)
  | ok buf ↦ push_last x (each_entry collect (ind_get fs.desc buf) fs.desc.nindir b)
]

module _ (fs : Edition) (child : ℕ → Context → Context) (collect : ℕ → List ℕ → Walk (List ℕ))
    (f : Pair fs child collect) where
  Marks-followed :
      (x : ℕ) (cx : Context) (b : List ℕ) (r : ℕ × Context)
      → cx.ino ≢ fs.desc.badino
      → Marked fs cx x r
      → Marks fs cx b (followed fs child x r) (collected fs collect x b)
  Marks-followed x cx b _ o (claimed i clear) =
      let cy = claim_block cx (x - data_first fs) in
      Marks-trans fs cx cy _ b (x ∷ b) _ (Marks-Marked fs cx b x (0, cy) (claimed i clear)) (
        Marks-read fs x cy b (λ buf. each_marked child (ind_get fs.desc buf) fs.desc.nindir cy)
          (λ buf. each_entry collect (ind_get fs.desc buf) fs.desc.nindir b)
          (λ buf. Marks-each fs child collect (ind_get fs.desc buf) f fs.desc.nindir cy b o)
          (read_block fs x))
  Marks-followed x cx b _ o (refused k cx' ne m i w l) =
      let z : (k == 0) ≡ false = ground arith in
      rw z
        (record { grows = Grows-print cx cx' m i w l; silent = λ h q. absurd (omega (arith, l)) })

  Marks-indirect : Pair fs (mark_indirect fs child) (collected fs collect)
  unfolding mark_indirect
  Marks-indirect x cx b o ne =
      let z : (x == 0) ≡ false = ground arith in
      rw z (Marks-followed x cx b (mark_block fs cx x) o (mark_block-Marked fs cx x o ne))

-- Marking a subtree claims what collecting it yields.
pub Marks-mark_tree :
    (fs : Edition) (level : ℕ) → Pair fs (mark_tree fs level) (collect_subtree fs level)
unfolding mark_tree collect_subtree
Marks-mark_tree fs level zero cx b o ne = absurd (ne refl)
Marks-mark_tree fs zero (suc x) cx b o ne =
    Marks-indirect fs (λ nb c. (mark_block fs c nb).1) push
      (λ y c e p q. Marks-Marked fs c e y _ (mark_block-Marked fs c y p q)) (suc x) cx b o ne
Marks-mark_tree fs (suc level) (suc x) cx b o ne =
    Marks-indirect fs (mark_tree fs level) (collect_subtree fs level) (Marks-mark_tree fs level)
      (suc x) cx b o ne
