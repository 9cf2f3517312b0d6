-- ===== src/Engine/Remove/Ancestor.antt =====
-- What the climb of dir_ancestor decides.
use filsys.Base.{
  ℕ, zero, suc, ◌<◌, Bool, true, false, ◌||◌, ◌≡◌, refl, sym, ap, ◌∙◌, arith, subst, ◌⊎◌,
}
use filsys.Base.{◌==◌, ok, err, Outcome, Outcome-cases, Bool-cases, inl, inr}
use filsys.Volume.{Edition}
use filsys.Inode.{Inode}
use filsys.Engine.{Ops, dotdot}
use filsys.Engine.Remove.{climb, dir_ancestor}

module _ (ops : Ops) (fs : Edition) where
  -- The climb ends at the root, and at 0.
  abbrev pub is_top : ℕ → Bool
  is_top cur = cur == fs.desc.rootino || cur == 0

  -- `..` of directory `cur` is `next`.
  abbrev pub IsParent : ℕ → ℕ → Type 0
  IsParent cur next =
      (ip : Inode) × (ops.read_inode fs cur ≡ ok ip) × (ops.dir_lookup fs ip dotdot ≡ ok next)

  -- Directory `a` is `n` steps of `..` above `cur`, with neither the root nor 0 before it.
  pub data IsAbove (a : ℕ) : ℕ → ℕ → Type 0 where
    here : IsAbove a zero a
    up :
        (n cur next : ℕ)
        → is_top cur ≡ false
        → IsParent cur next
        → IsAbove a n next
        → IsAbove a (suc n) cur

  module _ (anc : ℕ) where
    climb_up :
        (left cur next : ℕ)
        → is_top cur ≡ false
        → (cur == anc) ≡ false
        → IsParent cur next
        → climb ops fs anc (suc left) cur ≡ climb ops fs anc left next
    unfolding climb
    climb_up left cur next t d p = ground (arith, t, d, p.1, p.2)

    climb_here :
        (left cur : ℕ)
        → is_top cur ≡ false
        → (cur == anc) ≡ true
        → climb ops fs anc (suc left) cur ≡ ok true
    unfolding climb
    climb_here left cur t d = ground (arith, t, d)

    -- A directory within reach is found.
    climb-IsAbove :
        (left n cur : ℕ)
        → IsAbove anc n cur
        → is_top anc ≡ false
        → n < left
        → climb ops fs anc left cur ≡ ok true
    climb-IsAbove zero n cur h t l = absurd (omega (arith, l))
    climb-IsAbove (suc left) n cur here t l = climb_here left anc t (ground arith)
    climb-IsAbove (suc left) m cur (up n c next s p h) t l =
        at (cur == anc) refl (climb-IsAbove left n next h t (omega (arith, l)))
      where
        at :
            (b : Bool)
            → (cur == anc) ≡ b
            → climb ops fs anc left next ≡ ok true
            → climb ops fs anc (suc left) cur ≡ ok true
        at true e r = climb_here left cur s e
        at false e r = climb_up left cur next s e p ∙ r

    -- How a round of the climb can end in an answer.
    abbrev Round : ℕ → ℕ → Bool → Type 0
    Round left cur r =
        ((is_top cur ≡ true) × (r ≡ false))
        ⊎ ((is_top cur ≡ false) × (cur ≡ anc) × (r ≡ true))
        ⊎ ((is_top cur ≡ false)
            × ((cur == anc) ≡ false)
            × (next : ℕ) × IsParent cur next
            × (climb ops fs anc left next ≡ ok r))

    climb-Round :
        (left cur : ℕ) (r : Bool) → climb ops fs anc (suc left) cur ≡ ok r → Round left cur r
    unfolding climb
    climb-Round left cur r e = at (is_top cur) refl (cur == anc) refl
      where
        at : (t : Bool) → is_top cur ≡ t → (d : Bool) → (cur == anc) ≡ d → Round left cur r
        at true t d h = inl (t, ground (arith, t, e))
        at false t true h = inr (inl (t, ground (arith, h), ground (arith, t, h, e)))
        at false t false h = elim (Outcome-cases (ops.read_inode fs cur)) [
          | inr (x, q) ↦ absurd (ground (arith, t, h, q, e))
          | inl (ip, q) ↦ elim (Outcome-cases (ops.dir_lookup fs ip dotdot)) [
            | inr (x, p) ↦ absurd (ground (arith, t, h, q, p, e))
            | inl (next, p) ↦ inr (inr (t, h, next, (ip, q, p), ground (arith, t, h, q, p, e)))
          ]
        ]

    out_of_rounds : (cur : ℕ) (r : Bool) → climb ops fs anc 0 cur ≡ ok r → ⊥
    unfolding climb
    out_of_rounds cur r h = ground (arith, h)

    same_parent : (cur a b : ℕ) → IsParent cur a → IsParent cur b → a ≡ b
    same_parent cur a b p q = ground (arith, p.1, p.2, q.1, q.2)

    -- What is found is above.
    climb_found :
        (left cur : ℕ)
        → climb ops fs anc left cur ≡ ok true
        → (n : ℕ) × (n < left) × IsAbove anc n cur × (is_top anc ≡ false)
    climb_found zero cur e = absurd (out_of_rounds cur true e)
    climb_found (suc left) cur e = elim (climb-Round left cur true e) [
      | inl (t, f) ↦ absurd (ground (arith, f))
      | inr (inl (t, q, u)) ↦
          (0, omega arith, subst (IsAbove anc 0) (sym q) here, ap is_top (sym q) ∙ t)
      | inr (inr (t, d, next, p, r)) ↦
          let (n, l, h, top) = climb_found left next r in
          (suc n, omega (arith, l), up n cur next t p h, top)
    ]

    -- When the climb says no, the directory is nowhere above.
    climb_missed :
        (left n cur : ℕ)
        → climb ops fs anc left cur ≡ ok false
        → IsAbove anc n cur
        → is_top anc ≡ true
    climb_missed zero n cur e h = absurd (out_of_rounds cur false e)
    climb_missed (suc left) n cur e here = elim (climb-Round left cur false e) [
      | inl (t, f) ↦ t
      | inr (inl (t, q, u)) ↦ absurd (ground (arith, u))
      | inr (inr (t, d, next, p, r)) ↦ absurd (ground (arith, d))
    ]
    climb_missed (suc left) m cur e (up n c next s p h) = elim (climb-Round left cur false e) [
      | inl (t, f) ↦ absurd (ground (arith, t, s))
      | inr (inl (t, q, u)) ↦ absurd (ground (arith, u))
      | inr (inr (t, d, next', p', r)) ↦
          climb_missed left n next
            (ap (climb ops fs anc left) (same_parent cur next next' p p') ∙ r) h
    ]

-- What an answer of dir_ancestor says.
abbrev pub Decides : Ops → Edition → ℕ → ℕ → Outcome Bool → Type 0
Decides ops fs anc dir (ok true) =
    (n : ℕ) × (n < 65536) × IsAbove ops fs anc n dir × (is_top ops fs anc ≡ false)
Decides ops fs anc dir (ok false) = (n : ℕ) → IsAbove ops fs anc n dir → is_top ops fs anc ≡ true
Decides ops fs anc dir (err e) =
    (n : ℕ) → n < 65536 → IsAbove ops fs anc n dir → is_top ops fs anc ≡ true

-- The answer of dir_ancestor decides whether one directory is above another. Yes: it is some number
-- of `..` steps above it, fewer than 65536, and below the root. No: it is not, at any distance,
-- unless it is the root itself (or 0). An error: it is not at a distance of less than 65536 steps,
-- with the same exception.
pub dir_ancestor-Decides :
    (ops : Ops) (fs : Edition) (anc dir : ℕ) → Decides ops fs anc dir (dir_ancestor ops fs anc dir)
unfolding dir_ancestor
dir_ancestor-Decides ops fs anc dir = at (climb ops fs anc 65536 dir) refl
  where
    at : (r : Outcome Bool) → climb ops fs anc 65536 dir ≡ r → Decides ops fs anc dir r
    at (ok true) = climb_found ops fs anc 65536 dir
    at (ok false) = λ e n h. climb_missed ops fs anc 65536 n dir e h
    at (err x) = λ e n l h. elim (Bool-cases (is_top ops fs anc)) [
      | inl t ↦ t
      | inr t ↦ absurd (ground (arith, e, climb-IsAbove ops fs anc 65536 n dir h t l))
    ]
