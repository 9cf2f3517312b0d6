-- ===== src/Engine/Moves.antt =====
-- What rename and rmdir have checked before their first write.
use filsys.Base.{
  ℕ, ◌%◌, ◌/◌, Bool, true, false, not, ◌&&◌, ◌≡◌, ◌≢◌, refl, ap, sym, ◌∙◌, ◌⊎◌, inl, inr, arith,
}
use filsys.Base.{◌==◌, if◌then◌else◌, Bool-cases, Outcome-cases, none}
use filsys.Base.{Name, same_name, Errno, Outcome, ok, err, look}
use filsys.Volume.{Edition, Step}
use filsys.Inode.{Inode}
use filsys.Engine.{Ops, mode_is_dir, or_eio, dir_is_empty}
use filsys.Engine.Remove.{no_cycle, dir_ancestor}
use filsys.Engine.Remove.Ancestor.{IsAbove, is_top, Decides, dir_ancestor-Decides}
use filsys.Engine.Rename.{check_target, move, replace, rename_in}

-- The volume is as it was.
pub record Untouched {A : Type 0} (fs : Edition) (w : Step A) : Type 0 where
  pub same : w.1 ≡ fs

look-Untouched :
    {A B P : Type 0} {fs : Edition} (o : Outcome A) (k : A → Step B)
    → ((a : A) → o ≡ ok a → Untouched fs (k a) ⊎ P)
    → Untouched fs (look o fs k) ⊎ P
look-Untouched (ok a) k h = h a refl
look-Untouched (err e) k h = inl (record { same = refl })

if-Untouched :
    {B P : Type 0} {fs : Edition} (b : Bool) (x y : Step B)
    → (b ≡ true → Untouched fs x ⊎ P)
    → (b ≡ false → Untouched fs y ⊎ P)
    → Untouched fs (if b then x else y) ⊎ P
if-Untouched true x y h k = h refl
if-Untouched false x y h k = k refl

or_eio-ok : {A : Type 0} (o : Outcome A) (a : A) → or_eio o ≡ ok a → o ≡ ok a
or_eio-ok (ok b) a e = e
or_eio-ok (err x) a e = absurd (ground (arith, e))

module _ (ops : Ops) (fs : Edition) where
  -- A directory is not above the directory it goes to, unless it is the root.
  no_cycle-IsAbove :
      (ip : Inode) (ino dir : ℕ) (u : Unit {0})
      → no_cycle ops fs ip ino dir ≡ ok u
      → mode_is_dir fs.desc ip ≡ true
      → (n : ℕ) → IsAbove ops fs ino n dir
      → is_top ops fs ino ≡ true
  unfolding no_cycle
  no_cycle-IsAbove ip ino dir u e d n h =
      at (dir_ancestor ops fs ino dir) refl (dir_ancestor-Decides ops fs ino dir)
    where
      at :
          (r : Outcome Bool)
          → dir_ancestor ops fs ino dir ≡ r
          → Decides ops fs ino dir r
          → is_top ops fs ino ≡ true
      at (ok true) q dec = absurd (ground (arith, d, q, e))
      at (ok false) q dec = dec n h
      at (err x) q dec = absurd (ground (arith, d, q, e))

  -- An existing target that a rename may replace: of the same kind as the source, and empty if it is a
  -- directory.
  abbrev pub IsReplaceable : Inode → ℕ → Type 0
  IsReplaceable sip tino =
      (tip : Inode) × (ops.read_inode fs tino ≡ ok tip)
      × (mode_is_dir fs.desc tip ≡ mode_is_dir fs.desc sip)
      × ((mode_is_dir fs.desc tip ≡ false) ⊎ (dir_is_empty ops fs tino ≡ ok true))

  check_target-IsReplaceable :
      (sip tip : Inode) (tino : ℕ) (u : Unit {0})
      → ops.read_inode fs tino ≡ ok tip
      → check_target ops fs (mode_is_dir fs.desc sip) tino tip ≡ ok u
      → IsReplaceable sip tino
  unfolding check_target
  check_target-IsReplaceable sip tip tino u r e = elim (Bool-cases (mode_is_dir fs.desc tip)) [
    | inr t ↦ elim (Bool-cases (mode_is_dir fs.desc sip)) [
      | inl s ↦ absurd (ground (arith, t, s, e))
      | inr s ↦ (tip, r, t ∙ sym s, inl t)
    ]
    | inl t ↦ elim (Bool-cases (mode_is_dir fs.desc sip)) [
      | inr s ↦ absurd (ground (arith, t, s, e))
      | inl s ↦ (tip, r, t ∙ sym s, inr (empty t s))
    ]
  ]
    where
      empty :
          mode_is_dir fs.desc tip ≡ true
          → mode_is_dir fs.desc sip ≡ true
          → dir_is_empty ops fs tino ≡ ok true
      empty t s = elim (Outcome-cases (dir_is_empty ops fs tino)) [
        | inr (x, q) ↦ absurd (ground (arith, t, s, q, e))
        | inl (b, q) ↦ elim (Bool-cases b) [
          | inl y ↦ q ∙ ap (λ z. ok z) y
          | inr y ↦ absurd (ground (arith, t, s, q, y, e))
        ]
      ]

  module _ (sdir tdir : ℕ) (sname tname : Name) where
    -- What the target's name may stand for.
    abbrev pub IsOpenTarget : ℕ → Inode → ℕ → Inode → Type 0
    IsOpenTarget flags tdirip sino sip =
        ((e : Errno) × (ops.dir_lookup fs tdirip tname ≡ err e))
        ⊎ ((tino : ℕ) × (ops.dir_lookup fs tdirip tname ≡ ok tino)
            × (flags % 2 ≡ 0)
            × (tino ≢ sino)
            × IsReplaceable sip tino)

    -- What stands before rename writes: the source is there and can be read; if it is a directory it
    -- is not above the target's directory, unless it is the root; and an entry that the target's
    -- name already has may be replaced.
    abbrev pub IsMovable : ℕ → Type 0
    IsMovable flags =
        (sdirip : Inode) × (sino : ℕ) × (sip : Inode) × (tdirip : Inode) × (ops.read_inode fs sdir
          ≡ ok sdirip)
        × (ops.dir_lookup fs sdirip sname ≡ ok sino)
        × (ops.read_inode fs sino ≡ ok sip)
        × (ops.read_inode fs tdir ≡ ok tdirip)
        × ((mode_is_dir fs.desc sip ≡ false)
            ⊎ ((n : ℕ) → IsAbove ops fs sino n tdir → is_top ops fs sino ≡ true))
        × IsOpenTarget flags tdirip sino sip

    target_step :
        {P : Type 0} (flags : ℕ) (defer : Bool) (tdirip : Inode) (sino : ℕ) (sip : Inode)
        → (IsOpenTarget flags tdirip sino sip → P)
        → (o : Outcome ℕ) → ops.dir_lookup fs tdirip tname ≡ o
        → Untouched fs (elim o as (λ x. Step (Unit {0})) [
          | ok tino ↦
              replace ops fs sdir sname tdir tdirip tname sino
                (mode_is_dir fs.desc sip)
                tino
                (not (flags % 2 == 0))
                defer
          | err e ↦ move ops fs sdir sname tdir tname sino (mode_is_dir fs.desc sip) none defer
        ])
          ⊎ P
    unfolding replace
    target_step flags defer tdirip sino sip k (err e) q = inr (k (inl (e, q)))
    target_step flags defer tdirip sino sip k (ok tino) q =
        if-Untouched (not (flags % 2 == 0)) _ _ (λ e. inl (record { same = refl }))
          (λ e.
            if-Untouched (tino == sino) _ _ (λ f. inl (record { same = refl }))
              (λ f. look-Untouched (or_eio (ops.read_inode fs tino)) _ (λ tip r.
                look-Untouched (check_target ops fs (mode_is_dir fs.desc sip) tino tip) _ (λ u c.
                  inr (
                    k (
                      inr (
                        tino,
                        q,
                        ground (arith, e),
                        ground (arith, f),
                        check_target-IsReplaceable sip tip tino u
                            (or_eio-ok (ops.read_inode fs tino) tip r) c,
                      )))))))

    rename_in_moves :
        (flags : ℕ) (defer : Bool)
        → Untouched fs (rename_in ops fs sdir sname tdir tname flags defer) ⊎ IsMovable flags
    unfolding rename_in
    rename_in_moves flags defer =
        if-Untouched (not (flags / 2 == 0)) _ _ (λ e. inl (record { same = refl }))
          (λ e.
            if-Untouched (sdir == tdir && same_name sname tname) _ _
              (λ e. inl (record { same = refl }))
              (λ e. look-Untouched (ops.read_inode fs sdir) _ (λ sdirip r.
                look-Untouched (ops.dir_lookup fs sdirip sname) _ (λ sino l.
                  look-Untouched (or_eio (ops.read_inode fs sino)) _ (λ sip s.
                    look-Untouched (or_eio (ops.read_inode fs tdir)) _ (λ tdirip t.
                      look-Untouched (no_cycle ops fs sip sino tdir) _ (λ u c.
                        target_step flags defer tdirip sino sip
                          (λ target. (
                            sdirip,
                            sino,
                            sip,
                            tdirip,
                            r,
                            l,
                            or_eio-ok (ops.read_inode fs sino) sip s,
                            or_eio-ok (ops.read_inode fs tdir) tdirip t,
                            below sip sino u c,
                            target,
                          ))
                          (ops.dir_lookup fs tdirip tname) refl)))))))
      where
        below :
            (sip : Inode) (sino : ℕ) (u : Unit {0})
            → no_cycle ops fs sip sino tdir ≡ ok u
            → (mode_is_dir fs.desc sip ≡ false)
              ⊎ ((n : ℕ) → IsAbove ops fs sino n tdir → is_top ops fs sino ≡ true)
        below sip sino u c = elim (Bool-cases (mode_is_dir fs.desc sip)) [
          | inl d ↦ inr (λ n h. no_cycle-IsAbove sip sino tdir u c d n h)
          | inr d ↦ inl d
        ]

-- A rename leaves the volume as it was, whatever it returns, unless the source exists and can be
-- read, it is no directory or is not above the target's directory (or is the root), and the lookup of
-- the target's name fails or finds another inode that may be replaced: with NOREPLACE not set, of the
-- same kind as the source, and empty if it is a directory.
pub rename_in-IsMovable :
    (ops : Ops) (fs : Edition) (sdir tdir : ℕ) (sname tname : Name) (flags : ℕ) (defer : Bool)
    → Untouched fs (rename_in ops fs sdir sname tdir tname flags defer)
      ⊎ IsMovable ops fs sdir tdir sname tname flags
rename_in-IsMovable ops fs sdir tdir sname tname flags defer =
    rename_in_moves ops fs sdir tdir sname tname flags defer
