-- ===== src/Engine/Checks.antt =====
-- The line between validation and mutation in the operations of filsys.c: above it nothing is
-- written, so an operation that a check refuses leaves the volume as it was.
use filsys.Base.{ℕ, Bool, true, false, not, ◌&&◌, ◌||◌, ◌≡◌, refl, ◌⊎◌, inl, inr, arith}
use filsys.Base.{bit_and, ◌==◌, if◌then◌else◌}
use filsys.Base.{Name, same_name, Errno, Outcome, ok, err, is_ok, Outcome-cases, and_then, look}
use filsys.Volume.{Edition, Step}
use filsys.Inode.{Inode}
use filsys.Engine.{Ops, mode_is_dir, uidgid_fit, preflight_create, is_enoent, dot, dotdot}
use filsys.Engine.Modes.{Posix}
use filsys.Engine.Create.{create_in, mkdir_in, mkdev_in, mknod_in, symlink_in}

-- The call failed and left the volume as it was.
abbrev pub Refused : {A : Type 0} → Edition → Step A → Type 0
Refused fs w = (is_ok w.0 ≡ false) × (w.1 ≡ fs)

-- A check in front of a call.
pub look-Refused :
    {A B P : Type 0} {fs : Edition} (o : Outcome A) (k : A → Step B)
    → ((a : A) → o ≡ ok a → Refused fs (k a) ⊎ P)
    → Refused fs (look o fs k) ⊎ P
look-Refused (ok a) k h = h a refl
look-Refused (err e) k h = inl (refl, refl)

pub if-Refused :
    {B P : Type 0} {fs : Edition} (b : Bool) (x y : Step B)
    → (b ≡ true → Refused fs x ⊎ P)
    → (b ≡ false → Refused fs y ⊎ P)
    → Refused fs (if b then x else y) ⊎ P
if-Refused true x y h k = h refl
if-Refused false x y h k = k refl

-- A step behind a call that may have been refused.
and_then-Refused :
    {A B P : Type 0} {fs : Edition} (w : Step A) (k : A → Edition → Step B)
    → Refused fs w ⊎ P
    → Refused fs (and_then w k) ⊎ P
and_then-Refused (ok a, g) k (inl r) = absurd (ground (arith, r))
and_then-Refused (err e, g) k (inl r) = inl (refl, r.1)
and_then-Refused w k (inr p) = inr p

module _ (ops : Ops) (fs : Edition) (dir : ℕ) (name : Name) where
  -- What stands before a new name is made: the parent is a directory, which can be read, and the
  -- name is an ordinary one that is not there.
  abbrev pub IsVacant : Type 0
  IsVacant =
      (ddir : Inode) × (ops.read_inode fs dir ≡ ok ddir)
      × (mode_is_dir fs.desc ddir ≡ true)
      × (same_name name dot || same_name name dotdot ≡ false)
      × (e : Errno) × (ops.dir_lookup fs ddir name ≡ err e)
      × (is_enoent e ≡ true)

  preflight_create-IsVacant :
      (ddir : Inode) (u : Unit {0})
      → ops.read_inode fs dir ≡ ok ddir
      → preflight_create ops fs ddir name ≡ ok u
      → IsVacant
  unfolding preflight_create
  preflight_create-IsVacant ddir u r p = elim (Outcome-cases (ops.dir_lookup fs ddir name)) [
    | inl (present, q) ↦ absurd (ground (arith, p, q))
    | inr (e, q) ↦ (ddir, r, ground (arith, p, q), ground (arith, p, q), e, q, ground (arith, p, q))
  ]

  -- The checks that the four operations begin with.
  checks-Refused :
      {B : Type 0} (k : Inode → Unit {0} → Step B)
      → Refused fs (
          look
            (ops.read_inode fs dir)
            fs
            (λ ddir. look (preflight_create ops fs ddir name) fs (k ddir)))
        ⊎ IsVacant
  checks-Refused k =
      look-Refused (ops.read_inode fs dir)
        (λ ddir. look (preflight_create ops fs ddir name) fs (k ddir))
        (λ ddir r.
          look-Refused (preflight_create ops fs ddir name) (k ddir)
            (λ u p. inr (preflight_create-IsVacant ddir u r p)))

  create_in-Refused :
      (mode uid gid : ℕ) → Refused fs (create_in ops fs dir name mode uid gid) ⊎ IsVacant
  unfolding create_in
  create_in-Refused mode uid gid = look-Refused (uidgid_fit uid gid) _ (λ u e. checks-Refused _)

  mkdir_in-Refused :
      (mode uid gid : ℕ) → Refused fs (mkdir_in ops fs dir name mode uid gid) ⊎ IsVacant
  unfolding mkdir_in
  mkdir_in-Refused mode uid gid = look-Refused (uidgid_fit uid gid) _ (λ u e. checks-Refused _)

  symlink_in-Refused :
      (target : Name) (uid gid : ℕ)
      → Refused fs (symlink_in ops fs target dir name uid gid) ⊎ IsVacant
  unfolding symlink_in
  symlink_in-Refused target uid gid =
      if-Refused (fs.desc.iflnk == 0) _ _ (λ e. inl (refl, refl))
        (λ e. look-Refused (uidgid_fit uid gid) _ (λ u f. checks-Refused _))

  mkdev_in-Refused :
      (mode : ℕ) (isblk : Bool) (rdev uid gid : ℕ)
      → Refused fs (mkdev_in ops fs dir name mode isblk rdev uid gid) ⊎ IsVacant
  unfolding mkdev_in
  mkdev_in-Refused mode isblk rdev uid gid = checks-Refused _

  mknod_in-Refused :
      (p : Posix) (v1 : Bool) (mode rdev uid gid : ℕ)
      → Refused fs (mknod_in ops p v1 fs dir name mode rdev uid gid) ⊎ IsVacant
  unfolding mknod_in
  mknod_in-Refused p v1 mode rdev uid gid = look-Refused (uidgid_fit uid gid) _ (λ u e.
      let t = bit_and mode p.s_ifmt in
      let other = not (t == p.s_ifchr) && not (t == p.s_ifblk) && not (t == p.s_ifreg) in
      if-Refused v1 _ _ (λ f. inl (refl, refl))
        (λ f.
          if-Refused other _ _ (λ g. inl (refl, refl))
            (λ g.
              if-Refused (t == p.s_ifreg) _ _
                (λ h. and_then-Refused _ _ (create_in-Refused (bit_and mode 4095) uid gid))
                (λ h. mkdev_in-Refused mode (t == p.s_ifblk) rdev uid gid))))

-- Each of create, mkdir, mknod and symlink fails and leaves the volume as it was, unless the parent
-- can be read and is a directory, the name is neither `.` nor `..`, and the lookup of the name in
-- the parent says that it is not there.
pub create-IsVacant :
    (ops : Ops) (fs : Edition) (dir : ℕ) (name : Name) (mode uid gid : ℕ)
    → (Refused fs (create_in ops fs dir name mode uid gid) ⊎ IsVacant ops fs dir name)
      × (Refused fs (mkdir_in ops fs dir name mode uid gid) ⊎ IsVacant ops fs dir name)
      × ((p : Posix) (v1 : Bool) (rdev : ℕ)
          → Refused fs (mknod_in ops p v1 fs dir name mode rdev uid gid) ⊎ IsVacant ops fs dir name)
      × ((target : Name)
          → Refused fs (symlink_in ops fs target dir name uid gid) ⊎ IsVacant ops fs dir name)
create-IsVacant ops fs dir name mode uid gid = (
  create_in-Refused ops fs dir name mode uid gid,
  mkdir_in-Refused ops fs dir name mode uid gid,
  λ p v1 rdev. mknod_in-Refused ops fs dir name p v1 mode rdev uid gid,
  λ target. symlink_in-Refused ops fs dir name target uid gid,
)
