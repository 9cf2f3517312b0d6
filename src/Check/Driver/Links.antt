-- ===== src/Check/Driver/Links.antt =====
-- What the directory phase of the check establishes when it prints nothing.
use native.Mathlib.Nat.{le_refl, le_trans}
use native.Mathlib.Decide.{ℕ_discrete}
use filsys.Base.{
  ℕ, zero, suc, ◌+◌, ◌≤◌, ◌<◌, ◌≡◌, ◌≢◌, ◌⊎◌, inl, inr, ◌∙◌, refl, ap, sym, subst, arith, min,
}
use filsys.Base.{
  Bool, true, false, List, [], ◌∷◌, length, Name, ◌==◌, ltb, if◌then◌else◌, Bool-cases,
}
use filsys.Base.{Outcome, ok, err}
use filsys.Volume.{Edition, maxinode}
use filsys.Inode.{Inode}
use filsys.Engine.{Entry, mode_is_dir}
use filsys.Check.{Kind, in_allocated, bad_entry, entry_of_free}
use filsys.Check.Free.{Tally, report}
use filsys.Check.Driver.{
  CheckOps, count_entries, bump, is_idir, count_dir, count_dirs, is_orphan, check_link, check_links,
  check_dirs,
}
use filsys.Check.Repair.{entries_for}

-- ---- the count of the entries

-- A count that stays at 255.
abbrev capped : ℕ → ℕ
capped n = if ltb n 255 then n else 255

-- What has been counted, and what was printed on the way.
record Counts (k : ℕ) (target : ℕ) (c d : (ℕ → ℕ) × Tally) : Type 0 where
  counted : capped (d.0 target) ≡ capped (c.0 target + k)
  small : c.0 target ≤ 255 → d.0 target ≤ 255
  longer : length c.1.0.log ≤ length d.1.0.log
  missing : d.1.1.missing_blocks ≡ c.1.1.missing_blocks

Counts-trans :
    (j k target : ℕ) (c d e : (ℕ → ℕ) × Tally)
    → Counts j target c d
    → Counts k target d e
    → Counts (j + k) target c e
Counts-trans j k target c d e p q = record {
  counted = ground (arith, p.counted, q.counted);
  small = λ h. q.small (p.small h);
  longer = le_trans p.longer q.longer;
  missing = q.missing ∙ p.missing;
}

module _ (kinds : ℕ → Kind) (maxino dir target : ℕ) (pos : target ≢ 0) (low : target ≤ maxino) where
  -- What one entry does.
  abbrev entered : Entry → (ℕ → ℕ) × Tally → (ℕ → ℕ) × Tally
  entered (dno, name) (ecount, t) =
      if dno == 0
      then (ecount, t)
      else if ltb maxino dno
      then (ecount, report (bad_entry dno dir name) t)
      else (
        bump ecount dno,
        if in_allocated (kinds dno) then t else report (entry_of_free dir dno) t,
      )

  abbrev hits : ℕ → ℕ
  hits dno = if dno == target then 1 else 0

  Counts-entered :
      (dno : ℕ) (name : Name) (ecount : ℕ → ℕ) (t : Tally)
      → Counts (hits dno) target (ecount, t) (entered (dno, name) (ecount, t))
  Counts-entered dno name ecount t = elim (Bool-cases (dno == 0)) [
    | inl free ↦
        rw free
          (record { counted = ground arith; small = λ h. h; longer = le_refl _; missing = refl })
    | inr used ↦ elim (Bool-cases (ltb maxino dno)) [
      | inl high ↦ rw used (
          rw high (record {
            counted = ground arith;
            small = λ h. h;
            longer = omega arith;
            missing = refl;
          }))
      | inr good ↦ rw used (
          rw good (record {
            counted = elim (ℕ_discrete target dno) [
              | yes e ↦ ground (arith, ap ecount e)
              | no ne ↦ ground arith
            ];
            small = λ h. ground arith;
            longer = ground arith;
            missing = ground arith;
          }))
    ]
  ]

  Counts-entries :
      (es : List Entry) (c : (ℕ → ℕ) × Tally)
      → Counts (entries_for target es) target c (count_entries kinds maxino dir es c)
  unfolding count_entries entries_for
  Counts-entries [] c = record {
    counted = ground arith;
    small = λ h. h;
    longer = le_refl _;
    missing = refl;
  }
  Counts-entries ((dno, name) ∷ es) (ecount, t) =
      Counts-trans (hits dno) (entries_for target es) target (ecount, t)
        (entered (dno, name) (ecount, t)) _ (Counts-entered dno name ecount t)
        (Counts-entries es (entered (dno, name) (ecount, t)))

-- How many entries of the directory `ino`, which was read as `r`, name the target.
abbrev pub names_in : CheckOps → Edition → (ℕ → Kind) → ℕ → ℕ → Outcome Inode → ℕ
names_in o fs kinds target ino (err e) = 0
names_in o fs kinds target ino (ok ip) =
    if is_idir (kinds ino) then entries_for target (o.engine.dir_iter fs ip).0 else 0

-- The same for all directories among the inodes 1 to `n`.
abbrev pub names_of : CheckOps → Edition → (ℕ → Kind) → ℕ → ℕ → ℕ
names_of o fs kinds target zero = 0
names_of o fs kinds target (suc n) =
    names_of o fs kinds target n
    + names_in o fs kinds target (suc n) (o.engine.read_inode fs (suc n))

module _ (o : CheckOps) (fs : Edition) (kinds : ℕ → Kind) (maxino target : ℕ) (pos : target ≢ 0)
    (low : target ≤ maxino) where
  Counts-none : (c : (ℕ → ℕ) × Tally) → Counts 0 target c c
  Counts-none c = record {
    counted = ground arith;
    small = λ h. h;
    longer = le_refl _;
    missing = refl;
  }

  Counts-dir :
      (ino : ℕ) (c : (ℕ → ℕ) × Tally)
      → Counts
          (names_in o fs kinds target ino (o.engine.read_inode fs ino))
          target
          c
          (count_dir o fs kinds maxino ino c)
  unfolding count_dir
  Counts-dir ino c = at (o.engine.read_inode fs ino) (is_idir (kinds ino))
    where
      at :
          (r : Outcome Inode) (b : Bool)
          → Counts
              (elim r as (λ _. ℕ) [
                | err e ↦ 0
                | ok ip ↦ if b then entries_for target (o.engine.dir_iter fs ip).0 else 0
              ])
              target
              c
              (elim r as (λ _. (ℕ → ℕ) × Tally) [
                | err e ↦ c
                | ok ip ↦
                    if b then count_entries kinds maxino ino (o.engine.dir_iter fs ip).0 c else c
              ])
      at (err e) b = Counts-none c
      at (ok ip) true = Counts-entries kinds maxino ino target pos low (o.engine.dir_iter fs ip).0 c
      at (ok ip) false = Counts-none c

  Counts-dirs :
      (n : ℕ) (c : (ℕ → ℕ) × Tally)
      → Counts (names_of o fs kinds target n) target c (count_dirs o fs kinds maxino n c)
  unfolding count_dirs
  Counts-dirs zero c = Counts-none c
  Counts-dirs (suc n) c =
      let before = count_dirs o fs kinds maxino n c in
      Counts-trans (names_of o fs kinds target n) _ target c before _ (Counts-dirs n c)
        (Counts-dir (suc n) before)

-- ---- the link counts

-- What the check accepts of an inode, with `cnt` entries that name it.
pub record IsLinked (fs : Edition) (kind : Kind) (ino cnt : ℕ) (ip : Inode) : Type 0 where
  pub links : (cnt ≡ ip.nlink) ⊎ ((in_allocated kind ≡ false) × (cnt ≡ 0))
  pub named :
      in_allocated kind ≡ true
      → mode_is_dir fs.desc ip ≡ false
      → ino ≢ fs.desc.rootino
      → ino ≢ fs.desc.badino
      → 0 < cnt

module _ (o : CheckOps) (fs : Edition) (kinds : ℕ → Kind) (ecount : ℕ → ℕ) where
  longer-check_link :
      (ino : ℕ) (t : Tally) → length t.0.log ≤ length (check_link o fs kinds ecount ino t).0.log
  unfolding check_link
  longer-check_link ino t = ground arith

  check_link-IsLinked :
      (ino : ℕ) (t : Tally) (ip : Inode)
      → o.engine.read_inode fs ino ≡ ok ip
      → length (check_link o fs kinds ecount ino t).0.log ≤ length t.0.log
      → IsLinked fs (kinds ino) ino (ecount ino) ip
  unfolding check_link is_orphan
  check_link-IsLinked ino t ip e l = record {
    links = elim (Bool-cases (ecount ino == ip.nlink)) [
      | inl same ↦ inl (ground arith)
      | inr other ↦ inr (ground (arith, e, l), ground (arith, e, l))
    ];
    named = λ a d r b. ground (arith, e, l);
  }

  longer-check_links :
      (n : ℕ) (t : Tally) → length t.0.log ≤ length (check_links o fs kinds ecount n t).0.log
  unfolding check_links
  longer-check_links zero t = le_refl _
  longer-check_links (suc n) t =
      le_trans (longer-check_links n t)
        (longer-check_link (suc n) (check_links o fs kinds ecount n t))

  check_links-IsLinked :
      (n : ℕ) (t : Tally)
      → length (check_links o fs kinds ecount n t).0.log ≤ length t.0.log
      → (ino : ℕ) (ip : Inode) → 0 < ino
      → ino ≤ n
      → o.engine.read_inode fs ino ≡ ok ip
      → IsLinked fs (kinds ino) ino (ecount ino) ip
  unfolding check_links
  check_links-IsLinked zero t l ino ip pos low e = absurd (omega arith)
  check_links-IsLinked (suc n) t l ino ip pos low e =
      let before = check_links o fs kinds ecount n t in
      let above = longer-check_links n t in
      let last = longer-check_link (suc n) before in
      elim (ℕ_discrete ino (suc n)) [
        | yes same ↦
            subst (λ k. IsLinked fs (kinds k) k (ecount k) ip) (sym same)
              (check_link-IsLinked (suc n) before ip (ap (o.engine.read_inode fs) (sym same) ∙ e)
                (omega arith))
        | no other ↦ check_links-IsLinked n t (omega arith) ino ip pos (omega arith) e
      ]

missing-check_link :
    (o : CheckOps) (fs : Edition) (kinds : ℕ → Kind) (ecount : ℕ → ℕ) (ino : ℕ) (t : Tally)
    → (check_link o fs kinds ecount ino t).1.missing_blocks ≡ t.1.missing_blocks
unfolding check_link
missing-check_link o fs kinds ecount ino t = ground arith

missing-check_links :
    (o : CheckOps) (fs : Edition) (kinds : ℕ → Kind) (ecount : ℕ → ℕ) (n : ℕ) (t : Tally)
    → (check_links o fs kinds ecount n t).1.missing_blocks ≡ t.1.missing_blocks
unfolding check_links
missing-check_links o fs kinds ecount zero t = refl
missing-check_links o fs kinds ecount (suc n) t =
    missing-check_link o fs kinds ecount (suc n) (check_links o fs kinds ecount n t)
    ∙ missing-check_links o fs kinds ecount n t

-- The phase prints at most, and counts no block.
pub longer-check_dirs :
    (o : CheckOps) (fs : Edition) (kinds : ℕ → Kind) (t : Tally)
    → 0 < maxinode fs
    → length t.0.log ≤ length (check_dirs o fs kinds t).1.0.log
unfolding check_dirs
longer-check_dirs o fs kinds t some_inode =
    let n = maxinode fs in
    let c = count_dirs o fs kinds n n (λ _. 0, t) in
    le_trans (Counts-dirs o fs kinds n n (omega arith) (le_refl n) n (λ _. 0, t)).longer
      (longer-check_links o fs kinds c.0 n c.1)

pub missing-check_dirs :
    (o : CheckOps) (fs : Edition) (kinds : ℕ → Kind) (t : Tally)
    → 0 < maxinode fs
    → (check_dirs o fs kinds t).1.1.missing_blocks ≡ t.1.missing_blocks
unfolding check_dirs
missing-check_dirs o fs kinds t some_inode =
    let n = maxinode fs in
    let c = count_dirs o fs kinds n n (λ _. 0, t) in
    missing-check_links o fs kinds c.0 n c.1
    ∙ (Counts-dirs o fs kinds n n (omega arith) (le_refl n) n (λ _. 0, t)).missing

-- When the directory phase prints nothing, then for every inode that can be read: the entries of all
-- the directories that name it, cut at 255, are as many as its link count, or the inode is free and
-- has none; and an inode in use that is no directory, and neither the root nor the bad-block inode,
-- has one at least.
pub check_dirs-IsLinked :
    (o : CheckOps) (fs : Edition) (kinds : ℕ → Kind) (t : Tally)
    → (check_dirs o fs kinds t).1.0.log ≡ t.0.log
    → (ino : ℕ) (ip : Inode) → 0 < ino
    → ino ≤ maxinode fs
    → o.engine.read_inode fs ino ≡ ok ip
    → IsLinked fs (kinds ino) ino (min (names_of o fs kinds ino (maxinode fs)) 255) ip
unfolding check_dirs
check_dirs-IsLinked o fs kinds t quiet ino ip pos low e =
    let n = maxinode fs in
    let c = count_dirs o fs kinds n n (λ _. 0, t) in
    let s = Counts-dirs o fs kinds n ino (omega arith) low n (λ _. 0, t) in
    let longer = longer-check_links o fs kinds c.0 n c.1 in
    let cut : c.0 ino ≡ min (names_of o fs kinds ino n) 255 = ground (arith, s.counted, s.small) in
    subst (λ k. IsLinked fs (kinds ino) ino k ip) cut
      (check_links-IsLinked o fs kinds c.0 n c.1 (omega (arith, ap length quiet, s.longer)) ino ip
        pos low e)
