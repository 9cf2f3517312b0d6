-- ===== src/Check/Driver/Scan.antt =====
-- Pass 1 of the check: where it prints nothing it claimed the blocks of every inode.
use native.Mathlib.Decide.{ℕ_discrete}
use native.Mathlib.Nat.{le_refl, le_trans}
use filsys.Base.{ℕ, zero, suc, ◌≤◌, ◌≡◌, ◌≢◌, ◌∙◌, refl, ap, sym, subst, arith}
use filsys.Base.{◌<◌, ◌⊎◌, ◌==◌, Bool, true, false, List, [], length, if◌then◌else◌, IsBytes}
use filsys.Base.{Outcome, ok, err, Outcome-cases, inl, inr}
use filsys.Volume.{Edition}
use filsys.Inode.{Inode}
use filsys.Check.{
  Context, Report, Message, Kind, unalloc, unknown, idir, ireg, ichr, iblk, ipipe, no_inode,
}
use filsys.Check.Mark.{mark_blocks, mark_slots, mark_slot}
use filsys.Check.Mark.Claims.{Claims, Claims-refl, Claims-trans}
use filsys.Check.Mark.Slots.{inode_walk, Marks-mark_slots}
use filsys.Check.Free.{Tally, report}
use filsys.Check.Driver.{CheckOps, Pass, scan_kind, scan_inode, scan_inodes}

-- Whether pass 1 marks the blocks of an inode of that kind.
abbrev pub walks : Kind → Bool
walks unalloc = false
walks unknown = false
walks ichr = false
walks iblk = false
walks other = true

-- The blocks of the inode, in front of `b`.
abbrev pub add_blocks : CheckOps → Edition → Outcome Inode → List ℕ → List ℕ
add_blocks o fs (err e) b = b
add_blocks o fs (ok ip) b =
    if walks (o.inode_state ip.mode) then (inode_walk fs ip fs.desc.niaddr b).1 else b

-- The blocks of the inodes 1 to `n`.
abbrev pub all_blocks : CheckOps → Edition → ℕ → List ℕ
all_blocks o fs zero = []
all_blocks o fs (suc n) = add_blocks o fs (o.engine.read_inode fs (suc n)) (all_blocks o fs n)

-- No address of the inode is set.
abbrev pub IsEmpty : Edition → Inode → Type 0
IsEmpty fs ip = (i : ℕ) → i < fs.desc.niaddr → ip.addr i ≡ 0

-- The bad-block inode refers to no block, or is free.
abbrev pub HasNoBadBlocks : CheckOps → Edition → Type 0
HasNoBadBlocks o fs =
    (ip : Inode)
    → o.engine.read_inode fs fs.desc.badino ≡ ok ip
    → walks (o.inode_state ip.mode) ≡ true
    → IsEmpty fs ip

-- From `t` to `t'` the pass went from the blocks `b` to the blocks `b'`.
pub record Scans (fs : Edition) (t : Tally) (b : List ℕ) (t' : Tally) (b' : List ℕ) : Type 0 where
  pub longer : length t.0.log ≤ length t'.0.log
  pub size : t'.0.nblk ≡ t.0.nblk
  pub missing : t'.1.missing_blocks ≡ t.1.missing_blocks
  pub bytes : IsBytes t.0.bmap → IsBytes t'.0.bmap
  pub silent : IsBytes t.0.bmap → length t'.0.log ≤ length t.0.log → Claims fs t.0 b t'.0 b'

Scans-report :
    (fs : Edition) (t : Tally) (b b' : List ℕ) (msg : Message) (u : Tally)
    → u.0 ≡ t.0
    → u.1.missing_blocks ≡ t.1.missing_blocks
    → Scans fs t b (report msg u) b'
Scans-report fs t b b' msg u e m = record {
  longer = omega (arith, ap (λ c. length c.log) e);
  size = ap (λ c. c.nblk) e;
  missing = m;
  bytes = λ h. subst (λ c. IsBytes c.bmap) (sym e) h;
  silent = λ h l. absurd (omega (arith, ap (λ c. length c.log) e));
}

Scans-same :
    (fs : Edition) (t : Tally) (b : List ℕ) (rep : Report)
    → rep.missing_blocks ≡ t.1.missing_blocks
    → Scans fs t b (t.0, rep) b
Scans-same fs t b rep m = record {
  longer = le_refl _;
  size = refl;
  missing = m;
  bytes = λ h. h;
  silent = λ h l. Claims-refl fs t.0 b;
}

Scans-trans :
    (fs : Edition) (t u v : Tally) (b c e : List ℕ)
    → Scans fs t b u c
    → Scans fs u c v e
    → Scans fs t b v e
Scans-trans fs t u v b c e p q = record {
  longer = le_trans p.longer q.longer;
  size = q.size ∙ p.size;
  missing = q.missing ∙ p.missing;
  bytes = λ h. q.bytes (p.bytes h);
  silent = λ h l.
      Claims-trans fs (p.silent h (omega (arith, q.longer)))
        (q.silent (p.bytes h) (omega (arith, p.longer)));
}

-- An inode without an address has no block to mark.
mark_slots-empty :
    (fs : Edition) (ip : Inode) (n : ℕ) (cx : Context)
    → ((i : ℕ) → i < n → ip.addr i ≡ 0)
    → mark_slots fs ip n cx ≡ cx
unfolding mark_slots mark_slot
mark_slots-empty fs ip zero cx h = refl
mark_slots-empty fs ip (suc n) cx h =
    let hole : (ip.addr n == 0) ≡ true = ground (arith, h n) in
    rw hole (mark_slots-empty fs ip n cx (λ i l. h i (omega arith)))

inode_walk-empty :
    (fs : Edition) (ip : Inode) (n : ℕ) (b : List ℕ)
    → ((i : ℕ) → i < n → ip.addr i ≡ 0)
    → inode_walk fs ip n b ≡ (ok tt, b)
inode_walk-empty fs ip zero b h = refl
inode_walk-empty fs ip (suc n) b h =
    let hole : (ip.addr n == 0) ≡ true = ground (arith, h n) in
    rw (inode_walk-empty fs ip n b (λ i l. h i (omega arith))) (rw hole refl)

module _ (o : CheckOps) (fs : Edition) where
  Scans-empty :
      (ino : ℕ) (ip : Inode) (cx : Context) (rep rep' : Report) (b : List ℕ)
      → IsEmpty fs ip
      → rep'.missing_blocks ≡ rep.missing_blocks
      → Scans fs
          (cx, rep)
          b
          (mark_blocks fs ip (record cx { ino = ino }), rep')
          (inode_walk fs ip fs.desc.niaddr b).1
  unfolding mark_blocks
  Scans-empty ino ip cx rep rep' b h e =
      rw (mark_slots-empty fs ip fs.desc.niaddr (record cx { ino = ino }) h) (
        rw (inode_walk-empty fs ip fs.desc.niaddr b h) (record {
          longer = le_refl _;
          size = refl;
          missing = e;
          bytes = λ k. k;
          silent = λ k l.
              let c = Claims-refl fs cx b in
              record { marks = c.marks; below = c.below; above = c.above; used = c.used };
        }))

  Scans-marks :
      (ino : ℕ) (ip : Inode) (cx : Context) (rep rep' : Report) (b : List ℕ)
      → ino ≢ fs.desc.badino
      → rep'.missing_blocks ≡ rep.missing_blocks
      → Scans fs
          (cx, rep)
          b
          (mark_blocks fs ip (record cx { ino = ino }), rep')
          (inode_walk fs ip fs.desc.niaddr b).1
  unfolding mark_blocks
  Scans-marks ino ip cx rep rep' b ne e =
      let m = Marks-mark_slots fs ip fs.desc.niaddr (record cx { ino = ino }) b ne in
      record {
        longer = m.grows.longer;
        size = m.grows.size;
        missing = e;
        bytes = m.grows.bytes;
        silent = λ h l.
            let c = (m.silent h l).1 in
            record { marks = c.marks; below = c.below; above = c.above; used = c.used };
      }

  Scans-walked :
      (ino : ℕ) (ip : Inode) (cx : Context) (rep rep' : Report) (b : List ℕ)
      → (ino ≢ fs.desc.badino) ⊎ IsEmpty fs ip
      → rep'.missing_blocks ≡ rep.missing_blocks
      → Scans fs
          (cx, rep)
          b
          (mark_blocks fs ip (record cx { ino = ino }), rep')
          (inode_walk fs ip fs.desc.niaddr b).1
  Scans-walked ino ip cx rep rep' b (inl ne) e = Scans-marks ino ip cx rep rep' b ne e
  Scans-walked ino ip cx rep rep' b (inr none) e = Scans-empty ino ip cx rep rep' b none e

  Scans-kind :
      (ino : ℕ) (ip : Inode) (st : Kind) (t : Tally) (b : List ℕ)
      → (walks st ≡ true → (ino ≢ fs.desc.badino) ⊎ IsEmpty fs ip)
      → Scans fs t b
          (scan_kind fs ino ip st t)
          (if walks st then (inode_walk fs ip fs.desc.niaddr b).1 else b)
  unfolding scan_kind
  Scans-kind ino ip unalloc t b h = Scans-same fs t b t.1 refl
  Scans-kind ino ip unknown (cx, rep) b h = Scans-report fs (cx, rep) b b _ (cx, _) refl refl
  Scans-kind ino ip idir (cx, rep) b h = Scans-walked ino ip cx rep _ b (h refl) refl
  Scans-kind ino ip ireg (cx, rep) b h = Scans-walked ino ip cx rep _ b (h refl) refl
  Scans-kind ino ip ichr (cx, rep) b h = Scans-same fs (cx, rep) b _ refl
  Scans-kind ino ip iblk (cx, rep) b h = Scans-same fs (cx, rep) b _ refl
  Scans-kind ino ip ipipe (cx, rep) b h = Scans-walked ino ip cx rep _ b (h refl) refl

  -- One inode, by what reading it returns.
  abbrev scanned : ℕ → Outcome Inode → Tally → Tally
  scanned ino (err e) t = report (no_inode ino) t
  scanned ino (ok ip) t = scan_kind fs ino ip (o.inode_state ip.mode) t

  scan_inode-scanned :
      (ino : ℕ) (p : Pass)
      → (scan_inode o fs ino p).tally ≡ scanned ino (o.engine.read_inode fs ino) p.tally
  unfolding scan_inode
  scan_inode-scanned ino p = elim (Outcome-cases (o.engine.read_inode fs ino)) [
    | inl (ip, e) ↦ ground (arith, e)
    | inr (x, e) ↦ ground (arith, e)
  ]

  Scans-scanned :
      (ino : ℕ) (r : Outcome Inode) (t : Tally) (b : List ℕ)
      → ((ip : Inode)
          → r ≡ ok ip
          → walks (o.inode_state ip.mode) ≡ true
          → (ino ≢ fs.desc.badino) ⊎ IsEmpty fs ip)
      → Scans fs t b (scanned ino r t) (add_blocks o fs r b)
  Scans-scanned ino (err e) t b h = Scans-report fs t b b _ t refl refl
  Scans-scanned ino (ok ip) t b h = Scans-kind ino ip (o.inode_state ip.mode) t b (h ip refl)

  pub Scans-inodes :
      (n : ℕ) (p : Pass)
      → HasNoBadBlocks o fs
      → Scans fs p.tally [] (scan_inodes o fs n p).tally (all_blocks o fs n)
  unfolding scan_inodes
  Scans-inodes zero p h = Scans-same fs p.tally [] p.tally.1 refl
  Scans-inodes (suc n) p h =
      let q = scan_inodes o fs n p in
      let r = o.engine.read_inode fs (suc n) in
      let one = Scans-scanned (suc n) r q.tally (all_blocks o fs n) (λ ip e w.
        elim (ℕ_discrete (suc n) fs.desc.badino) [
          | yes same ↦ inr (h ip (ap (o.engine.read_inode fs) (sym same) ∙ e) w)
          | no ne ↦ inl ne
        ]) in
      Scans-trans fs p.tally q.tally _ [] (all_blocks o fs n) _ (Scans-inodes n p h) (
        subst (λ t. Scans fs q.tally (all_blocks o fs n) t (all_blocks o fs (suc n)))
          (sym (scan_inode-scanned (suc n) q)) one)
