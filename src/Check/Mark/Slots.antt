-- ===== src/Check/Mark/Slots.antt =====
-- The marking of a whole inode claims the blocks that a truncation to nothing collects.
use filsys.Base.{ℕ, zero, suc, ◌≢◌, refl, sym, subst, arith}
use filsys.Base.{inl, inr, List, Bool-cases, ◌==◌, if◌then◌else◌}
use filsys.Base.{ok, err, none, some, Option}
use filsys.Volume.{Edition}
use filsys.Inode.{Inode}
use filsys.Tree.{slot_level, Walk, push, collect_subtree}
use filsys.Check.{Context}
use filsys.Check.Mark.{mark_block, mark_tree, mark_slot, mark_slots}
use filsys.Check.Mark.Claims.{Claims-refl, Grows-refl, Marks, Marks-trans, Marks-failed}
use filsys.Check.Mark.Claims.{Marks-Marked, mark_block-Marked}
use filsys.Check.Mark.Subtree.{Marks-mark_tree}

-- The blocks of one slot, and of the slots below `n` in the order in which they are marked.
abbrev pub slot_walk : Edition → Inode → ℕ → List ℕ → Walk (List ℕ)
slot_walk fs ip i b = if ip.addr i == 0 then (ok tt, b) else elim (slot_level fs.desc ip.mode i) [
  | none ↦ push (ip.addr i) b
  | some level ↦ collect_subtree fs level (ip.addr i) b
]

abbrev pub then_walk : Walk (List ℕ) → (List ℕ → Walk (List ℕ)) → Walk (List ℕ)
then_walk (ok u, b) k = k b
then_walk (err e, b) k = (err e, b)

abbrev pub inode_walk : Edition → Inode → ℕ → List ℕ → Walk (List ℕ)
inode_walk fs ip zero b = (ok tt, b)
inode_walk fs ip (suc i) b = then_walk (inode_walk fs ip i b) (slot_walk fs ip i)

module _ (fs : Edition) (ip : Inode) where
  Marks-mark_slot :
      (i : ℕ) (cx : Context) (b : List ℕ)
      → cx.ino ≢ fs.desc.badino
      → Marks fs cx b (mark_slot fs ip i cx) (slot_walk fs ip i b)
  unfolding mark_slot
  Marks-mark_slot i cx b o = elim (Bool-cases (ip.addr i == 0)) [
    | inl hole ↦
        rw hole (record { grows = Grows-refl cx; silent = λ h l. (refl, Claims-refl fs cx b) })
    | inr block ↦ rw block (at (ip.addr i) (ground arith) (slot_level fs.desc ip.mode i))
  ]
    where
      at :
          (a : ℕ)
          → a ≢ 0
          → (level : Option ℕ)
          → Marks fs cx b
              (elim level as (λ _. Context) [
                | none ↦ (mark_block fs cx a).1
                | some l ↦ mark_tree fs l a cx
              ])
              (elim level as (λ _. Walk (List ℕ)) [
                | none ↦ push a b
                | some l ↦ collect_subtree fs l a b
              ])
      at a ne none = Marks-Marked fs cx b a _ (mark_block-Marked fs cx a o ne)
      at a ne (some l) = Marks-mark_tree fs l a cx b o ne

  Marks-then :
      (cx cy : Context) (b : List ℕ) (i : ℕ) (w : Walk (List ℕ))
      → cy.ino ≢ fs.desc.badino
      → Marks fs cx b cy w
      → Marks fs cx b (mark_slot fs ip i cy) (then_walk w (slot_walk fs ip i))
  Marks-then cx cy b i (ok u, c) o p = Marks-trans fs cx cy _ b c _ p (Marks-mark_slot i cy c o)
  Marks-then cx cy b i (err e, c) o p =
      Marks-failed fs cx cy _ b c e _ p (Marks-mark_slot i cy c o).grows

  pub Marks-mark_slots :
      (n : ℕ) (cx : Context) (b : List ℕ)
      → cx.ino ≢ fs.desc.badino
      → Marks fs cx b (mark_slots fs ip n cx) (inode_walk fs ip n b)
  unfolding mark_slots
  Marks-mark_slots zero cx b o = record {
    grows = Grows-refl cx;
    silent = λ h l. (refl, Claims-refl fs cx b);
  }
  Marks-mark_slots (suc i) cx b o =
      let before = Marks-mark_slots i cx b o in
      Marks-then cx (mark_slots fs ip i cx) b i (inode_walk fs ip i b)
        (subst (λ k. k ≢ fs.desc.badino) (sym before.grows.same) o) before
