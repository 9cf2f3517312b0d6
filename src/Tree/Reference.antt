-- ===== src/Tree/Reference.antt =====
-- filsys_bmap without allocation, against the tree of the inode: the slots in order, each with the
-- blocks that its level covers.
use native.Mathlib.Nat.{pow-suc, pow-zero, mod-eq_of_lt, pow-le-pow_right}
use native.Mathlib.Decide.{dec_lt, ℕ_discrete}
use filsys.Base.{
  ℕ, zero, suc, ◌+◌, ◌-◌, ◌*◌, ◌/◌, ◌%◌, ◌^◌, ◌≤◌, ◌<◌, ◌≡◌, ◌∙◌, refl, ap, sym, subst, arith,
}
use filsys.Base.{false, u32, Outcome, ok, Option, none, some, ltb, if◌then◌else◌}
use filsys.Volume.{Desc, Edition}
use filsys.Inode.{Inode}
use filsys.FreeList.{update}
use filsys.Tree.{power, span, slot_level}
use filsys.Tree.Map.{
  index_at, find_slot, slot_block, direct_block, map_block, bmap, Mapped, descend,
}
use filsys.Tree.Lookup.{leaf, descend-leaf}

-- How many blocks of the file a slot covers.
abbrev pub width : Desc → Option ℕ → ℕ
width d none = 1
width d (some level) = d.nindir ^ suc level

-- How many the `left` slots from `slot` on cover.
unfoldable pub capacity : Desc → ℕ → ℕ → ℕ → ℕ
capacity d mode zero slot = 0
capacity d mode (suc left) slot = width d (slot_level d mode slot) + capacity d mode left (slot + 1)

-- Block `lbn` of the part of the file that the `left` slots from `slot` on cover; 0 is a hole.
unfoldable pub file_block : Edition → Inode → ℕ → ℕ → ℕ → Outcome ℕ
file_block fs ip zero slot lbn = ok 0
file_block fs ip (suc left) slot lbn =
    let level = slot_level fs.desc ip.mode slot in
    let rest = file_block fs ip left (slot + 1) (lbn - width fs.desc level) in
    if ltb lbn (width fs.desc level)
    then (elim level [ none ↦ ok (ip.addr slot) | some l ↦ leaf fs l (ip.addr slot) lbn ])
    else rest

-- A lookup returned `o` and changed neither the volume nor an address.
pub record Looks (fs : Edition) (ip : Inode) (o : Outcome ℕ) (m : Mapped) : Type 0 where
  pub out : m.0 ≡ o
  pub same_addr : (i : ℕ) → m.1.addr i ≡ ip.addr i
  pub same_volume : m.2 ≡ fs

power-exact : (d : Desc) (k : ℕ) → 0 < d.nindir → d.nindir ^ k < 2 ^ 32 → power d k ≡ d.nindir ^ k
unfolding power
power-exact d zero pos h = sym (pow-zero d.nindir)
power-exact d (suc k) pos h =
    let less : d.nindir ^ k < 2 ^ 32 =
      omega (arith, pow-le-pow_right pos {i = k} {j = suc k} (omega arith)) in
    ap (λ (x : ℕ). u32 (x * d.nindir)) (power-exact d k pos less)
    ∙ ap u32 (sym (pow-suc d.nindir k))
    ∙ mod-eq_of_lt h

pub span-width :
    (d : Desc) (l : Option ℕ) → 0 < d.nindir → width d l < 2 ^ 32 → span d l ≡ width d l
unfolding span
span-width d none pos h = refl
span-width d (some level) pos h = power-exact d (suc level) pos h

index_at-exact :
    (d : Desc) (level r j : ℕ)
    → 0 < d.nindir
    → d.nindir ^ suc level < 2 ^ 32
    → index_at d level r (0 + j) ≡ r / d.nindir ^ (level - j) % d.nindir
unfolding index_at
index_at-exact d level r j pos h =
    let less : d.nindir ^ (level - j) < 2 ^ 32 =
      omega (arith, pow-le-pow_right pos {i = level - j} {j = suc level} (omega arith)) in
    ap (λ (x : ℕ). r / power d (level - x) % d.nindir) (omega arith)
    ∙ ap (λ (x : ℕ). r / x % d.nindir) (power-exact d (level - j) pos less)

same_addr-update : (a : ℕ → ℕ) (slot i : ℕ) → update a slot (a slot) i ≡ a i
same_addr-update a slot i = elim (ℕ_discrete i slot) [
  | yes e ↦ ground (arith, ap a e)
  | no ne ↦ ground arith
]

slot_block-Looks :
    (fs : Edition) (ip : Inode) (slot r : ℕ)
    → 0 < fs.desc.nindir
    → (l : Option ℕ) → slot_level fs.desc ip.mode slot ≡ l
    → width fs.desc l < 2 ^ 32
    → r < width fs.desc l
    → Looks fs ip
        (elim l as (λ x. Outcome ℕ) [
          | none ↦ ok (ip.addr slot)
          | some level ↦ leaf fs level (ip.addr slot) r
        ])
        (slot_block fs ip false slot r)
unfolding slot_block direct_block
slot_block-Looks fs ip slot r pos none e h l = record {
  out = ground (arith, e);
  same_addr = λ i. ground (arith, e);
  same_volume = ground (arith, e);
}
slot_block-Looks fs ip slot r pos (some level) e h l =
    let found =
      descend (index_at fs.desc level r) false (suc level) 0 fs (ip.addr slot) (ip.addr slot) in
    let there : found ≡ (leaf fs level (ip.addr slot) r, ip.addr slot, fs) =
      descend-leaf fs (index_at fs.desc level r) level 0 (ip.addr slot) (ip.addr slot) r pos l
        (λ j le. index_at-exact fs.desc level r j pos h) in
    record {
      out = ground (arith, e, ap (λ f. f.0) there);
      same_addr = λ i.
          ground
            (arith, e, ap (λ f. update ip.addr slot f.1 i) there, same_addr-update ip.addr slot i);
      same_volume = ground (arith, e, ap (λ f. f.2) there);
    }

found-Looks : Edition → Inode → Option (ℕ × ℕ) → Mapped
found-Looks fs ip none = (ok 0, ip, fs)
found-Looks fs ip (some place) = slot_block fs ip false place.0 place.1

Looks-along :
    (fs : Edition) (ip : Inode) {o o' : Outcome ℕ} {f f' : Option (ℕ × ℕ)}
    → o ≡ o'
    → f ≡ f'
    → Looks fs ip o' (found-Looks fs ip f')
    → Looks fs ip o (found-Looks fs ip f)
Looks-along fs ip {o} {o'} {f} {f'} e d l =
    subst (λ x. Looks fs ip x (found-Looks fs ip f)) (sym e)
      (subst (λ g. Looks fs ip o' (found-Looks fs ip g)) (sym d) l)

find_slot-Looks :
    (fs : Edition) (ip : Inode) (left slot base lbn : ℕ)
    → 0 < fs.desc.nindir
    → base ≤ lbn
    → base + capacity fs.desc ip.mode left slot < 2 ^ 32
    → Looks fs ip
        (file_block fs ip left slot (lbn - base))
        (found-Looks fs ip (find_slot fs.desc ip.mode lbn left slot base))
unfolding find_slot file_block found-Looks capacity
find_slot-Looks fs ip zero slot base lbn pos le h = record {
  out = refl;
  same_addr = λ i. refl;
  same_volume = refl;
}
find_slot-Looks fs ip (suc left) slot base lbn pos le h =
    let level = slot_level fs.desc ip.mode slot in
    let w = width fs.desc level in
    let next : u32 (base + span fs.desc level) ≡ base + w =
      ap (λ (x : ℕ). u32 (base + x)) (span-width fs.desc level pos (omega arith))
      ∙ mod-eq_of_lt (omega arith) in
    elim (dec_lt (lbn - base) w) [
      | yes below ↦
          let here : find_slot fs.desc ip.mode lbn (suc left) slot base ≡ some (slot, lbn - base) =
            ground (arith, next) in
          let block = slot_block-Looks fs ip slot (lbn - base) pos level refl (omega arith) below in
          Looks-along fs ip (ground (arith, below)) here block
      | no above ↦
          let there : find_slot fs.desc ip.mode lbn (suc left) slot base
              ≡ find_slot fs.desc ip.mode lbn left (slot + 1) (base + w) =
            ground (arith, next) in
          let rest =
            find_slot-Looks fs ip left (slot + 1) (base + w) lbn pos (omega arith) (omega arith) in
          let left_over : lbn - base - w ≡ lbn - (base + w) = omega arith in
          Looks-along fs ip (ground (arith, above, ap (file_block fs ip left (slot + 1)) left_over))
            there rest
    ]

map_block-found :
    (fs : Edition) (ip : Inode) (lbn : ℕ)
    → map_block fs ip lbn false
      ≡ found-Looks fs ip (find_slot fs.desc ip.mode lbn fs.desc.niaddr 0 0)
unfolding map_block found-Looks
map_block-found fs ip lbn = by_slot (find_slot fs.desc ip.mode lbn fs.desc.niaddr 0 0)
  where
    by_slot :
        (o : Option (ℕ × ℕ))
        → (elim o as (λ x. Mapped) [
          | none ↦ (ok 0, ip, fs)
          | some place ↦ slot_block fs ip false place.0 place.1
        ])
          ≡ found-Looks fs ip o
    by_slot none = refl
    by_slot (some place) = refl

bmap-map_block :
    (fs : Edition) (ip : Inode) (lbn : ℕ) → bmap fs ip lbn false ≡ map_block fs ip lbn false
unfolding bmap
bmap-map_block fs ip lbn = ground arith

-- Where the slots together cover fewer than 2^32 blocks, a lookup without allocation returns what
-- the tree of the inode has at the index, a hole behind the end included, and leaves the volume and
-- every address as they are. An indirect block that cannot be read makes it fail with -EIO.
pub bmap-Looks :
    (fs : Edition) (ip : Inode) (lbn : ℕ)
    → 0 < fs.desc.nindir
    → capacity fs.desc ip.mode fs.desc.niaddr 0 < 2 ^ 32
    → Looks fs ip (file_block fs ip fs.desc.niaddr 0 lbn) (bmap fs ip lbn false)
bmap-Looks fs ip lbn pos h =
    subst (Looks fs ip (file_block fs ip fs.desc.niaddr 0 lbn))
      (sym (bmap-map_block fs ip lbn ∙ map_block-found fs ip lbn))
      (subst
        (λ k.
          Looks fs ip (file_block fs ip fs.desc.niaddr 0 k)
            (found-Looks fs ip (find_slot fs.desc ip.mode lbn fs.desc.niaddr 0 0)))
        (omega arith)
        (find_slot-Looks fs ip fs.desc.niaddr 0 0 lbn pos (omega arith) (omega arith)))
