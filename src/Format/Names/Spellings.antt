-- ===== src/Format/Names/Spellings.antt =====
-- Which names filsys_edition_by_name of filsys_names.c resolves, and to what.
use filsys.Base.{true, ◌≡◌, ◌↔◌, ◌⊎◌, inl, inr, refl, sym, ap, subst, arith, ◌==◌}
use filsys.Base.{ℕ, List, [], ◌∷◌, none, some, Name, same_name, codes, Bool-cases}
use filsys.FreeList.Chain.{All}
use filsys.Format.{Selector, vax32, unix}
use filsys.Format.Names.{Row, formats, is_among, find_format, stripped, edition_by_name}

same_name-eq : (a b : Name) → same_name a b ≡ true → a ≡ b
unfolding same_name
same_name-eq [] [] h = refl
same_name-eq [] (y ∷ b) h = absurd (ground (arith, h))
same_name-eq (x ∷ a) [] h = absurd (ground (arith, h))
same_name-eq (x ∷ a) (y ∷ b) h =
    let head : x ≡ y = ground (arith, h) in
    let tail : a ≡ b = same_name-eq a b (ground (arith, h)) in cc

-- The name is in the list.
abbrev pub IsAmong : Name → List Name → Type 0
IsAmong name [] = ⊥
IsAmong name (a ∷ more) = (name ≡ a) ⊎ IsAmong name more

-- A row of the table has the name for the edition.
abbrev pub IsSpelling : List Row → Name → Selector → Type 0
IsSpelling [] name e = ⊥
IsSpelling (r ∷ rows) name e =
    ((r.edition ≡ e) × IsAmong name (r.name ∷ r.aliases)) ⊎ IsSpelling rows name e

-- What the tools accept for an edition: a name of the table, as it is or behind another v or V, the
-- capital form of `vax32`, and the names of the automatic detection.
pub data Spelled : Name → Selector → Type 0 where
  plain : {name : Name} {e : Selector} → IsSpelling formats name e → Spelled name e
  small_v : {name : Name} {e : Selector} → IsSpelling formats name e → Spelled (b'v' ∷ name) e
  large_v : {name : Name} {e : Selector} → IsSpelling formats name e → Spelled (b'V' ∷ name) e
  capitals : Spelled (codes "VAX32") vax32
  any_unix : Spelled (codes "unix") unix
  automatic : Spelled (codes "auto") unix
  any_format : Spelled (codes "any") unix

-- ---- what is found is spelled

is_among-IsAmong : (name : Name) (l : List Name) → is_among name l ≡ true → IsAmong name l
unfolding is_among
is_among-IsAmong name [] h = absurd (ground (arith, h))
is_among-IsAmong name (a ∷ more) h = elim (Bool-cases (same_name name a)) [
  | inl t ↦ inl (same_name-eq name a t)
  | inr f ↦ inr (is_among-IsAmong name more (ground (arith, f, h)))
]

find_format-IsSpelling :
    (rows : List Row) (name : Name) (e : Selector)
    → find_format rows name ≡ some e
    → IsSpelling rows name e
unfolding find_format
find_format-IsSpelling [] name e h = absurd (ground (arith, h))
find_format-IsSpelling (r ∷ rows) name e h = elim (Bool-cases (same_name name r.name)) [
  | inl t ↦ inl (ground (arith, t, h), inl (same_name-eq name r.name t))
  | inr f ↦ elim (Bool-cases (is_among name r.aliases)) [
    | inl t ↦ inl (ground (arith, f, t, h), inr (is_among-IsAmong name r.aliases t))
    | inr g ↦ inr (find_format-IsSpelling rows name e (ground (arith, f, g, h)))
  ]
]

stripped-Spelled :
    (name : Name) (e : Selector) → IsSpelling formats (stripped name) e → Spelled name e
unfolding stripped
stripped-Spelled [] e h = plain h
stripped-Spelled (c ∷ name) e h = elim (Bool-cases (c == b'v')) [
  | inl t ↦
      subst (λ (k : ℕ). Spelled (k ∷ name) e) (ground (arith, t))
        (small_v (subst (λ n. IsSpelling formats n e) (ground (arith, t)) h))
  | inr f ↦ elim (Bool-cases (c == b'V')) [
    | inl t ↦
        subst (λ (k : ℕ). Spelled (k ∷ name) e) (ground (arith, t))
          (large_v (subst (λ n. IsSpelling formats n e) (ground (arith, f, t)) h))
    | inr g ↦ plain (subst (λ n. IsSpelling formats n e) (ground (arith, f, g)) h)
  ]
]

-- A name that equals a special one.
special :
    (name s : Name) (e k : Selector)
    → same_name name s ≡ true
    → some k ≡ some e
    → Spelled s k
    → Spelled name e
special name s e k h f w =
    let same : k ≡ e = ap (λ o. elim o [ none ↦ k | some x ↦ x ]) f in
    subst (λ n. Spelled n e) (sym (same_name-eq name s h)) (subst (Spelled s) same w)

vax32-Spelled : Spelled (codes "vax32") vax32
unfolding find_format formats is_among same_name
vax32-Spelled = plain (find_format-IsSpelling formats (codes "vax32") vax32 refl)

-- The tests in turn: `a` and `b` for vax32, and the three names of the detection.
found-Spelled : (name : Name) (e : Selector) → edition_by_name name ≡ some e → Spelled name e
unfolding edition_by_name
found-Spelled name e h = elim (Bool-cases (same_name name (codes "vax32"))) [
  | inl t ↦ special name (codes "vax32") e vax32 t (ground (arith, t, h)) vax32-Spelled
  | inr a ↦ elim (Bool-cases (same_name name (codes "VAX32"))) [
    | inl t ↦ special name (codes "VAX32") e vax32 t (ground (arith, a, t, h)) capitals
    | inr b ↦ elim (Bool-cases (same_name name (codes "unix"))) [
      | inl t ↦ special name (codes "unix") e unix t (ground (arith, a, b, t, h)) any_unix
      | inr c ↦ elim (Bool-cases (same_name name (codes "auto"))) [
        | inl t ↦ special name (codes "auto") e unix t (ground (arith, a, b, c, t, h)) automatic
        | inr d ↦ elim (Bool-cases (same_name name (codes "any"))) [
          | inl t ↦
              special name (codes "any") e unix t (ground (arith, a, b, c, d, t, h)) any_format
          | inr f ↦
              stripped-Spelled name e (
                find_format-IsSpelling formats (stripped name) e (ground (arith, a, b, c, d, f, h)))
        ]
      ]
    ]
  ]
]

-- ---- what is spelled is found

abbrev Resolves : Name → Selector → Type 0
Resolves name e =
    (edition_by_name name ≡ some e)
    × (edition_by_name (b'v' ∷ name) ≡ some e)
    × (edition_by_name (b'V' ∷ name) ≡ some e)

-- No row hides a spelling of another.
table-Resolves : All (λ r. All (λ name. Resolves name r.edition) (r.name ∷ r.aliases)) formats
unfolding edition_by_name formats find_format is_among stripped same_name
table-Resolves = search

among-Resolves :
    (names : List Name) (name : Name) (e : Selector)
    → All (λ n. Resolves n e) names
    → IsAmong name names
    → Resolves name e
among-Resolves [] name e a w = absurd w
among-Resolves (n ∷ names) name e a (inl same) = subst (λ x. Resolves x e) (sym same) a.0
among-Resolves (n ∷ names) name e a (inr more) = among-Resolves names name e a.1 more

spelling-Resolves :
    (rows : List Row) (name : Name) (e : Selector)
    → All (λ r. All (λ n. Resolves n r.edition) (r.name ∷ r.aliases)) rows
    → IsSpelling rows name e
    → Resolves name e
spelling-Resolves [] name e a w = absurd w
spelling-Resolves (r ∷ rows) name e a (inl (same, w)) =
    subst (Resolves name) same (among-Resolves (r.name ∷ r.aliases) name r.edition a.0 w)
spelling-Resolves (r ∷ rows) name e a (inr more) = spelling-Resolves rows name e a.1 more

Spelled-found : {name : Name} {e : Selector} → Spelled name e → edition_by_name name ≡ some e
unfolding edition_by_name same_name
Spelled-found (plain {name} {e} w) = (spelling-Resolves formats name e table-Resolves w).0
Spelled-found (small_v {name} {e} w) = (spelling-Resolves formats name e table-Resolves w).1
Spelled-found (large_v {name} {e} w) = (spelling-Resolves formats name e table-Resolves w).2
Spelled-found capitals = refl
Spelled-found any_unix = refl
Spelled-found automatic = refl
Spelled-found any_format = refl

-- filsys_edition_by_name resolves a name to an edition exactly if a row of the table has the name for
-- that edition, as it is or behind another v or V, or the name is VAX32 for the 32V edition, or one of
-- unix, auto and any for the automatic detection. So every other name is refused, and no row hides a
-- spelling of another.
pub edition_by_name-Spelled :
    (name : Name) (e : Selector) → (edition_by_name name ≡ some e) ↔ Spelled name e
edition_by_name-Spelled name e = (found-Spelled name e, Spelled-found)
