-- ===== src/Path/Walk.antt =====
-- The lookup of a path is a walk over its components, and goes through the directory and the name
-- that the path is split into.
use filsys.Base.{ℕ, zero, suc, ◌+◌, ◌≤◌, false, List, [], ◌∷◌, ◌++◌, Option, none, some}
use filsys.Base.{◌≡◌, refl, sym, ap, ◌∙◌, subst, arith, Name, length, leb, ◌==◌, if◌then◌else◌}
use filsys.Base.{Bool-cases, inl, inr, einval, enametoolong, Outcome, ok, err, ◌>>=◌}
use filsys.Volume.{Edition}
use filsys.Engine.{Ops, walk}
use filsys.Path.{first_slash, last_slash, dir_part, behind, split_path, walk_path, path_lookup}
use filsys.Path.Components.{more, pieces, non_empty, components, pieces_behind, pieces-first_slash}
use filsys.Path.Components.{length-behind, components-last_slash}

components_rest : (r : Option Name) → non_empty (pieces_behind r) ≡ components (behind r)
unfolding pieces
components_rest none = refl
components_rest (some p) = refl

module _ (ops : Ops) (path_max : ℕ) (fs : Edition) where
  -- One component, from directory `cur`.
  abbrev pub walk_one : Name → ℕ → Outcome ℕ
  walk_one name cur = if leb 64 (length name) then err enametoolong else walk ops fs cur name

  -- The components of a list one by one, up to the first failure.
  abbrev pub walk_all : List Name → ℕ → Outcome ℕ
  walk_all [] cur = ok cur
  walk_all (name ∷ more) cur = walk_one name cur >>= walk_all more

  walk_all-append :
      (a : List Name) (name : Name) (cur : ℕ)
      → walk_all (a ++ (name ∷ [])) cur ≡ (walk_all a cur >>= walk_one name)
  walk_all-append [] name cur = ends (walk_one name cur)
    where
      ends : (r : Outcome ℕ) → (r >>= (λ x. ok x)) ≡ r
      ends (ok x) = refl
      ends (err e) = refl
  walk_all-append (m ∷ a) name cur = at (walk_one m cur) (walk_all-append a name)
    where
      at :
          (r : Outcome ℕ)
          → ((x : ℕ) → walk_all (a ++ (name ∷ [])) x ≡ (walk_all a x >>= walk_one name))
          → (r >>= walk_all (a ++ (name ∷ []))) ≡ (r >>= walk_all a >>= walk_one name)
      at (ok x) ih = ih x
      at (err e) ih = refl

  -- The body of the loop, behind strchr.
  abbrev round : ℕ → ℕ → Name → Name × Option Name → Outcome ℕ
  round left cur p r =
      if length r.0 == 0
      then walk_path ops path_max fs left cur p
      else if leb 64 (length r.0)
      then err enametoolong
      else walk ops fs cur r.0 >>= λ next. walk_path ops path_max fs left next (behind r.1)

  loop-round :
      (left cur c : ℕ) (p : Name)
      → walk_path ops path_max fs (suc left) cur (c ∷ p) ≡ round left cur p (first_slash (c ∷ p))
  unfolding walk_path
  loop-round left cur c p = refl

  round-named :
      (left cur c : ℕ) (p n : Name) (r : Option Name)
      → round left cur p (c ∷ n, r)
        ≡ (walk_one (c ∷ n) cur >>= λ next. walk_path ops path_max fs left next (behind r))
  round-named left cur c p n r =
      let named : (length n + 1 == 0) ≡ false = ground arith in
      elim (Bool-cases (leb 64 (length (c ∷ n)))) [
        | inl l ↦ ground (arith, named, l)
        | inr l ↦ ground (arith, named, l)
      ]

  first_slash-named :
      (c : ℕ) (p : Name)
      → (c == 47) ≡ false
      → first_slash (c ∷ p) ≡ (c ∷ (first_slash p).0, (first_slash p).1)
  unfolding first_slash
  first_slash-named c p s = ground (arith, s)

  components-named :
      (c : ℕ) (p : Name)
      → (c == 47) ≡ false
      → components (c ∷ p) ≡ (c ∷ (first_slash p).0) ∷ components (behind (first_slash p).1)
  unfolding pieces
  components-named c p s =
      let split : pieces (c ∷ p) ≡ (c ∷ (first_slash p).0) ∷ pieces_behind (first_slash p).1 =
        ground (arith, s, ap (more c) (pieces-first_slash p)) in
      ap non_empty split
      ∙ ap (λ (l : List Name). (c ∷ (first_slash p).0) ∷ l) (components_rest (first_slash p).1)

  -- A component of the path is walked, and then what is behind it.
  walk_path_round :
      (left cur c : ℕ) (p : Name)
      → (c == 47) ≡ false
      → walk_path ops path_max fs (suc left) cur (c ∷ p) ≡ (
          walk_one (c ∷ (first_slash p).0) cur >>= λ next.
          walk_path ops path_max fs left next (behind (first_slash p).1))
  walk_path_round left cur c p s =
      loop-round left cur c p
      ∙ ap (round left cur p) (first_slash-named c p s)
      ∙ round-named left cur c p (first_slash p).0 (first_slash p).1

  bind-same : (r : Outcome ℕ) (f g : ℕ → Outcome ℕ) → ((x : ℕ) → f x ≡ g x) → (r >>= f) ≡ (r >>= g)
  bind-same (ok x) f g h = h x
  bind-same (err e) f g h = refl

  walk_path-components :
      (left cur : ℕ) (p : Name)
      → length p ≤ left
      → walk_path ops path_max fs left cur p ≡ walk_all (components p) cur
  unfolding walk_path pieces first_slash
  walk_path-components zero cur [] le = refl
  walk_path-components zero cur (c ∷ p) le = absurd (omega (arith, le))
  walk_path-components (suc left) cur [] le = refl
  walk_path-components (suc left) cur (c ∷ p) le = elim (Bool-cases (c == 47)) [
    | inl s ↦ ground (arith, s, walk_path-components left cur p (omega (arith, le)))
    | inr s ↦
        let shorter : length (behind (first_slash p).1) ≤ length p =
          subst (λ r. length (behind r.1) ≤ length p) (first_slash-named c p s)
            (length-behind c p) in
        walk_path_round left cur c p s
        ∙ bind-same (walk_one (c ∷ (first_slash p).0) cur)
            (λ next. walk_path ops path_max fs left next (behind (first_slash p).1))
            (walk_all (components (behind (first_slash p).1)))
            (λ next.
              walk_path-components left next (behind (first_slash p).1)
                (omega (arith, le, shorter)))
        ∙ sym (ap (λ l. walk_all l cur) (components-named c p s))
  ]

-- The lookup of an absolute path gives what walking the components of the path from the root one by
-- one gives, its failures included, where a component of 64 bytes or more is too long; a path that
-- does not begin with a slash is invalid.
pub path_lookup-components :
    (ops : Ops) (path_max : ℕ) (fs : Edition) (c : ℕ) (p : Name)
    → path_lookup ops path_max fs (c ∷ p) ≡ (
        if c == 47
        then walk_all ops path_max fs (components (c ∷ p)) fs.desc.rootino
        else err einval)
unfolding path_lookup pieces
path_lookup-components ops path_max fs c p = elim (Bool-cases (c == 47)) [
  | inl s ↦
      ground
        (arith, s, walk_path-components ops path_max fs (length p) fs.desc.rootino p (omega arith))
  | inr s ↦ ground (arith, s)
]

-- The slash that a directory part begins with.
begins : (p d n : Name) → last_slash (47 ∷ p) ≡ some (d, n) → (q : Name) × (dir_part d ≡ 47 ∷ q)
unfolding last_slash
begins p [] n e = ([], refl)
begins p (x ∷ d) n e = at (last_slash p) refl
  where
    at : (r : Option (Name × Name)) → last_slash p ≡ r → (q : Name) × (dir_part (x ∷ d) ≡ 47 ∷ q)
    at none q = absurd (ground (arith, q, e))
    at (some (d', n')) q = (d, ground (arith, q, e))

components-dir_part : (d : Name) → components (dir_part d) ≡ components d
unfolding pieces
components-dir_part [] = refl
components-dir_part (c ∷ d) = refl

lookup-absolute :
    (ops : Ops) (path_max : ℕ) (fs : Edition) (p : Name)
    → path_lookup ops path_max fs (47 ∷ p)
      ≡ walk_all ops path_max fs (components (47 ∷ p)) fs.desc.rootino
lookup-absolute ops path_max fs p = ground (arith, path_lookup-components ops path_max fs 47 p)

lookup-split :
    (ops : Ops) (path_max : ℕ) (fs : Edition) (p d n : Name) (c : ℕ)
    → last_slash (47 ∷ p) ≡ some (d, c ∷ n)
    → path_lookup ops path_max fs (47 ∷ p)
      ≡ (path_lookup ops path_max fs (dir_part d) >>= walk_one ops path_max fs (c ∷ n))
lookup-split ops path_max fs p d n c e =
    let (q, b) = begins p d (c ∷ n) e in
    let root = fs.desc.rootino in
    let dir : path_lookup ops path_max fs (dir_part d)
        ≡ walk_all ops path_max fs (components d) root =
      ap (path_lookup ops path_max fs) b
      ∙ lookup-absolute ops path_max fs q
      ∙ ap (λ x. walk_all ops path_max fs (components x) root) (sym b)
      ∙ ap (λ l. walk_all ops path_max fs l root) (components-dir_part d) in
    lookup-absolute ops path_max fs p
    ∙ ap (λ l. walk_all ops path_max fs l root) (components-last_slash (47 ∷ p) d c n e)
    ∙ walk_all-append ops path_max fs (components d) (c ∷ n) root
    ∙ sym (ap (λ r. r >>= walk_one ops path_max fs (c ∷ n)) dir)

-- When split_path succeeds on an absolute path, whatever the buffers held before, the lookup of the
-- path is the lookup of the directory part followed by the walk of the name from there.
pub split_path-path_lookup :
    (ops : Ops) (path_max : ℕ) (fs : Edition) (p dir name d0 n0 : Name) (dirsz namesz : ℕ)
    → split_path (47 ∷ p) dirsz d0 namesz n0 ≡ (ok tt, dir, name)
    → path_lookup ops path_max fs (47 ∷ p)
      ≡ (path_lookup ops path_max fs dir >>= walk_one ops path_max fs name)
unfolding split_path
split_path-path_lookup ops path_max fs p dir name d0 n0 dirsz namesz e =
    at (last_slash (47 ∷ p)) refl
  where
    at :
        (r : Option (Name × Name))
        → last_slash (47 ∷ p) ≡ r
        → path_lookup ops path_max fs (47 ∷ p)
          ≡ (path_lookup ops path_max fs dir >>= walk_one ops path_max fs name)
    at none q = absurd (ground (arith, q, e))
    at (some (d, [])) q = absurd (ground (arith, q, e))
    at (some (d, c ∷ n)) q =
        let same : dir_part d ≡ dir = ground (arith, q, e) in
        let last : (c ∷ n) ≡ name = ground (arith, q, e) in
        subst
          (λ x.
            path_lookup ops path_max fs (47 ∷ p)
            ≡ (path_lookup ops path_max fs x >>= walk_one ops path_max fs name))
          same
          (subst
            (λ x.
              path_lookup ops path_max fs (47 ∷ p)
              ≡ (path_lookup ops path_max fs (dir_part d) >>= walk_one ops path_max fs x))
            last (lookup-split ops path_max fs p d n c q))
