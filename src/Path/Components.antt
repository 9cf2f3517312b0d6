-- ===== src/Path/Components.antt =====
-- The components of a path, and what its slashes have to do with them.
use filsys.Base.{ℕ, ◌≤◌, List, [], ◌∷◌, ◌++◌, Option, none, some}
use filsys.Base.{
  ◌≡◌, refl, sym, ap, ◌∙◌, arith, Name, length, ◌==◌, if◌then◌else◌, Bool-cases, inl, inr, subst,
}
use filsys.Path.{first_slash, last_slash, behind}

-- The pieces between the slashes; the first of them is in the making.
abbrev pub more : ℕ → List Name → List Name
more c [] = (c ∷ []) ∷ []
more c (n ∷ ns) = (c ∷ n) ∷ ns

unfoldable pub pieces : Name → List Name
pieces [] = [] ∷ []
pieces (c ∷ p) = let rest = pieces p in if c == 47 then [] ∷ rest else more c rest

-- The empty pieces are left out.
abbrev pub non_empty : List Name → List Name
non_empty [] = []
non_empty ([] ∷ ns) = non_empty ns
non_empty ((c ∷ n) ∷ ns) = (c ∷ n) ∷ non_empty ns

-- The components of a path.
abbrev pub components : Name → List Name
components p = non_empty (pieces p)

-- The pieces behind the first.
abbrev pub pieces_behind : Option Name → List Name
pieces_behind none = []
pieces_behind (some r) = pieces r

pub pieces-first_slash : (p : Name) → pieces p ≡ (first_slash p).0 ∷ pieces_behind (first_slash p).1
unfolding pieces first_slash
pieces-first_slash [] = refl
pieces-first_slash (c ∷ p) = elim (Bool-cases (c == 47)) [
  | inl s ↦ ground (arith, s)
  | inr s ↦ ground (arith, s, ap (more c) (pieces-first_slash p))
]

-- What is behind a slash is shorter.
pub length-behind : (c : ℕ) (p : Name) → length (behind (first_slash (c ∷ p)).1) ≤ length p
unfolding first_slash
length-behind c p = elim (Bool-cases (c == 47)) [
  | inl s ↦ ground (arith, s)
  | inr s ↦ ground (arith, s, length-behind_rest p)
]
  where
    length-behind_rest : (q : Name) → length (behind (first_slash q).1) ≤ length q
    length-behind_rest [] = omega arith
    length-behind_rest (x ∷ q) = elim (Bool-cases (x == 47)) [
      | inl s ↦ ground (arith, s)
      | inr s ↦ ground (arith, s, length-behind_rest q)
    ]

-- A name without a slash is one piece.
one_piece : (p : Name) → last_slash p ≡ none → pieces p ≡ p ∷ []
unfolding pieces last_slash
one_piece [] e = refl
one_piece (c ∷ p) e = at (last_slash p) refl (one_piece p)
  where
    at :
        (r : Option (Name × Name))
        → last_slash p ≡ r
        → (last_slash p ≡ none → pieces p ≡ p ∷ [])
        → pieces (c ∷ p) ≡ (c ∷ p) ∷ []
    at (some s) q ih = absurd (ground (arith, q, e))
    at none q ih = elim (Bool-cases (c == 47)) [
      | inl s ↦ absurd (ground (arith, q, e, s))
      | inr s ↦ ground (arith, s, ap (more c) (ih q))
    ]

more-append : (c : ℕ) (d n : Name) → more c (pieces d ++ (n ∷ [])) ≡ more c (pieces d) ++ (n ∷ [])
more-append c d n =
    ap (λ (l : List Name). more c (l ++ (n ∷ []))) (pieces-first_slash d)
    ∙ sym (ap (λ (l : List Name). more c l ++ (n ∷ [])) (pieces-first_slash d))

-- The part behind the last slash is the last piece.
pieces-last_slash : (p d n : Name) → last_slash p ≡ some (d, n) → pieces p ≡ pieces d ++ (n ∷ [])
unfolding pieces last_slash
pieces-last_slash [] d n e = absurd (ground (arith, e))
pieces-last_slash (c ∷ p) d n e = at (last_slash p) refl (pieces-last_slash p)
  where
    at :
        (r : Option (Name × Name))
        → last_slash p ≡ r
        → ((d' n' : Name) → last_slash p ≡ some (d', n') → pieces p ≡ pieces d' ++ (n' ∷ []))
        → pieces (c ∷ p) ≡ pieces d ++ (n ∷ [])
    at (some (d', n')) q ih =
        let same : (c ∷ d') ≡ d = ground (arith, q, e) in
        let last : n' ≡ n = ground (arith, q, e) in
        subst (λ x. pieces (c ∷ p) ≡ pieces x ++ (n ∷ [])) same
          (subst (λ x. pieces (c ∷ p) ≡ pieces (c ∷ d') ++ (x ∷ [])) last
            (elim (Bool-cases (c == 47)) [
              | inl s ↦ ground (arith, s, ap (λ (l : List Name). [] ∷ l) (ih d' n' q))
              | inr s ↦ ground (arith, s, ap (more c) (ih d' n' q), more-append c d' n')
            ]))
    at none q ih = elim (Bool-cases (c == 47)) [
      | inl s ↦ ground (arith, s, q, e, one_piece p q)
      | inr s ↦ absurd (ground (arith, q, e, s))
    ]

non_empty-append :
    (l : List Name) (c : ℕ) (n : Name)
    → non_empty (l ++ ((c ∷ n) ∷ [])) ≡ non_empty l ++ ((c ∷ n) ∷ [])
non_empty-append [] c n = refl
non_empty-append ([] ∷ l) c n = non_empty-append l c n
non_empty-append ((x ∷ m) ∷ l) c n = ap (λ (k : List Name). (x ∷ m) ∷ k) (non_empty-append l c n)

-- The components of a path are those of its directory and the name behind the last slash.
pub components-last_slash :
    (p d : Name) (c : ℕ) (n : Name)
    → last_slash p ≡ some (d, c ∷ n)
    → components p ≡ components d ++ ((c ∷ n) ∷ [])
components-last_slash p d c n e =
    ap non_empty (pieces-last_slash p d (c ∷ n) e) ∙ non_empty-append (pieces d) c n
