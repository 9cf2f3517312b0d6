-- ===== src/FreeList/Search.antt =====
-- The loop of v7fs_ialloc ends: a scan that filled the cache put a free inode on top.
use native.Mathlib.Decide.{dec_lt}
use filsys.Base.{ℕ, zero, suc, ◌+◌, ◌-◌, ◌≤◌, ◌<◌, false, ◌||◌, ◌≡◌, refl, ap, ◌∙◌, arith}
use filsys.Base.{u16, leb, ltb, some, subst}
use filsys.Base.{eio, enospc, ok, err, Outcome-cases, Bool-cases, ◌⊎◌, inl, inr}
use filsys.Volume.{Edition, Freelist, Step, maxinode, read_block}
use filsys.Inode.{Inode, read_inode}
use filsys.FreeList.{
  update, with_fl, inode_live, refill, again, done, try_cached, claim, ialloc_turn, ialloc,
  after_refill,
}

-- The top of the cache is the number of a free inode that can be read.
abbrev IsReady : Edition → Type 0
IsReady fs =
    let cand = fs.fl.inode (fs.fl.ninode - 1) in
    (2 ≤ cand)
    × (cand ≤ maxinode fs)
    × (ip : Inode) × (read_inode fs cand ≡ ok ip)
    × (inode_live fs.desc ip.mode ≡ false)

read_inode-with_fl :
    (fs : Edition) (fl : Freelist) (ino : ℕ) → read_inode (with_fl fs fl) ino ≡ read_inode fs ino
unfolding read_inode read_block
read_inode-with_fl fs fl ino = refl

-- A free inode that the scan puts into the cache.
abbrev kept : Edition → ℕ → Edition
kept fs ino = with_fl fs (record fs.fl {
  ninode = u16 (fs.fl.ninode + 1);
  inode = update fs.fl.inode fs.fl.ninode (u16 ino);
})

IsReady-kept :
    (fs : Edition) (ino : ℕ) (ip : Inode)
    → 2 ≤ ino
    → ino ≤ maxinode fs
    → maxinode fs < 65536
    → fs.fl.ninode < 65535
    → read_inode fs ino ≡ ok ip
    → inode_live fs.desc ip.mode ≡ false
    → IsReady (kept fs ino)
IsReady-kept fs ino ip low high m n r l =
    let count : u16 (fs.fl.ninode + 1) - 1 ≡ fs.fl.ninode = omega arith in
    let top : (kept fs ino).fl.inode ((kept fs ino).fl.ninode - 1) ≡ ino = ground (arith, count) in
    (
      omega (arith, top),
      omega (arith, top),
      ip,
      read_inode-with_fl fs (kept fs ino).fl ((kept fs ino).fl.inode ((kept fs ino).fl.ninode - 1))
          ∙ ap (read_inode fs) top
          ∙ r,
      l,
    )

-- The scan leaves the cache empty or with a free inode on top.
refill-IsReady :
    (left ino : ℕ) (fs g : Edition)
    → 2 ≤ ino
    → (0 < left → ino + left ≤ maxinode fs + 1)
    → maxinode fs < 65536
    → fs.desc.nicinod < 65536
    → (fs.fl.ninode ≡ 0) ⊎ IsReady fs
    → refill left ino fs ≡ (ok tt, g)
    → (g.fl.ninode ≡ 0) ⊎ IsReady g
unfolding refill
refill-IsReady zero ino fs g low high m n h e =
    subst (λ k. (k.fl.ninode ≡ 0) ⊎ IsReady k) (ap (λ p. p.1) e) h
refill-IsReady (suc left) ino fs g low high m n h e =
    elim (Bool-cases (leb fs.desc.nicinod fs.fl.ninode)) [
      | inl full ↦ subst (λ k. (k.fl.ninode ≡ 0) ⊎ IsReady k) (ground (arith, full, e)) h
      | inr room ↦ elim (Outcome-cases (read_inode fs ino)) [
        | inr (x, q) ↦ absurd (ground (arith, room, q, e))
        | inl (ip, q) ↦ elim (Bool-cases (inode_live fs.desc ip.mode)) [
          | inl l ↦
              refill-IsReady left (ino + 1) fs g (omega arith)
                (λ l. omega (arith, high (omega arith))) m n h (ground (arith, room, q, l, e))
          | inr l ↦
              refill-IsReady left (ino + 1) (kept fs ino) g (omega arith)
                (λ l. omega (arith, high (omega arith))) m n
                (inr (
                  IsReady-kept fs ino ip low (omega (arith, high (omega arith))) m
                    (ground (arith, room)) q l))
                (ground (arith, room, q, l, e))
        ]
      ]
    ]

-- The candidate on top is claimed in the next turn.
try_cached-IsReady :
    (fs : Edition) → 0 < fs.fl.ninode → IsReady fs → (r : Step ℕ) × (ialloc_turn fs ≡ done r)
unfolding ialloc_turn try_cached
try_cached-IsReady fs some_left k =
    let top = fs.fl.ninode - 1 in
    let popped : Edition = with_fl fs (record fs.fl { ninode = top }) in
    let q = read_inode-with_fl fs popped.fl (fs.fl.inode top) ∙ k.3 in
    (
      (ok (fs.fl.inode top), claim popped (fs.fl.inode top)),
      ground (arith, some_left, k.0, k.1, q, k.4),
    )

-- A turn with candidates ends, or takes one of them away and changes nothing else.
cached_turn :
    (fs : Edition)
    → 0 < fs.fl.ninode
    → ((r : Step ℕ) × (ialloc_turn fs ≡ done r))
      ⊎ (ialloc_turn fs ≡ again (with_fl fs (record fs.fl { ninode = fs.fl.ninode - 1 })))
unfolding ialloc_turn try_cached
cached_turn fs some_left =
    let top = fs.fl.ninode - 1 in
    let cand = fs.fl.inode top in
    let popped : Edition = with_fl fs (record fs.fl { ninode = top }) in
    elim (Bool-cases (ltb cand 2 || ltb (maxinode fs) cand)) [
      | inl bad ↦ inr (ground (arith, some_left, bad))
      | inr good ↦ elim (Outcome-cases (read_inode popped cand)) [
        | inr (x, q) ↦ inl ((err eio, popped), ground (arith, some_left, good, q))
        | inl (ip, q) ↦ elim (Bool-cases (inode_live fs.desc ip.mode)) [
          | inl l ↦ inr (ground (arith, some_left, good, q, l))
          | inr l ↦ inl ((ok cand, claim popped cand), ground (arith, some_left, good, q, l))
        ]
      ]
    ]

-- A turn without candidates ends, or leaves one that is free on top.
empty_turn :
    (fs : Edition)
    → maxinode fs < 65536
    → fs.desc.nicinod < 65536
    → fs.fl.ninode ≡ 0
    → ((r : Step ℕ) × (ialloc_turn fs ≡ done r))
      ⊎ ((g : Edition) × (ialloc_turn fs ≡ again g) × (0 < g.fl.ninode) × IsReady g)
unfolding ialloc_turn after_refill
empty_turn fs m n none_left = at (refill (maxinode fs - 1) 2 emptied) refl
  where
    emptied : Edition
    emptied = with_fl fs (record fs.fl { ninode = 0 })

    at :
        (s : Step (Unit {0}))
        → refill (maxinode fs - 1) 2 emptied ≡ s
        → ((r : Step ℕ) × (ialloc_turn fs ≡ done r))
          ⊎ ((g : Edition) × (ialloc_turn fs ≡ again g) × (0 < g.fl.ninode) × IsReady g)
    at (err e, g) q = inl ((err e, g), ground (arith, none_left, q))
    at (ok u, g) q =
        elim (refill-IsReady (maxinode fs - 1) 2 emptied g (omega arith) (λ l. omega arith) m n
          (inl refl) q) [
            | inl out ↦ inl ((err enospc, g), ground (arith, none_left, q, out))
            | inr k ↦ elim (dec_lt 0 g.fl.ninode) [
              | yes l ↦ inr (g, ground (arith, none_left, q, l), l, k)
              | no z ↦ inl ((err enospc, g), ground (arith, none_left, q, z))
            ]
          ]

ialloc_done :
    (fuel : ℕ) (fs : Edition) (r : Step ℕ) → ialloc_turn fs ≡ done r → ialloc (suc fuel) fs ≡ some r
unfolding ialloc
ialloc_done fuel fs r e = ground (arith, e)

ialloc_again :
    (fuel : ℕ) (fs g : Edition) → ialloc_turn fs ≡ again g → ialloc (suc fuel) fs ≡ ialloc fuel g
unfolding ialloc
ialloc_again fuel fs g e = ground (arith, e)

-- A turn for each candidate, one for the scan, and one for what it found.
search_ends :
    (k : ℕ) (fs : Edition)
    → maxinode fs < 65536
    → fs.desc.nicinod < 65536
    → fs.fl.ninode ≡ k
    → (r : Step ℕ) × (ialloc (suc (suc k)) fs ≡ some r)
search_ends zero fs m n e = elim (empty_turn fs m n e) [
  | inl (r, q) ↦ (r, ialloc_done 1 fs r q)
  | inr (g, q, l, k) ↦
      let last = try_cached-IsReady g l k in
      (last.0, ialloc_again 1 fs g q ∙ ialloc_done 0 g last.0 last.1)
]
search_ends (suc k) fs m n e = elim (cached_turn fs (omega (arith, e))) [
  | inl (r, q) ↦ (r, ialloc_done (suc (suc k)) fs r q)
  | inr q ↦
      let popped : Edition = with_fl fs (record fs.fl { ninode = fs.fl.ninode - 1 }) in
      let rest = search_ends k popped m n (omega (arith, e)) in
      (rest.0, ialloc_again (suc (suc k)) fs popped q ∙ rest.1)
]

-- On a volume with fewer than 65536 inodes, whose descriptor has fewer than 65536 slots in the inode
-- cache, the loop of ialloc ends with a result, an inode or an error, after at most two turns more
-- than there were candidates in the cache, whatever the candidates are.
pub ialloc_ends :
    (fs : Edition)
    → maxinode fs < 65536
    → fs.desc.nicinod < 65536
    → (r : Step ℕ) × (ialloc (fs.fl.ninode + 2) fs ≡ some r)
ialloc_ends fs m n =
    subst (λ (k : ℕ). (r : Step ℕ) × (ialloc k fs ≡ some r)) {x = suc (suc fs.fl.ninode)}
      (omega arith) (search_ends fs.fl.ninode fs m n refl)
