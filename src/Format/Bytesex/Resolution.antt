-- ===== src/Format/Bytesex/Resolution.antt =====
-- What filsys_resolve_byteorder of filsys_format.c establishes when it succeeds.
use filsys.Base.{ℕ, ◌+◌, ◌≡◌, ◌≢◌, refl, ap, subst, arith, Bool, true, false, ◌==◌, if◌then◌else◌}
use filsys.Base.{
  Bytes, from, Option, none, some, Name, Outcome, ok, err, einval, eio, eilseq, ◌⊎◌, inl, inr,
}
use filsys.ByteOrder.{Order, le, be, me, get32}
use filsys.Volume.{Desc}
use filsys.Format.Names.{arch_bo}
use filsys.Format.Bytesex.{
  Image, magic_byte_offset, packed_for, detected, match_magic, resolve_order, resolve_byteorder,
}

-- The user insists on an order in which nobody wrote the magic word.
abbrev pub Forced : ℕ → Bytes → Bool → Desc → Type 0
Forced magic m force d =
    (force ≡ true) × (d.ignore_magic ≡ true) × ((bo : Order) → get32 bo m 0 ≢ magic)

pub record Resolved (magic : ℕ) (m : Bytes) (arch : Option Order) (force : Bool) (d : Desc)
    : Type 0 where
  pub reads : (get32 d.bo m 0 ≡ magic) ⊎ Forced magic m force d
  pub named : (bo : Order) → arch ≡ some bo → d.bo ≡ bo

detected-reads :
    (magic : ℕ) (m : Bytes) (bo : Order) → detected magic m ≡ some bo → get32 bo m 0 ≡ magic
unfolding detected
detected-reads magic m le e = ground (arith, e)
detected-reads magic m be e = ground (arith, e)
detected-reads magic m me e = ground (arith, e)

detected-none :
    (magic : ℕ) (m : Bytes) → detected magic m ≡ none → (bo : Order) → get32 bo m 0 ≢ magic
unfolding detected
detected-none magic m e le = λ h. ground (arith, e, h)
detected-none magic m e be = λ h. ground (arith, e, h)
detected-none magic m e me = λ h. ground (arith, e, h)

-- The value of a result, or `d`.
abbrev or_else : Desc → Outcome Desc → Desc
or_else d (ok c) = c
or_else d (err e) = d

found :
    (d d' : Desc) (m : Bytes) (force : Bool) (r : Option Order)
    → detected d.magic m ≡ r
    → (elim r [ none ↦ err eilseq | some bo ↦ ok (record d { bo = bo }) ]) ≡ ok d'
    → Resolved d.magic m none force d'
found d d' m force none e h = absurd (ground (arith, h))
found d d' m force (some bo) e h =
    subst (Resolved d.magic m none force) (ap (or_else d) h) (record {
      reads = inl (detected-reads d.magic m bo e);
      named = λ b n. absurd (ground (arith, n));
    })

insisted :
    (d d' : Desc) (m : Bytes) (bo : Order) (force : Bool) (r : Option Order)
    → detected d.magic m ≡ r
    → (elim r [
      | some other ↦ err einval
      | none ↦ if force then ok (record d { bo = bo; ignore_magic = true }) else err eilseq
    ])
      ≡ ok d'
    → Resolved d.magic m (some bo) force d'
insisted d d' m bo force (some other) e h = absurd (ground (arith, h))
insisted d d' m bo false none e h = absurd (ground (arith, h))
insisted d d' m bo true none e h =
    subst (Resolved d.magic m (some bo) true) (ap (or_else d) h) (record {
      reads = inr (refl, refl, detected-none d.magic m e);
      named = λ b n. ap (λ o. elim o [ none ↦ bo | some c ↦ c ]) n;
    })

agreed :
    (d d' : Desc) (m : Bytes) (bo : Order) (force : Bool) (t : Bool)
    → (get32 bo m 0 == d.magic) ≡ t
    → (if t then ok (record d { bo = bo }) else elim (detected d.magic m) [
      | some other ↦ err einval
      | none ↦ if force then ok (record d { bo = bo; ignore_magic = true }) else err eilseq
    ])
      ≡ ok d'
    → Resolved d.magic m (some bo) force d'
agreed d d' m bo force true t h =
    subst (Resolved d.magic m (some bo) force) (ap (or_else d) h) (record {
      reads = inl (ground (arith, t));
      named = λ b n. ap (λ o. elim o [ none ↦ bo | some c ↦ c ]) n;
    })
agreed d d' m bo force false t h = insisted d d' m bo force (detected d.magic m) refl h

match_magic-Resolved :
    (d d' : Desc) (m : Bytes) (arch : Option Order) (force : Bool)
    → match_magic d m arch force ≡ ok d'
    → Resolved d.magic m arch force d'
unfolding match_magic
match_magic-Resolved d d' m none force h = found d d' m force (detected d.magic m) refl h
match_magic-Resolved d d' m (some bo) force h =
    agreed d d' m bo force (get32 bo m 0 == d.magic) refl h

-- The four bytes at the place of the magic word.
abbrev pub magic_word : Desc → Image → ℕ → Bytes
magic_word d image offset = from image.bytes (magic_byte_offset d + offset)

-- The image was opened or not, and read or not.
read_through :
    (d d' : Desc) (image : Image) (offset : ℕ) (arch : Option Order) (force : Bool)
    → (opened : Outcome (Unit {0})) → (complete : Bool)
    → (elim opened [
      | err e ↦ err e
      | ok u ↦ if complete then match_magic d (magic_word d image offset) arch force else err eio
    ])
      ≡ ok d'
    → Resolved d.magic (magic_word d image offset) arch force d'
read_through d d' image offset arch force (err e) complete h = absurd (ground (arith, h))
read_through d d' image offset arch force (ok u) false h = absurd (ground (arith, h))
read_through d d' image offset arch force (ok u) true h =
    match_magic-Resolved d d' (magic_word d image offset) arch force h

-- A magic word is there.
past :
    (z : Bool) (c d' : Desc) (x : Outcome Desc)
    → z ≡ false
    → (if z then ok c else x) ≡ ok d'
    → x ≡ ok d'
past false c d' x n h = h
past true c d' x n h = absurd (ground (arith, n))

resolve_order-Resolved :
    (d d' : Desc) (image : Image) (offset : ℕ) (arch : Option Order) (force : Bool)
    → (d.magic == 0) ≡ false
    → resolve_order d image offset arch force ≡ ok d'
    → Resolved d.magic (magic_word d image offset) arch force d'
unfolding resolve_order
resolve_order-Resolved d d' image offset none force n h =
    read_through d d' image offset none force image.opened
      (image.pread_count (magic_byte_offset d + offset) 4 == 4) (past (d.magic == 0) d d' _ n h)
resolve_order-Resolved d d' image offset (some bo) force n h =
    read_through d d' image offset (some bo) force image.opened
      (image.pread_count (magic_byte_offset d + offset) 4 == 4)
      (past (d.magic == 0) (record d { bo = bo }) d' _ n h)

packed-Resolved :
    (d d' : Desc) (image : Image) (offset : ℕ) (bo : Order) (force : Bool)
    → d.magic ≢ 0
    → resolve_order (packed_for d bo) image offset (some bo) force ≡ ok d'
    → Resolved d.magic (magic_word d image offset) (some bo) force d'
unfolding magic_byte_offset
packed-Resolved d d' image offset le force n h =
    resolve_order-Resolved d d' image offset (some le) force (ground (arith, n)) h
packed-Resolved d d' image offset be force n h =
    resolve_order-Resolved d d' image offset (some be) force (ground (arith, n)) h
packed-Resolved d d' image offset me force n h =
    resolve_order-Resolved (packed_for d me) d' image offset (some me) force (ground (arith, n)) h

-- The order of the architecture that is named, if it is known.
abbrev pub order_of : Option Name → Option Order
order_of none = none
order_of (some arch) = arch_bo arch

-- The byte order of an edition with a magic word. When filsys_resolve_byteorder succeeds, then the
-- magic word of the image, read in the order of the resulting descriptor, is the edition's; or the
-- user forces an order, the descriptor says that the magic word is to be ignored, and the word is
-- wrong in every order. If an architecture is named, the resulting order is its own.
pub resolve_byteorder-Resolved :
    (d d' : Desc) (image : Image) (offset : ℕ) (arch : Option Name) (force : Bool)
    → d.magic ≢ 0
    → resolve_byteorder d image offset arch force ≡ ok d'
    → Resolved d.magic (magic_word d image offset) (order_of arch) force d'
unfolding resolve_byteorder
resolve_byteorder-Resolved d d' image offset none force n h =
    resolve_order-Resolved d d' image offset none force (ground (arith, n)) h
resolve_byteorder-Resolved d d' image offset (some arch) force n h = known (arch_bo arch) h
  where
    known :
        (o : Option Order)
        → (elim o [
          | none ↦ err einval
          | some bo ↦ resolve_order (packed_for d bo) image offset (some bo) force
        ])
          ≡ ok d'
        → Resolved d.magic (magic_word d image offset) o force d'
    known none h = absurd (ground (arith, h))
    known (some bo) h = packed-Resolved d d' image offset bo force n h
