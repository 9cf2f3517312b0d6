-- ===== src/Directory/Records.antt =====
-- dir_bsd211.c: directories of records of variable length. A record is a header of 6 bytes, the
-- inode's number, the record's length and the name's length, and the name behind it.
pub mod Bounds
pub mod Scan
use filsys.Base.{ℕ, zero, suc, ◌+◌, ◌-◌, ◌*◌, ◌/◌, ◌%◌, min, Bool, true, false, not, ◌&&◌, ◌||◌}
use filsys.Base.{Option, none, some, List, [], ◌∷◌, Name, length, text, has_char}
use filsys.Base.{Bytes, zeros, blit, u16, leb, ltb, ◌==◌, if◌then◌else◌}
use filsys.Base.{Errno, eio, einval, enoent, enametoolong, Outcome, ok, err, look}
use filsys.ByteOrder.{get16, put16}
use filsys.Volume.{Desc, Edition}
use filsys.Inode.{Inode}
use filsys.File.{Written, file_read, file_write}
use filsys.Directory.{done}
use filsys.Directory.Iterate.{Iter}
use filsys.Engine.{Entry}

-- The rounded length of a record: `(7u + namlen + 3u) & ~3u`.
unfoldable pub dirsiz : ℕ → ℕ
dirsiz namlen = (7 + namlen + 3) / 4 * 4

-- The record that the iterator stands on; its name starts 6 bytes behind `off`.
pub record Rec : Type 0 where
  pub off : ℕ
  pub ino : ℕ
  pub reclen : ℕ
  pub namlen : ℕ

-- One past the record.
abbrev pub end_of : Rec → ℕ
end_of r = r.off + r.reclen

-- The header at `off`.
unfoldable pub header : Desc → Bytes → ℕ → Rec
header d buf off = record {
  off = off;
  ino = get16 d.bo buf off;
  reclen = get16 d.bo buf (off + 2);
  namlen = get16 d.bo buf (off + 4);
}

-- The tests that end the walk at a record.
unfoldable pub is_malformed : Desc → ℕ → Rec → Bool
is_malformed d n r =
    ltb r.reclen 8
    || not (r.reclen % 4 == 0)
    || ltb n (r.off + r.reclen)
    || ltb r.reclen (r.namlen + 7)
    || ltb d.max_namlen r.namlen
    || ltb 512 (r.off % 512 + r.reclen)

-- `bsd211_iter_next`, whose offset is the end of the record before; `none` is the return value 0.
unfoldable pub next_record : Desc → Bytes → ℕ → ℕ → Option Rec
unfolding header is_malformed
next_record d buf n off =
    if not (off % 4 == 0)
    then none
    else if ltb n (off + 6)
    then none
    else let r = header d buf off in if is_malformed d n r then none else some r

-- The walk over the records from `off` on. A record is 8 bytes long at least, so `n` rounds reach
-- the end of the buffer.
unfoldable pub records : Desc → Bytes → ℕ → ℕ → ℕ → List Rec
unfolding next_record
records d buf n zero off = []
records d buf n (suc left) off = elim (next_record d buf n off) [
  | none ↦ []
  | some r ↦ r ∷ records d buf n left (r.off + r.reclen)
]

-- The first record that passes a test, for the loops that stop at one.
unfoldable pub first : (Rec → Bool) → List Rec → Option Rec
first test [] = none
first test (r ∷ rs) = let rest = first test rs in if test r then some r else rest

-- `prev_off` and `end` of the last record.
unfoldable pub last : List Rec → ℕ × ℕ
last [] = (0, 0)
last (r ∷ []) = (r.off, r.off + r.reclen)
last (r ∷ s ∷ rs) = last (s ∷ rs)

-- `memcmp(buf + o, name, length) == 0`
unfoldable pub same_bytes : Bytes → ℕ → Name → Bool
same_bytes buf o [] = true
same_bytes buf o (c ∷ name) = (buf o == c) && same_bytes buf (o + 1) name

abbrev pub all_records : Desc → Bytes → ℕ → List Rec
all_records d buf n = records d buf n n 0

-- The record is in use and has the name.
abbrev pub has_name : Bytes → Name → Rec → Bool
has_name buf name r =
    not (r.ino == 0) && (r.namlen == length name) && same_bytes buf (r.off + 6) name

-- The record is free and long enough.
abbrev pub has_room : ℕ → Rec → Bool
has_room need r = (r.ino == 0) && leb need r.reclen

-- `bsd211_slurp`: the whole directory and its size.
abbrev pub slurp : Edition → Inode → Outcome (ℕ × Bytes)
slurp fs ip = file_read fs ip ip.size 0

unfoldable pub bsd211_dir_lookup : Edition → Inode → Name → Outcome ℕ
unfolding records first
bsd211_dir_lookup fs ip name = elim (slurp fs ip) [
  | err e ↦ err e
  | ok (n, buf) ↦ elim (first (has_name buf name) (all_records fs.desc buf n)) [
    | none ↦ err enoent
    | some r ↦ ok r.ino
  ]
]

-- The header and the name of a record, over `buf`.
unfoldable pub put_record : Desc → Bytes → ℕ → ℕ → ℕ → Name → Bytes
put_record d buf off ino reclen name =
    let b1 = put16 d.bo buf off (u16 ino) in
    let b2 = put16 d.bo b1 (off + 2) (u16 reclen) in
    let b3 = put16 d.bo b2 (off + 4) (u16 (length name)) in
    blit b3 (off + 6) (length name) (text name)

-- The new record is at the end of the last valid one, or of its 512-byte chunk, which that record is
-- then made to fill.
unfoldable pub append : Edition → Inode → ℕ → Name → ℕ × ℕ → Written (Unit {0})
unfolding put_record
append fs ip ino name (prev_off, end) =
    let need = dirsiz (length name) in
    let ent = put_record fs.desc zeros 0 ino need name in
    let in_chunk = end % 512 in
    if not (end % 4 == 0)
    then (err eio, ip, fs)
    else if not (in_chunk == 0) && ltb 512 (in_chunk + need)
    then (let slot = end + (512 - in_chunk) in
        let (rc, ip', fs') =
          file_write fs ip (put16 fs.desc.bo zeros 0 (u16 (slot - prev_off))) 2 (prev_off + 2) in
        elim rc [ err e ↦ (err eio, ip', fs') | ok n ↦ done (file_write fs' ip' ent need slot) ])
    else done (file_write fs ip ent need end)

unfoldable pub bsd211_dir_add : Edition → Inode → ℕ → Name → Written (Unit {0})
unfolding append put_record records first last
bsd211_dir_add fs ip ino name =
    let need = dirsiz (length name) in
    if length name == 0 || ltb fs.desc.max_namlen (length name)
    then (err enametoolong, ip, fs)
    else if has_char 47 name
    then (err einval, ip, fs)
    else elim (slurp fs ip) [
      | err e ↦ (err e, ip, fs)
      | ok (n, buf) ↦
          let rs = all_records fs.desc buf n in
          elim (first (has_room need) rs) [
            | none ↦ append fs ip ino name (last rs)
            | some r ↦
                let cleared = blit buf r.off r.reclen zeros in
                done (file_write fs ip (put_record fs.desc cleared r.off ino r.reclen name) n 0)
          ]
    ]

unfoldable pub bsd211_dir_remove : Edition → Inode → Name → Written (Unit {0})
unfolding records first
bsd211_dir_remove fs ip name = elim (slurp fs ip) [
  | err e ↦ (err e, ip, fs)
  | ok (n, buf) ↦ elim (first (has_name buf name) (all_records fs.desc buf n)) [
    | none ↦ (err enoent, ip, fs)
    | some r ↦ done (file_write fs ip (put16 fs.desc.bo buf r.off 0) n 0)
  ]
]
