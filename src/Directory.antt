-- ===== src/Directory.antt =====
-- dir_fixed.c: directories of entries of a fixed size, an inode number and a name padded with zeros.
-- A file_read inside the file returns as many bytes as it is asked for (File.Read).
pub mod Iterate
pub mod Names
pub mod Records
use filsys.Base.{ℕ, zero, suc, ◌+◌, ◌-◌, ◌*◌, ◌/◌, min, Bool, true, false, not, ◌&&◌, ◌||◌}
use filsys.Base.{Option, none, some, List, [], ◌∷◌, Name, length, text, has_char}
use filsys.Base.{Bytes, zeros, blit, u16, leb, ltb, ◌==◌, if◌then◌else◌}
use filsys.Base.{Errno, einval, enoent, enametoolong, Outcome, ok, err}
use filsys.ByteOrder.{get16, put16}
use filsys.Volume.{Edition}
use filsys.Inode.{Inode}
use filsys.File.{Written, file_read, file_write}

-- The name stored at `o` against the first `max` characters of `name`.
unfoldable pub fixed_name_eq : Bytes → ℕ → Name → ℕ → Bool
fixed_name_eq stored o name zero = true
fixed_name_eq stored o [] (suc max) = stored o == 0
fixed_name_eq stored o (c ∷ name) (suc max) =
    let rest = fixed_name_eq stored (o + 1) name max in if stored o == c then rest else false

unfoldable pub dir_chunk : Edition → ℕ
dir_chunk fs =
    let c = fs.desc.bsize / fs.desc.dirent_size * fs.desc.dirent_size in
    if c == 0 then fs.desc.dirent_size else c

-- How many bytes of the chunk at `off` the directory has.
abbrev pub chunk_size : Edition → Inode → ℕ → ℕ
chunk_size fs ip off = min (dir_chunk fs) (ip.size - off)

-- The first entry at `b` or behind it, among the `got` bytes of a chunk, that passes the test. An
-- entry is a byte long at least, so `got` rounds reach the end.
unfoldable pub first_entry : (ℕ → Bool) → ℕ → ℕ → ℕ → ℕ → Option ℕ
first_entry test esize got zero b = none
first_entry test esize got (suc left) b =
    let rest = first_entry test esize got left (b + esize) in
    if leb (b + esize) got then (if test b then some b else rest) else none

-- Where an entry was found: the offset of its chunk, the chunk, and the offset in it.
abbrev pub Found : Type 0
Found = ℕ × Bytes × ℕ

-- `for (off = 0; off < ip->size; off += dir_chunk(fs))`. A chunk is a byte long at least.
unfoldable pub find_entry : Edition → Inode → (Bytes → ℕ → Bool) → ℕ → ℕ → Outcome (Option Found)
unfolding first_entry
find_entry fs ip test zero off = ok none
find_entry fs ip test (suc left) off =
    let rest = find_entry fs ip test left (off + dir_chunk fs) in
    if ltb off ip.size
    then elim (file_read fs ip (chunk_size fs ip off) off) [
      | err e ↦ err e
      | ok (got, blk) ↦ elim (first_entry (test blk) fs.desc.dirent_size got got 0) [
        | some b ↦ ok (some (off, blk, b))
        | none ↦ rest
      ]
    ]
    else ok none

-- An entry that is in use and has the name.
abbrev pub is_named : Edition → Name → Bytes → ℕ → Bool
is_named fs name blk b =
    not (get16 fs.desc.bo blk b == 0) && fixed_name_eq blk (b + 2) name fs.desc.max_namlen

abbrev pub is_unused : Edition → Bytes → ℕ → Bool
is_unused fs blk b = get16 fs.desc.bo blk b == 0

unfoldable pub dir_lookup : Edition → Inode → Name → Outcome ℕ
unfolding find_entry
dir_lookup fs ip name = elim (find_entry fs ip (is_named fs name) ip.size 0) [
  | err e ↦ err e
  | ok none ↦ err enoent
  | ok (some (off, blk, b)) ↦ ok (get16 fs.desc.bo blk b)
]

-- The bytes of a new entry.
abbrev pub entry_bytes : Edition → ℕ → Name → Bytes
entry_bytes fs ino name = blit (put16 fs.desc.bo zeros 0 (u16 ino)) 2 (length name) (text name)

-- `return w < 0 ? (int)w : 0`
abbrev pub done : Written ℕ → Written (Unit {0})
done (ok n, ip, fs) = (ok tt, ip, fs)
done (err e, ip, fs) = (err e, ip, fs)

unfoldable pub dir_add : Edition → Inode → ℕ → Name → Written (Unit {0})
unfolding find_entry
dir_add fs ip ino name =
    let esize = fs.desc.dirent_size in
    let ent = entry_bytes fs ino name in
    if length name == 0 || ltb fs.desc.max_namlen (length name)
    then (err enametoolong, ip, fs)
    else if has_char 47 name
    then (err einval, ip, fs)
    else elim (find_entry fs ip (is_unused fs) ip.size 0) [
      | err e ↦ (err e, ip, fs)
      | ok none ↦ done (file_write fs ip ent esize ip.size)
      | ok (some (off, blk, b)) ↦ done (file_write fs ip ent esize (off + b))
    ]

unfoldable pub dir_remove : Edition → Inode → Name → Written (Unit {0})
unfolding find_entry
dir_remove fs ip name = elim (find_entry fs ip (is_named fs name) ip.size 0) [
  | err e ↦ (err e, ip, fs)
  | ok none ↦ (err enoent, ip, fs)
  | ok (some (off, blk, b)) ↦ done (file_write fs ip zeros fs.desc.dirent_size (off + b))
]
