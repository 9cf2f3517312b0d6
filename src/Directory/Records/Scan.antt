-- ===== src/Directory/Records/Scan.antt =====
-- bsd211_dir_iter of dir_bsd211.c: the scan that filsys_dir_next resumes, a chunk of 512 bytes at a
-- time.
use filsys.Base.{ℕ, zero, suc, ◌+◌, ◌-◌, ◌*◌, ◌/◌, ◌%◌, min, Bool, not, ◌||◌}
use filsys.Base.{Option, none, some, [], ◌∷◌, Name, Bytes, leb, ltb, ◌==◌, if◌then◌else◌}
use filsys.Base.{Outcome, ok, err}
use filsys.Volume.{Desc, Edition}
use filsys.File.{file_read}
use filsys.Directory.Iterate.{Iter}
use filsys.Directory.Records.{Rec, header}
use filsys.Engine.{Entry}

-- The bytes of a name of known length.
unfoldable pub name_bytes : Bytes → ℕ → ℕ → Name
name_bytes buf o zero = []
name_bytes buf o (suc len) = buf o ∷ name_bytes buf (o + 1) len

-- How the scan of a chunk ends: at an entry, at its end, or at a record that ends the scan.
pub data Outlook : Type 0 where
  entry : Rec → Outlook
  chunk_end : Outlook
  malformed : Outlook

abbrev pub is_broken : Desc → ℕ → Rec → Bool
is_broken d n r =
    ltb r.reclen 8
    || not (r.reclen % 4 == 0)
    || ltb n (r.off + r.reclen)
    || ltb r.reclen (r.namlen + 7)
    || ltb d.max_namlen r.namlen

-- A record is a byte long at least, so the size of the chunk bounds the rounds.
unfoldable pub scan_chunk : Desc → Bytes → ℕ → ℕ → ℕ → Outlook
unfolding header
scan_chunk d buf n zero rel = chunk_end
scan_chunk d buf n (suc left) rel =
    let r = header d buf rel in
    let rest = scan_chunk d buf n left (rel + r.reclen) in
    if ltb n (rel + 6)
    then chunk_end
    else if is_broken d n r
    then malformed
    else if r.ino == 0
    then rest
    else entry r

unfoldable pub load_chunk : Edition → Iter → ℕ → Outcome Iter
load_chunk fs it chunk_off =
    if not (it.buf_off == chunk_off) || it.buf_n == 0
    then elim (file_read fs it.ip (min 512 (it.ip.size - chunk_off)) chunk_off) [
      | err e ↦ err e
      | ok (got, buf) ↦ ok (record it { buf = buf; buf_n = got; buf_off = chunk_off })
    ]
    else ok it

-- `none` is the return value 0. A round goes on to the next chunk, so the size bounds them.
unfoldable pub bsd211_dir_iter : Edition → ℕ → Iter → Outcome (Option Entry) × Iter
unfolding scan_chunk load_chunk
bsd211_dir_iter fs zero it = (ok none, it)
bsd211_dir_iter fs (suc left) it =
    let chunk_off = it.next_off / 512 * 512 in
    if leb it.ip.size it.next_off then (ok none, it) else elim (load_chunk fs it chunk_off) [
      | err e ↦ (err e, it)
      | ok st ↦ elim (scan_chunk fs.desc st.buf st.buf_n st.buf_n (it.next_off - chunk_off)) [
        | entry r ↦ (
          ok (some (r.ino, name_bytes st.buf (r.off + 6) r.namlen)),
          record st { next_off = chunk_off + (r.off + r.reclen) },
        )
        | chunk_end ↦ bsd211_dir_iter fs left (record st { next_off = chunk_off + 512 })
        | malformed ↦ (ok none, st)
      ]
    ]
