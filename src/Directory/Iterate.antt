-- ===== src/Directory/Iterate.antt =====
-- v7fs_dir_iter of dir_fixed.c: the scan that filsys_dir_next resumes.
use filsys.Base.{ℕ, zero, suc, ◌+◌, ◌-◌, ◌*◌, ◌/◌, not, ◌||◌}
use filsys.Base.{Option, none, some, [], ◌∷◌, Name, Bytes, zeros, leb, ◌==◌, if◌then◌else◌}
use filsys.Base.{Outcome, ok, err}
use filsys.ByteOrder.{get16}
use filsys.Volume.{Edition}
use filsys.Inode.{Inode}
use filsys.File.{file_read}
use filsys.Engine.{Entry, Scan}
use filsys.Directory.{dir_chunk, chunk_size, first_entry, is_unused}

-- `filsys_iter_state_t`, its chunk in `buf`.
pub record Iter : Type 0 where
  pub ip : Inode
  pub buf : Bytes
  pub buf_n : ℕ
  pub buf_off : ℕ
  pub next_off : ℕ

-- What filsys_dir_seek sets up.
abbrev pub start : Inode → ℕ → Iter
start ip off = record { ip = ip; buf = zeros; buf_n = 0; buf_off = 0; next_off = off }

-- The stored name, up to its first zero.
unfoldable pub read_name : Bytes → ℕ → ℕ → Name
read_name buf o zero = []
read_name buf o (suc max) =
    let rest = read_name buf (o + 1) max in if buf o == 0 then [] else buf o ∷ rest

-- The chunk at `chunk_off` is in the buffer, or is read.
unfoldable pub load_chunk : Edition → Iter → ℕ → Outcome Iter
load_chunk fs it chunk_off =
    if not (it.buf_off == chunk_off) || it.buf_n == 0
    then elim (file_read fs it.ip (chunk_size fs it.ip chunk_off) chunk_off) [
      | err e ↦ err e
      | ok (got, buf) ↦ ok (record it { buf = buf; buf_n = got; buf_off = chunk_off })
    ]
    else ok it

-- `none` is the return value 0. A round that finds nothing goes on to the next chunk.
unfoldable pub dir_iter : Edition → ℕ → Iter → Outcome (Option Entry) × Iter
unfolding read_name load_chunk
dir_iter fs zero it = (ok none, it)
dir_iter fs (suc left) it =
    let chunk = dir_chunk fs in
    let chunk_off = it.next_off / chunk * chunk in
    if leb it.ip.size it.next_off then (ok none, it) else elim (load_chunk fs it chunk_off) [
      | err e ↦ (err e, it)
      | ok st ↦
          let rel = it.next_off - chunk_off in
          elim (first_entry (λ b. not (is_unused fs st.buf b)) fs.desc.dirent_size st.buf_n st.buf_n
            rel) [
              | some b ↦ (
                ok (some (get16 fs.desc.bo st.buf b, read_name st.buf (b + 2) fs.desc.max_namlen)),
                record st { next_off = chunk_off + b + fs.desc.dirent_size },
              )
              | none ↦ dir_iter fs left (record st { next_off = chunk_off + chunk })
            ]
    ]

-- The calls of filsys_dir_next until one does not return 1.
unfoldable pub entries : Edition → ℕ → Iter → Scan
unfolding dir_iter
entries fs zero it = ([], ok tt)
entries fs (suc left) it =
    let r = dir_iter fs it.ip.size it in
    let rest = entries fs left r.1 in
    elim r.0 [ err e ↦ ([], err e) | ok none ↦ ([], ok tt) | ok (some en) ↦ (en ∷ rest.0, rest.1) ]
