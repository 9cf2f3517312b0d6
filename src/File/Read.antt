-- ===== src/File/Read.antt =====
-- A read returns the bytes of the file, all of those that were asked for and exist, or fails where
-- one of them cannot be read.
use native.Mathlib.Nat.{div-add-mod, mul-add-div, mul-add-mod_self_left, mod-eq_of_lt, div-eq_of_lt}
use native.Mathlib.Nat.{mod-lt, div-le_self}
use native.Mathlib.Decide.{dec_lt}
use filsys.Base.{
  ℕ, zero, suc, ◌+◌, ◌-◌, ◌*◌, ◌/◌, ◌%◌, ◌^◌, ◌≤◌, ◌<◌, min, ◌≡◌, ◌∙◌, ap, sym, subst, refl,
}
use filsys.Base.{arith, false, Bytes, zeros, blit, from, u32}
use filsys.Base.{Errno, Outcome, ok, err, is_ok, eio, ◌>>=◌}
use filsys.Volume.{Edition}
use filsys.Inode.{Inode}
use filsys.File.{block_bytes, round_size, read_loop, file_read}

-- Byte `p` of the file.
unfoldable pub file_byte : Edition → Inode → ℕ → Outcome ℕ
file_byte fs ip p = block_bytes fs ip (p / fs.desc.bsize) >>= λ blk. ok (blk (p % fs.desc.bsize))

-- What a read of `size` bytes at `off` returned.
abbrev pub Reads : Edition → Inode → ℕ → ℕ → Outcome (ℕ × Bytes) → Type 0
Reads fs ip size off (ok (n, b)) =
    (n ≡ size) × ((i : ℕ) → i < size → file_byte fs ip (off + i) ≡ ok (b i))
Reads fs ip size off (err e) =
    (e ≡ eio) × (p : ℕ) × (p < size) × (is_ok (file_byte fs ip (off + p)) ≡ false)

-- Within a block the quotient stays and the remainder counts on.
pub div_within : (p b k : ℕ) → 0 < b → p % b + k < b → (p + k) / b ≡ p / b
div_within p b k pos h =
    let e : b * (p / b) + (p % b + k) ≡ p + k = omega (arith, div-add-mod p b) in
    sym (ap (λ (x : ℕ). x / b) e)
    ∙ mul-add-div pos (p / b) (p % b + k)
    ∙ omega (arith, div-eq_of_lt h)

mod_within : (p b k : ℕ) → 0 < b → p % b + k < b → (p + k) % b ≡ p % b + k
mod_within p b k pos h =
    let e : b * (p / b) + (p % b + k) ≡ p + k = omega (arith, div-add-mod p b) in
    sym (ap (λ (x : ℕ). x % b) e) ∙ mul-add-mod_self_left b (p / b) (p % b + k) ∙ mod-eq_of_lt h

file_byte-read :
    (fs : Edition) (ip : Inode) (p k : ℕ) (blk : Bytes)
    → 0 < fs.desc.bsize
    → p % fs.desc.bsize + k < fs.desc.bsize
    → block_bytes fs ip (p / fs.desc.bsize) ≡ ok blk
    → file_byte fs ip (p + k) ≡ ok (blk (p % fs.desc.bsize + k))
unfolding file_byte
file_byte-read fs ip p k blk pos h e =
    ap (λ r. r >>= λ b. ok (b ((p + k) % fs.desc.bsize)))
      (ap (block_bytes fs ip) (div_within p fs.desc.bsize k pos h) ∙ e)
    ∙ ap (λ i. ok (blk i)) (mod_within p fs.desc.bsize k pos h)

file_byte-unread :
    (fs : Edition) (ip : Inode) (p : ℕ) {e : Errno}
    → block_bytes fs ip (p / fs.desc.bsize) ≡ err e
    → is_ok (file_byte fs ip p) ≡ false
unfolding file_byte
file_byte-unread fs ip p h = ground (arith, h)

module _ (fs : Edition) (ip : Inode) (size off : ℕ) (pos : 0 < fs.desc.bsize)
    (fit : off + size ≤ 2 ^ 32) where
  small_quot :
      (done : ℕ) → done < size → u32 ((off + done) / fs.desc.bsize) ≡ (off + done) / fs.desc.bsize
  small_quot done l = mod-eq_of_lt (omega (arith, div-le_self (off + done) fs.desc.bsize))

  small_rem :
      (done : ℕ) → done < size → u32 ((off + done) % fs.desc.bsize) ≡ (off + done) % fs.desc.bsize
  small_rem done l = mod-eq_of_lt (omega (arith, mod-lt (off + done) pos))

  -- The bytes read so far, after a round.
  round-Reads :
      (done : ℕ) (buf blk : Bytes)
      → done < size
      → ((i : ℕ) → i < done → file_byte fs ip (off + i) ≡ ok (buf i))
      → block_bytes fs ip ((off + done) / fs.desc.bsize) ≡ ok blk
      → (n : ℕ) → n ≤ fs.desc.bsize - (off + done) % fs.desc.bsize
      → (i : ℕ) → i < done + n
      → file_byte fs ip (off + i) ≡ ok (blit buf done n (from blk ((off + done) % fs.desc.bsize)) i)
  round-Reads done buf blk l h e n le i li = elim (dec_lt i done) [
    | yes below ↦ ground (arith, h i below)
    | no above ↦
        let k : ℕ = i - done in
        let here : off + i ≡ off + done + k = omega arith in
        ap (file_byte fs ip) here
        ∙ file_byte-read fs ip (off + done) k blk pos (omega arith) e
        ∙ ground (arith, above, li)
  ]

  -- The body of the loop.
  abbrev round : ℕ → ℕ → Bytes → Outcome Bytes → Outcome (ℕ × Bytes)
  round left done buf (err e) = err eio
  round left done buf (ok blk) =
      let n = round_size fs size off done in
      read_loop fs ip size off left (done + n)
        (blit buf done n (from blk (u32 ((off + done) % fs.desc.bsize))))

  loop-round :
      (left done : ℕ) (buf : Bytes)
      → done < size
      → round left done buf (block_bytes fs ip (u32 ((off + done) / fs.desc.bsize)))
        ≡ read_loop fs ip size off (suc left) done buf
  unfolding read_loop
  loop-round left done buf l = ground (arith, l)

  -- A round, before which `done` bytes stood in `buf`.
  step-Reads :
      (left done : ℕ) (buf : Bytes)
      → done < size
      → ((i : ℕ) → i < done → file_byte fs ip (off + i) ≡ ok (buf i))
      → ((more : ℕ) (buf' : Bytes)
          → done < more
          → more ≤ size
          → ((i : ℕ) → i < more → file_byte fs ip (off + i) ≡ ok (buf' i))
          → Reads fs ip size off (read_loop fs ip size off left more buf'))
      → (r : Outcome Bytes) → block_bytes fs ip (u32 ((off + done) / fs.desc.bsize)) ≡ r
      → Reads fs ip size off (round left done buf r)
  step-Reads left done buf l h ih (err e) q = (
    refl,
    done,
    l,
    file_byte-unread fs ip (off + done) (ap (block_bytes fs ip) (sym (small_quot done l)) ∙ q),
  )
  step-Reads left done buf l h ih (ok blk) q =
      let n = round_size fs size off done in
      let m = small_rem done l in
      let some_byte : 0 < n = ground (arith, m, mod-lt (off + done) pos, l) in
      ih (done + n) (blit buf done n (from blk (u32 ((off + done) % fs.desc.bsize))))
        (omega (arith, some_byte)) (ground (arith, l))
        (λ i li.
          subst (λ x. file_byte fs ip (off + i) ≡ ok (blit buf done n (from blk x) i)) (sym m)
            (round-Reads done buf blk l h (ap (block_bytes fs ip) (sym (small_quot done l)) ∙ q) n
              (ground (arith, m)) i li))

  read_loop-Reads :
      (left done : ℕ) (buf : Bytes)
      → done ≤ size
      → size ≤ done + left
      → ((i : ℕ) → i < done → file_byte fs ip (off + i) ≡ ok (buf i))
      → Reads fs ip size off (read_loop fs ip size off left done buf)
  unfolding read_loop
  read_loop-Reads zero done buf le enough h = (omega arith, λ i l. h i (omega arith))
  read_loop-Reads (suc left) done buf le enough h = elim (dec_lt done size) [
    | yes more ↦ subst (Reads fs ip size off) (loop-round left done buf more) (
        step-Reads left done buf more h
          (λ d b gain fits hb. read_loop-Reads left d b fits (omega arith) hb)
          (block_bytes fs ip (u32 ((off + done) / fs.desc.bsize))) refl)
    | no all ↦
        subst (Reads fs ip size off) {x = ok (done, buf)} (ground (arith, all))
          (omega (arith, all), λ i l. h i (omega (arith, all)))
  ]

-- On a volume with a positive block size, a read of `size` bytes at an offset inside a file of fewer
-- than 2 ^ 32 bytes returns as many bytes as asked for or as the file has from the offset on,
-- whichever is less, and each of them is the byte of the file at its place; or it fails with EIO,
-- and then some byte of that range cannot be read.
pub file_read-Reads :
    (fs : Edition) (ip : Inode) (size off : ℕ)
    → 0 < fs.desc.bsize
    → ip.size < 2 ^ 32
    → off < ip.size
    → Reads fs ip (min size (ip.size - off)) off (file_read fs ip size off)
unfolding file_read
file_read-Reads fs ip size off pos small inside =
    let wanted = min size (ip.size - off) in
    subst (Reads fs ip wanted off) {x = read_loop fs ip wanted off wanted 0 zeros}
      (ground (arith, inside))
      (read_loop-Reads fs ip wanted off pos (ground (arith, small, inside)) wanted 0 zeros
        (omega arith) (omega arith) (λ i l. ground (arith, l)))
