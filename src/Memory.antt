-- ===== src/Memory.antt =====
-- The tracee's memory behind /proc/PID/mem, as groundhog_origin/src/proc_parsers.c and proc_cr.c read
-- and write it, and the loops that repeat a short transfer.
pub mod Loops
mod Tests
use faasafe.Prelude.{
  ℕ, zero, suc, ◌+◌, ◌-◌, ◌*◌, ◌%◌, ◌^◌, ◌≤◌, ◌<◌, ◌≡◌, Bool, true, false, not, ◌&&◌, Option, none,
  some, ltb, leb, ◌==◌, if◌then◌else◌, refl, [], ◌∷◌, inl, inr, arith, List,
}
use faasafe.Word.{add64, sub64, mul64, to_int, of_int}
use faasafe.Types.{Bytes, page_size}

-- `n` bytes of `src` from `s` on, stored in `dst` from `d` on.
abbrev pub store : Bytes → ℕ → Bytes → ℕ → ℕ → Bytes
store dst d src s n q = if leb d q && ltb q (d + n) then src (s + (q - d)) else dst q

-- How many bytes the kernel transfers at a call of `pread` or `pwrite` on the memory file: the
-- memory, the address and the length asked for; `none` is a failure, -1.
pub record MemFile : Type 0 where
  pub pread_count : Bytes → ℕ → ℕ → Option ℕ
  pub pwrite_count : Bytes → ℕ → ℕ → Option ℕ

-- The documented range of a transfer: no more than was asked for, and on mapped memory at least
-- one byte.
pub record Delivers (f : MemFile) : Type 0 where
  pub pread_some :
      (m : Bytes) (a n : ℕ) → 0 < n → (k : ℕ) × (f.pread_count m a n ≡ some k) × (0 < k) × (k ≤ n)
  pub pwrite_some :
      (m : Bytes) (a n : ℕ) → 0 < n → (k : ℕ) × (f.pwrite_count m a n ≡ some k) × (0 < k) × (k ≤ n)
  -- A single page is transferred whole.
  pub pread_page : (m : Bytes) (a : ℕ) → f.pread_count m a page_size ≡ some page_size
  pub pwrite_page : (m : Bytes) (a : ℕ) → f.pwrite_count m a page_size ≡ some page_size

-- The `ssize_t` of a call as the `int new_r`, and the bytes that were transferred.
abbrev pub as_int : Option ℕ → ℕ
as_int none = 2 ^ 32 - 1
as_int (some k) = to_int k

abbrev pub moved : Option ℕ → ℕ
moved none = 0
moved (some k) = k

abbrev pub is_positive : ℕ → Bool
is_positive w = ltb 0 w && ltb w (2 ^ 31)

-- What a transfer loop leaves: the bytes copied so far, in `into`, and the `int r`.
pub record Transfer : Type 0 where
  pub into : Bytes
  pub r : ℕ

-- `do { new_r = pread(mem_fd, wmem + base + r, total - r, addr + r); r += new_r; }
-- while (r != total && new_r > 0)`, on fuel; `none` means that the fuel ran out.
unfoldable pub read_loop : MemFile → Bytes → ℕ → ℕ → ℕ → ℕ → Transfer → Option Transfer
read_loop f memory base addr total zero t = none
read_loop f memory base addr total (suc fuel) t =
    let from = add64 addr (of_int t.r) in
    let got = f.pread_count memory from (sub64 total (of_int t.r)) in
    let t' = record t {
      into = store t.into (base + of_int t.r) memory from (moved got);
      r = (t.r + as_int got) % 2 ^ 32;
    } in
    let again = read_loop f memory base addr total fuel t' in
    if not (of_int t'.r == total) && is_positive (as_int got) then again else some t'

-- The same with `pwrite`, into the memory at `addr` from the buffer at `base`.
unfoldable pub write_loop : MemFile → Bytes → ℕ → ℕ → ℕ → ℕ → Transfer → Option Transfer
write_loop f wmem base addr total zero t = none
write_loop f wmem base addr total (suc fuel) t =
    let to = add64 addr (of_int t.r) in
    let got = f.pwrite_count t.into to (sub64 total (of_int t.r)) in
    let t' = record t {
      into = store t.into to wmem (base + of_int t.r) (moved got);
      r = (t.r + as_int got) % 2 ^ 32;
    } in
    let again = write_loop f wmem base addr total fuel t' in
    if not (of_int t'.r == total) && is_positive (as_int got) then again else some t'
