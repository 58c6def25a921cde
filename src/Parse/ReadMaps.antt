-- ===== src/Parse/ReadMaps.antt =====
-- groundhog_origin/src/proc_parsers.c: `read_maps`, on the texts that its reads of /proc/PID/maps
-- deliver.
use faasafe.Prelude.{
  zero, suc, ℕ, Bool, List, if◌then◌else◌, ◌+◌, ◌-◌, ◌||◌, ◌==◌, ltb, [], ◌∷◌, get_or, length, take,
}
use faasafe.Types.{Bytes, Map, MemInfo}
use faasafe.Word.{u64_mod, add64, of_int, to_int}
use faasafe.Maps.{add_to_maps}
use faasafe.Maps.Names.{has_prefix}
use faasafe.Parse.Line.{bufsiz, line_start, parse_line}

-- "[vvar]", "[vdso]" and "[vsyscall]"
abbrev pub vvar_name : List ℕ
vvar_name = b'[' ∷ b'v' ∷ b'v' ∷ b'a' ∷ b'r' ∷ b']' ∷ []

abbrev pub vdso_name : List ℕ
vdso_name = b'[' ∷ b'v' ∷ b'd' ∷ b's' ∷ b'o' ∷ b']' ∷ []

abbrev pub vsyscall_name : List ℕ
vsyscall_name = b'[' ∷ b'v' ∷ b's' ∷ b'y' ∷ b's' ∷ b'c' ∷ b'a' ∷ b'l' ∷ b'l' ∷ b']' ∷ []

-- The variables of `read_maps`; the two counts are `int`s.
pub record Reading : Type 0 where
  pub buffer : Bytes
  pub total_num_pages : ℕ
  pub total_num_writable_pages : ℕ
  pub ps : MemInfo

-- The maps that are skipped. (The names hold no zero byte within these prefixes, so that `memcmp`
-- compares as `strncmp` does.)
abbrev pub is_special : Map → Bool
is_special m = has_prefix m vvar_name || has_prefix m vdso_name || has_prefix m vsyscall_name

-- The indexes that a map gets.
abbrev pub with_indexes : Map → ℕ → ℕ → Map
with_indexes m pages writable_pages = record m {
  first_page_index = of_int pages;
  first_wmem_index = if m.w then of_int writable_pages else u64_mod - 1;
}

abbrev pub put_byte : Bytes → ℕ → ℕ → Bytes
put_byte buffer y v i = if i == y then v else buffer i

-- What is done with a parsed line whose name ends at `y`. Its end is overwritten by 0, and restored
-- only if the map is added.
unfoldable pub take_map : Map → ℕ → Reading → Reading
take_map m y g = if is_special m then record g { buffer = put_byte g.buffer y 0 } else record g {
  buffer = put_byte g.buffer y b'\n';
  ps = add_to_maps g.ps (with_indexes m g.total_num_pages g.total_num_writable_pages);
  total_num_pages = to_int (add64 (of_int g.total_num_pages) m.total_num_pages);
  total_num_writable_pages =
      if m.w
      then to_int (add64 (of_int g.total_num_writable_pages) m.total_num_pages)
      else g.total_num_writable_pages;
}

-- The body of the inner loop, on the byte `i`.
unfoldable pub read_byte : ℕ → Reading → Reading
read_byte zero g = g
read_byte (suc x) g =
    let (m, y) = parse_line g.buffer (line_start g.buffer x) in
    if g.buffer (suc x) == b'\n' then take_map m y g else g

-- The inner loop: `n` bytes are left, the next one is `i`.
unfoldable pub read_bytes : ℕ → ℕ → Reading → Reading
read_bytes zero i g = g
read_bytes (suc n) i g = read_bytes n (i + 1) (read_byte i g)

-- What a read of at most `BUFSIZ` bytes leaves in the buffer.
abbrev pub put_text : Bytes → List ℕ → Bytes
put_text buffer text i = if ltb i (length text) then get_or text i 0 else buffer i

-- The outer loop over the texts that the reads deliver until one delivers nothing; `offset` stays 0.
unfoldable pub read_chunks : List (List ℕ) → Reading → Reading
read_chunks [] g = g
read_chunks ([] ∷ chunks) g = g
read_chunks ((c ∷ chunk) ∷ chunks) g =
    let text = take bufsiz (c ∷ chunk) in
    read_chunks chunks (read_bytes (length text) 0 (record g { buffer = put_text g.buffer text }))

-- `read_maps`: the new state and the number of pages. `unread` is what the buffer holds at first.
unfoldable pub read_maps : Bytes → List (List ℕ) → MemInfo → MemInfo × ℕ
read_maps unread chunks ps =
    let g =
      read_chunks chunks
        (record { buffer = unread; total_num_pages = 0; total_num_writable_pages = 0; ps = ps }) in
    (g.ps, g.total_num_pages)
