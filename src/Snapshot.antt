-- ===== src/Snapshot.antt =====
-- groundhog_origin/src/mem_helpers.c and proc_parsers.c: copying the resident pages of the stopped
-- tracee into the buffer `wmem`.
pub mod Capture
pub mod Layout
pub mod Pages
mod Tests
use faasafe.Prelude.{
  refl, zero, suc, [], ◌∷◌, none, some, inl, inr, true, false, arith, ◌≡◌, ℕ, List, Bool, Option,
  get_or, ◌+◌, if◌then◌else◌, ltb, set, not, ◌&&◌, ◌==◌,
}
use faasafe.Types.{Map, Page, MemInfo, Bytes, page_size, zero_map, zero_page}
use faasafe.Word.{add64, sub64, mul64, of_int, add_int, mul_int}
use faasafe.Outcome.{Outcome, returned, aborted, from_loop, ◌>>=◌}
use faasafe.Memory.{MemFile, Transfer, read_loop, store, moved}

-- The loop over the pages of a map that is not wholly resident: `n` rounds are left, the next one
-- is at `i`, and `paged_index` pages have been copied.
unfoldable pub copy_paged : MemFile → Bytes → MemInfo → Map → ℕ → ℕ → ℕ → Bytes → Bytes
copy_paged f memory ps m zero i paged_index wmem = wmem
copy_paged f memory ps m (suc n) i paged_index wmem =
    let p = get_or ps.pages (add64 m.first_page_index (of_int i)) zero_page in
    let from = add64 m.addr_start (of_int (mul_int page_size i)) in
    let to = add64 (mul64 m.first_wmem_index page_size) (of_int (mul_int paged_index page_size)) in
    let resident = ltb 0 p.pfn in
    copy_paged f memory ps m n (add_int i 1)
      (if resident then add_int paged_index 1 else paged_index)
      (if resident
        then store wmem to memory from (moved (f.pread_count memory from page_size))
        else wmem)

-- `populate_memory_copy_info_map`: the new contents of `wmem`.
unfoldable pub populate_memory_copy_info_map : MemFile → Bytes → MemInfo → Map → Outcome Bytes
populate_memory_copy_info_map f memory ps m =
    let total = mul64 m.total_num_pages page_size in
    let start : Transfer = record { into = ps.wmem; r = 0 } in
    let whole =
      from_loop (
        read_loop f memory (mul64 m.first_wmem_index page_size) m.addr_start total (total + 1)
          start)
      >>= λ t. returned t.into in
    if not (sub64 m.addr_end m.addr_start == total)
    then aborted
    else if m.total_num_paged_pages == m.total_num_pages
    then whole
    else returned (copy_paged f memory ps m m.total_num_pages 0 0 ps.wmem)

-- One round of the loop of `populate_memory_copy_info`, on map `i`: the new state and the new
-- `memory_index`.
unfoldable pub populate_round : MemFile → Bytes → Bool → ℕ → ℕ → MemInfo → Outcome (MemInfo × ℕ)
populate_round f memory only_writable i memory_index ps =
    let m = get_or ps.maps i zero_map in
    let m' = record m { first_wmem_index = memory_index } in
    let ps' = record ps { maps = set ps.maps i m' } in
    let next = add64 memory_index m.total_num_paged_pages in
    if only_writable && not m.w
    then returned (ps, memory_index)
    else if ltb 0 m.total_num_paged_pages
    then (populate_memory_copy_info_map f memory ps' m' >>= λ wmem.
        returned (record ps' { wmem = wmem }, next))
    else returned (ps', next)

-- The loop of `populate_memory_copy_info`: `n` rounds are left, the next one is at `i`.
unfoldable pub populate_maps : MemFile → Bytes → Bool → ℕ → ℕ → ℕ → MemInfo → Outcome MemInfo
populate_maps f memory only_writable zero i memory_index ps = returned ps
populate_maps f memory only_writable (suc n) i memory_index ps =
    populate_round f memory only_writable i memory_index ps >>= λ s.
    populate_maps f memory only_writable n (i + 1) s.1 s.0

-- `populate_memory_copy_info`
unfoldable pub populate_memory_copy_info : MemFile → Bytes → MemInfo → Bool → Outcome MemInfo
populate_memory_copy_info f memory ps only_writable =
    populate_maps f memory only_writable ps.maps_count 0 0 ps
