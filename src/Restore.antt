-- ===== src/Restore.antt =====
-- groundhog_origin/src/proc_cr.c: writing the checkpointed contents back into the tracee's memory.
pub mod OneMap
pub mod Round
mod Tests
pub mod Whole
pub mod Discard
pub mod Table
use faasafe.Prelude.{
  dec_lt, max, refl, zero, suc, [], ◌∷◌, none, some, inl, inr, true, false, arith, ◌≡◌, ℕ, List,
  Bool, Option, get_or, if◌then◌else◌, ◌+◌, ◌||◌, leb, not, ◌&&◌, ◌==◌, ◌^◌, ◌*◌, ◌++◌, ◌-◌,
}
use faasafe.Types.{Map, Page, MemInfo, MemDiff, Bytes, page_size, zero_map, zero_page}
use faasafe.Word.{add64, sub64, mul64, of_int, add_int, mul_int}
use faasafe.Outcome.{Outcome, returned, aborted, from_loop, ◌>>=◌}
use faasafe.Memory.{MemFile, Transfer, write_loop, store, moved, as_int}

-- The variables of the loop over the pages of a map, with the memory of the tracee and the queue of
-- ranges to discard, each an address and a number of pages (`madvises_t`).
pub record Progress : Type 0 where
  pub memory : Bytes
  pub madvises : List (ℕ × ℕ)
  pub count_restored : ℕ
  pub paged_index : ℕ
  pub count_madvise : ℕ
  pub madvise_start : ℕ

-- The run of pages to discard that has just ended is queued.
unfoldable pub flush_madvise : Progress → Progress
flush_madvise s = if s.count_madvise == 0 then s else record s {
  madvises = s.madvises ++ (s.madvise_start, s.count_madvise) ∷ [];
  count_madvise = 0;
}

-- The end of a round: page `init_mod_page` is written from the buffer.
unfoldable pub write_page : MemFile → MemInfo → Map → Page → Progress → Outcome Progress
write_page f initial_state m init_mod_page s =
    let from =
      add64 (mul64 m.first_wmem_index page_size) (of_int (mul_int page_size s.paged_index)) in
    let got = f.pwrite_count s.memory init_mod_page.addr_start page_size in
    if as_int got == page_size
    then returned (record s {
      memory = store s.memory init_mod_page.addr_start initial_state.wmem from (moved got);
      count_restored = add64 s.count_restored 1;
    })
    else aborted

-- One round of the loop over the pages of `restore_soft_dirty_memory_map`.
unfoldable pub restore_page : MemFile → MemInfo → MemInfo → Map → ℕ → Progress → Outcome Progress
restore_page f initial_state final_state m j s0 =
    let init_mod_page =
      get_or initial_state.pages (add64 m.first_page_index (of_int j)) zero_page in
    let final_mod_page = get_or final_state.pages (add64 m.first_page_index (of_int j)) zero_page in
    let s =
      if init_mod_page.pfn == 0 then s0 else record s0 { paged_index = add_int s0.paged_index 1 } in
    let s' = flush_madvise s in
    if not (final_mod_page.addr_start == init_mod_page.addr_start)
    then aborted
    else if init_mod_page.pfn == 0 && not (final_mod_page.pfn == 0)
    then returned (record s {
      madvise_start = if s.count_madvise == 0 then init_mod_page.addr_start else s.madvise_start;
      count_madvise = add_int s.count_madvise 1;
    })
    else if not final_mod_page.soft_dirty && not final_mod_page.is_freed
    then returned s'
    else if init_mod_page.pfn == 0 && final_mod_page.pfn == 0
    then returned s'
    else if of_int s'.paged_index == m.total_num_paged_pages
    then returned s'
    else write_page f initial_state m init_mod_page s'

-- The loop: `n` rounds are left, the next one is on page `j`.
unfoldable pub restore_pages :
    MemFile → MemInfo → MemInfo → Map → ℕ → ℕ → Progress → Outcome Progress
restore_pages f initial_state final_state m zero j s = returned s
restore_pages f initial_state final_state m (suc n) j s =
    restore_page f initial_state final_state m j s >>= λ s'.
    restore_pages f initial_state final_state m n (add_int j 1) s'

-- The test for writing a whole map back at once. The source compares with `0.6 * total_num_pages`
-- in floating point, which agrees on numbers below 2 ^ 50.
unfoldable pub restores_whole : Map → Bool
restores_whole m =
    (m.w || m.r)
    && (leb (6 * m.total_num_pages) (10 * add64 m.soft_dirty_count m.freed_count)
        && m.total_num_paged_pages == m.total_num_pages)

-- The branch that writes a whole map back.
unfoldable pub restore_whole :
    MemFile → MemInfo → Map → Bytes → List (ℕ × ℕ) → Outcome (Bytes × List (ℕ × ℕ) × ℕ)
restore_whole f initial_state m memory madvises =
    let total = mul64 page_size m.total_num_pages in
    from_loop (
      write_loop f initial_state.wmem (mul64 m.first_wmem_index page_size) m.addr_start total
        (total + 1) (record { into = memory; r = 0 }))
    >>= λ t. if of_int t.r == total then returned (t.into, madvises, m.total_num_pages) else aborted

-- `restore_soft_dirty_memory_map`: the new memory, the queue, and the number of restored pages.
unfoldable pub restore_soft_dirty_memory_map :
    MemFile → MemInfo → MemInfo → Map → Bytes → List (ℕ × ℕ) → Outcome (Bytes × List (ℕ × ℕ) × ℕ)
restore_soft_dirty_memory_map f initial_state final_state m memory madvises =
    if restores_whole m
    then restore_whole f initial_state m memory madvises
    else (restore_pages f initial_state final_state m m.total_num_pages 0 (record {
      memory = memory;
      madvises = madvises;
      count_restored = 0;
      paged_index = 2 ^ 32 - 1;
      count_madvise = 0;
      madvise_start = 0;
    })
        >>= λ s. let s' = flush_madvise s in returned (s'.memory, s'.madvises, s'.count_restored))

-- The first loop of `restore_soft_dirty_memory`: `n` rounds are left, the next one is on the
-- modified map `i`. The counts of the maps are added up on the way.
unfoldable pub restore_maps :
    MemFile
    → MemInfo
    → MemInfo
    → MemInfo
    → ℕ
    → ℕ
    → Bytes × List (ℕ × ℕ) × ℕ
    → Outcome (Bytes × List (ℕ × ℕ) × ℕ)
restore_maps f modified initial_state final_state zero i s = returned s
restore_maps f modified initial_state final_state (suc n) i (memory, madvises, count) =
    let m = get_or modified.maps i zero_map in
    (if not m.dirty || (not m.r && not m.w)
      then returned (memory, madvises, 0)
      else restore_soft_dirty_memory_map f initial_state final_state m memory madvises)
    >>= λ s. restore_maps f modified initial_state final_state n (i + 1) (s.0, s.1, add64 count s.2)

-- The second loop: each queued range is discarded by an injected `madvise`, whose effect on the
-- memory, or failed assertion, is the parameter.
unfoldable pub discard_ranges :
    (Bytes → ℕ → ℕ → Outcome Bytes) → List (ℕ × ℕ) → Bytes → Outcome Bytes
discard_ranges madvise [] memory = returned memory
discard_ranges madvise ((start, pages) ∷ l) memory =
    madvise memory start (of_int (mul_int page_size pages)) >>= λ memory'.
    discard_ranges madvise l memory'

-- `restore_soft_dirty_memory`: the new memory and the number of restored pages.
unfoldable pub restore_soft_dirty_memory :
    MemFile
    → (Bytes → ℕ → ℕ → Outcome Bytes)
    → MemDiff
    → MemInfo
    → MemInfo
    → Bytes
    → Outcome (Bytes × ℕ)
restore_soft_dirty_memory f madvise ps_diff initial_state final_state memory =
    restore_maps f ps_diff.modified initial_state final_state ps_diff.modified.maps_count 0
      (memory, [], 0)
    >>= λ s. discard_ranges madvise s.1 s.0 >>= λ memory'.
        if leb s.2 initial_state.pages_count then returned (memory', s.2) else aborted
