-- ===== src/Restore/Discard.antt =====
-- Discarding the queued pages, and the whole of `restore_soft_dirty_memory`.
use faasafe.Word.{of_int, mul_int}
use faasafe.Snapshot.Pages.{is_resident}
use faasafe.Prelude.{
  true≢false, refl, [], ◌∷◌, inl, inr, true, false, arith, ◌≡◌, ℕ, List, ◌+◌, ◌&&◌, Bool-cases, All,
  leb, ◌<◌, ltb, ◌*◌, ◌^◌, ◌≤◌, ℕ_discrete, ◌∙◌, sym, ap,
}
use faasafe.Types.{MemInfo, MemDiff, Bytes, page_size}
use faasafe.Outcome.{Outcome, returned}
use faasafe.Memory.{MemFile, Delivers}
use faasafe.Restore.{discard_ranges, restore_soft_dirty_memory, of_int, mul_int}
use faasafe.Restore.Round.{IsSmallRun, covers, page_at}
use faasafe.Restore.Whole.{Agrees, inside, page_at-offset}
use faasafe.Restore.Table.{IsReady, RestoredTo, restore_maps-RestoredTo, on_map, is_touched}
use faasafe.Maps.Table.{map_at}

-- The documented effect of `madvise(MADV_DONTNEED)` on a mapped range: it succeeds, and leaves the
-- memory outside the range alone.
pub record Discards (madvise : Bytes → ℕ → ℕ → Outcome Bytes) : Type 0 where
  pub outside :
      (memory : Bytes) (start len : ℕ)
      → (memory' : Bytes) × (madvise memory start len ≡ returned memory')
        × ((q : ℕ) → (leb start q && ltb q (start + len)) ≡ false → memory' q ≡ memory q)

run_length : (pages : ℕ) → pages < 2 ^ 19 → of_int (mul_int page_size pages) ≡ pages * page_size
run_length pages h = ground arith

module _ (madvise : Bytes → ℕ → ℕ → Outcome Bytes) (discards : Discards madvise) where
  discard_ranges-outside :
      (queue : List (ℕ × ℕ)) (memory : Bytes)
      → All IsSmallRun queue
      → (memory' : Bytes) × (discard_ranges madvise queue memory ≡ returned memory')
        × ((q : ℕ) → covers queue q ≡ false → memory' q ≡ memory q)
  unfolding discard_ranges
  discard_ranges-outside [] memory small = (memory, refl, λ q c. refl)
  discard_ranges-outside ((start, pages) ∷ l) memory (s, small) =
      let (memory1, runs, out) = discards.outside memory start (pages * page_size) in
      let (memory', rest, out') = discard_ranges-outside l memory1 small in
      (
        memory',
        rw (run_length pages s, runs) rest,
        λ q c. out' q (ground arith) ∙ out q (ground arith),
      )

module _ (f : MemFile) (delivers : Delivers f) (madvise : Bytes → ℕ → ℕ → Outcome Bytes)
    (discards : Discards madvise) (ps_diff : MemDiff) (ini fin : MemInfo) (old memory : Bytes)
    (ready : IsReady ps_diff.modified ini fin old memory) where
  abbrev ps : MemInfo
  ps = ps_diff.modified

  -- No page that was resident at the checkpoint is discarded.
  resident-kept :
      (now : Bytes) (queue : List (ℕ × ℕ)) (count : ℕ)
      → RestoredTo f delivers ps ini fin old memory ready ps.maps_count now queue count
      → (i : ℕ) → i < ps.maps_count
      → (j : ℕ) → j < (map_at ps i).total_num_pages
      → is_resident ini (map_at ps i) j ≡ true
      → (k : ℕ) → k < page_size
      → covers queue ((map_at ps i).addr_start + j * page_size + k) ≡ false
  resident-kept now queue count r i h j jl res k kl =
      let q = (map_at ps i).addr_start + j * page_size + k in
      let here : on_map ps i q ≡ true = inside (map_at ps i) j k jl kl in
      elim (Bool-cases (covers queue q)) [
        | inr kept ↦ kept
        | inl c ↦
            let (i', lt, on, gone) = r.discards q c in
            elim (ℕ_discrete i i') [
              | yes e ↦ absurd (
                  true≢false (
                    sym res
                    ∙ ap (is_resident ini (map_at ps i))
                        (sym (page_at-offset ini fin (map_at ps i) j k kl))
                    ∙ ap (λ n. is_resident ini (map_at ps n) (page_at ini fin (map_at ps n) q)) e
                    ∙ gone))
              | no ne ↦ absurd (true≢false (sym on ∙ ready.apart i i' h lt ne q here))
            ]
      ]

  outside-kept :
      (now : Bytes) (queue : List (ℕ × ℕ)) (count : ℕ)
      → RestoredTo f delivers ps ini fin old memory ready ps.maps_count now queue count
      → (q : ℕ) → ((i : ℕ) → i < ps.maps_count → on_map ps i q ≡ false)
      → covers queue q ≡ false
  outside-kept now queue count r q out = elim (Bool-cases (covers queue q)) [
    | inr kept ↦ kept
    | inl c ↦ let (i, lt, on, gone) = r.discards q c in absurd (true≢false (sym on ∙ out i lt))
  ]

  -- For modified maps that are ready, a memory file that delivers and a `madvise` that discards no
  -- more than its range, `restore_soft_dirty_memory` returns. In every modified map that is dirty
  -- and readable or writable, what was resident at the checkpoint is as it was then, and no byte
  -- outside the modified maps has changed. At most as many pages are counted as were checkpointed.
  pub restore_soft_dirty_memory-undoes :
      (memory' : Bytes) × (count : ℕ) × (restore_soft_dirty_memory f madvise ps_diff ini fin memory
        ≡ returned (memory', count))
      × ((i : ℕ)
          → i < ps_diff.modified.maps_count
          → is_touched (map_at ps_diff.modified i) ≡ true
          → Agrees ini (map_at ps_diff.modified i) old memory')
      × ((q : ℕ)
          → ((i : ℕ) → i < ps_diff.modified.maps_count → on_map ps_diff.modified i q ≡ false)
          → memory' q ≡ memory q)
      × (count ≤ ini.pages_count)
  unfolding restore_soft_dirty_memory
  restore_soft_dirty_memory-undoes =
      let (now, queue, count, runs, r) =
        restore_maps-RestoredTo f delivers ps ini fin old memory ready ps.maps_count 0 memory [] 0
          (omega arith)
          (record {
            agrees = λ j h. absurd (omega arith);
            pending = λ j le lt q on. refl;
            elsewhere = λ q out. refl;
            few = omega arith;
            runs_small = tt;
            discards = λ q c. absurd (true≢false (sym c));
          }) in
      let (memory', discarded, out) =
        discard_ranges-outside madvise discards queue now r.runs_small in
      let checked : leb count ini.pages_count ≡ true = ground (arith, r.few, ready.few_pages) in
      (
        memory',
        count,
        rw (runs, discarded, checked) refl,
        (λ i h t j jl res k kl.
            out ((map_at ps i).addr_start + j * page_size + k)
              (resident-kept now queue count r i h j jl res k kl)
            ∙ r.agrees i h t j jl res k kl),
        (λ q o. out q (outside-kept now queue count r q o) ∙ r.elsewhere q o),
        omega (arith, r.few, ready.few_pages),
      )
