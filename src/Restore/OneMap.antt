-- ===== src/Restore/OneMap.antt =====
-- One map: after the restoration its stale pages are as they were at the checkpoint, and the pages
-- that have become resident since are queued to be discarded.
use faasafe.Word.{add_int}
use mathlib.Core.Path.{subst}
use faasafe.Prelude.{
  refl, zero, suc, [], ◌∷◌, false, arith, ◌≡◌, ℕ, List, ◌+◌, ◌||◌, ◌&&◌, ◌^◌, ◌∙◌, ◌-◌, All, ◌<◌,
  ℕ_discrete, ◌++◌, sym, All-append,
}
use faasafe.Types.{Map, MemInfo, Bytes}
use faasafe.Outcome.{returned}
use faasafe.Memory.{MemFile, Delivers}
use faasafe.Snapshot.Pages.{Holds}
use faasafe.Restore.{
  Progress, flush_madvise, restore_pages, restores_whole, restore_soft_dirty_memory_map, add_int,
}
use faasafe.Restore.Round.{
  IsAligned, IsAt, covers, covers-snoc, in_range, is_new, page_at, stale_count, repaired,
  restore_page-IsAt, IsSmallRun,
}

module _ (ini fin : MemInfo) (m : Map) (aligned : IsAligned ini fin m) (f : MemFile)
    (delivers : Delivers f) (old memory : Bytes) (madvises : List (ℕ × ℕ))
    (holds : Holds ini m m.total_num_pages old ini.wmem)
    (runs_small : All IsSmallRun madvises) where
  restore_pages-IsAt :
      (n j : ℕ) (s : Progress)
      → j + n ≡ m.total_num_pages
      → IsAt ini fin m old memory madvises j s
      → (s' : Progress) × (restore_pages f ini fin m n j s ≡ returned s')
        × IsAt ini fin m old memory madvises m.total_num_pages s'
  unfolding restore_pages
  restore_pages-IsAt zero j s e at =
      let e' : j ≡ m.total_num_pages = omega arith in
      (s, refl, subst (λ k. IsAt ini fin m old memory madvises k s) e' at)
  restore_pages-IsAt (suc n) j s e at =
      let (s1, round, at1) =
        restore_page-IsAt ini fin m aligned f delivers j s (omega arith) old memory madvises at
          holds in
      let (s', rest, done) = restore_pages-IsAt n (suc j) s1 (omega arith) at1 in
      let next : add_int j 1 ≡ suc j = omega (arith, aligned.captured.small) in
      (s', rw (round, next) rest, done)

  abbrev start : Progress
  start = record {
    memory = memory;
    madvises = madvises;
    count_restored = 0;
    paged_index = 2 ^ 32 - 1;
    count_madvise = 0;
    madvise_start = 0;
  }

  start-IsAt : IsAt ini fin m old memory madvises 0 start
  start-IsAt = record {
    memory_is = λ q. ground arith;
    queue_is = λ q. ground arith;
    runs_small = runs_small;
    index_is = refl;
    count_is = refl;
    run_within = omega arith;
    run_ends = λ pos. absurd (omega arith);
  }

  flush_count : (s : Progress) → (flush_madvise s).count_restored ≡ s.count_restored
  unfolding flush_madvise
  flush_count s = ground arith

  flush_memory : (s : Progress) → (flush_madvise s).memory ≡ s.memory
  unfolding flush_madvise
  flush_memory s = ground arith

  runs-flushed :
      (s : Progress)
      → s.count_madvise < 2 ^ 19
      → All IsSmallRun s.madvises
      → All IsSmallRun (flush_madvise s).madvises
  unfolding flush_madvise
  runs-flushed s le small = elim (ℕ_discrete s.count_madvise 0) [
    | yes closed ↦ rw closed small
    | no running ↦
        let ended : (flush_madvise s).madvises
            ≡ s.madvises ++ (s.madvise_start, s.count_madvise) ∷ [] =
          ground arith in
        subst (All IsSmallRun) (sym ended) (
          All-append IsSmallRun s.madvises ((s.madvise_start, s.count_madvise) ∷ []) small (le, tt))
  ]

  covers-flushed :
      (s : Progress) (q : ℕ)
      → covers (flush_madvise s).madvises q
        ≡ (covers s.madvises q || in_range s.madvise_start s.count_madvise q)
  unfolding flush_madvise
  covers-flushed s q = ground (arith, covers-snoc s.madvises s.madvise_start s.count_madvise q)

  -- If an aligned map, whose resident pages are in the buffer, is restored page by page through a
  -- memory file that delivers, the restoration returns. Afterwards every page of the map
  -- that was resident at the checkpoint and is soft-dirty or freed is as it was then, every other
  -- byte is as before, the queue covers besides what it did exactly the pages of the map that were
  -- not resident and are now, and the count is that of the pages written.
  pub restore_map-repairs :
      restores_whole m ≡ false
      → (memory' : Bytes) × (queue : List (ℕ × ℕ)) × (restore_soft_dirty_memory_map f ini fin m
            memory madvises
          ≡ returned (memory', queue, stale_count ini fin m m.total_num_pages))
        × All IsSmallRun queue
        × ((q : ℕ) → memory' q ≡ repaired ini fin m old memory m.total_num_pages q)
        × ((q : ℕ)
            → covers queue q ≡ (
                covers madvises q
                || (in_range m.addr_start m.total_num_pages q
                    && is_new ini fin m (page_at ini fin m q))))
  unfolding restore_soft_dirty_memory_map
  restore_map-repairs paged =
      let (s, runs, at) = restore_pages-IsAt m.total_num_pages 0 start (omega arith) start-IsAt in
      (
        (flush_madvise s).memory,
        (flush_madvise s).madvises,
        rw (paged, runs, flush_count s, at.count_is) refl,
        runs-flushed s (omega (arith, at.run_within, aligned.captured.small)) at.runs_small,
        λ q. rw (flush_memory s) (at.memory_is q),
        λ q. covers-flushed s q ∙ at.queue_is q,
      )
