-- ===== src/Restore/Round.antt =====
-- One page of a map: what a round of the restoration does to the memory and to the queue.
use mathlib.Core.Path.{subst}
use faasafe.Word.{add_int}
use faasafe.Prelude.{
  zero, suc, [], ◌∷◌, inl, inr, true, false, arith, ◌≡◌, ℕ, List, Bool, if◌then◌else◌, leb, not,
  ◌&&◌, ◌++◌, ◌+◌, ◌-◌, ◌<◌, ◌||◌, ltb, ◌*◌, ◌/◌, ◌^◌, ◌%◌, ◌≤◌, ◌==◌, Bool-cases, All, ℕ_discrete,
  sym, All-append,
}
use faasafe.Types.{Map, MemInfo, Bytes, page_size}
use faasafe.Outcome.{returned}
use faasafe.Memory.{MemFile, Delivers, store}
use faasafe.Snapshot.Pages.{IsCaptured, Holds, rank, rank_lt, rank-le, is_resident, page_of, slot}
use faasafe.Restore.{Progress, flush_madvise, write_page, restore_page, add_int}

-- The ranges of the queue cover the address `q`.
abbrev pub in_range : ℕ → ℕ → ℕ → Bool
in_range start pages q = leb start q && ltb q (start + pages * page_size)

abbrev pub covers : List (ℕ × ℕ) → ℕ → Bool
covers [] q = false
covers ((start, pages) ∷ l) q = in_range start pages q || covers l q

pub covers-snoc :
    (l : List (ℕ × ℕ)) (start pages q : ℕ)
    → covers (l ++ (start, pages) ∷ []) q ≡ (covers l q || in_range start pages q)
covers-snoc [] start pages q = ground arith
covers-snoc (x ∷ l) start pages q = ground (arith, covers-snoc l start pages q)

-- A queued run of less than 2 GiB, whose length in bytes is an `int`.
abbrev pub IsSmallRun : ℕ × ℕ → Type 0
IsSmallRun run = run.1 < 2 ^ 19

module _ (ini fin : MemInfo) (m : Map) where
  -- Page `j` was resident at the checkpoint and has been written to, or freed, since then.
  abbrev pub is_stale : ℕ → Bool
  is_stale j = is_resident ini m j && ((page_of fin m j).soft_dirty || (page_of fin m j).is_freed)

  -- Page `j` was not resident at the checkpoint and is now.
  abbrev pub is_new : ℕ → Bool
  is_new j = not (is_resident ini m j) && is_resident fin m j

  -- Which page of the map an address lies on.
  abbrev pub page_at : ℕ → ℕ
  page_at q = (q - m.addr_start) / page_size

  -- The number of stale pages before page `j`.
  abbrev pub stale_count : ℕ → ℕ
  stale_count zero = 0
  stale_count (suc j) = stale_count j + (if is_stale j then 1 else 0)

  pub stale_count-le : (j : ℕ) → stale_count j ≤ j
  stale_count-le zero = omega arith
  stale_count-le (suc j) = ground (arith, stale_count-le j)

  -- The memory once the stale pages before page `j` are as in `old`.
  abbrev pub repaired : Bytes → Bytes → ℕ → Bytes
  repaired old memory j q =
      if in_range m.addr_start j q && is_stale (page_at q) then old q else memory q

  -- Both states see the pages of the map at its addresses.
  pub record IsAligned : Type 0 where
    pub captured : IsCaptured ini m
    pub ini_addr :
        (j : ℕ)
        → j < m.total_num_pages
        → (page_of ini m j).addr_start ≡ m.addr_start + j * page_size
    pub fin_addr :
        (j : ℕ)
        → j < m.total_num_pages
        → (page_of fin m j).addr_start ≡ m.addr_start + j * page_size

  -- The variables at page `j`, if the loop began on `memory` with the queue `madvises`.
  pub record IsAt (old memory : Bytes) (madvises : List (ℕ × ℕ)) (j : ℕ) (s : Progress)
      : Type 0 where
    pub memory_is : (q : ℕ) → s.memory q ≡ repaired old memory j q
    pub queue_is :
        (q : ℕ)
        → (covers s.madvises q || in_range s.madvise_start s.count_madvise q)
          ≡ (covers madvises q || (in_range m.addr_start j q && is_new (page_at q)))
    pub runs_small : All IsSmallRun s.madvises
    pub index_is : s.paged_index ≡ (rank ini m j + (2 ^ 32 - 1)) % 2 ^ 32
    pub count_is : s.count_restored ≡ stale_count j
    pub run_within : s.count_madvise ≤ j
    pub run_ends :
        0 < s.count_madvise
        → s.madvise_start + s.count_madvise * page_size ≡ m.addr_start + j * page_size

  -- The index of the last resident page, once page `j` has been looked at.
  abbrev bump : ℕ → Progress → Progress
  bump j s = record s {
    paged_index = if is_resident ini m j then add_int s.paged_index 1 else s.paged_index;
  }

  abbrev discard : ℕ → Progress → Progress
  discard j s = record s {
    madvise_start = if s.count_madvise == 0 then m.addr_start + j * page_size else s.madvise_start;
    count_madvise = s.count_madvise + 1;
  }

  abbrev rewrite : ℕ → Progress → Progress
  rewrite j s = record s {
    memory = store s.memory (m.addr_start + j * page_size) ini.wmem (slot ini m j) page_size;
    count_restored = s.count_restored + 1;
  }

  module _ (aligned : IsAligned) (f : MemFile) (delivers : Delivers f) (j : ℕ) (s : Progress)
      (h : j < m.total_num_pages) where
    restore_page-new :
        is_new j ≡ true
        → s.count_madvise ≤ j
        → restore_page f ini fin m j s ≡ returned (discard j s)
    unfolding restore_page
    restore_page-new new le = ground (arith, aligned.ini_addr j h, aligned.fin_addr j h)

    restore_page-skip :
        is_stale j ≡ false
        → is_new j ≡ false
        → restore_page f ini fin m j s ≡ returned (flush_madvise (bump j s))
    unfolding restore_page
    restore_page-skip old_page no_new = ground (arith, aligned.ini_addr j h, aligned.fin_addr j h)

    restore_page-write :
        is_stale j ≡ true
        → (flush_madvise (bump j s)).paged_index ≡ rank ini m j
        → (flush_madvise (bump j s)).count_restored < 2 ^ 32
        → restore_page f ini fin m j s ≡ returned (rewrite j (flush_madvise (bump j s)))
    unfolding restore_page write_page
    restore_page-write stale e small = ground (
      arith,
      aligned.ini_addr j h,
      aligned.fin_addr j h,
      e,
      rank_lt ini m j m.total_num_pages h,
      rank-le ini m j,
      delivers.pwrite_page (flush_madvise (bump j s)).memory (m.addr_start + j * page_size),
    )

    module _ (old memory : Bytes) (madvises : List (ℕ × ℕ))
        (at : IsAt old memory madvises j s) where
      abbrev flushed : Progress
      flushed = flush_madvise (bump j s)

      -- Ending a run moves it into the queue.
      covers-flush :
          (q : ℕ)
          → covers flushed.madvises q
            ≡ (covers madvises q || (in_range m.addr_start j q && is_new (page_at q)))
      unfolding flush_madvise
      covers-flush q =
          ground (arith, at.queue_is q, covers-snoc s.madvises s.madvise_start s.count_madvise q)

      ended :
          ¬ (s.count_madvise ≡ 0)
          → flushed.madvises ≡ s.madvises ++ (s.madvise_start, s.count_madvise) ∷ []
      unfolding flush_madvise
      ended h = ground arith

      runs-flush : All IsSmallRun flushed.madvises
      unfolding flush_madvise
      runs-flush = elim (ℕ_discrete s.count_madvise 0) [
        | yes closed ↦ rw closed at.runs_small
        | no running ↦ subst (All IsSmallRun) (sym (ended running)) (
            All-append IsSmallRun s.madvises ((s.madvise_start, s.count_madvise) ∷ []) at.runs_small
              (omega (arith, at.run_within, aligned.captured.small), tt))
      ]

      flushed_fields :
          (flushed.memory ≡ s.memory)
          × (flushed.count_restored ≡ s.count_restored)
          × (flushed.count_madvise ≡ 0)
          × (flushed.paged_index ≡ (rank ini m (suc j) + (2 ^ 32 - 1)) % 2 ^ 32)
      unfolding flush_madvise
      flushed_fields = ground (arith, at.index_is, rank-le ini m j)

      repaired-suc_same :
          (q : ℕ) → is_stale j ≡ false → repaired old memory (suc j) q ≡ repaired old memory j q
      repaired-suc_same q e = ground arith

      queue-suc_same :
          (q : ℕ)
          → is_new j ≡ false
          → (in_range m.addr_start (suc j) q && is_new (page_at q))
            ≡ (in_range m.addr_start j q && is_new (page_at q))
      queue-suc_same q e = ground arith

      IsAt-skip : is_stale j ≡ false → is_new j ≡ false → IsAt old memory madvises (suc j) flushed
      IsAt-skip not_stale not_new = record {
        memory_is =
            λ q. ground (arith, flushed_fields, at.memory_is q, repaired-suc_same q not_stale);
        queue_is = λ q. ground (arith, flushed_fields, covers-flush q, queue-suc_same q not_new);
        runs_small = runs-flush;
        index_is = flushed_fields.3;
        count_is = ground (arith, flushed_fields, at.count_is);
        run_within = omega (arith, flushed_fields);
        run_ends = λ pos. absurd (omega (arith, flushed_fields));
      }

      IsAt-new : is_new j ≡ true → IsAt old memory madvises (suc j) (discard j s)
      IsAt-new new = record {
        memory_is = λ q. ground (arith, at.memory_is q, repaired-suc_same q);
        queue_is = λ q. ground (arith, at.queue_is q, at.run_ends, at.run_within);
        runs_small = at.runs_small;
        index_is = ground (arith, at.index_is);
        count_is = ground (arith, at.count_is);
        run_within = omega (arith, at.run_within);
        run_ends = λ pos. ground (arith, at.run_ends);
      }

      resident_of_stale : is_stale j ≡ true → is_resident ini m j ≡ true
      resident_of_stale stale = ground arith

      IsAt-write :
          Holds ini m m.total_num_pages old ini.wmem
          → is_stale j ≡ true
          → IsAt old memory madvises (suc j) (rewrite j flushed)
      IsAt-write holds stale = record {
        memory_is = λ q. ground (
          arith,
          flushed_fields,
          at.memory_is q,
          holds j h (resident_of_stale stale) (q - (m.addr_start + j * page_size)),
        );
        queue_is = λ q. ground (arith, flushed_fields, covers-flush q, queue-suc_same q);
        runs_small = runs-flush;
        index_is = flushed_fields.3;
        count_is = ground (arith, flushed_fields, at.count_is);
        run_within = omega (arith, flushed_fields);
        run_ends = λ pos. absurd (omega (arith, flushed_fields));
      }

      -- A round succeeds and goes on to the next page.
      pub restore_page-IsAt :
          Holds ini m m.total_num_pages old ini.wmem
          → (s' : Progress) × (restore_page f ini fin m j s ≡ returned s')
            × IsAt old memory madvises (suc j) s'
      restore_page-IsAt holds = elim (Bool-cases (is_new j)) [
        | inl new ↦ (discard j s, restore_page-new new at.run_within, IsAt-new new)
        | inr not_new ↦ elim (Bool-cases (is_stale j)) [
          | inl stale ↦ (
            rewrite j flushed,
            restore_page-write stale
                (ground (arith, flushed_fields, resident_of_stale stale, rank-le ini m j))
                (omega
                  (arith, flushed_fields.1, at.count_is, stale_count-le j, aligned.captured.small)),
            IsAt-write holds stale,
          )
          | inr not_stale ↦
              (flushed, restore_page-skip not_stale not_new, IsAt-skip not_stale not_new)
        ]
      ]
