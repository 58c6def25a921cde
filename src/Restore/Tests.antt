-- ===== src/Restore/Tests.antt =====
-- The restoration on a map of two pages: the first was checkpointed and has been written to since,
-- the second has become resident since.
use faasafe.Cycle.Undo.{restore_soft_dirty_memory-diff_process_states}
use faasafe.Diff.{diff_process_states, finished}
use faasafe.Cycle.Written.{IsWritten}
use faasafe.Prelude.{
  refl, [], ◌∷◌, true, false, arith, ◌≡◌, ℕ, List, Bool, ◌+◌, ◌&&◌, some, All, if◌then◌else◌,
  ℕ_discrete, ◌<◌, leb, true≢false, ◌≤◌, ltb, sym, ◌||◌,
}
use faasafe.Types.{Map, MemInfo, MemDiff, Bytes, Page, zero_map, zero_page}
use faasafe.Outcome.{Outcome, returned}
use faasafe.Memory.{MemFile, Delivers}
use faasafe.Restore.{
  restore_soft_dirty_memory, restore_soft_dirty_memory_map, restores_whole, restore_pages,
  restore_page, write_page, flush_madvise,
}
use faasafe.Restore.Discard.{Discards, restore_soft_dirty_memory-undoes}
use faasafe.Restore.OneMap.{restore_map-repairs}
use faasafe.Restore.Round.{IsAligned, IsSmallRun, in_range, covers, page_at, is_new, repaired}
use faasafe.Restore.Table.{IsReady, on_map, is_touched}
use faasafe.Maps.Table.{map_at}
use faasafe.Restore.Whole.{Agrees, AgreesIfClean, Undone, restore_map-undoes}
use faasafe.Snapshot.Pages.{Holds}

-- A kernel that transfers everything at once.
abbrev whole : MemFile
whole = record { pread_count = λ m a n. some n; pwrite_count = λ m a n. some n }

whole-Delivers : Delivers whole
whole-Delivers = record {
  pread_some = λ m a n h. (n, refl, h, omega arith);
  pwrite_some = λ m a n h. (n, refl, h, omega arith);
  pread_page = λ m a. refl;
  pwrite_page = λ m a. refl;
}

abbrev zeroing : Bytes → ℕ → ℕ → Outcome Bytes
zeroing memory start len =
    returned (λ q. if leb start q && ltb q (start + len) then 0 else memory q)

zeroing-Discards : Discards zeroing
zeroing-Discards = record {
  outside = λ memory start len.
      (λ q. if leb start q && ltb q (start + len) then 0 else memory q, refl, λ q h. rw h refl);
}

abbrev heap : Map
heap = record zero_map {
  addr_start = 4096;
  addr_end = 12288;
  r = true;
  w = true;
  total_num_pages = 2;
  total_num_paged_pages = 1;
  soft_dirty_count = 1;
  dirty = true;
}

abbrev page : ℕ → ℕ → Bool → Page
page addr pfn soft_dirty = record zero_page {
  addr_start = addr;
  pfn = pfn;
  soft_dirty = soft_dirty;
}

abbrev state : List Page → MemInfo
state pages = record {
  pid = 7;
  maps_count = 1;
  maps_max_capacity = 1;
  pages_count = 2;
  writable_pages_count = 2;
  paged_pages_count = 1;
  pages_max_capacity = 2;
  max_num_pages_in_mem_region = 2;
  maps = heap ∷ [];
  pages = pages;
  wmem = λ q. q + 4096;
}

abbrev ini : MemInfo
ini = state (page 4096 5 false ∷ page 8192 0 false ∷ [])

abbrev fin : MemInfo
fin = state (page 4096 5 true ∷ page 8192 6 true ∷ [])

abbrev ps_diff : MemDiff
ps_diff = record {
  added = state [];
  removed = state [];
  modified = ini;
  modified_protection = state [];
}

abbrev old : Bytes
old q = q

abbrev now : Bytes
now q = 99

heap-IsAligned : IsAligned ini fin heap
heap-IsAligned = record {
  captured = record {
    range = refl;
    below = omega arith;
    small = omega arith;
    paged = refl;
    page_table = omega arith;
    buffer = omega arith;
  };
  ini_addr = λ j h. elim (ℕ_discrete j 0) [
    | yes e ↦ rw e refl
    | no ne ↦ let one : j ≡ 1 = omega arith in rw one refl
  ];
  fin_addr = λ j h. elim (ℕ_discrete j 0) [
    | yes e ↦ rw e refl
    | no ne ↦ let one : j ≡ 1 = omega arith in rw one refl
  ];
}

heap-Holds : Holds ini heap 2 old ini.wmem
heap-Holds j h res k kl = elim (ℕ_discrete j 0) [
  | yes e ↦ rw e (omega arith)
  | no ne ↦
      let one : j ≡ 1 = omega arith in
      let out : false ≡ true = rw one at res in absurd (true≢false (sym out))
]

heap-AgreesIfClean : AgreesIfClean ini fin heap old now
heap-AgreesIfClean j h res fresh k kl = elim (ℕ_discrete j 0) [
  | yes e ↦ let out : true ≡ false = rw e at fresh in absurd (true≢false out)
  | no ne ↦
      let one : j ≡ 1 = omega arith in
      let out : false ≡ true = rw one at res in absurd (true≢false (sym out))
]

first : (i : ℕ) → i < 1 → i ≡ 0
first i h = omega arith

ready : IsReady ini ini fin old now
ready = record {
  nonempty = λ i h. rw (first i h) (omega arith);
  aligned = λ i h. rw (first i h) heap-IsAligned;
  holds = λ i h. rw (first i h) heap-Holds;
  clean = λ i h. rw (first i h) heap-AgreesIfClean;
  apart = λ i j hi hj ne q on. absurd (omega arith);
  few_pages = omega arith;
  page_count = omega arith;
}

-- The second page is queued, the first one written.
queue_of : Outcome (Bytes × List (ℕ × ℕ) × ℕ) → List (ℕ × ℕ) × ℕ
queue_of (returned (memory, queue, count)) = (queue, count)
queue_of _ = ([], 0)

queued_test :
    queue_of (restore_soft_dirty_memory_map whole ini fin heap now []) ≡ ((8192, 1) ∷ [], 1)
unfolding restore_soft_dirty_memory_map restores_whole restore_pages restore_page write_page
    flush_madvise queue_of
queued_test = refl

restore_soft_dirty_memory-undoes_example :
    (memory' : Bytes) × (count : ℕ) × (restore_soft_dirty_memory whole zeroing ps_diff ini fin now
      ≡ returned (memory', count))
    × ((i : ℕ) → i < 1 → is_touched (map_at ini i) ≡ true → Agrees ini (map_at ini i) old memory')
    × ((q : ℕ) → ((i : ℕ) → i < 1 → on_map ini i q ≡ false) → memory' q ≡ 99)
    × (count ≤ 2)
restore_soft_dirty_memory-undoes_example =
    restore_soft_dirty_memory-undoes whole whole-Delivers zeroing zeroing-Discards ps_diff ini fin
      old now ready

restore_map-undoes_example :
    (memory' : Bytes) × (queue : List (ℕ × ℕ)) × (count : ℕ) × (restore_soft_dirty_memory_map whole
        ini fin heap now []
      ≡ returned (memory', queue, count))
    × Undone ini fin heap old now [] memory' queue count
restore_map-undoes_example =
    restore_map-undoes ini fin heap heap-IsAligned whole whole-Delivers old now [] heap-Holds tt
      (omega arith) heap-AgreesIfClean

not_whole : restores_whole heap ≡ false
unfolding restores_whole
not_whole = refl

restore_map-repairs_example :
    (memory' : Bytes) × (queue : List (ℕ × ℕ)) × (restore_soft_dirty_memory_map whole ini fin heap
        now []
      ≡ returned (memory', queue, 1))
    × All IsSmallRun queue
    × ((q : ℕ) → memory' q ≡ repaired ini fin heap old now 2 q)
    × ((q : ℕ)
        → covers queue q ≡ (in_range 4096 2 q && is_new ini fin heap (page_at ini fin heap q)))
restore_map-repairs_example =
    restore_map-repairs ini fin heap heap-IsAligned whole whole-Delivers old now [] heap-Holds tt
      not_whole

-- The same states as they are compared: the checkpoint is clean.
abbrev clean_heap : Map
clean_heap = record heap { soft_dirty_count = 0; dirty = false }

abbrev clean_ini : MemInfo
clean_ini = record ini { maps = clean_heap ∷ [] }

abbrev counted_fin : MemInfo
counted_fin = record fin { maps = record heap { dirty = false } ∷ [] }

clean_heap-IsAligned : IsAligned clean_ini counted_fin clean_heap
clean_heap-IsAligned = record {
  captured = record {
    range = refl;
    below = omega arith;
    small = omega arith;
    paged = refl;
    page_table = omega arith;
    buffer = omega arith;
  };
  ini_addr = heap-IsAligned.ini_addr;
  fin_addr = heap-IsAligned.fin_addr;
}

ini-IsWritten : IsWritten clean_ini counted_fin old now
ini-IsWritten = record {
  outlines = record {
    count = refl;
    outlines = λ i h.
        rw (first i h)
          (record { start = refl; end = refl; r = refl; w = refl; x = refl; name = refl });
  };
  clean = λ i h. rw (first i h) (refl, refl, refl);
  nonempty = λ i h. rw (first i h) (omega arith);
  aligned = λ i h. rw (first i h) clean_heap-IsAligned;
  holds = λ i h. rw (first i h) heap-Holds;
  unchanged = λ i h. rw (first i h) heap-AgreesIfClean;
  counted = λ i h dirty freed.
      let none_dirty : 1 ≡ 0 = rw (first i h) at dirty in absurd (omega (arith, none_dirty));
  apart = λ i j hi hj ne q on. absurd (omega arith);
  few_pages = omega arith;
  page_count = omega arith;
}

restore_soft_dirty_memory-diff_process_states_example :
    (d : MemDiff) × (diff_process_states clean_ini counted_fin ≡ some (finished d))
    × (memory' : Bytes) × (count : ℕ) × (restore_soft_dirty_memory whole zeroing d clean_ini
          counted_fin now
        ≡ returned (memory', count))
    × ((i : ℕ)
        → i < 1
        → ((map_at clean_ini i).r || (map_at clean_ini i).w) ≡ true
        → Agrees clean_ini (map_at clean_ini i) old memory')
    × ((q : ℕ) → ((i : ℕ) → i < 1 → on_map clean_ini i q ≡ false) → memory' q ≡ 99)
restore_soft_dirty_memory-diff_process_states_example =
    restore_soft_dirty_memory-diff_process_states clean_ini counted_fin old now whole zeroing
      (omega arith) (omega arith) refl (omega arith) ini-IsWritten whole-Delivers zeroing-Discards
