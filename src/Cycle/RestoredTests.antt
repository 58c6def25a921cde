-- ===== src/Cycle/RestoredTests.antt =====
-- A restoration of a process with one thread, a heap and a stack of one page each, which has
-- written to its heap.
use faasafe.Parse.Chunks.{maps_of_all}
use faasafe.Checkpoint.Clean.{AllClean}
use faasafe.Cycle.Reread.{IsCheckpointOf, IsTracked}
use faasafe.Parse.Entry.{Entry}
use faasafe.Parse.HeapStack.{
  heap-IsWhole, heap_chunk, heap_entry, stack-IsWhole, stack_chunk, heap-IsFresh, stack_entry,
  stack-IsFresh,
}
use faasafe.Cycle.Restored.{restore_process_sd-undoes, HasWritten, IsHost}
use faasafe.Registers.RoundTrip.{Stands}
use faasafe.Maps.Names.{same_start, get_map_index_by_name, find_high, find_low}
use faasafe.Maps.Table.{map_at, pages_before}
use faasafe.Restore.Table.{on_map}
use faasafe.Restore.Whole.{Agrees}
use faasafe.Snapshot.Pages.{Holds, IsCaptured, page_of}
use faasafe.Mappings.Kept.{SameOutline}
use faasafe.Mappings.{heap_name, stack_name}
use faasafe.Maps.{init_process_mem_info}
use faasafe.Outcome.{returned}
use faasafe.Cycle.{
  Host, Unset, init_process_mem_info, returned, Tracked, restore_process_sd, get_or,
}
use faasafe.Registers.{Contexts, Saved}
use faasafe.Registers.Laws.{Context, IsContexts, Put}
use faasafe.Inject.{Regs}
use faasafe.Prelude.{
  refl, ◌≡◌, ℕ, List, [], ◌∷◌, zero, suc, none, some, true, false, arith, Bool, ◌==◌, if◌then◌else◌,
  ◌^◌, ◌+◌, ltb, ◌++◌, ◌<◌, replicate, true≢false, ◌||◌, ap, sym, get_or, ◌/◌, ◌*◌,
}
use faasafe.Types.{
  Map, MemInfo, zero_map, Bytes, Page, zero_page, is_page_soft_dirty, page_size, is_page_freed,
}

-- The memory, and the context of the thread 7, which is stopped.
abbrev World : Type 0
World = Bytes × Context

abbrev no_regs : Regs
no_regs = record {
  rax = 0;
  orig_rax = 0;
  rdi = 0;
  rsi = 0;
  rdx = 0;
  r10 = 0;
  r8 = 0;
  r9 = 0;
  rip = 4;
  others = 0;
}

abbrev no_context : Context
no_context = record { xstate = 0; regs = no_regs; siginfo = 0; sigmask = 0 }

abbrev context_in : World → ℕ → Context
context_in s tid = if tid == 7 then s.1 else no_context

abbrev is_held : World → ℕ → Bool
is_held s tid = tid == 7

abbrev contexts : Contexts World
contexts = record {
  get_fpregs = λ s tid b. some b;
  get_xstate = λ s tid b. some (λ i. s.1.xstate);
  get_regs = λ s tid. some s.1.regs;
  get_siginfo = λ s tid. some s.1.siginfo;
  get_sigmask = λ s tid. some s.1.sigmask;
  set_fpregs = λ s tid b. some (s.0, record s.1 { xstate = 0 });
  set_xstate = λ s tid b. some (s.0, record s.1 { xstate = b 0 });
  set_regs = λ s tid r. some (s.0, record s.1 { regs = r });
  set_siginfo = λ s tid n. some (s.0, record s.1 { siginfo = n });
  set_sigmask = λ s tid n. some (s.0, record s.1 { sigmask = n });
}

context-Put :
    (s : World) (tid : ℕ) (v : Context)
    → (tid == 7) ≡ true
    → Put context_in is_held s (s.0, v) tid v
context-Put s tid v h = record {
  here = rw h refl;
  others = λ u ne. let other : (u == 7) ≡ false = ground (arith, ne, h) in rw other refl;
  held = λ u. refl;
}

abbrev context_laws : IsContexts contexts
context_laws = record {
  context = context_in;
  is_held = is_held;
  image = λ b. b 0;
  gets_fpregs = λ s tid b h. (b, refl);
  gets_xstate = λ s tid b h. (λ i. s.1.xstate, refl, rw h refl);
  gets_regs = λ s tid h. rw h refl;
  gets_siginfo = λ s tid h. rw h refl;
  gets_sigmask = λ s tid h. rw h refl;
  sets_fpregs =
      λ s tid b h. ((s.0, record s.1 { xstate = 0 }), 0, refl, rw h (context-Put s tid _ h));
  sets_xstate =
      λ s tid b h. ((s.0, record s.1 { xstate = b 0 }), refl, rw h (context-Put s tid _ h));
  sets_regs = λ s tid r h. ((s.0, record s.1 { regs = r }), refl, rw h (context-Put s tid _ h));
  sets_siginfo =
      λ s tid n h. ((s.0, record s.1 { siginfo = n }), refl, rw h (context-Put s tid _ h));
  sets_sigmask =
      λ s tid n h. ((s.0, record s.1 { sigmask = n }), refl, rw h (context-Put s tid _ h));
}

abbrev host : Host World
host = record {
  kernel = record {
    tasks = λ s pid. none;
    seize = λ s tid. none;
    interrupt = λ s tid. none;
    wait4 = λ s tid. (s, 0, 0);
    detach = λ s tid. none;
    cont = λ s tid. none;
  };
  contexts = contexts;
  calls = record {
    brk = λ s a. returned s;
    mprotect = λ s a n p. returned s;
    mmap = λ s a n p f d. returned s;
    munmap = λ s a n. returned s;
    reset_rlimit_stack = λ s. s;
  };
  madvise = λ m a n. returned m;
  maps_text = λ s. heap_chunk ∷ stack_chunk ∷ [];
  pagemap = λ s. record {
    pread_count = λ off n. some n;
    entry = λ i. if i == 1 then 2 ^ 63 + 2 ^ 55 + 9 else 2 ^ 63 + 9;
    unread = λ i. 0;
  };
  mem_file = record { pread_count = λ m a n. some n; pwrite_count = λ m a n. some n };
  memory = λ s. s.0;
  with_memory = λ s m. (m, s.1);
  clear_refs = λ s. s;
  stack_limit = λ s. (8388608, 8388608);
  dumped = λ s. init_process_mem_info 5;
}

abbrev no_saved : Saved
no_saved = record { txsave = λ i. 3; tregs = no_regs; si = 0; tmask = 0 }

abbrev unset : Unset
unset = record {
  buffer = λ i. 7;
  saved = no_saved;
  heap = zero_map;
  heap' = zero_map;
  stack = zero_map;
  stack' = zero_map;
}

abbrev now : World
now = (λ q. 99, no_context)

-- What is read of the process.
abbrev heap : Map
heap = record zero_map {
  addr_start = 4096;
  addr_end = 8192;
  r = true;
  w = true;
  p = true;
  total_num_pages = 1;
  name = heap_name;
}

abbrev stack : Map
stack = record heap {
  addr_start = 20480;
  addr_end = 24576;
  name = stack_name;
  first_wmem_index = 1;
  first_page_index = 1;
}

abbrev state : List Map → MemInfo
state maps = record {
  pid = 5;
  maps_count = 2;
  maps_max_capacity = 100;
  pages_count = 0;
  writable_pages_count = 2;
  paged_pages_count = 0;
  pages_max_capacity = 2;
  max_num_pages_in_mem_region = 1;
  maps = maps ++ replicate 98 zero_map;
  pages = [];
  wmem = λ q. 0;
}

abbrev read_page : ℕ → ℕ → ℕ → Bool → Page
read_page index addr bits soft_dirty = record zero_page {
  addr_start = addr;
  page_bits = bits;
  pfn = 9;
  present = true;
  soft_dirty = soft_dirty;
  map_index = index;
}

abbrev populated : Map → Map
populated m = record m { total_num_paged_pages = 1; populated_num_pages = 1 }

-- The checkpoint, when each byte of the heap was 11 and of the stack 99.
abbrev old : Bytes
old q = if ltb q 8192 then 11 else 99

abbrev ini : MemInfo
ini = record (state (populated heap ∷ populated stack ∷ [])) {
  pages_count = 2;
  paged_pages_count = 2;
  pages =
      read_page 0 4096 9223372036854775817 false ∷ read_page 1 20480 9223372036854775817 false ∷ [];
  wmem = λ q. if ltb q 4096 then 11 else 99;
}

-- A statement on both of the maps.
two : (P : ℕ → Type 0) → P 0 → P 1 → (i : ℕ) → i < 2 → P i
two P a b zero lt = a
two P a b (suc zero) lt = b
two P a b (suc (suc i)) lt = absurd (omega arith)

one_page : (j : ℕ) → j < 1 → j ≡ 0
one_page j lt = omega arith

ini-IsCaptured : (i : ℕ) → i < 2 → IsCaptured ini (map_at ini i)
ini-IsCaptured =
    two (λ i. IsCaptured ini (map_at ini i))
      (record {
        range = refl;
        below = omega arith;
        small = omega arith;
        paged = refl;
        page_table = omega arith;
        buffer = omega arith;
      })
      (record {
        range = refl;
        below = omega arith;
        small = omega arith;
        paged = refl;
        page_table = omega arith;
        buffer = omega arith;
      })

ini-Holds : (i : ℕ) → i < 2 → Holds ini (map_at ini i) (map_at ini i).total_num_pages old ini.wmem
ini-Holds =
    two (λ i. Holds ini (map_at ini i) (map_at ini i).total_num_pages old ini.wmem)
      (λ j lt res k kl. rw (one_page j lt) (ground arith))
      (λ j lt res k kl. rw (one_page j lt) (ground arith))

apart_at :
    (i : ℕ)
    → i < 2
    → (j : ℕ) → j < 2
    → ¬ (i ≡ j)
    → (q : ℕ) → on_map ini i q ≡ true
    → on_map ini j q ≡ false
apart_at =
    two
      (λ i. (j : ℕ) → j < 2 → ¬ (i ≡ j) → (q : ℕ) → on_map ini i q ≡ true → on_map ini j q ≡ false)
      (two (λ j. ¬ (0 ≡ j) → (q : ℕ) → on_map ini 0 q ≡ true → on_map ini j q ≡ false)
        (λ ne q on. absurd (ne refl)) (λ ne q on. ground (arith, on)))
      (two (λ j. ¬ (1 ≡ j) → (q : ℕ) → on_map ini 1 q ≡ true → on_map ini j q ≡ false)
        (λ ne q on. ground (arith, on)) (λ ne q on. absurd (ne refl)))

abbrev entries : List (List Entry)
entries = (heap_entry ∷ []) ∷ (stack_entry ∷ []) ∷ []

ini-IsCheckpointOf : IsCheckpointOf entries old ini
ini-IsCheckpointOf = record {
  number = refl;
  outlines =
      two (λ i. SameOutline (map_at ini i) (get_or (maps_of_all entries) i zero_map))
        (record { start = refl; end = refl; r = refl; w = refl; x = refl; name = refl })
        (record { start = refl; end = refl; r = refl; w = refl; x = refl; name = refl });
  index = two (λ i. (map_at ini i).first_page_index ≡ pages_before ini i) refl refl;
  table = record {
    sized = refl;
    within = omega arith;
    nonempty = omega arith;
    small = omega arith;
  };
  clean =
      two
        (λ i.
          ((map_at ini i).soft_dirty_count ≡ 0)
          × ((map_at ini i).freed_count ≡ 0)
          × ((map_at ini i).dirty ≡ false))
        (refl, refl, refl) (refl, refl, refl);
  nonempty = two (λ i. 0 < (map_at ini i).total_num_pages) (omega arith) (omega arith);
  captured = ini-IsCaptured;
  addresses =
      two
        (λ i.
          (j : ℕ)
          → j < (map_at ini i).total_num_pages
          → (page_of ini (map_at ini i) j).addr_start ≡ (map_at ini i).addr_start + j * page_size)
        (λ j lt. rw (one_page j lt) refl) (λ j lt. rw (one_page j lt) refl);
  holds = ini-Holds;
  apart = λ i j lt lt'. apart_at i lt j lt';
  few_pages = omega arith;
  page_count = omega arith;
}

-- The entry of the heap is soft-dirty; the stack has not changed.
now-IsTracked : IsTracked (host.pagemap now) ini old now.0
now-IsTracked =
    two
      (λ i.
        (j : ℕ)
        → j < (map_at ini i).total_num_pages
        → is_page_soft_dirty ((host.pagemap now).entry ((map_at ini i).addr_start / page_size + j))
          ≡ false
        → is_page_freed ((host.pagemap now).entry ((map_at ini i).addr_start / page_size + j))
          ≡ false
        → (k : ℕ) → k < page_size
        → now.0 ((map_at ini i).addr_start + j * page_size + k)
          ≡ old ((map_at ini i).addr_start + j * page_size + k))
      (λ j lt clean kept k kl.
        let out : true ≡ false = rw (one_page j lt) at clean in absurd (true≢false out))
      (λ j lt clean kept k kl. rw (one_page j lt) (ground arith))

abbrev tracked : Tracked
tracked = record {
  pid = 5;
  threads = record { tids = 7 ∷ replicate 1023 0; tid_count = 1 };
  saved = no_saved ∷ [];
  rlim = (0, 0);
  p_checkpointed_state = some ini;
  p_curr_state = none;
  num_checkpoints = 1;
}

finds_heap : get_map_index_by_name ini heap_name true ≡ some 0
unfolding get_map_index_by_name find_low same_start
finds_heap = refl

finds_stack : get_map_index_by_name ini stack_name false ≡ some 1
unfolding get_map_index_by_name find_high same_start
finds_stack = refl

host-IsHost : IsHost host context_laws
host-IsHost = record {
  delivers = record {
    pread_some = λ m a n h. (n, refl, h, omega arith);
    pwrite_some = λ m a n h. (n, refl, h, omega arith);
    pread_page = λ m a. refl;
    pwrite_page = λ m a. refl;
  };
  discards = record { outside = λ m start len. (m, refl, λ q h. refl) };
  keeps = record {
    fpregs = λ s s' tid b e.
        let same : (s.0, record s.1 { xstate = 0 }) ≡ s' = cc in ap (λ (x : World). x.0) (sym same);
    xstate = λ s s' tid b e.
        let same : (s.0, record s.1 { xstate = b 0 }) ≡ s' = cc in
        ap (λ (x : World). x.0) (sym same);
    regs = λ s s' tid r e.
        let same : (s.0, record s.1 { regs = r }) ≡ s' = cc in ap (λ (x : World). x.0) (sym same);
    siginfo = λ s s' tid n e.
        let same : (s.0, record s.1 { siginfo = n }) ≡ s' = cc in
        ap (λ (x : World). x.0) (sym same);
    sigmask = λ s s' tid n e.
        let same : (s.0, record s.1 { sigmask = n }) ≡ s' = cc in
        ap (λ (x : World). x.0) (sym same);
  };
  writes = λ s m. refl;
  writes_held = λ s m tid. refl;
  clears = λ s. refl;
  clears_held = λ s tid. refl;
}

now-HasWritten : HasWritten host context_laws unset entries ini old tracked now
now-HasWritten = record {
  base = ini-IsCheckpointOf;
  same_pid = refl;
  few = omega arith;
  heap_index = 0;
  has_heap = finds_heap;
  stack_index = 1;
  has_stack = finds_stack;
  text = record {
    whole = (heap-IsWhole, (stack-IsWhole, tt));
    fresh = (heap-IsFresh, (stack-IsFresh, tt));
    room = omega arith;
    small = omega arith;
  };
  delivers_all = record { all = λ off n. refl };
  tracked = now-IsTracked;
  distinct = λ a b la lta lb ltb ne. absurd (omega (arith, ne));
  held = λ a le lt live. let only : a ≡ 0 = omega arith in rw only refl;
}

restore_process_sd-undoes_example :
    (t' : Tracked) × (s' : World) × (ps : MemInfo) × (restore_process_sd host unset ini tracked now
      ≡ returned (t', s'))
    × ((i : ℕ)
        → i < 2
        → ((map_at ini i).r || (map_at ini i).w) ≡ true
        → Agrees ini (map_at ini i) old s'.0)
    × ((q : ℕ) → ((i : ℕ) → i < 2 → on_map ini i q ≡ false) → s'.0 q ≡ 99)
    × Stands contexts context_laws no_saved 0 1 tracked.threads tracked.saved s'
    × (t'.p_checkpointed_state ≡ some ps)
    × AllClean ps
    × (ps.pages ≡ ini.pages)
    × (ps.wmem ≡ ini.wmem)
restore_process_sd-undoes_example =
    restore_process_sd-undoes host context_laws unset host-IsHost entries ini old tracked now
      now-HasWritten
