-- ===== src/Mappings/Tests.antt =====
-- Undoing an added and a removed map.
use faasafe.Mappings.Protection.{
  IsMapped, CanProtect, after_protection, restore_memory_protection-protects, set_protection,
}
use faasafe.Diff.{diff_process_states, finished}
use faasafe.Maps.Names.{get_map_index_by_name, find_high, find_low, same_start}
use faasafe.Mappings.Kept.{SameOutline, SameOutlines, restore_mappings-kept}
use faasafe.Prelude.{
  refl, [], ◌∷◌, none, some, true, arith, ◌≡◌, ℕ, List, Option, if◌then◌else◌, ◌<◌, false,
  ℕ_discrete, Bool, ◌/◌, ◌%◌, ◌==◌,
}
use faasafe.Types.{Map, MemInfo, MemDiff, zero_map}
use faasafe.Outcome.{returned}
use faasafe.Maps.Table.{map_at}
use faasafe.Inject.Calls.{Calls}
use faasafe.Mappings.{
  remove_added_memory, restore_removed_memory, size_of, get_map_index_by_name, heap_name,
  stack_name, restore_mappings, restore_memory_protection,
}
use faasafe.Mappings.Space.{
  HasSpace, IsRange, inside, after_maps, any_works_on, remove_added_memory-unmaps,
  restore_removed_memory-remaps, Mapping, mapping_of, protected,
}

-- An address space, as the mappings of the addresses.
abbrev Space : Type 0
Space = ℕ → Option Mapping

abbrev no_rights : Bool → Mapping
no_rights private = record { read = false; write = false; exec = false; private = private }

abbrev calls : Calls Space
calls = record {
  brk = λ s end. returned s;
  mprotect = λ s start size prot.
      returned (λ q. if inside start size q then set_protection prot (s q) else s q);
  mmap = λ s start size prot flags fd. returned (λ q.
      if inside start size q then some (protected prot (no_rights (flags / 2 % 2 == 1))) else s q);
  munmap = λ s start size. returned (λ q. if inside start size q then none else s q);
  reset_rlimit_stack = λ s. s;
}

calls-HasSpace : HasSpace calls
calls-HasSpace = record {
  mapping_at = λ s q. s q;
  unmaps = λ s start size h. (λ q. if inside start size q then none else s q, refl, λ q. refl);
  maps = λ s start size prot flags private h fixed. (
    λ q.
        if inside start size q then some (protected prot (no_rights (flags / 2 % 2 == 1))) else s q,
    refl,
    λ q. rw (fixed.2) refl,
  );
}

abbrev lib : Map
lib = record zero_map {
  addr_start = 4096;
  addr_end = 12288;
  r = true;
  x = true;
  p = true;
  total_num_pages = 2;
}

abbrev table : ℕ → List Map → MemInfo
table count maps = record {
  pid = 7;
  maps_count = count;
  maps_max_capacity = 1;
  pages_count = 0;
  writable_pages_count = 0;
  paged_pages_count = 0;
  pages_max_capacity = 0;
  max_num_pages_in_mem_region = 0;
  maps = maps;
  pages = [];
  wmem = λ q. 0;
}

abbrev p_diff : MemDiff
p_diff = record {
  added = table 1 (lib ∷ []);
  removed = table 1 (lib ∷ []);
  modified = table 0 [];
  modified_protection = table 0 [];
}

ranges :
    (i : ℕ) → i < 1 → IsRange (map_at p_diff.added i).addr_start (size_of (map_at p_diff.added i))
ranges i h = let e : i ≡ 0 = omega arith in rw e (refl, omega arith, omega arith)

empty_space : Space
empty_space q = none

remove_added_memory-unmaps_example :
    (s' : Space) × (remove_added_memory calls p_diff empty_space ≡ returned s')
    × ((q : ℕ) → s' q ≡ (if any_works_on p_diff.added 1 0 q then none else empty_space q))
unfolding calls-HasSpace
remove_added_memory-unmaps_example =
    remove_added_memory-unmaps calls calls-HasSpace p_diff empty_space ranges

restore_removed_memory-remaps_example :
    (s' : Space) × (restore_removed_memory calls p_diff empty_space ≡ returned s')
    × ((q : ℕ) → s' q ≡ after_maps (λ m. some (mapping_of m)) p_diff.removed 1 0 q (empty_space q))
unfolding calls-HasSpace
restore_removed_memory-remaps_example =
    restore_removed_memory-remaps calls calls-HasSpace p_diff empty_space ranges

-- A process with a heap, a library and a stack, which then writes to its heap.
abbrev heap_map : Map
heap_map = record zero_map {
  addr_start = 16384;
  addr_end = 20480;
  r = true;
  w = true;
  p = true;
  total_num_pages = 1;
  name = heap_name;
}

abbrev stack_map : Map
stack_map = record heap_map { addr_start = 40960; addr_end = 45056; name = stack_name }

abbrev before_write : MemInfo
before_write = record (table 3 (heap_map ∷ lib ∷ stack_map ∷ [])) { maps_max_capacity = 3 }

abbrev after_write : MemInfo
after_write = record (table 3 (record heap_map { soft_dirty_count = 1 } ∷ lib ∷ stack_map ∷ [])) {
  maps_max_capacity = 3;
}

same_outline : (m : Map) → SameOutline m m
same_outline m = record { start = refl; end = refl; r = refl; w = refl; x = refl; name = refl }

write-SameOutlines : SameOutlines before_write after_write
write-SameOutlines = record {
  count = refl;
  outlines = λ i lt. elim (ℕ_discrete i 0) [
    | yes e ↦ rw e (record { start = refl; end = refl; r = refl; w = refl; x = refl; name = refl })
    | no ne ↦ elim (ℕ_discrete i 1) [
      | yes e ↦ rw e (same_outline lib)
      | no ne' ↦ let last : i ≡ 2 = omega arith in rw last (same_outline stack_map)
    ]
  ];
}

finds_heap : get_map_index_by_name before_write heap_name true ≡ some 0
unfolding get_map_index_by_name find_low same_start
finds_heap = refl

finds_stack : get_map_index_by_name before_write stack_name false ≡ some 2
unfolding get_map_index_by_name find_high same_start
finds_stack = refl

restore_mappings-kept_example :
    (d : MemDiff) × (diff_process_states before_write after_write ≡ some (finished d))
    × ((s : Space)
        → restore_mappings calls zero_map lib zero_map lib before_write after_write d s
          ≡ returned s)
restore_mappings-kept_example =
    restore_mappings-kept before_write after_write (omega arith) (omega arith) write-SameOutlines
      calls zero_map lib zero_map lib 0 2 refl (omega arith) finds_heap finds_stack

calls-CanProtect : CanProtect calls calls-HasSpace
unfolding calls-HasSpace
calls-CanProtect = record {
  protects = λ s start size prot range mapped.
      (λ q. if inside start size q then set_protection prot (s q) else s q, refl, λ q. refl);
}

-- The library has been made writable.
abbrev writable_diff : MemDiff
writable_diff = record p_diff { modified_protection = table 1 (lib ∷ []) }

abbrev writable_space : Space
writable_space q = some (record { read = true; write = true; exec = false; private = true })

lib-IsMapped :
    (i : ℕ)
    → i < 1
    → IsMapped calls calls-HasSpace writable_space
        (map_at writable_diff.modified_protection i).addr_start
        (size_of (map_at writable_diff.modified_protection i))
unfolding calls-HasSpace
lib-IsMapped i h q here = (record { read = true; write = true; exec = false; private = true }, refl)

restore_memory_protection-protects_example :
    (s' : Space) × (restore_memory_protection calls writable_diff writable_space ≡ returned s')
    × ((q : ℕ)
        → calls-HasSpace.mapping_at s' q
          ≡ after_protection calls calls-HasSpace writable_diff.modified_protection 1 0 q
              (calls-HasSpace.mapping_at writable_space q))
restore_memory_protection-protects_example =
    restore_memory_protection-protects calls calls-HasSpace calls-CanProtect writable_diff
      writable_space ranges lib-IsMapped
