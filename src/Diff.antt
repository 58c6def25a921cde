-- ===== src/Diff.antt =====
-- groundhog_origin/src/mem_diff.c and proc_cr.c: the comparison of two lists of memory maps.
pub mod Merge
pub mod Cover
pub mod Loop
pub mod Same
pub mod Tables
mod Tests
use faasafe.Prelude.{
  ℕ, zero, suc, ◌+◌, Bool, true, false, not, ◌&&◌, ◌||◌, Option, none, some, ltb, leb, ◌==◌, eqb,
  if◌then◌else◌, get_or, ◌-◌, refl, [], ◌∷◌, inl, inr, arith, ◌≡◌, List,
}
use faasafe.Word.{u64_mod, add64, sub64}
use faasafe.Types.{Map, MemInfo, MemDiff, zero_map, name_size}
use faasafe.Maps.{init_process_mem_info, add_to_maps}
use faasafe.Maps.Names.{same_start}

-- `enum state`
pub data State : Type 0 where
  identical modified modified_protection added_and_removed added removed done : State

-- `map_regions_cmp`, read as a truth value: true where the C function returns 0.
unfoldable pub same_region : Map → Map → Bool
same_region r1 r2 =
    r1.addr_start == r2.addr_start
    && r1.addr_end == r2.addr_end
    && (eqb r1.r r2.r && eqb r1.w r2.w)
    && (eqb r1.x r2.x && eqb r1.p r2.p)
    && r1.offset == r2.offset
    && r1.dev_major == r2.dev_major
    && r1.dev_minor == r2.dev_minor
    && r1.inode == r2.inode
    && r1.total_num_pages == r2.total_num_pages
    && eqb r1.dirty r2.dirty
    && eqb r1.dirty r2.dirty
    && r1.soft_dirty_count == r2.soft_dirty_count
    && r1.freed_count == r2.freed_count
    && same_start name_size r1.name r2.name

-- The cases of `diff_process_maps_iterator` that compare the two maps at the indices. The pair
-- says which indices move.
unfoldable pub classify : Map → Map → State × Bool × Bool
classify a b =
    if same_region a b
    then (identical, true, true)
    else if a.addr_start == b.addr_start && a.addr_end == b.addr_end
    then (if not (eqb a.r b.r) || (not (eqb a.w b.w) || not (eqb a.x b.x))
        then (modified_protection, true, true)
        else (modified, true, true))
    else if a.addr_start == b.addr_start || a.addr_end == b.addr_end
    then (added_and_removed, true, true)
    else if ltb a.addr_start b.addr_start
    then (removed, true, false)
    else (added, false, true)

abbrev pub bump : Bool → ℕ → ℕ
bump moves i = if moves then add64 i 1 else i

-- `diff_process_maps_iterator`: the code and the two indices that it leaves.
unfoldable pub diff_process_maps_iterator : ℕ → ℕ → MemInfo → MemInfo → State × ℕ × ℕ
diff_process_maps_iterator i j initial_state final_state =
    if i == initial_state.maps_count && j == final_state.maps_count
    then (done, i, j)
    else if leb initial_state.maps_count i
    then (added, i, add64 j 1)
    else if leb final_state.maps_count j
    then (removed, add64 i 1, j)
    else let (code, moves_i, moves_j) =
        classify (get_or initial_state.maps i zero_map) (get_or final_state.maps j zero_map) in
      (code, bump moves_i i, bump moves_j j)

-- `reset_map_metadata`
unfoldable pub reset_map_metadata : Map → Map
reset_map_metadata map = record map {
  first_page_index = u64_mod - 1;
  total_num_pages = 0;
  populated_num_pages = 0;
  soft_dirty_count = 0;
  has_freed = false;
  soft_dirty_paged_count = 0;
  uffd_dirty_count = 0;
}

-- The checkpointed map marked as wholly dirty, which restores all of its pages.
unfoldable pub all_dirty : Map → Map
all_dirty map = record map {
  dirty = true;
  uffd_dirty_count = map.total_num_pages;
  soft_dirty_count = map.total_num_pages;
}

-- The checkpointed map `a` with the dirty counts of its current counterpart `b`.
unfoldable pub with_counts_of : Map → Map → Map
with_counts_of b a = record a {
  dirty = true;
  soft_dirty_count = b.soft_dirty_count;
  freed_count = b.freed_count;
}

unfoldable pub with_soft_dirty_of : Map → Map → Map
with_soft_dirty_of b a = record a { dirty = true; soft_dirty_count = b.soft_dirty_count }

-- The `switch` of `diff_process_maps`; `a` and `b` are the maps below the two indices.
unfoldable pub record_case : State → Map → Map → MemDiff → MemDiff
record_case modified a b d = record d { modified = add_to_maps d.modified (with_counts_of b a) }
record_case modified_protection a b d = record d {
  modified_protection = add_to_maps d.modified_protection (with_soft_dirty_of b a);
  modified = add_to_maps d.modified (with_soft_dirty_of b a);
}
record_case added_and_removed a b d = record d {
  added = add_to_maps d.added (reset_map_metadata b);
  modified = add_to_maps d.modified (all_dirty a);
  removed = add_to_maps d.removed (reset_map_metadata (all_dirty a));
}
record_case added a b d = record d { added = add_to_maps d.added (reset_map_metadata b) }
record_case removed a b d = record d {
  modified = add_to_maps d.modified (all_dirty a);
  removed = add_to_maps d.removed (reset_map_metadata (all_dirty a));
}
record_case identical a b d = d
record_case done a b d = d

-- How `diff_process_maps` ends: by its result, by `exit(-1)`, or not within the fuel.
pub data Ending : Type 0 where
  finished : MemDiff → Ending
  exited : Ending
  out_of_fuel : Ending

-- `r != DONE`
abbrev pub is_done : State → Bool
is_done done = true
is_done _ = false

-- The `do … while (r != DONE)` loop of `diff_process_maps`.
unfoldable pub diff_loop : ℕ → ℕ → ℕ → MemInfo → MemInfo → MemDiff → Ending
diff_loop zero i j initial_state final_state d = out_of_fuel
diff_loop (suc fuel) i j initial_state final_state d =
    let (r, i', j') = diff_process_maps_iterator i j initial_state final_state in
    let a = get_or initial_state.maps (sub64 i' 1) zero_map in
    let b = get_or final_state.maps (sub64 j' 1) zero_map in
    let again = diff_loop fuel i' j' initial_state final_state (record_case r a b d) in
    if ltb initial_state.maps_count i' || ltb final_state.maps_count j'
    then exited
    else if is_done r
    then finished (record_case r a b d)
    else again

-- `diff_process_maps`, with the four tables that it starts from.
abbrev pub empty_diff : ℕ → MemDiff
empty_diff pid = record {
  added = init_process_mem_info pid;
  removed = init_process_mem_info pid;
  modified = init_process_mem_info pid;
  modified_protection = init_process_mem_info pid;
}

unfoldable pub diff_process_maps : MemInfo → MemInfo → Ending
diff_process_maps initial_state final_state =
    diff_loop (initial_state.maps_count + final_state.maps_count + 1) 0 0 initial_state final_state
      (empty_diff initial_state.pid)

-- `diff_process_states`; `none` is the failed assertion on the process ids.
unfoldable pub diff_process_states : MemInfo → MemInfo → Option Ending
diff_process_states initial_state final_state =
    if initial_state.pid == final_state.pid
    then some (diff_process_maps initial_state final_state)
    else none
