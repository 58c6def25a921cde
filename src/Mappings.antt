-- ===== src/Mappings.antt =====
-- groundhog_origin/src/proc_cr.c: restoring the mappings of the tracee.
pub mod Space
pub mod Kept
pub mod Protection
mod Tests
use faasafe.Prelude.{
  refl, zero, suc, [], ◌∷◌, none, some, true, false, ℕ, List, Bool, Option, get_or, if◌then◌else◌,
  ◌+◌, ◌||◌, not, ◌&&◌, ◌==◌, inl, inr, arith, ◌≡◌,
}
use faasafe.Types.{Map, MemInfo, MemDiff, zero_map}
use faasafe.Word.{sub64, to_int, of_int}
use faasafe.Maps.Names.{has_prefix, get_map_index_by_name}
use faasafe.Outcome.{Outcome, returned, ◌>>=◌}
use faasafe.Inject.Calls.{Calls}

-- The bytes of "[heap]" and "[stack]".
abbrev pub heap_name : List ℕ
heap_name = b'[' ∷ b'h' ∷ b'e' ∷ b'a' ∷ b'p' ∷ b']' ∷ []

abbrev pub stack_name : List ℕ
stack_name = b'[' ∷ b's' ∷ b't' ∷ b'a' ∷ b'c' ∷ b'k' ∷ b']' ∷ []

-- The maps that the loops skip.
abbrev pub is_heap_or_stack : Map → Bool
is_heap_or_stack m = has_prefix m heap_name || has_prefix m stack_name

-- `PROT_READ` is 1, `PROT_WRITE` 2, `PROT_EXEC` 4 and `PROT_NONE` 0.
unfoldable pub prot_of : Map → ℕ
prot_of m = (if m.r then 1 else 0) + (if m.w then 2 else 0) + (if m.x then 4 else 0)

-- `MAP_FIXED`, 16, with `MAP_PRIVATE`, 2, or `MAP_SHARED`, 1.
unfoldable pub map_flags_of : Map → ℕ
map_flags_of m = 16 + (if m.p then 2 else 1)

abbrev pub size_of : Map → ℕ
size_of m = sub64 m.addr_end m.addr_start

module _ {S : Type 0} (c : Calls S) where
  -- A loop over the first `n` maps of a table, from map `i` on.
  unfoldable pub for_maps : (Map → S → Outcome S) → MemInfo → ℕ → ℕ → S → Outcome S
  for_maps body ps zero i s = returned s
  for_maps body ps (suc n) i s =
      body (get_or ps.maps i zero_map) s >>= λ s'. for_maps body ps n (i + 1) s'

  unfoldable pub remove_map : Map → S → Outcome S
  remove_map m s = if is_heap_or_stack m then returned s else c.munmap s m.addr_start (size_of m)

  unfoldable pub remove_added_memory : MemDiff → S → Outcome S
  remove_added_memory p_diff s = for_maps remove_map p_diff.added p_diff.added.maps_count 0 s

  -- The file descriptor is -1.
  unfoldable pub remap_map : Map → S → Outcome S
  remap_map m s =
      if is_heap_or_stack m
      then returned s
      else c.mmap s m.addr_start (size_of m) (prot_of m) (map_flags_of m) 4294967295

  unfoldable pub restore_removed_memory : MemDiff → S → Outcome S
  restore_removed_memory p_diff s = for_maps remap_map p_diff.removed p_diff.removed.maps_count 0 s

  unfoldable pub protect_map : Map → S → Outcome S
  protect_map m s = c.mprotect s m.addr_start (size_of m) (prot_of m)

  unfoldable pub restore_memory_protection : MemDiff → S → Outcome S
  restore_memory_protection p_diff s =
      for_maps protect_map p_diff.modified_protection p_diff.modified_protection.maps_count 0 s

  -- The map with a name. Without one the source reads before the array; the parameter is what
  -- stands there.
  abbrev pub named : Map → MemInfo → List ℕ → Bool → Map
  named before ps name start_low = elim (get_map_index_by_name ps name start_low) [
    | none ↦ before
    | some i ↦ get_or ps.maps i zero_map
  ]

  -- `restore_brk`
  unfoldable pub restore_brk : Map → Map → MemInfo → MemInfo → S → Outcome S
  restore_brk before before' checkpointed current s =
      let heap = named before checkpointed heap_name true in
      let heap' = named before' current heap_name true in
      if not (heap.addr_end == heap'.addr_end) then c.brk s heap.addr_end else returned s

  -- `zero_stack`
  unfoldable pub zero_stack : Map → Map → MemInfo → MemInfo → S → Outcome S
  zero_stack before before' checkpointed current s =
      let stack = named before checkpointed stack_name false in
      let stack' = named before' current stack_name false in
      let size_to_remove = to_int (sub64 stack.addr_start stack'.addr_start) in
      if size_to_remove == 0
      then returned s
      else c.munmap (c.reset_rlimit_stack s) stack'.addr_start (of_int size_to_remove)

  -- The part of `restore_process_sd` that restores the mappings.
  unfoldable pub restore_mappings :
      Map → Map → Map → Map → MemInfo → MemInfo → MemDiff → S → Outcome S
  restore_mappings heap heap' stack stack' checkpointed current p_diff s =
      remove_added_memory p_diff s >>= λ s1. restore_removed_memory p_diff s1 >>= λ s2.
      restore_memory_protection p_diff s2 >>= λ s3.
      restore_brk heap heap' checkpointed current s3 >>= λ s4.
      zero_stack stack stack' checkpointed current s4
