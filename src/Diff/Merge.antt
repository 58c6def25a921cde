-- ===== src/Diff/Merge.antt =====
-- What the comparison of two lists of maps means: the lists are merged into events, each of which
-- says what is recorded. This is the specification of `diff_process_maps`.
use faasafe.Prelude.{true, false, List, [], ◌∷◌, ◌++◌}
use faasafe.Types.{Map, MemDiff, zero_map}
use faasafe.Diff.{
  State, modified, modified_protection, added_and_removed, added, removed, classify, record_case,
  reset_map_metadata, all_dirty, with_counts_of, with_soft_dirty_of,
}

-- Two maps compared with each other, a map that is only in the checkpoint, one that is only in the
-- current state.
pub data Event : Type 0 where
  pair : State → Map → Map → Event
  gone fresh : Map → Event

unfoldable pub merge : List Map → List Map → List Event
merge [] [] = []
merge [] (b ∷ bs) = fresh b ∷ merge [] bs
merge (a ∷ as_) [] = gone a ∷ merge as_ []
merge (a ∷ as_) (b ∷ bs) = elim (classify a b).1 [
  | false ↦ fresh b ∷ merge (a ∷ as_) bs
  | true ↦ elim (classify a b).2 [
    | true ↦ pair (classify a b).0 a b ∷ merge as_ bs
    | false ↦ gone a ∷ merge as_ (b ∷ bs)
  ]
]

-- What one event adds to the four lists of the difference.
abbrev pub added_of : Event → List Map
added_of (fresh b) = reset_map_metadata b ∷ []
added_of (pair added_and_removed a b) = reset_map_metadata b ∷ []
added_of (pair added a b) = reset_map_metadata b ∷ []
added_of _ = []

abbrev pub removed_of : Event → List Map
removed_of (gone a) = reset_map_metadata (all_dirty a) ∷ []
removed_of (pair added_and_removed a b) = reset_map_metadata (all_dirty a) ∷ []
removed_of (pair removed a b) = reset_map_metadata (all_dirty a) ∷ []
removed_of _ = []

abbrev pub modified_of : Event → List Map
modified_of (gone a) = all_dirty a ∷ []
modified_of (pair modified a b) = with_counts_of b a ∷ []
modified_of (pair modified_protection a b) = with_soft_dirty_of b a ∷ []
modified_of (pair added_and_removed a b) = all_dirty a ∷ []
modified_of (pair removed a b) = all_dirty a ∷ []
modified_of _ = []

abbrev pub modified_protection_of : Event → List Map
modified_protection_of (pair modified_protection a b) = with_soft_dirty_of b a ∷ []
modified_protection_of _ = []

abbrev pub collect : (Event → List Map) → List Event → List Map
collect f [] = []
collect f (e ∷ es) = f e ++ collect f es

-- The events replayed on the tables of the difference.
abbrev pub replay_event : Event → MemDiff → MemDiff
replay_event (pair code a b) d = record_case code a b d
replay_event (gone a) d = record_case removed a zero_map d
replay_event (fresh b) d = record_case added zero_map b d

unfoldable pub replay : List Event → MemDiff → MemDiff
replay [] d = d
replay (e ∷ es) d = replay es (replay_event e d)
