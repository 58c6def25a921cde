-- ===== src/Diff/Cover.antt =====
-- The difference misses nothing: every map of either state is unchanged or recorded.
use faasafe.Diff.Tables.{finished-Result}
use faasafe.Maps.Table.{IsTable, max_maps}
use faasafe.Prelude.{
  List, ◌≡◌, In, true, ◌++◌, inl, ◌∷◌, ◌⊎◌, In-append_right, arith, inr, refl, [], Bool-cases, ◌+◌,
  ◌<◌,
}
use faasafe.Types.{Map, MemInfo, MemDiff}
use faasafe.Maps.{live}
use faasafe.Diff.{
  identical, modified, modified_protection, added_and_removed, classify, same_region, finished,
  diff_process_maps, reset_map_metadata, all_dirty, true, with_counts_of, with_soft_dirty_of,
  MemDiff,
}
use faasafe.Diff.Merge.{pair, merge, collect, added_of, modified_of}

-- `m` is `a` marked dirty: what the restoration reads of it is what was checkpointed of `a`.
pub record Marks (a m : Map) : Type 0 where
  pub start : m.addr_start ≡ a.addr_start
  pub end : m.addr_end ≡ a.addr_end
  pub readable : m.r ≡ a.r
  pub writable : m.w ≡ a.w
  pub pages : m.total_num_pages ≡ a.total_num_pages
  pub paged : m.total_num_paged_pages ≡ a.total_num_paged_pages
  pub page_index : m.first_page_index ≡ a.first_page_index
  pub wmem_index : m.first_wmem_index ≡ a.first_wmem_index
  pub is_dirty : m.dirty ≡ true

-- A map of the checkpoint is unchanged in `bs`, or its marked copy is in `ms`.
abbrev pub Kept : Map → List Map → List Map → Type 0
Kept a bs ms = ((b : Map) × In b bs × (same_region a b ≡ true)) ⊎ ((m : Map) × In m ms × Marks a m)

Kept-more : (a : Map) (bs bs' ms ms' : List Map) → Kept a bs ms → Kept a (bs' ++ bs) (ms' ++ ms)
Kept-more a bs bs' ms ms' (inl (b, i, e)) = inl (b, In-append_right b bs' bs i, e)
Kept-more a bs bs' ms ms' (inr (m, i, e)) = inr (m, In-append_right m ms' ms i, e)

-- What the code says of two maps that are compared and both passed.
classify_pair :
    (a b : Map)
    → (classify a b).1 ≡ true
    → (classify a b).2 ≡ true
    → (((classify a b).0 ≡ identical) × (same_region a b ≡ true))
      ⊎ ((classify a b).0 ≡ modified)
      ⊎ ((classify a b).0 ≡ modified_protection)
      ⊎ ((classify a b).0 ≡ added_and_removed)
unfolding classify
classify_pair a b h k = ground arith

marks : (a m : Map) (ms bs : List Map) → Marks a m → Kept a bs (m ∷ ms)
marks a m ms bs h = inr (m, inl refl, h)

Kept-pair :
    (a b : Map) (bs ms : List Map)
    → (classify a b).1 ≡ true
    → (classify a b).2 ≡ true
    → Kept a (b ∷ bs) (modified_of (pair (classify a b).0 a b) ++ ms)
unfolding all_dirty with_counts_of with_soft_dirty_of
Kept-pair a b bs ms h k = elim (classify_pair a b h k) [
  | inl (e, same) ↦ inl (b, inl refl, same)
  | inr (inl e) ↦ rw e (marks a _ ms (b ∷ bs) (ground arith))
  | inr (inr (inl e)) ↦ rw e (marks a _ ms (b ∷ bs) (ground arith))
  | inr (inr (inr e)) ↦ rw e (marks a _ ms (b ∷ bs) (ground arith))
]

Kept-gone : (a : Map) (bs ms : List Map) → Kept a bs (all_dirty a ∷ ms)
unfolding all_dirty
Kept-gone a bs ms = marks a _ ms bs (ground arith)

merge-Kept :
    (a : Map) (as_ bs : List Map) → In a as_ → Kept a bs (collect modified_of (merge as_ bs))
unfolding merge
merge-Kept a [] bs h = absurd h
merge-Kept a (x ∷ as_) [] (inl e) = rw e (Kept-gone x [] _)
merge-Kept a (x ∷ as_) [] (inr h) = Kept-more a [] [] _ (all_dirty x ∷ []) (merge-Kept a as_ [] h)
merge-Kept a (x ∷ as_) (b ∷ bs) h = elim (Bool-cases (classify x b).1) [
  | inl m ↦ elim (Bool-cases (classify x b).2) [
    | inl n ↦
        rw (m, n, merge)
          (elim h [
            | inl e ↦ rw e (Kept-pair x b bs _ m n)
            | inr i ↦
                Kept-more a bs (b ∷ []) _ (modified_of (pair (classify x b).0 x b))
                  (merge-Kept a as_ bs i)
          ])
    | inr n ↦
        rw (m, n, merge)
          (elim h [
            | inl e ↦ rw e (Kept-gone x (b ∷ bs) _)
            | inr i ↦ Kept-more a (b ∷ bs) [] _ (all_dirty x ∷ []) (merge-Kept a as_ (b ∷ bs) i)
          ])
  ]
  | inr m ↦ rw (m, merge) (Kept-more a bs (b ∷ []) _ [] (merge-Kept a (x ∷ as_) bs h))
]

-- A map of the current state has the range of a checkpointed one, or it
-- is recorded as added.
abbrev pub Accounted : Map → List Map → List Map → Type 0
Accounted b as_ added_maps =
    ((a : Map) × In a as_ × (a.addr_start ≡ b.addr_start) × (a.addr_end ≡ b.addr_end))
    ⊎ In (reset_map_metadata b) added_maps

Accounted-more :
    (b : Map) (as_ as' ms ms' : List Map)
    → Accounted b as_ ms
    → Accounted b (as' ++ as_) (ms' ++ ms)
Accounted-more b as_ as' ms ms' (inl (a, i, e, e')) = inl (a, In-append_right a as' as_ i, e, e')
Accounted-more b as_ as' ms ms' (inr i) = inr (In-append_right (reset_map_metadata b) ms' ms i)

-- Two maps that are compared and both passed have the same range, or the code is
-- `ADDED_AND_REMOVED`.
same_range :
    (a b : Map)
    → (classify a b).1 ≡ true
    → (classify a b).2 ≡ true
    → ((a.addr_start ≡ b.addr_start) × (a.addr_end ≡ b.addr_end))
      ⊎ ((classify a b).0 ≡ added_and_removed)
unfolding classify same_region
same_range a b h k = ground arith

Accounted-pair :
    (a b : Map) (as_ ms : List Map)
    → (classify a b).1 ≡ true
    → (classify a b).2 ≡ true
    → Accounted b (a ∷ as_) (added_of (pair (classify a b).0 a b) ++ ms)
Accounted-pair a b as_ ms h k = elim (same_range a b h k) [
  | inl (e, e') ↦ inl (a, inl refl, e, e')
  | inr e ↦ rw e (inr (inl refl))
]

merge-Accounted :
    (b : Map) (as_ bs : List Map) → In b bs → Accounted b as_ (collect added_of (merge as_ bs))
unfolding merge
merge-Accounted b as_ [] h = absurd h
merge-Accounted b [] (y ∷ bs) (inl e) = rw e (inr (inl refl))
merge-Accounted b [] (y ∷ bs) (inr h) =
    Accounted-more b [] [] _ (reset_map_metadata y ∷ []) (merge-Accounted b [] bs h)
merge-Accounted b (x ∷ as_) (y ∷ bs) h = elim (Bool-cases (classify x y).1) [
  | inl m ↦ elim (Bool-cases (classify x y).2) [
    | inl n ↦
        rw (m, n, merge)
          (elim h [
            | inl e ↦ rw e (Accounted-pair x y as_ _ m n)
            | inr i ↦
                Accounted-more b as_ (x ∷ []) _ (added_of (pair (classify x y).0 x y))
                  (merge-Accounted b as_ bs i)
          ])
    | inr n ↦
        rw (m, n, merge) (Accounted-more b as_ (x ∷ []) _ [] (merge-Accounted b as_ (y ∷ bs) h))
  ]
  | inr m ↦
      rw (m, merge)
        (elim h [
          | inl e ↦ rw e (inr (inl refl))
          | inr i ↦
              Accounted-more b (x ∷ as_) [] _ (reset_map_metadata y ∷ [])
                (merge-Accounted b (x ∷ as_) bs i)
        ])
]

module _ (ini fin : MemInfo) (ti : IsTable ini) (tf : IsTable fin)
    (few : ini.maps_count + fin.maps_count < max_maps) (d : MemDiff)
    (ends : diff_process_maps ini fin ≡ finished d) where
  -- If the comparison of two well-formed tables of fewer than 2 ^ 29 maps together ends with a
  -- difference, every checkpointed map is identical to a current one, or a copy of it that is marked dirty is
  -- among the modified maps, so that its pages are restored.
  pub modified_covers : (a : Map) → In a (live ini) → Kept a (live fin) (live d.modified)
  modified_covers a h =
      rw (finished-Result ini fin ti tf few d ends).modified_are
        (merge-Kept a (live ini) (live fin) h)

  -- If the comparison of two well-formed tables of fewer than 2 ^ 29 maps together ends with a
  -- difference, every current map has the range of a checkpointed one, or is among the added maps.
  pub added_covers : (b : Map) → In b (live fin) → Accounted b (live ini) (live d.added)
  added_covers b h =
      rw (finished-Result ini fin ti tf few d ends).added_are
        (merge-Accounted b (live ini) (live fin) h)
