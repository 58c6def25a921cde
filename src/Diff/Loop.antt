-- ===== src/Diff/Loop.antt =====
-- The loop of `diff_process_maps` replays the events of the merge, and ends within its fuel.
use faasafe.Prelude.{
  dec_lt, ℕ, zero, suc, ◌+◌, ◌-◌, ◌≤◌, ◌<◌, ◌≡◌, refl, arith, Bool, true, false, if◌then◌else◌,
  get_or, length, drop, [], ◌∷◌, drop-all, drop-cons, length-take, ◌∙◌, ap, get_or-take, Bool-cases,
  inl, inr,
}
use mathlib.Core.Path.{subst}
use faasafe.Types.{Map, MemInfo, MemDiff, zero_map}
use faasafe.Maps.{live}
use faasafe.Maps.Table.{max_maps}
use faasafe.Diff.{
  added, removed, classify, is_done, finished, record_case, diff_loop, diff_process_maps_iterator,
  diff_process_maps, empty_diff,
}
use faasafe.Diff.Merge.{merge, replay}

-- The cases of `classify`: one index stays behind only for a removed or an added map, and the code
-- is never `DONE`.
pub classify_moves :
    (a b : Map)
    → (is_done (classify a b).0 ≡ false)
      × ((classify a b).1 ≡ false → (classify a b).0 ≡ added)
      × ((classify a b).1 ≡ false → (classify a b).2 ≡ true)
      × ((classify a b).2 ≡ false → (classify a b).0 ≡ removed)
unfolding classify
classify_moves a b = ground arith

abbrev step : Bool → ℕ → ℕ
step moves i = if moves then suc i else i

module _ (ini fin : MemInfo) (fuel : ℕ) (d : MemDiff)
    (few : ini.maps_count + fin.maps_count < max_maps) where
  diff_loop-done : diff_loop (suc fuel) ini.maps_count fin.maps_count ini fin d ≡ finished d
  unfolding diff_loop diff_process_maps_iterator record_case
  diff_loop-done = ground arith

  diff_loop-fresh :
      (j : ℕ)
      → j < fin.maps_count
      → diff_loop (suc fuel) ini.maps_count j ini fin d
        ≡ diff_loop fuel ini.maps_count
            (suc j)
            ini
            fin
            (record_case added zero_map (get_or fin.maps j zero_map) d)
  unfolding diff_loop diff_process_maps_iterator record_case
  diff_loop-fresh j h = ground arith

  diff_loop-gone :
      (i : ℕ)
      → i < ini.maps_count
      → diff_loop (suc fuel) i fin.maps_count ini fin d
        ≡ diff_loop fuel
            (suc i)
            fin.maps_count
            ini
            fin
            (record_case removed (get_or ini.maps i zero_map) zero_map d)
  unfolding diff_loop diff_process_maps_iterator record_case
  diff_loop-gone i h = ground arith

  diff_loop-pair :
      (i j : ℕ)
      → i < ini.maps_count
      → j < fin.maps_count
      → let a = get_or ini.maps i zero_map in
        let b = get_or fin.maps j zero_map in
        diff_loop (suc fuel) i j ini fin d
        ≡ diff_loop fuel
            (step (classify a b).1 i)
            (step (classify a b).2 j)
            ini
            fin
            (record_case (classify a b).0 a b d)
  unfolding diff_loop diff_process_maps_iterator record_case
  diff_loop-pair i j hi hj =
      ground (arith, classify_moves (get_or ini.maps i zero_map) (get_or fin.maps j zero_map))

module _ (ps : MemInfo) (sized : ps.maps_count ≤ length ps.maps) where
  drop-live :
      (i : ℕ)
      → i < ps.maps_count
      → drop i (live ps) ≡ get_or ps.maps i zero_map ∷ drop (suc i) (live ps)
  drop-live i h =
      drop-cons (live ps) i zero_map (omega (arith, length-take ps.maps_count ps.maps sized))
      ∙ ap (λ a. a ∷ drop (suc i) (live ps)) (get_or-take ps.maps_count ps.maps i zero_map h)

  drop-live_end : (i : ℕ) → i ≡ ps.maps_count → drop i (live ps) ≡ []
  drop-live_end i e = drop-all (live ps) i (omega (arith, length-take ps.maps_count ps.maps sized))

module _ (ini fin : MemInfo) (few : ini.maps_count + fin.maps_count < max_maps)
    (sized_ini : ini.maps_count ≤ length ini.maps)
    (sized_fin : fin.maps_count ≤ length fin.maps) where
  -- The loop at a pair of indices replays the merge of the maps from there on.
  abbrev Replays : ℕ → ℕ → ℕ → Type 0
  Replays fuel i j =
      (d : MemDiff)
      → diff_loop fuel i j ini fin d
        ≡ finished (replay (merge (drop i (live ini)) (drop j (live fin))) d)

  Replays-pair :
      (fuel i j : ℕ)
      → i < ini.maps_count
      → j < fin.maps_count
      → Replays fuel (suc i) (suc j)
      → Replays fuel (suc i) j
      → Replays fuel i (suc j)
      → Replays (suc fuel) i j
  unfolding merge replay record_case
  Replays-pair fuel i j p q both first second d =
      let a = get_or ini.maps i zero_map in
      let b = get_or fin.maps j zero_map in
      let moves = classify_moves a b in
      let ini_cons = drop-live ini sized_ini i p in
      let fin_cons = drop-live fin sized_fin j q in
      rw (ini_cons, fin_cons, diff_loop-pair ini fin fuel d few i j p q)
        (elim (Bool-cases (classify a b).1) [
          | inl m ↦ elim (Bool-cases (classify a b).2) [
            | inl n ↦ rw (m, n, merge) (both (record_case (classify a b).0 a b d))
            | inr n ↦
                rw (m, n, moves.3 n, merge) (rw fin_cons at (first (record_case removed a b d)))
          ]
          | inr m ↦
              rw (m, moves.2 m, moves.1 m, merge)
                (rw ini_cons at (second (record_case added a b d)))
        ])

  Replays-gone :
      (fuel i : ℕ)
      → i < ini.maps_count
      → Replays fuel (suc i) fin.maps_count
      → Replays (suc fuel) i fin.maps_count
  unfolding merge replay
  Replays-gone fuel i p later d =
      let fin_nil = drop-live_end fin sized_fin fin.maps_count refl in
      rw (drop-live ini sized_ini i p, fin_nil, diff_loop-gone ini fin fuel d few i p)
        (rw fin_nil at (later (record_case removed (get_or ini.maps i zero_map) zero_map d)))

  Replays-fresh :
      (fuel j : ℕ)
      → j < fin.maps_count
      → Replays fuel ini.maps_count (suc j)
      → Replays (suc fuel) ini.maps_count j
  unfolding merge replay
  Replays-fresh fuel j q later d =
      let ini_nil = drop-live_end ini sized_ini ini.maps_count refl in
      rw (drop-live fin sized_fin j q, ini_nil, diff_loop-fresh ini fin fuel d few j q)
        (rw ini_nil at (later (record_case added zero_map (get_or fin.maps j zero_map) d)))

  Replays-done : (fuel : ℕ) → Replays (suc fuel) ini.maps_count fin.maps_count
  unfolding merge replay
  Replays-done fuel d =
      rw
        (
          drop-live_end ini sized_ini ini.maps_count refl,
          drop-live_end fin sized_fin fin.maps_count refl,
        )
        (diff_loop-done ini fin fuel d few)

  -- As much fuel as maps are left is enough.
  diff_loop-Replays :
      (fuel i j : ℕ)
      → i ≤ ini.maps_count
      → j ≤ fin.maps_count
      → ini.maps_count - i + (fin.maps_count - j) < fuel
      → Replays fuel i j
  diff_loop-Replays zero i j hi hj hf = absurd (omega arith)
  diff_loop-Replays (suc fuel) i j hi hj hf = elim (dec_lt i ini.maps_count) [
    | yes p ↦ elim (dec_lt j fin.maps_count) [
      | yes q ↦
          Replays-pair fuel i j p q
            (diff_loop-Replays fuel (suc i) (suc j) (omega arith) (omega arith) (omega arith))
            (diff_loop-Replays fuel (suc i) j (omega arith) (omega arith) (omega arith))
            (diff_loop-Replays fuel i (suc j) (omega arith) (omega arith) (omega arith))
      | no q ↦
          let e : fin.maps_count ≡ j = omega arith in
          subst (Replays (suc fuel) i) e (
            Replays-gone fuel i p (
              diff_loop-Replays fuel (suc i) fin.maps_count (omega arith) (omega arith)
                (omega arith)))
    ]
    | no p ↦
        let e : ini.maps_count ≡ i = omega arith in
        subst (λ k. Replays (suc fuel) k j) e
          (elim (dec_lt j fin.maps_count) [
            | yes q ↦ Replays-fresh fuel j q (
                diff_loop-Replays fuel ini.maps_count (suc j) (omega arith) (omega arith)
                  (omega arith))
            | no q ↦
                let e' : fin.maps_count ≡ j = omega arith in
                subst (Replays (suc fuel) ini.maps_count) e' (Replays-done fuel)
          ])
  ]

  -- `diff_process_maps` ends with the events of the merge recorded in empty tables: it never runs
  -- out of fuel and never reaches `exit(-1)`.
  pub diff_process_maps-replay :
      diff_process_maps ini fin
      ≡ finished (replay (merge (live ini) (live fin)) (empty_diff ini.pid))
  unfolding diff_process_maps
  diff_process_maps-replay =
      diff_loop-Replays (ini.maps_count + fin.maps_count + 1) 0 0 (omega arith) (omega arith)
        (omega arith) (empty_diff ini.pid)
