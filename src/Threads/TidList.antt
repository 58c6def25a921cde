-- ===== src/Threads/TidList.antt =====
-- `get_tids` lists the threads, in order, and ends the list with a zero within its size.
use mathlib.Core.Path.{subst}
use faasafe.Prelude.{
  refl, suc, none, some, arith, ◌≡◌, ℕ, Bool, List, [], ◌∷◌, ◌++◌, get_or, set, length, ◌+◌, ◌-◌,
  ◌<◌, ◌≤◌, leb, true, false, Bool-cases, Option-cases, inl, inr, ◌∙◌, sym, ℕ_discrete,
  if◌then◌else◌, length-append, length-replicate, length-set, get_or-append_left,
  get_or-append_last, get_or-set_self, get_or-set_ne, ltb, append_assoc, append-nil, Option,
  replicate, ◌&&◌, ◌⊎◌, not,
}
use faasafe.Threads.Text.{scan_int}
use faasafe.Threads.Tids.{
  Directory, TidList, TidsResult, found, no_list, esrch, next_size, is_invalid, resize, finish_tids,
  tids_loop, get_tids,
}

-- The ids among the names.
abbrev add_valid : Option ℕ → List ℕ → List ℕ
add_valid none xs = xs
add_valid (some v) xs = if is_invalid v then xs else v ∷ xs

abbrev pub valid_ids : List (List ℕ) → List ℕ
valid_ids [] = []
valid_ids (name ∷ names) = add_valid (scan_int name) (valid_ids names)

-- The list begins with `xs`, and has the size that is kept of it.
pub record Filled (xs : List ℕ) (l : TidList) : Type 0 where
  pub sized : length l.list ≡ l.size
  pub room : length xs ≤ l.size
  pub holds : (i : ℕ) → i < length xs → get_or l.list i 0 ≡ get_or xs i 0

module _ (alloc : ℕ → Bool) where
  resize-Filled :
      (xs : List ℕ) (l : TidList) (n : ℕ) → Filled xs l → l.size ≤ n → Filled xs (resize alloc n l)
  resize-Filled xs l n f le = record {
    sized = omega (
      arith,
      length-append l.list (replicate (n - length l.list) 0),
      length-replicate {A = ℕ} (n - length l.list) 0,
      f.sized,
    );
    room = omega (arith, f.room);
    holds = λ i lt. get_or-append_left l.list _ i 0 (omega (arith, f.sized, f.room)) ∙ f.holds i lt;
  }

  abbrev grown : ℕ → ℕ → TidList → TidList
  grown n used l = if leb l.size used then resize alloc n l else l

  grown-Filled :
      (xs : List ℕ) (l : TidList) (n used : ℕ)
      → Filled xs l
      → used < n
      → Filled xs (grown n used l) × (used < (grown n used l).size)
  grown-Filled xs l n used f lt = elim (Bool-cases (leb l.size used)) [
    | inl full ↦ rw full (resize-Filled xs l n f (ground arith), lt)
    | inr free ↦ rw free (f, ground arith)
  ]

  push-Filled :
      (xs : List ℕ) (v : ℕ) (l : TidList)
      → Filled xs l
      → length xs < l.size
      → Filled (xs ++ v ∷ []) (record l { list = set l.list (length xs) v })
  push-Filled xs v l f lt = record {
    sized = length-set l.list (length xs) v ∙ f.sized;
    room = omega (arith, length-append xs (v ∷ []));
    holds = λ i h. elim (ℕ_discrete i (length xs)) [
      | yes e ↦ rw e (
          get_or-set_self l.list (length xs) v 0 (omega (arith, f.sized))
          ∙ sym (get_or-append_last xs v 0 (length xs) refl))
      | no ne ↦
          let less : i < length xs = omega (arith, length-append xs (v ∷ [])) in
          get_or-set_ne l.list (length xs) i v 0 (ground (arith, ne))
          ∙ f.holds i less
          ∙ sym (get_or-append_left xs (v ∷ []) i 0 less)
    ];
  }

  -- The list that a call returns.
  pub record IsTidList (xs : List ℕ) (l : TidList) : Type 0 where
    pub filled : Filled xs l
    pub within : length xs < l.size
    pub terminated : get_or l.list (length xs) 0 ≡ 0

  -- How a call ends that meets no error: with the ids, or, if there is none, with ESRCH.
  pub data TidsEnd (xs : List ℕ) : TidsResult → Type 0 where
    listed : {l : TidList} → IsTidList xs l → 0 < length xs → TidsEnd xs (found (length xs) l)
    no_thread : {l : TidList} → xs ≡ [] → TidsEnd xs (no_list esrch l)

  module _ (granted : (n : ℕ) → alloc n ≡ true) (dir : Directory) (complete : dir.read_errno ≡ 0)
      (closes : dir.closes ≡ true) where
    allocates : (b : Bool) (n : ℕ) → (b && not (alloc n)) ≡ false
    allocates b n = ground (arith, granted n)

    terminate-IsTidList :
        (xs : List ℕ) (l : TidList)
        → Filled xs l
        → length xs < l.size
        → IsTidList xs (record l { list = set l.list (length xs) 0 })
    terminate-IsTidList xs l f lt = record {
      filled = record {
        sized = length-set l.list (length xs) 0 ∙ f.sized;
        room = f.room;
        holds = λ i h. get_or-set_ne l.list (length xs) i 0 0 (omega arith) ∙ f.holds i h;
      };
      within = lt;
      terminated = get_or-set_self l.list (length xs) 0 0 (omega (arith, f.sized));
    }

    finish_tids-TidsEnd :
        (xs : List ℕ) (l : TidList) → Filled xs l → TidsEnd xs (finish_tids alloc dir (length xs) l)
    unfolding finish_tids
    finish_tids-TidsEnd [] l f = rw (finish_tids, complete, closes) (no_thread refl)
    finish_tids-TidsEnd (x ∷ xs) l f =
        let used = length (x ∷ xs) in
        let (g, lt) = grown-Filled (x ∷ xs) l (used + 1) used f (omega arith) in
        let some_found : ltb (suc (length xs)) 1 ≡ false = ground arith in
        rw
          (
            finish_tids,
            complete,
            closes,
            some_found,
            allocates (leb l.size (suc (length xs))) (suc (length xs) + 1),
          )
          (listed (terminate-IsTidList (x ∷ xs) (grown (used + 1) used l) g lt) (omega arith))

    loop_skip :
        (name : List ℕ) (names : List (List ℕ)) (used : ℕ) (l : TidList)
        → (scan_int name ≡ none) ⊎ ((v : ℕ) × (scan_int name ≡ some v) × (is_invalid v ≡ true))
        → (tids_loop alloc dir (name ∷ names) used l ≡ tids_loop alloc dir names used l)
          × (valid_ids (name ∷ names) ≡ valid_ids names)
    unfolding tids_loop
    loop_skip name names used l (inl e) = (rw (tids_loop, e) refl, rw (valid_ids, e) refl)
    loop_skip name names used l (inr (v, e, bad)) =
        (rw (tids_loop, e, bad) refl, rw (valid_ids, e, bad) refl)

    abbrev pushed : ℕ → ℕ → TidList → TidList
    pushed used v l = record (grown (next_size used) used l) {
      list = set (grown (next_size used) used l).list used v;
    }

    loop_push :
        (name : List ℕ) (names : List (List ℕ)) (used v : ℕ) (l : TidList)
        → scan_int name ≡ some v
        → is_invalid v ≡ false
        → (tids_loop alloc dir (name ∷ names) used l
            ≡ tids_loop alloc dir names (used + 1) (pushed used v l))
          × (valid_ids (name ∷ names) ≡ v ∷ valid_ids names)
    unfolding tids_loop
    loop_push name names used v l e good = (
      rw (tids_loop, e, good, allocates (leb l.size used) (next_size used)) refl,
      rw (valid_ids, e, good) refl,
    )

    skip_case :
        (name : List ℕ) (names : List (List ℕ)) (xs : List ℕ) (l : TidList)
        → (scan_int name ≡ none) ⊎ ((v : ℕ) × (scan_int name ≡ some v) × (is_invalid v ≡ true))
        → TidsEnd (xs ++ valid_ids names) (tids_loop alloc dir names (length xs) l)
        → TidsEnd
            (xs ++ valid_ids (name ∷ names))
            (tids_loop alloc dir (name ∷ names) (length xs) l)
    skip_case name names xs l h rest =
        let (runs, ids) = loop_skip name names (length xs) l h in rw (ids, runs) rest

    push_case :
        (name : List ℕ) (names : List (List ℕ)) (xs : List ℕ) (v : ℕ) (l : TidList)
        → scan_int name ≡ some v
        → is_invalid v ≡ false
        → TidsEnd
            ((xs ++ v ∷ []) ++ valid_ids names)
            (tids_loop alloc dir names (length (xs ++ v ∷ [])) (pushed (length xs) v l))
        → TidsEnd
            (xs ++ valid_ids (name ∷ names))
            (tids_loop alloc dir (name ∷ names) (length xs) l)
    push_case name names xs v l e good rest =
        let (runs, ids) = loop_push name names (length xs) v l e good in
        let count : length (xs ++ v ∷ []) ≡ length xs + 1 = length-append xs (v ∷ []) in
        let joined : (xs ++ v ∷ []) ++ valid_ids names ≡ xs ++ v ∷ valid_ids names =
          append_assoc xs (v ∷ []) (valid_ids names) in
        rw (ids, runs)
          (subst
            (λ ys. TidsEnd ys (tids_loop alloc dir names (length xs + 1) (pushed (length xs) v l)))
            joined
            (subst
              (λ n.
                TidsEnd ((xs ++ v ∷ []) ++ valid_ids names)
                  (tids_loop alloc dir names n (pushed (length xs) v l)))
              count rest))

    -- The loop, when `xs` have been found.
    tids_loop-TidsEnd :
        (names : List (List ℕ)) (xs : List ℕ) (l : TidList)
        → Filled xs l
        → TidsEnd (xs ++ valid_ids names) (tids_loop alloc dir names (length xs) l)
    unfolding tids_loop
    tids_loop-TidsEnd [] xs l f = rw (append-nil xs) (finish_tids-TidsEnd xs l f)
    tids_loop-TidsEnd (name ∷ names) xs l f = elim (Option-cases (scan_int name)) [
      | inl e ↦ skip_case name names xs l (inl e) (tids_loop-TidsEnd names xs l f)
      | inr (v, e) ↦ elim (Bool-cases (is_invalid v)) [
        | inl bad ↦ skip_case name names xs l (inr (v, e, bad)) (tids_loop-TidsEnd names xs l f)
        | inr good ↦
            let used = length xs in
            let (g, lt) = grown-Filled xs l (next_size used) used f (omega arith) in
            push_case name names xs v l e good (
              tids_loop-TidsEnd names (xs ++ v ∷ []) (pushed used v l)
                (push-Filled xs v (grown (next_size used) used l) g lt))
      ]
    ]

    own-Filled :
        (l : TidList)
        → length l.list ≡ l.size
        → Filled [] (if ltb 0 l.size then l else record { list = []; size = 0 })
    own-Filled l sized = elim (Bool-cases (ltb 0 l.size)) [
      | inl given ↦
          rw given
            (record { sized = sized; room = omega arith; holds = λ i lt. absurd (omega arith) })
      | inr none_given ↦
          rw none_given
            (record { sized = refl; room = omega arith; holds = λ i lt. absurd (omega arith) })
    ]

    -- If the directory is read and closed without an error and memory is granted, `get_tids`
    -- returns the number of the ids among the names, and the caller's list begins with these, in
    -- order, and a zero behind them, within its size; or there is none, and it fails with ESRCH.
    pub get_tids-TidsEnd :
        (pid : ℕ) (l : TidList)
        → is_invalid pid ≡ false
        → length l.list ≡ l.size
        → TidsEnd (valid_ids dir.names) (get_tids alloc true pid (some dir) l)
    unfolding get_tids
    get_tids-TidsEnd pid l good sized =
        rw good (tids_loop-TidsEnd dir.names [] _ (own-Filled l sized))
