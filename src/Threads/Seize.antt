-- ===== src/Threads/Seize.antt =====
-- `seize_process` lists the threads of the process, up to its bound.
use faasafe.Prelude.{
  refl, zero, suc, none, some, arith, ◌≡◌, ℕ, Bool, List, [], ◌∷◌, get_or, set, length, ◌+◌, ◌<◌,
  ◌≤◌, leb, false, replicate, Option-cases, inl, inr, ap, ◌∙◌, Option, get_or-set_ne,
  get_or-set_self, ℕ_discrete, length-set, length-replicate,
}
use faasafe.Threads.{
  Kernel, Threads, SeizeEnd, no_directory, too_many_threads, seized, max_threads, seize_names,
  seize_process,
}
use faasafe.Threads.Text.{strtoul}
use faasafe.Word.{to_int}

abbrev add_id : Option ℕ → List ℕ → List ℕ
add_id none nums = nums
add_id (some n) nums = to_int n ∷ nums

-- The thread ids among the names.
abbrev pub ids : List (List ℕ) → List ℕ
ids [] = []
ids (name ∷ names) = elim (strtoul name) [ none ↦ ids names | some n ↦ to_int n ∷ ids names ]

-- The table `t` after the ids `nums` have been put into it, from slot `nr` on.
pub record Listed (nums : List ℕ) (nr : ℕ) (t : Threads) (e : SeizeEnd) (t' : Threads)
    : Type 0 where
  pub long : length t'.tids ≡ max_threads
  pub kept : (i : ℕ) → i < nr → get_or t'.tids i 0 ≡ get_or t.tids i 0
  pub listed :
      (i : ℕ) → i < length nums → nr + i < max_threads → get_or t'.tids (nr + i) 0 ≡ get_or nums i 0
  pub fits : nr + length nums ≤ max_threads → (e ≡ seized) × (t'.tid_count ≡ nr + length nums)
  pub overflows :
      max_threads < nr + length nums → (e ≡ too_many_threads) × (t'.tid_count ≡ t.tid_count)

module _ {S : Type 0} (k : Kernel S) (do_seize : Bool) where
  Listed-nil :
      (nr : ℕ) (t : Threads)
      → length t.tids ≡ max_threads
      → nr ≤ max_threads
      → Listed [] nr t seized (record t { tid_count = nr })
  Listed-nil nr t long le = record {
    long = long;
    kept = λ i h. refl;
    listed = λ i h. absurd (omega arith);
    fits = λ h. (refl, omega arith);
    overflows = λ h. absurd (omega arith);
  }

  Listed-full :
      (n : ℕ) (nums : List ℕ) (t : Threads)
      → length t.tids ≡ max_threads
      → Listed (n ∷ nums) max_threads t too_many_threads t
  Listed-full n nums t long = record {
    long = long;
    kept = λ i h. refl;
    listed = λ i h lt. absurd (omega arith);
    fits = λ h. absurd (omega arith);
    overflows = λ h. (refl, refl);
  }

  get_or-Listed :
      (n : ℕ) (nums : List ℕ) (nr : ℕ) (t : Threads) (e : SeizeEnd) (t' : Threads)
      → length t.tids ≡ max_threads
      → nr < max_threads
      → Listed nums (nr + 1) (record t { tids = set t.tids nr n }) e t'
      → (i : ℕ) → i < length (n ∷ nums)
      → nr + i < max_threads
      → get_or t'.tids (nr + i) 0 ≡ get_or (n ∷ nums) i 0
  get_or-Listed n nums nr t e t' long lt l zero h below =
      let here : nr + 0 ≡ nr = omega arith in
      rw (here, l.kept nr (omega arith)) (get_or-set_self t.tids nr n 0 (omega (arith, long)))
  get_or-Listed n nums nr t e t' long lt l (suc i) h below =
      let moved : nr + suc i ≡ nr + 1 + i = omega arith in
      ap (λ j. get_or t'.tids j 0) moved ∙ l.listed i (omega arith) (omega arith)

  Listed-cons :
      (n : ℕ) (nums : List ℕ) (nr : ℕ) (t : Threads) (e : SeizeEnd) (t' : Threads)
      → length t.tids ≡ max_threads
      → nr < max_threads
      → Listed nums (nr + 1) (record t { tids = set t.tids nr n }) e t'
      → Listed (n ∷ nums) nr t e t'
  Listed-cons n nums nr t e t' long lt l = record {
    long = l.long;
    kept = λ i h. l.kept i (omega arith) ∙ get_or-set_ne t.tids nr i n 0 (ground arith);
    listed = λ i h below. get_or-Listed n nums nr t e t' long lt l i h below;
    fits = λ h. let (ends, count) = l.fits (omega arith) in (ends, omega (arith, count));
    overflows = λ h. l.overflows (omega arith);
  }

  pub seize_names-Listed :
      (names : List (List ℕ)) (nr : ℕ) (t : Threads) (s : S)
      → length t.tids ≡ max_threads
      → nr ≤ max_threads
      → Listed
          (ids names)
          nr
          t
          (seize_names k do_seize names nr t s).0
          (seize_names k do_seize names nr t s).1
  unfolding seize_names
  seize_names-Listed [] nr t s long le = Listed-nil nr t long le
  seize_names-Listed (name ∷ names) nr t s long le = elim (Option-cases (strtoul name)) [
    | inl e ↦ rw (seize_names, ids, e) (seize_names-Listed names nr t s long le)
    | inr (n, e) ↦ elim (ℕ_discrete nr max_threads) [
      | yes full ↦ rw (seize_names, ids, e, full) (Listed-full (to_int n) (ids names) t long)
      | no less ↦
          let below : leb max_threads nr ≡ false = ground arith in
          rw (seize_names, ids, e, below)
            (Listed-cons (to_int n) (ids names) nr t _ _ long (omega arith) (
              seize_names-Listed names (nr + 1) (record t { tids = set t.tids nr (to_int n) }) _
                (length-set t.tids nr (to_int n) ∙ long) (omega arith)))
    ]
  ]

  -- Whatever names the directory holds, `seize_process` fills the table from slot 0 on with the
  -- thread ids among them, in order, and sets `tid_count` to their number if these are at most
  -- `MAX_THREADS`. If there are more, it returns -EINVAL with the first `MAX_THREADS` of them
  -- in the table and `tid_count` as it was; if the directory cannot be opened, it returns an error with a
  -- table of zeros and `tid_count` as it was. The table keeps its size.
  pub seize_process-bounded :
      (pid : ℕ) (t : Threads) (s : S)
      → ((names : List (List ℕ))
          → k.tasks s pid ≡ some names
          → Listed
              (ids names)
              0
              t
              (seize_process k do_seize pid t s).0
              (seize_process k do_seize pid t s).1)
        × (k.tasks s pid ≡ none
            → seize_process k do_seize pid t s
              ≡ (no_directory, record t { tids = replicate max_threads 0 }, s))
  unfolding seize_process
  seize_process-bounded pid t s =
      let cleared : Threads = record t { tids = replicate max_threads 0 } in
      (
        λ names e.
            let l =
              seize_names-Listed names 0 cleared s (length-replicate {A = ℕ} max_threads 0)
                (omega arith) in
            rw (seize_process, e)
              (record {
                long = l.long;
                kept = λ i h. absurd (omega arith);
                listed = l.listed;
                fits = l.fits;
                overflows = l.overflows;
              }),
        λ e. rw (seize_process, e) refl,
      )
