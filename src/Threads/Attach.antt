-- ===== src/Threads/Attach.antt =====
-- `ptrace_attach` stops the threads of the process, and `ptrace_detach` lets them go.
use faasafe.Outcome.{returned}
use mathlib.Core.Path.{subst}
use faasafe.Word.{to_int}
use faasafe.Threads.Text.{strtoul}
use faasafe.Inject.{or_same}
use faasafe.Prelude.{
  refl, zero, suc, none, some, arith, ◌≡◌, ◌≢◌, ℕ, ◌+◌, true, false, inl, inr, ap, ◌∙◌, sym, [],
  ◌∷◌, List, All, length, ◌<◌, get_or, ◌≤◌, Option-cases, leb, replicate, length-replicate,
}
use faasafe.Threads.{
  Distinct, Kernel, Threads, seize_names, or_same, max_threads, strtoul, to_int, interrupt_process,
  ptrace_attach, seize_process, returned,
}
use faasafe.Threads.Seize.{ids, seize_names-Listed}
use faasafe.Threads.Waits.{IsKernel, untraced, running}
use faasafe.Threads.Stop.{Interrupted, interrupt_threads-Rounds, Rounds}

-- No thread is listed twice.
abbrev pub Different : List ℕ → Type 0
Different [] = Unit
Different (x ∷ xs) = All (λ y. y ≢ x) xs × Different xs

pub All-get :
    (P : ℕ → Type 0) (xs : List ℕ) → All P xs → (i : ℕ) → i < length xs → P (get_or xs i 0)
All-get P [] h i lt = absurd (omega arith)
All-get P (x ∷ xs) h zero lt = h.0
All-get P (x ∷ xs) h (suc i) lt = All-get P xs h.1 i (omega arith)

pub Different-get :
    (xs : List ℕ)
    → Different xs
    → (i j : ℕ) → i < length xs
    → j < length xs
    → i ≢ j
    → get_or xs i 0 ≢ get_or xs j 0
Different-get [] d i j lt lt' ne = absurd (omega arith)
Different-get (x ∷ xs) d zero zero lt lt' ne = absurd (ne refl)
Different-get (x ∷ xs) d zero (suc j) lt lt' ne = λ e. All-get _ xs d.0 j (omega arith) (sym e)
Different-get (x ∷ xs) d (suc i) zero lt lt' ne = λ e. All-get _ xs d.0 i (omega arith) e
Different-get (x ∷ xs) d (suc i) (suc j) lt lt' ne =
    Different-get xs d.1 i j (omega arith) (omega arith) (λ e. ne (ap suc e))

module _ {S : Type 0} (k : Kernel S) (laws : IsKernel k) where
  -- Seizing a thread leaves the others free.
  All-seize :
      (s : S) (x : ℕ) (xs : List ℕ)
      → All (λ y. y ≢ x) xs
      → All (λ y. laws.state_of s y ≡ untraced) xs
      → All (λ y. laws.state_of (or_same (k.seize s x) s) y ≡ untraced) xs
  All-seize s x [] ne free = free
  All-seize s x (y ∷ ys) ne free =
      (laws.seize_other s x y ne.0 ∙ free.0, All-seize s x ys ne.1 free.1)

  seizes-running :
      (s : S) (x : ℕ)
      → laws.state_of s x ≡ untraced
      → laws.state_of (or_same (k.seize s x) s) x ≡ running
  seizes-running s x free = let (s', e, runs) = laws.seizes s x free in rw e runs

  -- The ids `nums` can be stored from slot `nr` on, and seized.
  pub record Ready (nr : ℕ) (s : S) (nums : List ℕ) : Type 0 where
    pub room : nr + length nums ≤ max_threads
    pub different : Different nums
    pub free : All (λ y. laws.state_of s y ≡ untraced) nums

  record Seized (s s' : S) (nums : List ℕ) : Type 0 where
    runs : All (λ y. laws.state_of s' y ≡ running) nums
    others : (u : ℕ) → All (λ y. u ≢ y) nums → laws.state_of s' u ≡ laws.state_of s u

  ids-skip :
      (name : List ℕ) (names : List (List ℕ)) → strtoul name ≡ none → ids (name ∷ names) ≡ ids names
  ids-skip name names e = rw (ids, e) refl

  ids-take :
      (name : List ℕ) (names : List (List ℕ)) (n : ℕ)
      → strtoul name ≡ some n
      → ids (name ∷ names) ≡ to_int n ∷ ids names
  ids-take name names n e = rw (ids, e) refl

  All-ne : (x : ℕ) (xs : List ℕ) → All (λ y. y ≢ x) xs → All (λ y. x ≢ y) xs
  All-ne x [] h = tt
  All-ne x (y ∷ ys) h = (λ e. h.0 (sym e), All-ne x ys h.1)

  Seized-cons :
      (s s' : S) (x : ℕ) (xs : List ℕ)
      → Different (x ∷ xs)
      → laws.state_of s x ≡ untraced
      → Seized (or_same (k.seize s x) s) s' xs
      → Seized s s' (x ∷ xs)
  Seized-cons s s' x xs d free h = record {
    runs = (h.others x (All-ne x xs d.0) ∙ seizes-running s x free, h.runs);
    others = λ u ne. h.others u ne.1 ∙ laws.seize_other s x u ne.0;
  }

  Ready-next :
      (nr : ℕ) (s : S) (x : ℕ) (xs : List ℕ)
      → Ready nr s (x ∷ xs)
      → Ready (nr + 1) (or_same (k.seize s x) s) xs
  Ready-next nr s x xs r = record {
    room = omega (arith, r.room);
    different = r.different.1;
    free = All-seize s x xs r.different.0 r.free.1;
  }

  seize_names-Seized :
      (names : List (List ℕ)) (nr : ℕ) (t : Threads) (s : S)
      → Ready nr s (ids names)
      → Seized s (seize_names k true names nr t s).2 (ids names)
  unfolding seize_names
  seize_names-Seized [] nr t s r = record { runs = tt; others = λ u ne. refl }
  seize_names-Seized (name ∷ names) nr t s r = elim (Option-cases (strtoul name)) [
    | inl e ↦
        rw (ids-skip name names e, seize_names, e)
          (seize_names-Seized names nr t s (subst (Ready nr s) (ids-skip name names e) r))
    | inr (n, e) ↦
        let r' : Ready nr s (to_int n ∷ ids names) =
          subst (Ready nr s) (ids-take name names n e) r in
        let below : leb max_threads nr ≡ false = ground (arith, r'.room) in
        rw (ids-take name names n e, seize_names, e, below)
          (Seized-cons s _ (to_int n) (ids names) r'.different r'.free.0
            (seize_names-Seized names (nr + 1) _ _ (Ready-next nr s (to_int n) (ids names) r')))
  ]

  seize_process-names :
      (pid : ℕ) (t : Threads) (s : S) (names : List (List ℕ))
      → k.tasks s pid ≡ some names
      → seize_process k true pid t s
        ≡ seize_names k true names 0 (record t { tids = replicate max_threads 0 }) s
  unfolding seize_process
  seize_process-names pid t s names e = rw (seize_process, e) refl

  -- The loop of `interrupt_process` on a table that holds the ids `nums`, whose threads run.
  interrupt_process-stops :
      (fuel : ℕ) (nums : List ℕ) (t : Threads) (s : S)
      → length t.tids ≡ max_threads
      → t.tid_count ≡ length nums
      → length nums ≤ max_threads
      → ((i : ℕ) → i < length nums → get_or t.tids i 0 ≡ get_or nums i 0)
      → Different nums
      → All (λ y. laws.state_of s y ≡ running) nums
      → (t' : Threads) × (s' : S) × (interrupt_process k (suc (suc fuel)) t s ≡ returned (t', s'))
        × Rounds k laws 0 t.tid_count t s t' s'
  unfolding interrupt_process
  interrupt_process-stops fuel nums t s long count room listed d runs =
      let distinct : Distinct 0 t.tid_count t = λ a b la lta lb ltb ne live.
        rw (listed a (omega (arith, count)), listed b (omega (arith, count)))
          (Different-get nums d a b (omega (arith, count)) (omega (arith, count)) ne) in
      interrupt_threads-Rounds k laws fuel t.tid_count 0 t s (omega (arith, long, count)) distinct
        (λ a le lt live.
          rw (listed a (omega (arith, count))) (All-get _ nums runs a (omega (arith, count))))

  -- If the threads of the process can be listed, each once, and are free to be seized, and a thread
  -- that has been seized and then interrupted stops or ends, `ptrace_attach` returns, with two
  -- rounds of waiting for each thread: it lists all of them, in the order of the directory, and
  -- each is stopped, or has ended while it was waited for and its slot is given up. No other thread
  -- is touched.
  pub ptrace_attach-stops :
      (fuel pid : ℕ) (t : Threads) (s : S) (names : List (List ℕ))
      → k.tasks s pid ≡ some names
      → Ready 0 s (ids names)
      → (t' : Threads) × (s' : S) × (ptrace_attach k (suc (suc fuel)) pid t s ≡ returned (t', s'))
        × (t'.tid_count ≡ length (ids names))
        × ((i : ℕ)
            → i < length (ids names)
            → Interrupted k laws (get_or (ids names) i 0) (get_or t'.tids i 0) s')
        × ((u : ℕ) → All (λ y. u ≢ y) (ids names) → laws.state_of s' u ≡ laws.state_of s u)
  unfolding ptrace_attach
  ptrace_attach-stops fuel pid t s names e ready =
      let nums = ids names in
      let cleared : Threads = record t { tids = replicate max_threads 0 } in
      let r = seize_names k true names 0 cleared s in
      let l =
        seize_names-Listed k true names 0 cleared s (length-replicate {A = ℕ} max_threads 0)
          (omega arith) in
      let z = seize_names-Seized names 0 cleared s ready in
      let listed : (i : ℕ) → i < length nums → get_or r.1.tids i 0 ≡ get_or nums i 0 = λ i lt.
        let at : 0 + i ≡ i = omega arith in
        subst (λ j. get_or r.1.tids j 0 ≡ get_or nums i 0) at
          (l.listed i lt (omega (arith, ready.room))) in
      let count : r.1.tid_count ≡ length nums =
        omega (arith, (l.fits (omega (arith, ready.room))).1) in
      let (t', s', runs, rounds) =
        interrupt_process-stops fuel nums r.1 r.2 l.long count (omega (arith, ready.room)) listed
          ready.different z.runs in
      (
        t',
        s',
        rw (seize_process-names pid t s names e) runs,
        rounds.same_count ∙ count,
        λ i lt.
            subst (λ x. Interrupted k laws x (get_or t'.tids i 0) s') (listed i lt)
              (rounds.slots i (omega arith) (omega (arith, count))),
        λ u ne.
            rounds.others u (λ j le lt.
              let lt' : j < length nums = omega (arith, count) in
              rw (listed j lt') (All-get _ nums ne j lt'))
            ∙ z.others u ne,
      )
