-- ===== src/Threads/Stop.antt =====
-- `ptrace_attach` stops the threads of the process, and `ptrace_detach` lets them go.
use mathlib.Core.Path.{subst}
use faasafe.Prelude.{
  refl, zero, suc, arith, ◌≡◌, ◌≢◌, ℕ, get_or, set, length, ◌+◌, ◌<◌, ◌≤◌, true, false, inl, inr,
  ◌∙◌, ◌⊎◌, Option, ℕ_discrete, Bool-cases, length-set, get_or-set_self, get_or-set_ne,
}
use faasafe.Outcome.{returned}
use faasafe.Inject.{or_same}
use faasafe.Threads.{
  Kernel, Threads, Distinct, is_negative, no_thread, check_stop, interrupt_thread,
  interrupt_threads,
}
use faasafe.Threads.Waits.{
  stopped, exited, running, IsKernel, Settled, given_up, held, wait_stop-Settled,
}

module _ {S : Type 0} (k : Kernel S) (laws : IsKernel k) where
  -- What a round makes of slot `i`, whose thread is `tid`.
  check_stop-Settled :
      (i tid : ℕ) (t : Threads) (r : S × Option ℕ)
      → Settled k laws tid r
      → ((check_stop k i t r ≡ returned (t, r.0)) × (laws.state_of r.0 tid ≡ stopped))
        ⊎ ((check_stop k i t r ≡ returned (record t { tids = set t.tids i no_thread }, r.0))
            × (laws.state_of r.0 tid ≡ exited))
  unfolding check_stop
  check_stop-Settled i tid t _ (given_up gone) = inr (refl, gone)
  check_stop-Settled i tid t _ (held {status = status} e stop) = inl (rw e refl, stop)

  -- A slot whose thread has been interrupted: it had been given up, its thread is stopped, or its thread has
  -- ended and it is given up.
  pub data Interrupted (before after : ℕ) (s : S) : Type 0 where
    skipped : is_negative before ≡ true → after ≡ before → Interrupted before after s
    held_in :
        is_negative before ≡ false
        → after ≡ before
        → laws.state_of s before ≡ stopped
        → Interrupted before after s
    lost :
        is_negative before ≡ false
        → after ≡ no_thread
        → laws.state_of s before ≡ exited
        → Interrupted before after s

  -- One round of the loop, or all of it, on the slots from `i` to `i + n`.
  pub record Rounds (i n : ℕ) (t : Threads) (s : S) (t' : Threads) (s' : S) : Type 0 where
    pub same_count : t'.tid_count ≡ t.tid_count
    pub same_length : length t'.tids ≡ length t.tids
    pub slots :
        (j : ℕ) → i ≤ j → j < i + n → Interrupted (get_or t.tids j 0) (get_or t'.tids j 0) s'
    pub before : (j : ℕ) → j < i → get_or t'.tids j 0 ≡ get_or t.tids j 0
    pub behind : (j : ℕ) → i + n ≤ j → get_or t'.tids j 0 ≡ get_or t.tids j 0
    pub others :
        (u : ℕ)
        → ((j : ℕ) → i ≤ j → j < i + n → u ≢ get_or t.tids j 0)
        → laws.state_of s' u ≡ laws.state_of s u

  Rounds-kept :
      (i : ℕ) (t : Threads) (s s' : S)
      → Interrupted (get_or t.tids i 0) (get_or t.tids i 0) s'
      → ((u : ℕ) → u ≢ get_or t.tids i 0 → laws.state_of s' u ≡ laws.state_of s u)
      → Rounds i 1 t s t s'
  Rounds-kept i t s s' slot others = record {
    same_count = refl;
    same_length = refl;
    slots = λ j le lt. let here : j ≡ i = omega arith in rw here slot;
    before = λ j lt. refl;
    behind = λ j le. refl;
    others = λ u ne. others u (ne i (omega arith) (omega arith));
  }

  Rounds-lost :
      (i : ℕ) (t : Threads) (s s' : S)
      → i < length t.tids
      → is_negative (get_or t.tids i 0) ≡ false
      → laws.state_of s' (get_or t.tids i 0) ≡ exited
      → ((u : ℕ) → u ≢ get_or t.tids i 0 → laws.state_of s' u ≡ laws.state_of s u)
      → Rounds i 1 t s (record t { tids = set t.tids i no_thread }) s'
  Rounds-lost i t s s' h live gone others = record {
    same_count = refl;
    same_length = length-set t.tids i no_thread;
    slots = λ j le lt.
        let here : j ≡ i = omega arith in
        rw here (lost live (get_or-set_self t.tids i no_thread 0 h) gone);
    before = λ j lt. get_or-set_ne t.tids i j no_thread 0 (ground arith);
    behind = λ j le. get_or-set_ne t.tids i j no_thread 0 (ground arith);
    others = λ u ne. others u (ne i (omega arith) (omega arith));
  }

  interrupt_thread-Rounds :
      (fuel i : ℕ) (t : Threads) (s : S)
      → i < length t.tids
      → (is_negative (get_or t.tids i 0) ≡ false → laws.state_of s (get_or t.tids i 0) ≡ running)
      → (t' : Threads) × (s' : S) × (interrupt_thread k (suc (suc fuel)) i t s ≡ returned (t', s'))
        × Rounds i 1 t s t' s'
  unfolding interrupt_thread
  interrupt_thread-Rounds fuel i t s h runs = elim (Bool-cases (is_negative (get_or t.tids i 0))) [
    | inl neg ↦ (
      t,
      s,
      rw (interrupt_thread, neg) refl,
      Rounds-kept i t s s (skipped neg refl) (λ u ne. refl),
    )
    | inr live ↦
        let tid = get_or t.tids i 0 in
        let s1 = or_same (k.interrupt s tid) s in
        let (r, waits, settled, others) =
          wait_stop-Settled k laws fuel tid s1 (k.wait4 s1 tid) refl
            (laws.waits s1 tid (laws.interrupts s tid (runs live))) in
        let others' : (u : ℕ) → u ≢ tid → laws.state_of r.0 u ≡ laws.state_of s u =
          λ u ne. others u ne ∙ laws.interrupt_other s tid u ne in
        elim (check_stop-Settled i tid t r settled) [
          | inl (checks, stop) ↦ (
            t,
            r.0,
            rw (interrupt_thread, live, waits) checks,
            Rounds-kept i t s r.0 (held_in live refl stop) others',
          )
          | inr (checks, gone) ↦ (
            record t { tids = set t.tids i no_thread },
            r.0,
            rw (interrupt_thread, live, waits) checks,
            Rounds-lost i t s r.0 h live gone others',
          )
        ]
  ]

  Interrupted-kept :
      (tid a a' : ℕ) (s s' : S)
      → a' ≡ a
      → (is_negative tid ≡ false → laws.state_of s' tid ≡ laws.state_of s tid)
      → Interrupted tid a s
      → Interrupted tid a' s'
  Interrupted-kept tid a a' s s' e same (skipped neg kept) = skipped neg (e ∙ kept)
  Interrupted-kept tid a a' s s' e same (held_in live kept stop) =
      held_in live (e ∙ kept) (same live ∙ stop)
  Interrupted-kept tid a a' s s' e same (lost live out gone) =
      lost live (e ∙ out) (same live ∙ gone)

  Rounds-next :
      (i n : ℕ) (t t1 t' : Threads) (s s1 s' : S)
      → Distinct i (suc n) t
      → Rounds i 1 t s t1 s1
      → Rounds (i + 1) n t1 s1 t' s'
      → Rounds i (suc n) t s t' s'
  Rounds-next i n t t1 t' s s1 s' distinct one more = record {
    same_count = more.same_count ∙ one.same_count;
    same_length = more.same_length ∙ one.same_length;
    slots = λ j le lt. elim (ℕ_discrete j i) [
      | yes here ↦ rw here (
          Interrupted-kept (get_or t.tids i 0) (get_or t1.tids i 0) (get_or t'.tids i 0) s1 s'
            (more.before i (omega arith))
            (λ live. more.others (get_or t.tids i 0) (λ b le' lt'. rw (one.behind b (omega arith)) (
              distinct i b (omega arith) (omega arith) (omega arith) (omega arith) (ground arith)
                live)))
            (one.slots i (omega arith) (omega arith)))
      | no ne ↦
          let slot = more.slots j (omega arith) (omega arith) in
          subst (λ b. Interrupted b (get_or t'.tids j 0) s') (one.behind j (omega arith)) slot
    ];
    before = λ j lt. more.before j (omega arith) ∙ one.before j lt;
    behind = λ j le. more.behind j (omega arith) ∙ one.behind j (omega arith);
    others = λ u ne.
        more.others u
          (λ j le lt. rw (one.behind j (omega arith)) (ne j (omega arith) (omega arith)))
        ∙ one.others u (λ j le lt. ne j (omega arith) (omega arith));
  }

  -- The threads in these slots run.
  abbrev pub Running : ℕ → ℕ → Threads → S → Type 0
  Running i n t s =
      (a : ℕ)
      → i ≤ a
      → a < i + n
      → is_negative (get_or t.tids a 0) ≡ false
      → laws.state_of s (get_or t.tids a 0) ≡ running

  Running-next :
      (i n : ℕ) (t t1 : Threads) (s s1 : S)
      → Distinct i (suc n) t
      → Running i (suc n) t s
      → Rounds i 1 t s t1 s1
      → Running (i + 1) n t1 s1
  Running-next i n t t1 s s1 distinct runs one a le lt = rw (one.behind a (omega arith)) (λ live.
      one.others (get_or t.tids a 0) (λ b le' lt'.
        distinct a b (omega arith) (omega arith) (omega arith) (omega arith) (ground arith) live)
      ∙ runs a (omega arith) (omega arith) live)

  pub interrupt_threads-Rounds :
      (fuel n i : ℕ) (t : Threads) (s : S)
      → i + n ≤ length t.tids
      → Distinct i n t
      → Running i n t s
      → (t' : Threads) × (s' : S) × (interrupt_threads k (suc (suc fuel)) n i t s
          ≡ returned (t', s'))
        × Rounds i n t s t' s'
  unfolding interrupt_threads
  interrupt_threads-Rounds fuel zero i t s h distinct runs = (
    t,
    s,
    refl,
    record {
      same_count = refl;
      same_length = refl;
      slots = λ j le lt. absurd (omega arith);
      before = λ j lt. refl;
      behind = λ j le. refl;
      others = λ u ne. refl;
    },
  )
  interrupt_threads-Rounds fuel (suc n) i t s h distinct runs =
      let (t1, s1, round, one) =
        interrupt_thread-Rounds fuel i t s (omega arith) (runs i (omega arith) (omega arith)) in
      let distinct' : Distinct (i + 1) n t1 = λ a b la lta lb ltb ne live.
        rw (one.behind a (omega arith), one.behind b (omega arith))
          (distinct a b (omega arith) (omega arith) (omega arith) (omega arith) ne
            (subst (λ c. is_negative c ≡ false) (one.behind a (omega arith)) live)) in
      let (t', s', rounds, more) =
        interrupt_threads-Rounds fuel n (i + 1) t1 s1 (omega (arith, one.same_length)) distinct'
          (Running-next i n t t1 s s1 distinct runs one) in
      (
        t',
        s',
        rw (interrupt_threads, round) rounds,
        Rounds-next i n t t1 t' s s1 s' distinct one more,
      )
