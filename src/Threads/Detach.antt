-- ===== src/Threads/Detach.antt =====
-- `ptrace_detach` lets the threads of the table go.
use faasafe.Outcome.{returned}
use faasafe.Threads.Seize.{ids}
use faasafe.Diff.{exited}
use faasafe.Threads.Attach.{Different, All-get, Different-get, Ready, ptrace_attach-stops}
use faasafe.Inject.{or_same}
use mathlib.Core.Path.{subst}
use faasafe.Threads.Stop.{Interrupted, skipped, held_in, lost}
use faasafe.Threads.Waits.{IsKernel, stopped, untraced, exited, TraceState}
use faasafe.Prelude.{
  refl, zero, suc, arith, ◌≡◌, ◌≢◌, ℕ, ◌+◌, true, false, inl, inr, ◌∙◌, sym, some, List, ◌≤◌,
  get_or, ℕ_discrete, ◌<◌, Bool-cases, true≢false, length, All, ◌⊎◌,
}
use faasafe.Threads.{
  Distinct, Kernel, Threads, ptrace_detach, release_thread, release_threads, detach_or_cont_process,
  is_negative, or_same, no_thread, ptrace_attach, returned,
}

module _ {S : Type 0} (k : Kernel S) (laws : IsKernel k) where
  -- The threads in the slots from `i` to `i + n` are stopped.
  abbrev pub Stopped : ℕ → ℕ → Threads → S → Type 0
  Stopped i n t s =
      (a : ℕ)
      → i ≤ a
      → a < i + n
      → is_negative (get_or t.tids a 0) ≡ false
      → laws.state_of s (get_or t.tids a 0) ≡ stopped

  -- They are free, and no other thread has been touched.
  pub record Released (i n : ℕ) (t : Threads) (s s' : S) : Type 0 where
    pub free :
        (a : ℕ)
        → i ≤ a
        → a < i + n
        → is_negative (get_or t.tids a 0) ≡ false
        → laws.state_of s' (get_or t.tids a 0) ≡ untraced
    pub others :
        (u : ℕ)
        → ((a : ℕ)
            → i ≤ a
            → a < i + n
            → is_negative (get_or t.tids a 0) ≡ false
            → u ≢ get_or t.tids a 0)
        → laws.state_of s' u ≡ laws.state_of s u

  the_slot : (a i : ℕ) → i ≤ a → a < i + 1 → a ≡ i
  the_slot a i le lt = omega arith

  release_thread-Released :
      (i : ℕ) (t : Threads) (s : S)
      → (is_negative (get_or t.tids i 0) ≡ false → laws.state_of s (get_or t.tids i 0) ≡ stopped)
      → Released i 1 t s (release_thread k true i t s)
  unfolding release_thread
  release_thread-Released i t s stop = elim (Bool-cases (is_negative (get_or t.tids i 0))) [
    | inl neg ↦
        rw (release_thread, neg)
          (record {
            free = λ a le lt live. absurd (
                true≢false (
                  sym neg
                  ∙ subst (λ j. is_negative (get_or t.tids j 0) ≡ false) (the_slot a i le lt)
                      live));
            others = λ u ne. refl;
          })
    | inr live ↦
        let tid = get_or t.tids i 0 in
        let (s', e, free) = laws.detaches s tid (stop live) in
        let freed : laws.state_of (or_same (k.detach s tid) s) tid ≡ untraced = rw e free in
        rw (release_thread, live)
          (record {
            free = λ a le lt live'. rw (the_slot a i le lt) freed;
            others = λ u ne. laws.detach_other s tid u (ne i (omega arith) (omega arith) live);
          })
  ]

  Released-next :
      (i n : ℕ) (t : Threads) (s s1 s' : S)
      → Distinct i (suc n) t
      → Released i 1 t s s1
      → Released (i + 1) n t s1 s'
      → Released i (suc n) t s s'
  Released-next i n t s s1 s' distinct one more = record {
    free = λ a le lt live. elim (ℕ_discrete a i) [
      | yes here ↦
          more.others (get_or t.tids a 0) (λ b le' lt' live'.
            distinct a b (omega arith) (omega arith) (omega arith) (omega arith) (ground arith)
              live)
          ∙ one.free a (omega arith) (omega arith) live
      | no ne ↦ more.free a (omega arith) (omega arith) live
    ];
    others = λ u ne.
        more.others u (λ b le lt live. ne b (omega arith) (omega arith) live)
        ∙ one.others u (λ b le lt live. ne b (omega arith) (omega arith) live);
  }

  Stopped-next :
      (i n : ℕ) (t : Threads) (s s1 : S)
      → Distinct i (suc n) t
      → Stopped i (suc n) t s
      → Released i 1 t s s1
      → Stopped (i + 1) n t s1
  Stopped-next i n t s s1 distinct stop one a le lt live =
      one.others (get_or t.tids a 0) (λ b le' lt' live'.
        distinct a b (omega arith) (omega arith) (omega arith) (omega arith) (ground arith) live)
      ∙ stop a (omega arith) (omega arith) live

  release_threads-Released :
      (n i : ℕ) (t : Threads) (s : S)
      → Distinct i n t
      → Stopped i n t s
      → Released i n t s (release_threads k true n i t s)
  unfolding release_threads
  release_threads-Released zero i t s distinct stop = record {
    free = λ a le lt live. absurd (omega arith);
    others = λ u ne. refl;
  }
  release_threads-Released (suc n) i t s distinct stop =
      let one = release_thread-Released i t s (stop i (omega arith) (omega arith)) in
      Released-next i n t s _ _ distinct one (
        release_threads-Released n (i + 1) t (release_thread k true i t s)
          (λ a b la lta lb ltb.
            distinct a b (omega arith) (omega arith) (omega arith) (omega arith))
          (Stopped-next i n t s _ distinct stop one))

  -- If the threads of the table, each in one slot, are stopped, `ptrace_detach` lets each of
  -- them go, skips the slots that are given up, and touches no other thread.
  pub ptrace_detach-releases :
      (t : Threads) (s : S)
      → Distinct 0 t.tid_count t
      → Stopped 0 t.tid_count t s
      → Released 0 t.tid_count t s (ptrace_detach k t s)
  unfolding ptrace_detach detach_or_cont_process
  ptrace_detach-releases t s distinct stop =
      release_threads-Released t.tid_count 0 t s distinct stop

  -- A slot in use holds its thread, which is stopped.
  Interrupted-live :
      (tid a : ℕ) (s : S)
      → Interrupted k laws tid a s
      → is_negative a ≡ false
      → (a ≡ tid) × (laws.state_of s tid ≡ stopped)
  Interrupted-live tid a s (skipped neg kept) live =
      absurd (true≢false (sym neg ∙ subst (λ x. is_negative x ≡ false) kept live))
  Interrupted-live tid a s (held_in _ kept stop) live = (kept, stop)
  Interrupted-live tid a s (lost _ out _) live =
      absurd (true≢false (subst (λ x. is_negative x ≡ false) out live))

  -- The table that `ptrace_attach` leaves, for the ids `nums`.
  module _ (nums : List ℕ) (t : Threads) (s : S) (count : t.tid_count ≡ length nums)
      (different : Different nums)
      (slots : (i : ℕ)
        → i < length nums
        → Interrupted k laws (get_or nums i 0) (get_or t.tids i 0) s) where
    slot_of :
        (i : ℕ)
        → i < t.tid_count
        → is_negative (get_or t.tids i 0) ≡ false
        → (get_or t.tids i 0 ≡ get_or nums i 0) × (laws.state_of s (get_or nums i 0) ≡ stopped)
    slot_of i h live = Interrupted-live _ _ s (slots i (omega (arith, count))) live

    pub attached-Stopped : Stopped 0 t.tid_count t s
    attached-Stopped a le lt live = let (kept, stop) = slot_of a (omega arith) live in rw kept stop

    pub attached-Distinct : Distinct 0 t.tid_count t
    attached-Distinct a b la lta lb ltb ne live same =
        let (kept, _) = slot_of a (omega arith) live in
        let (kept', _) = slot_of b (omega arith) (subst (λ x. is_negative x ≡ false) same live) in
        Different-get nums different a b (omega (arith, count)) (omega (arith, count)) ne
          (sym kept ∙ same ∙ kept')

    abbrev after : ℕ → TraceState
    after = laws.state_of (ptrace_detach k t s)

    released : Released 0 t.tid_count t s (ptrace_detach k t s)
    released = ptrace_detach-releases t s attached-Distinct attached-Stopped

    -- A thread that has ended is not touched.
    lost-after :
        (i : ℕ)
        → i < length nums
        → get_or t.tids i 0 ≡ no_thread
        → after (get_or nums i 0) ≡ laws.state_of s (get_or nums i 0)
    lost-after i h out = released.others (get_or nums i 0) λ a le lt live same.
        let (kept, _) = slot_of a (omega arith) live in
        elim (ℕ_discrete a i) [
          | yes here ↦ true≢false (
              subst (λ x. is_negative x ≡ false) out
                (subst (λ j. is_negative (get_or t.tids j 0) ≡ false) here live))
          | no ne ↦
              Different-get nums different a i (omega (arith, count)) h ne (sym kept ∙ sym same)
        ]

    -- Each thread is let go, or had ended.
    detached-slot :
        (i : ℕ)
        → i < length nums
        → is_negative (get_or nums i 0) ≡ false
        → Interrupted k laws (get_or nums i 0) (get_or t.tids i 0) s
        → (after (get_or nums i 0) ≡ untraced) ⊎ (after (get_or nums i 0) ≡ exited)
    detached-slot i h positive (skipped neg _) = absurd (true≢false (sym neg ∙ positive))
    detached-slot i h positive (held_in live kept _) = inl (
        subst (λ x. after x ≡ untraced) kept
          (released.free i (omega arith) (omega (arith, count))
            (subst (λ x. is_negative x ≡ false) (sym kept) live)))
    detached-slot i h positive (lost _ out ends) = inr (lost-after i h out ∙ ends)

    detached-others : (u : ℕ) → All (λ y. u ≢ y) nums → after u ≡ laws.state_of s u
    detached-others u ne = released.others u λ a le lt live same.
        All-get _ nums ne a (omega (arith, count)) (same ∙ (slot_of a (omega arith) live).0)

  -- If the threads of the process can be listed, each once, and are free to be seized, and a thread
  -- that has been seized and then interrupted stops or ends, `ptrace_attach` returns, and
  -- `ptrace_detach` behind it leaves each of them running free, unless the thread has ended
  -- meanwhile. No other thread is touched.
  pub ptrace_detach-attach :
      (fuel pid : ℕ) (t : Threads) (s : S) (names : List (List ℕ))
      → k.tasks s pid ≡ some names
      → Ready k laws 0 s (ids names)
      → All (λ y. is_negative y ≡ false) (ids names)
      → (t' : Threads) × (s' : S) × (ptrace_attach k (suc (suc fuel)) pid t s ≡ returned (t', s'))
        × ((i : ℕ)
            → i < length (ids names)
            → (laws.state_of (ptrace_detach k t' s') (get_or (ids names) i 0) ≡ untraced)
              ⊎ (laws.state_of (ptrace_detach k t' s') (get_or (ids names) i 0) ≡ exited))
        × ((u : ℕ)
            → All (λ y. u ≢ y) (ids names)
            → laws.state_of (ptrace_detach k t' s') u ≡ laws.state_of s u)
  ptrace_detach-attach fuel pid t s names e ready positive =
      let nums = ids names in
      let (t', s', runs, count, slots, others) =
        ptrace_attach-stops k laws fuel pid t s names e ready in
      (
        t',
        s',
        runs,
        λ i h.
            detached-slot nums t' s' count ready.different slots i h (All-get _ nums positive i h)
              (slots i h),
        λ u ne. detached-others nums t' s' count ready.different slots u ne ∙ others u ne,
      )
