-- ===== src/Threads/Waits.antt =====
-- Waiting until a thread of the tracee has stopped.
use faasafe.Prelude.{
  refl, suc, none, some, arith, ◌≡◌, ◌≢◌, ℕ, true, false, inr, ap, ◌∙◌, sym, ◌⊎◌, Option, ◌==◌,
  ==-refl,
}
use faasafe.Outcome.{returned}
use faasafe.Inject.{or_same}
use faasafe.Threads.{Kernel, is_stopped, is_event_stop, wait_stop}

-- A thread runs free, runs under the tracer, has been told to stop by PTRACE_INTERRUPT, or is
-- stopped; or it has ended.
pub data TraceState : Type 0 where
  untraced running stopping stopped exited : TraceState

-- What a call of `wait4` finds: the thread had ended, so that the call fails; it has ended now; or,
-- if it has been interrupted, it is in the stop that this makes. Nothing is said of a thread that
-- runs on.
pub data Waited {S : Type 0} (state_of : S → ℕ → TraceState) (s : S) (tid : ℕ)
    : S × ℕ × ℕ → Type 0 where
  failed :
      {s' : S} {r status : ℕ}
      → state_of s tid ≡ exited
      → r ≢ tid
      → state_of s' tid ≡ exited
      → Waited state_of s tid (s', r, status)
  ended :
      {s' : S} {status : ℕ}
      → state_of s tid ≡ stopping
      → is_stopped status ≡ false
      → state_of s' tid ≡ exited
      → Waited state_of s tid (s', tid, status)
  stops :
      {s' : S} {status : ℕ}
      → state_of s tid ≡ stopping
      → is_stopped status ≡ true
      → is_event_stop status ≡ true
      → state_of s' tid ≡ stopped
      → Waited state_of s tid (s', tid, status)

-- The documented calls of `ptrace` and `wait4`, for a tracee that gets no other signals while it is
-- being stopped. Each concerns one thread only.
pub record IsKernel {S : Type 0} (k : Kernel S) : Type 0 where
  pub state_of : S → ℕ → TraceState
  pub seizes :
      (s : S) (tid : ℕ)
      → state_of s tid ≡ untraced
      → (s' : S) × (k.seize s tid ≡ some s') × (state_of s' tid ≡ running)
  pub seize_other :
      (s : S) (tid u : ℕ) → u ≢ tid → state_of (or_same (k.seize s tid) s) u ≡ state_of s u
  -- The thread may end before it is interrupted.
  pub interrupts :
      (s : S) (tid : ℕ)
      → state_of s tid ≡ running
      → (state_of (or_same (k.interrupt s tid) s) tid ≡ stopping)
        ⊎ (state_of (or_same (k.interrupt s tid) s) tid ≡ exited)
  pub interrupt_other :
      (s : S) (tid u : ℕ) → u ≢ tid → state_of (or_same (k.interrupt s tid) s) u ≡ state_of s u
  pub waits :
      (s : S) (tid : ℕ)
      → (state_of s tid ≡ stopping) ⊎ (state_of s tid ≡ exited)
      → Waited state_of s tid (k.wait4 s tid)
  pub wait_other : (s : S) (tid u : ℕ) → u ≢ tid → state_of (k.wait4 s tid).0 u ≡ state_of s u
  pub detaches :
      (s : S) (tid : ℕ)
      → state_of s tid ≡ stopped
      → (s' : S) × (k.detach s tid ≡ some s') × (state_of s' tid ≡ untraced)
  pub detach_other :
      (s : S) (tid u : ℕ) → u ≢ tid → state_of (or_same (k.detach s tid) s) u ≡ state_of s u

module _ {S : Type 0} (k : Kernel S) (laws : IsKernel k) where
  -- How the wait for a stop ends.
  pub data Settled (tid : ℕ) : S × Option ℕ → Type 0 where
    given_up : {s' : S} → laws.state_of s' tid ≡ exited → Settled tid (s', none)
    held :
        {s' : S} {status : ℕ}
        → is_event_stop status ≡ true
        → laws.state_of s' tid ≡ stopped
        → Settled tid (s', some status)

  -- Once the thread has ended, the wait ends at once.
  wait_stop-exited :
      (fuel tid : ℕ) (s : S) (r : S × ℕ × ℕ)
      → k.wait4 s tid ≡ r
      → Waited laws.state_of s tid r
      → laws.state_of s tid ≡ exited
      → (wait_stop k (suc fuel) tid s ≡ returned (r.0, none)) × (laws.state_of r.0 tid ≡ exited)
  unfolding wait_stop
  wait_stop-exited fuel tid s _ e (failed {r} out ne out') h =
      let other : (r == tid) ≡ false = ground (arith, ne) in (rw (wait_stop, e, other) refl, out')
  wait_stop-exited fuel tid s _ e (ended runs _ _) h = absurd (ground arith)
  wait_stop-exited fuel tid s _ e (stops runs _ _ _) h = absurd (ground arith)

  -- Two rounds are enough.
  pub wait_stop-Settled :
      (fuel tid : ℕ) (s : S) (r : S × ℕ × ℕ)
      → k.wait4 s tid ≡ r
      → Waited laws.state_of s tid r
      → (t : S × Option ℕ) × (wait_stop k (suc (suc fuel)) tid s ≡ returned t)
        × Settled tid t
        × ((u : ℕ) → u ≢ tid → laws.state_of t.0 u ≡ laws.state_of s u)
  unfolding wait_stop
  wait_stop-Settled fuel tid s _ e (failed {s'} {r} out ne out') =
      let other : (r == tid) ≡ false = ground (arith, ne) in
      (
        (s', none),
        rw (wait_stop, e, other) refl,
        given_up out',
        λ u ne'. ap (λ (x : S × ℕ × ℕ). laws.state_of x.0 u) (sym e) ∙ laws.wait_other s tid u ne',
      )
  wait_stop-Settled fuel tid s _ e (ended {s'} {status} runs h out) =
      let next = k.wait4 s' tid in
      let (ends, out') = wait_stop-exited fuel tid s' next refl (laws.waits s' tid (inr out)) out in
      (
        (next.0, none),
        rw (wait_stop, e, ==-refl tid, h) ends,
        given_up out',
        λ u ne'.
            laws.wait_other s' tid u ne'
            ∙ ap (λ (x : S × ℕ × ℕ). laws.state_of x.0 u) (sym e)
            ∙ laws.wait_other s tid u ne',
      )
  wait_stop-Settled fuel tid s _ e (stops {s'} {status} runs h h' stop) = (
    (s', some status),
    rw (wait_stop, e, ==-refl tid, h) refl,
    held h' stop,
    λ u ne'. ap (λ (x : S × ℕ × ℕ). laws.state_of x.0 u) (sym e) ∙ laws.wait_other s tid u ne',
  )
