-- ===== src/Threads/Jobs.antt =====
-- groundhog_origin/src/proc_control.c: `wait_process` and `continue_process`. Nothing calls them.
use faasafe.Prelude.{
  refl, zero, suc, none, some, arith, ◌≡◌, ℕ, true, false, Option, if◌then◌else◌, ◌==◌, ◌<◌, sym,
  [], ◌∷◌, List, ◌++◌, ◌+◌, ◌∙◌, ◌≢◌, ==-refl, All, ap, length,
}
use faasafe.Outcome.{Outcome, returned, out_of_fuel, ◌>>=◌}
use faasafe.Threads.{is_stopped}

-- What `waitpid` does: it gives a process and a status, is interrupted by a signal, or fails.
pub data WaitResult : Type 0 where
  changed : ℕ → ℕ → WaitResult
  interrupted : WaitResult
  no_child : WaitResult

-- `kill(pid, SIGCONT)` and `waitpid` in the state `S`.
pub record Jobs (S : Type 0) : Type 0 where
  pub kill_cont : S → ℕ → Option S
  pub waitpid : S → ℕ → S × WaitResult

-- The end of the round of `continue_process`: a stop begins another one.
abbrev pub unless_done :
    {S : Type 0} → S × Option ℕ → Outcome (S × Option ℕ) → Outcome (S × Option ℕ)
unless_done (s', none) again = returned (s', none)
unless_done (s', some status) again =
    if is_stopped status then again else returned (s', some status)

module _ {S : Type 0} (k : Jobs S) where
  -- The loop around `waitpid`: the status, or `none` for ESRCH.
  unfoldable pub wait_process : ℕ → ℕ → S → Outcome (S × Option ℕ)
  wait_process zero pid s = out_of_fuel
  wait_process (suc fuel) pid s =
      let r = k.waitpid s pid in
      let again = wait_process fuel pid r.0 in
      elim r.1 [
        | changed p status ↦ if p == pid then returned (r.0, some status) else returned (r.0, none)
        | interrupted ↦ again
        | no_child ↦ returned (r.0, none)
      ]

  -- `continue_process`: the status, or `none` for ESRCH. Both loops are given the fuel.
  unfoldable pub continue_process : ℕ → ℕ → S → Outcome (S × Option ℕ)
  continue_process zero pid s = out_of_fuel
  continue_process (suc fuel) pid s = elim (k.kill_cont s pid) [
    | none ↦ returned (s, none)
    | some s1 ↦
        wait_process (suc fuel) pid s1 >>= λ r. unless_done r (continue_process fuel pid r.0)
  ]

-- The child `pid` of this program: what the calls of `waitpid` for it are to give, in order, and
-- the number of SIGCONTs that it was sent. It can be sent one until its last report has been taken.
pub record Child {S : Type 0} (k : Jobs S) (pid : ℕ) : Type 0 where
  pub reports : S → List WaitResult
  pub conts : S → ℕ
  pub kills :
      (s : S)
      → reports s ≢ []
      → (s' : S) × (k.kill_cont s pid ≡ some s')
        × (reports s' ≡ reports s)
        × (conts s' ≡ conts s + 1)
  pub waits :
      (s : S) (x : WaitResult) (rest : List WaitResult)
      → reports s ≡ x ∷ rest
      → ((k.waitpid s pid).1 ≡ x)
        × (reports (k.waitpid s pid).0 ≡ rest)
        × (conts (k.waitpid s pid).0 ≡ conts s)

-- A report after which the program waits again: a signal has interrupted the wait, or the child has stopped.
pub data IsRepeated (pid : ℕ) : WaitResult → Type 0 where
  by_signal : IsRepeated pid interrupted
  by_stop : {status : ℕ} → is_stopped status ≡ true → IsRepeated pid (changed pid status)

-- A report that ends the waiting, and what is returned for it: the status, or ESRCH.
pub data IsLast (pid : ℕ) : WaitResult → Option ℕ → Type 0 where
  by_status :
      {status : ℕ} → is_stopped status ≡ false → IsLast pid (changed pid status) (some status)
  by_other : {p status : ℕ} → p ≢ pid → IsLast pid (changed p status) none
  by_failure : IsLast pid no_child none

-- The stops among the reports.
abbrev pub stops : List WaitResult → ℕ
stops [] = 0
stops (changed p status ∷ rest) = stops rest + 1
stops (interrupted ∷ rest) = stops rest
stops (no_child ∷ rest) = stops rest

not_repeated : (pid : ℕ) (r : WaitResult) → IsRepeated pid r → r ≢ no_child
not_repeated pid _ by_signal e = absurd (ground (arith, e))
not_repeated pid _ (by_stop stopped) e = absurd (ground (arith, e))

not_empty :
    (before : List WaitResult) (x : WaitResult) (rest : List WaitResult) → before ++ x ∷ rest ≢ []
not_empty [] x rest e = cc
not_empty (y ∷ before) x rest e = cc

module _ {S : Type 0} (k : Jobs S) (pid : ℕ) (child : Child k pid) (x : WaitResult)
    (rest : List WaitResult) (o : Option ℕ) (last : IsLast pid x o) where
  -- A round of `continue_process` once the signal has been sent, and what follows.
  abbrev waiting : ℕ → ℕ → S → Outcome (S × Option ℕ)
  waiting inner outer s =
      wait_process k inner pid s >>= λ r. unless_done r (continue_process k outer pid r.0)

  -- The waiting ends at the report `x`, with `sent` more signals.
  record Ends (run : Outcome (S × Option ℕ)) (s : S) (sent : ℕ) : Type 0 where
    end : S
    returns : run ≡ returned (end, o)
    left : child.reports end ≡ rest
    signals : child.conts end ≡ child.conts s + sent

  waiting-last :
      (inner outer : ℕ) (s : S) (y : WaitResult) (o' : Option ℕ)
      → y ≡ x
      → o' ≡ o
      → IsLast pid y o'
      → child.reports s ≡ x ∷ rest
      → Ends (waiting (suc inner) outer s) s 0
  unfolding wait_process
  waiting-last inner outer s _ _ ex eo (by_status {status} ended) e =
      let (gives, left, same) = child.waits s x rest e in
      let gives' : (k.waitpid s pid).1 ≡ changed pid status = gives ∙ sym ex in
      record {
        end = (k.waitpid s pid).0;
        returns =
            rw (wait_process, gives', ==-refl pid, ended)
              (ap (λ v. returned ((k.waitpid s pid).0, v)) eo);
        left = left;
        signals = omega (arith, same);
      }
  waiting-last inner outer s _ _ ex eo (by_other {p} {status} ne) e =
      let (gives, left, same) = child.waits s x rest e in
      let gives' : (k.waitpid s pid).1 ≡ changed p status = gives ∙ sym ex in
      let other : (p == pid) ≡ false = ground (arith, ne) in
      record {
        end = (k.waitpid s pid).0;
        returns = rw (wait_process, gives', other) (ap (λ v. returned ((k.waitpid s pid).0, v)) eo);
        left = left;
        signals = omega (arith, same);
      }
  waiting-last inner outer s _ _ ex eo by_failure e =
      let (gives, left, same) = child.waits s x rest e in
      let gives' : (k.waitpid s pid).1 ≡ no_child = gives ∙ sym ex in
      record {
        end = (k.waitpid s pid).0;
        returns = rw (wait_process, gives') (ap (λ v. returned ((k.waitpid s pid).0, v)) eo);
        left = left;
        signals = omega (arith, same);
      }

  waiting-Ends :
      (before : List WaitResult) (inner outer : ℕ) (s : S)
      → child.reports s ≡ before ++ x ∷ rest
      → All (IsRepeated pid) before
      → length before < inner
      → length before < suc outer
      → Ends (waiting inner outer s) s (stops before)
  unfolding wait_process continue_process
  waiting-Ends before zero outer s e all lt lt' = absurd (omega arith)
  waiting-Ends [] (suc inner) outer s e all lt lt' = waiting-last inner outer s x o refl refl last e
  waiting-Ends (interrupted ∷ before) (suc inner) outer s e (by_signal, all) lt lt' =
      let (gives, left, same) = child.waits s interrupted (before ++ x ∷ rest) e in
      let r =
        waiting-Ends before inner outer (k.waitpid s pid).0 left all (omega arith) (omega arith) in
      record {
        end = r.end;
        returns = rw (wait_process, gives) (r.returns);
        left = r.left;
        signals = omega (arith, r.signals, same);
      }
  waiting-Ends (no_child ∷ before) (suc inner) outer s e (never, all) lt lt' =
      absurd (not_repeated pid no_child never refl)
  waiting-Ends (changed p status ∷ before) (suc inner) zero s e (by_stop stopped, all) lt lt' =
      absurd (omega arith)
  waiting-Ends (changed p status ∷ before) (suc inner) (suc outer) s e (by_stop stopped, all) lt
        lt' =
      let next = (k.waitpid s pid).0 in
      let (gives, left, same) = child.waits s (changed pid status) (before ++ x ∷ rest) e in
      let (s1, sends, kept, sent) =
        child.kills next (λ none_left. not_empty before x rest (sym left ∙ none_left)) in
      let r =
        waiting-Ends before (suc outer) outer s1 (kept ∙ left) all (omega arith) (omega arith) in
      record {
        end = r.end;
        returns =
            rw (wait_process, gives, ==-refl pid, stopped, continue_process, sends) (r.returns);
        left = r.left;
        signals = omega (arith, r.signals, sent, same);
      }

  -- If the wait for the child is interrupted, or the child stops, any number of times, and then
  -- comes a report that ends the waiting, and it can be sent a signal until then,
  -- `continue_process` returns with a fuel above that number: the status of that report, if it is
  -- one of the child, and else ESRCH. It has taken the reports up to this one, and has sent a
  -- SIGCONT at first and after each stop.
  pub continue_process-last :
      (before : List WaitResult) (fuel : ℕ) (s : S)
      → child.reports s ≡ before ++ x ∷ rest
      → All (IsRepeated pid) before
      → length before < fuel
      → (s' : S) × (continue_process k fuel pid s ≡ returned (s', o))
        × (child.reports s' ≡ rest)
        × (child.conts s' ≡ child.conts s + 1 + stops before)
  unfolding continue_process
  continue_process-last before zero s e all lt = absurd (omega arith)
  continue_process-last before (suc fuel) s e all lt =
      let (s1, sends, kept, sent) =
        child.kills s (λ none_left. not_empty before x rest (sym e ∙ none_left)) in
      let r = waiting-Ends before (suc fuel) fuel s1 (kept ∙ e) all lt lt in
      (r.end, rw (continue_process, sends) (r.returns), r.left, omega (arith, r.signals, sent))
