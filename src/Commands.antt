-- ===== src/Commands.antt =====
-- groundhog_origin/src/communicator.c: the loop that serves the commands of the tracee.
pub mod Session
mod Tests
use faasafe.Prelude.{
  refl, zero, suc, [], ◌∷◌, true, false, ℕ, List, Bool, if◌then◌else◌, ◌+◌, ◌==◌, ◌^◌, ◌-◌, ◌++◌,
  length, none, some, inl, inr, arith, ◌≡◌, Option,
}
use faasafe.Word.{add_int}
use faasafe.Maps.Names.{same_start}

abbrev pub cmd_checkpoint : List ℕ
cmd_checkpoint =
    b'c' ∷ b'h' ∷ b'e' ∷ b'c' ∷ b'k' ∷ b'p' ∷ b'o' ∷ b'i' ∷ b'n' ∷ b't' ∷ b'.' ∷ b'm' ∷ b'e' ∷ []

abbrev pub cmd_diff : List ℕ
cmd_diff = b'd' ∷ b'i' ∷ b'f' ∷ b'f' ∷ b'.' ∷ b'm' ∷ b'e' ∷ []

abbrev pub cmd_restore : List ℕ
cmd_restore = b'r' ∷ b'e' ∷ b's' ∷ b't' ∷ b'o' ∷ b'r' ∷ b'e' ∷ b'.' ∷ b'm' ∷ b'e' ∷ []

abbrev pub cmd_dumpstats : List ℕ
cmd_dumpstats =
    b'd' ∷ b'u' ∷ b'm' ∷ b'p' ∷ b'_' ∷ b's' ∷ b't' ∷ b'a' ∷ b't' ∷ b's' ∷ b'.' ∷ b'm' ∷ b'e' ∷ []

abbrev pub cmd_nop : List ℕ
cmd_nop = b'n' ∷ b'o' ∷ b'p' ∷ b'.' ∷ b'm' ∷ b'e' ∷ []

abbrev pub cmd_saveforme : List ℕ
cmd_saveforme = b's' ∷ b'a' ∷ b'v' ∷ b'e' ∷ b'_' ∷ b'f' ∷ b'o' ∷ b'r' ∷ b'.' ∷ b'm' ∷ b'e' ∷ []

abbrev pub cmd_givebackme : List ℕ
cmd_givebackme =
    b'g' ∷ b'i' ∷ b'v' ∷ b'e' ∷ b'_' ∷ b'b' ∷ b'a' ∷ b'c' ∷ b'k' ∷ b'.' ∷ b'm' ∷ b'e' ∷ []

abbrev pub cmd_detach : List ℕ
cmd_detach = b'd' ∷ b'e' ∷ b't' ∷ b'a' ∷ b'c' ∷ b'h' ∷ b'.' ∷ b'i' ∷ b't' ∷ []

abbrev pub cmd_cont : List ℕ
cmd_cont = b'c' ∷ b'o' ∷ b'n' ∷ b't' ∷ b'.' ∷ b'i' ∷ b't' ∷ []

abbrev pub cmd_ack : List ℕ
cmd_ack = b'O' ∷ b'K' ∷ b'!' ∷ b'\n' ∷ []

-- The commands, in the order in which the loop looks for them.
pub data Command : Type 0 where
  checkpoint diff restore dump_stats nop save_for give_back detach cont unknown : Command

-- `!strncmp(child_command, cmd, strlen(cmd))`
abbrev pub begins : List ℕ → List ℕ → Bool
begins child_command cmd = same_start (length cmd) child_command cmd

unfoldable pub command_of : List ℕ → Command
command_of child_command =
    if begins child_command cmd_checkpoint
    then checkpoint
    else if begins child_command cmd_diff
    then diff
    else if begins child_command cmd_restore
    then restore
    else if begins child_command cmd_dumpstats
    then dump_stats
    else if begins child_command cmd_nop
    then nop
    else if begins child_command cmd_saveforme
    then save_for
    else if begins child_command cmd_givebackme
    then give_back
    else if begins child_command cmd_detach
    then detach
    else if begins child_command cmd_cont
    then cont
    else unknown

-- What the loop does: its calls, the signal SIGKILL, and what it writes to the tracee.
pub data Action : Type 0 where
  checkpointed diffed restored killed dumped detached continued : Action
  replied : List ℕ → Action

-- The variables of the loop. `saving` says that the next line is read by the inner `getline`, and
-- `stopped` that the loop has been left. `stop_tracking` is 0 throughout, and the process keeps
-- a copy of `num_revived`. The lines hold no zero byte.
pub record Tracker : Type 0 where
  pub num_revived : ℕ
  pub scratchmem : List ℕ
  pub saving : Bool
  pub stopped : Bool

-- The body of the loop on a command.
unfoldable pub perform : ℕ → Command → Tracker → Tracker × List Action
perform keepalive checkpoint t = (t, checkpointed ∷ replied cmd_ack ∷ [])
perform keepalive diff t = (t, diffed ∷ replied cmd_ack ∷ [])
perform keepalive restore t =
    if t.num_revived == add_int keepalive 4294967295
    then (record t { stopped = true }, killed ∷ [])
    else (record t { num_revived = add_int t.num_revived 1 }, restored ∷ replied cmd_ack ∷ [])
perform keepalive dump_stats t = (t, dumped ∷ replied cmd_ack ∷ [])
perform keepalive nop t = (t, replied cmd_ack ∷ [])
perform keepalive save_for t = (record t { saving = true }, [])
perform keepalive give_back t = (t, replied t.scratchmem ∷ [])
perform keepalive detach t = (t, detached ∷ [])
perform keepalive cont t = (t, continued ∷ [])
perform keepalive unknown t = (t, [])

-- A line that the tracee writes.
unfoldable pub step : ℕ → Tracker → List ℕ → Tracker × List Action
step keepalive t line =
    if t.stopped
    then (t, [])
    else if t.saving
    then (record t { scratchmem = line; saving = false }, replied cmd_ack ∷ [])
    else perform keepalive (command_of line) t

-- `handle_stdcmd` on the lines that the tracee writes until it closes the pipe.
unfoldable pub handle_stdcmd : ℕ → Tracker → List (List ℕ) → List Action
handle_stdcmd keepalive t [] = if t.saving then replied cmd_ack ∷ [] else []
handle_stdcmd keepalive t (line ∷ lines) =
    let (t', actions) = step keepalive t line in actions ++ handle_stdcmd keepalive t' lines

-- The variables after some lines.
unfoldable pub after_lines : ℕ → Tracker → List (List ℕ) → Tracker
after_lines keepalive t [] = t
after_lines keepalive t (line ∷ lines) = after_lines keepalive (step keepalive t line).0 lines
