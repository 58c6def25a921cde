-- ===== src/Lib.antt =====
-- Groundhog restores a process to a checkpoint between requests: faasafe. This development models
-- how it takes a checkpoint, decides what has changed, and writes that back.
--
-- The program keeps two descriptions of the tracee (`process_mem_info_t`): the checkpointed state,
-- with a copy of all resident pages, and the current one. A checkpoint reads the memory maps and
-- the pagemap, then copies the pages (`populate_memory_copy_info`). A restoration reads the
-- current state, compares the two lists of maps (`diff_process_states`), undoes the changes of the
-- mappings, and writes the pages back (`restore_soft_dirty_memory`) and the registers of the threads. The
-- threads are stopped before and let go behind either.
--
-- The files, with the sources under groundhog_origin/src:
-- - Types: structs.h, the records and the macros on a pagemap entry.
-- - Word: the arithmetic of `uint64_t` and `int`, with their wrap-around.
-- - Maps: mem_helpers.c, the growing table of maps (`init_process_mem_info`, `add_to_maps`); Maps.Names,
--   the search for a map by its name (`get_map_index_by_name`).
-- - Diff: mem_diff.c and proc_cr.c, `map_regions_cmp`, `diff_process_maps_iterator`,
--   `diff_process_maps`, `diff_process_states`. The `switch` of the loop is `record_case`. Diff.Merge
--   is its specification, a merge of two lists.
-- - Memory: the tracee's memory behind /proc/PID/mem, as a function from addresses to bytes, and the
--   loops that repeat a short `pread` or `pwrite`. How much the kernel transfers at a call is a
--   parameter, `MemFile`; `Delivers` is the documented range of it, for a live process and mapped
--   memory.
-- - Parse: proc_parsers.c, `parse_dec_untill`, `parse_hex2dec_untill`; Parse.Line and Parse.ReadMaps,
--   `read_maps`, on the texts that its reads deliver, byte by byte in its buffer. Parse.Entry says what a
--   line of the kernel is, `LineAt`, and which map it describes, `map_of`.
-- - Pagemap: proc_parsers.c, `read_range_pagemap`, and mem_helpers.c, `add_page_to_map`,
--   `add_page_to_map_at_index`, `populate_page_info`. The pagemap file is a parameter,
--   `PagemapFile`; `DeliversAll` says that a read of it is not short.
-- - Snapshot: proc_parsers.c, `populate_memory_copy_info_map`, and mem_helpers.c,
--   `populate_memory_copy_info`. Snapshot.Capture puts it behind the reading of the pagemap, as
--   `checkpoint_process_sd` does.
-- - Checkpoint: proc_cr.c, `clear_soft_dirty_bits` and the parts of `capture_process_state`,
--   `checkpoint_process_sd` and `checkpoint` that work on the captured state.
-- - Restore: proc_cr.c, `restore_soft_dirty_memory_map` and `restore_soft_dirty_memory`. The injected
--   `madvise` is a parameter; `Discards` is its documented effect.
-- - Inject: syscall_injector.c, `do_clean_syscall`. `ptrace` and `waitpid` are the interface
--   `Ptrace`; `IsTracee` is their documented behaviour. Inject.Calls has the wrappers (`do_munmap`,
--   ...), and the interface `Calls`, which they fill.
-- - Mappings: proc_cr.c, `remove_added_memory`, `restore_removed_memory`,
--   `restore_memory_protection`, `restore_brk`, `zero_stack`, for a tracee with the interface
--   `Calls`; `HasSpace` and `CanProtect` are the documented effect of the calls on an address space. Mappings.Kept is about
--   states whose maps have kept their ranges, protections and names, `SameOutlines`.
-- - Threads: proc_control.c, `seize_process`, `interrupt_process`, `ptrace_attach`,
--   `detach_or_cont_process`, `ptrace_detach`, with `Kernel` as the interface of `ptrace` and `wait4`
--   and `IsKernel` as their documented behaviour: each thread is untraced, running, stopping, stopped or exited, and
--   only one that PTRACE_INTERRUPT has told to stop comes to a stop.
--   Threads.Text: `strtoul` and `sscanf` of the C library, on the names in /proc/PID/task. Threads.Tids:
--   proc_parsers.c, `get_tids`. Threads.Jobs: `wait_process`, `continue_process`, with `Child`
--   as the reports that a child is to give.
-- - Registers: proc_cr.c, `store_threads_registers`, `restore_threads_registers`, with the interface
--   `Contexts` and its documented behaviour `IsContexts`.
-- - Cycle: proc_cr.c, `capture_process_state`, `checkpoint_process_sd`, `restore_process_sd`,
--   `checkpoint`, `restore`, `diff`: the parts above on one state of the tracee, `Host`. `IsQuiet` is a
--   tracee whose maps and memory stay as they are while its threads are stopped. `IsWritten`, of Cycle.Written, describes
--   the two states of a process that has only written to its memory, and `HasWritten`, of Cycle.Restored, such
--   a tracee, of which Cycle.Reread says what is read; Cycle.Picked says which maps the comparison then picks.
-- - Stats: stat_helper.c, `aggregate_dirty_stats`.
-- - Commands: communicator.c, `handle_stdcmd`, as a step on each line that the tracee writes, whose
--   calls are recorded as actions.
-- - Outcome: a function returns, fails an assertion or exits, or runs out of fuel. Prelude: shared lemmas.
--
-- Numbers are natural numbers; each operation on a `uint64_t` or an `int` wraps as it does in C.
-- Arrays are lists with their unused slots; a read out of range is a cleared slot. The loops that
-- are bounded by no counter run on fuel: the comparison on the number of maps of both states and
-- one, the transfers on the number of bytes and one, since each round but the last moves an index
-- or a byte. The theorems say that they end within it. The bounds asked for, 2 ^ 29 maps and 2 GiB
-- in a map, keep the `int`s of the program from overflowing.
--
-- The thread pool works on the maps in any order; the model takes them in order, as the code does
-- with the CONCURRENCY of 1 that config.h sets. The wait for the stop of a thread is bounded by
-- two rounds, since a thread that has ended is not waited for again. Not modelled:
-- `restore_registers` and `restore_memory_shard`, which nothing calls; the opening of the files under
-- /proc and the reading and writing of dumps; the timers and reports (print_helpers.c, the rest of
-- stat_helper.c, stat_dump.c, libs); and the launchers.
pub mod Prelude
pub mod Word
pub mod Types
pub mod Maps
pub mod Checkpoint
pub mod Commands
pub mod Cycle
pub mod Diff
pub mod Inject
pub mod Mappings
pub mod Memory
pub mod Outcome
pub mod Pagemap
pub mod Parse
pub mod Snapshot
pub mod Stats
pub mod Threads
pub mod Restore
pub mod Registers
