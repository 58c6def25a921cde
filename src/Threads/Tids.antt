-- ===== src/Threads/Tids.antt =====
-- groundhog_origin/src/proc_parsers.c: `get_tids`, the list of the threads of a process. Nothing calls it.
use faasafe.Prelude.{
  none, some, ℕ, Bool, Option, List, if◌then◌else◌, ◌+◌, ◌-◌, ◌*◌, ◌/◌, ◌==◌, ◌^◌, ◌||◌, leb, ltb,
  not, set, replicate, [], ◌∷◌, ◌++◌, length, ◌&&◌,
}
use faasafe.Threads.Text.{scan_int}

-- The values of `errno` that it leaves; a failed `readdir` leaves its own.
pub data TidsError : Type 0 where
  einval esrch enomem eio : TidsError
  readdir_error : ℕ → TidsError

-- The directory /proc/PID/task: its names, the error that ends the reading, 0 for none, and
-- whether `closedir` succeeds.
pub record Directory : Type 0 where
  pub names : List (List ℕ)
  pub read_errno : ℕ
  pub closes : Bool

-- `*listptr` and `*sizeptr`; the slots of the list that have not been set hold 0 here.
pub record TidList : Type 0 where
  pub list : List ℕ
  pub size : ℕ

-- How the function ends: with the number of ids, or with 0 and an error; and what the caller's
-- variables hold.
pub data TidsResult : Type 0 where
  found : ℕ → TidList → TidsResult
  no_list : TidsError → TidList → TidsResult

-- `(used | 127) + 128`
abbrev pub next_size : ℕ → ℕ
next_size used = used / 128 * 128 + 127 + 128

-- `value < 1`
abbrev pub is_invalid : ℕ → Bool
is_invalid value = value == 0 || leb (2 ^ 31) value

-- The parameter says whether a `realloc` to a number of slots succeeds.
module _ (alloc : ℕ → Bool) where
  -- The list with room for another id, if `size` slots are allocated.
  abbrev pub resize : ℕ → TidList → TidList
  resize size l = record { list = l.list ++ replicate (size - length l.list) 0; size = size }

  -- Behind the loop.
  unfoldable pub finish_tids : Directory → ℕ → TidList → TidsResult
  finish_tids dir used l =
      let last = if leb l.size used then resize (used + 1) l else l in
      if not (dir.read_errno == 0)
      then no_list (readdir_error dir.read_errno) l
      else if not dir.closes
      then no_list eio l
      else if ltb used 1
      then no_list esrch l
      else if leb l.size used && not (alloc (used + 1))
      then no_list enomem l
      else found used (record last { list = set last.list used 0 })

  -- The loop, over the names that are left; `used` ids have been found.
  unfoldable pub tids_loop : Directory → List (List ℕ) → ℕ → TidList → TidsResult
  tids_loop dir [] used l = finish_tids dir used l
  tids_loop dir (name ∷ names) used l = elim (scan_int name) [
    | none ↦ tids_loop dir names used l
    | some value ↦
        let skipped = tids_loop dir names used l in
        let grown = if leb l.size used then resize (next_size used) l else l in
        let next =
          tids_loop dir names (used + 1) (record grown { list = set grown.list used value }) in
        if is_invalid value
        then skipped
        else if leb l.size used && not (alloc (next_size used))
        then no_list enomem l
        else next
  ]

  -- `get_tids`, with the pointers tested for null, the directory, or `none` if it cannot be opened, and the
  -- list that the caller passes. (The name of the directory always fits its buffer.)
  unfoldable pub get_tids : Bool → ℕ → Option Directory → TidList → TidsResult
  get_tids has_pointers pid opened l =
      let own = if ltb 0 l.size then l else record { list = []; size = 0 } in
      if not has_pointers || is_invalid pid
      then no_list einval l
      else elim opened [ none ↦ no_list esrch own | some dir ↦ tids_loop dir dir.names 0 own ]
