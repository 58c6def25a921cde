-- ===== src/Memory/Tests.antt =====
-- A transfer of three bytes that the kernel delivers one by one.
use faasafe.Prelude.{refl, arith, ◌≡◌, ℕ, ◌&&◌, some, if◌then◌else◌, ◌<◌, ltb, ◌≤◌}
use faasafe.Types.{Bytes}
use faasafe.Memory.{MemFile, Delivers, Transfer, read_loop, write_loop, ltb}
use faasafe.Memory.Loops.{Finished, read_loop-Finished, write_loop-Finished}

-- Three bytes or fewer come one by one, anything else at once.
abbrev few_at_once : ℕ → ℕ
few_at_once n = if ltb 0 n && ltb n 4 then 1 else n

abbrev dribbling : MemFile
dribbling = record {
  pread_count = λ m a n. some (few_at_once n);
  pwrite_count = λ m a n. some (few_at_once n);
}

few_at_once_range : (n : ℕ) → 0 < n → (0 < few_at_once n) × (few_at_once n ≤ n)
few_at_once_range n h = ground arith

dribbling-Delivers : Delivers dribbling
dribbling-Delivers = record {
  pread_some =
      λ m a n h. (few_at_once n, refl, (few_at_once_range n h).0, (few_at_once_range n h).1);
  pwrite_some =
      λ m a n h. (few_at_once n, refl, (few_at_once_range n h).0, (few_at_once_range n h).1);
  pread_page = λ m a. refl;
  pwrite_page = λ m a. refl;
}

abbrev zeros : Bytes
zeros q = 0

abbrev counting : Bytes
counting q = q

abbrev begin : Transfer
begin = record { into = zeros; r = 0 }

read_loop-Finished_example :
    (t : Transfer) × (read_loop dribbling counting 10 4096 3 3 begin ≡ some t)
    × Finished zeros 10 counting 4096 3 t
read_loop-Finished_example =
    read_loop-Finished dribbling dribbling-Delivers zeros counting 10 4096 3 (omega arith)
      (omega arith) 3 begin (omega arith) (omega arith) (λ q. ground arith)

write_loop-Finished_example :
    (t : Transfer) × (write_loop dribbling counting 10 4096 3 3 begin ≡ some t)
    × Finished zeros 4096 counting 10 3 t
write_loop-Finished_example =
    write_loop-Finished dribbling dribbling-Delivers zeros counting 10 4096 3 (omega arith)
      (omega arith) 3 begin (omega arith) (omega arith) (λ q. ground arith)
