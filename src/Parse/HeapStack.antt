-- ===== src/Parse/HeapStack.antt =====
-- The texts "1000-2000 rw-p 0 0:0 0 [heap]" and "5000-6000 rw-p 0 0:0 0 [stack]" of two maps, and
-- what they describe.
use faasafe.Pagemap.Scan.{IsFresh}
use faasafe.Maps.Names.{same_start}
use faasafe.Prelude.{refl, [], ◌∷◌, true, false, arith, ◌≡◌, ℕ, List, sym, ◌∙◌}
use faasafe.Types.{Bytes}
use faasafe.Parse.Entry.{Entry, LineAt, map_of}
use faasafe.Parse.ReadMaps.{put_text, is_special}
use faasafe.Parse.Chunks.{IsWhole}
use faasafe.Parse.Sample.{plain_to-ne, put_text-at}

abbrev pub heap_chunk : List ℕ
heap_chunk =
    b'1' ∷ b'0' ∷ b'0' ∷ b'0' ∷ b'-' ∷ b'2' ∷ b'0' ∷ b'0' ∷ b'0' ∷ 32 ∷ b'r' ∷ b'w' ∷ b'-' ∷ b'p'
    ∷ 32 ∷ b'0' ∷ 32 ∷ b'0' ∷ b':' ∷ b'0' ∷ 32 ∷ b'0' ∷ 32 ∷ b'[' ∷ b'h' ∷ b'e' ∷ b'a' ∷ b'p' ∷ b']'
    ∷ b'\n' ∷ []

abbrev pub heap_entry : Entry
heap_entry = record {
  low = 1 ∷ 0 ∷ 0 ∷ 0 ∷ [];
  high = 2 ∷ 0 ∷ 0 ∷ 0 ∷ [];
  r = true;
  w = true;
  x = false;
  p = true;
  offset = 0 ∷ [];
  dev_major = 0 ∷ [];
  dev_minor = 0 ∷ [];
  inode = 0 ∷ [];
  spaces = 1;
  name = b'[' ∷ b'h' ∷ b'e' ∷ b'a' ∷ b'p' ∷ b']' ∷ [];
}

heap-LineAt : (before : Bytes) → LineAt (put_text before heap_chunk) 0 heap_entry
heap-LineAt before = record {
  low = record {
    digits = (omega arith, refl, (omega arith, refl, (omega arith, refl, (omega arith, refl, tt))));
    behind = refl;
    small = omega arith;
  };
  high = record {
    digits = (omega arith, refl, (omega arith, refl, (omega arith, refl, (omega arith, refl, tt))));
    behind = refl;
    small = omega arith;
  };
  r = refl;
  w = refl;
  x = refl;
  p = refl;
  offset = record { digits = (omega arith, refl, tt); behind = refl; small = omega arith };
  dev_major = record { digits = (omega arith, refl, tt); behind = refl; small = omega arith };
  dev_minor = record { digits = (omega arith, refl, tt); behind = refl; small = omega arith };
  inode = record { digits = (omega arith, refl, tt); behind = refl; small = omega arith };
  spaces = λ k lt. let first : k ≡ 0 = omega arith in rw first refl;
  no_space = λ e. absurd (omega (arith, e));
  name = (
    refl,
    (λ e. absurd (omega (arith, e))),
    (
      refl,
      (λ e. absurd (omega (arith, e))),
      (
        refl,
        (λ e. absurd (omega (arith, e))),
        (
          refl,
          (λ e. absurd (omega (arith, e))),
          (refl, (λ e. absurd (omega (arith, e))), (refl, (λ e. absurd (omega (arith, e))), tt)),
        ),
      ),
    ),
  );
  line_end = refl;
  room = omega arith;
  one_line = λ k le lt e.
      plain_to-ne 29 heap_chunk k (omega arith) refl lt
        (sym (put_text-at before heap_chunk k (omega arith)) ∙ e);
}

heap_not_special : is_special (map_of heap_entry) ≡ false
unfolding same_start
heap_not_special = refl

pub heap-IsWhole : IsWhole heap_chunk (heap_entry ∷ [])
heap-IsWhole = record {
  nonempty = omega arith;
  fits = omega arith;
  lines = λ before. (heap-LineAt before, heap_not_special, refl);
}

pub heap-IsFresh : IsFresh (map_of heap_entry)
heap-IsFresh = record {
  populated = refl;
  paged = refl;
  soft_dirty = refl;
  freed = refl;
  small = omega arith;
  range = refl;
  below = omega arith;
}

abbrev pub stack_chunk : List ℕ
stack_chunk =
    b'5' ∷ b'0' ∷ b'0' ∷ b'0' ∷ b'-' ∷ b'6' ∷ b'0' ∷ b'0' ∷ b'0' ∷ 32 ∷ b'r' ∷ b'w' ∷ b'-' ∷ b'p'
    ∷ 32 ∷ b'0' ∷ 32 ∷ b'0' ∷ b':' ∷ b'0' ∷ 32 ∷ b'0' ∷ 32 ∷ b'[' ∷ b's' ∷ b't' ∷ b'a' ∷ b'c' ∷ b'k'
    ∷ b']' ∷ b'\n' ∷ []

abbrev pub stack_entry : Entry
stack_entry = record {
  low = 5 ∷ 0 ∷ 0 ∷ 0 ∷ [];
  high = 6 ∷ 0 ∷ 0 ∷ 0 ∷ [];
  r = true;
  w = true;
  x = false;
  p = true;
  offset = 0 ∷ [];
  dev_major = 0 ∷ [];
  dev_minor = 0 ∷ [];
  inode = 0 ∷ [];
  spaces = 1;
  name = b'[' ∷ b's' ∷ b't' ∷ b'a' ∷ b'c' ∷ b'k' ∷ b']' ∷ [];
}

stack-LineAt : (before : Bytes) → LineAt (put_text before stack_chunk) 0 stack_entry
stack-LineAt before = record {
  low = record {
    digits = (omega arith, refl, (omega arith, refl, (omega arith, refl, (omega arith, refl, tt))));
    behind = refl;
    small = omega arith;
  };
  high = record {
    digits = (omega arith, refl, (omega arith, refl, (omega arith, refl, (omega arith, refl, tt))));
    behind = refl;
    small = omega arith;
  };
  r = refl;
  w = refl;
  x = refl;
  p = refl;
  offset = record { digits = (omega arith, refl, tt); behind = refl; small = omega arith };
  dev_major = record { digits = (omega arith, refl, tt); behind = refl; small = omega arith };
  dev_minor = record { digits = (omega arith, refl, tt); behind = refl; small = omega arith };
  inode = record { digits = (omega arith, refl, tt); behind = refl; small = omega arith };
  spaces = λ k lt. let first : k ≡ 0 = omega arith in rw first refl;
  no_space = λ e. absurd (omega (arith, e));
  name = (
    refl,
    (λ e. absurd (omega (arith, e))),
    (
      refl,
      (λ e. absurd (omega (arith, e))),
      (
        refl,
        (λ e. absurd (omega (arith, e))),
        (
          refl,
          (λ e. absurd (omega (arith, e))),
          (
            refl,
            (λ e. absurd (omega (arith, e))),
            (refl, (λ e. absurd (omega (arith, e))), (refl, (λ e. absurd (omega (arith, e))), tt)),
          ),
        ),
      ),
    ),
  );
  line_end = refl;
  room = omega arith;
  one_line = λ k le lt e.
      plain_to-ne 30 stack_chunk k (omega arith) refl lt
        (sym (put_text-at before stack_chunk k (omega arith)) ∙ e);
}

stack_not_special : is_special (map_of stack_entry) ≡ false
unfolding same_start
stack_not_special = refl

pub stack-IsWhole : IsWhole stack_chunk (stack_entry ∷ [])
stack-IsWhole = record {
  nonempty = omega arith;
  fits = omega arith;
  lines = λ before. (stack-LineAt before, stack_not_special, refl);
}

pub stack-IsFresh : IsFresh (map_of stack_entry)
stack-IsFresh = record {
  populated = refl;
  paged = refl;
  soft_dirty = refl;
  freed = refl;
  small = omega arith;
  range = refl;
  below = omega arith;
}
