-- ===== src/Parse/Sample.antt =====
-- The text "1000-3000 rw-p 0 8:1 12  /a" of one map, and what it describes.
use faasafe.Pagemap.Scan.{IsFresh}
use faasafe.Maps.Names.{same_start}
use faasafe.Prelude.{
  refl, zero, suc, [], ◌∷◌, true, false, arith, ◌≡◌, ◌≢◌, ℕ, List, Bool, ◌+◌, ◌<◌, ◌≤◌, ◌&&◌, ◌==◌,
  not, length, get_or, sym, ◌∙◌,
}
use faasafe.Types.{Bytes}
use faasafe.Parse.Entry.{Entry, LineAt, map_of}
use faasafe.Parse.ReadMaps.{put_text, is_special}
use faasafe.Parse.Chunks.{IsWhole}

abbrev pub chunk : List ℕ
chunk =
    b'1' ∷ b'0' ∷ b'0' ∷ b'0' ∷ b'-' ∷ b'3' ∷ b'0' ∷ b'0' ∷ b'0' ∷ 32 ∷ b'r' ∷ b'w' ∷ b'-' ∷ b'p'
    ∷ 32 ∷ b'0' ∷ 32 ∷ b'8' ∷ b':' ∷ b'1' ∷ 32 ∷ b'1' ∷ b'2' ∷ 32 ∷ 32 ∷ b'/' ∷ b'a' ∷ b'\n' ∷ []

abbrev pub entry : Entry
entry = record {
  low = 1 ∷ 0 ∷ 0 ∷ 0 ∷ [];
  high = 3 ∷ 0 ∷ 0 ∷ 0 ∷ [];
  r = true;
  w = true;
  x = false;
  p = true;
  offset = 0 ∷ [];
  dev_major = 8 ∷ [];
  dev_minor = 1 ∷ [];
  inode = 1 ∷ 2 ∷ [];
  spaces = 2;
  name = b'/' ∷ b'a' ∷ [];
}

abbrev pub plain_to : ℕ → List ℕ → Bool
plain_to zero bs = true
plain_to (suc n) [] = true
plain_to (suc n) (b ∷ bs) = not (b == b'\n') && plain_to n bs

pub plain_to-ne :
    (n : ℕ) (bs : List ℕ) (k : ℕ)
    → n ≤ length bs
    → plain_to n bs ≡ true
    → k < n
    → get_or bs k 0 ≢ b'\n'
plain_to-ne zero bs k le h lt = absurd (omega arith)
plain_to-ne (suc n) [] k le h lt = absurd (omega arith)
plain_to-ne (suc n) (b ∷ bs) zero le h lt = ground (arith, h)
plain_to-ne (suc n) (b ∷ bs) (suc k) le h lt =
    let rest : plain_to n bs ≡ true = ground (arith, h) in
    plain_to-ne n bs k (omega arith) rest (omega arith)

pub put_text-at :
    (before : Bytes) (text : List ℕ) (k : ℕ)
    → k < length text
    → put_text before text k ≡ get_or text k 0
put_text-at before text k lt = ground arith

spaces_at : (before : Bytes) (k : ℕ) → k < 2 → put_text before chunk (23 + k) ≡ 32
spaces_at before zero lt = refl
spaces_at before (suc zero) lt = refl
spaces_at before (suc (suc k)) lt = absurd (omega arith)

pub entry-LineAt : (before : Bytes) → LineAt (put_text before chunk) 0 entry
entry-LineAt before = record {
  low = record {
    digits = (omega arith, refl, (omega arith, refl, (omega arith, refl, (omega arith, refl, tt))));
    behind = refl;
    small = omega arith;
  };
  high = record {
    digits = (omega arith, refl, (omega arith, refl, (omega arith, refl, (omega arith, refl, tt))));
    behind = refl;
    small = omega arith;
  };
  r = refl;
  w = refl;
  x = refl;
  p = refl;
  offset = record { digits = (omega arith, refl, tt); behind = refl; small = omega arith };
  dev_major = record { digits = (omega arith, refl, tt); behind = refl; small = omega arith };
  dev_minor = record { digits = (omega arith, refl, tt); behind = refl; small = omega arith };
  inode = record {
    digits = (omega arith, refl, (omega arith, refl, tt));
    behind = refl;
    small = omega arith;
  };
  spaces = spaces_at before;
  no_space = λ e. absurd (omega (arith, e));
  name = (refl, (λ e. absurd (omega (arith, e))), (refl, (λ e. absurd (omega (arith, e))), tt));
  line_end = refl;
  room = omega arith;
  one_line = λ k le lt e.
      plain_to-ne 27 chunk k (omega arith) refl lt
        (sym (put_text-at before chunk k (omega arith)) ∙ e);
}

not_special : is_special (map_of entry) ≡ false
unfolding same_start
not_special = refl

pub chunk-IsWhole : IsWhole chunk (entry ∷ [])
chunk-IsWhole = record {
  nonempty = omega arith;
  fits = omega arith;
  lines = λ before. (entry-LineAt before, not_special, refl);
}

pub entry-IsFresh : IsFresh (map_of entry)
entry-IsFresh = record {
  populated = refl;
  paged = refl;
  soft_dirty = refl;
  freed = refl;
  small = omega arith;
  range = refl;
  below = omega arith;
}
