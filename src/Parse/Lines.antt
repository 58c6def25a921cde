-- ===== src/Parse/Lines.antt =====
-- `read_maps` on whole lines adds the maps that they describe, one after the other.
use mathlib.Core.Path.{subst, fun_ext}
use faasafe.Prelude.{
  refl, zero, suc, [], ◌∷◌, false, arith, ◌≡◌, ◌≢◌, ℕ, List, ◌+◌, ◌-◌, ◌<◌, ◌≤◌, ◌==◌, ap, ◌∙◌,
  if◌then◌else◌, ℕ_discrete, ==-refl, sym,
}
use faasafe.Types.{Bytes, Map}
use faasafe.Word.{add64, of_int, to_int}
use faasafe.Maps.{add_to_maps}
use faasafe.Parse.Line.{line_start, parse_line}
use faasafe.Parse.Entry.{Entry, LineAt, map_of, end_at, parse_line-map_of}
use faasafe.Parse.ReadMaps.{
  Reading, is_special, with_indexes, put_byte, take_map, read_byte, read_bytes,
}

-- The lines stand one behind the other from `start` on, up to `stop`, and none is skipped.
abbrev pub Lines : Bytes → ℕ → List Entry → ℕ → Type 0
Lines buffer start [] stop = start ≡ stop
Lines buffer start (l ∷ ls) stop =
    LineAt buffer start l
    × (is_special (map_of l) ≡ false)
    × Lines buffer (end_at start l + 1) ls stop

-- A map is added with its indexes, and counted.
abbrev pub add_map : Map → Reading → Reading
add_map m g = record g {
  ps = add_to_maps g.ps (with_indexes m g.total_num_pages g.total_num_writable_pages);
  total_num_pages = to_int (add64 (of_int g.total_num_pages) m.total_num_pages);
  total_num_writable_pages =
      if m.w
      then to_int (add64 (of_int g.total_num_writable_pages) m.total_num_pages)
      else g.total_num_writable_pages;
}

abbrev pub add_entries : List Entry → Reading → Reading
add_entries [] g = g
add_entries (l ∷ ls) g = add_entries ls (add_map (map_of l) g)

-- The line begins at the start of the buffer or behind a line end.
abbrev pub Begins : Bytes → ℕ → Type 0
Begins buffer zero = Unit
Begins buffer (suc x) = buffer x ≡ b'\n'

line_start-newline : (buffer : Bytes) (x : ℕ) → buffer x ≡ b'\n' → line_start buffer x ≡ x + 1
unfolding line_start
line_start-newline buffer zero e = rw e (omega arith)
line_start-newline buffer (suc x) e = rw e refl

line_start-here :
    (buffer : Bytes) (start : ℕ)
    → buffer start ≢ b'\n'
    → Begins buffer start
    → line_start buffer start ≡ start
unfolding line_start
line_start-here buffer zero ne b =
    let h : (buffer 0 == b'\n') ≡ false = ground (arith, ne) in rw h refl
line_start-here buffer (suc x) ne b =
    let h : (buffer (suc x) == b'\n') ≡ false = ground (arith, ne) in
    rw h (line_start-newline buffer x b ∙ omega arith)

line_start-found :
    (buffer : Bytes) (start k : ℕ)
    → Begins buffer start
    → ((i : ℕ) → start ≤ i → i ≤ start + k → buffer i ≢ b'\n')
    → line_start buffer (start + k) ≡ start
unfolding line_start
line_start-found buffer start zero b plain =
    let z : start + 0 ≡ start = omega arith in
    ap (line_start buffer) z
    ∙ line_start-here buffer start (plain start (omega arith) (omega arith)) b
line_start-found buffer start (suc k) b plain =
    let moved : start + suc k ≡ suc (start + k) = omega arith in
    let ne = plain (suc (start + k)) (omega arith) (omega arith) in
    let h : (buffer (suc (start + k)) == b'\n') ≡ false = ground (arith, ne) in
    ap (line_start buffer) moved
    ∙ rw h (line_start-found buffer start k b (λ i le lt. plain i le (omega arith)))

read_byte-plain : (i : ℕ) (g : Reading) → g.buffer i ≢ b'\n' → read_byte i g ≡ g
unfolding read_byte
read_byte-plain zero g ne = refl
read_byte-plain (suc x) g ne =
    let h : (g.buffer (suc x) == b'\n') ≡ false = ground (arith, ne) in rw h refl

read_bytes-plain :
    (k n i : ℕ) (g : Reading)
    → ((j : ℕ) → i ≤ j → j < i + k → g.buffer j ≢ b'\n')
    → read_bytes (k + n) i g ≡ read_bytes n (i + k) g
unfolding read_bytes
read_bytes-plain zero n i g plain =
    let a : 0 + n ≡ n = omega arith in let b : i + 0 ≡ i = omega arith in rw (a, b) refl
read_bytes-plain (suc k) n i g plain =
    let a : suc k + n ≡ suc (k + n) = omega arith in
    let b : i + 1 + k ≡ i + suc k = omega arith in
    ap (λ j. read_bytes j i g) a
    ∙ ap (read_bytes (k + n) (i + 1)) (read_byte-plain i g (plain i (omega arith) (omega arith)))
    ∙ read_bytes-plain k n (i + 1) g (λ j le lt. plain j (omega arith) (omega arith))
    ∙ ap (λ j. read_bytes n j g) b

put_byte-own : (buffer : Bytes) (y v : ℕ) → buffer y ≡ v → put_byte buffer y v ≡ buffer
put_byte-own buffer y v e = fun_ext λ i. elim (ℕ_discrete i y) [
  | yes same ↦ rw (same, ==-refl y) (sym e)
  | no ne ↦ let h : (i == y) ≡ false = ground (arith, ne) in rw h refl
]

take_map-adds :
    (m : Map) (y : ℕ) (g : Reading)
    → is_special m ≡ false
    → g.buffer y ≡ b'\n'
    → take_map m y g ≡ add_map m g
unfolding take_map
take_map-adds m y g plain e =
    rw plain (ap (λ b. record (add_map m g) { buffer = b }) (put_byte-own g.buffer y b'\n' e))

read_byte-taken :
    (x s y : ℕ) (m : Map) (g : Reading)
    → g.buffer (suc x) ≡ b'\n'
    → line_start g.buffer x ≡ s
    → parse_line g.buffer s ≡ (m, y)
    → read_byte (suc x) g ≡ take_map m y g
unfolding read_byte
read_byte-taken x s y m g newline starts parses = rw (newline, starts, parses) refl

-- The byte at the end of a line adds its map and leaves the buffer as it was.
read_byte-entry :
    (start : ℕ) (l : Entry) (g : Reading)
    → LineAt g.buffer start l
    → is_special (map_of l) ≡ false
    → Begins g.buffer start
    → read_byte (end_at start l) g ≡ add_map (map_of l) g
read_byte-entry start l g at_start plain b =
    let k = end_at start l - start - 1 in
    let moved : end_at start l ≡ suc (start + k) = omega arith in
    ap (λ j. read_byte j g) moved
    ∙ read_byte-taken (start + k) start (end_at start l) (map_of l) g
        (sym (ap g.buffer moved) ∙ at_start.line_end)
        (line_start-found g.buffer start k b
          (λ i le lt. at_start.one_line i le (omega (arith, moved))))
        (parse_line-map_of g.buffer start l at_start)
    ∙ take_map-adds (map_of l) (end_at start l) g plain at_start.line_end

Lines-le :
    (buffer : Bytes) (ls : List Entry) (start stop : ℕ) → Lines buffer start ls stop → start ≤ stop
Lines-le buffer [] start stop lines = omega (arith, lines)
Lines-le buffer (l ∷ ls) start stop lines =
    omega (arith, Lines-le buffer ls (end_at start l + 1) stop lines.2)

Begins-behind : (buffer : Bytes) (y : ℕ) → buffer y ≡ b'\n' → Begins buffer (y + 1)
Begins-behind buffer y e = let moved : suc y ≡ y + 1 = omega arith in subst (Begins buffer) moved e

-- On lines that stand one behind the other, the loop adds the maps that they describe.
pub read_bytes-add_entries :
    (ls : List Entry) (n start stop : ℕ) (g : Reading)
    → Begins g.buffer start
    → Lines g.buffer start ls stop
    → start + n ≡ stop
    → read_bytes n start g ≡ add_entries ls g
unfolding read_bytes
read_bytes-add_entries [] n start stop g b lines size =
    let none_left : n ≡ 0 = omega (arith, lines) in rw none_left refl
read_bytes-add_entries (l ∷ ls) n start stop g b lines size =
    let k = end_at start l - start in
    let le = Lines-le g.buffer ls (end_at start l + 1) stop lines.2 in
    let split : n ≡ k + suc (n - k - 1) = omega (arith, le) in
    let there : start + k ≡ end_at start l = omega arith in
    ap (λ j. read_bytes j start g) split
    ∙ read_bytes-plain k (suc (n - k - 1)) start g
        (λ j le' lt. lines.0.one_line j le' (omega (arith, lt)))
    ∙ ap (λ j. read_bytes (n - k - 1) (j + 1) (read_byte j g)) there
    ∙ ap (read_bytes (n - k - 1) (end_at start l + 1)) (read_byte-entry start l g lines.0 lines.1 b)
    ∙ read_bytes-add_entries ls (n - k - 1) (end_at start l + 1) stop (add_map (map_of l) g)
        (Begins-behind g.buffer (end_at start l) lines.0.line_end) lines.2 (omega (arith, le, size))
