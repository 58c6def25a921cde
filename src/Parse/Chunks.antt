-- ===== src/Parse/Chunks.antt =====
-- `read_maps` on reads that each deliver whole lines: the table that it leaves.
use faasafe.Prelude.{
  refl, [], ◌∷◌, ◌++◌, arith, ◌≡◌, ℕ, List, ◌<◌, ◌≤◌, length, ap, ◌∙◌, if◌then◌else◌, sym,
  take-length,
}
use faasafe.Types.{Bytes, Map, MemInfo}
use faasafe.Word.{add64, of_int, to_int}
use faasafe.Maps.{add_to_maps}
use faasafe.Parse.Line.{bufsiz}
use faasafe.Parse.Entry.{Entry, map_of}
use faasafe.Parse.ReadMaps.{Reading, with_indexes, put_text, read_chunks, read_maps, read_bytes}
use faasafe.Parse.Lines.{Lines, add_map, add_entries, read_bytes-add_entries}

-- The table and the numbers of pages and of writable pages so far.
pub record Totals : Type 0 where
  pub pages : ℕ
  pub writable_pages : ℕ
  pub ps : MemInfo

-- The specification: a map is added with its indexes, and counted.
abbrev pub count_map : Map → Totals → Totals
count_map m t = record {
  pages = to_int (add64 (of_int t.pages) m.total_num_pages);
  writable_pages =
      if m.w then to_int (add64 (of_int t.writable_pages) m.total_num_pages) else t.writable_pages;
  ps = add_to_maps t.ps (with_indexes m t.pages t.writable_pages);
}

abbrev pub count_maps : List Map → Totals → Totals
count_maps [] t = t
count_maps (m ∷ ms) t = count_maps ms (count_map m t)

abbrev pub maps_of : List Entry → List Map
maps_of [] = []
maps_of (l ∷ ls) = map_of l ∷ maps_of ls

abbrev pub maps_of_all : List (List Entry) → List Map
maps_of_all [] = []
maps_of_all (ls ∷ lss) = maps_of ls ++ maps_of_all lss

-- A read delivers these lines, and no others.
pub record IsWhole (chunk : List ℕ) (ls : List Entry) : Type 0 where
  pub nonempty : 0 < length chunk
  pub fits : length chunk ≤ bufsiz
  pub lines : (before : Bytes) → Lines (put_text before chunk) 0 ls (length chunk)

abbrev pub AllWhole : List (List ℕ) → List (List Entry) → Type 0
AllWhole [] [] = Unit
AllWhole [] (ls ∷ lss) = ⊥
AllWhole (chunk ∷ chunks) [] = ⊥
AllWhole (chunk ∷ chunks) (ls ∷ lss) = IsWhole chunk ls × AllWhole chunks lss

abbrev totals : Reading → Totals
totals g = record {
  pages = g.total_num_pages;
  writable_pages = g.total_num_writable_pages;
  ps = g.ps;
}

totals-add_entries :
    (ls : List Entry) (g : Reading) → totals (add_entries ls g) ≡ count_maps (maps_of ls) (totals g)
totals-add_entries [] g = refl
totals-add_entries (l ∷ ls) g = totals-add_entries ls (add_map (map_of l) g)

count_maps-append :
    (ms ns : List Map) (t : Totals) → count_maps (ms ++ ns) t ≡ count_maps ns (count_maps ms t)
count_maps-append [] ns t = refl
count_maps-append (m ∷ ms) ns t = count_maps-append ms ns (count_map m t)

-- One read.
read_chunks-step :
    (c : ℕ) (chunk : List ℕ) (chunks : List (List ℕ)) (ls : List Entry) (g : Reading)
    → IsWhole (c ∷ chunk) ls
    → read_chunks ((c ∷ chunk) ∷ chunks) g
      ≡ read_chunks chunks (add_entries ls (record g { buffer = put_text g.buffer (c ∷ chunk) }))
unfolding read_chunks
read_chunks-step c chunk chunks ls g whole =
    let with_text : List ℕ → Reading = λ text. record g { buffer = put_text g.buffer text } in
    ap (λ text. read_chunks chunks (read_bytes (length text) 0 (with_text text)))
      (take-length (c ∷ chunk) bufsiz whole.fits)
    ∙ ap (read_chunks chunks) (
        read_bytes-add_entries ls (length (c ∷ chunk)) 0 (length (c ∷ chunk))
          (with_text (c ∷ chunk)) tt (whole.lines g.buffer) (omega arith))

totals-read_chunks :
    (chunks : List (List ℕ)) (lss : List (List Entry)) (g : Reading)
    → AllWhole chunks lss
    → totals (read_chunks chunks g) ≡ count_maps (maps_of_all lss) (totals g)
unfolding read_chunks
totals-read_chunks [] [] g whole = refl
totals-read_chunks [] (ls ∷ lss) g whole = absurd whole
totals-read_chunks (chunk ∷ chunks) [] g whole = absurd whole
totals-read_chunks ([] ∷ chunks) (ls ∷ lss) g whole = absurd (omega (arith, whole.0.nonempty))
totals-read_chunks ((c ∷ chunk) ∷ chunks) (ls ∷ lss) g whole =
    let g' : Reading = record g { buffer = put_text g.buffer (c ∷ chunk) } in
    ap totals (read_chunks-step c chunk chunks ls g whole.0)
    ∙ totals-read_chunks chunks lss (add_entries ls g') whole.1
    ∙ ap (count_maps (maps_of_all lss)) (totals-add_entries ls g')
    ∙ sym (count_maps-append (maps_of ls) (maps_of_all lss) (totals g))

-- If each read delivers whole lines, none of them of a map that is skipped, `read_maps` adds the
-- map that each line describes, `map_of`, in order, each with the number of pages and of writable
-- pages before it as its indexes, and returns the number of all pages.
pub read_maps-count_maps :
    (unread : Bytes) (chunks : List (List ℕ)) (lss : List (List Entry)) (ps : MemInfo)
    → AllWhole chunks lss
    → let t = count_maps (maps_of_all lss) (record { pages = 0; writable_pages = 0; ps = ps }) in
      read_maps unread chunks ps ≡ (t.ps, t.pages)
unfolding read_maps
read_maps-count_maps unread chunks lss ps whole =
    ap (λ (t : Totals). (t.ps, t.pages)) (totals-read_chunks chunks lss _ whole)
