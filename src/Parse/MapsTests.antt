-- ===== src/Parse/MapsTests.antt =====
-- Runs of `read_maps` on a text of one line.
use faasafe.Parse.LaidOut.{no_totals}
use faasafe.Maps.{init_process_mem_info}
use faasafe.Prelude.{[], ◌∷◌, arith, ◌≡◌}
use faasafe.Types.{Bytes}
use faasafe.Parse.Entry.{map_of, parse_line-map_of}
use faasafe.Parse.Line.{parse_line}
use faasafe.Parse.ReadMaps.{put_text, read_maps}
use faasafe.Parse.Chunks.{maps_of_all, count_maps, read_maps-count_maps}
use faasafe.Parse.Result.{IsReadMaps, read_maps-IsReadMaps}
use faasafe.Parse.Sample.{chunk, entry, entry-LineAt, chunk-IsWhole, entry-IsFresh}

abbrev unread : Bytes
unread i = 7

parse_line-map_of_example : parse_line (put_text unread chunk) 0 ≡ (map_of entry, 27)
parse_line-map_of_example = parse_line-map_of (put_text unread chunk) 0 entry (entry-LineAt unread)

read_maps-IsReadMaps_example :
    IsReadMaps
      (maps_of_all ((entry ∷ []) ∷ []))
      (read_maps unread (chunk ∷ []) (init_process_mem_info 5)).0
      (read_maps unread (chunk ∷ []) (init_process_mem_info 5)).1
read_maps-IsReadMaps_example =
    read_maps-IsReadMaps unread (chunk ∷ []) ((entry ∷ []) ∷ []) 5 (chunk-IsWhole, tt)
      (entry-IsFresh, tt) (omega arith) (omega arith)

read_maps-count_maps_example :
    let t = count_maps (maps_of_all ((entry ∷ []) ∷ [])) (no_totals 5) in
    read_maps unread (chunk ∷ []) (init_process_mem_info 5) ≡ (t.ps, t.pages)
read_maps-count_maps_example =
    read_maps-count_maps unread (chunk ∷ []) ((entry ∷ []) ∷ []) (init_process_mem_info 5)
      (chunk-IsWhole, tt)
