-- ===== src/Diff/Tables.antt =====
-- The four tables of the difference hold what the events say.
use mathlib.Core.Path.{subst}
use faasafe.Prelude.{
  ℕ, List, suc, ◌+◌, [], ◌++◌, ◌∷◌, ◌≡◌, ◌≤◌, arith, ◌∙◌, ap, sym, append-nil, append_assoc, length,
  ◌<◌, length-take, refl, zero,
}
use faasafe.Types.{Map, MemInfo, MemDiff}
use faasafe.Maps.{add_to_maps, live, init_process_mem_info}
use faasafe.Maps.Table.{IsTable, max_maps, live-add_to_maps, maps_count-add_to_maps, init-IsTable}
use faasafe.Diff.{identical, record_case, empty_diff, finished, diff_process_maps, ℕ, suc}
use faasafe.Diff.Merge.{
  Event, pair, gone, replay, replay_event, merge, collect, added_of, removed_of, modified_of,
  modified_protection_of,
}
use faasafe.Diff.Loop.{diff_process_maps-replay}

-- A well-formed table with room for `n` more maps.
pub record HasRoom (n : ℕ) (ps : MemInfo) : Type 0 where
  pub table : IsTable ps
  pub room : ps.maps_count + n ≤ max_maps

-- The table `ps'` holds the maps of `ps`, then `ms`.
pub record Grows (n : ℕ) (ps : MemInfo) (ms : List Map) (ps' : MemInfo) : Type 0 where
  pub has_room : HasRoom n ps'
  pub maps_are : live ps' ≡ live ps ++ ms

Grows-add :
    {n : ℕ} {ps : MemInfo} (m : Map) → HasRoom (suc n) ps → Grows n ps (m ∷ []) (add_to_maps ps m)
Grows-add {ps = ps} m h =
    let few : ps.maps_count < max_maps = omega arith in
    let (t, l) = live-add_to_maps ps h.table few m in
    record {
      has_room = record {
        table = t;
        room = omega (arith, maps_count-add_to_maps ps h.table few m);
      };
      maps_are = l;
    }

Grows-trans :
    {n k : ℕ} {ps ps' ps'' : MemInfo} {ms ms' : List Map}
    → Grows n ps ms ps'
    → Grows k ps' ms' ps''
    → Grows k ps (ms ++ ms') ps''
Grows-trans {ps = ps} {ms = ms} {ms' = ms'} g g' = record {
  has_room = g'.has_room;
  maps_are = g'.maps_are ∙ ap (λ l. l ++ ms') g.maps_are ∙ append_assoc (live ps) ms ms';
}

Grows-nil : {n k : ℕ} {ps : MemInfo} → n ≤ k → HasRoom k ps → Grows n ps [] ps
Grows-nil {ps = ps} le h = record {
  has_room = record { table = h.table; room = omega arith };
  maps_are = sym (append-nil (live ps));
}

pub record Tables (n : ℕ) (d : MemDiff) : Type 0 where
  pub added_room : HasRoom n d.added
  pub removed_room : HasRoom n d.removed
  pub modified_room : HasRoom n d.modified
  pub modified_protection_room : HasRoom n d.modified_protection

-- The tables of `d'` are those of `d`, extended by what the events `es` record.
pub record Records (n : ℕ) (es : List Event) (d d' : MemDiff) : Type 0 where
  pub added_grows : Grows n d.added (collect added_of es) d'.added
  pub removed_grows : Grows n d.removed (collect removed_of es) d'.removed
  pub modified_grows : Grows n d.modified (collect modified_of es) d'.modified
  pub modified_protection_grows :
      Grows n d.modified_protection (collect modified_protection_of es) d'.modified_protection

-- The same for one event, as a tuple.
abbrev RecordsOne : ℕ → Event → MemDiff → MemDiff → Type 0
RecordsOne n e d d' =
    Grows n d.added (added_of e) d'.added
    × Grows n d.removed (removed_of e) d'.removed
    × Grows n d.modified (modified_of e) d'.modified
    × Grows n d.modified_protection (modified_protection_of e) d'.modified_protection

Grows-same : {n : ℕ} {ps : MemInfo} → HasRoom (suc n) ps → Grows n ps [] ps
Grows-same {n} h = Grows-nil {k = suc n} (omega arith) h

ruleset growth = (Grows-add, Grows-same)

module _ {n : ℕ} (d : MemDiff) (t : Tables (suc n) d) where
  replay_event-Records : (e : Event) → RecordsOne n e d (replay_event e d)
  unfolding record_case
  replay_event-Records (gone a) = search (growth, t)
  replay_event-Records (pair identical a b) = search (growth, t)
  replay_event-Records _ = search (growth, t)

replay-Records :
    (n k : ℕ) (es : List Event) (d : MemDiff)
    → length es + n ≤ k
    → Tables k d
    → Records n es d (replay es d)
unfolding replay
replay-Records n k [] d le t = record {
  added_grows = Grows-nil {k = k} (omega arith) t.added_room;
  removed_grows = Grows-nil {k = k} (omega arith) t.removed_room;
  modified_grows = Grows-nil {k = k} (omega arith) t.modified_room;
  modified_protection_grows = Grows-nil {k = k} (omega arith) t.modified_protection_room;
}
replay-Records n zero (e ∷ es) d le t = absurd (omega arith)
replay-Records n (suc k) (e ∷ es) d le t =
    let one = replay_event-Records d t e in
    let later : Records n es (replay_event e d) (replay es (replay_event e d)) =
      replay-Records n k es (replay_event e d) (omega arith) (record {
        added_room = one.0.has_room;
        removed_room = one.1.has_room;
        modified_room = one.2.has_room;
        modified_protection_room = one.3.has_room;
      }) in
    record {
      added_grows = Grows-trans one.0 later.added_grows;
      removed_grows = Grows-trans one.1 later.removed_grows;
      modified_grows = Grows-trans one.2 later.modified_grows;
      modified_protection_grows = Grows-trans one.3 later.modified_protection_grows;
    }

length-merge : (as_ bs : List Map) → length (merge as_ bs) ≤ length as_ + length bs
unfolding merge
length-merge [] [] = omega arith
length-merge [] (b ∷ bs) = omega (arith, length-merge [] bs)
length-merge (a ∷ as_) [] = omega (arith, length-merge as_ [])
length-merge (a ∷ as_) (b ∷ bs) =
    ground (arith, length-merge (a ∷ as_) bs, length-merge as_ bs, length-merge as_ (b ∷ bs))

init-HasRoom : (n pid : ℕ) → n ≤ max_maps → HasRoom n (init_process_mem_info pid)
unfolding init_process_mem_info
init-HasRoom n pid h = record { table = init-IsTable pid; room = omega arith }

live-init : (pid : ℕ) → live (init_process_mem_info pid) ≡ []
unfolding init_process_mem_info
live-init pid = refl

-- What `diff_process_maps` leaves: four well-formed tables, which hold what the events of the merge
-- of the two lists of maps record, and nothing else.
pub record Result (as_ bs : List Map) (d : MemDiff) : Type 0 where
  pub tables :
      IsTable d.added × IsTable d.removed × IsTable d.modified × IsTable d.modified_protection
  pub added_are : live d.added ≡ collect added_of (merge as_ bs)
  pub removed_are : live d.removed ≡ collect removed_of (merge as_ bs)
  pub modified_are : live d.modified ≡ collect modified_of (merge as_ bs)
  pub modified_protection_are :
      live d.modified_protection ≡ collect modified_protection_of (merge as_ bs)

-- For well-formed tables of fewer than 2 ^ 29 maps together, `diff_process_maps` ends with a
-- difference: it neither runs out of fuel nor exits. Its four tables are well formed, and hold
-- exactly what the merge of the two lists of maps records.
pub diff_process_maps-Result :
    (ini fin : MemInfo)
    → IsTable ini
    → IsTable fin
    → ini.maps_count + fin.maps_count < max_maps
    → (d : MemDiff) × (diff_process_maps ini fin ≡ finished d) × Result (live ini) (live fin) d
diff_process_maps-Result ini fin ti tf few = (
  replay es d,
  diff_process_maps-replay ini fin few (omega arith) (omega arith),
  record {
    tables = (
      r.added_grows.has_room.table, r.removed_grows.has_room.table, r.modified_grows.has_room.table,
      r.modified_protection_grows.has_room.table,
    );
    added_are = r.added_grows.maps_are ∙ from_empty added_of;
    removed_are = r.removed_grows.maps_are ∙ from_empty removed_of;
    modified_are = r.modified_grows.maps_are ∙ from_empty modified_of;
    modified_protection_are =
        r.modified_protection_grows.maps_are ∙ from_empty modified_protection_of;
  },
)
  where
    es : List Event
    es = merge (live ini) (live fin)

    d : MemDiff
    d = empty_diff ini.pid

    room : HasRoom (length es) (init_process_mem_info ini.pid)
    room = init-HasRoom (length es) ini.pid (
        omega (
          arith,
          length-merge (live ini) (live fin),
          length-take ini.maps_count ini.maps (omega arith),
          length-take fin.maps_count fin.maps (omega arith),
        ))

    r : Records 0 es d (replay es d)
    r = replay-Records 0 (length es) es d (omega arith) (record {
      added_room = room;
      removed_room = room;
      modified_room = room;
      modified_protection_room = room;
    })

    from_empty :
        (f : Event → List Map) → live (init_process_mem_info ini.pid) ++ collect f es ≡ collect f es
    from_empty f = ap (λ l. l ++ collect f es) (live-init ini.pid)

-- The same of a given result.
pub finished-Result :
    (ini fin : MemInfo)
    → IsTable ini
    → IsTable fin
    → ini.maps_count + fin.maps_count < max_maps
    → (d : MemDiff) → diff_process_maps ini fin ≡ finished d
    → Result (live ini) (live fin) d
finished-Result ini fin ti tf few d ends =
    let (d', e, r) = diff_process_maps-Result ini fin ti tf few in
    let same : d' ≡ d = cc in subst (Result (live ini) (live fin)) same r
