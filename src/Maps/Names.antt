-- ===== src/Maps/Names.antt =====
-- groundhog_origin/src/mem_helpers.c: finding a map by its name, as the heap and the stack are.
use faasafe.Prelude.{
  ℕ, zero, suc, ◌+◌, ◌-◌, Bool, true, not, ◌&&◌, ◌||◌, Option, none, some, List, [], ◌∷◌, ltb, ◌==◌,
  if◌then◌else◌, get_or, length, refl, inl, inr, false, arith, ◌≡◌, Bool-cases, ◌<◌, ◌∙◌, ◌≤◌, ap,
}
use faasafe.Types.{Map, MemInfo, zero_map}

-- The next byte of a buffer that is filled up with zeros, and the rest of it.
abbrev byte : List ℕ → ℕ
byte [] = 0
byte (c ∷ s) = c

abbrev rest : List ℕ → List ℕ
rest [] = []
rest (c ∷ s) = s

-- `!strncmp(s, t, n)`
unfoldable pub same_start : ℕ → List ℕ → List ℕ → Bool
same_start zero s t = true
same_start (suc n) s t = byte s == byte t && (byte s == 0 || same_start n (rest s) (rest t))

-- `!strncmp(m.name, libname, strlen(libname))`
abbrev pub has_prefix : Map → List ℕ → Bool
has_prefix m libname = same_start (length libname) m.name libname

-- The loop of `get_map_index_by_name` from below: `n` rounds are left, the next one is at `i`.
unfoldable pub find_low : ℕ → ℕ → MemInfo → List ℕ → Option ℕ
find_low zero i ps libname = none
find_low (suc n) i ps libname =
    let later = find_low n (i + 1) ps libname in
    if has_prefix (get_or ps.maps i zero_map) libname
      && (ltb i (ps.maps_count - 1) && not (has_prefix (get_or ps.maps (i + 1) zero_map) libname))
    then some i
    else later

-- The loop from above: the next round is at `n - 1`.
unfoldable pub find_high : ℕ → MemInfo → List ℕ → Option ℕ
find_high zero ps libname = none
find_high (suc n) ps libname =
    let later = find_high n ps libname in
    if has_prefix (get_or ps.maps n zero_map) libname then some n else later

-- `get_map_index_by_name`; `none` is -1.
unfoldable pub get_map_index_by_name : MemInfo → List ℕ → Bool → Option ℕ
unfolding find_low find_high
get_map_index_by_name ps libname start_low =
    if start_low then find_low ps.maps_count 0 ps libname else find_high ps.maps_count ps libname

-- Two tables with the same names.
pub record SameNames (ps ps' : MemInfo) : Type 0 where
  pub count : ps.maps_count ≡ ps'.maps_count
  pub names :
      (i : ℕ)
      → i < ps.maps_count
      → (get_or ps.maps i zero_map).name ≡ (get_or ps'.maps i zero_map).name

module _ (ps ps' : MemInfo) (same : SameNames ps ps') (libname : List ℕ) where
  has_prefix-same :
      (i : ℕ)
      → i < ps.maps_count
      → has_prefix (get_or ps.maps i zero_map) libname
        ≡ has_prefix (get_or ps'.maps i zero_map) libname
  has_prefix-same i lt = ap (λ name. same_start (length libname) name libname) (same.names i lt)

  followed-same :
      (i : ℕ)
      → (ltb i (ps.maps_count - 1) && not (has_prefix (get_or ps.maps (i + 1) zero_map) libname))
        ≡ (ltb i (ps'.maps_count - 1)
            && not (has_prefix (get_or ps'.maps (i + 1) zero_map) libname))
  followed-same i = elim (Bool-cases (ltb i (ps.maps_count - 1))) [
    | inl within ↦
        let within' : ltb i (ps'.maps_count - 1) ≡ true = ground (arith, same.count) in
        rw (within, within', has_prefix-same (i + 1) (ground arith)) refl
    | inr last ↦
        let last' : ltb i (ps'.maps_count - 1) ≡ false = ground (arith, same.count) in
        rw (last, last') refl
  ]

  find_low-same :
      (n i : ℕ) → i + n ≡ ps.maps_count → find_low n i ps libname ≡ find_low n i ps' libname
  unfolding find_low
  find_low-same zero i e = refl
  find_low-same (suc n) i e =
      rw (has_prefix-same i (omega arith), followed-same i, find_low-same n (i + 1) (omega arith))
        refl

  find_high-same : (n : ℕ) → n ≤ ps.maps_count → find_high n ps libname ≡ find_high n ps' libname
  unfolding find_high
  find_high-same zero le = refl
  find_high-same (suc n) le =
      rw (has_prefix-same n (omega arith), find_high-same n (omega arith)) refl

  -- The search finds the same in both.
  pub get_map_index_by_name-same :
      (start_low : Bool)
      → get_map_index_by_name ps libname start_low ≡ get_map_index_by_name ps' libname start_low
  unfolding get_map_index_by_name
  get_map_index_by_name-same true =
      find_low-same ps.maps_count 0 (omega arith) ∙ ap (λ n. find_low n 0 ps' libname) same.count
  get_map_index_by_name-same false =
      find_high-same ps.maps_count (omega arith) ∙ ap (λ n. find_high n ps' libname) same.count

module _ (ps : MemInfo) (libname : List ℕ) where
  find_low-within : (n i k : ℕ) → find_low n i ps libname ≡ some k → k < i + n
  unfolding find_low
  find_low-within zero i k e = cc
  find_low-within (suc n) i k e =
      let later : find_low n (i + 1) ps libname ≡ some k → k < i + suc n =
        λ h. omega (arith, find_low-within n (i + 1) k h) in
      ground (arith, later)

  find_high-within : (n k : ℕ) → find_high n ps libname ≡ some k → k < n
  unfolding find_high
  find_high-within zero k e = cc
  find_high-within (suc n) k e =
      let later : find_high n ps libname ≡ some k → k < suc n =
        λ h. omega (arith, find_high-within n k h) in
      ground (arith, later)

  -- What the search finds is the index of a map.
  pub get_map_index_by_name-within :
      (start_low : Bool) (k : ℕ)
      → get_map_index_by_name ps libname start_low ≡ some k
      → k < ps.maps_count
  unfolding get_map_index_by_name
  get_map_index_by_name-within true k e = omega (arith, find_low-within ps.maps_count 0 k e)
  get_map_index_by_name-within false k e = find_high-within ps.maps_count k e
