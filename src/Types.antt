-- ===== src/Types.antt =====
-- groundhog_origin/src/structs.h: the records of the checkpointed and current process state, and
-- the macros on a pagemap entry.
use faasafe.Prelude.{ℕ, ◌/◌, ◌%◌, ◌^◌, Bool, false, not, ◌&&◌, List, [], ◌==◌, get_or}

-- `PSIZE`, `NAME_SIZE`, `INITIAL_NUMBER_OF_REGIONS`
abbrev pub page_size : ℕ
page_size = 4096

abbrev pub name_size : ℕ
name_size = 128

abbrev pub initial_number_of_regions : ℕ
initial_number_of_regions = 100

-- `map_t`. `name` holds the bytes before the zeros that fill the buffer. `uffdio_register` is left
-- out: no code reads or writes it. Each field holds a number of its C type, `offset` and `inode` those of a
-- `uint32_t` and the device numbers those of a `uint16_t`: only the parser sets them, which narrows them.
pub record Map : Type 0 where
  pub addr_start : ℕ
  pub addr_end : ℕ
  pub r : Bool
  pub w : Bool
  pub x : Bool
  pub p : Bool
  pub offset : ℕ
  pub dev_major : ℕ
  pub dev_minor : ℕ
  pub inode : ℕ
  pub total_num_pages : ℕ
  pub soft_dirty_count : ℕ
  pub freed_count : ℕ
  pub uffd_dirty_count : ℕ
  pub total_num_paged_pages : ℕ
  pub soft_dirty_paged_count : ℕ
  pub populated_num_pages : ℕ
  pub first_wmem_index : ℕ
  pub first_page_index : ℕ
  pub name : List ℕ
  pub dirty : Bool
  pub has_freed : Bool

-- `page_t`. `uffd_dirty` is left out: no code sets it or reads it.
pub record Page : Type 0 where
  pub addr_start : ℕ
  pub page_bits : ℕ
  pub pfn : ℕ
  pub soft_dirty : Bool
  pub file_or_anon : Bool
  pub exclusive : Bool
  pub swapped : Bool
  pub present : Bool
  pub is_freed : Bool
  pub map_index : ℕ

-- A byte for each address of a process, or for each offset in a buffer.
abbrev pub Bytes : Type 0
Bytes = ℕ → ℕ

-- `process_mem_info_t`. `maps` and `pages` are the allocated arrays, unused slots included; `wmem`
-- is the buffer of page copies. `regs` is left out: only the unused
-- `restore_registers` reads it.
pub record MemInfo : Type 0 where
  pub pid : ℕ
  pub maps_count : ℕ
  pub maps_max_capacity : ℕ
  pub pages_count : ℕ
  pub writable_pages_count : ℕ
  pub paged_pages_count : ℕ
  pub pages_max_capacity : ℕ
  pub max_num_pages_in_mem_region : ℕ
  pub maps : List Map
  pub pages : List Page
  pub wmem : Bytes

-- `process_mem_diff_t`
pub record MemDiff : Type 0 where
  pub added : MemInfo
  pub removed : MemInfo
  pub modified : MemInfo
  pub modified_protection : MemInfo

-- What `calloc` and `memset` leave in a slot.
abbrev pub zero_map : Map
zero_map = record {
  addr_start = 0;
  addr_end = 0;
  r = false;
  w = false;
  x = false;
  p = false;
  offset = 0;
  dev_major = 0;
  dev_minor = 0;
  inode = 0;
  total_num_pages = 0;
  soft_dirty_count = 0;
  freed_count = 0;
  uffd_dirty_count = 0;
  total_num_paged_pages = 0;
  soft_dirty_paged_count = 0;
  populated_num_pages = 0;
  first_wmem_index = 0;
  first_page_index = 0;
  name = [];
  dirty = false;
  has_freed = false;
}

abbrev pub zero_page : Page
zero_page = record {
  addr_start = 0;
  page_bits = 0;
  pfn = 0;
  soft_dirty = false;
  file_or_anon = false;
  exclusive = false;
  swapped = false;
  present = false;
  is_freed = false;
  map_index = 0;
}

-- Bit `k` of a pagemap entry.
abbrev pub bit : ℕ → ℕ → Bool
bit d k = d / 2 ^ k % 2 == 1

-- `GET_PAGE_PFN`: the lower 54 bits.
abbrev pub page_pfn : ℕ → ℕ
page_pfn d = d % 2 ^ 54

abbrev pub is_page_present : ℕ → Bool
is_page_present d = bit d 63

abbrev pub is_page_in_swap : ℕ → Bool
is_page_in_swap d = bit d 62

abbrev pub is_page_file_or_anon : ℕ → Bool
is_page_file_or_anon d = bit d 61

abbrev pub is_page_exclusive : ℕ → Bool
is_page_exclusive d = bit d 56

abbrev pub is_page_soft_dirty : ℕ → Bool
is_page_soft_dirty d = bit d 55

abbrev pub is_page_freed : ℕ → Bool
is_page_freed d =
    not (is_page_present d)
    && not (is_page_in_swap d)
    && not (is_page_exclusive d)
    && not (is_page_soft_dirty d)

-- `IS_MAP_WRITEABLE_ANON` and `IS_MAP_WRITEABLE_NON_ANON`
abbrev pub is_map_writeable_anon : Map → Bool
is_map_writeable_anon m = m.w && not (get_or m.name 0 0 == b'/')

abbrev pub is_map_writeable_non_anon : Map → Bool
is_map_writeable_non_anon m = m.w && get_or m.name 0 0 == b'/'
