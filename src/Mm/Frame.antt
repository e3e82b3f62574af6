-- ===== src/Mm/Frame.antt =====
-- get_free_page, free_page and mem_init of mm/memory.c.
pub mod Alloc
pub mod Release
use linux.Common.{
  ℕ, zero, suc, ◌+◌, ◌-◌, ◌*◌, ◌/◌, ◌%◌, Bool, Option, none, some, List, ltb, leb, ◌==◌,
  if◌then◌else◌, get_or, set, replicate,
}
use linux.Mm.{Mm, low_mem, paging_pages, map_nr, in_page, set_count, Outcome, ok, panic}

-- `repne scasb` downwards: the highest index below `n` whose byte is 0.
unfoldable pub find_free : List ℕ → ℕ → Option ℕ
find_free map zero = none
find_free map (suc i) = let rest = find_free map i in if get_or map i 1 == 0 then some i else rest

-- `rep stosl` from the last word of the page down.
unfoldable pub clear_page : ℕ → Mm → Mm
clear_page page mm = record mm { mem = λ a. if in_page page a then 0 else mm.mem a }

unfoldable pub get_free_page : Mm → ℕ × Mm
unfolding clear_page set_count
get_free_page mm = elim (find_free mm.mem_map paging_pages) [
  | none ↦ (0, mm)
  | some i ↦ let page = low_mem + i * 4096 in (page, clear_page page (set_count i 1 mm))
]

-- `mem_map[addr]--` leaves 255 in a byte that was 0, and the next line resets it.
unfoldable pub free_page : ℕ → Mm → Outcome (Unit {0})
unfolding set_count
free_page addr mm =
    if ltb addr low_mem
    then ok tt mm
    else if leb mm.high_memory addr
    then panic
    else let i = (addr - low_mem) / 4096 in
      let count = get_or mm.mem_map i 0 in
      if count == 0 then panic else ok tt (set_count i (count - 1) mm)

abbrev pub used : ℕ
used = 100

clear_counts : ℕ → ℕ → List ℕ → List ℕ
clear_counts zero i map = map
clear_counts (suc n) i map = clear_counts n (i + 1) (set map i 0)

-- `end_mem-->0` counts the pages between the two addresses.
pub mem_init : ℕ → ℕ → Mm → Mm
unfolding clear_counts
mem_init start_mem end_mem mm = record mm {
  high_memory = end_mem;
  mem_map =
      clear_counts ((end_mem - start_mem) / 4096) (map_nr start_mem) (replicate paging_pages used);
}

-- The count of `calc_mem`: the bytes of the map that are 0.
pub count_free : List ℕ → ℕ
count_free List.[] = 0
count_free (List.◌∷◌ c map) = (if c == 0 then 1 else 0) + count_free map
