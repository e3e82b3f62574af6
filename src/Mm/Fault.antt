-- ===== src/Mm/Fault.antt =====
-- The page-fault side of mm/memory.c: put_page, un_wp_page, do_wp_page, write_verify, get_empty_page
-- and try_to_share. The messages that put_page may print are left out: they change no state.
pub mod Private
pub mod Put
use linux.Common.{
  ℕ, ◌+◌, ◌-◌, ◌*◌, ◌/◌, ◌%◌, Bool, List, not, ◌&&◌, ◌||◌, ltb, leb, ◌==◌, if◌then◌else◌, get_or,
}
use linux.Mm.{
  Mm, low_mem, map_nr, page_of, present, or7, or2, clear2, dir_offset, table_offset, in_page, store,
  set_count, Outcome, ok, panic, exits, ◌>>=◌, ◌>>◌,
}
use linux.Mm.Frame.{get_free_page, free_page}

-- `oom` prints a message and calls `do_exit(SIGSEGV)`.
abbrev pub oom : {A : Type 0} → Outcome A
oom = exits 11

pub put_page : ℕ → ℕ → Mm → ℕ × Mm
unfolding store
put_page page address mm =
    let entry = dir_offset address in
    let (tmp, mm₁) = get_free_page mm in
    if present (mm.mem entry)
    then (page, store (page_of (mm.mem entry) + table_offset address) (or7 page) mm)
    else if tmp == 0
    then (0, mm₁)
    else (page, store (tmp + table_offset address) (or7 page) (store entry (or7 tmp) mm₁))

-- `rep movsl` over the 1024 words of a page.
copy_page : ℕ → ℕ → Mm → Mm
copy_page from to mm = record mm {
  mem = λ a. if in_page to a then mm.mem (a - to + from) else mm.mem a;
}

-- `mem_map[MAP_NR(old_page)]--` on an unsigned char.
drop_count : ℕ → Mm → Mm
unfolding set_count
drop_count old mm =
    if leb low_mem old
    then set_count (map_nr old) ((get_or mm.mem_map (map_nr old) 0 + 255) % 256) mm
    else mm

pub un_wp_page : ℕ → Mm → Outcome (Unit {0})
unfolding store copy_page drop_count
un_wp_page entry mm =
    let old = page_of (mm.mem entry) in
    let (new, mm₁) = get_free_page mm in
    if leb low_mem old && get_or mm.mem_map (map_nr old) 0 == 1
    then ok tt (store entry (or2 (mm.mem entry)) mm)
    else if new == 0
    then oom
    else ok tt (copy_page old new (store entry (or7 new) (drop_count old mm₁)))

-- The entry of an address in the page table that the directory names for it.
abbrev pub table_entry : Mm → ℕ → ℕ
table_entry mm address = page_of (mm.mem (dir_offset address)) + table_offset address

pub do_wp_page : ℕ → ℕ → Mm → Outcome (Unit {0})
unfolding un_wp_page
do_wp_page error_code address mm = un_wp_page (table_entry mm address) mm

-- `(3 & entry) == 1`: present and not writable.
pub write_verify : ℕ → Mm → Outcome (Unit {0})
unfolding un_wp_page
write_verify address mm =
    if not (present (mm.mem (dir_offset address)))
    then ok tt mm
    else if mm.mem (table_entry mm address) % 4 == 1
    then un_wp_page (table_entry mm address) mm
    else ok tt mm

pub get_empty_page : ℕ → Mm → Outcome (Unit {0})
unfolding put_page
get_empty_page address mm =
    let (tmp, mm₁) = get_free_page mm in
    let (put, mm₂) = put_page tmp address mm₁ in
    let no_page = free_page tmp mm₁ >> (λ mm'. oom) in
    let no_table = free_page tmp mm₂ >> (λ mm'. oom) in
    if tmp == 0 then no_page else if put == 0 then no_table else ok tt mm₂

-- The tail of try_to_share, from the line that finds the table of the current task on.
share_entry : ℕ → ℕ → ℕ → Mm → Outcome Bool
unfolding store set_count
share_entry from to phys mm =
    if present (mm.mem to)
    then panic
    else let mm₁ = store from (clear2 (mm.mem from)) mm in
      let mm₂ = store to (mm₁.mem from) mm₁ in
      let i = (phys - low_mem) / 4096 in
      ok Bool.true (set_count i ((get_or mm₂.mem_map i 0 + 1) % 256) mm₂)

-- `phys_addr & 0x41`: the present and the dirty bit.
abbrev pub clean_present : ℕ → Bool
clean_present e = e % 2 == 1 && e / 64 % 2 == 0

-- `start_code` and `current_start` are those of the other and of the current task.
pub try_to_share : ℕ → ℕ → ℕ → Mm → Outcome Bool
unfolding share_entry
try_to_share address start_code current_start mm =
    let from_dir = dir_offset address + dir_offset start_code in
    let to_dir = dir_offset address + dir_offset current_start in
    let from = page_of (mm.mem from_dir) + table_offset address in
    let phys = page_of (mm.mem from) in
    let (tmp, mm₁) = get_free_page mm in
    if not (present (mm.mem from_dir))
    then ok Bool.false mm
    else if not (clean_present (mm.mem from))
    then ok Bool.false mm
    else if leb mm.high_memory phys || ltb phys low_mem
    then ok Bool.false mm
    else if present (mm.mem to_dir)
    then share_entry from (page_of (mm.mem to_dir) + table_offset address) phys mm
    else if tmp == 0
    then oom
    else share_entry from (tmp + table_offset address) phys (store to_dir (or7 tmp) mm₁)
